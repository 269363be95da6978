-- ===== src/Memory.antt =====
-- core/memory.c: the count of live blocks, which jalloc raises and jree lowers, and jtrdup. What the
-- heap grants is in Common (jalloc, jealloc); jealloc leaves the count as it is.
use kiv_pc_sw.Prelude.{ℕ, zero, suc, ◌+◌, Option, none, some, if◌then◌else◌, length}
use kiv_pc_sw.Prelude.Text.{Text}
use kiv_pc_sw.Common.{Allocator, jalloc}

-- alloc_count, or the end of the program by a failed assertion.
pub data Live : Type 0 where
  live : ℕ → Live
  aborted : Live

abbrev pub count_up : Live → Live
count_up (live n) = live (suc n)
count_up aborted = aborted

-- What a call of jalloc makes of the count.
unfoldable pub jalloc_count : Allocator → ℕ → Live → Live
jalloc_count m bytes c = if jalloc m bytes then count_up c else c

-- jree of a block that is not NULL: assert (alloc_count > 0), then --alloc_count.
abbrev pub jree : Live → Live
jree (live zero) = aborted
jree (live (suc n)) = live n
jree aborted = aborted

-- Two parts of the count, each of its own blocks.
abbrev pub both : Live → Live → Live
both (live n) (live k) = live (n + k)
both _ _ = aborted

-- assert (jemory () == 0)
abbrev pub assert_none_left : Live → Live
assert_none_left (live zero) = live zero
assert_none_left _ = aborted

-- The copy of a string on the heap.
unfoldable pub jtrdup : Allocator → Text → Option Text
jtrdup m str1 = if jalloc m (length str1 + 1) then some str1 else none
