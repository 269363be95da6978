-- ===== src/Dataseg.antt =====
-- data_structures/dataseg.c: the data segment. The struct and the functions create, app_b, app_bs,
-- get_size, advance, begin and ensure_capacity read as those of codeseg.c word for word, and stand
-- here under the data segment's names; the others are the data segment's own.
pub mod Append
mod Tests
use kiv_pc_sw.Prelude.{
  ℕ, zero, suc, ◌*◌, ◌%◌, ◌^◌, Bool, true, false, List, [], ◌∷◌, Option, ◌==◌, ◌+◌, if◌then◌else◌,
  length, write, replicate,
}
use kiv_pc_sw.Common.{Allocator, kma_dword_size, kma_byte_size}
use kiv_pc_sw.Segment
use kiv_pc_sw.Segment.{Segment, word_bytes}

abbrev pub create : Allocator → Option Segment
create = Segment.create

abbrev pub ensure_capacity : Allocator → Segment → ℕ → Bool × Segment
ensure_capacity = Segment.ensure_capacity

abbrev pub app_b : Allocator → Segment → ℕ → Bool × Segment
app_b = Segment.app_b

abbrev pub app_bs : Allocator → Segment → List ℕ → Bool × Segment
app_bs = Segment.app_bs

abbrev pub get_size : Segment → ℕ
get_size = Segment.get_size

abbrev pub advance : Segment → ℕ → ℕ × Segment
advance = Segment.advance

abbrev pub begin : Segment → Segment
begin = Segment.begin

-- The shift-and-mask loop over the four bytes of the word.
unfoldable pub app_dw : Allocator → Segment → ℕ → Bool × Segment
app_dw m s dw = app_bs m s (word_bytes dw)

-- The loop of dtsg_app_dw_n over the rounds left.
unfoldable pub app_dw_loop : Allocator → Segment → ℕ → ℕ → Bool × Segment
app_dw_loop m s dw zero = (true, s)
app_dw_loop m s dw (suc n) =
    let (done, s') = app_dw m s dw in
    let rest = app_dw_loop m s' dw n in if done then rest else (false, s')

-- `n * KMA_DWORD_SIZE` is computed in size_t.
unfoldable pub app_dw_n : Allocator → Segment → ℕ → ℕ → Bool × Segment
app_dw_n m s dw n =
    if n == 0
    then (true, s)
    else let (done, s') = ensure_capacity m s (n * kma_dword_size % 2 ^ 64) in
      if done then app_dw_loop m s' dw n else (false, s')

-- memset of `n` bytes behind those in use.
unfoldable pub app_b_n : Allocator → Segment → ℕ → ℕ → Bool × Segment
app_b_n m s b n =
    if n == 0
    then (true, s)
    else let (done, s') = ensure_capacity m s n in
      if done
      then (true, record s' { bytes = write s'.bytes s'.size (replicate n b); size = s'.size + n })
      else (false, s')

unfoldable pub app_dws : Allocator → Segment → List ℕ → Bool × Segment
app_dws m s [] = (true, s)
app_dws m s (dw ∷ dws) =
    let (done, s') = app_dw m s dw in
    let rest = app_dws m s' dws in if done then rest else (false, s')

-- The string comes without its NUL, and so does what is appended.
unfoldable pub app_str : Allocator → Segment → List ℕ → Bool × Segment
app_str m s string =
    if length string == 0
    then (true, s)
    else let (done, s') = ensure_capacity m s (length string) in
      if done
      then (
        true,
        record s' { bytes = write s'.bytes s'.size string; size = s'.size + length string },
      )
      else (false, s')

unfoldable pub app_zs : Allocator → Segment → ℕ → Bool × Segment
app_zs m s zero = (true, s)
app_zs m s (suc count) =
    let (done, s') = app_b m s 0 in
    let rest = app_zs m s' count in if done then rest else (false, s')
