-- ===== src/Segment.antt =====
-- data_structures/codeseg.c: the code segment, a byte buffer that grows. dataseg.c has the same
-- structure and the same shared operations (Dataseg.antt). Pointers handed to these functions are
-- not NULL. An operation on a segment returns its int result beside the segment it leaves.
pub mod Grow
pub mod Append
pub mod Free
mod Tests
use kiv_pc_sw.Prelude.{
  ℕ, zero, suc, ◌+◌, ◌-◌, ◌*◌, ◌/◌, ◌%◌, ◌^◌, ◌≤◌, ◌≡◌, Bool, true, false, List, [], ◌∷◌, Option,
  none, some, ltb, leb, ◌==◌, if◌then◌else◌, length, set, take, write, replicate,
}
use kiv_pc_sw.Common.{
  size_max, dynamic_array_initial_capacity, dynamic_array_growth_multiplier, Allocator, jalloc,
  jealloc, realloc_bytes,
}

-- `bytes` is the whole allocated buffer.
pub record Segment : Type 0 where
  pub bytes : List ℕ
  pub size : ℕ
  pub capacity : ℕ

-- 24 bytes for the struct, then the buffer.
unfoldable pub create : Allocator → Option Segment
create m =
    if jalloc m 24
    then (if jalloc m dynamic_array_initial_capacity
        then some (record {
          bytes = replicate dynamic_array_initial_capacity 0;
          size = 0;
          capacity = dynamic_array_initial_capacity;
        })
        else none)
    else none

-- The while loop over `new_c`, with fuel; Grow shows that 64 rounds are enough.
unfoldable pub grow_capacity : ℕ → ℕ → ℕ → ℕ
grow_capacity zero new_c req = new_c
grow_capacity (suc fuel) new_c req =
    let rest = grow_capacity fuel (new_c * dynamic_array_growth_multiplier) req in
    if ltb new_c req
    then (if ltb (size_max / dynamic_array_growth_multiplier) new_c then size_max else rest)
    else new_c

abbrev pub grow_fuel : ℕ
grow_fuel = 64

-- The capacity that a request for `req` bytes leads to.
unfoldable pub next_capacity : ℕ → ℕ → ℕ
next_capacity capacity req =
    grow_capacity grow_fuel (if capacity == 0 then dynamic_array_initial_capacity else capacity) req

unfoldable pub ensure_capacity : Allocator → Segment → ℕ → Bool × Segment
ensure_capacity m s additional_b =
    if additional_b == 0
    then (true, s)
    else if ltb (size_max - additional_b) s.size
    then (false, s)
    else if leb (s.size + additional_b) s.capacity
    then (true, s)
    else let new_c = next_capacity s.capacity (s.size + additional_b) in
      if jealloc m new_c
      then (true, record s { bytes = realloc_bytes m s.bytes new_c; capacity = new_c })
      else (false, s)

unfoldable pub app_b : Allocator → Segment → ℕ → Bool × Segment
app_b m s b =
    let (done, s') = ensure_capacity m s 1 in
    if done
    then (true, record s' { bytes = set s'.bytes s'.size b; size = s'.size + 1 })
    else (false, s')

-- `count` is the length of the array that is handed over.
unfoldable pub app_bs : Allocator → Segment → List ℕ → Bool × Segment
app_bs m s bs =
    if length bs == 0
    then (true, s)
    else let (done, s') = ensure_capacity m s (length bs) in
      if done
      then (true, record s' { bytes = write s'.bytes s'.size bs; size = s'.size + length bs })
      else (false, s')

unfoldable pub app_op : Allocator → Segment → ℕ → Bool × Segment
app_op m s opcode = app_b m s opcode

unfoldable pub app_reg : Allocator → Segment → ℕ → Bool × Segment
app_reg m s reg_code = app_b m s reg_code

-- The bytes of a 32-bit word, the low one first. An int32_t is its bit pattern.
abbrev pub word_bytes : ℕ → List ℕ
word_bytes w = (w % 256) ∷ (w / 2 ^ 8 % 256) ∷ (w / 2 ^ 16 % 256) ∷ (w / 2 ^ 24 % 256) ∷ []

unfoldable pub app_imm : Allocator → Segment → ℕ → Bool × Segment
app_imm m s imm32b_v = app_bs m s (word_bytes imm32b_v)

unfoldable pub get_size : Segment → ℕ
get_size s = s.size

-- SIZE_MAX is the failure.
unfoldable pub advance : Segment → ℕ → ℕ × Segment
advance s num_bytes =
    if ltb (size_max - num_bytes) s.size
    then (size_max, s)
    else (s.size, record s { size = s.size + num_bytes })

unfoldable pub begin : Segment → Segment
begin s = record s { size = 0 }

-- The bytes in use.
abbrev pub contents : Segment → List ℕ
contents s = take s.size s.bytes

-- A buffer that is as long as it says, and not overrun.
pub record IsBuffer (s : Segment) : Type 0 where
  pub allocated : length s.bytes ≡ s.capacity
  pub within : s.size ≤ s.capacity
  pub bounded : s.capacity ≤ size_max
