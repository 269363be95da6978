-- ===== src/Segment/Grow.antt =====
-- The growth loop of _cdsg_ensure_capacity ends with room for the request.
use kiv_pc_sw.Prelude.{
  ℕ, zero, suc, ◌+◌, ◌-◌, ◌*◌, ◌/◌, ◌^◌, ◌≤◌, ◌<◌, ◌≡◌, Bool, true, false, List, ◌++◌, arith, ltb,
  length, length-append, length-take, take, take-length, take-append_le, ap, refl, ◌∙◌, leb, ◌==◌,
  Bool-cases, inl, inr,
}
use native.Mathlib.Nat.{pow-suc}
use kiv_pc_sw.Common.{size_max, Allocator, residues, realloc_bytes, jealloc}
use kiv_pc_sw.Segment.{Segment, grow_capacity, next_capacity, ensure_capacity, IsBuffer}

pub length-residues : (f : ℕ → ℕ) (n : ℕ) → length (residues f n) ≡ n
length-residues f zero = refl
length-residues f (suc n) = ap suc (length-residues f n)

pub length-realloc_bytes :
    (m : Allocator) (old : List ℕ) (n : ℕ) → length old ≤ n → length (realloc_bytes m old n) ≡ n
length-realloc_bytes m old n h = omega (
  arith,
  length-append (take n old) (residues m.residue (n - length old)),
  length-take n old,
  length-residues m.residue (n - length old),
)

-- With enough rounds the loop ends by its test or at SIZE_MAX, so at or above the request.
grow_capacity_enough :
    (fuel c req : ℕ) → req ≤ c * 2 ^ fuel → req ≤ size_max → req ≤ grow_capacity fuel c req
unfolding grow_capacity
grow_capacity_enough zero c req h r = omega arith
grow_capacity_enough (suc fuel) c req h r = ground (
  arith,
  grow_capacity_enough fuel (c * 2) req (omega (arith, ap (λ (t : ℕ). c * t) (pow-suc 2 fuel))) r,
)

grow_capacity_bounds :
    (fuel c req : ℕ)
    → c ≤ size_max
    → (c ≤ grow_capacity fuel c req) × (grow_capacity fuel c req ≤ size_max)
unfolding grow_capacity
grow_capacity_bounds zero c req h = omega arith
grow_capacity_bounds (suc fuel) c req h = elim (Bool-cases (ltb (size_max / 2) c)) [
  | inl big ↦ rw big (ground arith)
  | inr small ↦ rw small (ground (arith, grow_capacity_bounds fuel (c * 2) req))
]

next_capacity_enough : (capacity req : ℕ) → req ≤ size_max → (req ≤ next_capacity capacity req)
unfolding next_capacity
next_capacity_enough zero req h = grow_capacity_enough 64 16 req (omega arith) h
next_capacity_enough (suc c) req h =
    ground (arith, grow_capacity_enough 64 (suc c) req (omega arith) h)

next_capacity_bounds :
    (capacity req : ℕ)
    → capacity ≤ size_max
    → (capacity ≤ next_capacity capacity req) × (next_capacity capacity req ≤ size_max)
unfolding next_capacity
next_capacity_bounds zero req h = omega (arith, (grow_capacity_bounds 64 16 req (omega arith)).1)
next_capacity_bounds (suc c) req h = ground (arith, grow_capacity_bounds 64 (suc c) req h)

-- What a successful _cdsg_ensure_capacity gives its caller.
pub record HasRoom (s : Segment) (n : ℕ) (t : Segment) : Type 0 where
  pub buffer : IsBuffer t
  pub size_same : t.size ≡ s.size
  pub room : s.size + n ≤ t.capacity
  pub kept : take s.size t.bytes ≡ take s.size s.bytes

-- The reallocated segment.
regrown : Allocator → Segment → ℕ → Segment
regrown m s n =
    let new_c = next_capacity s.capacity (s.size + n) in
    record s { bytes = realloc_bytes m s.bytes new_c; capacity = new_c }

regrown-HasRoom :
    (m : Allocator) (s : Segment) (n : ℕ)
    → IsBuffer s
    → s.size + n ≤ size_max
    → HasRoom s n (regrown m s n)
unfolding regrown
regrown-HasRoom m s n b h =
    let enough = next_capacity_enough s.capacity (s.size + n) h in
    let bounds = next_capacity_bounds s.capacity (s.size + n) b.bounded in
    let new_c = next_capacity s.capacity (s.size + n) in
    let fits : length s.bytes ≤ new_c = omega (arith, bounds, b.allocated) in
    record {
      buffer = record {
        allocated = length-realloc_bytes m s.bytes new_c fits;
        within = omega (arith, enough);
        bounded = bounds.1;
      };
      size_same = refl;
      room = enough;
      kept =
          ap (λ l. take s.size (l ++ residues m.residue (new_c - length s.bytes)))
            (take-length new_c s.bytes fits)
          ∙ take-append_le s.size s.bytes _ (omega (arith, b.allocated, b.within));
    }

-- The outcome of _cdsg_ensure_capacity on each branch.
pub data Ensured (m : Allocator) (s : Segment) (n : ℕ) : Bool × Segment → Type 0 where
  roomy : {t : Segment} → HasRoom s n t → Ensured m s n (true, t)
  overflowed : size_max < s.size + n → Ensured m s n (false, s)
  refused : {c : ℕ} → m.grants c ≡ false → s.capacity < s.size + n → Ensured m s n (false, s)

-- On a proper buffer and a request of at most SIZE_MAX bytes, _cdsg_ensure_capacity either leaves
-- a proper buffer with room for the request and the same bytes in use, or changes nothing, and
-- then the size would pass SIZE_MAX or the heap refused a block that was needed.
pub ensure_capacity-Ensured :
    (m : Allocator) (s : Segment) (n : ℕ)
    → IsBuffer s
    → n ≤ size_max
    → Ensured m s n (ensure_capacity m s n)
unfolding ensure_capacity regrown jealloc
ensure_capacity-Ensured m s n b h = elim (Bool-cases (n == 0)) [
  | inl none ↦ rw none (
      roomy (record { buffer = b; size_same = refl; room = ground (arith, b.within); kept = refl }))
  | inr some ↦ rw some (elim (Bool-cases (ltb (size_max - n) s.size)) [
    | inl over ↦ rw over (overflowed (ground arith))
    | inr under ↦ rw under (elim (Bool-cases (leb (s.size + n) s.capacity)) [
      | inl fits ↦
          rw fits
            (roomy (record { buffer = b; size_same = refl; room = ground arith; kept = refl }))
      | inr full ↦ rw full (elim (Bool-cases (m.grants (next_capacity s.capacity (s.size + n)))) [
        | inl granted ↦ rw granted (roomy (regrown-HasRoom m s n b (ground arith)))
        | inr denied ↦ rw denied (refused denied (ground arith))
      ])
    ])
  ])
]
