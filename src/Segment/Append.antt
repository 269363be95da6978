-- ===== src/Segment/Append.antt =====
-- The appending operations against the abstract view of a segment, the list of its bytes in use.
use mathlib.Core.List.{append-nil}
use kiv_pc_sw.Prelude.{
  ℕ, suc, ◌+◌, ◌≤◌, ◌<◌, ◌≡◌, Bool, true, false, List, [], ◌∷◌, ◌++◌, sym, suc_ne_zero, arith,
  if◌then◌else◌, length, length-set, length-write, take, take-set, take-write, write, set, ap, refl,
  ◌∙◌,
}
use kiv_pc_sw.Common.{size_max, Allocator}
use kiv_pc_sw.Segment.{Segment, IsBuffer, contents, app_b, app_bs, app_imm, word_bytes}
use kiv_pc_sw.Segment.Grow.{HasRoom, Ensured, roomy, overflowed, refused, ensure_capacity-Ensured}

-- The outcome of appending `bs`: the bytes follow those in use, or nothing changes, and then the
-- size would pass SIZE_MAX or the heap gave no larger buffer.
pub data Appended (m : Allocator) (s : Segment) (bs : List ℕ) : Bool × Segment → Type 0 where
  appended :
      {t : Segment}
      → IsBuffer t
      → contents t ≡ contents s ++ bs
      → t.size ≡ s.size + length bs
      → Appended m s bs (true, t)
  too_large : size_max < s.size + length bs → Appended m s bs (false, s)
  no_memory : {c : ℕ} → m.grants c ≡ false → Appended m s bs (false, s)

app_b-roomy :
    (m : Allocator) (s : Segment) (b : ℕ) {t : Segment}
    → HasRoom s 1 t
    → Appended m s (b ∷ []) (true, record t { bytes = set t.bytes t.size b; size = t.size + 1 })
app_b-roomy m s b {t} r =
    let in_range : t.size < length t.bytes =
      omega (arith, r.room, r.size_same, r.buffer.allocated) in
    appended
      (record {
        allocated = length-set t.bytes t.size b ∙ r.buffer.allocated;
        within = omega (arith, r.room, r.size_same);
        bounded = r.buffer.bounded;
      })
      (ap (λ k. take k (set t.bytes t.size b)) {y = suc t.size} (omega arith)
        ∙ take-set t.size t.bytes b in_range
        ∙ ap (λ k. take k t.bytes ++ (b ∷ [])) r.size_same
        ∙ ap (λ l. l ++ (b ∷ [])) r.kept)
      (omega (arith, r.size_same))

app_b_of :
    (m : Allocator) (s : Segment) (b : ℕ) {o : Bool × Segment}
    → Ensured m s 1 o
    → Appended m s (b ∷ []) (
        if o.0
        then (true, record (o.1) { bytes = set o.1.bytes o.1.size b; size = o.1.size + 1 })
        else (false, o.1))
app_b_of m s b (roomy r) = app_b-roomy m s b r
app_b_of m s b (overflowed h) = too_large h
app_b_of m s b (refused g h) = no_memory g

-- On a proper buffer, cdsg_app_b either puts the byte behind the bytes in use and leaves a proper
-- buffer, or changes nothing, and then the size would pass SIZE_MAX or the heap refused a block.
pub app_b-Appended :
    (m : Allocator) (s : Segment) (b : ℕ) → IsBuffer s → Appended m s (b ∷ []) (app_b m s b)
unfolding app_b
app_b-Appended m s b h = app_b_of m s b (ensure_capacity-Ensured m s 1 h (omega arith))

app_bs-roomy :
    (m : Allocator) (s : Segment) (bs : List ℕ) {t : Segment}
    → HasRoom s (length bs) t
    → Appended m s bs
        (true, record t { bytes = write t.bytes t.size bs; size = t.size + length bs })
app_bs-roomy m s bs {t} r =
    let in_range : t.size + length bs ≤ length t.bytes =
      omega (arith, r.room, r.size_same, r.buffer.allocated) in
    appended
      (record {
        allocated = length-write t.bytes t.size bs in_range ∙ r.buffer.allocated;
        within = omega (arith, r.room, r.size_same);
        bounded = r.buffer.bounded;
      })
      (take-write t.bytes t.size bs in_range
        ∙ ap (λ k. take k t.bytes ++ bs) r.size_same
        ∙ ap (λ l. l ++ bs) r.kept)
      (omega (arith, r.size_same))

pub app_bs_of :
    (m : Allocator) (s : Segment) (bs : List ℕ) {o : Bool × Segment}
    → Ensured m s (length bs) o
    → Appended m s bs (
        if o.0
        then (
          true,
          record (o.1) { bytes = write o.1.bytes o.1.size bs; size = o.1.size + length bs },
        )
        else (false, o.1))
app_bs_of m s bs (roomy r) = app_bs-roomy m s bs r
app_bs_of m s bs (overflowed h) = too_large h
app_bs_of m s bs (refused g h) = no_memory g

-- On a proper buffer and for at most SIZE_MAX bytes, cdsg_app_bs either puts the bytes behind the
-- bytes in use and leaves a proper buffer, or changes nothing, and then the size would pass
-- SIZE_MAX or the heap refused a block. An empty run changes nothing.
pub app_bs-Appended :
    (m : Allocator) (s : Segment) (bs : List ℕ)
    → IsBuffer s
    → length bs ≤ size_max
    → Appended m s bs (app_bs m s bs)
unfolding app_bs
app_bs-Appended m s [] h l = appended h (sym (append-nil (contents s))) (omega arith)
app_bs-Appended m s (b ∷ bs) h l =
    rw (suc_ne_zero (length bs))
      (app_bs_of m s (b ∷ bs) (ensure_capacity-Ensured m s (suc (length bs)) h l))

-- On a proper buffer, cdsg_app_imm either appends the four bytes of the 32-bit value, the low one
-- first, and leaves a proper buffer, or changes nothing, and then the size would pass SIZE_MAX or
-- the heap refused a block.
pub app_imm-Appended :
    (m : Allocator) (s : Segment) (w : ℕ) → IsBuffer s → Appended m s (word_bytes w) (app_imm m s w)
unfolding app_imm
app_imm-Appended m s w h = app_bs-Appended m s (word_bytes w) h (omega arith)

-- A heap that grants every block never makes an append fail below SIZE_MAX.
pub Appended-total :
    {m : Allocator} {s : Segment} {bs : List ℕ} {o : Bool × Segment}
    → Appended m s bs o
    → ((n : ℕ) → m.grants n ≡ true)
    → s.size + length bs ≤ size_max
    → o.0 ≡ true
Appended-total (appended b c z) g h = refl
Appended-total (too_large l) g h = absurd (omega arith)
Appended-total (no_memory {c} e) g h = cc (g c)

-- A successful append, taken apart.
pub Appended-ok :
    {m : Allocator} {s : Segment} {bs : List ℕ} {o : Bool × Segment}
    → Appended m s bs o
    → o.0 ≡ true
    → IsBuffer o.1 × (contents o.1 ≡ contents s ++ bs) × (o.1.size ≡ s.size + length bs)
Appended-ok (appended b c z) h = (b, c, z)
Appended-ok (too_large l) h = cc
Appended-ok (no_memory e) h = cc

-- If the heap grants every block, cdsg_app_bs succeeds on a proper buffer whenever the new size is
-- at most SIZE_MAX.
pub app_bs_total :
    (m : Allocator) (s : Segment) (bs : List ℕ)
    → IsBuffer s
    → ((n : ℕ) → m.grants n ≡ true)
    → s.size + length bs ≤ size_max
    → (app_bs m s bs).0 ≡ true
app_bs_total m s bs h g fits = Appended-total (app_bs-Appended m s bs h (omega arith)) g fits
