-- ===== src/Dataseg/Append.antt =====
-- The data segment's appends against the list of its bytes in use: what each of them appends.
use mathlib.Core.List.{append-nil, append_assoc}
use kiv_pc_sw.Prelude.{
  ℕ, zero, suc, ◌+◌, ◌≤◌, ◌*◌, ◌%◌, ◌^◌, ◌≡◌, Bool, true, false, List, [], ◌∷◌, ◌++◌, sym,
  suc_ne_zero, arith, if◌then◌else◌, length, length-append, length-replicate, replicate, ap, subst,
  take, refl, ◌∙◌, write,
}
use kiv_pc_sw.Common.{size_max, Allocator}
use kiv_pc_sw.Segment.{Segment, IsBuffer, contents, word_bytes, ensure_capacity, app_b}
use kiv_pc_sw.Segment.Grow.{HasRoom, Ensured, roomy, overflowed, refused, ensure_capacity-Ensured}
use kiv_pc_sw.Segment.Append.{
  Appended, appended, too_large, no_memory, app_bs_of, app_bs-Appended, app_b-Appended,
}
use kiv_pc_sw.Dataseg.{app_dw, app_dw_loop, app_dw_n, app_b_n, app_dws, app_str, app_zs}

-- What a successful append does to a buffer; of a failed one nothing is claimed, since the loops
-- below can stop halfway.
pub record Extends (s : Segment) (bs : List ℕ) (t : Segment) : Type 0 where
  pub buffer : IsBuffer t
  pub appends : contents t ≡ contents s ++ bs
  pub grows : t.size ≡ s.size + length bs

pub Extends-nil : (s : Segment) → IsBuffer s → Extends s [] s
Extends-nil s b = record {
  buffer = b;
  appends = sym (append-nil (contents s));
  grows = omega arith;
}

pub Extends-trans :
    {s t u : Segment} {xs ys : List ℕ} → Extends s xs t → Extends t ys u → Extends s (xs ++ ys) u
Extends-trans {s} {t} {u} {xs} {ys} p q = record {
  buffer = q.buffer;
  appends = q.appends ∙ ap (λ l. l ++ ys) p.appends ∙ append_assoc (contents s) xs ys;
  grows = omega (arith, p.grows, q.grows, length-append xs ys);
}

pub Appended-Extends :
    {m : Allocator} {s : Segment} {bs : List ℕ} {o : Bool × Segment}
    → Appended m s bs o
    → o.0 ≡ true
    → Extends s bs o.1
Appended-Extends (appended b c z) h = record { buffer = b; appends = c; grows = z }
Appended-Extends (too_large l) h = cc
Appended-Extends (no_memory e) h = cc

pub app_dw-Appended :
    (m : Allocator) (s : Segment) (dw : ℕ)
    → IsBuffer s
    → Appended m s (word_bytes dw) (app_dw m s dw)
unfolding app_dw
app_dw-Appended m s dw h = app_bs-Appended m s (word_bytes dw) h (omega arith)

-- `n` copies of a word, byte by byte.
abbrev pub repeated : ℕ → ℕ → List ℕ
repeated dw zero = []
repeated dw (suc n) = word_bytes dw ++ repeated dw n

pub length-repeated : (dw n : ℕ) → length (repeated dw n) ≡ n * 4
length-repeated dw zero = refl
length-repeated dw (suc n) =
    omega (arith, length-append (word_bytes dw) (repeated dw n), length-repeated dw n)

-- A step that goes on only if it was done: both parts were done, and the second is the outcome.
then_ok :
    (o r : Bool × Segment)
    → (if o.0 then r else (false, o.1)).0 ≡ true
    → (o.0 ≡ true) × (r.0 ≡ true) × ((if o.0 then r else (false, o.1)) ≡ r)
then_ok (true, s) r h = (refl, h, refl)
then_ok (false, s) r h = cc

app_dw_loop-Extends :
    (m : Allocator) (s : Segment) (dw n : ℕ)
    → IsBuffer s
    → (app_dw_loop m s dw n).0 ≡ true
    → Extends s (repeated dw n) (app_dw_loop m s dw n).1
unfolding app_dw_loop
app_dw_loop-Extends m s dw zero b h = Extends-nil s b
app_dw_loop-Extends m s dw (suc n) b h =
    let (here, later, e) = then_ok (app_dw m s dw) (app_dw_loop m (app_dw m s dw).1 dw n) h in
    let first = Appended-Extends (app_dw-Appended m s dw b) here in
    rw e (Extends-trans first (app_dw_loop-Extends m (app_dw m s dw).1 dw n first.buffer later))

-- If dtsg_app_zs succeeds on a proper buffer, it appended as many zero bytes as asked for and left
-- a proper buffer.
pub app_zs-Extends :
    (m : Allocator) (s : Segment) (n : ℕ)
    → IsBuffer s
    → (app_zs m s n).0 ≡ true
    → Extends s (replicate n 0) (app_zs m s n).1
unfolding app_zs
app_zs-Extends m s zero b h = Extends-nil s b
app_zs-Extends m s (suc n) b h =
    let (here, later, e) = then_ok (app_b m s 0) (app_zs m (app_b m s 0).1 n) h in
    let first = Appended-Extends (app_b-Appended m s 0 b) here in
    rw e (Extends-trans first (app_zs-Extends m (app_b m s 0).1 n first.buffer later))

-- The words of an array, byte by byte.
abbrev pub words : List ℕ → List ℕ
words [] = []
words (dw ∷ dws) = word_bytes dw ++ words dws

-- If dtsg_app_dws succeeds on a proper buffer, it appended the bytes of the words in order and
-- left a proper buffer.
pub app_dws-Extends :
    (m : Allocator) (s : Segment) (dws : List ℕ)
    → IsBuffer s
    → (app_dws m s dws).0 ≡ true
    → Extends s (words dws) (app_dws m s dws).1
unfolding app_dws
app_dws-Extends m s [] b h = Extends-nil s b
app_dws-Extends m s (dw ∷ dws) b h =
    let (here, later, e) = then_ok (app_dw m s dw) (app_dws m (app_dw m s dw).1 dws) h in
    let first = Appended-Extends (app_dw-Appended m s dw b) here in
    rw e (Extends-trans first (app_dws-Extends m (app_dw m s dw).1 dws first.buffer later))

-- On a proper buffer and for a string of at most SIZE_MAX characters, dtsg_app_str either appends
-- the characters without the closing NUL and leaves a proper buffer, or changes nothing, and then
-- the size would pass SIZE_MAX or the heap refused a block.
pub app_str-Appended :
    (m : Allocator) (s : Segment) (string : List ℕ)
    → IsBuffer s
    → length string ≤ size_max
    → Appended m s string (app_str m s string)
unfolding app_str
app_str-Appended m s [] b l = appended b (sym (append-nil (contents s))) (omega arith)
app_str-Appended m s (c ∷ cs) b l =
    rw (suc_ne_zero (length cs))
      (app_bs_of m s (c ∷ cs) (ensure_capacity-Ensured m s (suc (length cs)) b l))

app_b_n_of :
    (m : Allocator) (s : Segment) (b n : ℕ) {o : Bool × Segment}
    → Ensured m s n o
    → Appended m s (replicate n b) (
        if o.0
        then (
          true,
          record (o.1) { bytes = write o.1.bytes o.1.size (replicate n b); size = o.1.size + n },
        )
        else (false, o.1))
app_b_n_of m s b n {o} e =
    subst
      (λ k. Appended m s (replicate n b) (
        if o.0
        then (
          true,
          record (o.1) { bytes = write o.1.bytes o.1.size (replicate n b); size = o.1.size + k },
        )
        else (false, o.1)))
      (length-replicate n b)
      (app_bs_of m s (replicate n b) (subst (λ k. Ensured m s k o) (sym (length-replicate n b)) e))

-- On a proper buffer and for at most SIZE_MAX copies, dtsg_app_b_n either appends that many copies
-- of the byte and leaves a proper buffer, or changes nothing, and then the size would pass
-- SIZE_MAX or the heap refused a block.
pub app_b_n-Appended :
    (m : Allocator) (s : Segment) (b n : ℕ)
    → IsBuffer s
    → n ≤ size_max
    → Appended m s (replicate n b) (app_b_n m s b n)
unfolding app_b_n
app_b_n-Appended m s b zero h l = appended h (sym (append-nil (contents s))) (omega arith)
app_b_n-Appended m s b (suc n) h l =
    rw (suc_ne_zero n) (app_b_n_of m s b (suc n) (ensure_capacity-Ensured m s (suc n) h l))

-- Making room leaves the bytes in use alone.
HasRoom-Extends : {s t : Segment} {n : ℕ} → HasRoom s n t → Extends s [] t
HasRoom-Extends {s} {t} r = record {
  buffer = r.buffer;
  appends = ap (λ k. take k t.bytes) r.size_same ∙ r.kept ∙ sym (append-nil (contents s));
  grows = omega (arith, r.size_same);
}

Ensured-Extends :
    {m : Allocator} {s : Segment} {n : ℕ} {o : Bool × Segment}
    → Ensured m s n o
    → o.0 ≡ true
    → Extends s [] o.1
Ensured-Extends (roomy r) h = HasRoom-Extends r
Ensured-Extends (overflowed l) h = cc
Ensured-Extends (refused g l) h = cc

-- If dtsg_app_dw_n succeeds on a proper buffer, it appended the four bytes of the word as many
-- times as asked for and left a proper buffer, even when the product that it asks room for wraps
-- around.
pub app_dw_n-Extends :
    (m : Allocator) (s : Segment) (dw n : ℕ)
    → IsBuffer s
    → (app_dw_n m s dw n).0 ≡ true
    → Extends s (repeated dw n) (app_dw_n m s dw n).1
unfolding app_dw_n
app_dw_n-Extends m s dw zero = λ b h. Extends-nil s b
app_dw_n-Extends m s dw (suc n) = rw (suc_ne_zero n) (λ b h.
    let ensured = ensure_capacity m s (suc n * 4 % 2 ^ 64) in
    let (here, later, e) = then_ok ensured (app_dw_loop m ensured.1 dw (suc n)) h in
    let first =
      Ensured-Extends (ensure_capacity-Ensured m s (suc n * 4 % 2 ^ 64) b (omega arith)) here in
    rw e (Extends-trans first (app_dw_loop-Extends m ensured.1 dw (suc n) first.buffer later)))
