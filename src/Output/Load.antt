-- ===== src/Output/Load.antt =====
-- A loader of .kmx files, and what it gets back from a file that output_binary wrote.
use mathlib.Core.List.{append-nil, append_assoc}
use kiv_pc_sw.Prelude.{
  ℕ, ◌+◌, ◌*◌, ◌≤◌, ◌≡◌, refl, sym, ◌∙◌, ap, Bool, true, false, List, [], ◌∷◌, ◌++◌, Option, none,
  some, arith, ltb, ◌==◌, if◌then◌else◌, length, length-take, take, drop, take-append, drop-append,
  Bool-cases, inl, inr,
}
use kiv_pc_sw.Prelude.Text.{codes, str_eq}
use kiv_pc_sw.Common.{int32_max, ErrMain, err_no_error, err_my_code_failure}
use kiv_pc_sw.Segment.{Segment, IsBuffer, contents, word_bytes}
use kiv_pc_sw.Output.{
  Device, Written, fu_write_bytes, write_in_little_endian, next, last_byte, write_segments, finish,
  output_binary,
}

-- The number that bytes stand for, the low one first.
abbrev pub le : List ℕ → ℕ
le [] = 0
le (b ∷ bs) = b + 256 * le bs

abbrev pub split_at : ℕ → List ℕ → List ℕ × List ℕ
split_at n xs = (take n xs, drop n xs)

-- The data and the code of a .kmx file.
unfoldable pub load : List ℕ → Option (List ℕ × List ℕ)
load file =
    if str_eq (take 3 file) (codes "KMX")
    then some (split_at (le (take 4 (drop 3 file))) (drop 7 file))
    else none

le-word_bytes : (w : ℕ) → w ≤ int32_max → le (word_bytes w) ≡ w
le-word_bytes w h = omega arith

-- The zero byte that closes the code, unless its last byte is one.
abbrev pub terminator : ℕ → Segment → List ℕ
terminator stray cdsg = if last_byte stray cdsg == 0 then [] else 0 ∷ []

next_ok :
    (o : Written) (k : List ℕ → Written) {file : List ℕ}
    → next o k ≡ (true, file)
    → (f : List ℕ) × (o ≡ (true, f)) × (k f ≡ (true, file))
next_ok (true, f) k h = (f, refl, h)
next_ok (false, f) k h = cc

write_ok :
    (d : Device) (f bs : List ℕ) {g : List ℕ} → fu_write_bytes d f bs ≡ (true, g) → g ≡ f ++ bs
unfolding fu_write_bytes
write_ok d f bs {g} h = ground arith

word_ok :
    (d : Device) (f : List ℕ) (n : ℕ) {g : List ℕ}
    → (if ltb int32_max n then (false, f) else write_in_little_endian d f n) ≡ (true, g)
    → (n ≤ int32_max) × (g ≡ f ++ word_bytes n)
unfolding write_in_little_endian
word_ok d f n {g} h = elim (Bool-cases (ltb int32_max n)) [
  | inl big ↦ absurd (let e : ◌≡◌ {A = Written} (false, f) (true, g) = rw big at h in cc)
  | inr small ↦ (ground arith, write_ok d f (word_bytes n) (rw small at h))
]

tail_ok :
    (d : Device) (stray : ℕ) (cdsg : Segment) (f : List ℕ) {file : List ℕ}
    → (if last_byte stray cdsg == 0 then (true, f) else fu_write_bytes d f (0 ∷ [])) ≡ (true, file)
    → file ≡ f ++ terminator stray cdsg
tail_ok d stray cdsg f {file} h = elim (Bool-cases (last_byte stray cdsg == 0)) [
  | inl closed ↦
      let e : ◌≡◌ {A = Written} (true, f) (true, file) = rw closed at h in
      let same : file ≡ f = cc in rw closed (same ∙ sym (append-nil f))
  | inr needed ↦ rw needed (write_ok d f (0 ∷ []) (rw needed at h))
]

-- What the file holds after all the writes.
segments_ok :
    (d : Device) (stray : ℕ) (dtsg cdsg : Segment) {file : List ℕ}
    → write_segments d stray dtsg cdsg ≡ (true, file)
    → (dtsg.size ≤ int32_max)
      × (file
          ≡ codes "KMX"
            ++ (word_bytes dtsg.size
                ++ (contents dtsg ++ (contents cdsg ++ terminator stray cdsg))))
unfolding write_segments
segments_ok d stray dtsg cdsg h =
    let (f1, w1, r1) = next_ok _ _ h in
    let (f2, w2, r2) = next_ok _ _ r1 in
    let (f3, w3, r3) = next_ok _ _ r2 in
    let (f4, w4, r4) = next_ok _ _ r3 in
    let (small, e2) = word_ok d f1 dtsg.size w2 in
    let e1 = write_ok d [] (codes "KMX") w1 in
    let e3 = write_ok d f2 (contents dtsg) w3 in
    let e4 = write_ok d f3 (contents cdsg) w4 in
    let e5 = tail_ok d stray cdsg f4 r4 in
    (
      small,
      e5
          ∙ ap (λ l. l ++ terminator stray cdsg) e4
          ∙ ap (λ l. (l ++ contents cdsg) ++ terminator stray cdsg) e3
          ∙ append_assoc (f2 ++ contents dtsg) (contents cdsg) (terminator stray cdsg)
          ∙ append_assoc f2 (contents dtsg) (contents cdsg ++ terminator stray cdsg)
          ∙ ap (λ l. l ++ (contents dtsg ++ (contents cdsg ++ terminator stray cdsg)))
              (e2 ∙ ap (λ l. l ++ word_bytes dtsg.size) e1),
    )

finish_ok : (w : Written) {file : List ℕ} → finish w ≡ (err_no_error, file) → w ≡ (true, file)
finish_ok (true, f) h = ground arith
finish_ok (false, f) h = cc

opened_ok :
    (opens : Bool) (w : Written) {file : List ℕ}
    → ◌≡◌ {A = ErrMain × List ℕ}
        (if opens then finish w else (err_my_code_failure, []))
        (err_no_error, file)
    → w ≡ (true, file)
opened_ok true w h = finish_ok w h
opened_ok false w h = cc

load_written :
    (n : ℕ) (bytes code : List ℕ)
    → n ≤ int32_max
    → length bytes ≡ n
    → load (codes "KMX" ++ (word_bytes n ++ (bytes ++ code))) ≡ some (bytes, code)
unfolding load str_eq
load_written n bytes code h e =
    ap (λ k. some (split_at k (bytes ++ code))) (le-word_bytes n h)
    ∙ (λ i. some (take-append n bytes code e i, drop-append n bytes code e i))

-- If output_binary ends without an error and the data segment is a proper buffer, a loader that
-- checks the signature, reads the size of the data as four bytes and splits the rest there gets
-- back the bytes in use of the data segment, and as code the bytes in use of the code segment,
-- followed by a zero byte unless the byte that output_binary takes for the last one is zero.
pub output_binary-load :
    (d : Device) (stray : ℕ) (dtsg cdsg : Segment) {file : List ℕ}
    → IsBuffer dtsg
    → output_binary d stray dtsg cdsg ≡ (err_no_error, file)
    → load file ≡ some (contents dtsg, contents cdsg ++ terminator stray cdsg)
unfolding output_binary
output_binary-load d stray dtsg cdsg b h =
    let (small, e) = segments_ok d stray dtsg cdsg (opened_ok d.opens _ h) in
    ap load e
    ∙ load_written dtsg.size (contents dtsg) (contents cdsg ++ terminator stray cdsg) small
        (omega (arith, length-take dtsg.size dtsg.bytes, b.within, b.allocated))
