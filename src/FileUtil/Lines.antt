-- ===== src/FileUtil/Lines.antt =====
-- The lines of a file: reading loses nothing, and a line ends with its only newline.
use mathlib.Core.List.{append-nil, append_assoc}
use kiv_pc_sw.Prelude.{
  ℕ, zero, suc, ◌+◌, ◌*◌, ◌<◌, ◌≡◌, ◌≢◌, refl, sym, ◌∙◌, ap, subst, Bool, true, false, not, ◌&&◌,
  List, [], ◌∷◌, ◌++◌, none, some, arith, leb, ◌==◌, if◌then◌else◌, length, length-append, ◌⊎◌, inl,
  inr, Bool-cases, suc_ne_zero, ◌%◌, ◌^◌,
}
use kiv_pc_sw.Common.{Allocator, jalloc, jealloc}
use kiv_pc_sw.FileUtil.{Got, read_chars, fu_getline, read_lines, file_lines, and_more}

-- A heap that grants every block.
abbrev pub Grants : Allocator → Type 0
Grants m = (n : ℕ) → m.grants n ≡ true

-- No newline among the characters.
abbrev pub NoNewline : List ℕ → Type 0
NoNewline [] = Unit
NoNewline (c ∷ s) = (c ≢ b'\n') × NoNewline s

NoNewline-append : (xs : List ℕ) (c : ℕ) → NoNewline xs → c ≢ b'\n' → NoNewline (xs ++ (c ∷ []))
NoNewline-append [] c h n = (n, tt)
NoNewline-append (x ∷ xs) c h n = (h.0, NoNewline-append xs c h.1 n)

-- What a call gives: the next line, which ends with a newline or with the file, or nothing at
-- the end of the file.
pub data Next (stream : List ℕ) : Got → Type 0 where
  ended : {n : ℕ} → stream ≡ [] → Next stream (none, n, [])
  full :
      {n : ℕ} (body rest : List ℕ)
      → NoNewline body
      → stream ≡ body ++ (b'\n' ∷ rest)
      → Next stream (some (body ++ (b'\n' ∷ [])), n, rest)
  last :
      {n : ℕ} (body : List ℕ)
      → NoNewline body
      → body ≢ []
      → stream ≡ body
      → Next stream (some body, n, [])

end_Next :
    (pos n : ℕ) (line : List ℕ)
    → pos ≡ length line
    → NoNewline line
    → Next (line ++ []) (if pos == 0 then (none, n, []) else (some line, n, []))
end_Next pos n [] e h = rw e (ended refl)
end_Next pos n (x ∷ xs) e h =
    rw (e, suc_ne_zero (length xs)) (last (x ∷ xs) h (λ q. cc) (append-nil (x ∷ xs)))

granted : (b x : Bool) → x ≡ true → (b && not x) ≡ false
granted true x h = ap not h
granted false x h = refl

-- The character ends the line, or it goes on.
char_Next :
    (b : Bool) (ch n : ℕ) (line stream : List ℕ) (r : Got)
    → (ch == b'\n') ≡ b
    → NoNewline line
    → (ch ≢ b'\n' → Next (line ++ (ch ∷ stream)) r)
    → Next (line ++ (ch ∷ stream)) (if b then (some (line ++ (ch ∷ [])), n, stream) else r)
char_Next true ch n line stream r e h f =
    let newline : b'\n' ≡ ch = ground arith in
    subst (λ c. Next (line ++ (c ∷ stream)) (some (line ++ (c ∷ [])), n, stream)) newline
      (full line stream h refl)
char_Next false ch n line stream r e h f = f (λ q. ground arith)

-- From the middle of a line: with `pos` characters read, the call returns the line to its end.
read_chars-Next :
    (m : Allocator) (pos n : ℕ) (line stream : List ℕ)
    → Grants m
    → pos ≡ length line
    → NoNewline line
    → Next (line ++ stream) (read_chars m pos n line stream)
unfolding read_chars jealloc
read_chars-Next m pos n line [] g e h = end_Next pos n line e h
read_chars-Next m pos n line (ch ∷ stream) g e h =
    let new_n = if leb n (pos + 1) then n * 2 % 2 ^ 64 else n in
    rw (granted (leb n (pos + 1)) (m.grants new_n) (g new_n)) (
      char_Next (ch == b'\n') ch new_n line stream _ refl h (λ q.
        subst (λ l. Next l (read_chars m (suc pos) new_n (line ++ (ch ∷ [])) stream))
          (append_assoc line (ch ∷ []) stream)
          (read_chars-Next m (suc pos) new_n (line ++ (ch ∷ [])) stream g
            (omega (arith, e, length-append line (ch ∷ []))) (NoNewline-append line ch h q))))

pub fu_getline-Next :
    (m : Allocator) (n : ℕ) (stream : List ℕ) → Grants m → Next stream (fu_getline m n stream)
unfolding fu_getline jalloc
fu_getline-Next m n stream g = elim (Bool-cases (n == 0)) [
  | inl fresh ↦ rw (fresh, g 128) (read_chars-Next m 0 128 [] stream g refl tt)
  | inr live ↦ rw live (read_chars-Next m 0 n [] stream g refl tt)
]

pub concat : List (List ℕ) → List ℕ
concat [] = []
concat (l ∷ ls) = l ++ concat ls

-- Each line holds no newline but one at its end, and every line but the last has it.
pub AreLines : List (List ℕ) → Type 0
AreLines [] = Unit
AreLines (l ∷ []) = NoNewline l ⊎ ((body : List ℕ) × NoNewline body × (l ≡ body ++ (b'\n' ∷ [])))
AreLines (l ∷ k ∷ ls) =
    ((body : List ℕ) × NoNewline body × (l ≡ body ++ (b'\n' ∷ []))) × AreLines (k ∷ ls)

more_lines :
    (body : List ℕ) (ls : List (List ℕ))
    → NoNewline body
    → AreLines ls
    → AreLines ((body ++ (b'\n' ∷ [])) ∷ ls)
unfolding AreLines
more_lines body [] h a = inr (body, h, refl)
more_lines body (l ∷ ls) h a = ((body, h, refl), a)

not_empty : (body : List ℕ) (c : ℕ) (rest : List ℕ) → [] ≢ body ++ (c ∷ rest)
not_empty [] c rest h = cc
not_empty (x ∷ body) c rest h = cc

nothing_Next : (r : Got) (more : ℕ → List ℕ → List (List ℕ)) → Next [] r → and_more r more ≡ []
nothing_Next _ more (ended e) = refl
nothing_Next _ more (full body rest b e) = absurd (not_empty body b'\n' rest e)
nothing_Next _ more (last body b ne e) = absurd (ne (sym e))

-- At the end of the file there are no more lines.
read_lines-nil : (fuel : ℕ) (m : Allocator) (n : ℕ) → Grants m → read_lines fuel m n [] ≡ []
unfolding read_lines
read_lines-nil zero m n g = refl
read_lines-nil (suc fuel) m n g = nothing_Next (fu_getline m n []) _ (fu_getline-Next m n [] g)

-- The lines that were read are those of the stream.
abbrev Reads : List ℕ → List (List ℕ) → Type 0
Reads stream ls = (concat ls ≡ stream) × AreLines ls

more_Reads :
    (stream : List ℕ) (r : Got) (more : ℕ → List ℕ → List (List ℕ))
    → Next stream r
    → ((n : ℕ) (rest : List ℕ) → length rest < length stream → Reads rest (more n rest))
    → ((n : ℕ) → more n [] ≡ [])
    → Reads stream (and_more r more)
unfolding concat AreLines
more_Reads stream _ more (ended e) ih done = (sym e, tt)
more_Reads stream _ more (full {n} body rest b e) ih done =
    let whole = ap (λ (l : List ℕ). length l) e in
    let (all, lines) = ih n rest (omega (arith, whole, length-append body (b'\n' ∷ rest))) in
    (
      ap (λ l. (body ++ (b'\n' ∷ [])) ++ l) all ∙ append_assoc body (b'\n' ∷ []) rest ∙ sym e,
      more_lines body (more n rest) b lines,
    )
more_Reads stream _ more (last {n} body b ne e) ih done = (
  ap (λ l. body ++ concat l) (done n) ∙ append-nil body ∙ sym e,
  subst (λ l. AreLines (body ∷ l)) (sym (done n)) (inl b),
)

read_lines-Reads :
    (fuel : ℕ) (m : Allocator) (n : ℕ) (stream : List ℕ)
    → Grants m
    → length stream < fuel
    → Reads stream (read_lines fuel m n stream)
unfolding read_lines
read_lines-Reads zero m n stream g h = absurd (omega arith)
read_lines-Reads (suc fuel) m n stream g h =
    more_Reads stream (fu_getline m n stream) _ (fu_getline-Next m n stream g)
      (λ n' rest short. read_lines-Reads fuel m n' rest g (omega arith))
      (λ n'. read_lines-nil fuel m n' g)

-- On a heap that grants every block, the lines that the loop over fu_getline sees concatenate to
-- the bytes of the file, no line holds a newline but as its last byte, and every line but the last
-- has one there.
pub file_lines-concat :
    (m : Allocator) (stream : List ℕ)
    → Grants m
    → (concat (file_lines m stream) ≡ stream) × AreLines (file_lines m stream)
unfolding file_lines
file_lines-concat m stream g = read_lines-Reads (suc (length stream)) m 0 stream g (omega arith)
