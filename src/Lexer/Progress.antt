-- ===== src/Lexer/Progress.antt =====
-- The loop of lexer_tokenize_line ends: each token moves the position on.
use kiv_pc_sw.Prelude.{
  ℕ, zero, suc, ◌+◌, ◌≤◌, ◌<◌, ◌≡◌, ◌≢◌, refl, ap, Bool, true, false, List, [], ◌∷◌, Option, none,
  some, arith, length, drop, if◌then◌else◌, Bool-cases, inl, inr,
}
use kiv_pc_sw.Prelude.Text.{Text}
use kiv_pc_sw.Common.{Allocator}
use kiv_pc_sw.Lexer.Token.{TokenType, Token}
use kiv_pc_sw.Lexer.Chars.{is_digit, span}
use kiv_pc_sw.Lexer.TokenArray
use kiv_pc_sw.Lexer.TokenArray.{TokenArr, push}
use kiv_pc_sw.Lexer.SetToken.{
  set_token_string, set_token_label, set_longer_token, Read, set_token_len, set_token_number,
  set_token_word, set_next_token, set_token, single, read_to,
}
use kiv_pc_sw.Lexer.Line.{
  failed, skip_to_next_token, read_token, close, Tokenized, tokenized, out_of_fuel, tokenize_loop,
  tokenize_line,
}

set_token_len_positive :
    (type : TokenType) (c : ℕ) (rest : Text) (nl len : ℕ) {token : Token}
    → set_token_len type (c ∷ rest) nl len ≡ some token
    → 0 < length token.value
unfolding set_token_len
set_token_len_positive type c rest nl zero h = ground arith
set_token_len_positive type c rest nl (suc len) h = ground arith

set_token_number_positive :
    (c : ℕ) (rest : Text) (nl : ℕ) {token : Token}
    → set_token_number (c ∷ rest) nl ≡ some token
    → 0 < length token.value
unfolding set_token_number
set_token_number_positive c rest nl {token = token} h = ground (
  arith,
  set_token_len_positive TokenType.number c rest nl (1 + span is_digit rest) {token = token},
  set_token_len_positive TokenType.number c rest nl (suc (span is_digit rest)) {token = token},
)

set_token_word_positive :
    (c : ℕ) (rest : Text) (nl : ℕ) {token : Token}
    → set_token_word (c ∷ rest) nl ≡ some token
    → 0 < length token.value
unfolding set_token_word
set_token_word_positive c rest nl h = set_token_len_positive _ c rest nl _ h

read_to_moves :
    (o : Option Token) (pos : ℕ) (next : Token → ℕ) {token : Token} {pos' : ℕ}
    → ((t : Token) → o ≡ some t → pos < next t)
    → read_to o next ≡ some (token, pos')
    → pos < pos'
read_to_moves none pos next f h = cc
read_to_moves (some t) pos next {token} {pos'} f h =
    let moved = f t refl in let e : next t ≡ pos' = ground arith in omega (arith, moved, e)

if_moves :
    (b : Bool) (x y : Read) (pos : ℕ) {token : Token} {pos' : ℕ}
    → (x ≡ some (token, pos') → pos < pos')
    → (y ≡ some (token, pos') → pos < pos')
    → (if b then x else y) ≡ some (token, pos')
    → pos < pos'
if_moves true x y pos f g h = f h
if_moves false x y pos f g h = g h

set_longer_token_moves :
    (c : ℕ) (rest : Text) (pos nl : ℕ) {token : Token} {pos' : ℕ}
    → set_longer_token c rest pos nl ≡ some (token, pos')
    → pos < pos'
unfolding set_longer_token
set_longer_token_moves c rest pos nl {token = token} {pos' = pos'} =
    if_moves _ _ _ pos {token = token} {pos' = pos'}
      (read_to_moves (set_token_string rest nl) pos (λ t. pos + length t.value + 2)
        (λ t e. omega arith))
      (if_moves _ _ _ pos
        (read_to_moves (set_token_label (c ∷ rest) nl) pos (λ t. pos + length t.value + 1)
          (λ t e. omega arith))
        (if_moves _ _ _ pos
          (read_to_moves (set_token_number (c ∷ rest) nl) pos (λ t. pos + length t.value)
            (λ t e. let n = set_token_number_positive c rest nl e in omega (arith, n)))
          (if_moves _ _ _ pos
            (read_to_moves (set_token_word (c ∷ rest) nl) pos (λ t. pos + length t.value)
              (λ t e. let n = set_token_word_positive c rest nl e in omega (arith, n)))
            (read_to_moves (set_token_len TokenType.unknown (c ∷ rest) nl 1) pos (λ t. pos + 1)
              (λ t e. omega arith)))))

single_moves :
    (o : Option (TokenType × Text)) (c : ℕ) (rest : Text) (pos nl : ℕ) {token : Token} {pos' : ℕ}
    → elim o [
      | some (type, value) ↦ read_to (set_token type value nl) (λ t. pos + 1)
      | none ↦ set_longer_token c rest pos nl
    ]
      ≡ some (token, pos')
    → pos < pos'
single_moves none c rest pos nl h = set_longer_token_moves c rest pos nl h
single_moves (some (type, value)) c rest pos nl h =
    read_to_moves (set_token type value nl) pos (λ t. pos + 1) (λ t e. omega arith) h

-- A token that set_next_token returns ends behind the position at which it begins, whatever token
-- it is.
pub set_next_token_moves :
    (line : Text) (pos nl : ℕ) {token : Token} {pos' : ℕ}
    → set_next_token line pos nl ≡ some (token, pos')
    → pos < pos'
unfolding set_next_token
set_next_token_moves [] pos nl h = cc
set_next_token_moves (c ∷ rest) pos nl h = single_moves (single c) c rest pos nl h

taken_moves :
    (o : Read) (arr : TokenArr) (pos : ℕ) {arr' : TokenArr} {pos' : ℕ}
    → ((token : Token) (q : ℕ) → o ≡ some (token, q) → pos < q)
    → ◌≡◌ {A = Option (TokenArr × ℕ)}
        (elim o [ none ↦ none | some (token, q) ↦ some (push arr token, q) ])
        (some (arr', pos'))
    → pos < pos'
taken_moves none arr pos f h = cc
taken_moves (some (token, q)) arr pos {arr'} {pos'} f h =
    let moved = f token q refl in let e : q ≡ pos' = ground arith in omega (arith, moved, e)

read_token_moves :
    (m : Allocator) (line : Text) (nl : ℕ) (arr : TokenArr) (pos : ℕ) {arr' : TokenArr} {pos' : ℕ}
    → read_token m line nl arr pos ≡ some (arr', pos')
    → pos < pos'
unfolding read_token
read_token_moves m line nl arr pos {arr'} {pos'} h =
    elim (Bool-cases (TokenArray.ensure_capacity m arr 1).0) [
      | inl done ↦
          taken_moves (set_next_token (drop pos line) pos nl) _ pos {arr' = arr'} {pos' = pos'}
            (λ token q. set_next_token_moves (drop pos line) pos nl) (rw done at h)
      | inr refused ↦
          absurd (
            let e : ◌≡◌ {A = Option (TokenArr × ℕ)} none (some (arr', pos')) = rw refused at h in
            cc)
    ]

skip_stays :
    (line : Text) (pos : ℕ) {pos' : ℕ}
    → skip_to_next_token line pos ≡ (true, pos')
    → (pos ≤ pos') × (pos < length line)
unfolding skip_to_next_token
skip_stays line pos {pos'} h = (ground arith, ground arith)

closed_ends : (o : Option (List Token)) → tokenized o ≢ out_of_fuel
closed_ends none = λ e. cc
closed_ends (some ts) = λ e. cc

read_ends :
    (o : Option (TokenArr × ℕ)) (fuel : ℕ) (m : Allocator) (line : Text) (nl : ℕ)
    → ((arr : TokenArr) (pos : ℕ)
        → o ≡ some (arr, pos)
        → tokenize_loop fuel m line nl arr pos ≢ out_of_fuel)
    → ◌≢◌ {A = Tokenized}
        (elim o [ none ↦ failed | some (arr, pos) ↦ tokenize_loop fuel m line nl arr pos ])
        out_of_fuel
read_ends none fuel m line nl f = λ e. cc
read_ends (some (arr, pos)) fuel m line nl f = f arr pos refl

round_ends :
    (more : Bool) (fuel : ℕ) (m : Allocator) (line : Text) (nl : ℕ) (arr : TokenArr) (pos : ℕ)
    → (more ≡ true
        → (arr' : TokenArr) (pos' : ℕ) → read_token m line nl arr pos ≡ some (arr', pos')
        → tokenize_loop fuel m line nl arr' pos' ≢ out_of_fuel)
    → ◌≢◌ {A = Tokenized}
        (elim more [
          | false ↦ tokenized (close m nl arr)
          | true ↦ elim (read_token m line nl arr pos) [
            | none ↦ failed
            | some (arr', pos') ↦ tokenize_loop fuel m line nl arr' pos'
          ]
        ])
        out_of_fuel
round_ends false fuel m line nl arr pos f = closed_ends (close m nl arr)
round_ends true fuel m line nl arr pos f = read_ends _ fuel m line nl (f refl)

loop_ends :
    (fuel : ℕ) (m : Allocator) (line : Text) (nl : ℕ) (arr : TokenArr) (pos : ℕ)
    → length line < fuel + pos
    → 0 < fuel
    → tokenize_loop fuel m line nl arr pos ≢ out_of_fuel
unfolding tokenize_loop
loop_ends zero m line nl arr pos h p = omega arith
loop_ends (suc fuel) m line nl arr pos h p =
    let (more, pos') = skip_to_next_token line pos in
    round_ends more fuel m line nl arr pos' (λ e arr' pos'' r.
      let (there, before) = skip_stays line pos (ap (λ b. (b, pos')) e) in
      let moved = read_token_moves m line nl arr pos' r in
      loop_ends fuel m line nl arr' pos'' (omega arith) (omega arith))

started_ends :
    (o : Option TokenArr) (m : Allocator) (line : Text) (nl : ℕ)
    → ◌≢◌ {A = Tokenized}
        (elim o [ none ↦ failed | some arr ↦ tokenize_loop (suc (length line)) m line nl arr 0 ])
        out_of_fuel
started_ends none m line nl = λ e. cc
started_ends (some arr) m line nl =
    loop_ends (suc (length line)) m line nl arr 0 (omega arith) (omega arith)

-- The loop of lexer_tokenize_line ends on every line and with every behaviour of the heap: one
-- more round than the line has characters is enough.
pub tokenize_line_ends :
    (m : Allocator) (line : Text) (nl : ℕ) → tokenize_line m line nl ≢ out_of_fuel
unfolding tokenize_line
tokenize_line_ends m line nl = started_ends (TokenArray.init m) m line nl
