-- ===== src/Lexer/TokenShape.antt =====
-- What a token of a line is: it fits its buffer, carries the number of its line, and is not the
-- one that closes the line.
use kiv_pc_sw.Prelude.{
  ℕ, zero, suc, ◌+◌, ◌≤◌, ◌≡◌, ◌≢◌, refl, subst, Bool, true, false, List, [], ◌∷◌, Option, none,
  some, some_inj, arith, length, take, if◌then◌else◌, if_cases, suc_ne_zero, leb, ltb, ◌&&◌, ◌==◌,
}
use kiv_pc_sw.Prelude.Text.{Text, str_eq}
use kiv_pc_sw.Common.{max_identifier_len}
use kiv_pc_sw.Lexer.Token.{TokenType, Token}
use kiv_pc_sw.Lexer.SetToken.{
  set_token_string, set_token_label, set_longer_token, Read, set_token_len, set_token_number,
  section_words, special_words, identify, lexer_classify_word, set_token_word, set_next_token,
  set_token, single, read_to,
}

-- A token of a line, not the one that closes it.
pub record IsToken (nl : ℕ) (t : Token) : Type 0 where
  pub type : t.type ≢ TokenType.eof
  pub line : t.line_number ≡ nl
  pub fits : length t.value + 1 ≤ max_identifier_len

take_le : (n : ℕ) (s : Text) → length (take n s) ≤ n
take_le zero s = omega arith
take_le (suc n) [] = omega arith
take_le (suc n) (c ∷ s) = let rest = take_le n s in omega (arith, rest)

set_token-IsToken :
    (type : TokenType) (value : Text) (nl : ℕ) {t : Token}
    → type ≢ TokenType.eof
    → set_token type value nl ≡ some t
    → IsToken nl t
unfolding set_token
set_token-IsToken type value nl n h =
    if_cases (leb (length value + 1) max_identifier_len) _ _ h
      (λ b e.
        subst (IsToken nl) (some_inj e) (record { type = n; line = refl; fits = ground arith }))
      (λ b. absurd cc)

set_token_len-IsToken :
    (type : TokenType) (value : Text) (nl len : ℕ) {t : Token}
    → type ≢ TokenType.eof
    → set_token_len type value nl len ≡ some t
    → IsToken nl t
unfolding set_token_len
set_token_len-IsToken type value nl len n h =
    if_cases (ltb 0 len && leb (len + 1) max_identifier_len) _ _ h
      (λ b e.
        subst (IsToken nl) (some_inj e)
          (record { type = n; line = refl; fits = ground (arith, take_le len value) }))
      (λ b. absurd cc)

-- The token of a conditional whose branches give one each, if any.
either :
    {nl : ℕ} {t : Token} (b : Bool) (x y : Option Token)
    → (x ≡ some t → IsToken nl t)
    → (y ≡ some t → IsToken nl t)
    → (if b then x else y) ≡ some t
    → IsToken nl t
either true x y f g h = f h
either false x y f g h = g h

no_token : {nl : ℕ} {t : Token} → ◌≡◌ {A = Option Token} none (some t) → IsToken nl t
no_token h = absurd cc

set_token_string-IsToken :
    (s : Text) (nl : ℕ) {t : Token} → set_token_string s nl ≡ some t → IsToken nl t
unfolding set_token_string
set_token_string-IsToken s nl =
    either _ _ _ (set_token_len-IsToken TokenType.string s nl _ (λ e. cc)) no_token

set_token_label-IsToken :
    (s : Text) (nl : ℕ) {t : Token} → set_token_label s nl ≡ some t → IsToken nl t
unfolding set_token_label
set_token_label-IsToken s nl =
    either _ _ _ (set_token_len-IsToken TokenType.label s nl _ (λ e. cc)) no_token

set_token_number-IsToken :
    (s : Text) (nl : ℕ) {t : Token} → set_token_number s nl ≡ some t → IsToken nl t
unfolding set_token_number
set_token_number-IsToken s nl =
    either _ _ _ (set_token_len-IsToken TokenType.number s nl _ (λ e. cc)) no_token

-- None of the words in a table is of the closing type.
abbrev LacksEof : List (Text × TokenType) → Type 0
LacksEof [] = Unit
LacksEof (row ∷ rows) = (row.1 ≢ TokenType.eof) × LacksEof rows

identify-LacksEof :
    (rows : List (Text × TokenType)) (word : Text) {type : TokenType}
    → LacksEof rows
    → identify rows word ≡ some type
    → type ≢ TokenType.eof
unfolding identify
identify-LacksEof [] word n h = absurd cc
identify-LacksEof ((ch, type) ∷ rows) word n h =
    if_cases (str_eq word ch) _ _ h (λ b e. subst (λ t. t ≢ TokenType.eof) (some_inj e) n.0)
      (λ b e. identify-LacksEof rows word n.1 e)

special_type :
    (o : Option TokenType)
    → ((type : TokenType) → o ≡ some type → type ≢ TokenType.eof)
    → elim o [ some type ↦ type | none ↦ TokenType.identifier ] ≢ TokenType.eof
special_type none f = λ e. cc
special_type (some type) f = f type refl

section_type :
    (o p : Option TokenType) (b : Bool)
    → ((type : TokenType) → o ≡ some type → type ≢ TokenType.eof)
    → ((type : TokenType) → p ≡ some type → type ≢ TokenType.eof)
    → elim o [
      | some type ↦ type
      | none ↦
          if b
          then TokenType.instruction
          else elim p [ some type ↦ type | none ↦ TokenType.identifier ]
    ]
      ≢ TokenType.eof
section_type (some type) p b f g = f type refl
section_type none p true f g = λ e. cc
section_type none p false f g = special_type p g

classify_type : (word : Text) → lexer_classify_word word ≢ TokenType.eof
unfolding lexer_classify_word
classify_type [] = λ e. cc
classify_type (c ∷ s) = rw (suc_ne_zero (length s)) (
    section_type (identify section_words (c ∷ s)) (identify special_words (c ∷ s)) _
      (λ type. identify-LacksEof section_words (c ∷ s) (
        (λ e. cc),
        (
          (λ e. cc),
          (
            (λ e. cc),
            (
              (λ e. cc),
              (
                (λ e. cc),
                (
                  (λ e. cc),
                  (
                    (λ e. cc),
                    (
                      (λ e. cc),
                      ((λ e. cc), ((λ e. cc), ((λ e. cc), ((λ e. cc), ((λ e. cc), tt))))),
                    ),
                  ),
                ),
              ),
            ),
          ),
        ),
      ))
      (λ type. identify-LacksEof special_words (c ∷ s) ((λ e. cc), ((λ e. cc), tt))))

set_token_word-IsToken :
    (s : Text) (nl : ℕ) {t : Token} → set_token_word s nl ≡ some t → IsToken nl t
unfolding set_token_word
set_token_word-IsToken s nl = set_token_len-IsToken _ s nl _ (classify_type _)

read_to-IsToken :
    (nl : ℕ) (o : Option Token) (next : Token → ℕ) {token : Token} {pos' : ℕ}
    → ((t : Token) → o ≡ some t → IsToken nl t)
    → read_to o next ≡ some (token, pos')
    → IsToken nl token
read_to-IsToken nl none next f h = absurd cc
read_to-IsToken nl (some t) next {token} {pos'} f h =
    let e : t ≡ token = cc in subst (IsToken nl) e (f t refl)

either_read :
    {nl : ℕ} {token : Token} {pos' : ℕ} (b : Bool) (x y : Read)
    → (x ≡ some (token, pos') → IsToken nl token)
    → (y ≡ some (token, pos') → IsToken nl token)
    → (if b then x else y) ≡ some (token, pos')
    → IsToken nl token
either_read true x y f g h = f h
either_read false x y f g h = g h

set_longer_token-IsToken :
    (c : ℕ) (rest : Text) (pos nl : ℕ) {token : Token} {pos' : ℕ}
    → set_longer_token c rest pos nl ≡ some (token, pos')
    → IsToken nl token
unfolding set_longer_token
set_longer_token-IsToken c rest pos nl {token = token} {pos' = pos'} =
    either_read {token = token} {pos' = pos'} _ _ _
      (read_to-IsToken nl (set_token_string rest nl) (λ t. pos + length t.value + 2)
        (λ t. set_token_string-IsToken rest nl))
      (either_read _ _ _
        (read_to-IsToken nl (set_token_label (c ∷ rest) nl) (λ t. pos + length t.value + 1)
          (λ t. set_token_label-IsToken (c ∷ rest) nl))
        (either_read _ _ _
          (read_to-IsToken nl (set_token_number (c ∷ rest) nl) (λ t. pos + length t.value)
            (λ t. set_token_number-IsToken (c ∷ rest) nl))
          (either_read _ _ _
            (read_to-IsToken nl (set_token_word (c ∷ rest) nl) (λ t. pos + length t.value)
              (λ t. set_token_word-IsToken (c ∷ rest) nl))
            (read_to-IsToken nl (set_token_len TokenType.unknown (c ∷ rest) nl 1) (λ t. pos + 1)
              (λ t. set_token_len-IsToken TokenType.unknown (c ∷ rest) nl 1 (λ e. cc))))))

single_type :
    (c : ℕ) (type : TokenType) (value : Text) → single c ≡ some (type, value) → type ≢ TokenType.eof
unfolding single
single_type c type value h e =
    if_cases (c == b',') _ _ h (λ b k. cc)
      (λ b h.
        if_cases (c == b'(') _ _ h (λ b k. cc)
          (λ b h.
            if_cases (c == b')') _ _ h (λ b k. cc)
              (λ b h. if_cases (c == b'?') _ _ h (λ b k. cc) (λ b k. cc))))

next_token-IsToken :
    (o : Option (TokenType × Text)) (c : ℕ) (rest : Text) (pos nl : ℕ) {token : Token} {pos' : ℕ}
    → ((type : TokenType) (value : Text) → o ≡ some (type, value) → type ≢ TokenType.eof)
    → elim o [
      | some (type, value) ↦ read_to (set_token type value nl) (λ t. pos + 1)
      | none ↦ set_longer_token c rest pos nl
    ]
      ≡ some (token, pos')
    → IsToken nl token
next_token-IsToken none c rest pos nl f h = set_longer_token-IsToken c rest pos nl h
next_token-IsToken (some (type, value)) c rest pos nl f h =
    read_to-IsToken nl (set_token type value nl) (λ t. pos + 1)
      (λ t. set_token-IsToken type value nl (f type value refl)) h

pub set_next_token-IsToken :
    (line : Text) (pos nl : ℕ) {token : Token} {pos' : ℕ}
    → set_next_token line pos nl ≡ some (token, pos')
    → IsToken nl token
unfolding set_next_token
set_next_token-IsToken [] pos nl h = absurd cc
set_next_token-IsToken (c ∷ rest) pos nl h =
    next_token-IsToken (single c) c rest pos nl (single_type c) h
