-- ===== src/Lexer/SetToken.antt =====
-- lexer/set_token.c. A setter returns the token, or none where the function returns 0; the caller
-- then drops the token. Text pointers are suffixes of the line.
use kiv_pc_sw.Prelude.{
  ℕ, suc, ◌+◌, Bool, false, not, ◌||◌, ◌&&◌, ltb, leb, ◌==◌, [], ◌∷◌, List, Option, none, some,
  if◌then◌else◌, length, take, drop,
}
use kiv_pc_sw.Prelude.Text.{Text, codes, str_eq}
use kiv_pc_sw.Common.{max_identifier_len}
use kiv_pc_sw.Instruction
use kiv_pc_sw.Lexer.Token.{TokenType, Token}
use kiv_pc_sw.Lexer.Chars.{is_digit, is_alpha, is_word, span}

-- A NULL value is the empty text here: nobody reads the value of such a token.
unfoldable pub set_token : TokenType → Text → ℕ → Option Token
set_token type value nl =
    if leb (length value + 1) max_identifier_len
    then some (record { type = type; value = value; line_number = nl })
    else none

unfoldable pub set_token_len : TokenType → Text → ℕ → ℕ → Option Token
set_token_len type value nl len =
    if ltb 0 len && leb (len + 1) max_identifier_len
    then some (record { type = type; value = take len value; line_number = nl })
    else none

abbrev not_quote : ℕ → Bool
not_quote c = not (c == b'"')

-- `s` stands behind the opening quote.
unfoldable pub set_token_string : Text → ℕ → Option Token
unfolding span
set_token_string s nl =
    let n_chars = span not_quote s in
    if ltb n_chars (length s) then set_token_len TokenType.string s nl n_chars else none

-- `s` begins with '@'.
unfoldable pub set_token_label : Text → ℕ → Option Token
unfolding span is_word
set_token_label s nl =
    let n_chars = suc (span is_word (drop 1 s)) in
    if leb 2 n_chars then set_token_len TokenType.label s nl n_chars else none

abbrev pub starts_with : ℕ → Text → Bool
starts_with c [] = false
starts_with c (x ∷ s) = x == c

unfoldable pub set_token_number : Text → ℕ → Option Token
unfolding span is_digit
set_token_number s nl =
    let sign = if starts_with b'-' s then 1 else 0 in
    let n_chars = sign + span is_digit (drop sign s) in
    if ltb 1 n_chars && starts_with b'-' s || ltb 0 n_chars
    then set_token_len TokenType.number s nl n_chars
    else none

-- The words that are compared whole, in the order of the source.
abbrev pub section_words : List (Text × TokenType)
section_words =
    (codes ".KMA", TokenType.kma)
    ∷ (codes ".DATA", TokenType.section_data)
    ∷ (codes ".CODE", TokenType.section_code)
    ∷ (codes "DW", TokenType.data_type)
    ∷ (codes "DWORD", TokenType.data_type)
    ∷ (codes "DB", TokenType.data_type)
    ∷ (codes "BYTE", TokenType.data_type)
    ∷ (codes "A", TokenType.register)
    ∷ (codes "B", TokenType.register)
    ∷ (codes "C", TokenType.register)
    ∷ (codes "D", TokenType.register)
    ∷ (codes "S", TokenType.register)
    ∷ (codes "SP", TokenType.register)
    ∷ []

abbrev pub special_words : List (Text × TokenType)
special_words = (codes "DUP", TokenType.dup) ∷ (codes "OFFSET", TokenType.offset) ∷ []

-- A row of IDENTIFY tests.
unfoldable pub identify : List (Text × TokenType) → Text → Option TokenType
identify [] word = none
identify ((ch, type) ∷ rest) word = if str_eq word ch then some type else identify rest word

-- `word` is the first `num` characters.
unfoldable pub lexer_classify_word : Text → TokenType
unfolding identify
lexer_classify_word word =
    if length word == 0 then TokenType.unknown else elim (identify section_words word) [
      | some type ↦ type
      | none ↦
          if Instruction.is_mnemonic word (length word)
          then TokenType.instruction
          else elim (identify special_words word) [ some type ↦ type | none ↦ TokenType.identifier ]
    ]

unfoldable pub set_token_word : Text → ℕ → Option Token
unfolding span is_word
set_token_word s nl =
    let dot = if starts_with b'.' s then 1 else 0 in
    let n_chars = dot + span is_word (drop dot s) in
    set_token_len (lexer_classify_word (take n_chars s)) s nl n_chars

-- The token beside the position behind it.
abbrev pub Read : Type 0
Read = Option (Token × ℕ)

abbrev pub read_to : Option Token → (Token → ℕ) → Read
read_to none pos = none
read_to (some token) pos = some (token, pos token)

-- One character has its own token.
unfoldable pub single : ℕ → Option (TokenType × Text)
single c =
    if c == b','
    then some (TokenType.comma, codes ",")
    else if c == b'('
    then some (TokenType.lparen, codes "(")
    else if c == b')'
    then some (TokenType.rparen, codes ")")
    else if c == b'?'
    then some (TokenType.question, codes "?")
    else none

abbrev pub starts_number : Text → Bool
starts_number [] = false
starts_number (c ∷ []) = is_digit c
starts_number (c ∷ d ∷ s) = is_digit c || c == b'-' && is_digit d

-- The tokens of more than one character, and the unknown ones; `current` is `c ∷ rest`.
unfoldable pub set_longer_token : ℕ → Text → ℕ → ℕ → Read
unfolding set_token_len set_token_string set_token_label set_token_number set_token_word is_alpha
    is_digit
set_longer_token c rest pos nl =
    let current = c ∷ rest in
    if c == b'"'
    then read_to (set_token_string rest nl) (λ token. pos + length token.value + 2)
    else if c == b'@'
    then read_to (set_token_label current nl) (λ token. pos + length token.value + 1)
    else if starts_number current
    then read_to (set_token_number current nl) (λ token. pos + length token.value)
    else if is_alpha c || c == b'.'
    then read_to (set_token_word current nl) (λ token. pos + length token.value)
    else read_to (set_token_len TokenType.unknown current nl 1) (λ token. pos + 1)

-- The line from `pos` on.
unfoldable pub set_next_token : Text → ℕ → ℕ → Read
unfolding single set_token set_longer_token
set_next_token [] pos nl = none
set_next_token (c ∷ rest) pos nl = elim (single c) [
  | some (type, value) ↦ read_to (set_token type value nl) (λ token. pos + 1)
  | none ↦ set_longer_token c rest pos nl
]
