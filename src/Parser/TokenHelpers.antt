-- ===== src/Parser/TokenHelpers.antt =====
-- parser/token.c: looking at tokens, and reading their values. The token array is a list that ends
-- with its EOF token; a read behind it finds the NULL that closes the array, which is none here.
use kiv_pc_sw.Prelude.{
  ℕ, ◌+◌, ◌-◌, ◌*◌, ◌%◌, ◌^◌, Bool, true, false, ◌||◌, ltb, ◌==◌, [], ◌∷◌, List, Option, none, some,
  if◌then◌else◌, take, drop, get_elem?,
}
use kiv_pc_sw.Prelude.Text.{Text, str_eq}
use kiv_pc_sw.Common.{size_max, int32_max}
use kiv_pc_sw.Lexer.Token.{TokenType, Token, token_type_eq}
use kiv_pc_sw.Lexer.Chars.{is_space, is_digit, span}

abbrev pub token_is : Option Token → TokenType → Bool
token_is none type = false
token_is (some tok) type = token_type_eq tok.type type

abbrev pub token_is_eof : Option Token → Bool
token_is_eof tok = token_is tok TokenType.eof

-- The loop over the `n` wanted types. It stops at an EOF token that is not the last one wanted.
unfoldable pub tokens_start_with : List Token → List TokenType → Bool
tokens_start_with tokens [] = true
tokens_start_with tokens (type ∷ []) = token_is (get_elem? tokens 0) type
tokens_start_with tokens (type ∷ next ∷ types) =
    if token_is (get_elem? tokens 0) type
    then (if token_is_eof (get_elem? tokens 0)
        then false
        else tokens_start_with (drop 1 tokens) (next ∷ types))
    else false

-- The C string that is left in a buffer of `len` bytes; none is the return value 0.
abbrev pub token_copy_value : Token → ℕ → Option Text
token_copy_value token len = if ltb 0 (len - 1) then some (take (len - 1) token.value) else none

abbrev pub token_value_eq : Token → Text → Bool
token_value_eq token s = str_eq token.value s

-- The value of a run of digits.
unfoldable pub digits_value : ℕ → Text → ℕ
digits_value acc [] = acc
digits_value acc (c ∷ s) = digits_value (acc * 10 + (c - b'0')) s

abbrev is_sign : Text → Bool
is_sign [] = false
is_sign (c ∷ s) = c == b'-' || c == b'+'

abbrev is_minus : Text → Bool
is_minus [] = false
is_minus (c ∷ s) = c == b'-'

-- What strtoimax and strtoull read in base 10: blanks, a sign, digits. The sign and the
-- magnitude, or none where there is no digit; what follows the digits is left alone.
unfoldable pub scan_number : Text → Option (Bool × ℕ)
unfolding is_space is_digit span digits_value
scan_number text =
    let s = drop (span is_space text) text in
    let body = drop (if is_sign s then 1 else 0) s in
    let n = span is_digit body in
    if n == 0 then none else some (is_minus s, digits_value 0 (take n body))

-- strtoimax reports ERANGE outside intmax_t; the value is a 32-bit pattern.
unfoldable pub token_parse_int32 : Token → Option ℕ
token_parse_int32 token = elim (scan_number token.value) [
  | none ↦ none
  | some (negative, n) ↦
      if negative
      then (if ltb (2 ^ 31) n then none else some ((2 ^ 32 - n) % 2 ^ 32))
      else (if ltb int32_max n then none else some n)
]

-- strtoull negates in unsigned long long, and reports ERANGE for a magnitude above its maximum.
unfoldable pub token_parse_size_t : Token → Option ℕ
token_parse_size_t token = elim (scan_number token.value) [
  | none ↦ none
  | some (negative, n) ↦
      if ltb size_max n then none else some (if negative then (2 ^ 64 - n) % 2 ^ 64 else n)
]
