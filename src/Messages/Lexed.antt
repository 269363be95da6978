-- ===== src/Messages/Lexed.antt =====
-- A number that has been printed, in a line of source text, is a token again.
use kiv_pc_sw.Prelude.{
  ℕ, suc, ◌+◌, ◌-◌, ◌^◌, ◌≤◌, ◌<◌, ◌≡◌, refl, sym, ap, subst, Bool, true, false, [], ◌∷◌, ◌++◌,
  none, some, arith, ltb, leb, ◌==◌, ◌&&◌, ◌||◌, take, length, Bool-cases, inl, inr,
}
use kiv_pc_sw.Prelude.Text.{Text}
use kiv_pc_sw.Common.{max_identifier_len}
use kiv_pc_sw.Lexer.Token
use kiv_pc_sw.Lexer.Token.{TokenType, Token}
use kiv_pc_sw.Lexer.Chars.{is_digit, span}
use kiv_pc_sw.Lexer.SetToken.{
  set_token_len, set_token_number, set_next_token, set_longer_token, single, starts_number,
}
use kiv_pc_sw.Instruction.{op_imm32}
use kiv_pc_sw.Parser.Statement.{Operand, ops_none}
use kiv_pc_sw.Parser.TokenHelpers.{token_parse_int32}
use kiv_pc_sw.Messages.{decimal, decimal_int32, get_op_text}
use kiv_pc_sw.Messages.Decimal.{
  AreDigits, IsNumeral, decimal-IsNumeral, length-decimal_int32, get_op_text-number,
  token_parse-decimal,
}

abbrev pub number_token : Text → ℕ → Token
number_token value nl = record { type = Token.number; value = value; line_number = nl }

take_append : (s rest : Text) → take (length s) (s ++ rest) ≡ s
take_append [] rest = refl
take_append (c ∷ s) rest = ap (λ t. c ∷ t) (take_append s rest)

-- The digits end where the numeral does.
span_append :
    (s rest : Text) → AreDigits s → span is_digit rest ≡ 0 → span is_digit (s ++ rest) ≡ length s
unfolding span is_digit
span_append [] rest a h = h
span_append (c ∷ s) rest (low, high, a) h =
    let digit : leb b'0' c ≡ true = ground arith in
    let digit9 : leb c b'9' ≡ true = ground arith in
    rw (digit, digit9) (ap suc (span_append s rest a h))

set_token_len-whole :
    (s rest : Text) (nl len : ℕ)
    → len ≡ length s
    → 0 < length s
    → length s + 1 ≤ max_identifier_len
    → set_token_len TokenType.number (s ++ rest) nl len ≡ some (number_token s nl)
unfolding set_token_len
set_token_len-whole s rest nl len e h k =
    let some_chars : ltb 0 (length s) ≡ true = ground arith in
    let fits : leb (length s + 1) max_identifier_len ≡ true = ground arith in
    rw e (rw (some_chars, fits, take_append s rest) refl)

-- One character is enough.
enough_chars : (minus : Bool) (n : ℕ) → 0 < n → (ltb 1 n && minus || ltb 0 n) ≡ true
enough_chars minus n h = ground arith

digit_starts_number : (c : ℕ) (s : Text) → is_digit c ≡ true → starts_number (c ∷ s) ≡ true
digit_starts_number c [] h = h
digit_starts_number c (d ∷ s) h = rw h refl

is_digit-digit : (c : ℕ) → b'0' ≤ c → c ≤ b'9' → is_digit c ≡ true
unfolding is_digit
is_digit-digit c low high = ground arith

-- No digit is one of the characters that have their own token.
single-digit : (c : ℕ) → b'0' ≤ c → c ≤ b'9' → single c ≡ none
unfolding single
single-digit c low high = ground arith

set_token_number-plain :
    (s rest : Text) (nl : ℕ)
    → IsNumeral s
    → length s + 1 ≤ max_identifier_len
    → span is_digit rest ≡ 0
    → set_token_number (s ++ rest) nl ≡ some (number_token s nl)
unfolding set_token_number
set_token_number-plain [] rest nl n k h = absurd (omega (arith, n.positive))
set_token_number-plain (c ∷ s) rest nl n k h =
    let (low, high, a) = n.digits in
    let plain : (c == b'-') ≡ false = ground arith in
    let all = span_append (c ∷ s) rest n.digits h in
    rw (set_token_number, plain, all, enough_chars false (0 + suc (length s)) (omega arith))
      (set_token_len-whole (c ∷ s) rest nl (0 + suc (length s)) (omega arith) n.positive k)

set_token_number-minus :
    (s rest : Text) (nl : ℕ)
    → IsNumeral s
    → length s + 2 ≤ max_identifier_len
    → span is_digit rest ≡ 0
    → set_token_number (b'-' ∷ (s ++ rest)) nl ≡ some (number_token (b'-' ∷ s) nl)
unfolding set_token_number
set_token_number-minus s rest nl n k h =
    let all = span_append s rest n.digits h in
    rw (all, enough_chars true (1 + length s) (omega arith))
      (set_token_len-whole (b'-' ∷ s) rest nl (1 + length s) (omega arith) (omega arith)
        (omega arith))

minus_starts_number : (c : ℕ) (s : Text) → is_digit c ≡ true → starts_number (b'-' ∷ (c ∷ s)) ≡ true
unfolding is_digit
minus_starts_number c s h = h

set_longer_token-number :
    (c : ℕ) (rest : Text) (pos nl : ℕ) {token : Token}
    → (c == b'"') ≡ false
    → (c == b'@') ≡ false
    → starts_number (c ∷ rest) ≡ true
    → set_token_number (c ∷ rest) nl ≡ some token
    → set_longer_token c rest pos nl ≡ some (token, pos + length token.value)
unfolding set_longer_token
set_longer_token-number c rest pos nl quote at_sign number read =
    rw (set_longer_token, quote, at_sign, number, read) refl

set_next_token-plain :
    (s rest : Text) (pos nl : ℕ)
    → IsNumeral s
    → length s + 1 ≤ max_identifier_len
    → span is_digit rest ≡ 0
    → set_next_token (s ++ rest) pos nl ≡ some (number_token s nl, pos + length s)
unfolding set_next_token
set_next_token-plain [] rest pos nl n k h = absurd (omega (arith, n.positive))
set_next_token-plain (c ∷ s) rest pos nl n k h =
    let (low, high, a) = n.digits in
    let quote : (c == b'"') ≡ false = ground arith in
    let at_sign : (c == b'@') ≡ false = ground arith in
    rw (set_next_token, single-digit c low high)
      (set_longer_token-number c (s ++ rest) pos nl quote at_sign
        (digit_starts_number c (s ++ rest) (is_digit-digit c low high))
        (set_token_number-plain (c ∷ s) rest nl n k h))

set_next_token-minus :
    (s rest : Text) (pos nl : ℕ)
    → IsNumeral s
    → length s + 2 ≤ max_identifier_len
    → span is_digit rest ≡ 0
    → set_next_token (b'-' ∷ (s ++ rest)) pos nl
      ≡ some (number_token (b'-' ∷ s) nl, pos + suc (length s))
unfolding set_next_token single
set_next_token-minus [] rest pos nl n k h = absurd (omega (arith, n.positive))
set_next_token-minus (c ∷ s) rest pos nl n k h =
    let (low, high, a) = n.digits in
    set_longer_token-number b'-' (c ∷ (s ++ rest)) pos nl refl refl
      (minus_starts_number c (s ++ rest) (is_digit-digit c low high))
      (set_token_number-minus (c ∷ s) rest nl n k h)

-- A number printed with %d, before a character that is no digit.
set_next_token-decimal :
    (v : ℕ) (rest : Text) (pos nl : ℕ)
    → v < 2 ^ 32
    → span is_digit rest ≡ 0
    → set_next_token (decimal_int32 v ++ rest) pos nl
      ≡ some (number_token (decimal_int32 v) nl, pos + length (decimal_int32 v))
unfolding decimal_int32
set_next_token-decimal v rest pos nl small h = elim (Bool-cases (ltb v (2 ^ 31))) [
  | inl low ↦
      let k = length-decimal_int32 v small in
      let whole : decimal_int32 v ≡ decimal v = rw low refl in
      rw low (
        set_next_token-plain (decimal v) rest pos nl (decimal-IsNumeral v)
          (omega (arith, subst (λ s. length s ≤ 63) whole k)) h)
  | inr high ↦
      let k = length-decimal_int32 v small in
      let s = decimal (2 ^ 32 - v) in
      let whole : decimal_int32 v ≡ b'-' ∷ s = rw high refl in
      rw high (
        set_next_token-minus s rest pos nl (decimal-IsNumeral (2 ^ 32 - v))
          (omega (arith, subst (λ s. length s ≤ 63) whole k)) h)
]

-- If an operand is a plain number whose 32-bit pattern is below 2^32, and the text behind it does
-- not begin with a digit, then from the text that _get_op_text gives for the operand
-- set_next_token reads a number token with this whole text as its value, and moves over it, and
-- token_parse_int32 reads the pattern of the operand from that token.
pub set_next_token-op_text :
    (op : Operand) (rest : Text) (pos nl : ℕ)
    → op.type ≡ op_imm32
    → op.specifier ≡ ops_none
    → op.immediate_value < 2 ^ 32
    → span is_digit rest ≡ 0
    → (set_next_token (get_op_text op ++ rest) pos nl
        ≡ some (number_token (get_op_text op) nl, pos + length (get_op_text op)))
      × (token_parse_int32 (number_token (get_op_text op) nl) ≡ some op.immediate_value)
set_next_token-op_text op rest pos nl number plain small h =
    let text = get_op_text-number op number plain small in
    (
      subst (λ s. set_next_token (s ++ rest) pos nl ≡ some (number_token s nl, pos + length s))
          (sym text) (set_next_token-decimal op.immediate_value rest pos nl small h),
      token_parse-decimal op.immediate_value (number_token (get_op_text op) nl) small text,
    )
