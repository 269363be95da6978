-- ===== src/Messages/Decimal.antt =====
-- A number that has been printed is read back by the parser.
use native.Mathlib.Numerals.{unary_clauses}
use kiv_pc_sw.Prelude.{
  ℕ, zero, suc, ◌+◌, ◌-◌, ◌*◌, ◌/◌, ◌%◌, ◌^◌, ◌≤◌, ◌<◌, ◌≡◌, refl, ◌∙◌, ap, true, false, [], ◌∷◌,
  some, arith, ltb, leb, ◌==◌, take, length, Bool-cases, suc_ne_zero, inl, inr,
}
use kiv_pc_sw.Prelude.Text.{Text}
use kiv_pc_sw.Common.{int32_max}
use kiv_pc_sw.Lexer.Token.{Token}
use kiv_pc_sw.Lexer.Chars.{is_space, is_digit, span}
use kiv_pc_sw.Instruction.{op_imm32}
use kiv_pc_sw.Parser.Statement.{Operand, ops_none}
use kiv_pc_sw.Parser.TokenHelpers.{digits_value, scan_number, token_parse_int32}
use kiv_pc_sw.Messages.{digits, decimal, decimal_int32, get_op_text}

abbrev pub AreDigits : Text → Type 0
AreDigits [] = Unit
AreDigits (c ∷ s) = (b'0' ≤ c) × (c ≤ b'9') × AreDigits s

-- Digits, and at least one.
pub record IsNumeral (s : Text) : Type 0 where
  pub digits : AreDigits s
  pub positive : 0 < length s

digits-IsNumeral :
    (fuel n : ℕ) (after : Text) → n < fuel → AreDigits after → IsNumeral (digits fuel n after)
unfolding digits
digits-IsNumeral zero n after h a = absurd (omega arith)
digits-IsNumeral (suc fuel) n after h a = elim (Bool-cases (ltb n 10)) [
  | inl few ↦ rw few (record { digits = (omega arith, ground arith, a); positive = omega arith })
  | inr many ↦
      let more : 10 ≤ n = ground arith in
      rw many (
        digits-IsNumeral fuel (n / 10) ((b'0' + n % 10) ∷ after) (omega arith)
          (omega arith, omega arith, a))
]

-- The digits in front of `after` read as the number.
digits_value-digits :
    (fuel n : ℕ) (after : Text)
    → n < fuel
    → digits_value 0 (digits fuel n after) ≡ digits_value n after
unfolding digits digits_value
digits_value-digits zero n after h = absurd (omega arith)
digits_value-digits (suc fuel) n after h = elim (Bool-cases (ltb n 10)) [
  | inl few ↦ rw few (ap (λ v. digits_value v after) (omega arith))
  | inr many ↦
      let more : 10 ≤ n = ground arith in
      rw many (
        digits_value-digits fuel (n / 10) ((b'0' + n % 10) ∷ after) (omega arith)
        ∙ ap (λ v. digits_value v after) (omega arith))
]

span-AreDigits : (s : Text) → AreDigits s → span is_digit s ≡ length s
unfolding span is_digit
span-AreDigits [] h = refl
span-AreDigits (c ∷ s) (low, high, h) =
    let digit : leb b'0' c ≡ true = ground arith in
    let digit9 : leb c b'9' ≡ true = ground arith in
    rw (digit, digit9) (ap suc (span-AreDigits s h))

take-length : (s : Text) → take (length s) s ≡ s
take-length [] = refl
take-length (c ∷ s) = ap (λ t. c ∷ t) (take-length s)

-- No blank begins with a digit or with a sign.
not_space : (c : ℕ) → b'-' ≤ c → is_space c ≡ false
unfolding is_space
not_space c h = ground arith

scan-numeral : (s : Text) → IsNumeral s → scan_number s ≡ some (false, digits_value 0 s)
unfolding scan_number span
scan-numeral [] n = absurd (omega (arith, n.positive))
scan-numeral (c ∷ s) n =
    let (low, high, rest) = n.digits in
    let space = not_space c (omega arith) in
    let minus : (c == b'-') ≡ false = ground arith in
    let plus : (c == b'+') ≡ false = ground arith in
    let all = span-AreDigits (c ∷ s) n.digits in
    rw (space, minus, plus, all) (rw (suc_ne_zero (length s), take-length s) refl)

-- A minus sign in front of a numeral.
scan-minus : (s : Text) → IsNumeral s → scan_number (b'-' ∷ s) ≡ some (true, digits_value 0 s)
unfolding scan_number span is_space
scan-minus [] n = absurd (omega (arith, n.positive))
scan-minus (c ∷ s) n =
    rw (span-AreDigits (c ∷ s) n.digits) (rw (suc_ne_zero (length s), take-length s) refl)

pub decimal-IsNumeral : (n : ℕ) → IsNumeral (decimal n)
unfolding decimal
decimal-IsNumeral n = digits-IsNumeral (suc n) n [] (omega arith) tt

-- The digits of a number have its value.
digits_value-decimal : (n : ℕ) → digits_value 0 (decimal n) ≡ n
unfolding decimal digits_value
digits_value-decimal n = digits_value-digits (suc n) n [] (omega arith)

-- The 32-bit pattern that %d prints is the one that token_parse_int32 reads.
pub token_parse-decimal :
    (v : ℕ) (token : Token)
    → v < 2 ^ 32
    → token.value ≡ decimal_int32 v
    → token_parse_int32 token ≡ some v
unfolding token_parse_int32 decimal_int32
token_parse-decimal v token h e = elim (Bool-cases (ltb v (2 ^ 31))) [
  | inl low ↦
      let small : ltb int32_max v ≡ false = ground arith in
      let whole : decimal_int32 v ≡ decimal v = rw low refl in
      let scan =
        ap scan_number (e ∙ whole)
        ∙ scan-numeral (decimal v) (decimal-IsNumeral v)
        ∙ ap (λ n. some (false, n)) (digits_value-decimal v) in
      rw (token_parse_int32, scan, small) refl
  | inr high ↦
      let big : 2 ^ 31 ≤ v = ground arith in
      let n = 2 ^ 32 - v in
      let fits : ltb (2 ^ 31) n ≡ false = ground arith in
      let whole : decimal_int32 v ≡ b'-' ∷ decimal n = rw high refl in
      let scan =
        ap scan_number (e ∙ whole)
        ∙ scan-minus (decimal n) (decimal-IsNumeral n)
        ∙ ap (λ n. some (true, n)) (digits_value-decimal n) in
      rw (token_parse_int32, scan, fits) (ap some (omega arith))
]

-- A number below 10^(k+1) has at most k + 1 digits.
length-digits :
    (k fuel n : ℕ) (after : Text)
    → n < 10 ^ suc k
    → length (digits fuel n after) ≤ suc k + length after
unfolding digits
length-digits k zero n after h = omega arith
length-digits zero (suc fuel) n after h =
    let few : ltb n 10 ≡ true = ground arith in rw few (omega arith)
length-digits (suc k) (suc fuel) n after h = elim (Bool-cases (ltb n 10)) [
  | inl few ↦ rw few (omega arith)
  | inr many ↦
      let power : 10 ^ suc (suc k) ≡ 10 ^ suc k * 10 = simp unary_clauses (omega arith) in
      let rest =
        length-digits k fuel (n / 10) ((b'0' + n % 10) ∷ after) (omega (arith, h, power)) in
      rw many (omega (arith, rest))
]

take-all : (n : ℕ) (s : Text) → length s ≤ n → take n s ≡ s
take-all zero [] h = refl
take-all zero (c ∷ s) h = absurd (omega arith)
take-all (suc n) [] h = refl
take-all (suc n) (c ∷ s) h = ap (λ t. c ∷ t) (take-all n s (omega (arith, h)))

-- The buffer of _get_op_text is large enough.
pub length-decimal_int32 : (v : ℕ) → v < 2 ^ 32 → length (decimal_int32 v) ≤ 63
unfolding decimal_int32 decimal
length-decimal_int32 v h = elim (Bool-cases (ltb v (2 ^ 31))) [
  | inl low ↦ rw low (omega (arith, length-digits 9 (suc v) v [] (omega arith)))
  | inr high ↦
      let n = 2 ^ 32 - v in
      let few : n < 2 ^ 32 = ground arith in
      rw high (omega (arith, length-digits 9 (suc n) n [] (omega (arith, few))))
]

pub get_op_text-number :
    (op : Operand)
    → op.type ≡ op_imm32
    → op.specifier ≡ ops_none
    → op.immediate_value < 2 ^ 32
    → get_op_text op ≡ decimal_int32 op.immediate_value
unfolding get_op_text
get_op_text-number op number plain small =
    let v = op.immediate_value in
    rw (number, plain) (take-all 63 (decimal_int32 v) (length-decimal_int32 v small))
