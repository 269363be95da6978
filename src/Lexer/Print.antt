-- ===== src/Lexer/Print.antt =====
-- lexer/lexer.c: token_type_to_str, print_token and print_tokens.
mod Tests
use kiv_pc_sw.Prelude.{
  ℕ, ◌+◌, Bool, true, false, List, [], ◌∷◌, ◌++◌, Option, none, some, if◌then◌else◌, ◌≡◌, ◌≢◌, refl,
  sym, subst,
}
use kiv_pc_sw.Prelude.Text.{Text, codes, str_eq}
use kiv_pc_sw.Lexer.Token
use kiv_pc_sw.Common.{Allocator}
use kiv_pc_sw.Lexer.Token.{TokenType, Token, eof, token_type_eq}
use kiv_pc_sw.Lexer.TokenShape
use kiv_pc_sw.Lexer.Line.{tokenize_line, tokens}
use kiv_pc_sw.Lexer.Closed.{AreTokens, end_of_line, tokenize_line-Closed}
use kiv_pc_sw.Messages.{decimal}

unfoldable pub token_type_to_str : TokenType → Text
token_type_to_str Token.instruction = codes "INSTRUCTION"
token_type_to_str Token.register = codes "REGISTER"
token_type_to_str Token.number = codes "NUMBER"
token_type_to_str Token.identifier = codes "IDENTIFIER"
token_type_to_str Token.label = codes "LABEL"
token_type_to_str Token.comma = codes "COMMA"
token_type_to_str Token.section_data = codes "SECTION_DATA"
token_type_to_str Token.section_code = codes "SECTION_CODE"
token_type_to_str Token.kma = codes "KMA"
token_type_to_str Token.offset = codes "OFFSET"
token_type_to_str Token.question = codes "QUESTION"
token_type_to_str Token.string = codes "STRING"
token_type_to_str Token.data_type = codes "DATA_TYPE"
token_type_to_str Token.dup = codes "DUP"
token_type_to_str Token.lparen = codes "LPAREN"
token_type_to_str Token.rparen = codes "RPAREN"
token_type_to_str Token.eof = codes "EOF"
token_type_to_str Token.unknown = codes "UNKNOWN"

-- What print_token prints; none is the null pointer.
unfoldable pub print_token : Option Token → Text
unfolding token_type_to_str decimal
print_token none = codes "(null token)\n"
print_token (some token) =
    codes "Token{ type="
    ++ (token_type_to_str token.type
        ++ (codes ", value=\""
            ++ (token.value ++ (codes "\", line=" ++ (decimal token.line_number ++ codes " }\n")))))

-- The loop of print_tokens from index i: none if it runs past the end of the array.
unfoldable pub print_tokens_from : ℕ → List Token → Option Text
unfolding print_token decimal
print_tokens_from i [] = none
print_tokens_from i (token ∷ ts) =
    let rest = print_tokens_from (i + 1) ts in
    let index = codes "[" ++ (decimal i ++ codes "] ") in
    if token_type_eq token.type eof
    then some (index ++ codes "Token{ type=EOF }\n")
    else elim rest [ none ↦ none | some text ↦ some (index ++ (print_token (some token) ++ text)) ]

unfoldable pub print_tokens : Option (List Token) → Option Text
unfolding print_tokens_from
print_tokens none = some (codes "(null token array)\n")
print_tokens (some ts) = print_tokens_from 0 ts

not_eof : (type : TokenType) → type ≢ eof → token_type_eq type eof ≡ false
not_eof type h =
    elim type as (λ k. type ≡ k → token_type_eq k eof ≡ false) [
      | eof ↦ λ e. absurd (h e)
      | _ ↦ λ e. refl
    ]
      refl

-- Before the end-of-line token the loop goes on.
printed-end_of_line :
    (i nl : ℕ) (ts : List Token)
    → AreTokens nl ts
    → print_tokens_from i (ts ++ (end_of_line nl ∷ [])) ≢ none
unfolding print_tokens_from
printed-end_of_line i nl [] a = λ e. absurd cc
printed-end_of_line i nl (t ∷ ts) a =
    let more = not_eof t.type a.0.type in
    rw more (
      go (print_tokens_from (i + 1) (ts ++ (end_of_line nl ∷ [])))
        (printed-end_of_line (i + 1) nl ts a.1))
  where
    index : Text
    index = codes "[" ++ (decimal i ++ codes "] ")

    go :
        (rest : Option Text)
        → rest ≢ none
        → ◌≢◌ {A = Option Text}
            (elim rest [ none ↦ none | some text ↦ some (index ++ (print_token (some t) ++ text)) ])
            none
    go none h e = absurd (h refl)
    go (some text) h e = absurd cc

-- If lexer_tokenize_line returns tokens, print_tokens on them stops at the end-of-line token,
-- before the end of the array.
pub tokenize_line-printed :
    (m : Allocator) (line : Text) (nl : ℕ) {ts : List Token}
    → tokenize_line m line nl ≡ tokens ts
    → print_tokens (some ts) ≢ none
unfolding print_tokens
tokenize_line-printed m line nl h =
    let closed = tokenize_line-Closed m line nl h in
    subst (λ ts. print_tokens (some ts) ≢ none) (sym closed.whole)
      (printed-end_of_line 0 nl closed.before closed.each)
