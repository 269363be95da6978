-- ===== src/Lexer/Print/Tests.antt =====
-- Tokens printed.
use kiv_pc_sw.Prelude.{◌≡◌, ◌≢◌, refl, List, [], ◌∷◌, none, some}
use kiv_pc_sw.Prelude.Text.{codes}
use kiv_pc_sw.Common.{jalloc, jealloc}
use kiv_pc_sw.Samples.{generous}
use kiv_pc_sw.Lexer.Token
use kiv_pc_sw.Lexer.Token.{Token}
use kiv_pc_sw.Lexer.TokenArray
use kiv_pc_sw.Lexer.SetToken.{set_next_token, single, set_token}
use kiv_pc_sw.Lexer.Line.{
  tokenize_line, tokenize_loop, skip_to_next_token, read_token, close, tokens,
}
use kiv_pc_sw.Messages.{digits, decimal}
use kiv_pc_sw.Lexer.Print.{
  token_type_to_str, print_token, print_tokens_from, print_tokens, tokenize_line-printed,
}

abbrev comma_token : Token
comma_token = record { type = Token.comma; value = codes ","; line_number = 12 }

abbrev eof_token : Token
eof_token = record { type = Token.eof; value = []; line_number = 12 }

abbrev comma_line : List Token
comma_line = comma_token ∷ eof_token ∷ []

comma_line_printed :
    print_tokens (some comma_line)
    ≡ some (codes "[0] Token{ type=COMMA, value=\",\", line=12 }\n[1] Token{ type=EOF }\n")
unfolding print_tokens print_tokens_from print_token token_type_to_str decimal digits
comma_line_printed = refl

comma_line_read : tokenize_line generous (codes " , ; c") 12 ≡ tokens comma_line
unfolding tokenize_line tokenize_loop skip_to_next_token read_token close set_next_token single
    set_token jalloc jealloc TokenArray.init TokenArray.ensure_capacity TokenArray.grow_capacity
comma_line_read = refl

printed_example : print_tokens (some comma_line) ≢ none
printed_example = tokenize_line-printed generous (codes " , ; c") 12 comma_line_read
