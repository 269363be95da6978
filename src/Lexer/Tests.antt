-- ===== src/Lexer/Tests.antt =====
-- Lines run through the lexer.
use kiv_pc_sw.Prelude.{◌≢◌, ◌<◌, ◌≡◌, refl, List, [], ◌∷◌}
use kiv_pc_sw.Prelude.Text.{codes}
use kiv_pc_sw.Lexer.Token.{TokenType, Token}
use kiv_pc_sw.Lexer.SetToken.{set_next_token, single, set_token}
use kiv_pc_sw.Lexer.Line.{
  tokenize_line, out_of_fuel, tokens, tokenize_loop, skip_to_next_token, read_token, close,
}
use kiv_pc_sw.Lexer.Closed.{Closed, tokenize_line-Closed, end_of_line}
use kiv_pc_sw.Lexer.TokenArray
use kiv_pc_sw.Common.{jalloc, jealloc}
use kiv_pc_sw.Lexer.Progress.{set_next_token_moves, tokenize_line_ends}
use kiv_pc_sw.Samples.{generous}

set_next_token_example : 4 < 5
unfolding set_next_token single set_token
set_next_token_example =
    set_next_token_moves (codes ", 2") 4 1
      {token = record { type = TokenType.comma; value = codes ","; line_number = 1 }} refl

tokenize_line_example : tokenize_line generous (codes "@a: MOV A, 2 ; c") 1 ≢ out_of_fuel
tokenize_line_example = tokenize_line_ends generous (codes "@a: MOV A, 2 ; c") 1

-- A parenthesis, a comma and the end of the line.
abbrev two_tokens : List Token
two_tokens =
    record { type = TokenType.lparen; value = codes "("; line_number = 7 }
    ∷ record { type = TokenType.comma; value = codes ","; line_number = 7 }
    ∷ end_of_line 7
    ∷ []

two_tokens_read : tokenize_line generous (codes "( , ; c") 7 ≡ tokens two_tokens
unfolding tokenize_line tokenize_loop skip_to_next_token read_token close set_next_token single
    set_token jalloc jealloc TokenArray.init TokenArray.ensure_capacity TokenArray.grow_capacity
two_tokens_read = refl

Closed_example : Closed 7 two_tokens
Closed_example = tokenize_line-Closed generous (codes "( , ; c") 7 two_tokens_read
