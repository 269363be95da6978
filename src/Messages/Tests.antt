-- ===== src/Messages/Tests.antt =====
-- Messages printed, and a number read back.
use kiv_pc_sw.Prelude.{◌≡◌, refl, true, false, [], ◌∷◌, some, arith, ◌+◌, ◌-◌, ◌^◌, ◌++◌, length}
use kiv_pc_sw.Prelude.Text.{codes}
use kiv_pc_sw.Instruction.{op_imm32}
use kiv_pc_sw.Parser.Statement.{Operand, ops_none}
use kiv_pc_sw.Parser.TokenHelpers.{token_parse_int32}
use kiv_pc_sw.Messages.{digits, decimal, decimal_int32, get_op_text, print_err, first_null_arg}
use kiv_pc_sw.Lexer.Chars.{is_digit, span}
use kiv_pc_sw.Lexer.SetToken.{set_next_token}
use kiv_pc_sw.Messages.Lexed.{number_token, set_next_token-op_text}

-- The operand -7.
abbrev minus_seven : Operand
minus_seven = record {
  type = op_imm32;
  specifier = ops_none;
  register_name = [];
  immediate_value = 2 ^ 32 - 7;
  label = [];
}

op_text : get_op_text minus_seven ≡ codes "-7"
unfolding get_op_text decimal_int32 decimal digits
op_text = refl

op_text_example :
    (set_next_token (get_op_text minus_seven ++ codes ", B") 4 1
      ≡ some (number_token (get_op_text minus_seven) 1, 4 + length (get_op_text minus_seven)))
    × (token_parse_int32 (number_token (get_op_text minus_seven) 1) ≡ some (2 ^ 32 - 7))
unfolding span is_digit
op_text_example = set_next_token-op_text minus_seven (codes ", B") 4 1 refl refl (omega arith) refl

error_printed :
    print_err (codes "now") (some (codes "a.c")) 10 (codes "%d\n") (codes "5\n")
    ≡ codes "[now] {a.c:10} 5\n"
unfolding print_err decimal digits
error_printed = refl

second_is_null : first_null_arg (false ∷ true ∷ []) ≡ 2
unfolding first_null_arg
second_is_null = refl
