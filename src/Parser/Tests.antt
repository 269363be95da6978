-- ===== src/Parser/Tests.antt =====
-- Lines run through the lexer and the parser.
use kiv_pc_sw.Prelude.{◌≡◌, refl, true, [], ◌∷◌, List, Option, none, some}
use kiv_pc_sw.Prelude.Text.{Text, codes, str_eq}
use kiv_pc_sw.Common.{Allocator, jalloc, jealloc}
use kiv_pc_sw.Instruction
use kiv_pc_sw.Lexer.Token.{TokenType, Token}
use kiv_pc_sw.Lexer.TokenArray
use kiv_pc_sw.Lexer.Line.{
  tokenize_line, tokenize_loop, skip_to_next_token, read_token, close, Tokenized, tokens,
}
use kiv_pc_sw.Lexer.SetToken.{set_next_token, lexer_classify_word}
use kiv_pc_sw.Parser.Settled.{Balanced}
use kiv_pc_sw.Parser.LineBlocks.{convert_parse_tokens-Balanced}
use kiv_pc_sw.Parser.Statement.{Statement}
use kiv_pc_sw.Parser.Shape.{IsSound}
use kiv_pc_sw.Parser.LineShape.{convert_parse_tokens-IsSound}
use kiv_pc_sw.Parser.Grammar.{
  grammar_line_kma, grammar_line_code, grammar_line_data, grammar_line_label,
  grammar_line_identifier, grammar_line_instruction, grammar_line, parse_tokens,
  convert_parse_tokens,
}
use kiv_pc_sw.Parser.Identifier.{
  identifier_dup, grammar_identifier_dup, grammar_identifier_dec, grammar_identifier_dec2,
  grammar_identifier_def,
}
use kiv_pc_sw.Parser.Operands.{
  set_op_count, set_ops_none, set_op_label, set_op_register, set_op_number, set_op_offset,
  grammar_instruction_rhs_after, grammar_instruction_rhs,
}
use kiv_pc_sw.Parser.Segments.{
  segment_append, segments_finalize, total_size_of, segment_set_dd_total_size, segment_remove_last,
  segment_set_dup, segment_set_number, segment_set_uninit, segment_set_string,
}
use kiv_pc_sw.Parser.TokenHelpers.{
  tokens_start_with, digits_value, scan_number, token_parse_int32, token_parse_size_t,
}
use kiv_pc_sw.Parser.Statement.{p_stmt_create}

abbrev generous : Allocator
generous = record { grants = λ n. true; residue = λ n. 0 }

front : Text → Option Statement
front line = elim (tokenize_line generous line 1) [
  | tokens ts ↦ convert_parse_tokens generous ts 1
  | _ ↦ none
]

types : Tokenized → List TokenType
types (tokens ts) = go ts
  where
    go : List Token → List TokenType
    go [] = []
    go (t ∷ ts) = t.type ∷ go ts
types _ = []

lexed :
    types (tokenize_line generous (codes "x DB 5 DUP(0), \"a b\" ; c") 1)
    ≡ TokenType.identifier ∷ TokenType.data_type ∷ TokenType.number ∷ TokenType.dup
      ∷ TokenType.lparen ∷ TokenType.number ∷ TokenType.rparen ∷ TokenType.comma ∷ TokenType.string
      ∷ TokenType.eof ∷ []
unfolding types tokenize_line tokenize_loop skip_to_next_token read_token close set_next_token
    jalloc jealloc TokenArray.init TokenArray.ensure_capacity TokenArray.grow_capacity
    Instruction.is_mnemonic Instruction.is_mnemonic_in Instruction.instruction_table
    lexer_classify_word str_eq
lexed = refl

decl : Option Statement
decl = front (codes "x DB 5 DUP(0), \"a b\" ; c")

move : Option Statement
move = front (codes "MOV A, OFFSET foo")

-- The line x DB 5.
abbrev data_tokens : List Token
data_tokens =
    record { type = TokenType.identifier; value = codes "x"; line_number = 1 }
    ∷ record { type = TokenType.data_type; value = codes "DB"; line_number = 1 }
    ∷ record { type = TokenType.number; value = codes "5"; line_number = 1 }
    ∷ record { type = TokenType.eof; value = []; line_number = 1 }
    ∷ []

parsed_or : Statement → Option Statement → Statement
parsed_or s none = s
parsed_or s (some p) = p

data_line : Statement
data_line = parsed_or (p_stmt_create 0) (convert_parse_tokens generous data_tokens 1)

data_line_parsed : convert_parse_tokens generous data_tokens 1 ≡ some data_line
unfolding data_line parsed_or jalloc jealloc Instruction.find Instruction.find_in
    Instruction.instruction_table str_eq grammar_line_kma grammar_line_code grammar_line_data
    grammar_line_label grammar_line_identifier grammar_line_instruction grammar_line parse_tokens
    convert_parse_tokens identifier_dup grammar_identifier_dup grammar_identifier_dec
    grammar_identifier_dec2 grammar_identifier_def set_op_count set_ops_none set_op_label
    set_op_register set_op_number set_op_offset grammar_instruction_rhs_after
    grammar_instruction_rhs segment_append segments_finalize total_size_of segment_set_dd_total_size
    segment_remove_last segment_set_dup segment_set_number segment_set_uninit segment_set_string
    tokens_start_with digits_value scan_number token_parse_int32 token_parse_size_t p_stmt_create
data_line_parsed = refl

IsSound_example : IsSound data_line
IsSound_example = convert_parse_tokens-IsSound generous data_tokens 1 data_line_parsed

Balanced_example : Balanced data_line
Balanced_example = convert_parse_tokens-Balanced generous data_tokens 1 data_line_parsed
