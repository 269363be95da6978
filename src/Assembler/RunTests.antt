-- ===== src/Assembler/RunTests.antt =====
-- process_assembler run on a small file.
use kiv_pc_sw.Prelude.{none, false, ◌≡◌, refl, [], ◌∷◌, List, some}
use kiv_pc_sw.Prelude.Text.{Text, codes, str_eq}
use kiv_pc_sw.Common.{jalloc, jealloc, err_no_error}
use kiv_pc_sw.Segment
use kiv_pc_sw.Dataseg
use kiv_pc_sw.Symbol
use kiv_pc_sw.Instruction
use kiv_pc_sw.Instruction.{Descriptor, row, op_none, op_imm32}
use kiv_pc_sw.Lexer.TokenArray
use kiv_pc_sw.Lexer.SetToken.{set_next_token, set_longer_token, lexer_classify_word}
use kiv_pc_sw.Lexer.Line.{tokenize_line, tokenize_loop, skip_to_next_token, read_token, close}
use kiv_pc_sw.Parser.Grammar.{
  grammar_line_kma, grammar_line_code, grammar_line_data, grammar_line_label,
  grammar_line_identifier, grammar_line_instruction, grammar_line, parse_tokens,
  convert_parse_tokens,
}
use kiv_pc_sw.Parser.Identifier.{
  identifier_dup, grammar_identifier_dup, grammar_identifier_dec, grammar_identifier_dec2,
  grammar_identifier_def,
}
use kiv_pc_sw.Parser.Operands.{
  set_op_count, set_ops_none, set_op_label, set_op_register, set_op_number, set_op_offset,
  grammar_instruction_rhs_after, grammar_instruction_rhs,
}
use kiv_pc_sw.Parser.Segments.{
  segment_append, segments_finalize, total_size_of, segment_set_dd_total_size, segment_remove_last,
  segment_set_dup, segment_set_number, segment_set_uninit, segment_set_string,
}
use kiv_pc_sw.Parser.Statement.{p_stmt_create}
use kiv_pc_sw.Parser.TokenHelpers.{
  tokens_start_with, digits_value, scan_number, token_parse_int32, token_parse_size_t,
}
use kiv_pc_sw.Assembler.Passes.{passes_kma, passes_code_section, passes_data_section, passes_none}
use kiv_pc_sw.Assembler.Pass1.{
  pass1_decide, pass1_data_decl, pass1_instruction, pass1_label_def, define,
}
use kiv_pc_sw.Assembler.Pass2.{
  pass2_decide, pass2_data_decl, pass2_segments, pass2_segment, pass2_data_decl_value,
  pass2_instruction, pass2_instruction_ops_get, pass2_instruction_get_op,
  pass2_instruction_get_op_label, relocate, pass_2_instruction_ops_set, app_operands,
}
use kiv_pc_sw.Assembler.Types.{convert_uint32, convert_size_t, convert_err, State}
use kiv_pc_sw.Assembler.Run.{
  read_line, passes_lines, passes_line, decide, passes_any_pass, process_assembler, asp_create,
}
use kiv_pc_sw.Samples.{always, start}
use kiv_pc_sw.Assembler.Types.{asm_no_error}
use kiv_pc_sw.Parser.Statement.{stmt_kma, stmt_section_code, stmt_instruction}
use kiv_pc_sw.Assembler.Order.{Steps, line_types, passes_lines-Steps}
use kiv_pc_sw.Assembler.Sections.{
  StartsWithKma, last_section, passes_lines-StartsWithKma, passes_lines-last_section,
}
use kiv_pc_sw.Assembler.Whole.{Assembled, process_assembler-Assembled}

abbrev lines : List Text
lines = codes ".KMA" ∷ codes ".CODE" ∷ codes "NOP" ∷ []

made : asp_create always ≡ some start
unfolding asp_create Segment.create Symbol.create Symbol.init jalloc
made = refl

end : State
end = (process_assembler always always start (some lines) (some lines)).1

finished : process_assembler always always start (some lines) (some lines) ≡ (err_no_error, end)
unfolding end process_assembler passes_any_pass Segment.begin convert_err read_line tokenize_line
    tokenize_loop skip_to_next_token read_token close set_next_token set_longer_token
    lexer_classify_word jalloc jealloc TokenArray.init TokenArray.ensure_capacity
    TokenArray.grow_capacity Instruction.is_mnemonic Instruction.is_mnemonic_in
    Instruction.instruction_table Instruction.find Instruction.find_in str_eq grammar_line_kma
    grammar_line_code grammar_line_data grammar_line_label grammar_line_identifier
    grammar_line_instruction grammar_line parse_tokens convert_parse_tokens identifier_dup
    grammar_identifier_dup grammar_identifier_dec grammar_identifier_dec2 grammar_identifier_def
    set_op_count set_ops_none set_op_label set_op_register set_op_number set_op_offset
    grammar_instruction_rhs_after grammar_instruction_rhs segment_append segments_finalize
    total_size_of segment_set_dd_total_size segment_remove_last segment_set_dup segment_set_number
    segment_set_uninit segment_set_string p_stmt_create tokens_start_with digits_value scan_number
    token_parse_int32 token_parse_size_t passes_lines passes_line decide pass1_decide pass2_decide
    passes_kma passes_code_section passes_data_section passes_none pass1_data_decl pass1_instruction
    pass1_label_def define Segment.advance Symbol.find Symbol.find_in Symbol.add
    Symbol.ensure_capacity Instruction.get_encoded_size pass2_data_decl pass2_segments pass2_segment
    pass2_data_decl_value Dataseg.app_dw pass2_instruction pass2_instruction_ops_get
    pass2_instruction_get_op pass2_instruction_get_op_label convert_uint32 convert_size_t relocate
    Instruction.is_relative_jump Segment.get_size pass_2_instruction_ops_set app_operands
    Segment.app_op Segment.app_b Segment.app_imm Segment.app_bs Segment.ensure_capacity
    Segment.next_capacity Segment.grow_capacity
finished = refl

Assembled_example : (ls : List Text) × (some lines ≡ some ls) × Assembled always ls start end
Assembled_example = process_assembler-Assembled always (some lines) always made finished

first : State
first = (passes_lines false always start 1 lines).1

first_pass : passes_lines false always start 1 lines ≡ (asm_no_error, first)
unfolding first read_line tokenize_line tokenize_loop skip_to_next_token read_token close
    set_next_token set_longer_token lexer_classify_word jalloc jealloc TokenArray.init
    TokenArray.ensure_capacity TokenArray.grow_capacity Instruction.is_mnemonic
    Instruction.is_mnemonic_in Instruction.instruction_table Instruction.find Instruction.find_in
    str_eq grammar_line_kma grammar_line_code grammar_line_data grammar_line_label
    grammar_line_identifier grammar_line_instruction grammar_line parse_tokens convert_parse_tokens
    identifier_dup grammar_identifier_dup grammar_identifier_dec grammar_identifier_dec2
    grammar_identifier_def set_op_count set_ops_none set_op_label set_op_register set_op_number
    set_op_offset grammar_instruction_rhs_after grammar_instruction_rhs segment_append
    segments_finalize total_size_of segment_set_dd_total_size segment_remove_last segment_set_dup
    segment_set_number segment_set_uninit segment_set_string p_stmt_create tokens_start_with
    digits_value scan_number token_parse_int32 token_parse_size_t passes_lines passes_line decide
    pass1_decide pass2_decide passes_kma passes_code_section passes_data_section passes_none
    pass1_data_decl pass1_instruction pass1_label_def define Segment.advance Symbol.find
    Symbol.find_in Symbol.add Symbol.ensure_capacity Instruction.get_encoded_size
first_pass = refl

types : line_types always 1 lines ≡ stmt_kma ∷ stmt_section_code ∷ stmt_instruction ∷ []
unfolding line_types read_line tokenize_line tokenize_loop skip_to_next_token read_token close
    set_next_token set_longer_token lexer_classify_word jalloc jealloc TokenArray.init
    TokenArray.ensure_capacity TokenArray.grow_capacity Instruction.is_mnemonic
    Instruction.is_mnemonic_in Instruction.instruction_table Instruction.find Instruction.find_in
    str_eq grammar_line_kma grammar_line_code grammar_line_data grammar_line_label
    grammar_line_identifier grammar_line_instruction grammar_line parse_tokens convert_parse_tokens
    identifier_dup grammar_identifier_dup grammar_identifier_dec grammar_identifier_dec2
    grammar_identifier_def set_op_count set_ops_none set_op_label set_op_register set_op_number
    set_op_offset grammar_instruction_rhs_after grammar_instruction_rhs segment_append
    segments_finalize total_size_of segment_set_dd_total_size segment_remove_last segment_set_dup
    segment_set_number segment_set_uninit segment_set_string p_stmt_create tokens_start_with
    digits_value scan_number token_parse_int32 token_parse_size_t
types = refl

Steps_example : Steps start.ctx (line_types always 1 lines) first.ctx
Steps_example = passes_lines-Steps always 1 lines start first_pass

kma_example : StartsWithKma (line_types always 1 lines)
kma_example = passes_lines-StartsWithKma always 1 lines start refl first_pass

section_example : last_section none (stmt_kma ∷ stmt_section_code ∷ []) ≡ some stmt_section_code
section_example =
    passes_lines-last_section always 1 lines start (stmt_kma ∷ stmt_section_code ∷ []) []
      stmt_instruction stmt_section_code refl first_pass types refl
