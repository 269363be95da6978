-- ===== src/Main/Tests.antt =====
-- The program run on a small source file.
use kiv_pc_sw.Prelude.{◌≡◌, refl, true, [], ◌∷◌, List, some}
use kiv_pc_sw.Prelude.Text.{Text, codes, str_eq}
use kiv_pc_sw.Common.{jalloc, jealloc, exit_code}
use kiv_pc_sw.Segment
use kiv_pc_sw.Dataseg
use kiv_pc_sw.Symbol
use kiv_pc_sw.Instruction
use kiv_pc_sw.Instruction.{Descriptor, row, op_none, op_imm32}
use kiv_pc_sw.Lexer.TokenArray
use kiv_pc_sw.Lexer.SetToken.{set_next_token, set_longer_token, lexer_classify_word}
use kiv_pc_sw.Lexer.Line.{tokenize_line, tokenize_loop, skip_to_next_token, read_token, close}
use kiv_pc_sw.Parser.Grammar.{
  grammar_line_kma, grammar_line_code, grammar_line_data, grammar_line_label,
  grammar_line_identifier, grammar_line_instruction, grammar_line, parse_tokens,
  convert_parse_tokens,
}
use kiv_pc_sw.Parser.Identifier.{
  identifier_dup, grammar_identifier_dup, grammar_identifier_dec, grammar_identifier_dec2,
  grammar_identifier_def,
}
use kiv_pc_sw.Parser.Operands.{
  set_op_count, set_ops_none, set_op_label, set_op_register, set_op_number, set_op_offset,
  grammar_instruction_rhs_after, grammar_instruction_rhs,
}
use kiv_pc_sw.Parser.Segments.{
  segment_append, segments_finalize, total_size_of, segment_set_dd_total_size, segment_remove_last,
  segment_set_dup, segment_set_number, segment_set_uninit, segment_set_string,
}
use kiv_pc_sw.Parser.Statement.{p_stmt_create}
use kiv_pc_sw.Parser.TokenHelpers.{
  tokens_start_with, digits_value, scan_number, token_parse_int32, token_parse_size_t,
}
use kiv_pc_sw.Assembler.Passes.{passes_kma, passes_code_section, passes_data_section, passes_none}
use kiv_pc_sw.Assembler.Pass1.{
  pass1_decide, pass1_data_decl, pass1_instruction, pass1_label_def, define,
}
use kiv_pc_sw.Assembler.Pass2.{
  pass2_decide, pass2_data_decl, pass2_segments, pass2_segment, pass2_data_decl_value,
  pass2_instruction, pass2_instruction_ops_get, pass2_instruction_get_op,
  pass2_instruction_get_op_label, relocate, pass_2_instruction_ops_set, app_operands,
}
use kiv_pc_sw.Assembler.Types.{convert_uint32, convert_size_t, convert_err}
use kiv_pc_sw.Assembler.Run.{
  read_line, passes_lines, passes_line, decide, passes_any_pass, process_assembler, asp_create,
}
use kiv_pc_sw.FileUtil.{
  fu_is_file, fu_is_dir, fu_path_exists, fu_can_read, fu_can_write_dir, fu_can_write_file,
  before_slash, fu_can_write_parent_dir, fu_can_write, fu_open_read, fu_open_write, read_chars,
  fu_getline, read_lines, file_lines, c_string,
}
use kiv_pc_sw.Args.{
  args_parse, args_find_src, args_find_tgt, find_path, args_is_v, args_is_i, has_arg,
  args_change_extension, args_path_check_syntax, args_path_check_semantic, args_config_init,
  check_paths, parse_source,
}
use kiv_pc_sw.Output.{
  output_binary, write_segments, fu_write_bytes, write_in_little_endian, last_byte,
}
use kiv_pc_sw.Main.{Platform, Reading, source_lines, run, main}
use kiv_pc_sw.Main.Free.{main_count}
use kiv_pc_sw.Main.Balance.{Left, main-Left}
use kiv_pc_sw.Main.Correct.{Translated, main-Translated}
use kiv_pc_sw.Samples.{generous, always, files}

abbrev reading : Reading
reading = record { heap = always; buffer = generous; files = files }

abbrev platform : Platform
platform = record {
  heap = always;
  files = files;
  parts = always;
  first = reading;
  second = reading;
  target_heap = generous;
  target_files = files;
  closed = λ bytes. bytes;
  accepts = λ file bs. true;
  short = λ file bs. file;
  stray = 0;
}

abbrev argv : List Text
argv = codes "kmas" ∷ codes "d/a.kas" ∷ []

status : main platform argv ≡ 0
unfolding read_line tokenize_line tokenize_loop skip_to_next_token read_token close set_next_token
    set_longer_token lexer_classify_word jalloc jealloc TokenArray.init TokenArray.ensure_capacity
    TokenArray.grow_capacity Instruction.is_mnemonic Instruction.is_mnemonic_in
    Instruction.instruction_table Instruction.find Instruction.find_in str_eq grammar_line_kma
    grammar_line_code grammar_line_data grammar_line_label grammar_line_identifier
    grammar_line_instruction grammar_line parse_tokens convert_parse_tokens identifier_dup
    grammar_identifier_dup grammar_identifier_dec grammar_identifier_dec2 grammar_identifier_def
    set_op_count set_ops_none set_op_label set_op_register set_op_number set_op_offset
    grammar_instruction_rhs_after grammar_instruction_rhs segment_append segments_finalize
    total_size_of segment_set_dd_total_size segment_remove_last segment_set_dup segment_set_number
    segment_set_uninit segment_set_string p_stmt_create tokens_start_with digits_value scan_number
    token_parse_int32 token_parse_size_t passes_lines passes_line decide pass1_decide pass2_decide
    passes_kma passes_code_section passes_data_section passes_none pass1_data_decl pass1_instruction
    pass1_label_def define Segment.advance Symbol.find Symbol.find_in Symbol.add
    Symbol.ensure_capacity Instruction.get_encoded_size pass2_data_decl pass2_segments pass2_segment
    pass2_data_decl_value Dataseg.app_dw pass2_instruction pass2_instruction_ops_get
    pass2_instruction_get_op pass2_instruction_get_op_label convert_uint32 convert_size_t relocate
    Instruction.is_relative_jump Segment.get_size pass_2_instruction_ops_set app_operands
    Segment.app_op Segment.app_b Segment.app_imm Segment.app_bs Segment.ensure_capacity
    Segment.next_capacity Segment.grow_capacity fu_is_file fu_is_dir fu_path_exists fu_can_read
    fu_can_write_dir fu_can_write_file before_slash fu_can_write_parent_dir fu_can_write
    fu_open_read fu_open_write read_chars fu_getline read_lines file_lines c_string args_parse
    args_find_src args_find_tgt find_path args_is_v args_is_i has_arg args_change_extension
    args_path_check_syntax args_path_check_semantic args_config_init check_paths parse_source
    exit_code convert_err Segment.create Segment.begin Symbol.create Symbol.init asp_create
    passes_any_pass process_assembler source_lines run main fu_write_bytes write_in_little_endian
    last_byte write_segments output_binary
status = refl

main_example : Translated platform argv (run platform argv).1
main_example = main-Translated platform argv refl (λ bytes. refl) status

-- KMX, no data, NOP and the closing zero byte.
file : (run platform argv).1 ≡ some (75 ∷ 77 ∷ 88 ∷ 0 ∷ 0 ∷ 0 ∷ 0 ∷ 0x90 ∷ 0 ∷ [])
unfolding read_line tokenize_line tokenize_loop skip_to_next_token read_token close set_next_token
    set_longer_token lexer_classify_word jalloc jealloc TokenArray.init TokenArray.ensure_capacity
    TokenArray.grow_capacity Instruction.is_mnemonic Instruction.is_mnemonic_in
    Instruction.instruction_table Instruction.find Instruction.find_in str_eq grammar_line_kma
    grammar_line_code grammar_line_data grammar_line_label grammar_line_identifier
    grammar_line_instruction grammar_line parse_tokens convert_parse_tokens identifier_dup
    grammar_identifier_dup grammar_identifier_dec grammar_identifier_dec2 grammar_identifier_def
    set_op_count set_ops_none set_op_label set_op_register set_op_number set_op_offset
    grammar_instruction_rhs_after grammar_instruction_rhs segment_append segments_finalize
    total_size_of segment_set_dd_total_size segment_remove_last segment_set_dup segment_set_number
    segment_set_uninit segment_set_string p_stmt_create tokens_start_with digits_value scan_number
    token_parse_int32 token_parse_size_t passes_lines passes_line decide pass1_decide pass2_decide
    passes_kma passes_code_section passes_data_section passes_none pass1_data_decl pass1_instruction
    pass1_label_def define Segment.advance Symbol.find Symbol.find_in Symbol.add
    Symbol.ensure_capacity Instruction.get_encoded_size pass2_data_decl pass2_segments pass2_segment
    pass2_data_decl_value Dataseg.app_dw pass2_instruction pass2_instruction_ops_get
    pass2_instruction_get_op pass2_instruction_get_op_label convert_uint32 convert_size_t relocate
    Instruction.is_relative_jump Segment.get_size pass_2_instruction_ops_set app_operands
    Segment.app_op Segment.app_b Segment.app_imm Segment.app_bs Segment.ensure_capacity
    Segment.next_capacity Segment.grow_capacity fu_is_file fu_is_dir fu_path_exists fu_can_read
    fu_can_write_dir fu_can_write_file before_slash fu_can_write_parent_dir fu_can_write
    fu_open_read fu_open_write read_chars fu_getline read_lines file_lines c_string args_parse
    args_find_src args_find_tgt find_path args_is_v args_is_i has_arg args_change_extension
    args_path_check_syntax args_path_check_semantic args_config_init check_paths parse_source
    convert_err Segment.create Segment.begin Symbol.create Symbol.init asp_create passes_any_pass
    process_assembler source_lines run fu_write_bytes write_in_little_endian last_byte
    write_segments output_binary
file = refl

Left_example : Left platform (main_count platform argv)
Left_example = main-Left platform argv
