-- ===== src/Assembler/FileTests.antt =====
-- A small file run through both passes.
use kiv_pc_sw.Memory.{live}
use kiv_pc_sw.Prelude.{◌≡◌, refl, true, false, [], ◌∷◌, ◌++◌, List, some}
use kiv_pc_sw.Prelude.Text.{Text, codes, str_eq}
use kiv_pc_sw.Common.{jalloc, jealloc}
use kiv_pc_sw.Segment
use kiv_pc_sw.Dataseg
use kiv_pc_sw.Symbol
use kiv_pc_sw.Symbol.Lookup.{entry}
use kiv_pc_sw.Instruction
use kiv_pc_sw.Instruction.{Descriptor, row, op_none, op_imm32}
use kiv_pc_sw.Lexer.TokenArray
use kiv_pc_sw.Lexer.SetToken.{set_next_token, set_longer_token, lexer_classify_word}
use kiv_pc_sw.Lexer.Line.{tokenize_line, tokenize_loop, skip_to_next_token, read_token, close}
use kiv_pc_sw.Parser.Grammar.{
  grammar_line_kma, grammar_line_code, grammar_line_data, grammar_line_label,
  grammar_line_identifier, grammar_line_instruction, grammar_line, parse_tokens,
  convert_parse_tokens,
}
use kiv_pc_sw.Parser.Identifier.{
  identifier_dup, grammar_identifier_dup, grammar_identifier_dec, grammar_identifier_dec2,
  grammar_identifier_def,
}
use kiv_pc_sw.Parser.Operands.{
  set_op_count, set_ops_none, set_op_label, set_op_register, set_op_number, set_op_offset,
  grammar_instruction_rhs_after, grammar_instruction_rhs,
}
use kiv_pc_sw.Parser.Segments.{
  segment_append, segments_finalize, total_size_of, segment_set_dd_total_size, segment_remove_last,
  segment_set_dup, segment_set_number, segment_set_uninit, segment_set_string,
}
use kiv_pc_sw.Parser.Statement.{p_stmt_create}
use kiv_pc_sw.Parser.TokenHelpers.{
  tokens_start_with, digits_value, scan_number, token_parse_int32, token_parse_size_t,
}
use kiv_pc_sw.Parser.Statement.{
  Statement, stmt_label_def, stmt_data_decl, no_instruction, no_data_decl, no_segment, data_byte,
  par_no_error,
}
use kiv_pc_sw.Assembler.Types.{State, asm_no_error, convert_uint32, convert_size_t}
use kiv_pc_sw.Assembler.Passes.{passes_kma, passes_code_section, passes_data_section, passes_none}
use kiv_pc_sw.Assembler.Pass1.{
  pass1_decide, pass1_data_decl, pass1_instruction, pass1_label_def, define,
}
use kiv_pc_sw.Assembler.Pass2.{
  pass2_decide, pass2_data_decl, pass2_segments, pass2_segment, pass2_data_decl_value,
  pass2_instruction, pass2_instruction_ops_get, pass2_instruction_get_op,
  pass2_instruction_get_op_label, relocate, pass_2_instruction_ops_set, app_operands,
}
use kiv_pc_sw.Assembler.Run.{statement, read_line, passes_lines, passes_line, decide}
use kiv_pc_sw.Assembler.Layout.{Agree}
use kiv_pc_sw.Assembler.Addresses.{passes_lines-Agree}
use kiv_pc_sw.Assembler.Targets.{label_address, data_address}
use kiv_pc_sw.Samples.{generous, always, start, empty_segment-IsBuffer}

abbrev before : List Text
before = codes ".KMA" ∷ codes ".CODE" ∷ codes "NOP" ∷ []

abbrev after : List Text
after = codes "JE @a" ∷ []

abbrev label_line : Text
label_line = codes "@a:"

abbrev data_before : List Text
data_before = codes ".KMA" ∷ codes ".DATA" ∷ codes "x DW 5" ∷ []

abbrev data_line : Text
data_line = codes "y DB 7"

abbrev whole : List Text
whole = before ++ (label_line ∷ after)

abbrev data_whole : List Text
data_whole = data_before ++ (data_line ∷ [])

abbrev je : Descriptor
je = row "JE" 0x72 op_imm32 op_none 1

abbrev nop : Descriptor
nop = row "NOP" 0x90 op_none op_none 0

abbrev label_read : Statement
label_read = record {
  type = stmt_label_def;
  err = par_no_error;
  line_number = 4;
  instruction = no_instruction;
  data_decl = no_data_decl;
  label_name = codes "@a";
  held = live 1;
}

label_is_read : read_line generous label_line 4 ≡ statement label_read
unfolding read_line tokenize_line tokenize_loop skip_to_next_token read_token close set_next_token
    set_longer_token lexer_classify_word jalloc jealloc TokenArray.init TokenArray.ensure_capacity
    TokenArray.grow_capacity Instruction.is_mnemonic Instruction.is_mnemonic_in
    Instruction.instruction_table Instruction.find Instruction.find_in str_eq grammar_line_kma
    grammar_line_code grammar_line_data grammar_line_label grammar_line_identifier
    grammar_line_instruction grammar_line parse_tokens convert_parse_tokens identifier_dup
    grammar_identifier_dup grammar_identifier_dec grammar_identifier_dec2 grammar_identifier_def
    set_op_count set_ops_none set_op_label set_op_register set_op_number set_op_offset
    grammar_instruction_rhs_after grammar_instruction_rhs segment_append segments_finalize
    total_size_of segment_set_dd_total_size segment_remove_last segment_set_dup segment_set_number
    segment_set_uninit segment_set_string p_stmt_create tokens_start_with digits_value scan_number
    token_parse_int32 token_parse_size_t
label_is_read = refl

start-Agree : Agree start start
start-Agree = record {
  code = refl;
  data_size = refl;
  ctx = refl;
  code_buffer = empty_segment-IsBuffer;
  data_buffer = empty_segment-IsBuffer;
}

first : State
first = (passes_lines false always start 1 whole).1

first_pass : passes_lines false always start 1 whole ≡ (asm_no_error, first)
unfolding first read_line tokenize_line tokenize_loop skip_to_next_token read_token close
    set_next_token set_longer_token lexer_classify_word jalloc jealloc TokenArray.init
    TokenArray.ensure_capacity TokenArray.grow_capacity Instruction.is_mnemonic
    Instruction.is_mnemonic_in Instruction.instruction_table Instruction.find Instruction.find_in
    str_eq grammar_line_kma grammar_line_code grammar_line_data grammar_line_label
    grammar_line_identifier grammar_line_instruction grammar_line parse_tokens convert_parse_tokens
    identifier_dup grammar_identifier_dup grammar_identifier_dec grammar_identifier_dec2
    grammar_identifier_def set_op_count set_ops_none set_op_label set_op_register set_op_number
    set_op_offset grammar_instruction_rhs_after grammar_instruction_rhs segment_append
    segments_finalize total_size_of segment_set_dd_total_size segment_remove_last segment_set_dup
    segment_set_number segment_set_uninit segment_set_string p_stmt_create tokens_start_with
    digits_value scan_number token_parse_int32 token_parse_size_t passes_lines passes_line decide
    pass1_decide pass2_decide passes_kma passes_code_section passes_data_section passes_none
    pass1_data_decl pass1_instruction pass1_label_def define Segment.advance Symbol.find
    Symbol.find_in Symbol.add Symbol.ensure_capacity Instruction.get_encoded_size
first_pass = refl

second_before : State
second_before = (passes_lines true always start 1 before).1

second_pass_before : passes_lines true always start 1 before ≡ (asm_no_error, second_before)
unfolding second_before read_line tokenize_line tokenize_loop skip_to_next_token read_token close
    set_next_token set_longer_token lexer_classify_word jalloc jealloc TokenArray.init
    TokenArray.ensure_capacity TokenArray.grow_capacity Instruction.is_mnemonic
    Instruction.is_mnemonic_in Instruction.instruction_table Instruction.find Instruction.find_in
    str_eq grammar_line_kma grammar_line_code grammar_line_data grammar_line_label
    grammar_line_identifier grammar_line_instruction grammar_line parse_tokens convert_parse_tokens
    identifier_dup grammar_identifier_dup grammar_identifier_dec grammar_identifier_dec2
    grammar_identifier_def set_op_count set_ops_none set_op_label set_op_register set_op_number
    set_op_offset grammar_instruction_rhs_after grammar_instruction_rhs segment_append
    segments_finalize total_size_of segment_set_dd_total_size segment_remove_last segment_set_dup
    segment_set_number segment_set_uninit segment_set_string p_stmt_create tokens_start_with
    digits_value scan_number token_parse_int32 token_parse_size_t passes_lines passes_line decide
    pass1_decide pass2_decide passes_kma passes_code_section passes_data_section passes_none
    pass1_data_decl pass1_instruction pass1_label_def define Segment.advance Symbol.find
    Symbol.find_in Symbol.add Symbol.ensure_capacity Instruction.get_encoded_size pass2_data_decl
    pass2_segments pass2_segment pass2_data_decl_value Dataseg.app_dw pass2_instruction
    pass2_instruction_ops_get pass2_instruction_get_op pass2_instruction_get_op_label convert_uint32
    convert_size_t relocate Instruction.is_relative_jump Segment.get_size pass_2_instruction_ops_set
    app_operands Segment.app_op Segment.app_b Segment.app_imm Segment.app_bs Segment.ensure_capacity
    Segment.next_capacity Segment.grow_capacity
second_pass_before = refl

label_address_example :
    Symbol.find first.symtab (codes "@a") ≡ some (entry (codes "@a") second_before.cdsg.size)
label_address_example =
    label_address always 1 4 before label_line after label_read refl label_is_read refl start-Agree
      first_pass second_pass_before

-- The second pass over the same lines, with the table of the first.
again : State
again = record start { symtab = first.symtab }

again-Agree : Agree start again
unfolding again
again-Agree = record {
  code = refl;
  data_size = refl;
  ctx = refl;
  code_buffer = empty_segment-IsBuffer;
  data_buffer = empty_segment-IsBuffer;
}

second : State
second = (passes_lines true always again 1 whole).1

second_pass : passes_lines true always again 1 whole ≡ (asm_no_error, second)
unfolding second again first read_line tokenize_line tokenize_loop skip_to_next_token read_token
    close set_next_token set_longer_token lexer_classify_word jalloc jealloc TokenArray.init
    TokenArray.ensure_capacity TokenArray.grow_capacity Instruction.is_mnemonic
    Instruction.is_mnemonic_in Instruction.instruction_table Instruction.find Instruction.find_in
    str_eq grammar_line_kma grammar_line_code grammar_line_data grammar_line_label
    grammar_line_identifier grammar_line_instruction grammar_line parse_tokens convert_parse_tokens
    identifier_dup grammar_identifier_dup grammar_identifier_dec grammar_identifier_dec2
    grammar_identifier_def set_op_count set_ops_none set_op_label set_op_register set_op_number
    set_op_offset grammar_instruction_rhs_after grammar_instruction_rhs segment_append
    segments_finalize total_size_of segment_set_dd_total_size segment_remove_last segment_set_dup
    segment_set_number segment_set_uninit segment_set_string p_stmt_create tokens_start_with
    digits_value scan_number token_parse_int32 token_parse_size_t passes_lines passes_line decide
    pass1_decide pass2_decide passes_kma passes_code_section passes_data_section passes_none
    pass1_data_decl pass1_instruction pass1_label_def define Segment.advance Symbol.find
    Symbol.find_in Symbol.add Symbol.ensure_capacity Instruction.get_encoded_size pass2_data_decl
    pass2_segments pass2_segment pass2_data_decl_value Dataseg.app_dw pass2_instruction
    pass2_instruction_ops_get pass2_instruction_get_op pass2_instruction_get_op_label convert_uint32
    convert_size_t relocate Instruction.is_relative_jump Segment.get_size pass_2_instruction_ops_set
    app_operands Segment.app_op Segment.app_b Segment.app_imm Segment.app_bs Segment.ensure_capacity
    Segment.next_capacity Segment.grow_capacity
second_pass = refl

passes-Agree_example : Agree first second
passes-Agree_example = passes_lines-Agree always 1 whole again-Agree first_pass second_pass

data_read : Statement
data_read = record {
  type = stmt_data_decl;
  err = par_no_error;
  line_number = 4;
  instruction = no_instruction;
  data_decl = record {
    identifier = codes "y";
    type = data_byte;
    segments = record no_segment { value = 7; element_count = 1 } ∷ [];
    segment_count = 1;
    total_size = 1;
    is_fully_uninit = false;
  };
  label_name = [];
  held = live 2;
}

data_is_read : read_line generous data_line 4 ≡ statement data_read
unfolding data_read read_line tokenize_line tokenize_loop skip_to_next_token read_token close
    set_next_token set_longer_token lexer_classify_word jalloc jealloc TokenArray.init
    TokenArray.ensure_capacity TokenArray.grow_capacity Instruction.is_mnemonic
    Instruction.is_mnemonic_in Instruction.instruction_table Instruction.find Instruction.find_in
    str_eq grammar_line_kma grammar_line_code grammar_line_data grammar_line_label
    grammar_line_identifier grammar_line_instruction grammar_line parse_tokens convert_parse_tokens
    identifier_dup grammar_identifier_dup grammar_identifier_dec grammar_identifier_dec2
    grammar_identifier_def set_op_count set_ops_none set_op_label set_op_register set_op_number
    set_op_offset grammar_instruction_rhs_after grammar_instruction_rhs segment_append
    segments_finalize total_size_of segment_set_dd_total_size segment_remove_last segment_set_dup
    segment_set_number segment_set_uninit segment_set_string p_stmt_create tokens_start_with
    digits_value scan_number token_parse_int32 token_parse_size_t
data_is_read = refl

data_first : State
data_first = (passes_lines false always start 1 data_whole).1

data_first_pass : passes_lines false always start 1 data_whole ≡ (asm_no_error, data_first)
unfolding data_first read_line tokenize_line tokenize_loop skip_to_next_token read_token close
    set_next_token set_longer_token lexer_classify_word jalloc jealloc TokenArray.init
    TokenArray.ensure_capacity TokenArray.grow_capacity Instruction.is_mnemonic
    Instruction.is_mnemonic_in Instruction.instruction_table Instruction.find Instruction.find_in
    str_eq grammar_line_kma grammar_line_code grammar_line_data grammar_line_label
    grammar_line_identifier grammar_line_instruction grammar_line parse_tokens convert_parse_tokens
    identifier_dup grammar_identifier_dup grammar_identifier_dec grammar_identifier_dec2
    grammar_identifier_def set_op_count set_ops_none set_op_label set_op_register set_op_number
    set_op_offset grammar_instruction_rhs_after grammar_instruction_rhs segment_append
    segments_finalize total_size_of segment_set_dd_total_size segment_remove_last segment_set_dup
    segment_set_number segment_set_uninit segment_set_string p_stmt_create tokens_start_with
    digits_value scan_number token_parse_int32 token_parse_size_t passes_lines passes_line decide
    pass1_decide pass2_decide passes_kma passes_code_section passes_data_section passes_none
    pass1_data_decl pass1_instruction pass1_label_def define Segment.advance Symbol.find
    Symbol.find_in Symbol.add Symbol.ensure_capacity Instruction.get_encoded_size
data_first_pass = refl

data_second : State
data_second = (passes_lines true always start 1 data_before).1

data_second_pass : passes_lines true always start 1 data_before ≡ (asm_no_error, data_second)
unfolding data_second read_line tokenize_line tokenize_loop skip_to_next_token read_token close
    set_next_token set_longer_token lexer_classify_word jalloc jealloc TokenArray.init
    TokenArray.ensure_capacity TokenArray.grow_capacity Instruction.is_mnemonic
    Instruction.is_mnemonic_in Instruction.instruction_table Instruction.find Instruction.find_in
    str_eq grammar_line_kma grammar_line_code grammar_line_data grammar_line_label
    grammar_line_identifier grammar_line_instruction grammar_line parse_tokens convert_parse_tokens
    identifier_dup grammar_identifier_dup grammar_identifier_dec grammar_identifier_dec2
    grammar_identifier_def set_op_count set_ops_none set_op_label set_op_register set_op_number
    set_op_offset grammar_instruction_rhs_after grammar_instruction_rhs segment_append
    segments_finalize total_size_of segment_set_dd_total_size segment_remove_last segment_set_dup
    segment_set_number segment_set_uninit segment_set_string p_stmt_create tokens_start_with
    digits_value scan_number token_parse_int32 token_parse_size_t passes_lines passes_line decide
    pass1_decide pass2_decide passes_kma passes_code_section passes_data_section passes_none
    pass1_data_decl pass1_instruction pass1_label_def define Segment.advance Symbol.find
    Symbol.find_in Symbol.add Symbol.ensure_capacity Instruction.get_encoded_size pass2_data_decl
    pass2_segments pass2_segment pass2_data_decl_value Dataseg.app_dw pass2_instruction
    pass2_instruction_ops_get pass2_instruction_get_op pass2_instruction_get_op_label convert_uint32
    convert_size_t relocate Instruction.is_relative_jump Segment.get_size pass_2_instruction_ops_set
    app_operands Segment.app_op Segment.app_b Segment.app_imm Segment.app_bs Segment.ensure_capacity
    Segment.next_capacity Segment.grow_capacity
data_second_pass = refl

data_address_example :
    Symbol.find data_first.symtab (codes "y") ≡ some (entry (codes "y") data_second.dtsg.size)
unfolding data_read
data_address_example =
    data_address always 1 4 data_before data_line [] data_read refl data_is_read refl start-Agree
      data_first_pass data_second_pass
