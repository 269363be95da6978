-- ===== src/Assembler/Tests.antt =====
-- Single statements run through both passes.
use kiv_pc_sw.Memory.{live}
use kiv_pc_sw.Prelude.{◌%◌, ◌^◌, ◌≡◌, refl, [], ◌∷◌, some, length, arith}
use kiv_pc_sw.Prelude.Text.{codes, str_eq}
use kiv_pc_sw.Common.{jealloc}
use kiv_pc_sw.Segment
use kiv_pc_sw.Segment.{get_size, begin, advance}
use kiv_pc_sw.Dataseg.{app_dw, app_dw_loop, app_dw_n}
use kiv_pc_sw.Symbol
use kiv_pc_sw.Symbol.Lookup.{entry}
use kiv_pc_sw.Instruction.{op_imm32, get_encoded_size, is_relative_jump}
use kiv_pc_sw.Instruction.Tests.{je, je-IsRow}
use kiv_pc_sw.Parser.Statement.{
  Statement, p_stmt_create, stmt_label_def, stmt_data_decl, stmt_instruction, init_seg_dup,
  data_dword, no_segment, no_operand, no_instruction, no_data_decl, ops_label, DataDeclaration,
  InstructionStatement,
}
use kiv_pc_sw.Parser.Shape.{InstructionShape, SegmentsShape, exact_size}
use kiv_pc_sw.Parser.Segments.{segment_set_dd_total_size}
use kiv_pc_sw.Assembler.Types.{State, asc_data, asc_code, convert_uint32, convert_size_t}
use kiv_pc_sw.Assembler.Pass1.{
  pass1_decide, pass1_data_decl, pass1_instruction, pass1_label_def, define,
}
use kiv_pc_sw.Assembler.Pass2.{
  pass2_decide, pass2_segments, pass2_segment, pass2_data_decl_dup, pass2_instruction,
  pass2_instruction_ops_get, pass2_instruction_get_op, pass2_instruction_get_op_label,
  pass_2_instruction_ops_set, app_operands, relocate, operands_of,
}
use kiv_pc_sw.Assembler.Reserve.{
  ReservesData, pass1_data_decl-ReservesData, ReservesCode, pass1_instruction-ReservesCode,
  DefinesLabel, pass1_label_def-DefinesLabel,
}
use kiv_pc_sw.Assembler.Emit.{
  EmitsData, EmitsCode, data_bytes, operands_bytes, pass2_segments-EmitsData,
  pass_2_instruction_ops_set-EmitsCode,
}
use kiv_pc_sw.Assembler.Sizes.{total_size_lem, length-encoding}
use kiv_pc_sw.Assembler.Operands.{Described, ops_get-Described}
use kiv_pc_sw.Assembler.Layout.{Agree, pass_decide-Agree}
use kiv_pc_sw.Assembler.Encoded.{Written, pass2_instruction-Written}
use kiv_pc_sw.Assembler.Jumps.{JumpsTo, jump_lands}
use kiv_pc_sw.Samples.{generous, empty_segment, empty_segment-IsBuffer, no_symbols, in_context}

-- The declaration x DW 2 DUP(7).
abbrev words_decl : DataDeclaration
words_decl = record no_data_decl {
  identifier = codes "x";
  type = data_dword;
  segments =
      record no_segment { type = init_seg_dup; dup_count = 2; dup_value = 7; element_count = 2 }
      ∷ [];
  segment_count = 1;
  total_size = 8;
}

abbrev declaration : Statement
declaration = record {
  type = stmt_data_decl;
  err = (p_stmt_create 1).err;
  line_number = 1;
  instruction = no_instruction;
  data_decl = words_decl;
  label_name = [];
  held = live 1;
}

words_shape : SegmentsShape words_decl.type words_decl.segments
words_shape = ((refl, omega arith), tt)

-- JE loop
abbrev jump_words : InstructionStatement
jump_words = record {
  operand_count = 1;
  operand0 = record no_operand { type = op_imm32; specifier = ops_label; label = codes "loop" };
  operand1 = no_operand;
  descriptor = some je;
}

abbrev jump : Statement
jump = record {
  type = stmt_instruction;
  err = (p_stmt_create 1).err;
  line_number = 1;
  instruction = jump_words;
  data_decl = no_data_decl;
  label_name = [];
  held = live 1;
}

jump_shape : InstructionShape jump_words je
jump_shape = record {
  descriptor = refl;
  row = je-IsRow;
  type0 = refl;
  type1 = refl;
  count = refl;
  ordered = tt;
}

-- @loop
abbrev label_stmt : Statement
label_stmt = record {
  type = stmt_label_def;
  err = (p_stmt_create 1).err;
  line_number = 1;
  instruction = no_instruction;
  data_decl = no_data_decl;
  label_name = codes "loop";
  held = live 1;
}

-- A code section of three bytes, with the label `loop` at its beginning.
abbrev with_loop : State
with_loop = record (in_context asc_code) {
  symtab = record no_symbols { symbols = entry (codes "loop") 0 ∷ []; count = 1 };
  cdsg = record empty_segment { size = 3 };
}

data_example :
    ReservesData generous declaration
      (in_context asc_data)
      (pass1_data_decl generous declaration (in_context asc_data)).1
unfolding pass1_data_decl advance define Symbol.find Symbol.find_in Symbol.add
    Symbol.ensure_capacity
data_example = pass1_data_decl-ReservesData generous declaration (in_context asc_data) refl

code_example : ReservesCode jump with_loop (pass1_instruction jump with_loop).1
unfolding pass1_instruction advance get_encoded_size
code_example = pass1_instruction-ReservesCode jump with_loop refl (omega arith)

label_example :
    DefinesLabel generous label_stmt
      (in_context asc_code)
      (pass1_label_def generous label_stmt (in_context asc_code)).1
unfolding pass1_label_def advance define Symbol.find Symbol.find_in Symbol.add
    Symbol.ensure_capacity
label_example = pass1_label_def-DefinesLabel generous label_stmt (in_context asc_code) refl

segments-EmitsData_example :
    EmitsData
      (in_context asc_data)
      (data_bytes words_decl.type words_decl.segments)
      (pass2_segments generous (in_context asc_data) words_decl.segments words_decl.type).1
unfolding pass2_segments pass2_segment pass2_data_decl_dup app_dw_n app_dw_loop app_dw
    Segment.app_bs Segment.ensure_capacity Segment.next_capacity Segment.grow_capacity jealloc
segments-EmitsData_example =
    pass2_segments-EmitsData generous (in_context asc_data) words_decl.segments words_decl.type
      words_shape empty_segment-IsBuffer refl

with_loop-IsBuffer : Segment.IsBuffer with_loop.cdsg
with_loop-IsBuffer = record { allocated = refl; within = omega arith; bounded = omega arith }

ops_set-EmitsCode_example :
    EmitsCode with_loop
      (je.opcode ∷ operands_bytes (operands_of jump_words) (9 ∷ []))
      (pass_2_instruction_ops_set generous with_loop je (operands_of jump_words) (9 ∷ [])).1
unfolding pass_2_instruction_ops_set app_operands Segment.app_op Segment.app_b Segment.app_imm
    Segment.app_bs Segment.ensure_capacity Segment.next_capacity Segment.grow_capacity jealloc
ops_set-EmitsCode_example =
    pass_2_instruction_ops_set-EmitsCode generous with_loop je (operands_of jump_words) (9 ∷ [])
      with_loop-IsBuffer refl

instruction-Written_example :
    Written jump je with_loop (pass2_instruction generous jump with_loop).1
unfolding pass2_instruction pass2_instruction_ops_get pass2_instruction_get_op
    pass2_instruction_get_op_label Symbol.find Symbol.find_in str_eq convert_uint32 convert_size_t
    relocate is_relative_jump get_encoded_size get_size pass_2_instruction_ops_set app_operands
    Segment.app_op Segment.app_b Segment.app_imm Segment.app_bs Segment.ensure_capacity
    Segment.next_capacity Segment.grow_capacity jealloc
instruction-Written_example =
    pass2_instruction-Written generous jump je with_loop refl with_loop-IsBuffer (omega arith) refl

with_loop-Agree : Agree with_loop with_loop
with_loop-Agree = record {
  code = refl;
  data_size = refl;
  ctx = refl;
  code_buffer = with_loop-IsBuffer;
  data_buffer = empty_segment-IsBuffer;
}

decide-Agree_example :
    Agree (pass1_decide generous jump with_loop).1 (pass2_decide generous jump with_loop).1
unfolding pass1_decide pass1_instruction advance pass2_decide pass2_instruction
    pass2_instruction_ops_get pass2_instruction_get_op pass2_instruction_get_op_label Symbol.find
    Symbol.find_in str_eq convert_uint32 convert_size_t relocate is_relative_jump get_encoded_size
    get_size pass_2_instruction_ops_set app_operands Segment.app_op Segment.app_b Segment.app_imm
    Segment.app_bs Segment.ensure_capacity Segment.next_capacity Segment.grow_capacity jealloc
decide-Agree_example = pass_decide-Agree generous jump (je, jump_shape) with_loop-Agree refl refl

total_size_example :
    (segment_set_dd_total_size words_decl).total_size
    ≡ exact_size words_decl.type words_decl.segments % 2 ^ 64
total_size_example = total_size_lem words_decl

encoding_example :
    length (je.opcode ∷ operands_bytes (operands_of jump_words) (9 ∷ [])) ≡ get_encoded_size je
encoding_example = length-encoding jump_words je (9 ∷ []) jump_shape refl

-- The label is not in the table.
ops_get-Described_example :
    Described no_symbols
      (operands_of jump_words)
      (pass2_instruction_ops_get no_symbols (operands_of jump_words))
ops_get-Described_example = ops_get-Described no_symbols (operands_of jump_words)

-- A jump from address 3 back to the label at 0.
lands_example : JumpsTo with_loop.symtab (codes "loop") je 3 0
unfolding Symbol.find Symbol.find_in str_eq is_relative_jump get_encoded_size
lands_example =
    jump_lands with_loop.symtab (codes "loop") je 3 {s = entry (codes "loop") 0} refl refl
      (omega arith) (omega arith)
