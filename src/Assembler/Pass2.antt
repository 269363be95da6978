-- ===== src/Assembler/Pass2.antt =====
-- assembler/pass_2.c: the second pass writes the bytes of both segments.
use kiv_pc_sw.Prelude.{
  ℕ, ◌+◌, ◌-◌, ◌*◌, ◌%◌, ◌^◌, Bool, true, false, List, [], ◌∷◌, Option, none, some, if◌then◌else◌,
  take,
}
use kiv_pc_sw.Prelude.Text.{Text, codes, str_eq}
use kiv_pc_sw.Common.{Allocator}
use kiv_pc_sw.Dataseg
use kiv_pc_sw.Segment
use kiv_pc_sw.Symbol
use kiv_pc_sw.Symbol.{SymbolTable}
use kiv_pc_sw.Instruction.{
  OperandType, op_none, op_reg, op_imm32, Descriptor, get_encoded_size, is_relative_jump,
}
use kiv_pc_sw.Parser.Statement.{
  Statement, StatementType, stmt_none, stmt_kma, stmt_section_data, stmt_section_code,
  stmt_label_def, stmt_data_decl, stmt_instruction, stmt_error, InitSegment, InitSegmentType,
  init_seg_value, init_seg_dup, init_seg_string, init_seg_uninit, DataType, data_dword, data_byte,
  Operand, OperandSpecifier, ops_none, ops_offset, ops_label, InstructionStatement,
}
use kiv_pc_sw.Parser.Segments.{element_size}
use kiv_pc_sw.Assembler.Types.{
  ErrAsm, asm_no_error, asm_dtsg_cannot_append, asm_cdsg_cannot_append,
  asm_invalid_operand_register, asm_invalid_operand_label, asm_invalid_args, State, Outcome,
  convert_uint32, convert_size_t,
}
use kiv_pc_sw.Assembler.Passes.{
  passes_kma, passes_code_section, passes_data_section, passes_none, passes_error,
}

-- An append's result as an error code.
abbrev pub dtsg_outcome : State → Bool × Segment.Segment → Outcome
dtsg_outcome st (true, dtsg) = (asm_no_error, record st { dtsg = dtsg })
dtsg_outcome st (false, dtsg) = (asm_dtsg_cannot_append, record st { dtsg = dtsg })

unfoldable pub pass2_data_decl_uninit : Allocator → State → InitSegment → DataType → Outcome
pass2_data_decl_uninit m st seg dt =
    dtsg_outcome st (Dataseg.app_zs m st.dtsg (seg.element_count * element_size dt % 2 ^ 64))

unfoldable pub pass2_data_decl_value : Allocator → State → InitSegment → DataType → Outcome
pass2_data_decl_value m st seg data_byte =
    dtsg_outcome st (Dataseg.app_b m st.dtsg (seg.value % 256))
pass2_data_decl_value m st seg data_dword = dtsg_outcome st (Dataseg.app_dw m st.dtsg seg.value)

unfoldable pub pass2_data_decl_string : Allocator → State → InitSegment → Outcome
pass2_data_decl_string m st seg = dtsg_outcome st (Dataseg.app_str m st.dtsg seg.string)

unfoldable pub pass2_data_decl_dup : Allocator → State → InitSegment → DataType → Outcome
pass2_data_decl_dup m st seg data_byte =
    dtsg_outcome st (Dataseg.app_b_n m st.dtsg (seg.dup_value % 256) seg.dup_count)
pass2_data_decl_dup m st seg data_dword =
    dtsg_outcome st (Dataseg.app_dw_n m st.dtsg seg.dup_value seg.dup_count)

abbrev pub pass2_segment_of : InitSegmentType → Allocator → State → InitSegment → DataType → Outcome
pass2_segment_of init_seg_uninit m st seg dt = pass2_data_decl_uninit m st seg dt
pass2_segment_of init_seg_value m st seg dt = pass2_data_decl_value m st seg dt
pass2_segment_of init_seg_string m st seg dt = pass2_data_decl_string m st seg
pass2_segment_of init_seg_dup m st seg dt = pass2_data_decl_dup m st seg dt

-- The body of the loop over the segments.
unfoldable pub pass2_segment : Allocator → State → InitSegment → DataType → Outcome
pass2_segment m st seg dt = pass2_segment_of seg.type m st seg dt

-- REUSE_ERR_IF_FAIL: go on only after ASM_NO_ERROR.
abbrev pub and_then : Outcome → (State → Outcome) → Outcome
and_then (asm_no_error, st) next = next st
and_then (err, st) next = (err, st)

unfoldable pub pass2_segments : Allocator → State → List InitSegment → DataType → Outcome
pass2_segments m st [] dt = (asm_no_error, st)
pass2_segments m st (seg ∷ segs) dt =
    and_then (pass2_segment m st seg dt) (λ st'. pass2_segments m st' segs dt)

-- The array has `segment_count` segments.
unfoldable pub pass2_data_decl : Allocator → Statement → State → Outcome
pass2_data_decl m pstmt st = pass2_segments m st pstmt.data_decl.segments pstmt.data_decl.type

unfoldable pub pass2_register_name_to_value : Text → Option ℕ
pass2_register_name_to_value name =
    if str_eq name (codes "A")
    then some 0x01
    else if str_eq name (codes "B")
    then some 0x02
    else if str_eq name (codes "C")
    then some 0x03
    else if str_eq name (codes "D")
    then some 0x04
    else if str_eq name (codes "S")
    then some 0x05
    else if str_eq name (codes "SP")
    then some 0x06
    else none

-- The value of an operand, or the error code.
pub data Got : Type 0 where
  got : ℕ → Got
  got_err : ErrAsm → Got

abbrev pub got_or : Option ℕ → ErrAsm → Got
got_or none e = got_err e
got_or (some v) e = got v

unfoldable pub pass2_instruction_get_op_reg : Text → Got
pass2_instruction_get_op_reg reg_name =
    got_or (pass2_register_name_to_value reg_name) asm_invalid_operand_register

abbrev pub address_of : Option Symbol.Symbol → Option ℕ
address_of none = none
address_of (some s) = some (convert_uint32 s.address)

unfoldable pub pass2_instruction_get_op_label : SymbolTable → Text → Got
pass2_instruction_get_op_label symtab lab_name =
    got_or (address_of (Symbol.find symtab lab_name)) asm_invalid_operand_label

abbrev pub imm32_value : OperandSpecifier → SymbolTable → Operand → Got
imm32_value ops_label symtab op = pass2_instruction_get_op_label symtab op.label
imm32_value ops_offset symtab op = pass2_instruction_get_op_label symtab op.label
imm32_value ops_none symtab op = got op.immediate_value

abbrev pub operand_value : OperandType → SymbolTable → Operand → Got
operand_value op_reg symtab op = pass2_instruction_get_op_reg op.register_name
operand_value op_imm32 symtab op = imm32_value op.specifier symtab op
operand_value op_none symtab op = got 0

-- pass2_intstruction_get_op. An operand of type OP_NONE keeps the zero it was initialised with.
unfoldable pub pass2_instruction_get_op : SymbolTable → Operand → Got
pass2_instruction_get_op symtab op = operand_value op.type symtab op

-- The operands that the loops look at.
abbrev pub operands_of : InstructionStatement → List Operand
operands_of is = take is.operand_count (is.operand0 ∷ is.operand1 ∷ [])

-- The values of the operands in order, or the first error.
pub data GotAll : Type 0 where
  values : List ℕ → GotAll
  values_err : ErrAsm → GotAll

abbrev pub got_next : Got → GotAll → GotAll
got_next (got v) (values vs) = values (v ∷ vs)
got_next (got v) (values_err e) = values_err e
got_next (got_err e) rest = values_err e

unfoldable pub pass2_instruction_ops_get : SymbolTable → List Operand → GotAll
pass2_instruction_ops_get symtab [] = values []
pass2_instruction_ops_get symtab (op ∷ ops) =
    got_next (pass2_instruction_get_op symtab op) (pass2_instruction_ops_get symtab ops)

-- op_values[0].i32 - (addr + size) on 32-bit patterns. The source subtracts int32_t values.
abbrev pub relative_to : ℕ → ℕ → ℕ → ℕ
relative_to v addr size =
    (v + 2 ^ 32 - (convert_size_t addr + convert_size_t size) % 2 ^ 32) % 2 ^ 32

abbrev pub relocate_first : List ℕ → ℕ → ℕ → List ℕ
relocate_first [] addr size = []
relocate_first (v ∷ vs) addr size = relative_to v addr size ∷ vs

unfoldable pub relocate : Descriptor → List ℕ → ℕ → List ℕ
relocate d vs addr = if is_relative_jump d then relocate_first vs addr (get_encoded_size d) else vs

abbrev pub cdsg_outcome : State → Bool × Segment.Segment → Outcome
cdsg_outcome st (true, cdsg) = (asm_no_error, record st { cdsg = cdsg })
cdsg_outcome st (false, cdsg) = (asm_cdsg_cannot_append, record st { cdsg = cdsg })

-- A register is one byte, the low one of the union; any other operand is a 32-bit word.
abbrev pub app_operand : OperandType → Allocator → State → ℕ → Outcome
app_operand op_reg m st v = cdsg_outcome st (Segment.app_reg m st.cdsg (v % 256))
app_operand _ m st v = cdsg_outcome st (Segment.app_imm m st.cdsg v)

-- The loop of pass_2_instruction_ops_set.
unfoldable pub app_operands : Allocator → State → List Operand → List ℕ → Outcome
app_operands m st [] vs = (asm_no_error, st)
app_operands m st (op ∷ ops) [] = (asm_no_error, st)
app_operands m st (op ∷ ops) (v ∷ vs) =
    and_then (app_operand op.type m st v) (λ st'. app_operands m st' ops vs)

unfoldable pub pass_2_instruction_ops_set :
    Allocator → State → Descriptor → List Operand → List ℕ → Outcome
unfolding app_operands
pass_2_instruction_ops_set m st d ops vs =
    and_then (cdsg_outcome st (Segment.app_op m st.cdsg d.opcode))
      (λ st'. app_operands m st' ops vs)

abbrev pub emit : Option Descriptor → GotAll → Allocator → List Operand → State → Outcome
emit d (values_err e) m ops st = (e, st)
emit (some d) (values vs) m ops st =
    pass_2_instruction_ops_set m st d ops (relocate d vs (Segment.get_size st.cdsg))
emit none (values vs) m ops st = (asm_invalid_args, st)

-- A NULL descriptor, which grammar_line_instruction refuses, would be read through by the source;
-- here it ends in an error.
unfoldable pub pass2_instruction : Allocator → Statement → State → Outcome
pass2_instruction m pstmt st =
    let is = pstmt.instruction in
    emit is.descriptor (pass2_instruction_ops_get st.symtab (operands_of is)) m (operands_of is) st

abbrev pub decide2 : StatementType → Allocator → Statement → State → Outcome
decide2 stmt_kma m pstmt st = passes_kma st
decide2 stmt_section_code m pstmt st = passes_code_section st
decide2 stmt_section_data m pstmt st = passes_data_section st
decide2 stmt_data_decl m pstmt st = pass2_data_decl m pstmt st
decide2 stmt_instruction m pstmt st = pass2_instruction m pstmt st
decide2 stmt_label_def m pstmt st = (asm_no_error, st)
decide2 stmt_none m pstmt st = passes_none st
decide2 stmt_error m pstmt st = passes_error st

unfoldable pub pass2_decide : Allocator → Statement → State → Outcome
pass2_decide m pstmt st = decide2 pstmt.type m pstmt st
