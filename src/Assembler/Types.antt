-- ===== src/Assembler/Types.antt =====
-- include/assembler.h and assembler/convert.c: the state of the assembler, its contexts and its
-- error codes.
use kiv_pc_sw.Prelude.{ℕ, ltb, if◌then◌else◌}
use kiv_pc_sw.Common.{
  int32_max, ErrMain, err_no_error, err_syntax_error, err_file_access_failure,
  err_unresolved_reference, err_code_segment_too_large, err_data_segment_too_large,
  err_my_code_failure,
}
use kiv_pc_sw.Segment.{Segment}
use kiv_pc_sw.Symbol.{SymbolTable}

-- enum Assembler_Context
pub data Context : Type 0 where
  asc_file_start asc_after_kma asc_data asc_code : Context

-- enum Err_Asm
pub data ErrAsm : Type 0 where
  asm_no_error asm_kma_expected asm_kma_double asm_cannot_open_file asm_invalid_args : ErrAsm
  asm_creating_tokens asm_creating_pstmt asm_data_abroad asm_code_abroad : ErrAsm
  asm_unknown_pstmt_type asm_dtsg_cannot_advance asm_cdsg_cannot_advance : ErrAsm
  asm_symtab_cannot_add asm_symtab_already_exist asm_invalid_instruction : ErrAsm
  asm_dtsg_too_large asm_cdsg_too_large asm_unknown_init_seg : ErrAsm
  asm_dtsg_cannot_append asm_cdsg_cannot_append : ErrAsm
  asm_invalid_operand_register asm_invalid_operand_label : ErrAsm

-- struct Assembler_Processing without its config, which decides over the printed messages only,
-- together with the context that a pass carries from line to line.
pub record State : Type 0 where
  pub symtab : SymbolTable
  pub dtsg : Segment
  pub cdsg : Segment
  pub ctx : Context

-- What a call returns, and the state that it leaves.
abbrev pub Outcome : Type 0
Outcome = ErrAsm × State

unfoldable pub convert_uint32 : ℕ → ℕ
convert_uint32 u = if ltb int32_max u then int32_max else u

unfoldable pub convert_size_t : ℕ → ℕ
convert_size_t s = if ltb int32_max s then int32_max else s

unfoldable pub convert_err : ErrAsm → ErrMain
convert_err asm_no_error = err_no_error
convert_err asm_kma_expected = err_syntax_error
convert_err asm_kma_double = err_syntax_error
convert_err asm_data_abroad = err_syntax_error
convert_err asm_code_abroad = err_syntax_error
convert_err asm_symtab_already_exist = err_syntax_error
convert_err asm_invalid_instruction = err_syntax_error
convert_err asm_invalid_operand_register = err_syntax_error
convert_err asm_creating_pstmt = err_syntax_error
convert_err asm_cannot_open_file = err_file_access_failure
convert_err asm_invalid_operand_label = err_unresolved_reference
convert_err asm_cdsg_too_large = err_code_segment_too_large
convert_err asm_cdsg_cannot_append = err_code_segment_too_large
convert_err asm_cdsg_cannot_advance = err_code_segment_too_large
convert_err asm_dtsg_too_large = err_data_segment_too_large
convert_err asm_dtsg_cannot_append = err_data_segment_too_large
convert_err asm_dtsg_cannot_advance = err_data_segment_too_large
convert_err asm_invalid_args = err_my_code_failure
convert_err asm_creating_tokens = err_my_code_failure
convert_err asm_unknown_pstmt_type = err_my_code_failure
convert_err asm_symtab_cannot_add = err_my_code_failure
convert_err asm_unknown_init_seg = err_my_code_failure
