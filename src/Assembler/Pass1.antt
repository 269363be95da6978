-- ===== src/Assembler/Pass1.antt =====
-- assembler/pass_1.c: the first pass reserves room in both segments and fills the symbol table.
use kiv_pc_sw.Prelude.{
  ℕ, ◌-◌, Bool, true, false, not, ◌&&◌, ltb, ◌==◌, Option, none, some, is_some, if◌then◌else◌,
}
use kiv_pc_sw.Prelude.Text.{Text}
use kiv_pc_sw.Common.{Allocator, size_max, uint32_max, kma_cdsg_bytes, kma_dtsg_bytes}
use kiv_pc_sw.Dataseg
use kiv_pc_sw.Segment
use kiv_pc_sw.Symbol
use kiv_pc_sw.Instruction.{Descriptor, get_encoded_size}
use kiv_pc_sw.Parser.Statement.{
  Statement, StatementType, stmt_none, stmt_kma, stmt_section_data, stmt_section_code,
  stmt_label_def, stmt_data_decl, stmt_instruction, stmt_error,
}
use kiv_pc_sw.Assembler.Types.{
  Context, asc_data, asc_code, asm_no_error, asm_data_abroad, asm_code_abroad, asm_dtsg_too_large,
  asm_dtsg_cannot_advance, asm_cdsg_too_large, asm_symtab_already_exist, asm_symtab_cannot_add,
  asm_invalid_instruction, State, Outcome,
}
use kiv_pc_sw.Assembler.Passes.{
  passes_kma, passes_code_section, passes_data_section, passes_none, passes_error,
}

abbrev pub in_data : Context → Bool
in_data asc_data = true
in_data _ = false

abbrev pub in_code : Context → Bool
in_code asc_code = true
in_code _ = false

-- The last steps of both definitions: a new name, and its place in the table.
unfoldable pub define : Allocator → State → Text → ℕ → Outcome
define m st name position =
    if is_some (Symbol.find st.symtab name)
    then (asm_symtab_already_exist, st)
    else let (symbol, symtab) = Symbol.add m st.symtab name position in
      if is_some symbol
      then (asm_no_error, record st { symtab = symtab })
      else (asm_symtab_cannot_add, record st { symtab = symtab })

unfoldable pub pass1_data_decl : Allocator → Statement → State → Outcome
unfolding define
pass1_data_decl m pstmt st =
    let size = pstmt.data_decl.total_size in
    let (position, dtsg) = Dataseg.advance st.dtsg size in
    let st' = record st { dtsg = dtsg } in
    if not (in_data st.ctx)
    then (asm_data_abroad, st)
    else if position == size_max
    then (asm_dtsg_cannot_advance, st')
    else if ltb kma_dtsg_bytes size
    then (asm_dtsg_too_large, st')
    else if ltb (kma_dtsg_bytes - size) position
    then (asm_dtsg_too_large, st')
    else if ltb uint32_max position
    then (asm_dtsg_too_large, st')
    else define m st' pstmt.data_decl.identifier position

-- A NULL descriptor has size 0.
abbrev pub size_of : Option Descriptor → ℕ
size_of none = 0
size_of (some d) = get_encoded_size d

unfoldable pub pass1_instruction : Statement → State → Outcome
pass1_instruction pstmt st =
    let size = size_of pstmt.instruction.descriptor in
    let (position, cdsg) = Segment.advance st.cdsg size in
    let st' = record st { cdsg = cdsg } in
    if not (in_code st.ctx)
    then (asm_code_abroad, st)
    else if not (ltb 0 size && not (size == size_max))
    then (asm_invalid_instruction, st)
    else if ltb (kma_cdsg_bytes - size) position
    then (asm_cdsg_too_large, st')
    else if ltb uint32_max position
    then (asm_cdsg_too_large, st')
    else (asm_no_error, st')

unfoldable pub pass1_label_def : Allocator → Statement → State → Outcome
unfolding define
pass1_label_def m pstmt st =
    let (position, cdsg) = Segment.advance st.cdsg 0 in
    let st' = record st { cdsg = cdsg } in
    if not (in_code st.ctx)
    then (asm_code_abroad, st)
    else if ltb kma_cdsg_bytes position
    then (asm_cdsg_too_large, st')
    else if ltb uint32_max position
    then (asm_cdsg_too_large, st')
    else define m st' pstmt.label_name position

abbrev pub decide1 : StatementType → Allocator → Statement → State → Outcome
decide1 stmt_kma m pstmt st = passes_kma st
decide1 stmt_section_code m pstmt st = passes_code_section st
decide1 stmt_section_data m pstmt st = passes_data_section st
decide1 stmt_data_decl m pstmt st = pass1_data_decl m pstmt st
decide1 stmt_instruction m pstmt st = pass1_instruction pstmt st
decide1 stmt_label_def m pstmt st = pass1_label_def m pstmt st
decide1 stmt_none m pstmt st = passes_none st
decide1 stmt_error m pstmt st = passes_error st

unfoldable pub pass1_decide : Allocator → Statement → State → Outcome
pass1_decide m pstmt st = decide1 pstmt.type m pstmt st
