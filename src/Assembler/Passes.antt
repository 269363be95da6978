-- ===== src/Assembler/Passes.antt =====
-- assembler/passes.c: what both passes do with a line that is no declaration, label or instruction.
use kiv_pc_sw.Assembler.Types.{
  Context, asc_file_start, asc_after_kma, asc_data, asc_code, asm_no_error, asm_kma_expected,
  asm_kma_double, asm_unknown_pstmt_type, State, Outcome,
}

abbrev kma_in : Context → State → Outcome
kma_in asc_file_start st = (asm_no_error, record st { ctx = asc_after_kma })
kma_in _ st = (asm_kma_double, st)

unfoldable pub passes_kma : State → Outcome
passes_kma st = kma_in st.ctx st

abbrev pub section_in : Context → Context → State → Outcome
section_in asc_file_start section st = (asm_kma_expected, st)
section_in _ section st = (asm_no_error, record st { ctx = section })

unfoldable pub passes_code_section : State → Outcome
passes_code_section st = section_in st.ctx asc_code st

unfoldable pub passes_data_section : State → Outcome
passes_data_section st = section_in st.ctx asc_data st

unfoldable pub passes_none : State → Outcome
passes_none st = (asm_no_error, st)

unfoldable pub passes_error : State → Outcome
passes_error st = (asm_unknown_pstmt_type, st)
