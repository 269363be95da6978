-- ===== src/Assembler/Order.antt =====
-- The order of the lines that a pass accepts: the contexts of the assembler as the states of a
-- machine whose steps are the statements.
use kiv_pc_sw.Prelude.{ℕ, ◌+◌, ◌≡◌, ◌≢◌, refl, sym, ◌∙◌, subst, false, List, [], ◌∷◌, arith}
use kiv_pc_sw.Prelude.Text.{Text}
use kiv_pc_sw.Common.{Allocator, Heap}
use kiv_pc_sw.Instruction.{get_encoded_size}
use kiv_pc_sw.Instruction.Encoding.{encoded_size_bounds}
use kiv_pc_sw.Parser.Statement.{
  Statement, StatementType, stmt_none, stmt_kma, stmt_section_data, stmt_section_code,
  stmt_label_def, stmt_data_decl, stmt_instruction, stmt_error,
}
use kiv_pc_sw.Parser.Shape.{SoundType}
use kiv_pc_sw.Assembler.Types.{
  Context, asc_file_start, asc_after_kma, asc_data, asc_code, asm_no_error, State,
}
use kiv_pc_sw.Assembler.Passes.{
  passes_kma, passes_code_section, passes_data_section, passes_none, passes_error,
}
use kiv_pc_sw.Assembler.Pass1.{pass1_decide, decide1, size_of}
use kiv_pc_sw.Assembler.Emit.{and_then_ok}
use kiv_pc_sw.Assembler.Moves.{kma-Moves, code_section-Moves, data_section-Moves, none-Moves}
use kiv_pc_sw.Assembler.Reserve.{
  pass1_data_decl-ReservesData, pass1_instruction-ReservesCode, pass1_label_def-DefinesLabel,
}
use kiv_pc_sw.Assembler.Run.{
  decide, LineRead, statement, line_err, read_line, run_read, passes_line, passes_lines,
}
use kiv_pc_sw.Assembler.Addresses.{SoundRead, read_line-SoundRead, read_line_err}

-- The statements that may stand in a context, and where they lead.
pub data Step : Context → StatementType → Context → Type 0 where
  kma : Step asc_file_start stmt_kma asc_after_kma
  code_section : {c : Context} → c ≢ asc_file_start → Step c stmt_section_code asc_code
  data_section : {c : Context} → c ≢ asc_file_start → Step c stmt_section_data asc_data
  data_decl : Step asc_data stmt_data_decl asc_data
  instruction : Step asc_code stmt_instruction asc_code
  label_def : Step asc_code stmt_label_def asc_code
  empty : {c : Context} → Step c stmt_none c

pub data Steps : Context → List StatementType → Context → Type 0 where
  here : {c : Context} → Steps c [] c
  next :
      {c d e : Context} {type : StatementType} {types : List StatementType}
      → Step c type d
      → Steps d types e
      → Steps c (type ∷ types) e

abbrev pub read_type : LineRead → StatementType
read_type (statement p) = p.type
read_type (line_err e) = stmt_error

-- What the lines of a file read as.
unfoldable pub line_types : Heap → ℕ → List Text → List StatementType
line_types m nl [] = []
line_types m nl (line ∷ lines) = read_type (read_line (m nl) line nl) ∷ line_types m (nl + 1) lines

-- The step from the contexts of the states before and after.
between :
    {c d : Context} {type : StatementType} (s t : State)
    → Step c type d
    → s.ctx ≡ c
    → t.ctx ≡ d
    → Step s.ctx type t.ctx
between {c} {type = type} s t step p q =
    subst (λ x. Step x type t.ctx) (sym p) (subst (λ x. Step c type x) (sym q) step)

kma_context : (s : State) {t : State} → passes_kma s ≡ (asm_no_error, t) → s.ctx ≡ asc_file_start
unfolding passes_kma
kma_context s h = ground arith

code_context :
    (s : State) {t : State} → passes_code_section s ≡ (asm_no_error, t) → s.ctx ≢ asc_file_start
unfolding passes_code_section
code_context s h e = ground arith

data_context :
    (s : State) {t : State} → passes_data_section s ≡ (asm_no_error, t) → s.ctx ≢ asc_file_start
unfolding passes_data_section
data_context s h e = ground arith

pub decide1-Step :
    (type : StatementType) (m : Allocator) (p : Statement) (s : State) {t : State}
    → SoundType type p
    → decide1 type m p s ≡ (asm_no_error, t)
    → Step s.ctx type t.ctx
unfolding passes_none passes_error
decide1-Step stmt_kma m p s {t} so e = between s t kma (kma_context s e) (kma-Moves s e).ctx
decide1-Step stmt_section_code m p s {t} so e =
    between s t (code_section (code_context s e)) refl (code_section-Moves s e).ctx
decide1-Step stmt_section_data m p s {t} so e =
    between s t (data_section (data_context s e)) refl (data_section-Moves s e).ctx
decide1-Step stmt_data_decl m p s {t} so e =
    let r = pass1_data_decl-ReservesData m p s e in
    between s t data_decl r.in_section (r.ctx ∙ r.in_section)
decide1-Step stmt_instruction m p s {t} so e =
    let size : size_of p.instruction.descriptor ≡ get_encoded_size so.0 =
      rw (so.1.descriptor) refl in
    let small = encoded_size_bounds so.0 so.1.row in
    let r = pass1_instruction-ReservesCode p s e (omega (arith, size, small)) in
    between s t instruction r.in_section (r.ctx ∙ r.in_section)
decide1-Step stmt_label_def m p s {t} so e =
    let r = pass1_label_def-DefinesLabel m p s e in
    between s t label_def r.in_section (r.ctx ∙ r.in_section)
decide1-Step stmt_none m p s {t} so e = between s t empty refl (none-Moves s e).ctx
decide1-Step stmt_error m p s so e = cc

run_read-Step :
    (r : LineRead) (m : Allocator) (line : Text) (nl : ℕ) (s : State) {t : State}
    → read_line m line nl ≡ r
    → SoundRead r
    → run_read r (decide false m) s ≡ (asm_no_error, t)
    → Step s.ctx (read_type r) t.ctx
unfolding decide pass1_decide
run_read-Step (statement p) m line nl s r so e = decide1-Step p.type m p s so e
run_read-Step (line_err y) m line nl s r so e =
    absurd (read_line_err m line nl r (let n : y ≡ asm_no_error = cc in n))

-- If the first pass accepts lines, then what they read as is a path of the machine Step from the
-- context before to the context after: .KMA leads from the start of the file behind it, a section
-- marker from any later context to its section, declarations stay in the data section,
-- instructions and labels in the code section, and empty lines change nothing.
pub passes_lines-Steps :
    (m : Heap) (nl : ℕ) (lines : List Text) (s : State) {t : State}
    → passes_lines false m s nl lines ≡ (asm_no_error, t)
    → Steps s.ctx (line_types m nl lines) t.ctx
unfolding passes_lines passes_line line_types
passes_lines-Steps m nl [] s {t} e =
    let done : s ≡ t = cc in subst (λ (x : State). Steps s.ctx [] x.ctx) done here
passes_lines-Steps m nl (line ∷ lines) s e =
    let (u, one, more) = and_then_ok _ _ e in
    next
      (run_read-Step (read_line (m nl) line nl) (m nl) line nl s refl
        (read_line-SoundRead (m nl) line nl) one)
      (passes_lines-Steps m (nl + 1) lines u more)
