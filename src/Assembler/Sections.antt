-- ===== src/Assembler/Sections.antt =====
-- What the order of the lines comes to: where .KMA stands, and in which section a statement is.
use kiv_pc_sw.Prelude.{
  ℕ, ◌≡◌, ◌≢◌, refl, sym, ◌∙◌, ap, subst, false, List, [], ◌∷◌, ◌++◌, Option, none, some,
}
use kiv_pc_sw.Prelude.Text.{Text}
use kiv_pc_sw.Common.{Heap}
use kiv_pc_sw.Parser.Statement.{
  StatementType, stmt_none, stmt_kma, stmt_section_data, stmt_section_code, stmt_label_def,
  stmt_data_decl, stmt_instruction,
}
use kiv_pc_sw.Assembler.Types.{Context, asc_file_start, asc_data, asc_code, asm_no_error, State}
use kiv_pc_sw.Assembler.Run.{passes_lines}
use kiv_pc_sw.Assembler.Order.{
  Step, kma, code_section, data_section, data_decl, instruction, label_def, empty, Steps, here,
  next, line_types, passes_lines-Steps,
}

-- No .KMA among the statements.
abbrev pub LacksKma : List StatementType → Type 0
LacksKma [] = Unit
LacksKma (type ∷ types) = (type ≢ stmt_kma) × LacksKma types

-- Behind empty lines .KMA stands once, before all else.
abbrev pub StartsWithKma : List StatementType → Type 0
StartsWithKma [] = Unit
StartsWithKma (stmt_none ∷ types) = StartsWithKma types
StartsWithKma (stmt_kma ∷ types) = LacksKma types
StartsWithKma (_ ∷ types) = ⊥

-- No step leads back to the start of the file.
Step-LacksKma :
    {c d : Context} {type : StatementType}
    → Step c type d
    → c ≢ asc_file_start
    → (type ≢ stmt_kma) × (d ≢ asc_file_start)
Step-LacksKma kma n = absurd (n refl)
Step-LacksKma (code_section _) n = (λ e. cc, λ e. cc)
Step-LacksKma (data_section _) n = (λ e. cc, λ e. cc)
Step-LacksKma data_decl n = (λ e. cc, λ e. cc)
Step-LacksKma instruction n = (λ e. cc, λ e. cc)
Step-LacksKma label_def n = (λ e. cc, λ e. cc)
Step-LacksKma empty n = (λ e. cc, n)

Steps-LacksKma :
    {c d : Context} {types : List StatementType}
    → Steps c types d
    → c ≢ asc_file_start
    → LacksKma types
Steps-LacksKma here n = tt
Steps-LacksKma (next step steps) n =
    let (other, later) = Step-LacksKma step n in (other, Steps-LacksKma steps later)

Steps-StartsWithKma :
    {c d : Context} {types : List StatementType}
    → Steps c types d
    → c ≡ asc_file_start
    → StartsWithKma types
Steps-StartsWithKma here e = tt
Steps-StartsWithKma (next kma steps) e = Steps-LacksKma steps (λ n. cc)
Steps-StartsWithKma (next (code_section n) steps) e = absurd (n e)
Steps-StartsWithKma (next (data_section n) steps) e = absurd (n e)
Steps-StartsWithKma (next data_decl steps) e = absurd cc
Steps-StartsWithKma (next instruction steps) e = absurd cc
Steps-StartsWithKma (next label_def steps) e = absurd cc
Steps-StartsWithKma (next empty steps) e = Steps-StartsWithKma steps e

-- If the first pass accepts lines from the start of a file, the first of them that is not empty,
-- if there is one, is .KMA, and no later line is.
pub passes_lines-StartsWithKma :
    (m : Heap) (nl : ℕ) (lines : List Text) (s : State) {t : State}
    → s.ctx ≡ asc_file_start
    → passes_lines false m s nl lines ≡ (asm_no_error, t)
    → StartsWithKma (line_types m nl lines)
passes_lines-StartsWithKma m nl lines s c e =
    Steps-StartsWithKma (passes_lines-Steps m nl lines s e) c

-- The last section marker among the statements, or `o` if there is none.
abbrev pub last_section : Option StatementType → List StatementType → Option StatementType
last_section o [] = o
last_section o (stmt_section_data ∷ types) = last_section (some stmt_section_data) types
last_section o (stmt_section_code ∷ types) = last_section (some stmt_section_code) types
last_section o (_ ∷ types) = last_section o types

-- The section in which a statement has to stand.
abbrev pub home_section : StatementType → Option StatementType
home_section stmt_data_decl = some stmt_section_data
home_section stmt_instruction = some stmt_section_code
home_section stmt_label_def = some stmt_section_code
home_section _ = none

-- The marker of the section that a context is in.
abbrev marker : Context → Option StatementType
marker asc_data = some stmt_section_data
marker asc_code = some stmt_section_code
marker _ = none

Step-last_section :
    {c d : Context} {type : StatementType} (o : Option StatementType) (types : List StatementType)
    → Step c type d
    → o ≡ marker c
    → (u : Option StatementType) × (u ≡ marker d)
      × (last_section o (type ∷ types) ≡ last_section u types)
Step-last_section o types kma e = (o, e, refl)
Step-last_section o types (code_section _) e = (some stmt_section_code, refl, refl)
Step-last_section o types (data_section _) e = (some stmt_section_data, refl, refl)
Step-last_section o types data_decl e = (o, e, refl)
Step-last_section o types instruction e = (o, e, refl)
Step-last_section o types label_def e = (o, e, refl)
Step-last_section o types empty e = (o, e, refl)

home_lem :
    {c d : Context} {type x : StatementType}
    → Step c type d
    → home_section type ≡ some x
    → marker c ≡ some x
home_lem kma h = absurd cc
home_lem (code_section _) h = absurd cc
home_lem (data_section _) h = absurd cc
home_lem data_decl h = h
home_lem instruction h = h
home_lem label_def h = h
home_lem empty h = absurd cc

-- Where the steps come to a statement behind `pre`.
Steps-last_section :
    (pre post : List StatementType) (type : StatementType) {c d : Context}
    {types : List StatementType} {x : StatementType} (o : Option StatementType)
    → Steps c types d
    → types ≡ pre ++ (type ∷ post)
    → o ≡ marker c
    → home_section type ≡ some x
    → last_section o pre ≡ some x
Steps-last_section [] post type o here e i h = absurd cc
Steps-last_section [] post type o (next {c} {d} {type = k} step steps) e i h =
    let same : k ≡ type = cc in i ∙ home_lem (subst (λ y. Step c y d) same step) h
Steps-last_section (y ∷ pre) post type o here e i h = absurd cc
Steps-last_section (y ∷ pre) post type o (next {c} {d} {type = k} {types} step steps) e i h =
    let same : k ≡ y = cc in
    let tail : types ≡ pre ++ (type ∷ post) = cc in
    let (u, j, q) = Step-last_section o pre (subst (λ z. Step c z d) same step) i in
    q ∙ Steps-last_section pre post type u steps tail j h

-- If the first pass accepts lines from the start of a file, then the last section marker before a
-- data declaration is .DATA, and before an instruction or a label definition .CODE.
pub passes_lines-last_section :
    (m : Heap) (nl : ℕ) (lines : List Text) (s : State) (pre post : List StatementType)
    (type x : StatementType) {t : State}
    → s.ctx ≡ asc_file_start
    → passes_lines false m s nl lines ≡ (asm_no_error, t)
    → line_types m nl lines ≡ pre ++ (type ∷ post)
    → home_section type ≡ some x
    → last_section none pre ≡ some x
passes_lines-last_section m nl lines s pre post type x c e split h =
    Steps-last_section pre post type none (passes_lines-Steps m nl lines s e) split
      (sym (ap marker c)) h
