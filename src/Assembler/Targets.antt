-- ===== src/Assembler/Targets.antt =====
-- What the symbol table holds for a name: the offset at which the second pass arrives at the
-- line that defines it.
use kiv_pc_sw.Prelude.{
  ℕ, ◌+◌, ◌≡◌, refl, sym, ◌∙◌, ap, true, false, List, ◌∷◌, ◌++◌, none, some, is_some, length,
}
use kiv_pc_sw.Prelude.Text.{Text, str_eq_refl}
use kiv_pc_sw.Common.{Allocator, Heap}
use kiv_pc_sw.Symbol
use kiv_pc_sw.Symbol.Lookup.{entry, find-add}
use kiv_pc_sw.Parser.Statement.{Statement, stmt_label_def, stmt_data_decl}
use kiv_pc_sw.Assembler.Types.{asm_no_error, State}
use kiv_pc_sw.Assembler.Pass1.{pass1_decide, decide1, pass1_label_def, pass1_data_decl}
use kiv_pc_sw.Assembler.Reserve.{pass1_data_decl-ReservesData, pass1_label_def-DefinesLabel}
use kiv_pc_sw.Assembler.Run.{decide, statement, read_line, run_read, passes_line, passes_lines}
use kiv_pc_sw.Assembler.Emit.{and_then_ok}
use kiv_pc_sw.Assembler.Layout.{Agree}
use kiv_pc_sw.Assembler.Addresses.{passes_lines-Agree, passes_lines-append, passes_lines-find_kept}

added_lem :
    (m : Allocator) (table : Symbol.SymbolTable) (name : Text) (address : ℕ)
    {after : Symbol.SymbolTable}
    → Symbol.find table name ≡ none
    → is_some (Symbol.add m table name address).0 ≡ true
    → after ≡ (Symbol.add m table name address).1
    → Symbol.find after name ≡ some (entry name address)
added_lem m table name address fresh added e =
    ap (λ y. Symbol.find y name) e
    ∙ find-add m table name name address fresh added
    ∙ rw (str_eq_refl name) refl

label_step :
    (m : Allocator) (p : Statement) (s : State) {t : State}
    → pass1_label_def m p s ≡ (asm_no_error, t)
    → Symbol.find t.symtab p.label_name ≡ some (entry p.label_name s.cdsg.size)
label_step m p s h =
    let r = pass1_label_def-DefinesLabel m p s h in
    added_lem m s.symtab p.label_name s.cdsg.size r.fresh r.added r.symtab

data_step :
    (m : Allocator) (p : Statement) (s : State) {t : State}
    → pass1_data_decl m p s ≡ (asm_no_error, t)
    → Symbol.find t.symtab p.data_decl.identifier ≡ some (entry p.data_decl.identifier s.dtsg.size)
data_step m p s h =
    let r = pass1_data_decl-ReservesData m p s h in
    added_lem m s.symtab p.data_decl.identifier s.dtsg.size r.fresh r.added r.symtab

-- If the states before the two passes agree (equal offsets and contexts, proper buffers), the
-- first pass accepts the whole file, the second pass accepts the lines before line k, and line k
-- reads as a label definition, then the symbol table after the first pass has for that label the
-- code offset at which the second pass stands when it comes to line k.
pub label_address :
    (m : Heap) (nl k : ℕ) (pre : List Text) (line : Text) (post : List Text) (p : Statement)
    {s1 s2 t1 u2 : State}
    → k ≡ nl + length pre
    → read_line (m k) line k ≡ statement p
    → p.type ≡ stmt_label_def
    → Agree s1 s2
    → passes_lines false m s1 nl (pre ++ (line ∷ post)) ≡ (asm_no_error, t1)
    → passes_lines true m s2 nl pre ≡ (asm_no_error, u2)
    → Symbol.find t1.symtab p.label_name ≡ some (entry p.label_name u2.cdsg.size)
unfolding passes_lines passes_line decide pass1_decide
label_address m nl k pre line post p {s1} {s2} {t1} {u2} e r type a e1 e2 =
    let (u1, before, rest) =
      and_then_ok _ _ (sym (passes_lines-append false m s1 nl k pre (line ∷ post) e) ∙ e1) in
    let (v1, here, after) = and_then_ok _ _ rest in
    let agree = passes_lines-Agree m nl pre a before e2 in
    let defined : pass1_label_def (m k) p u1 ≡ (asm_no_error, v1) =
      ap (λ ty. decide1 ty (m k) p u1) (sym type)
      ∙ ap (λ x. run_read x (decide false (m k)) u1) (sym r)
      ∙ here in
    passes_lines-find_kept m (k + 1) post v1 p.label_name
      (label_step (m k) p u1 defined ∙ ap (λ n. some (entry p.label_name n)) agree.code) after

-- If the states before the two passes agree (equal offsets and contexts, proper buffers), the
-- first pass accepts the whole file, the second pass accepts the lines before line k, and line k
-- reads as a data declaration, then the symbol table after the first pass has for its identifier
-- the data offset at which the second pass stands when it comes to line k, which is where it
-- writes the data.
pub data_address :
    (m : Heap) (nl k : ℕ) (pre : List Text) (line : Text) (post : List Text) (p : Statement)
    {s1 s2 t1 u2 : State}
    → k ≡ nl + length pre
    → read_line (m k) line k ≡ statement p
    → p.type ≡ stmt_data_decl
    → Agree s1 s2
    → passes_lines false m s1 nl (pre ++ (line ∷ post)) ≡ (asm_no_error, t1)
    → passes_lines true m s2 nl pre ≡ (asm_no_error, u2)
    → Symbol.find t1.symtab p.data_decl.identifier
      ≡ some (entry p.data_decl.identifier u2.dtsg.size)
unfolding passes_lines passes_line decide pass1_decide
data_address m nl k pre line post p {s1} {s2} {t1} {u2} e r type a e1 e2 =
    let (u1, before, rest) =
      and_then_ok _ _ (sym (passes_lines-append false m s1 nl k pre (line ∷ post) e) ∙ e1) in
    let (v1, here, after) = and_then_ok _ _ rest in
    let agree = passes_lines-Agree m nl pre a before e2 in
    let defined : pass1_data_decl (m k) p u1 ≡ (asm_no_error, v1) =
      ap (λ ty. decide1 ty (m k) p u1) (sym type)
      ∙ ap (λ x. run_read x (decide false (m k)) u1) (sym r)
      ∙ here in
    passes_lines-find_kept m (k + 1) post v1 p.data_decl.identifier
      (data_step (m k) p u1 defined
        ∙ ap (λ n. some (entry p.data_decl.identifier n)) agree.data_size)
      after
