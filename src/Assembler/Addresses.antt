-- ===== src/Assembler/Addresses.antt =====
-- Over the whole file: the passes agree on every offset, and the address that the symbol table
-- holds for a label is the offset at which the second pass writes what follows the label.
use kiv_pc_sw.Prelude.{
  ℕ, ◌+◌, ◌≡◌, ◌≢◌, refl, sym, ◌∙◌, ap, subst, Bool, true, false, List, [], ◌∷◌, ◌++◌, Option, none,
  some, arith, length,
}
use kiv_pc_sw.Prelude.Text.{Text}
use kiv_pc_sw.Common.{Allocator, Heap}
use kiv_pc_sw.Symbol
use kiv_pc_sw.Symbol.Lookup.{find_kept}
use kiv_pc_sw.Parser.Statement.{
  Statement, StatementType, stmt_none, stmt_kma, stmt_section_data, stmt_section_code,
  stmt_label_def, stmt_data_decl, stmt_instruction, stmt_error,
}
use kiv_pc_sw.Assembler.Types.{ErrAsm, asm_no_error, State, Outcome}
use kiv_pc_sw.Instruction.{get_encoded_size}
use kiv_pc_sw.Instruction.Encoding.{encoded_size_bounds}
use kiv_pc_sw.Assembler.Passes.{passes_none, passes_error}
use kiv_pc_sw.Assembler.Pass1.{pass1_decide, decide1, size_of}
use kiv_pc_sw.Assembler.Pass2.{and_then}
use kiv_pc_sw.Lexer.Line.{tokenize_line, Tokenized, tokens, failed, out_of_fuel}
use kiv_pc_sw.Lexer.Token.{Token}
use kiv_pc_sw.Parser.LineShape.{convert_parse_tokens-IsSound}
use kiv_pc_sw.Parser.Grammar.{convert_parse_tokens}
use kiv_pc_sw.Assembler.Reserve.{
  pass1_data_decl-ReservesData, pass1_instruction-ReservesCode, pass1_label_def-DefinesLabel,
}
use kiv_pc_sw.Assembler.Run.{
  parsed, from_tokens, decide, LineRead, statement, line_err, read_line, run_read, passes_line,
  passes_lines,
}
use kiv_pc_sw.Assembler.Emit.{and_then_ok}
use kiv_pc_sw.Assembler.Layout.{Agree, pass_decide-Agree}
use kiv_pc_sw.Parser.Shape.{IsSound, SoundType}
use kiv_pc_sw.Assembler.Moves.{kma-Moves, code_section-Moves, data_section-Moves, none-Moves}

-- What a line reads as is sound, if it is a statement.
abbrev pub SoundRead : LineRead → Type 0
SoundRead (line_err e) = Unit
SoundRead (statement p) = IsSound p

parsed-SoundRead :
    (m : Allocator) (ts : List Token) (nl : ℕ) (o : Option Statement)
    → convert_parse_tokens m ts nl ≡ o
    → SoundRead (parsed o)
parsed-SoundRead m ts nl none e = tt
parsed-SoundRead m ts nl (some p) e = convert_parse_tokens-IsSound m ts nl e

from_tokens-SoundRead : (t : Tokenized) (m : Allocator) (nl : ℕ) → SoundRead (from_tokens t m nl)
from_tokens-SoundRead (tokens ts) m nl =
    parsed-SoundRead m ts nl (convert_parse_tokens m ts nl) refl
from_tokens-SoundRead failed m nl = tt
from_tokens-SoundRead out_of_fuel m nl = tt

-- A line that reads as a statement reads as a sound one.
pub read_line-SoundRead : (m : Allocator) (line : Text) (nl : ℕ) → SoundRead (read_line m line nl)
unfolding read_line
read_line-SoundRead m line nl = from_tokens-SoundRead (tokenize_line m line nl) m nl

parsed_err : (o : Option Statement) {e : ErrAsm} → parsed o ≡ line_err e → e ≢ asm_no_error
parsed_err none h n = cc
parsed_err (some p) h n = cc

from_tokens_err :
    (t : Tokenized) (m : Allocator) (nl : ℕ) {e : ErrAsm}
    → from_tokens t m nl ≡ line_err e
    → e ≢ asm_no_error
from_tokens_err (tokens ts) m nl h = parsed_err (convert_parse_tokens m ts nl) h
from_tokens_err failed m nl h = λ n. cc
from_tokens_err out_of_fuel m nl h = λ n. cc

-- A line that is refused is refused with an error code.
pub read_line_err :
    (m : Allocator) (line : Text) (nl : ℕ) {e : ErrAsm}
    → read_line m line nl ≡ line_err e
    → e ≢ asm_no_error
unfolding read_line
read_line_err m line nl h = from_tokens_err (tokenize_line m line nl) m nl h

pub run_read-Agree :
    (r : LineRead) (m : Allocator) (line : Text) (nl : ℕ) {s1 s2 t1 t2 : State}
    → read_line m line nl ≡ r
    → SoundRead r
    → Agree s1 s2
    → run_read r (decide false m) s1 ≡ (asm_no_error, t1)
    → run_read r (decide true m) s2 ≡ (asm_no_error, t2)
    → Agree t1 t2
unfolding decide
run_read-Agree (statement p) m line nl r h a e1 e2 = pass_decide-Agree m p h a e1 e2
run_read-Agree (line_err e) m line nl r h a e1 e2 =
    absurd (read_line_err m line nl r (let n : e ≡ asm_no_error = cc in n))

-- Over any list of lines, if both passes start at the same offsets and in the same context, the
-- second one with proper buffers, and both accept all the lines, they end at the same offsets and
-- in the same context, with proper buffers.
pub passes_lines-Agree :
    (m : Heap) (nl : ℕ) (lines : List Text) {s1 s2 t1 t2 : State}
    → Agree s1 s2
    → passes_lines false m s1 nl lines ≡ (asm_no_error, t1)
    → passes_lines true m s2 nl lines ≡ (asm_no_error, t2)
    → Agree t1 t2
unfolding passes_lines passes_line
passes_lines-Agree m nl [] {s1} {s2} {t1} {t2} a e1 e2 =
    let p1 : s1 ≡ t1 = cc in
    let p2 : s2 ≡ t2 = cc in subst (λ s. Agree s t2) p1 (subst (Agree s1) p2 a)
passes_lines-Agree m nl (line ∷ lines) a e1 e2 =
    let (u1, one1, more1) = and_then_ok _ _ e1 in
    let (u2, one2, more2) = and_then_ok _ _ e2 in
    passes_lines-Agree m (nl + 1) lines
      (run_read-Agree (read_line (m nl) line nl) (m nl) line nl refl
        (read_line-SoundRead (m nl) line nl) a one1 one2)
      more1 more2

and_then_assoc :
    (o : Outcome) (f g : State → Outcome)
    → and_then (and_then o f) g ≡ and_then o (λ s. and_then (f s) g)
and_then_assoc (asm_no_error, s) f g = refl
and_then_assoc (_, s) f g = refl

-- The lines of a file in two parts, one after the other.
pub passes_lines-append :
    (b : Bool) (m : Heap) (s : State) (nl k : ℕ) (xs ys : List Text)
    → k ≡ nl + length xs
    → passes_lines b m s nl (xs ++ ys)
      ≡ and_then (passes_lines b m s nl xs) (λ s'. passes_lines b m s' k ys)
unfolding passes_lines
passes_lines-append b m s nl k [] ys e = ap (λ n. passes_lines b m s n ys) {y = k} (omega arith)
passes_lines-append b m s nl k (x ∷ xs) ys e =
    (λ i.
      and_then (passes_line b (m nl) s nl x)
        (λ s'. passes_lines-append b m s' (nl + 1) k xs ys (omega arith) i))
    ∙ sym (
        and_then_assoc (passes_line b (m nl) s nl x) (λ s'. passes_lines b m s' (nl + 1) xs)
          (λ s'. passes_lines b m s' k ys))

-- A later line of the first pass leaves the symbols that are there.
decide1-find_kept :
    (type : StatementType) (m : Allocator) (p : Statement) (s : State) {t : State} (name : Text)
    {x : Symbol.Symbol}
    → SoundType type p
    → Symbol.find s.symtab name ≡ some x
    → decide1 type m p s ≡ (asm_no_error, t)
    → Symbol.find t.symtab name ≡ some x
unfolding passes_none passes_error
decide1-find_kept stmt_kma m p s name so f e =
    ap (λ y. Symbol.find y name) (kma-Moves _ e).symtab ∙ f
decide1-find_kept stmt_section_code m p s name so f e =
    ap (λ y. Symbol.find y name) (code_section-Moves _ e).symtab ∙ f
decide1-find_kept stmt_section_data m p s name so f e =
    ap (λ y. Symbol.find y name) (data_section-Moves _ e).symtab ∙ f
decide1-find_kept stmt_data_decl m p s name so f e =
    let r = pass1_data_decl-ReservesData m p s e in
    ap (λ y. Symbol.find y name) r.symtab
    ∙ find_kept m s.symtab p.data_decl.identifier name s.dtsg.size r.fresh r.added f
decide1-find_kept stmt_instruction m p s name so f e =
    let size : size_of p.instruction.descriptor ≡ get_encoded_size so.0 =
      rw (so.1.descriptor) refl in
    let small = encoded_size_bounds so.0 so.1.row in
    ap (λ y. Symbol.find y name)
      (pass1_instruction-ReservesCode p s e (omega (arith, size, small))).symtab
    ∙ f
decide1-find_kept stmt_label_def m p s name so f e =
    let r = pass1_label_def-DefinesLabel m p s e in
    ap (λ y. Symbol.find y name) r.symtab
    ∙ find_kept m s.symtab p.label_name name s.cdsg.size r.fresh r.added f
decide1-find_kept stmt_none m p s name so f e =
    ap (λ y. Symbol.find y name) (none-Moves _ e).symtab ∙ f
decide1-find_kept stmt_error m p s name so f e = cc

run_read-find_kept :
    (r : LineRead) (m : Allocator) (line : Text) (nl : ℕ) (s : State) {t : State} (name : Text)
    {x : Symbol.Symbol}
    → read_line m line nl ≡ r
    → SoundRead r
    → Symbol.find s.symtab name ≡ some x
    → run_read r (decide false m) s ≡ (asm_no_error, t)
    → Symbol.find t.symtab name ≡ some x
unfolding decide pass1_decide
run_read-find_kept (statement p) m line nl s name r so f e =
    decide1-find_kept p.type m p s name so f e
run_read-find_kept (line_err y) m line nl s name r so f e =
    absurd (read_line_err m line nl r (let n : y ≡ asm_no_error = cc in n))

pub passes_lines-find_kept :
    (m : Heap) (nl : ℕ) (lines : List Text) (s : State) {t : State} (name : Text)
    {x : Symbol.Symbol}
    → Symbol.find s.symtab name ≡ some x
    → passes_lines false m s nl lines ≡ (asm_no_error, t)
    → Symbol.find t.symtab name ≡ some x
unfolding passes_lines passes_line
passes_lines-find_kept m nl [] s {t} name {x} f e =
    let same : s ≡ t = cc in subst (λ y. Symbol.find y.symtab name ≡ some x) same f
passes_lines-find_kept m nl (line ∷ lines) s name f e =
    let (u, one, more) = and_then_ok _ _ e in
    passes_lines-find_kept m (nl + 1) lines u name
      (run_read-find_kept (read_line (m nl) line nl) (m nl) line nl s name refl
        (read_line-SoundRead (m nl) line nl) f one)
      more
