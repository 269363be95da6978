-- ===== src/Assembler/Reserved.antt =====
-- What the first pass leaves alone and what it keeps below its limits: the buffers of both segments
-- stay as they were, and neither size passes 256 KiB.
use kiv_pc_sw.Prelude.{ℕ, ◌+◌, ◌≤◌, ◌≡◌, refl, sym, ◌∙◌, ap, subst, false, List, [], ◌∷◌, arith}
use kiv_pc_sw.Prelude.Text.{Text}
use kiv_pc_sw.Common.{Allocator, Heap, kma_cdsg_bytes, kma_dtsg_bytes}
use kiv_pc_sw.Segment
use kiv_pc_sw.Instruction.{get_encoded_size}
use kiv_pc_sw.Instruction.Encoding.{encoded_size_bounds}
use kiv_pc_sw.Parser.Statement.{
  Statement, StatementType, stmt_none, stmt_kma, stmt_section_data, stmt_section_code,
  stmt_label_def, stmt_data_decl, stmt_instruction, stmt_error,
}
use kiv_pc_sw.Parser.Shape.{SoundType}
use kiv_pc_sw.Assembler.Types.{Context, asm_no_error, State}
use kiv_pc_sw.Assembler.Passes.{passes_none, passes_error}
use kiv_pc_sw.Assembler.Pass1.{
  pass1_decide, decide1, size_of, pass1_data_decl, pass1_instruction, pass1_label_def,
}
use kiv_pc_sw.Assembler.Emit.{and_then_ok}
use kiv_pc_sw.Assembler.Moves.{Moves, kma-Moves, code_section-Moves, data_section-Moves, none-Moves}
use kiv_pc_sw.Assembler.Reserve.{
  pass1_data_decl-ReservesData, pass1_instruction-ReservesCode, pass1_label_def-DefinesLabel,
}
use kiv_pc_sw.Assembler.Run.{
  decide, LineRead, statement, line_err, read_line, run_read, passes_line, passes_lines,
}
use kiv_pc_sw.Assembler.Addresses.{SoundRead, read_line-SoundRead, read_line_err}

abbrev SameBuffer : Segment.Segment → Segment.Segment → Type 0
SameBuffer s t = (t.bytes ≡ s.bytes) × (t.capacity ≡ s.capacity)

-- From `s` to `t` no byte is written, and a size that was within its limit still is.
pub record Reserves (s t : State) : Type 0 where
  pub dtsg : SameBuffer s.dtsg t.dtsg
  pub cdsg : SameBuffer s.cdsg t.cdsg
  pub data_limit : s.dtsg.size ≤ kma_dtsg_bytes → t.dtsg.size ≤ kma_dtsg_bytes
  pub code_limit : s.cdsg.size ≤ kma_cdsg_bytes → t.cdsg.size ≤ kma_cdsg_bytes

Reserves-refl : (s : State) → Reserves s s
Reserves-refl s = record {
  dtsg = (refl, refl);
  cdsg = (refl, refl);
  data_limit = λ h. h;
  code_limit = λ h. h;
}

Reserves-trans : {s t u : State} → Reserves s t → Reserves t u → Reserves s u
Reserves-trans p q = record {
  dtsg = (q.dtsg.0 ∙ p.dtsg.0, q.dtsg.1 ∙ p.dtsg.1);
  cdsg = (q.cdsg.0 ∙ p.cdsg.0, q.cdsg.1 ∙ p.cdsg.1);
  data_limit = λ h. q.data_limit (p.data_limit h);
  code_limit = λ h. q.code_limit (p.code_limit h);
}

same : {s t : Segment.Segment} → t ≡ s → SameBuffer s t
same e = (ap (λ (x : Segment.Segment). x.bytes) e, ap (λ (x : Segment.Segment). x.capacity) e)

within : {s t : Segment.Segment} {n : ℕ} → t ≡ s → s.size ≤ n → t.size ≤ n
within {n} e h = subst (λ (x : Segment.Segment). x.size ≤ n) (sym e) h

Moves-Reserves : {s t : State} {c : Context} → Moves s c t → Reserves s t
Moves-Reserves m = record {
  dtsg = same m.dtsg;
  cdsg = same m.cdsg;
  data_limit = within m.dtsg;
  code_limit = within m.cdsg;
}

data_buffer :
    (m : Allocator) (p : Statement) (s : State) {t : State}
    → pass1_data_decl m p s ≡ (asm_no_error, t)
    → SameBuffer s.dtsg t.dtsg
unfolding pass1_data_decl Segment.advance
data_buffer m p s {t} h = (ground arith, ground arith)

code_buffer :
    (p : Statement) (s : State) {t : State}
    → pass1_instruction p s ≡ (asm_no_error, t)
    → SameBuffer s.cdsg t.cdsg
unfolding pass1_instruction Segment.advance
code_buffer p s {t} h = (ground arith, ground arith)

label_buffer :
    (m : Allocator) (p : Statement) (s : State) {t : State}
    → pass1_label_def m p s ≡ (asm_no_error, t)
    → SameBuffer s.cdsg t.cdsg
unfolding pass1_label_def Segment.advance
label_buffer m p s {t} h = (ground arith, ground arith)

decide1-Reserves :
    (type : StatementType) (m : Allocator) (p : Statement) (s : State) {t : State}
    → SoundType type p
    → decide1 type m p s ≡ (asm_no_error, t)
    → Reserves s t
unfolding passes_none passes_error
decide1-Reserves stmt_kma m p s so e = Moves-Reserves (kma-Moves _ e)
decide1-Reserves stmt_section_code m p s so e = Moves-Reserves (code_section-Moves _ e)
decide1-Reserves stmt_section_data m p s so e = Moves-Reserves (data_section-Moves _ e)
decide1-Reserves stmt_data_decl m p s so e =
    let r = pass1_data_decl-ReservesData m p s e in
    record {
      dtsg = data_buffer m p s e;
      cdsg = same r.cdsg;
      data_limit = λ h. r.bounded;
      code_limit = within r.cdsg;
    }
decide1-Reserves stmt_instruction m p s so e =
    let size : size_of p.instruction.descriptor ≡ get_encoded_size so.0 =
      rw (so.1.descriptor) refl in
    let small = encoded_size_bounds so.0 so.1.row in
    let r = pass1_instruction-ReservesCode p s e (omega (arith, size, small)) in
    record {
      dtsg = same r.dtsg;
      cdsg = code_buffer p s e;
      data_limit = within r.dtsg;
      code_limit = λ h. r.bounded;
    }
decide1-Reserves stmt_label_def m p s so e =
    let r = pass1_label_def-DefinesLabel m p s e in
    record {
      dtsg = same r.dtsg;
      cdsg = label_buffer m p s e;
      data_limit = within r.dtsg;
      code_limit = λ h. r.bounded;
    }
decide1-Reserves stmt_none m p s so e = Moves-Reserves (none-Moves _ e)
decide1-Reserves stmt_error m p s so e = cc

run_read-Reserves :
    (r : LineRead) (m : Allocator) (line : Text) (nl : ℕ) (s : State) {t : State}
    → read_line m line nl ≡ r
    → SoundRead r
    → run_read r (decide false m) s ≡ (asm_no_error, t)
    → Reserves s t
unfolding decide pass1_decide
run_read-Reserves (statement p) m line nl s r so e = decide1-Reserves p.type m p s so e
run_read-Reserves (line_err y) m line nl s r so e =
    absurd (read_line_err m line nl r (let n : y ≡ asm_no_error = cc in n))

-- While a first pass runs over any lines, no byte of a buffer is written, no capacity changes, and a
-- segment that has at most 256 KiB stays so.
pub passes_lines-Reserves :
    (m : Heap) (nl : ℕ) (lines : List Text) (s : State) {t : State}
    → passes_lines false m s nl lines ≡ (asm_no_error, t)
    → Reserves s t
unfolding passes_lines passes_line
passes_lines-Reserves m nl [] s {t} e =
    let done : s ≡ t = cc in subst (Reserves s) done (Reserves-refl s)
passes_lines-Reserves m nl (line ∷ lines) s e =
    let (u, one, more) = and_then_ok _ _ e in
    Reserves-trans
      (run_read-Reserves (read_line (m nl) line nl) (m nl) line nl s refl
        (read_line-SoundRead (m nl) line nl) one)
      (passes_lines-Reserves m (nl + 1) lines u more)
