-- ===== src/Assembler/Layout.antt =====
-- The two passes agree on the layout: they move through the same offsets in both segments.
use kiv_pc_sw.Prelude.{ℕ, ◌%◌, ◌^◌, ◌≡◌, refl, sym, ◌∙◌, ap, subst, List, ◌∷◌, some, arith}
use kiv_pc_sw.Common.{Allocator}
use kiv_pc_sw.Segment
use kiv_pc_sw.Segment.{IsBuffer}
use kiv_pc_sw.Instruction.{Descriptor, get_encoded_size}
use kiv_pc_sw.Instruction.Encoding.{encoded_size_bounds}
use kiv_pc_sw.Parser.Statement.{
  Statement, StatementType, stmt_none, stmt_kma, stmt_section_data, stmt_section_code,
  stmt_label_def, stmt_data_decl, stmt_instruction, stmt_error,
}
use kiv_pc_sw.Parser.Shape.{SoundType, IsSound, InstructionShape, SegmentsShape, exact_size}
use kiv_pc_sw.Assembler.Types.{asm_no_error, State, Outcome, Context}
use kiv_pc_sw.Assembler.Passes.{passes_none, passes_error}
use kiv_pc_sw.Assembler.Pass1.{
  pass1_decide, decide1, pass1_data_decl, pass1_instruction, pass1_label_def, size_of,
}
use kiv_pc_sw.Assembler.Pass2.{
  pass2_decide, decide2, pass2_data_decl, pass2_instruction, pass2_instruction_ops_get, operands_of,
  GotAll, values, values_err, emit, relocate,
}
use kiv_pc_sw.Assembler.Moves.{Moves, kma-Moves, code_section-Moves, data_section-Moves, none-Moves}
use kiv_pc_sw.Assembler.Reserve.{
  pass1_data_decl-ReservesData, pass1_instruction-ReservesCode, pass1_label_def-DefinesLabel,
}
use kiv_pc_sw.Assembler.Emit.{
  pass2_segments-EmitsData, EmitsCode, operands_bytes, pass_2_instruction_ops_set-EmitsCode,
}
use kiv_pc_sw.Assembler.Operands.{ops_get-IsOperandError, operand_error_ne}
use kiv_pc_sw.Assembler.Sizes.{length-data_bytes, length-encoding, length-ops_get, length-relocate}

-- Both passes stand at the same offsets and in the same context; the second has proper buffers.
pub record Agree (s1 s2 : State) : Type 0 where
  pub code : s1.cdsg.size ≡ s2.cdsg.size
  pub data_size : s1.dtsg.size ≡ s2.dtsg.size
  pub ctx : s1.ctx ≡ s2.ctx
  pub code_buffer : IsBuffer s2.cdsg
  pub data_buffer : IsBuffer s2.dtsg

-- An instruction that the second pass wrote: the values of its operands, and the bytes.
pub record Encodes (p : Statement) (d : Descriptor) (s t : State) : Type 0 where
  pub vs : List ℕ
  pub operands : pass2_instruction_ops_get s.symtab (operands_of p.instruction) ≡ values vs
  pub emitted :
      EmitsCode s
        (d.opcode
          ∷ operands_bytes (operands_of p.instruction) (relocate d vs (Segment.get_size s.cdsg)))
        t

emit_ok :
    (p : Statement) (d : Descriptor) (m : Allocator) (s : State) (g : GotAll) {t : State}
    → pass2_instruction_ops_get s.symtab (operands_of p.instruction) ≡ g
    → IsBuffer s.cdsg
    → emit (some d) g m (operands_of p.instruction) s ≡ (asm_no_error, t)
    → Encodes p d s t
emit_ok p d m s (values vs) e b h = record {
  vs = vs;
  operands = e;
  emitted = pass_2_instruction_ops_set-EmitsCode m s d (operands_of p.instruction) _ b h;
}
emit_ok p d m s (values_err x) e b h =
    absurd (
      operand_error_ne x (ops_get-IsOperandError s.symtab _ e) (let n : x ≡ asm_no_error = cc in n))

-- If pass2_instruction ends without an error on a statement with a descriptor, and the code
-- segment is a proper buffer, then the operands have values, and the code segment gains the opcode
-- followed by the bytes of these values, the first of them made relative to the end of the
-- instruction for a relative jump; nothing else of the state changes.
pub pass2_instruction-Encodes :
    (m : Allocator) (p : Statement) (d : Descriptor) (s : State) {t : State}
    → p.instruction.descriptor ≡ some d
    → IsBuffer s.cdsg
    → pass2_instruction m p s ≡ (asm_no_error, t)
    → Encodes p d s t
unfolding pass2_instruction
pass2_instruction-Encodes m p d s e b h = emit_ok p d m s _ refl b (rw e at h)

instruction-Agree :
    (m : Allocator) (p : Statement) (d : Descriptor) {s1 s2 t1 t2 : State}
    → InstructionShape p.instruction d
    → Agree s1 s2
    → pass1_instruction p s1 ≡ (asm_no_error, t1)
    → pass2_instruction m p s2 ≡ (asm_no_error, t2)
    → Agree t1 t2
instruction-Agree m p d {s1} {s2} shape a h1 h2 =
    let size : size_of p.instruction.descriptor ≡ get_encoded_size d = rw (shape.descriptor) refl in
    let small = encoded_size_bounds d shape.row in
    let reserved = pass1_instruction-ReservesCode p s1 h1 (omega (arith, size, small)) in
    let encoded = pass2_instruction-Encodes m p d s2 shape.descriptor a.code_buffer h2 in
    let out = encoded.emitted in
    let vs' = relocate d encoded.vs (Segment.get_size s2.cdsg) in
    let long =
      length-encoding p.instruction d vs' shape
        (length-relocate d encoded.vs _ ∙ length-ops_get s2.symtab _ encoded.operands) in
    record {
      code = omega (arith, reserved.grows, out.cdsg.grows, long, size, a.code);
      data_size =
          ap (λ (x : Segment.Segment). x.size) reserved.dtsg
          ∙ a.data_size
          ∙ sym (ap (λ (x : Segment.Segment). x.size) out.dtsg);
      ctx = reserved.ctx ∙ a.ctx ∙ sym out.ctx;
      code_buffer = out.cdsg.buffer;
      data_buffer = subst IsBuffer (sym out.dtsg) a.data_buffer;
    }

data_decl-Agree :
    (m : Allocator) (p : Statement) {s1 s2 t1 t2 : State}
    → SegmentsShape p.data_decl.type p.data_decl.segments
    → p.data_decl.total_size ≡ exact_size p.data_decl.type p.data_decl.segments % 2 ^ 64
    → Agree s1 s2
    → pass1_data_decl m p s1 ≡ (asm_no_error, t1)
    → pass2_data_decl m p s2 ≡ (asm_no_error, t2)
    → Agree t1 t2
unfolding pass2_data_decl
data_decl-Agree m p {s1} {s2} shape exact a h1 h2 =
    let dd = p.data_decl in
    let reserved = pass1_data_decl-ReservesData m p s1 h1 in
    let out = pass2_segments-EmitsData m s2 dd.segments dd.type shape a.data_buffer h2 in
    let long = length-data_bytes dd.type dd.segments shape in
    let grown = out.dtsg.grows in
    let within = out.dtsg.buffer.within in
    let bounded = out.dtsg.buffer.bounded in
    let whole : dd.total_size ≡ exact_size dd.type dd.segments =
      omega (arith, exact, long, grown, within, bounded) in
    record {
      code =
          ap (λ (x : Segment.Segment). x.size) reserved.cdsg
          ∙ a.code
          ∙ sym (ap (λ (x : Segment.Segment). x.size) out.cdsg);
      data_size = omega (arith, reserved.grows, grown, long, whole, a.data_size);
      ctx = reserved.ctx ∙ a.ctx ∙ sym out.ctx;
      code_buffer = subst IsBuffer (sym out.cdsg) a.code_buffer;
      data_buffer = out.dtsg.buffer;
    }

Moves-Agree :
    {s1 s2 t1 t2 : State} {c1 c2 : Context}
    → Agree s1 s2
    → c1 ≡ c2
    → Moves s1 c1 t1
    → Moves s2 c2 t2
    → Agree t1 t2
Moves-Agree a c p q = record {
  code =
      ap (λ (x : Segment.Segment). x.size) p.cdsg
      ∙ a.code
      ∙ sym (ap (λ (x : Segment.Segment). x.size) q.cdsg);
  data_size =
      ap (λ (x : Segment.Segment). x.size) p.dtsg
      ∙ a.data_size
      ∙ sym (ap (λ (x : Segment.Segment). x.size) q.dtsg);
  ctx = p.ctx ∙ c ∙ sym q.ctx;
  code_buffer = subst IsBuffer (sym q.cdsg) a.code_buffer;
  data_buffer = subst IsBuffer (sym q.dtsg) a.data_buffer;
}

label_def-Agree :
    (m : Allocator) (p : Statement) {s1 s2 t1 t2 : State}
    → Agree s1 s2
    → pass1_label_def m p s1 ≡ (asm_no_error, t1)
    → ◌≡◌ {A = Outcome} (asm_no_error, s2) (asm_no_error, t2)
    → Agree t1 t2
label_def-Agree m p {s1} {s2} a h1 h2 =
    let defined = pass1_label_def-DefinesLabel m p s1 h1 in
    let q = none-Moves s2 h2 in
    record {
      code = defined.cdsg_size ∙ a.code ∙ sym (ap (λ (x : Segment.Segment). x.size) q.cdsg);
      data_size =
          ap (λ (x : Segment.Segment). x.size) defined.dtsg
          ∙ a.data_size
          ∙ sym (ap (λ (x : Segment.Segment). x.size) q.dtsg);
      ctx = defined.ctx ∙ a.ctx ∙ sym q.ctx;
      code_buffer = subst IsBuffer (sym q.cdsg) a.code_buffer;
      data_buffer = subst IsBuffer (sym q.dtsg) a.data_buffer;
    }

decide-Agree :
    (type : StatementType) (m : Allocator) (p : Statement) {s1 s2 t1 t2 : State}
    → SoundType type p
    → Agree s1 s2
    → decide1 type m p s1 ≡ (asm_no_error, t1)
    → decide2 type m p s2 ≡ (asm_no_error, t2)
    → Agree t1 t2
unfolding passes_none passes_error
decide-Agree stmt_kma m p h a e1 e2 = Moves-Agree a refl (kma-Moves _ e1) (kma-Moves _ e2)
decide-Agree stmt_section_code m p h a e1 e2 =
    Moves-Agree a refl (code_section-Moves _ e1) (code_section-Moves _ e2)
decide-Agree stmt_section_data m p h a e1 e2 =
    Moves-Agree a refl (data_section-Moves _ e1) (data_section-Moves _ e2)
decide-Agree stmt_data_decl m p h a e1 e2 = data_decl-Agree m p h.0 h.1 a e1 e2
decide-Agree stmt_instruction m p h a e1 e2 = instruction-Agree m p h.0 h.1 a e1 e2
decide-Agree stmt_label_def m p h a e1 e2 = label_def-Agree m p a e1 e2
decide-Agree stmt_none m p h a e1 e2 = Moves-Agree a a.ctx (none-Moves _ e1) (none-Moves _ e2)
decide-Agree stmt_error m p h a e1 e2 = cc

-- One sound statement that both passes accept keeps them at the same offsets and in the same
-- context, with proper buffers in the second. The size of a declaration may be cut by size_t
-- arithmetic: then the second pass does not accept it.
pub pass_decide-Agree :
    (m : Allocator) (p : Statement) {s1 s2 t1 t2 : State}
    → IsSound p
    → Agree s1 s2
    → pass1_decide m p s1 ≡ (asm_no_error, t1)
    → pass2_decide m p s2 ≡ (asm_no_error, t2)
    → Agree t1 t2
unfolding pass1_decide pass2_decide
pass_decide-Agree m p h a e1 e2 = decide-Agree p.type m p h a e1 e2
