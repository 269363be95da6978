-- ===== src/Assembler/Sizes.antt =====
-- The sizes that the first pass computes are the lengths of what the second pass writes.
use kiv_pc_sw.Prelude.{
  ℕ, suc, ◌+◌, ◌*◌, ◌%◌, ◌^◌, ◌<◌, ◌≡◌, ◌≢◌, refl, sym, ap, subst, List, [], ◌∷◌, arith, length,
  length-append, length-replicate, take,
}
use kiv_pc_sw.Dataseg.Append.{length-repeated}
use kiv_pc_sw.Symbol.{SymbolTable}
use kiv_pc_sw.Instruction.{
  OperandType, op_none, op_reg, op_imm32, operand_size, Descriptor, get_encoded_size,
}
use kiv_pc_sw.Parser.Statement.{
  InitSegment, InitSegmentType, init_seg_value, init_seg_dup, init_seg_string, init_seg_uninit,
  DataType, data_dword, data_byte, Operand, InstructionStatement, DataDeclaration,
}
use kiv_pc_sw.Parser.Segments.{element_size, total_size_of, segment_set_dd_total_size}
use kiv_pc_sw.Parser.Shape.{
  used, InstructionShape, ElementCount, SegmentsShape, exact_size, Ordered,
}
use kiv_pc_sw.Assembler.Emit.{bytes_of, segment_bytes, data_bytes, operand_bytes, operands_bytes}
use kiv_pc_sw.Assembler.Pass2.{
  Got, got, got_err, GotAll, values, values_err, got_next, pass2_instruction_get_op,
  pass2_instruction_ops_get, operands_of, relocate,
}

length-bytes_of :
    (type : InitSegmentType) (dt : DataType) (seg : InitSegment)
    → ElementCount type dt seg
    → length (bytes_of type dt seg) ≡ seg.element_count * element_size dt
length-bytes_of init_seg_uninit data_byte seg h =
    omega (arith, length-replicate {A = ℕ} (seg.element_count * 1 % 2 ^ 64) 0)
length-bytes_of init_seg_uninit data_dword seg h =
    omega (arith, length-replicate {A = ℕ} (seg.element_count * 4 % 2 ^ 64) 0)
length-bytes_of init_seg_value data_byte seg h = omega arith
length-bytes_of init_seg_value data_dword seg h = omega arith
length-bytes_of init_seg_string data_byte seg h = omega arith
length-bytes_of init_seg_string data_dword seg h = cc (h.0)
length-bytes_of init_seg_dup data_byte seg h =
    omega (arith, length-replicate seg.dup_count (seg.dup_value % 256))
length-bytes_of init_seg_dup data_dword seg h =
    omega (arith, length-repeated seg.dup_value seg.dup_count)

-- The bytes that the second pass writes for the segments of a declaration, with element counts
-- that go with their types (SegmentsShape), are as many as the element counts times the element
-- size, without wrap-around.
pub length-data_bytes :
    (dt : DataType) (segs : List InitSegment)
    → SegmentsShape dt segs
    → length (data_bytes dt segs) ≡ exact_size dt segs
unfolding data_bytes segment_bytes exact_size
length-data_bytes dt [] h = refl
length-data_bytes dt (seg ∷ segs) h = omega (
  arith,
  length-append (bytes_of seg.type dt seg) (data_bytes dt segs),
  length-bytes_of seg.type dt seg h.0,
  length-data_bytes dt segs h.1,
)

total_size_of-exact_size :
    (dt : DataType) (total : ℕ) (segs : List InitSegment)
    → total < 2 ^ 64
    → total_size_of (element_size dt) total segs ≡ (total + exact_size dt segs) % 2 ^ 64
unfolding total_size_of exact_size
total_size_of-exact_size dt total [] h = omega arith
total_size_of-exact_size dt total (seg ∷ segs) h =
    let rest =
      total_size_of-exact_size dt ((total + seg.element_count * element_size dt) % 2 ^ 64) segs
        (omega arith) in
    omega arith

-- segment_set_dd_total_size sets the total size of a declaration to the sum of element count times
-- element size over its segments, modulo 2^64.
pub total_size_lem :
    (dd : DataDeclaration)
    → (segment_set_dd_total_size dd).total_size ≡ exact_size dd.type dd.segments % 2 ^ 64
unfolding segment_set_dd_total_size
total_size_lem dd = omega (arith, total_size_of-exact_size dd.type 0 dd.segments)

got_next_ok :
    (g : Got) (r : GotAll) {vs : List ℕ}
    → got_next g r ≡ values vs
    → (v : ℕ) × (ws : List ℕ) × (g ≡ got v) × (r ≡ values ws) × (vs ≡ v ∷ ws)
got_next_ok (got v) (values ws) h = (v, ws, refl, refl, cc)
got_next_ok (got v) (values_err e) h = cc
got_next_ok (got_err e) r h = cc

-- The operand values are as many as the operands.
pub length-ops_get :
    (symtab : SymbolTable) (ops : List Operand) {vs : List ℕ}
    → pass2_instruction_ops_get symtab ops ≡ values vs
    → length vs ≡ length ops
unfolding pass2_instruction_ops_get
length-ops_get symtab [] {vs} h = ap length {y = []} cc
length-ops_get symtab (op ∷ ops) {vs} h =
    let (v, ws, here, more, e) =
      got_next_ok (pass2_instruction_get_op symtab op) (pass2_instruction_ops_get symtab ops) h in
    rw e (ap suc (length-ops_get symtab ops more))

pub length-relocate :
    (d : Descriptor) (vs : List ℕ) (addr : ℕ) → length (relocate d vs addr) ≡ length vs
unfolding relocate
length-relocate d [] addr = ground arith
length-relocate d (v ∷ vs) addr = ground arith

sizes : List Operand → ℕ
sizes [] = 0
sizes (op ∷ ops) = operand_size op.type + sizes ops

abbrev AllUsed : List Operand → Type 0
AllUsed [] = Unit
AllUsed (op ∷ ops) = (op.type ≢ op_none) × AllUsed ops

length-operand_bytes :
    (t : OperandType) (v : ℕ) → t ≢ op_none → length (operand_bytes t v) ≡ operand_size t
length-operand_bytes op_none v h = absurd (h refl)
length-operand_bytes op_reg v h = refl
length-operand_bytes op_imm32 v h = refl

length-operands_bytes :
    (ops : List Operand) (vs : List ℕ)
    → AllUsed ops
    → length vs ≡ length ops
    → length (operands_bytes ops vs) ≡ sizes ops
unfolding operands_bytes sizes
length-operands_bytes [] vs u h = refl
length-operands_bytes (op ∷ ops) [] u h = absurd (omega arith)
length-operands_bytes (op ∷ ops) (v ∷ vs) u h = omega (
  arith,
  length-append (operand_bytes op.type v) (operands_bytes ops vs),
  length-operand_bytes op.type v u.0,
  length-operands_bytes ops vs u.1 (omega arith),
)

two_operands :
    (t0 t1 : OperandType) (op0 op1 : Operand)
    → op0.type ≡ t0
    → op1.type ≡ t1
    → Ordered t0 t1
    → AllUsed (take (used t0 t1) (op0 ∷ op1 ∷ []))
      × (sizes (take (used t0 t1) (op0 ∷ op1 ∷ [])) ≡ operand_size t0 + operand_size t1)
unfolding sizes
two_operands op_none op_none op0 op1 e0 e1 o = (tt, refl)
two_operands op_none op_reg op0 op1 e0 e1 o = cc
two_operands op_none op_imm32 op0 op1 e0 e1 o = cc
two_operands op_reg op_none op0 op1 e0 e1 o = (((λ e. cc), tt), rw e0 refl)
two_operands op_reg op_reg op0 op1 e0 e1 o = (((λ e. cc), ((λ e. cc), tt)), rw (e0, e1) refl)
two_operands op_reg op_imm32 op0 op1 e0 e1 o = (((λ e. cc), ((λ e. cc), tt)), rw (e0, e1) refl)
two_operands op_imm32 op_none op0 op1 e0 e1 o = (((λ e. cc), tt), rw e0 refl)
two_operands op_imm32 op_reg op0 op1 e0 e1 o = (((λ e. cc), ((λ e. cc), tt)), rw (e0, e1) refl)
two_operands op_imm32 op_imm32 op0 op1 e0 e1 o = (((λ e. cc), ((λ e. cc), tt)), rw (e0, e1) refl)

-- For an instruction statement of the shape InstructionShape, and as many operand values as
-- operands, the opcode and the operand bytes together are as long as instruction_get_encoded_size
-- says.
pub length-encoding :
    (is : InstructionStatement) (d : Descriptor) (vs : List ℕ)
    → InstructionShape is d
    → length vs ≡ length (operands_of is)
    → length (d.opcode ∷ operands_bytes (operands_of is) vs) ≡ get_encoded_size d
unfolding get_encoded_size
length-encoding is d vs shape h =
    let (all_used, sum) =
      two_operands is.operand0.type is.operand1.type is.operand0 is.operand1 refl refl
        shape.ordered in
    let count = ap (λ k. take k (is.operand0 ∷ is.operand1 ∷ [])) shape.count in
    let long = length-operands_bytes (operands_of is) vs (subst AllUsed (sym count) all_used) h in
    let s0 = ap operand_size shape.type0 in
    let s1 = ap operand_size shape.type1 in omega (arith, long, ap sizes count, sum, s0, s1)
