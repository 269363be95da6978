-- ===== src/Assembler/Emit.antt =====
-- What a successful step of the second pass writes: the bytes that a declaration or an instruction
-- stands for, behind those already written, and nothing else of the state.
use kiv_pc_sw.Prelude.{arith}
use kiv_pc_sw.Prelude.{
  ℕ, ◌*◌, ◌%◌, ◌^◌, ◌≡◌, refl, ◌∙◌, subst, Bool, true, false, List, [], ◌∷◌, ◌++◌, replicate,
}
use kiv_pc_sw.Common.{Allocator}
use kiv_pc_sw.Segment.{Segment, IsBuffer, word_bytes, app_op, app_reg, app_b}
use kiv_pc_sw.Segment.Append.{app_b-Appended, app_imm-Appended}
use kiv_pc_sw.Dataseg.Append.{
  Extends, Extends-nil, Extends-trans, Appended-Extends, app_dw-Appended, app_zs-Extends,
  app_str-Appended, app_b_n-Appended, app_dw_n-Extends, repeated,
}
use kiv_pc_sw.Instruction.{OperandType, op_reg, Descriptor}
use kiv_pc_sw.Parser.Statement.{
  InitSegment, InitSegmentType, init_seg_value, init_seg_dup, init_seg_string, init_seg_uninit,
  DataType, data_dword, data_byte, Operand,
}
use kiv_pc_sw.Parser.Segments.{element_size}
use kiv_pc_sw.Parser.Shape.{ElementCount, SegmentsShape}
use kiv_pc_sw.Assembler.Types.{asm_no_error, State, Outcome}
use kiv_pc_sw.Assembler.Pass2.{
  dtsg_outcome, cdsg_outcome, pass2_data_decl_uninit, pass2_data_decl_value, pass2_data_decl_string,
  pass2_data_decl_dup, pass2_segment_of, pass2_segment, and_then, pass2_segments, app_operand,
  app_operands, pass_2_instruction_ops_set,
}

-- A step that goes on only after ASM_NO_ERROR: both parts ended well.
pub and_then_ok :
    (o : Outcome) (next : State → Outcome) {t : State}
    → and_then o next ≡ (asm_no_error, t)
    → (s : State) × (o ≡ (asm_no_error, s)) × (next s ≡ (asm_no_error, t))
and_then_ok (asm_no_error, s) next h = (s, refl, h)
and_then_ok (_, s) next h = cc

-- The data segment gained `bs`.
pub record EmitsData (s : State) (bs : List ℕ) (t : State) : Type 0 where
  pub dtsg : Extends s.dtsg bs t.dtsg
  pub cdsg : t.cdsg ≡ s.cdsg
  pub symtab : t.symtab ≡ s.symtab
  pub ctx : t.ctx ≡ s.ctx

-- The code segment gained `bs`.
pub record EmitsCode (s : State) (bs : List ℕ) (t : State) : Type 0 where
  pub cdsg : Extends s.cdsg bs t.cdsg
  pub dtsg : t.dtsg ≡ s.dtsg
  pub symtab : t.symtab ≡ s.symtab
  pub ctx : t.ctx ≡ s.ctx

dtsg_outcome_ok :
    (s : State) (o : Bool × Segment) (bs : List ℕ) {t : State}
    → (o.0 ≡ true → Extends s.dtsg bs o.1)
    → dtsg_outcome s o ≡ (asm_no_error, t)
    → EmitsData s bs t
dtsg_outcome_ok s (true, d) bs {t} e h =
    let same : record s { dtsg = d } ≡ t = cc in
    subst (EmitsData s bs) same (record { dtsg = e refl; cdsg = refl; symtab = refl; ctx = refl })
dtsg_outcome_ok s (false, d) bs e h = cc

cdsg_outcome_ok :
    (s : State) (o : Bool × Segment) (bs : List ℕ) {t : State}
    → (o.0 ≡ true → Extends s.cdsg bs o.1)
    → cdsg_outcome s o ≡ (asm_no_error, t)
    → EmitsCode s bs t
cdsg_outcome_ok s (true, c) bs {t} e h =
    let same : record s { cdsg = c } ≡ t = cc in
    subst (EmitsCode s bs) same (record { cdsg = e refl; dtsg = refl; symtab = refl; ctx = refl })
cdsg_outcome_ok s (false, c) bs e h = cc

-- The bytes that an init segment stands for.
abbrev pub bytes_of : InitSegmentType → DataType → InitSegment → List ℕ
bytes_of init_seg_uninit dt seg = replicate (seg.element_count * element_size dt % 2 ^ 64) 0
bytes_of init_seg_value data_byte seg = (seg.value % 256) ∷ []
bytes_of init_seg_value data_dword seg = word_bytes seg.value
bytes_of init_seg_string dt seg = seg.string
bytes_of init_seg_dup data_byte seg = replicate seg.dup_count (seg.dup_value % 256)
bytes_of init_seg_dup data_dword seg = repeated seg.dup_value seg.dup_count

unfoldable pub segment_bytes : DataType → InitSegment → List ℕ
segment_bytes dt seg = bytes_of seg.type dt seg

unfoldable pub data_bytes : DataType → List InitSegment → List ℕ
data_bytes dt [] = []
data_bytes dt (seg ∷ segs) = segment_bytes dt seg ++ data_bytes dt segs

segment_of-EmitsData :
    (type : InitSegmentType) (dt : DataType) (m : Allocator) (s : State) (seg : InitSegment)
    {t : State}
    → ElementCount type dt seg
    → IsBuffer s.dtsg
    → pass2_segment_of type m s seg dt ≡ (asm_no_error, t)
    → EmitsData s (bytes_of type dt seg) t
unfolding pass2_data_decl_uninit pass2_data_decl_value pass2_data_decl_string pass2_data_decl_dup
segment_of-EmitsData init_seg_uninit dt m s seg f b =
    dtsg_outcome_ok s _ _ (app_zs-Extends m s.dtsg _ b)
segment_of-EmitsData init_seg_value data_byte m s seg f b =
    dtsg_outcome_ok s _ _ (Appended-Extends (app_b-Appended m s.dtsg _ b))
segment_of-EmitsData init_seg_value data_dword m s seg f b =
    dtsg_outcome_ok s _ _ (Appended-Extends (app_dw-Appended m s.dtsg _ b))
segment_of-EmitsData init_seg_string dt m s seg f b =
    dtsg_outcome_ok s _ _ (Appended-Extends (app_str-Appended m s.dtsg _ b (omega arith)))
segment_of-EmitsData init_seg_dup data_byte m s seg f b =
    dtsg_outcome_ok s _ _ (Appended-Extends (app_b_n-Appended m s.dtsg _ _ b f.1))
segment_of-EmitsData init_seg_dup data_dword m s seg f b =
    dtsg_outcome_ok s _ _ (app_dw_n-Extends m s.dtsg _ _ b)

pub EmitsData-trans :
    {s t u : State} {xs ys : List ℕ}
    → EmitsData s xs t
    → EmitsData t ys u
    → EmitsData s (xs ++ ys) u
EmitsData-trans p q = record {
  dtsg = Extends-trans p.dtsg q.dtsg;
  cdsg = q.cdsg ∙ p.cdsg;
  symtab = q.symtab ∙ p.symtab;
  ctx = q.ctx ∙ p.ctx;
}

pub EmitsCode-trans :
    {s t u : State} {xs ys : List ℕ}
    → EmitsCode s xs t
    → EmitsCode t ys u
    → EmitsCode s (xs ++ ys) u
EmitsCode-trans p q = record {
  cdsg = Extends-trans p.cdsg q.cdsg;
  dtsg = q.dtsg ∙ p.dtsg;
  symtab = q.symtab ∙ p.symtab;
  ctx = q.ctx ∙ p.ctx;
}

-- If the segments of a data declaration have element counts that go with their types
-- (SegmentsShape), the data segment is a proper buffer, and the loop of pass2_data_decl ends
-- without an error, then the bytes of the segments, in order, are appended to the data segment,
-- which stays a proper buffer; the code segment, the symbol table and the context do not change.
pub pass2_segments-EmitsData :
    (m : Allocator) (s : State) (segs : List InitSegment) (dt : DataType) {t : State}
    → SegmentsShape dt segs
    → IsBuffer s.dtsg
    → pass2_segments m s segs dt ≡ (asm_no_error, t)
    → EmitsData s (data_bytes dt segs) t
unfolding pass2_segments pass2_segment data_bytes segment_bytes
pass2_segments-EmitsData m s [] dt {t} f b h =
    subst (EmitsData s []) (let same : s ≡ t = cc in same)
      (record { dtsg = Extends-nil s.dtsg b; cdsg = refl; symtab = refl; ctx = refl })
pass2_segments-EmitsData m s (seg ∷ segs) dt f b h =
    let (mid, one, more) =
      and_then_ok (pass2_segment_of seg.type m s seg dt) (λ s'. pass2_segments m s' segs dt) h in
    let first = segment_of-EmitsData seg.type dt m s seg f.0 b one in
    EmitsData-trans first (pass2_segments-EmitsData m mid segs dt f.1 first.dtsg.buffer more)

-- The bytes of an operand: one for a register, four for a word.
abbrev pub operand_bytes : OperandType → ℕ → List ℕ
operand_bytes op_reg v = (v % 256) ∷ []
operand_bytes _ v = word_bytes v

unfoldable pub operands_bytes : List Operand → List ℕ → List ℕ
operands_bytes [] vs = []
operands_bytes (op ∷ ops) [] = []
operands_bytes (op ∷ ops) (v ∷ vs) = operand_bytes op.type v ++ operands_bytes ops vs

operand-EmitsCode :
    (type : OperandType) (m : Allocator) (s : State) (v : ℕ) {t : State}
    → IsBuffer s.cdsg
    → app_operand type m s v ≡ (asm_no_error, t)
    → EmitsCode s (operand_bytes type v) t
unfolding app_reg
operand-EmitsCode op_reg m s v b =
    cdsg_outcome_ok s _ _ (Appended-Extends (app_b-Appended m s.cdsg _ b))
operand-EmitsCode _ m s v b =
    cdsg_outcome_ok s _ _ (Appended-Extends (app_imm-Appended m s.cdsg _ b))

nothing-EmitsCode :
    (s : State) {t : State}
    → IsBuffer s.cdsg
    → ◌≡◌ {A = Outcome} (asm_no_error, s) (asm_no_error, t)
    → EmitsCode s [] t
nothing-EmitsCode s {t} b h =
    subst (EmitsCode s []) (let same : s ≡ t = cc in same)
      (record { cdsg = Extends-nil s.cdsg b; dtsg = refl; symtab = refl; ctx = refl })

app_operands-EmitsCode :
    (m : Allocator) (s : State) (ops : List Operand) (vs : List ℕ) {t : State}
    → IsBuffer s.cdsg
    → app_operands m s ops vs ≡ (asm_no_error, t)
    → EmitsCode s (operands_bytes ops vs) t
unfolding app_operands operands_bytes
app_operands-EmitsCode m s [] vs b h = nothing-EmitsCode s b h
app_operands-EmitsCode m s (op ∷ ops) [] b h = nothing-EmitsCode s b h
app_operands-EmitsCode m s (op ∷ ops) (v ∷ vs) b h =
    let (mid, one, more) =
      and_then_ok (app_operand op.type m s v) (λ s'. app_operands m s' ops vs) h in
    let first = operand-EmitsCode op.type m s v b one in
    EmitsCode-trans first (app_operands-EmitsCode m mid ops vs first.cdsg.buffer more)

-- If the code segment is a proper buffer and pass_2_instruction_ops_set ends without an error, the
-- opcode and then the bytes of the operands, one for a register and four for a 32-bit value, are
-- appended to the code segment, which stays a proper buffer; the data segment, the symbol table
-- and the context do not change.
pub pass_2_instruction_ops_set-EmitsCode :
    (m : Allocator) (s : State) (d : Descriptor) (ops : List Operand) (vs : List ℕ) {t : State}
    → IsBuffer s.cdsg
    → pass_2_instruction_ops_set m s d ops vs ≡ (asm_no_error, t)
    → EmitsCode s (d.opcode ∷ operands_bytes ops vs) t
unfolding pass_2_instruction_ops_set app_op
pass_2_instruction_ops_set-EmitsCode m s d ops vs b h =
    let (mid, one, more) =
      and_then_ok (cdsg_outcome s (app_b m s.cdsg d.opcode)) (λ s'. app_operands m s' ops vs) h in
    let first =
      cdsg_outcome_ok s _ (d.opcode ∷ []) (Appended-Extends (app_b-Appended m s.cdsg d.opcode b))
        one in
    EmitsCode-trans first (app_operands-EmitsCode m mid ops vs first.cdsg.buffer more)
