-- ===== src/Parser/Shape.antt =====
-- The shape of a statement that the passes rely on: how the counts of a statement go with its
-- types, as the functions of parser/segment.c and parser/instruction.c set them.
use kiv_pc_sw.Prelude.{ℕ, ◌%◌, ◌^◌, ◌+◌, ◌*◌, ◌≤◌, ◌≡◌, List, [], ◌∷◌, some, length}
use kiv_pc_sw.Common.{size_max}
use kiv_pc_sw.Instruction.{OperandType, op_none, Descriptor}
use kiv_pc_sw.Instruction.Encoding.{IsRow}
use kiv_pc_sw.Parser.Statement.{
  Statement, StatementType, stmt_data_decl, stmt_instruction, InstructionStatement, InitSegment,
  InitSegmentType, init_seg_value, init_seg_dup, init_seg_string, init_seg_uninit, DataType,
  data_byte,
}
use kiv_pc_sw.Parser.Segments.{element_size}

-- How many operands are in use.
abbrev pub used : OperandType → OperandType → ℕ
used op_none t = 0
used t op_none = 1
used t u = 2

-- The second operand is in use only behind the first.
abbrev pub Ordered : OperandType → OperandType → Type 0
Ordered op_none t = t ≡ op_none
Ordered _ t = Unit

pub record InstructionShape (is : InstructionStatement) (d : Descriptor) : Type 0 where
  pub descriptor : is.descriptor ≡ some d
  pub row : IsRow d
  pub type0 : is.operand0.type ≡ d.operand1
  pub type1 : is.operand1.type ≡ d.operand2
  pub count : is.operand_count ≡ used is.operand0.type is.operand1.type
  pub ordered : Ordered is.operand0.type is.operand1.type

-- How many elements a segment declares. A string stands among bytes only.
abbrev pub ElementCount : InitSegmentType → DataType → InitSegment → Type 0
ElementCount init_seg_uninit dt seg = seg.element_count ≡ 1
ElementCount init_seg_value dt seg = seg.element_count ≡ 1
ElementCount init_seg_string dt seg =
    (dt ≡ data_byte) × (seg.element_count ≡ length seg.string) × (length seg.string ≤ 255)
ElementCount init_seg_dup dt seg = (seg.element_count ≡ seg.dup_count) × (seg.dup_count ≤ size_max)

abbrev pub SegmentShape : DataType → InitSegment → Type 0
SegmentShape dt seg = ElementCount seg.type dt seg

abbrev pub SegmentsShape : DataType → List InitSegment → Type 0
SegmentsShape dt [] = Unit
SegmentsShape dt (seg ∷ segs) = SegmentShape dt seg × SegmentsShape dt segs

-- The bytes that a declaration stands for, as a number without bound.
unfoldable pub exact_size : DataType → List InitSegment → ℕ
exact_size dt [] = 0
exact_size dt (seg ∷ segs) = seg.element_count * element_size dt + exact_size dt segs

-- What the layout needs of a statement: counts that go with its types, and the total size of a
-- declaration in size_t arithmetic.
abbrev pub SoundType : StatementType → Statement → Type 0
SoundType stmt_data_decl p =
    SegmentsShape p.data_decl.type p.data_decl.segments
    × (p.data_decl.total_size ≡ exact_size p.data_decl.type p.data_decl.segments % 2 ^ 64)
SoundType stmt_instruction p = (d : Descriptor) × InstructionShape p.instruction d
SoundType _ p = Unit

abbrev pub IsSound : Statement → Type 0
IsSound p = SoundType p.type p
