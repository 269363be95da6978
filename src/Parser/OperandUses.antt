-- ===== src/Parser/OperandUses.antt =====
-- The operands that the setters of parser/instruction.c leave behind: their types go with their count.
use kiv_pc_sw.Prelude.{
  ℕ, ◌≡◌, refl, ◌∙◌, sym, ap, subst, ◌≢◌, Option, none, some, arith, if◌then◌else◌, ltb,
}
use kiv_pc_sw.Instruction.{op_none, op_reg, op_imm32, OperandType}
use kiv_pc_sw.Lexer.Token.{Token}
use kiv_pc_sw.Parser.Statement.{Statement, InstructionStatement}
use kiv_pc_sw.Parser.Operands.{
  ErrGrm, grm_match, grm_generic_error, OperandIdx, first, second, set_op_label, set_op_register,
  set_op_number, set_op_offset,
}
use kiv_pc_sw.Parser.Shape.{used, Ordered}

abbrev Setter : Type 0
Setter = InstructionStatement → Token → OperandIdx → Option InstructionStatement

-- What holds of every statement that the setter leaves holds after a match.
set_some :
    {P : InstructionStatement → Type 0} (o : Option InstructionStatement) (pstmt : Statement)
    {p : Statement}
    → ((is : InstructionStatement) → o ≡ some is → P is)
    → ◌≡◌ {A = ErrGrm × Statement}
        (elim o [
          | none ↦ (grm_generic_error, pstmt)
          | some is ↦ (grm_match, record pstmt { instruction = is })
        ])
        (grm_match, p)
    → P p.instruction
set_some none pstmt f h = cc
set_some {P} (some is) pstmt f h =
    subst P (ap (λ (r : ErrGrm × Statement). r.1.instruction) h) (f is refl)

pub set_match :
    {P : InstructionStatement → Type 0} (o : Option Token) (pstmt : Statement) (setter : Setter)
    (idx : OperandIdx) {p : Statement}
    → ((token : Token) (is : InstructionStatement)
        → setter pstmt.instruction token idx ≡ some is
        → P is)
    → ◌≡◌ {A = ErrGrm × Statement}
        (elim o [
          | none ↦ (grm_generic_error, pstmt)
          | some token ↦ elim (setter pstmt.instruction token idx) [
            | none ↦ (grm_generic_error, pstmt)
            | some is ↦ (grm_match, record pstmt { instruction = is })
          ]
        ])
        (grm_match, p)
    → P p.instruction
set_match none pstmt setter idx f h = cc
set_match {P} (some token) pstmt setter idx f h = set_some {P = P} _ pstmt (f token) h

-- The types of the operands and their count.
pub record Uses (is : InstructionStatement) (t0 t1 : OperandType) (n : ℕ) : Type 0 where
  pub type0 : is.operand0.type ≡ t0
  pub type1 : is.operand1.type ≡ t1
  pub count : is.operand_count ≡ n

pub register_is_first :
    (is : InstructionStatement) (token : Token) (t0 t1 : OperandType) (n : ℕ)
    {is' : InstructionStatement}
    → Uses is t0 t1 n
    → set_op_register is token first ≡ some is'
    → Uses is' op_reg t1 (if ltb n 1 then 1 else n)
unfolding set_op_register
register_is_first is token t0 t1 n {is'} s h = record {
  type0 = ground (arith, s.type0);
  type1 = ground (arith, s.type1);
  count = ground (arith, s.count);
}

-- The counts and types that go together.
pub record OperandsShape (is : InstructionStatement) : Type 0 where
  pub count : is.operand_count ≡ used is.operand0.type is.operand1.type
  pub ordered : Ordered is.operand0.type is.operand1.type

pub Uses-OperandsShape :
    (t0 t1 : OperandType) (is : InstructionStatement) (n : ℕ)
    → Uses is t0 t1 n
    → n ≡ used t0 t1
    → Ordered t0 t1
    → OperandsShape is
Uses-OperandsShape t0 t1 is n u h o = record {
  count = u.count ∙ h ∙ (λ i. used (sym u.type0 i) (sym u.type1 i));
  ordered =
      subst (λ t. Ordered t is.operand1.type) (sym u.type0) (subst (Ordered t0) (sym u.type1) o);
}

-- An untouched statement, as the parser begins with.
abbrev pub IsBlank : InstructionStatement → Type 0
IsBlank is = Uses is op_none op_none 0

pub label_alone :
    (is : InstructionStatement) (token : Token) {is' : InstructionStatement}
    → IsBlank is
    → set_op_label is token first ≡ some is'
    → Uses is' op_imm32 op_none 1
unfolding set_op_label
label_alone is token {is'} s h = record {
  type0 = ground (arith, s.type0);
  type1 = ground (arith, s.type1);
  count = ground (arith, s.count);
}

pub number_alone :
    (is : InstructionStatement) (token : Token) {is' : InstructionStatement}
    → IsBlank is
    → set_op_number is token first ≡ some is'
    → Uses is' op_imm32 op_none 1
unfolding set_op_number
number_alone is token {is'} s h = record {
  type0 = ground (arith, s.type0);
  type1 = ground (arith, s.type1);
  count = ground (arith, s.count);
}

-- The second operand, set before the first.
abbrev pub Behind : InstructionStatement → Type 0
Behind is = (t : OperandType) × (t ≢ op_none) × Uses is op_none t 2

pub register-Behind :
    (is : InstructionStatement) (token : Token) {is' : InstructionStatement}
    → IsBlank is
    → set_op_register is token second ≡ some is'
    → Behind is'
unfolding set_op_register
register-Behind is token {is'} s h = (
  op_reg,
  (λ e. cc),
  record {
    type0 = ground (arith, s.type0);
    type1 = ground (arith, s.type1);
    count = ground (arith, s.count);
  },
)

pub number-Behind :
    (is : InstructionStatement) (token : Token) {is' : InstructionStatement}
    → IsBlank is
    → set_op_number is token second ≡ some is'
    → Behind is'
unfolding set_op_number
number-Behind is token {is'} s h = (
  op_imm32,
  (λ e. cc),
  record {
    type0 = ground (arith, s.type0);
    type1 = ground (arith, s.type1);
    count = ground (arith, s.count);
  },
)

pub offset-Behind :
    (is : InstructionStatement) (token : Token) {is' : InstructionStatement}
    → IsBlank is
    → set_op_offset is token second ≡ some is'
    → Behind is'
unfolding set_op_offset
offset-Behind is token {is'} s h = (
  op_imm32,
  (λ e. cc),
  record {
    type0 = ground (arith, s.type0);
    type1 = ground (arith, s.type1);
    count = ground (arith, s.count);
  },
)
