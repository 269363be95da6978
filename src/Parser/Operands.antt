-- ===== src/Parser/Operands.antt =====
-- parser/instruction.c: the operands of an instruction line. A setter returns none for its 0.
use kiv_pc_sw.Prelude.{
  ℕ, ◌+◌, ltb, [], ◌∷◌, List, Option, none, some, if◌then◌else◌, get_elem?, drop,
}
use kiv_pc_sw.Common.{max_identifier_len, max_register_name_len}
use kiv_pc_sw.Instruction.{op_none, op_reg, op_imm32}
use kiv_pc_sw.Lexer.Token.{TokenType, Token}
use kiv_pc_sw.Parser.Statement.{
  Statement, InstructionStatement, Operand, ops_none, ops_offset, ops_label,
}
use kiv_pc_sw.Parser.TokenHelpers.{
  token_is_eof, tokens_start_with, token_copy_value, token_parse_int32,
}

-- enum Err_Grm
pub data ErrGrm : Type 0 where
  grm_match grm_no_match grm_generic_error : ErrGrm

-- An index of operands[2].
pub data OperandIdx : Type 0 where
  first second : OperandIdx

abbrev idx_number : OperandIdx → ℕ
idx_number first = 0
idx_number second = 1

abbrev operand_at : InstructionStatement → OperandIdx → Operand
operand_at is first = is.operand0
operand_at is second = is.operand1

abbrev with_operand : InstructionStatement → OperandIdx → Operand → InstructionStatement
with_operand is first op = record is { operand0 = op }
with_operand is second op = record is { operand1 = op }

unfoldable pub set_op_count : InstructionStatement → OperandIdx → InstructionStatement
set_op_count is idx =
    if ltb is.operand_count (idx_number idx + 1)
    then record is { operand_count = idx_number idx + 1 }
    else is

unfoldable pub set_ops_none : InstructionStatement → InstructionStatement
set_ops_none is = record is {
  operand_count = 0;
  operand0 = record (is.operand0) { type = op_none };
  operand1 = record (is.operand1) { type = op_none };
}

unfoldable pub set_op_label :
    InstructionStatement → Token → OperandIdx → Option InstructionStatement
unfolding set_op_count
set_op_label is token idx = elim (token_copy_value token max_identifier_len) [
  | none ↦ none
  | some label ↦ some (
      with_operand (set_op_count is idx) idx
        (record (operand_at is idx) { type = op_imm32; specifier = ops_label; label = label }))
]

unfoldable pub set_op_register :
    InstructionStatement → Token → OperandIdx → Option InstructionStatement
unfolding set_op_count
set_op_register is token idx = elim (token_copy_value token max_register_name_len) [
  | none ↦ none
  | some name ↦ some (
      with_operand (set_op_count is idx) idx
        (record (operand_at is idx) { type = op_reg; specifier = ops_none; register_name = name }))
]

unfoldable pub set_op_number :
    InstructionStatement → Token → OperandIdx → Option InstructionStatement
unfolding set_op_count
set_op_number is token idx = elim (token_parse_int32 token) [
  | none ↦ none
  | some value ↦ some (
      with_operand (set_op_count is idx) idx (record (operand_at is idx) {
        type = op_imm32;
        specifier = ops_none;
        immediate_value = value;
      }))
]

unfoldable pub set_op_offset :
    InstructionStatement → Token → OperandIdx → Option InstructionStatement
unfolding set_op_count
set_op_offset is token idx = elim (token_copy_value token max_identifier_len) [
  | none ↦ none
  | some label ↦ some (
      with_operand (set_op_count is idx) idx
        (record (operand_at is idx) { type = op_imm32; specifier = ops_offset; label = label }))
]

-- RETURN_IF_FAIL (setter, GRM_GENERIC_ERROR); return GRM_MATCH, at the token that stands at `i`.
abbrev pub set_or_error :
    Statement
    → (InstructionStatement → Token → OperandIdx → Option InstructionStatement)
    → List Token
    → ℕ
    → OperandIdx
    → ErrGrm × Statement
set_or_error pstmt setter tokens i idx = elim (get_elem? tokens i) [
  | none ↦ (grm_generic_error, pstmt)
  | some token ↦ elim (setter pstmt.instruction token idx) [
    | none ↦ (grm_generic_error, pstmt)
    | some is ↦ (grm_match, record pstmt { instruction = is })
  ]
]

unfoldable pub grammar_instruction_rhs_after : Statement → List Token → ErrGrm × Statement
unfolding tokens_start_with set_op_register set_op_number set_op_offset
grammar_instruction_rhs_after pstmt tokens =
    if tokens_start_with tokens (TokenType.register ∷ TokenType.eof ∷ [])
    then set_or_error pstmt set_op_register tokens 0 second
    else if tokens_start_with tokens (TokenType.number ∷ TokenType.eof ∷ [])
    then set_or_error pstmt set_op_number tokens 0 second
    else if tokens_start_with tokens (TokenType.offset ∷ TokenType.identifier ∷ TokenType.eof ∷ [])
    then set_or_error pstmt set_op_offset tokens 1 second
    else (grm_no_match, pstmt)

abbrev pub register_first : ErrGrm × Statement → List Token → ErrGrm × Statement
register_first (grm_match, pstmt) tokens = set_or_error pstmt set_op_register tokens 0 first
register_first (_, pstmt) tokens = (grm_no_match, pstmt)

unfoldable pub grammar_instruction_rhs : Statement → List Token → ErrGrm × Statement
unfolding tokens_start_with set_ops_none set_op_label set_op_register set_op_number
    grammar_instruction_rhs_after
grammar_instruction_rhs pstmt tokens =
    if token_is_eof (get_elem? tokens 0)
    then (grm_match, record pstmt { instruction = set_ops_none pstmt.instruction })
    else if tokens_start_with tokens (TokenType.label ∷ TokenType.eof ∷ [])
    then set_or_error pstmt set_op_label tokens 0 first
    else if tokens_start_with tokens (TokenType.register ∷ TokenType.eof ∷ [])
    then set_or_error pstmt set_op_register tokens 0 first
    else if tokens_start_with tokens (TokenType.number ∷ TokenType.eof ∷ [])
    then set_or_error pstmt set_op_number tokens 0 first
    else if tokens_start_with tokens (TokenType.register ∷ TokenType.comma ∷ [])
    then register_first (grammar_instruction_rhs_after pstmt (drop 2 tokens)) tokens
    else (grm_no_match, pstmt)
