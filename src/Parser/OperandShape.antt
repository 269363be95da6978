-- ===== src/Parser/OperandShape.antt =====
-- The operands that grammar_instruction_rhs leaves behind: their types go with their count, and the second is in use only behind the first.
use kiv_pc_sw.Prelude.{◌≡◌, refl, ap, subst, [], ◌∷◌, List, some, if_cases, get_elem?, drop}
use kiv_pc_sw.Instruction.{op_none, op_reg, op_imm32}
use kiv_pc_sw.Lexer.Token.{TokenType, Token}
use kiv_pc_sw.Parser.Statement.{Statement, InstructionStatement}
use kiv_pc_sw.Parser.TokenHelpers.{tokens_start_with, token_is_eof}
use kiv_pc_sw.Parser.Operands.{
  ErrGrm, grm_match, grm_no_match, grm_generic_error, first, second, set_op_label, set_op_register,
  set_op_number, set_op_offset, register_first, grammar_instruction_rhs_after,
  grammar_instruction_rhs,
}
use kiv_pc_sw.Parser.OperandUses.{
  set_match, register_is_first, OperandsShape, Uses-OperandsShape, IsBlank, label_alone,
  number_alone, Behind, register-Behind, number-Behind, offset-Behind,
}

Behind-OperandsShape :
    (is is' : InstructionStatement) (token : Token)
    → Behind is
    → set_op_register is token first ≡ some is'
    → OperandsShape is'
Behind-OperandsShape is is' token (op_none, n, u) h = absurd (n refl)
Behind-OperandsShape is is' token (op_reg, n, u) h =
    Uses-OperandsShape op_reg op_reg is' 2 (register_is_first is token op_none op_reg 2 u h) refl tt
Behind-OperandsShape is is' token (op_imm32, n, u) h =
    Uses-OperandsShape op_reg op_imm32 is' 2 (register_is_first is token op_none op_imm32 2 u h)
      refl tt

no_match_ne :
    (pstmt : Statement) {p : Statement} {Q : Type 0}
    → ◌≡◌ {A = ErrGrm × Statement} (grm_no_match, pstmt) (grm_match, p)
    → Q
no_match_ne pstmt h = absurd cc

after-Behind :
    (pstmt : Statement) (tokens : List Token) {p : Statement}
    → IsBlank pstmt.instruction
    → grammar_instruction_rhs_after pstmt tokens ≡ (grm_match, p)
    → Behind p.instruction
unfolding grammar_instruction_rhs_after
after-Behind pstmt tokens b h =
    if_cases (tokens_start_with tokens (TokenType.register ∷ TokenType.eof ∷ [])) _ _ h
      (λ t.
        set_match {P = Behind} (get_elem? tokens 0) pstmt set_op_register second
          (λ token is. register-Behind _ token b))
      (λ f h.
        if_cases (tokens_start_with tokens (TokenType.number ∷ TokenType.eof ∷ [])) _ _ h
          (λ t.
            set_match {P = Behind} (get_elem? tokens 0) pstmt set_op_number second
              (λ token is. number-Behind _ token b))
          (λ f h.
            if_cases
              (tokens_start_with tokens
                (TokenType.offset ∷ TokenType.identifier ∷ TokenType.eof ∷ []))
              _ _ h
              (λ t.
                set_match {P = Behind} (get_elem? tokens 1) pstmt set_op_offset second
                  (λ token is. offset-Behind _ token b))
              (λ f. no_match_ne pstmt)))

first_after :
    (r : ErrGrm × Statement) (tokens : List Token) {p : Statement}
    → ((q : Statement) → r ≡ (grm_match, q) → Behind q.instruction)
    → register_first r tokens ≡ (grm_match, p)
    → OperandsShape p.instruction
first_after (grm_match, q) tokens f =
    set_match {P = OperandsShape} (get_elem? tokens 0) q set_op_register first
      (λ token is. Behind-OperandsShape q.instruction is token (f q refl))
first_after (grm_no_match, q) tokens f = no_match_ne q
first_after (grm_generic_error, q) tokens f = no_match_ne q

-- Every match of grammar_instruction_rhs on an untouched statement leaves operands whose types go
-- with their count.
pub grammar_instruction_rhs-OperandsShape :
    (pstmt : Statement) (tokens : List Token) {p : Statement}
    → IsBlank pstmt.instruction
    → grammar_instruction_rhs pstmt tokens ≡ (grm_match, p)
    → OperandsShape p.instruction
unfolding grammar_instruction_rhs
grammar_instruction_rhs-OperandsShape pstmt tokens b h =
    if_cases (token_is_eof (get_elem? tokens 0)) _ _ h
      (λ t h. subst OperandsShape (ap (λ (r : ErrGrm × Statement). r.1.instruction) h) (
        Uses-OperandsShape op_none op_none _ 0 (record { type0 = refl; type1 = refl; count = refl })
          refl refl))
      (λ f h.
        if_cases (tokens_start_with tokens (TokenType.label ∷ TokenType.eof ∷ [])) _ _ h
          (λ t.
            set_match {P = OperandsShape} (get_elem? tokens 0) pstmt set_op_label first
              (λ token is h.
                Uses-OperandsShape op_imm32 op_none is 1 (label_alone _ token b h) refl tt))
          (λ f h.
            if_cases (tokens_start_with tokens (TokenType.register ∷ TokenType.eof ∷ [])) _ _ h
              (λ t.
                set_match {P = OperandsShape} (get_elem? tokens 0) pstmt set_op_register first
                  (λ token is h.
                    Uses-OperandsShape op_reg op_none is 1
                      (register_is_first _ token op_none op_none 0 b h) refl tt))
              (λ f h.
                if_cases (tokens_start_with tokens (TokenType.number ∷ TokenType.eof ∷ [])) _ _ h
                  (λ t.
                    set_match {P = OperandsShape} (get_elem? tokens 0) pstmt set_op_number first
                      (λ token is h.
                        Uses-OperandsShape op_imm32 op_none is 1 (number_alone _ token b h) refl
                          tt))
                  (λ f h.
                    if_cases (tokens_start_with tokens (TokenType.register ∷ TokenType.comma ∷ []))
                      _ _ h
                      (λ t.
                        first_after (grammar_instruction_rhs_after pstmt (drop 2 tokens)) tokens
                          (λ q. after-Behind pstmt (drop 2 tokens) b))
                      (λ f. no_match_ne pstmt)))))
