-- ===== src/Parser/InstructionBlocks.antt =====
-- The blocks of instructions, which have none of their own.
use kiv_pc_sw.Prelude.{
  ℕ, ◌≡◌, refl, Bool, true, false, [], ◌∷◌, List, Option, none, some, arith, if◌then◌else◌,
  get_elem?, drop,
}
use kiv_pc_sw.Instruction
use kiv_pc_sw.Lexer.Token.{TokenType, Token}
use kiv_pc_sw.Parser.Statement.{Statement, InstructionStatement, stmt_instruction, par_no_error}
use kiv_pc_sw.Parser.TokenHelpers.{token_is, token_is_eof, tokens_start_with}
use kiv_pc_sw.Parser.Operands.{
  OperandIdx, first, second, set_op_label, set_op_register, set_op_number, set_op_offset, ErrGrm,
  grm_match, grm_no_match, grm_generic_error, set_or_error, register_first,
  grammar_instruction_rhs_after, grammar_instruction_rhs,
}
use kiv_pc_sw.Parser.Grammar.{found, instruction_after, grammar_line_instruction}
use kiv_pc_sw.Parser.Owned.{either_leaves, option_leaves}
use kiv_pc_sw.Parser.Settled.{Settled, Settled-Balanced, Leaves}

-- The setters of operands change the instruction alone.
set_or_error-Settled :
    (p : Statement)
    (setter : InstructionStatement → Token → OperandIdx → Option InstructionStatement)
    (tokens : List Token) (i : ℕ) (idx : OperandIdx)
    → Settled p
    → Settled (set_or_error p setter tokens i idx).1
set_or_error-Settled p setter tokens i idx s =
    option_leaves Settled (get_elem? tokens i) _ _ s (λ token.
      option_leaves Settled (setter p.instruction token idx) _ _ s
        (λ is. record { type = s.type; held = s.held }))

rhs_after-Settled :
    (p : Statement) (tokens : List Token)
    → Settled p
    → Settled (grammar_instruction_rhs_after p tokens).1
unfolding grammar_instruction_rhs_after
rhs_after-Settled p tokens s =
    either_leaves Settled (tokens_start_with tokens (TokenType.register ∷ TokenType.eof ∷ [])) _ _
      (set_or_error-Settled p set_op_register tokens 0 second s)
      (either_leaves Settled (tokens_start_with tokens (TokenType.number ∷ TokenType.eof ∷ [])) _ _
        (set_or_error-Settled p set_op_number tokens 0 second s)
        (either_leaves Settled
          (tokens_start_with tokens (TokenType.offset ∷ TokenType.identifier ∷ TokenType.eof ∷ []))
          _ _ (set_or_error-Settled p set_op_offset tokens 1 second s) s))

register_first-Settled :
    (r : ErrGrm × Statement) (tokens : List Token)
    → Settled r.1
    → Settled (register_first r tokens).1
register_first-Settled (grm_match, p) tokens s =
    set_or_error-Settled p set_op_register tokens 0 first s
register_first-Settled (grm_no_match, p) tokens s = s
register_first-Settled (grm_generic_error, p) tokens s = s

rhs-Settled :
    (p : Statement) (tokens : List Token) → Settled p → Settled (grammar_instruction_rhs p tokens).1
unfolding grammar_instruction_rhs
rhs-Settled p tokens s =
    either_leaves Settled (token_is_eof (get_elem? tokens 0)) _ _
      (record { type = s.type; held = s.held })
      (either_leaves Settled (tokens_start_with tokens (TokenType.label ∷ TokenType.eof ∷ [])) _ _
        (set_or_error-Settled p set_op_label tokens 0 first s)
        (either_leaves Settled (tokens_start_with tokens (TokenType.register ∷ TokenType.eof ∷ []))
          _ _ (set_or_error-Settled p set_op_register tokens 0 first s)
          (either_leaves Settled (tokens_start_with tokens (TokenType.number ∷ TokenType.eof ∷ []))
            _ _ (set_or_error-Settled p set_op_number tokens 0 first s)
            (either_leaves Settled
              (tokens_start_with tokens (TokenType.register ∷ TokenType.comma ∷ [])) _ _
              (register_first-Settled (grammar_instruction_rhs_after p (drop 2 tokens)) tokens
                (rhs_after-Settled p (drop 2 tokens) s))
              s))))

described-Settled :
    (d : Option Instruction.Descriptor) (q : Statement)
    → Settled q
    → let typed : Statement = record q {
      type = stmt_instruction;
      err = par_no_error;
      instruction = record (q.instruction) { descriptor = d };
    } in
      Leaves Settled (elim d [ none ↦ (grm_generic_error, typed) | some _ ↦ (grm_match, typed) ])
described-Settled none q s = record { type = λ e. cc; held = s.held }
described-Settled (some d) q s = Settled-Balanced _ (record { type = λ e. cc; held = s.held })

instruction_after-Leaves :
    (r : ErrGrm × Statement) (tokens : List Token)
    → Settled r.1
    → Leaves Settled (instruction_after r tokens)
instruction_after-Leaves (grm_match, q) tokens s =
    described-Settled (found (get_elem? tokens 0) q) q s
instruction_after-Leaves (grm_no_match, q) tokens s = s
instruction_after-Leaves (grm_generic_error, q) tokens s = s

-- A token has one type.
pub not_other :
    (o : Option Token)
    → token_is o TokenType.identifier ≡ true
    → (token_is o TokenType.instruction ≡ false) × (token_is_eof o ≡ false)
not_other none h = (refl, refl)
not_other (some token) h = (ground arith, ground arith)

-- The last two alternatives, from where the identifier's has been tried.
pub instruction-Leaves :
    (p : Statement) (tokens : List Token)
    → Settled p
    → Leaves Settled (grammar_line_instruction p tokens)
unfolding grammar_line_instruction
instruction-Leaves p tokens s = go (token_is (get_elem? tokens 0) TokenType.instruction)
  where
    go :
        (b : Bool)
        → Leaves Settled (
            if b
            then instruction_after (grammar_instruction_rhs p (drop 1 tokens)) tokens
            else (grm_no_match, p))
    go true = instruction_after-Leaves _ tokens (rhs-Settled p (drop 1 tokens) s)
    go false = s
