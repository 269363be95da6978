-- ===== src/Parser/LineShape.antt =====
-- Every statement that the parser makes of a line is sound: its counts go with its types.
use kiv_pc_sw.Prelude.{
  ℕ, ◌+◌, ◌*◌, ◌≡◌, refl, sym, subst, Bool, true, false, [], ◌∷◌, List, Option, none, some, arith,
  if◌then◌else◌, get_elem?, drop, length, inl, inr, some_inj, if_cases,
}
use kiv_pc_sw.Common.{Allocator, jalloc}
use kiv_pc_sw.Instruction
use kiv_pc_sw.Instruction.Encoding.{find-IsRow}
use kiv_pc_sw.Lexer.Token.{TokenType, Token}
use kiv_pc_sw.Parser.Statement.{
  Statement, stmt_none, stmt_kma, stmt_section_data, stmt_section_code, stmt_instruction,
  par_no_error, par_empty_line, p_stmt_create,
}
use kiv_pc_sw.Parser.TokenHelpers.{token_is, token_is_eof, tokens_start_with}
use kiv_pc_sw.Parser.Operands.{
  ErrGrm, grm_match, grm_no_match, grm_generic_error, grammar_instruction_rhs,
}
use kiv_pc_sw.Parser.Grammar.{
  grammar_line_kma, grammar_line_code, grammar_line_data, copied, grammar_line_label,
  grammar_line_identifier, found, instruction_after, grammar_line_instruction, or_else, empty_line,
  grammar_line, matched, parse_tokens, convert_parse_tokens, statement_size,
}
use kiv_pc_sw.Parser.Shape.{IsSound, InstructionShape}
use kiv_pc_sw.Parser.OperandUses.{OperandsShape}
use kiv_pc_sw.Parser.OperandShape.{grammar_instruction_rhs-OperandsShape}
use kiv_pc_sw.Parser.NamedShape.{
  Fresh, Step, or_else-Step, section_Step, label_Step, Spoilt, identifier_Step,
}

row_of :
    (o : Option Token) (p : Statement) (d : Instruction.Descriptor)
    → found o p ≡ some d
    → OperandsShape p.instruction
    → InstructionShape (record (p.instruction) { descriptor = some d }) d
row_of none p d h s = absurd cc
row_of (some token) p d h s =
    let (row, one, two) =
      find-IsRow token.value (length token.value) p.instruction.operand0.type
        p.instruction.operand1.type h in
    record {
      descriptor = refl;
      row = row;
      type0 = sym one;
      type1 = sym two;
      count = s.count;
      ordered = s.ordered;
    }

abbrev Any : Statement → Type 0
Any q = Unit

described_Step :
    (d : Option Instruction.Descriptor) (o : Option Token) (p : Statement)
    → found o p ≡ d
    → OperandsShape p.instruction
    → let typed : Statement = record p {
      type = stmt_instruction;
      err = par_no_error;
      instruction = record (p.instruction) { descriptor = d };
    } in
      Step Any (elim d [ none ↦ (grm_generic_error, typed) | some _ ↦ (grm_match, typed) ])
described_Step none o p e s = tt
described_Step (some d) o p e s = (d, row_of o p d e s)

instruction_after-Step :
    (r : ErrGrm × Statement) (tokens : List Token)
    → ((q : Statement) → r ≡ (grm_match, q) → OperandsShape q.instruction)
    → Step Any (instruction_after r tokens)
instruction_after-Step (grm_match, q) tokens f =
    described_Step (found (get_elem? tokens 0) q) (get_elem? tokens 0) q refl (f q refl)
instruction_after-Step (grm_no_match, q) tokens f = tt
instruction_after-Step (grm_generic_error, q) tokens f = tt

-- A token has one type.
not_instruction :
    (o : Option Token)
    → token_is o TokenType.identifier ≡ true
    → token_is o TokenType.instruction ≡ false
not_instruction none h = refl
not_instruction (some token) h = ground arith

instruction_Step :
    (b : Bool) (p : Statement) (tokens : List Token)
    → token_is (get_elem? tokens 0) TokenType.instruction ≡ b
    → Spoilt tokens p
    → Step Any (
        if b
        then instruction_after (grammar_instruction_rhs p (drop 1 tokens)) tokens
        else (grm_no_match, p))
instruction_Step true p tokens e (inl named) =
    absurd (let not = not_instruction (get_elem? tokens 0) named in cc)
instruction_Step true p tokens e (inr fresh) =
    instruction_after-Step _ tokens
      (λ q. grammar_instruction_rhs-OperandsShape p (drop 1 tokens) fresh.0)
instruction_Step false p tokens e s = tt

empty_Step :
    (b : Bool) (p : Statement)
    → Step Any (
        if b
        then (grm_match, record p { type = stmt_none; err = par_empty_line })
        else (grm_no_match, p))
empty_Step true p = tt
empty_Step false p = tt

module _ (m : Allocator) (tokens : List Token) where
  -- What is left of grammar_line behind each alternative.
  abbrev behind_identifier : Statement → ErrGrm × Statement
  behind_identifier p = or_else (grammar_line_instruction p tokens) (empty_line tokens)

  abbrev behind_label : Statement → ErrGrm × Statement
  behind_label p = or_else (grammar_line_identifier m p tokens) behind_identifier

  abbrev behind_data : Statement → ErrGrm × Statement
  behind_data p = or_else (grammar_line_label p tokens) behind_label

  abbrev behind_code : Statement → ErrGrm × Statement
  behind_code p = or_else (grammar_line_data p tokens) behind_data

  abbrev behind_kma : Statement → ErrGrm × Statement
  behind_kma p = or_else (grammar_line_code p tokens) behind_code

  line_Step : (p : Statement) → Fresh p → Step Any (grammar_line m p tokens)
  unfolding grammar_line grammar_line_kma grammar_line_code grammar_line_data grammar_line_label
      grammar_line_instruction
  line_Step p f =
      or_else-Step Fresh Any (grammar_line_kma p tokens) behind_kma
        (section_Step (starts TokenType.kma) stmt_kma p (λ q. tt) f)
        λ p1 f1.
          or_else-Step Fresh Any (grammar_line_code p1 tokens) behind_code
            (section_Step (starts TokenType.section_code) stmt_section_code p1 (λ q. tt) f1)
            λ p2 f2.
              or_else-Step Fresh Any (grammar_line_data p2 tokens) behind_data
                (section_Step (starts TokenType.section_data) stmt_section_data p2 (λ q. tt) f2)
                λ p3 f3.
                  or_else-Step Fresh Any (grammar_line_label p3 tokens) behind_label
                    (label_Step (starts TokenType.label) (copied (get_elem? tokens 0)) p3 f3)
                    λ p4 f4.
                      or_else-Step (Spoilt tokens) Any (grammar_line_identifier m p4 tokens)
                        behind_identifier (identifier_Step m p4 tokens f4)
                        λ p5 f5.
                          or_else-Step Any Any (grammar_line_instruction p5 tokens)
                            (empty_line tokens)
                            (instruction_Step (token_is (get_elem? tokens 0) TokenType.instruction)
                              p5 tokens refl f5)
                            λ p6 f6. empty_Step (token_is_eof (get_elem? tokens 0)) p6
    where
      starts : TokenType → Bool
      starts type = tokens_start_with tokens (type ∷ TokenType.eof ∷ [])

matched-IsSound :
    (r : ErrGrm × Statement) {p : Statement} → Step Any r → matched r ≡ some p → IsSound p
matched-IsSound (grm_match, q) s h = subst IsSound (some_inj h) s
matched-IsSound (grm_no_match, q) s h = cc
matched-IsSound (grm_generic_error, q) s h = cc

-- Every statement that the parser returns, for any tokens, is sound: an instruction has the
-- descriptor of a row of the table and as many operands as the row, with their types, and the
-- segments of a declaration have element counts that go with their types and add up to the total
-- size.
pub convert_parse_tokens-IsSound :
    (m : Allocator) (tokens : List Token) (nl : ℕ) {p : Statement}
    → convert_parse_tokens m tokens nl ≡ some p
    → IsSound p
unfolding convert_parse_tokens parse_tokens p_stmt_create
convert_parse_tokens-IsSound m tokens nl h =
    if_cases (jalloc m ((length tokens + 1) * 8)) _ _ h
      (λ t h.
        if_cases (jalloc m statement_size) _ _ h
          (λ t. matched-IsSound (grammar_line m (p_stmt_create nl) tokens) (
            line_Step m tokens (p_stmt_create nl)
              (record { type0 = refl; type1 = refl; count = refl }, refl)))
          (λ f. absurd cc))
      (λ f. absurd cc)
