-- ===== src/Parser/LineBlocks.antt =====
-- p_stmt_free releases what the parser allocated for a line, whether the line matched or not.
use kiv_pc_sw.Prelude.{
  ℕ, suc, ◌+◌, ◌*◌, ◌≡◌, refl, ◌∙◌, ap, subst, Bool, true, false, [], ◌∷◌, List, some, arith,
  if◌then◌else◌, get_elem?, length, inl, inr, some_inj, if_cases,
}
use kiv_pc_sw.Common.{Allocator, jalloc}
use kiv_pc_sw.Memory.{Live, live, aborted, jree, both}
use kiv_pc_sw.Lexer.Token.{TokenType, Token}
use kiv_pc_sw.Parser.Statement.{
  Statement, stmt_none, stmt_kma, stmt_section_data, stmt_section_code, par_empty_line,
  p_stmt_create,
}
use kiv_pc_sw.Parser.TokenHelpers.{token_is_eof, tokens_start_with}
use kiv_pc_sw.Parser.Operands.{ErrGrm, grm_match, grm_no_match, grm_generic_error}
use kiv_pc_sw.Parser.Grammar.{
  grammar_line_kma, grammar_line_code, grammar_line_data, copied, grammar_line_label,
  grammar_line_identifier, grammar_line_instruction, or_else, empty_line, grammar_line, matched,
  parse_tokens, convert_parse_tokens, statement_size,
}
use kiv_pc_sw.Parser.Free.{matched_count, parse_tokens_count, convert_parse_tokens_count}
use kiv_pc_sw.Parser.Settled.{
  Balanced, Settled, Settled-Balanced, Leaves, or_else-Leaves, Untouched,
}
use kiv_pc_sw.Parser.NamedBlocks.{section-Leaves, label-Leaves, Tried, identifier-Leaves}
use kiv_pc_sw.Parser.InstructionBlocks.{not_other, instruction-Leaves}

empty-Leaves :
    (p : Statement) (tokens : List Token) → Settled p → Leaves Balanced (empty_line tokens p)
empty-Leaves p tokens s = go (token_is_eof (get_elem? tokens 0))
  where
    go :
        (b : Bool)
        → Leaves Balanced (
            if b
            then (grm_match, record p { type = stmt_none; err = par_empty_line })
            else (grm_no_match, p))
    go true = Settled-Balanced _ (record { type = λ e. cc; held = s.held })
    go false = Settled-Balanced p s

last-Leaves :
    (p : Statement) (tokens : List Token)
    → Tried tokens p
    → Leaves Balanced (or_else (grammar_line_instruction p tokens) (empty_line tokens))
unfolding grammar_line_instruction
last-Leaves p tokens (inl (named, b)) =
    let (one, two) = not_other (get_elem? tokens 0) named in rw (one, two) b
last-Leaves p tokens (inr s) =
    or_else-Leaves Settled Balanced (grammar_line_instruction p tokens) (empty_line tokens)
      (instruction-Leaves p tokens s) (λ q. empty-Leaves q tokens)

module _ (m : Allocator) (tokens : List Token) where
  -- What is left of grammar_line behind each alternative.
  abbrev behind_identifier : Statement → ErrGrm × Statement
  behind_identifier p = or_else (grammar_line_instruction p tokens) (empty_line tokens)

  abbrev behind_label : Statement → ErrGrm × Statement
  behind_label p = or_else (grammar_line_identifier m p tokens) behind_identifier

  abbrev behind_data : Statement → ErrGrm × Statement
  behind_data p = or_else (grammar_line_label p tokens) behind_label

  abbrev behind_code : Statement → ErrGrm × Statement
  behind_code p = or_else (grammar_line_data p tokens) behind_data

  abbrev behind_kma : Statement → ErrGrm × Statement
  behind_kma p = or_else (grammar_line_code p tokens) behind_code

  -- Whether the line matches or not, its statement can be freed.
  line-Leaves : (p : Statement) → Untouched p → Leaves Balanced (grammar_line m p tokens)
  unfolding grammar_line grammar_line_kma grammar_line_code grammar_line_data grammar_line_label
  line-Leaves p u =
      or_else-Leaves Untouched Balanced (grammar_line_kma p tokens) behind_kma
        (section-Leaves (starts TokenType.kma) stmt_kma p (λ e. cc) u)
        λ p1 u1.
          or_else-Leaves Untouched Balanced (grammar_line_code p1 tokens) behind_code
            (section-Leaves (starts TokenType.section_code) stmt_section_code p1 (λ e. cc) u1)
            λ p2 u2.
              or_else-Leaves Untouched Balanced (grammar_line_data p2 tokens) behind_data
                (section-Leaves (starts TokenType.section_data) stmt_section_data p2 (λ e. cc) u2)
                λ p3 u3.
                  or_else-Leaves Untouched Balanced (grammar_line_label p3 tokens) behind_label
                    (label-Leaves (starts TokenType.label) (copied (get_elem? tokens 0)) p3 u3)
                    λ p4 u4.
                      or_else-Leaves (Tried tokens) Balanced (grammar_line_identifier m p4 tokens)
                        behind_identifier (identifier-Leaves m p4 tokens u4)
                        λ p5. last-Leaves p5 tokens
    where
      starts : TokenType → Bool
      starts type = tokens_start_with tokens (type ∷ TokenType.eof ∷ [])

pub both-zero : (c : Live) → both c (live 0) ≡ c
both-zero (live n) = ap live (omega arith)
both-zero aborted = refl

matched_count_lem : (r : ErrGrm × Statement) (c : Live) → Leaves Balanced r → matched_count r c ≡ c
matched_count_lem (grm_match, q) c b = refl
matched_count_lem (grm_no_match, q) c b = ap (both c) b ∙ both-zero c
matched_count_lem (grm_generic_error, q) c b = ap (both c) b ∙ both-zero c

matched-Balanced :
    (r : ErrGrm × Statement) {q : Statement} → Leaves Balanced r → matched r ≡ some q → Balanced q
matched-Balanced (grm_match, p) b h = subst Balanced (some_inj h) b
matched-Balanced (grm_no_match, p) b h = absurd cc
matched-Balanced (grm_generic_error, p) b h = absurd cc

created-Untouched : (nl : ℕ) → Untouched (p_stmt_create nl)
unfolding p_stmt_create
created-Untouched nl = (λ e. cc, record { type = refl; held = refl; segments = refl })

-- p_stmt_free gives back exactly the blocks that a statement from the parser holds: none is left,
-- and none is freed twice.
pub convert_parse_tokens-Balanced :
    (m : Allocator) (tokens : List Token) (nl : ℕ) {q : Statement}
    → convert_parse_tokens m tokens nl ≡ some q
    → Balanced q
unfolding convert_parse_tokens parse_tokens
convert_parse_tokens-Balanced m tokens nl h =
    if_cases (jalloc m ((length tokens + 1) * 8)) _ _ h
      (λ t h.
        if_cases (jalloc m statement_size) _ _ h
          (λ t.
            matched-Balanced (grammar_line m (p_stmt_create nl) tokens)
              (line-Leaves m tokens (p_stmt_create nl) (created-Untouched nl)))
          (λ f. absurd cc))
      (λ f. absurd cc)

-- Apart from the statement that it returns, convert_parse_tokens leaves no block.
pub convert_parse_tokens_count_lem :
    (m : Allocator) (tokens : List Token) (nl n : ℕ)
    → convert_parse_tokens_count m tokens nl (live n) ≡ live n
unfolding convert_parse_tokens_count parse_tokens_count
convert_parse_tokens_count_lem m tokens nl n =
    go (jalloc m ((length tokens + 1) * 8)) (jalloc m statement_size)
  where
    go :
        (a b : Bool)
        → ◌≡◌ {A = Live}
            (if a
              then jree (
                  if b
                  then matched_count (grammar_line m (p_stmt_create nl) tokens) (live (suc n))
                  else live (suc n))
              else live n)
            (live n)
    go true true = ap jree (
        matched_count_lem (grammar_line m (p_stmt_create nl) tokens) (live (suc n))
          (line-Leaves m tokens (p_stmt_create nl) (created-Untouched nl)))
    go true false = refl
    go false b = refl
