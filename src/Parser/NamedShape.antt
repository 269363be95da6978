-- ===== src/Parser/NamedShape.antt =====
-- Section markers, label definitions and declarations that match are sound.
use kiv_pc_sw.Prelude.{
  ℕ, ◌≡◌, refl, Bool, true, false, List, Option, none, some, if◌then◌else◌, get_elem?, drop, ◌⊎◌,
  inl, inr,
}
use kiv_pc_sw.Common.{Allocator}
use kiv_pc_sw.Lexer.Token.{TokenType, Token}
use kiv_pc_sw.Parser.Statement.{
  Statement, StatementType, stmt_label_def, stmt_data_decl, par_no_error,
}
use kiv_pc_sw.Parser.TokenHelpers.{token_is}
use kiv_pc_sw.Parser.Segments.{segment_set_dd_total_size, with_data_decl}
use kiv_pc_sw.Parser.Operands.{ErrGrm, grm_match, grm_no_match, grm_generic_error}
use kiv_pc_sw.Parser.Identifier.{grammar_identifier_def}
use kiv_pc_sw.Parser.Grammar.{copied, identifier_after, grammar_line_identifier, or_else}
use kiv_pc_sw.Parser.Shape.{SoundType, IsSound, SegmentsShape}
use kiv_pc_sw.Parser.OperandUses.{IsBlank}
use kiv_pc_sw.Parser.DeclarationShape.{grammar_identifier_def-SegmentsShape}
use kiv_pc_sw.Assembler.Sizes.{total_size_lem}

-- A statement that no alternative has filled in yet.
abbrev pub Fresh : Statement → Type 0
Fresh p = IsBlank p.instruction × (p.data_decl.segment_count ≡ 0)

-- A match is sound; otherwise the next alternative gets a statement with `K`.
abbrev pub Step : (Statement → Type 0) → ErrGrm × Statement → Type 0
Step K (grm_match, q) = IsSound q
Step K (_, q) = K q

pub or_else-Step :
    (J K : Statement → Type 0) (r : ErrGrm × Statement) (next : Statement → ErrGrm × Statement)
    → Step J r
    → ((q : Statement) → J q → Step K (next q))
    → Step K (or_else r next)
or_else-Step J K (grm_match, q) next s f = s
or_else-Step J K (grm_no_match, q) next s f = f q s
or_else-Step J K (grm_generic_error, q) next s f = f q s

pub section_Step :
    (b : Bool) (type : StatementType) (p : Statement)
    → ((q : Statement) → SoundType type q)
    → Fresh p
    → Step Fresh
        (if b then (grm_match, record p { type = type; err = par_no_error }) else (grm_no_match, p))
section_Step true type p s f = s (record p { type = type; err = par_no_error })
section_Step false type p s f = f

pub label_Step :
    (b : Bool) (o : Option (List ℕ)) (p : Statement)
    → Fresh p
    → Step Fresh (
        if b
        then elim o [
          | none ↦ (grm_generic_error, record p { type = stmt_label_def; err = par_no_error })
          | some name ↦
              (grm_match, record p { type = stmt_label_def; err = par_no_error; label_name = name })
        ]
        else (grm_no_match, p))
label_Step true none p f = f
label_Step true (some name) p f = tt
label_Step false o p f = f

-- The identifier's alternative may spoil the statement, but then the line begins with an identifier.
abbrev pub Spoilt : List Token → Statement → Type 0
Spoilt tokens q = (token_is (get_elem? tokens 0) TokenType.identifier ≡ true) ⊎ Fresh q

named_Step :
    (o : Option (List ℕ)) (K : Statement → Type 0) (p : Statement)
    → ((q : Statement) → K q)
    → SegmentsShape p.data_decl.type p.data_decl.segments
    → Step K (elim o [
      | none ↦ (
        grm_generic_error,
        with_data_decl
            (record p { type = stmt_data_decl; err = par_no_error })
            (segment_set_dd_total_size p.data_decl),
      )
      | some name ↦ (
        grm_match,
        with_data_decl
            (record p { type = stmt_data_decl; err = par_no_error })
            (record (segment_set_dd_total_size p.data_decl) { identifier = name }),
      )
    ])
unfolding segment_set_dd_total_size
named_Step none K p k s = k _
named_Step (some name) K p k s = (s, total_size_lem p.data_decl)

identifier_after-Step :
    (r : ErrGrm × Statement) (K : Statement → Type 0) (tokens : List Token)
    → ((q : Statement) → K q)
    → ((q : Statement) → r ≡ (grm_match, q) → SegmentsShape q.data_decl.type q.data_decl.segments)
    → Step K (identifier_after r tokens)
identifier_after-Step (grm_match, q) K tokens k f =
    named_Step (copied (get_elem? tokens 0)) K q k (f q refl)
identifier_after-Step (grm_no_match, q) K tokens k f = k q
identifier_after-Step (grm_generic_error, q) K tokens k f = k q

pub identifier_Step :
    (m : Allocator) (p : Statement) (tokens : List Token)
    → Fresh p
    → Step (Spoilt tokens) (grammar_line_identifier m p tokens)
unfolding grammar_line_identifier
identifier_Step m p tokens f = go (token_is (get_elem? tokens 0) TokenType.identifier) refl
  where
    go :
        (b : Bool)
        → token_is (get_elem? tokens 0) TokenType.identifier ≡ b
        → Step (Spoilt tokens) (
            if b
            then identifier_after (grammar_identifier_def m p (drop 1 tokens)) tokens
            else (grm_no_match, p))
    go true e =
        identifier_after-Step _ (Spoilt tokens) tokens (λ q. inl e)
          (λ q. grammar_identifier_def-SegmentsShape m p (drop 1 tokens) f.1)
    go false e = inr f
