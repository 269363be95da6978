-- ===== src/Parser/NamedBlocks.antt =====
-- The blocks of section markers, label definitions and declarations.
use kiv_pc_sw.Prelude.{
  ℕ, ◌≡◌, ◌≢◌, refl, sym, ◌∙◌, Bool, true, false, List, Option, none, some, if◌then◌else◌,
  get_elem?, drop, ◌⊎◌, inl, inr,
}
use kiv_pc_sw.Common.{Allocator}
use kiv_pc_sw.Lexer.Token.{TokenType, Token}
use kiv_pc_sw.Parser.Statement.{
  Statement, StatementType, stmt_label_def, stmt_data_decl, par_no_error,
}
use kiv_pc_sw.Parser.TokenHelpers.{token_is}
use kiv_pc_sw.Parser.Segments.{segment_set_dd_total_size, with_data_decl}
use kiv_pc_sw.Parser.Operands.{ErrGrm, grm_match, grm_no_match, grm_generic_error}
use kiv_pc_sw.Parser.Identifier.{grammar_identifier_def}
use kiv_pc_sw.Parser.Grammar.{copied, identifier_after, grammar_line_identifier}
use kiv_pc_sw.Parser.Owned.{Owns}
use kiv_pc_sw.Parser.DeclarationBlocks.{Declared, def-Declared}
use kiv_pc_sw.Parser.Settled.{
  Balanced, Settled, Settled-Balanced, Owns-Balanced, Leaves, Untouched, Untouched-Settled, retyped,
}

pub section-Leaves :
    (b : Bool) (type : StatementType) (p : Statement)
    → type ≢ stmt_data_decl
    → Untouched p
    → Leaves Untouched
        (if b then (grm_match, record p { type = type; err = par_no_error }) else (grm_no_match, p))
section-Leaves true type p n u =
    Settled-Balanced (record p { type = type; err = par_no_error })
      (record { type = n; held = u.1.held })
section-Leaves false type p n u = u

pub label-Leaves :
    (b : Bool) (o : Option (List ℕ)) (p : Statement)
    → Untouched p
    → Leaves Untouched (
        if b
        then elim o [
          | none ↦ (grm_generic_error, record p { type = stmt_label_def; err = par_no_error })
          | some name ↦
              (grm_match, record p { type = stmt_label_def; err = par_no_error; label_name = name })
        ]
        else (grm_no_match, p))
label-Leaves true none p u =
    retyped p (record p { type = stmt_label_def; err = par_no_error }) (λ e. cc) refl refl u
label-Leaves true (some name) p u =
    Settled-Balanced (record p { type = stmt_label_def; err = par_no_error; label_name = name })
      (record { type = λ e. cc; held = u.1.held })
label-Leaves false o p u = u

-- Behind the identifier's alternative: either the line begins with an identifier, or the statement
-- is as it was.
abbrev pub Tried : List Token → Statement → Type 0
Tried tokens q =
    ((token_is (get_elem? tokens 0) TokenType.identifier ≡ true) × Balanced q) ⊎ Settled q

named-Leaves :
    (o : Option (List ℕ)) (tokens : List Token) (p : Statement)
    → token_is (get_elem? tokens 0) TokenType.identifier ≡ true
    → Owns stmt_data_decl p
    → Leaves (Tried tokens) (elim o [
      | none ↦ (
        grm_generic_error,
        with_data_decl
            (record p { type = stmt_data_decl; err = par_no_error })
            (segment_set_dd_total_size p.data_decl),
      )
      | some name ↦ (
        grm_match,
        with_data_decl
            (record p { type = stmt_data_decl; err = par_no_error })
            (record (segment_set_dd_total_size p.data_decl) { identifier = name }),
      )
    ])
unfolding segment_set_dd_total_size
named-Leaves none tokens p e o = inl (e, Owns-Balanced _ (record { type = refl; held = o.held }))
named-Leaves (some name) tokens p e o = Owns-Balanced _ (record { type = refl; held = o.held })

identifier_after-Leaves :
    (r : ErrGrm × Statement) (tokens : List Token) (type : StatementType)
    → type ≢ stmt_data_decl
    → token_is (get_elem? tokens 0) TokenType.identifier ≡ true
    → Declared type r
    → Leaves (Tried tokens) (identifier_after r tokens)
identifier_after-Leaves (grm_match, q) tokens type n e d =
    named-Leaves (copied (get_elem? tokens 0)) tokens q e d
identifier_after-Leaves (grm_no_match, q) tokens type n e d =
    inr (record { type = λ h. n (sym d.0 ∙ h); held = d.1 })
identifier_after-Leaves (grm_generic_error, q) tokens type n e d =
    inr (record { type = λ h. n (sym d.0 ∙ h); held = d.1 })

pub identifier-Leaves :
    (m : Allocator) (p : Statement) (tokens : List Token)
    → Untouched p
    → Leaves (Tried tokens) (grammar_line_identifier m p tokens)
unfolding grammar_line_identifier
identifier-Leaves m p tokens u = go (token_is (get_elem? tokens 0) TokenType.identifier) refl
  where
    go :
        (b : Bool)
        → token_is (get_elem? tokens 0) TokenType.identifier ≡ b
        → Leaves (Tried tokens) (
            if b
            then identifier_after (grammar_identifier_def m p (drop 1 tokens)) tokens
            else (grm_no_match, p))
    go true e =
        identifier_after-Leaves _ tokens p.type u.0 e (def-Declared p.type m p (drop 1 tokens) u.1)
    go false e = inr (Untouched-Settled p u)
