-- ===== src/Parser/Settled.antt =====
-- What p_stmt_free releases of a statement, and what an alternative of the grammar leaves for the next.
use kiv_pc_sw.Prelude.{◌≡◌, ◌≢◌, refl, ◌∙◌, ap, [], ◌∷◌, List}
use kiv_pc_sw.Memory.{live, jree}
use kiv_pc_sw.Parser.Statement.{
  Statement, StatementType, InitSegment, stmt_none, stmt_kma, stmt_section_data, stmt_section_code,
  stmt_label_def, stmt_data_decl, stmt_instruction, stmt_error,
}
use kiv_pc_sw.Parser.Operands.{ErrGrm, grm_match, grm_no_match, grm_generic_error}
use kiv_pc_sw.Parser.Identifier.{free_segments}
use kiv_pc_sw.Parser.Grammar.{or_else}
use kiv_pc_sw.Parser.Free.{clear_content, p_stmt_deinit, p_stmt_free}
use kiv_pc_sw.Parser.Owned.{owned, Owns, Bare}

-- Freeing the statement releases all that it holds, and no more.
abbrev pub Balanced : Statement → Type 0
Balanced q = p_stmt_free q ≡ live 0

-- A statement that is no declaration, with its own block alone.
pub record Settled (q : Statement) : Type 0 where
  pub type : q.type ≢ stmt_data_decl
  pub held : q.held ≡ live 1

cleared :
    (type : StatementType) (q : Statement)
    → type ≢ stmt_data_decl
    → (clear_content type q).held ≡ q.held
cleared stmt_none q n = refl
cleared stmt_kma q n = refl
cleared stmt_section_data q n = refl
cleared stmt_section_code q n = refl
cleared stmt_label_def q n = refl
cleared stmt_data_decl q n = absurd (n refl)
cleared stmt_instruction q n = refl
cleared stmt_error q n = refl

pub Settled-Balanced : (q : Statement) → Settled q → Balanced q
unfolding p_stmt_free p_stmt_deinit
Settled-Balanced q s = ap jree (cleared q.type q s.type ∙ s.held)

freed_held :
    (segs : List InitSegment) (q : Statement)
    → q.held ≡ owned segs
    → (free_segments segs q).held ≡ live 1
freed_held [] q h = h
freed_held (_ ∷ _) q h = ap jree h

pub Owns-Balanced : (q : Statement) → Owns stmt_data_decl q → Balanced q
unfolding p_stmt_free p_stmt_deinit
Owns-Balanced q o =
    ap jree
      (ap (λ type. (clear_content type q).held) o.type ∙ freed_held q.data_decl.segments q o.held)

-- What an alternative leaves for the next: a match can be freed, and otherwise `K` holds.
abbrev pub Leaves : (Statement → Type 0) → ErrGrm × Statement → Type 0
Leaves K (grm_match, q) = Balanced q
Leaves K (_, q) = K q

pub or_else-Leaves :
    (J K : Statement → Type 0) (r : ErrGrm × Statement) (next : Statement → ErrGrm × Statement)
    → Leaves J r
    → ((q : Statement) → J q → Leaves K (next q))
    → Leaves K (or_else r next)
or_else-Leaves J K (grm_match, q) next s f = s
or_else-Leaves J K (grm_no_match, q) next s f = f q s
or_else-Leaves J K (grm_generic_error, q) next s f = f q s

-- No declaration, and no segments yet.
abbrev pub Untouched : Statement → Type 0
Untouched q = (q.type ≢ stmt_data_decl) × Bare q.type q

pub Untouched-Settled : (q : Statement) → Untouched q → Settled q
Untouched-Settled q u = record { type = u.0; held = u.1.held }

pub retyped :
    (q r : Statement)
    → r.type ≢ stmt_data_decl
    → r.held ≡ q.held
    → r.data_decl.segments ≡ q.data_decl.segments
    → Untouched q
    → Untouched r
retyped q r n h s u = (n, record { type = refl; held = h ∙ u.1.held; segments = s ∙ u.1.segments })
