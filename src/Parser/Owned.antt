-- ===== src/Parser/Owned.antt =====
-- The blocks that a declaration holds while it is read: its own, and one for its segments.
use kiv_pc_sw.Prelude.{
  ℕ, zero, suc, ◌≡◌, refl, sym, ◌∙◌, ap, Bool, true, false, [], ◌∷◌, List, Option, none, some,
  if◌then◌else◌,
}
use kiv_pc_sw.Memory.{Live, live}
use kiv_pc_sw.Parser.Statement.{Statement, StatementType, InitSegment}
use kiv_pc_sw.Parser.Segments.{update_at}
use kiv_pc_sw.Parser.Operands.{ErrGrm}
use kiv_pc_sw.Parser.Identifier.{change_segment}

-- The count of a statement with these segments: its own block, and theirs.
abbrev pub owned : List InitSegment → Live
owned [] = live 1
owned (_ ∷ _) = live 2

-- A statement of type `t` that holds what its segments say.
pub record Owns (t : StatementType) (q : Statement) : Type 0 where
  pub type : q.type ≡ t
  pub held : q.held ≡ owned q.data_decl.segments

-- One whose segments have not been allocated.
pub record Bare (t : StatementType) (q : Statement) : Type 0 where
  pub type : q.type ≡ t
  pub held : q.held ≡ live 1
  pub segments : q.data_decl.segments ≡ []

pub Bare-Owns : {t : StatementType} (q : Statement) → Bare t q → Owns t q
Bare-Owns q b = record { type = b.type; held = b.held ∙ sym (ap owned b.segments) }

-- A property of what a conditional leaves.
pub either_leaves :
    (P : Statement → Type 0) (b : Bool) (x y : ErrGrm × Statement)
    → P x.1
    → P y.1
    → P (if b then x else y).1
either_leaves P true x y p q = p
either_leaves P false x y p q = q

owned-update_at :
    (f : InitSegment → InitSegment) (i : ℕ) (segs : List InitSegment)
    → owned (update_at f i segs) ≡ owned segs
owned-update_at f i [] = refl
owned-update_at f zero (seg ∷ segs) = refl
owned-update_at f (suc i) (seg ∷ segs) = refl

-- What changes the values of a segment changes no block.
pub keeps :
    {t : StatementType} (p q : Statement) (f : InitSegment → InitSegment) (i : ℕ)
    → Owns t p
    → q.type ≡ p.type
    → q.held ≡ p.held
    → q.data_decl.segments ≡ update_at f i p.data_decl.segments
    → Owns t q
keeps p q f i o e h s = record {
  type = e ∙ o.type;
  held = h ∙ o.held ∙ sym (ap owned s ∙ owned-update_at f i p.data_decl.segments);
}

pub change-Owns :
    {t : StatementType} (p : Statement) (i : ℕ) (f : InitSegment → InitSegment)
    → Owns t p
    → Owns t (change_segment p i f)
change-Owns p i f o = keeps p _ f i o refl refl refl

pub option_leaves {ℓ} :
    {A : Type ℓ} (P : Statement → Type 0) (o : Option A) (x : ErrGrm × Statement)
    (f : A → ErrGrm × Statement)
    → P x.1
    → ((a : A) → P (f a).1)
    → P (elim o as (λ _. ErrGrm × Statement) [ none ↦ x | some a ↦ f a ]).1
option_leaves P none x f p q = p
option_leaves P (some a) x f p q = q a
