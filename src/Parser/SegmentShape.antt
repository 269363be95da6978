-- ===== src/Parser/SegmentShape.antt =====
-- The functions of parser/segment.c fill in the init segment at their index.
use kiv_pc_sw.Prelude.{
  ℕ, suc, ◌≡◌, refl, ap, subst, List, Option, none, some, arith, take, length-take, some_inj,
}
use kiv_pc_sw.Lexer.Token.{Token}
use kiv_pc_sw.Parser.Statement.{Statement, InitSegment, DataType, data_byte}
use kiv_pc_sw.Parser.TokenHelpers.{token_parse_int32}
use kiv_pc_sw.Parser.Segments.{
  as_number, as_uninit, as_string, segment_set_dup, segment_set_number, segment_set_uninit,
  segment_set_string,
}
use kiv_pc_sw.Parser.Operands.{ErrGrm, grm_match, grm_no_match, grm_generic_error}
use kiv_pc_sw.Parser.Identifier.{Rest, set_dup_after, give_back, segment_after}
use kiv_pc_sw.Parser.DataShape.{
  Filled, segments_of, match_segments, Dup, as_dup-Filled, update_at-Filled,
}

-- What follows a segment fills in the segments from the current count on.
abbrev pub Fills : DataType → Rest → Type 0
Fills dt next =
    (p : Statement) (tokens : List Token) (q : Statement)
    → next p tokens ≡ (grm_match, q)
    → Filled dt p.data_decl.segment_count (segments_of q)

-- A step that fills in the segment at `k`, if those behind are.
abbrev pub FillsAt : DataType → ℕ → (Statement → Option Statement) → Type 0
FillsAt dt k setter =
    (p q : Statement)
    → setter p ≡ some q
    → Filled dt (suc k) (segments_of p)
    → Filled dt k (segments_of q)

from_some :
    {A : Type 0} (o : Option A) (g : A → Statement) (P : List InitSegment → Type 0) {q : Statement}
    → ((a : A) → o ≡ some a → P (segments_of (g a)))
    → ◌≡◌ {A = Option Statement} (elim o [ none ↦ none | some a ↦ some (g a) ]) (some q)
    → P (segments_of q)
from_some none g P f h = cc
from_some (some a) g P f h = subst P (ap segments_of (some_inj h)) (f a refl)

pub number_FillsAt :
    (dt : DataType) (k : ℕ) (token : Token) → FillsAt dt k (λ p. segment_set_number p k token)
unfolding segment_set_number
number_FillsAt dt k token p q h f =
    from_some (token_parse_int32 token) _ (Filled dt k)
      (λ value e. update_at-Filled dt (as_number value) k (segments_of p) (λ seg. refl) f) h

pub string_FillsAt :
    (k : ℕ) (token : Token) → FillsAt data_byte k (λ p. segment_set_string p k token)
unfolding segment_set_string
string_FillsAt k token p q h f =
    subst (λ r. Filled data_byte k (segments_of r)) (some_inj h)
      (update_at-Filled data_byte (as_string (take 255 token.value)) k (segments_of p)
        (λ seg. (refl, refl, omega (arith, length-take 255 token.value))) f)

pub uninit_FillsAt : (dt : DataType) (k : ℕ) → FillsAt dt k (λ p. some (segment_set_uninit p k))
unfolding segment_set_uninit
uninit_FillsAt dt k p q h f =
    subst (λ r. Filled dt k (segments_of r)) (some_inj h)
      (update_at-Filled dt as_uninit k (segments_of p) (λ seg. refl) f)

pub at_token_FillsAt :
    (o : Option Token) (dt : DataType) (k : ℕ) (f : Statement → Token → Option Statement)
    → ((token : Token) → FillsAt dt k (λ p. f p token))
    → FillsAt dt k (λ p. elim o [ none ↦ none | some token ↦ f p token ])
at_token_FillsAt none dt k f g p q h = cc
at_token_FillsAt (some token) dt k f g p q h = g token p q h

-- What a match of the rest and a successful setter give.
setter_Filled :
    (o : Option Statement) (dt : DataType) (k : ℕ) (mid : Statement) {q : Statement}
    → ((r : Statement) → o ≡ some r → Filled dt k (segments_of r))
    → ◌≡◌ {A = ErrGrm × Statement}
        (elim o [ some p ↦ (grm_match, p) | none ↦ give_back mid ])
        (grm_match, q)
    → Filled dt k (segments_of q)
setter_Filled none dt k mid f h = cc
setter_Filled (some r) dt k mid f h = match_segments (Filled dt k) r h (f r refl)

pub segment_after-Filled :
    (r : ErrGrm × Statement) (setter : Statement → Option Statement) (dt : DataType) (k : ℕ)
    {q : Statement}
    → ((mid : Statement)
        → r ≡ (grm_match, mid)
        → (s : Statement) → setter mid ≡ some s
        → Filled dt k (segments_of s))
    → segment_after r setter ≡ (grm_match, q)
    → Filled dt k (segments_of q)
segment_after-Filled (grm_match, mid) setter dt k f h =
    setter_Filled (setter mid) dt k mid (f mid refl) h
segment_after-Filled (grm_no_match, mid) setter dt k f h = cc
segment_after-Filled (grm_generic_error, mid) setter dt k f h = cc

pub Dup-Filled :
    (r : ErrGrm × Statement) (next : Rest) (dt : DataType) (k : ℕ) (p : Statement)
    (tokens : List Token) {q : Statement}
    → ((s : Statement) → r ≡ (grm_match, s) → Dup next k p tokens s)
    → Fills dt next
    → p.data_decl.segment_count ≡ suc k
    → set_dup_after r k ≡ (grm_match, q)
    → Filled dt k (segments_of q)
unfolding segment_set_dup
Dup-Filled (grm_match, s) next dt k p tokens f n c h =
    let (mid, e, counted) = f s refl in
    match_segments (Filled dt k) (segment_set_dup s k) h (
      as_dup-Filled dt k (segments_of mid) (segments_of s) counted
        (subst (λ j. Filled dt j (segments_of mid)) c (n p tokens mid e)))
Dup-Filled (grm_no_match, s) next dt k p tokens f n c h = cc
Dup-Filled (grm_generic_error, s) next dt k p tokens f n c h = cc
