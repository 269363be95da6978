-- ===== src/Parser/DataShape.antt =====
-- The init segments that grammar_identifier_def leaves behind: each has the element count that goes
-- with its type. A level of the recursion fills in the segment at its own index, and the levels
-- below it have filled in those behind.
use kiv_pc_sw.Prelude.{
  ℕ, zero, suc, ◌≤◌, ◌≡◌, refl, ◌∙◌, sym, ap, subst, Bool, true, false, [], ◌∷◌, List, Option, none,
  some, arith, if◌then◌else◌, if_cases, get_elem?, drop, length, ◌&&◌,
}
use kiv_pc_sw.Common.{size_max}
use kiv_pc_sw.Lexer.Token.{TokenType, Token}
use kiv_pc_sw.Parser.Statement.{Statement, InitSegment, DataType}
use kiv_pc_sw.Parser.TokenHelpers.{token_is, token_parse_size_t}
use kiv_pc_sw.Parser.Segments.{update_at, as_dup}
use kiv_pc_sw.Parser.Operands.{ErrGrm, grm_match, grm_no_match, grm_generic_error}
use kiv_pc_sw.Parser.Identifier.{
  Rest, dup_marked, dup_count_read, dup_value_read, dup_after, identifier_dup, change_segment,
  parse_size_t_at, parse_int32_at,
}
use kiv_pc_sw.Parser.Shape.{SegmentShape, SegmentsShape}

-- The segments from an index on have their shape.
pub record Filled (dt : DataType) (k : ℕ) (segs : List InitSegment) : Type 0 where
  pub enough : k ≤ length segs
  pub shaped : SegmentsShape dt (drop k segs)

length-update_at :
    (f : InitSegment → InitSegment) (k : ℕ) (segs : List InitSegment)
    → length (update_at f k segs) ≡ length segs
length-update_at f k [] = refl
length-update_at f zero (seg ∷ segs) = refl
length-update_at f (suc k) (seg ∷ segs) = ap suc (length-update_at f k segs)

update_at-shaped :
    (dt : DataType) (f : InitSegment → InitSegment) (k : ℕ) (segs : List InitSegment)
    → ((seg : InitSegment) → SegmentShape dt (f seg))
    → SegmentsShape dt (drop (suc k) segs)
    → SegmentsShape dt (drop k (update_at f k segs))
update_at-shaped dt f zero [] g h = tt
update_at-shaped dt f (suc k) [] g h = tt
update_at-shaped dt f zero (seg ∷ segs) g h = (g seg, h)
update_at-shaped dt f (suc k) (seg ∷ segs) g h = update_at-shaped dt f k segs g h

-- The segment at `k` is filled in behind the later ones.
pub update_at-Filled :
    (dt : DataType) (f : InitSegment → InitSegment) (k : ℕ) (segs : List InitSegment)
    → ((seg : InitSegment) → SegmentShape dt (f seg))
    → Filled dt (suc k) segs
    → Filled dt k (update_at f k segs)
update_at-Filled dt f k segs g h = record {
  enough = omega (arith, length-update_at f k segs, h.enough);
  shaped = update_at-shaped dt f k segs g h.shaped;
}

update_at-compose :
    (f g : InitSegment → InitSegment) (k : ℕ) (segs : List InitSegment)
    → update_at f k (update_at g k segs) ≡ update_at (λ s. f (g s)) k segs
update_at-compose f g k [] = refl
update_at-compose f g zero (seg ∷ segs) = refl
update_at-compose f g (suc k) (seg ∷ segs) = ap (λ l. seg ∷ l) (update_at-compose f g k segs)

token_parse_size_t_bound :
    (token : Token) {n : ℕ} → token_parse_size_t token ≡ some n → n ≤ size_max
unfolding token_parse_size_t
token_parse_size_t_bound token {n} h = ground arith

parse_size_t_at_bound :
    (o : Option Token) {n : ℕ}
    → ◌≡◌ {A = Option ℕ} (elim o [ none ↦ none | some t ↦ token_parse_size_t t ]) (some n)
    → n ≤ size_max
parse_size_t_at_bound none h = cc
parse_size_t_at_bound (some t) h = token_parse_size_t_bound t h

-- What a matching DUP did to the segments, before segment_set_dup: the count is in the segment.
abbrev pub Counted : ℕ → List InitSegment → List InitSegment → Type 0
Counted k before segs =
    (f : InitSegment → InitSegment) × (n : ℕ) × (n ≤ size_max)
    × ((seg : InitSegment) → (f seg).dup_count ≡ n)
    × (segs ≡ update_at f k before)

pub as_dup-Filled :
    (dt : DataType) (k : ℕ) (before segs : List InitSegment)
    → Counted k before segs
    → Filled dt (suc k) before
    → Filled dt k (update_at as_dup k segs)
as_dup-Filled dt k before segs (f, n, small, count, e) h =
    subst (Filled dt k) (sym (ap (update_at as_dup k) e ∙ update_at-compose as_dup f k before)) (
      update_at-Filled dt (λ s. as_dup (f s)) k before
        (λ seg. (refl, omega (arith, count seg, small))) h)

abbrev pub segments_of : Statement → List InitSegment
segments_of p = p.data_decl.segments

abbrev pub result_segments : ErrGrm × Statement → List InitSegment
result_segments r = segments_of r.1

-- A match with segments that are known.
pub match_segments :
    (P : List InitSegment → Type 0) (p : Statement) {q : Statement}
    → ◌≡◌ {A = ErrGrm × Statement} (grm_match, p) (grm_match, q)
    → P (segments_of p)
    → P (segments_of q)
match_segments P p h a = subst P (ap result_segments h) a

pub no_match_ne :
    (pstmt : Statement) {p : Statement} {Q : Type 0}
    → ◌≡◌ {A = ErrGrm × Statement} (grm_no_match, pstmt) (grm_match, p)
    → Q
no_match_ne pstmt h = absurd cc

value_Counted :
    (o : Option ℕ) (p : Statement) (k n : ℕ) (u : Bool) {q : Statement}
    → n ≤ size_max
    → ◌≡◌ {A = ErrGrm × Statement}
        (elim o [
          | none ↦ (
            grm_no_match,
            change_segment (change_segment p k (dup_marked u)) k (dup_count_read n),
          )
          | some value ↦ (
            grm_match,
            change_segment
                (change_segment (change_segment p k (dup_marked u)) k (dup_count_read n))
                k
                (dup_value_read value),
          )
        ])
        (grm_match, q)
    → Counted k (segments_of p) (segments_of q)
value_Counted none p k n u small h = cc
value_Counted (some value) p k n u small h = match_segments (Counted k (segments_of p)) _ h (
  (λ seg. dup_value_read value (dup_count_read n (dup_marked u seg))),
  n,
  small,
  (λ seg. refl),
  ap (update_at (dup_value_read value) k)
        (update_at-compose (dup_count_read n) (dup_marked u) k (segments_of p))
      ∙ update_at-compose (dup_value_read value) (λ seg. dup_count_read n (dup_marked u seg)) k
          (segments_of p),
)

Counted-weaken :
    (u : Bool) (o : Option ℕ) (p : Statement) (k n : ℕ) {q : Statement}
    → n ≤ size_max
    → ◌≡◌ {A = ErrGrm × Statement}
        (if u
          then (grm_match, change_segment (change_segment p k (dup_marked u)) k (dup_count_read n))
          else elim o [
            | none ↦ (
              grm_no_match,
              change_segment (change_segment p k (dup_marked u)) k (dup_count_read n),
            )
            | some value ↦ (
              grm_match,
              change_segment
                  (change_segment (change_segment p k (dup_marked u)) k (dup_count_read n))
                  k
                  (dup_value_read value),
            )
          ])
        (grm_match, q)
    → Counted k (segments_of p) (segments_of q)
Counted-weaken false o p k n small h = value_Counted o p k n false small h
Counted-weaken true o p k n small h = match_segments (Counted k (segments_of p)) _ h (
  (λ seg. dup_count_read n (dup_marked true seg)),
  n,
  small,
  (λ seg. refl),
  update_at-compose (dup_count_read n) (dup_marked true) k (segments_of p),
)

dup_values_Counted :
    (o : Option ℕ) (v : Option ℕ) (p : Statement) (k : ℕ) (u : Bool) {q : Statement}
    → ((n : ℕ) → o ≡ some n → n ≤ size_max)
    → ◌≡◌ {A = ErrGrm × Statement}
        (elim o [
          | none ↦ (grm_no_match, change_segment p k (dup_marked u))
          | some n ↦
              if u
              then (
                grm_match,
                change_segment (change_segment p k (dup_marked u)) k (dup_count_read n),
              )
              else elim v [
                | none ↦ (
                  grm_no_match,
                  change_segment (change_segment p k (dup_marked u)) k (dup_count_read n),
                )
                | some value ↦ (
                  grm_match,
                  change_segment
                      (change_segment (change_segment p k (dup_marked u)) k (dup_count_read n))
                      k
                      (dup_value_read value),
                )
              ]
        ])
        (grm_match, q)
    → Counted k (segments_of p) (segments_of q)
dup_values_Counted none v p k u f h = cc
dup_values_Counted (some n) v p k u f h = Counted-weaken u v p k n (f n refl) h

-- A DUP that matches: the rest matched, and then the count was put into the segment.
abbrev pub Dup : Rest → ℕ → Statement → List Token → Statement → Type 0
Dup next k p tokens q =
    (mid : Statement) × (next p tokens ≡ (grm_match, mid))
    × Counted k (segments_of mid) (segments_of q)

dup_after-Dup :
    (next : Rest) (r : ErrGrm × Statement) (p : Statement) (tokens : List Token) (k : ℕ) (u : Bool)
    {q : Statement}
    → next p (drop 5 tokens) ≡ r
    → dup_after r tokens k u ≡ (grm_match, q)
    → Dup next k p (drop 5 tokens) q
dup_after-Dup next (grm_match, mid) p tokens k u e h = (
  mid,
  e,
  dup_values_Counted (parse_size_t_at tokens 0) (parse_int32_at tokens 3) mid k u
      (λ n. parse_size_t_at_bound (get_elem? tokens 0)) h,
)
dup_after-Dup next (grm_no_match, mid) p tokens k u e h = no_match_ne mid h
dup_after-Dup next (grm_generic_error, mid) p tokens k u e h = no_match_ne mid h

pub identifier_dup-Dup :
    (next : Rest) (p : Statement) (tokens : List Token) (k : ℕ) {q : Statement}
    → identifier_dup next p tokens k ≡ (grm_match, q)
    → Dup next k p (drop 5 tokens) q
unfolding identifier_dup
identifier_dup-Dup next p tokens k h =
    if_cases
      (token_is (get_elem? tokens 0) TokenType.number
        && token_is (get_elem? tokens 1) TokenType.dup
        && token_is (get_elem? tokens 2) TokenType.lparen
        && token_is (get_elem? tokens 4) TokenType.rparen)
      _ _ h
      (λ t h.
        if_cases (token_is (get_elem? tokens 3) TokenType.number) _ _ h
          (λ t. dup_after-Dup next _ p tokens k false refl)
          (λ f h.
            if_cases (token_is (get_elem? tokens 3) TokenType.question) _ _ h
              (λ t. dup_after-Dup next _ p tokens k true refl) (λ f. no_match_ne p)))
      (λ f. no_match_ne p)
