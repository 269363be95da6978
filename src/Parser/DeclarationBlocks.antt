-- ===== src/Parser/DeclarationBlocks.antt =====
-- The blocks over the functions of parser/identifier.c, which read a declaration.
use kiv_pc_sw.Prelude.{
  ℕ, zero, suc, ◌*◌, ◌%◌, ◌^◌, ◌≡◌, refl, ◌∙◌, ap, subst, Bool, true, false, [], ◌∷◌, List, Option,
  none, some, if◌then◌else◌, get_elem?, drop, length, replicate, not, ◌&&◌, ◌==◌, some_inj,
}
use kiv_pc_sw.Memory.{live, count_up, jree}
use kiv_pc_sw.Common.{Allocator, jalloc, size_max}
use kiv_pc_sw.Lexer.Token.{TokenType, Token}
use kiv_pc_sw.Parser.Statement.{
  Statement, StatementType, stmt_data_decl, InitSegment, init_segment_size, no_segment,
}
use kiv_pc_sw.Parser.TokenHelpers.{tokens_start_with, token_is, token_is_eof, token_parse_int32}
use kiv_pc_sw.Parser.Segments.{
  segment_append, segments_finalize, segment_remove_last, segment_set_dup, segment_set_number,
  segment_set_uninit, segment_set_string,
}
use kiv_pc_sw.Parser.Operands.{ErrGrm, grm_match, grm_no_match, grm_generic_error}
use kiv_pc_sw.Parser.Identifier.{
  Rest, parse_size_t_at, parse_int32_at, dup_values, dup_after, set_dup_after, identifier_dup,
  grammar_identifier_dup, give_back, segment_after, identifier_alternatives, grammar_identifier_dec,
  grammar_identifier_dec2, match_or_no, finalized, free_segments, declared, is_dw_word, is_db_word,
  grammar_identifier_def,
}
use kiv_pc_sw.Parser.Owned.{
  owned, Owns, Bare, Bare-Owns, either_leaves, keeps, change-Owns, option_leaves,
}

module _ (t : StatementType) where
  dup_values-Owns :
      (p : Statement) (tokens : List Token) (k : ℕ) (u : Bool)
      → Owns t p
      → Owns t (dup_values p tokens k u).1
  dup_values-Owns p tokens k u o =
      let marked = change-Owns p k _ o in
      option_leaves (Owns t) (parse_size_t_at tokens 0) _ _ marked (λ n.
        let counted = change-Owns _ k _ marked in
        either_leaves (Owns t) u _ _ counted (
          option_leaves (Owns t) (parse_int32_at tokens 3) _ _ counted
            (λ v. change-Owns _ k _ counted)))

  dup_after-Owns :
      (r : ErrGrm × Statement) (tokens : List Token) (k : ℕ) (u : Bool)
      → Owns t r.1
      → Owns t (dup_after r tokens k u).1
  dup_after-Owns (grm_match, p) tokens k u o = dup_values-Owns p tokens k u o
  dup_after-Owns (grm_no_match, p) tokens k u o = o
  dup_after-Owns (grm_generic_error, p) tokens k u o = o

  -- What the rest of a declaration makes of a statement without segments.
  abbrev Leaves : Rest → Type 0
  Leaves next = (p : Statement) (tokens : List Token) → Bare t p → Owns t (next p tokens).1

  identifier_dup-Owns :
      (next : Rest) (p : Statement) (tokens : List Token) (k : ℕ)
      → Leaves next
      → Bare t p
      → Owns t (identifier_dup next p tokens k).1
  unfolding identifier_dup
  identifier_dup-Owns next p tokens k n b =
      let rest = n p (drop 5 tokens) b in
      let after = next p (drop 5 tokens) in
      either_leaves (Owns t)
        (token_is (get_elem? tokens 0) TokenType.number
          && token_is (get_elem? tokens 1) TokenType.dup
          && token_is (get_elem? tokens 2) TokenType.lparen
          && token_is (get_elem? tokens 4) TokenType.rparen)
        _ _
        (either_leaves (Owns t) (token_is (get_elem? tokens 3) TokenType.number) _ _
          (dup_after-Owns after tokens k false rest)
          (either_leaves (Owns t) (token_is (get_elem? tokens 3) TokenType.question) _ _
            (dup_after-Owns after tokens k true rest) (Bare-Owns p b)))
        (Bare-Owns p b)

  set_dup_after-Owns : (r : ErrGrm × Statement) (k : ℕ) → Owns t r.1 → Owns t (set_dup_after r k).1
  unfolding segment_set_dup
  set_dup_after-Owns (grm_match, p) k o = keeps p _ _ k o refl refl refl
  set_dup_after-Owns (grm_no_match, p) k o = o
  set_dup_after-Owns (grm_generic_error, p) k o = o

  give_back-Owns : (p : Statement) → Owns t p → Owns t (give_back p).1
  unfolding segment_remove_last
  give_back-Owns p o = record { type = o.type; held = o.held }

  segment_after-Owns :
      (r : ErrGrm × Statement) (setter : Statement → Option Statement)
      → ((p q : Statement) → Owns t p → setter p ≡ some q → Owns t q)
      → Owns t r.1
      → Owns t (segment_after r setter).1
  segment_after-Owns (grm_match, p) setter f o = set (setter p) (λ q. f p q o)
    where
      set :
          (s : Option Statement)
          → ((q : Statement) → s ≡ some q → Owns t q)
          → Owns t
              (elim s as (λ _. ErrGrm × Statement) [
                | some q ↦ (grm_match, q)
                | none ↦ give_back p
              ]).1
      set none g = give_back-Owns p o
      set (some q) g = g q refl
  segment_after-Owns (grm_no_match, p) setter f o = give_back-Owns p o
  segment_after-Owns (grm_generic_error, p) setter f o = give_back-Owns p o

  -- The setter of a segment changes values only.
  abbrev Sets : (Statement → Option Statement) → Type 0
  Sets setter = (p q : Statement) → Owns t p → setter p ≡ some q → Owns t q

  set_some : (x q : Statement) → Owns t x → ◌≡◌ {A = Option Statement} (some x) (some q) → Owns t q
  set_some x q o h = subst (Owns t) (some_inj h) o

  from_option {ℓ} :
      {A : Type ℓ} (o : Option A) (g : A → Statement) (q : Statement)
      → ((a : A) → Owns t (g a))
      → ◌≡◌ {A = Option Statement} (elim o [ none ↦ none | some a ↦ some (g a) ]) (some q)
      → Owns t q
  from_option none g q f h = absurd cc
  from_option (some a) g q f h = set_some (g a) q (f a) h

  at_token-Sets :
      (o : Option Token) (f : Statement → Token → Option Statement)
      → ((token : Token) → Sets (λ p. f p token))
      → Sets (λ p. elim o [ none ↦ none | some token ↦ f p token ])
  at_token-Sets none f g p q o h = absurd cc
  at_token-Sets (some token) f g p q o h = g token p q o h

  number-Sets : (k : ℕ) (token : Token) → Sets (λ p. segment_set_number p k token)
  unfolding segment_set_number
  number-Sets k token p q o h =
      from_option (token_parse_int32 token) _ q (λ v. keeps p _ _ k o refl refl refl) h

  string-Sets : (k : ℕ) (token : Token) → Sets (λ p. segment_set_string p k token)
  unfolding segment_set_string
  string-Sets k token p q o h = set_some _ q (keeps p _ _ k o refl refl refl) h

  uninit-Sets : (k : ℕ) → Sets (λ p. some (segment_set_uninit p k))
  unfolding segment_set_uninit
  uninit-Sets k p q o h = set_some _ q (keeps p _ _ k o refl refl refl) h

  alternatives-Owns :
      (is_dw : Bool) (next : Rest) (p : Statement) (tokens : List Token) (k : ℕ)
      → Leaves next
      → Bare t p
      → Owns t (identifier_alternatives is_dw next p tokens k).1
  unfolding grammar_identifier_dup
  alternatives-Owns is_dw next p tokens k n b =
      let rest = n p (drop 1 tokens) b in
      let after = next p (drop 1 tokens) in
      let token = get_elem? tokens 0 in
      either_leaves (Owns t) (tokens_start_with tokens (TokenType.number ∷ TokenType.dup ∷ [])) _ _
        (segment_after-Owns (grammar_identifier_dup next p tokens k) (λ q. some q) set_some
          (set_dup_after-Owns (identifier_dup next p tokens k) k
            (identifier_dup-Owns next p tokens k n b)))
        (either_leaves (Owns t) (token_is token TokenType.number) _ _
          (segment_after-Owns after _
            (at_token-Sets token (λ q. segment_set_number q k) (number-Sets k)) rest)
          (either_leaves (Owns t) (token_is token TokenType.question) _ _
            (segment_after-Owns after _ (uninit-Sets k) rest)
            (either_leaves (Owns t) (not is_dw && token_is token TokenType.string) _ _
              (segment_after-Owns after _
                (at_token-Sets token (λ q. segment_set_string q k) (string-Sets k)) rest)
              (give_back-Owns p (Bare-Owns p b)))))

  appended-Bare : (p : Statement) → Bare t p → Bare t (segment_append p).1
  unfolding segment_append
  appended-Bare p b =
      appended (p.data_decl.segment_count == size_max) _ _ b
        (record { type = b.type; held = b.held; segments = b.segments })
    where
      appended :
          (c : Bool) (x y : ℕ × Statement) → Bare t x.1 → Bare t y.1 → Bare t (if c then x else y).1
      appended true x y b d = b
      appended false x y b d = d

  dec-Leaves :
      (is_dw : Bool) (next : Rest) → Leaves next → Leaves (grammar_identifier_dec is_dw next)
  unfolding grammar_identifier_dec
  dec-Leaves is_dw next n p tokens b =
      let (k, q) = segment_append p in
      let bare = appended-Bare p b in
      either_leaves (Owns t) (k == size_max) _ _ (Bare-Owns q bare)
        (alternatives-Owns is_dw next q tokens k n bare)

  match_or_no-Owns : (r : ErrGrm × Statement) → Owns t r.1 → Owns t (match_or_no r).1
  match_or_no-Owns (grm_match, p) o = o
  match_or_no-Owns (grm_no_match, p) o = o
  match_or_no-Owns (grm_generic_error, p) o = o

  -- jalloc refuses a block of no bytes, so a granted array has a segment.
  granted_segments :
      (m : Allocator) (n : ℕ)
      → jalloc m (n * init_segment_size % 2 ^ 64) ≡ true
      → live 2 ≡ owned (replicate n no_segment)
  unfolding jalloc
  granted_segments m zero h = absurd cc
  granted_segments m (suc n) h = refl

  finalized-Owns :
      (m : Allocator) (p : Statement) → Bare t p → Owns t (finalized p (segments_finalize m p)).1
  unfolding segments_finalize
  finalized-Owns m p b =
      granted (jalloc m (p.data_decl.segment_count * init_segment_size % 2 ^ 64)) refl
    where
      granted :
          (c : Bool)
          → jalloc m (p.data_decl.segment_count * init_segment_size % 2 ^ 64) ≡ c
          → Owns t
              (finalized p (
                if c
                then some (record p {
                  data_decl = record (p.data_decl) {
                    segments = replicate p.data_decl.segment_count no_segment;
                    is_fully_uninit = true;
                  };
                  held = count_up p.held;
                })
                else none)).1
      granted true h = record {
        type = b.type;
        held = ap count_up b.held ∙ granted_segments m p.data_decl.segment_count h;
      }
      granted false h = Bare-Owns p b

  dec2-Leaves :
      (fuel : ℕ) (m : Allocator) (is_dw : Bool) → Leaves (grammar_identifier_dec2 fuel m is_dw)
  unfolding grammar_identifier_dec2
  dec2-Leaves zero m is_dw p tokens b = Bare-Owns p b
  dec2-Leaves (suc fuel) m is_dw p tokens b =
      either_leaves (Owns t) (token_is (get_elem? tokens 0) TokenType.comma) _ _
        (match_or_no-Owns _ (
          dec-Leaves is_dw (grammar_identifier_dec2 fuel m is_dw) (dec2-Leaves fuel m is_dw) p
            (drop 1 tokens) b))
        (either_leaves (Owns t) (token_is_eof (get_elem? tokens 0)) _ _ (finalized-Owns m p b)
          (Bare-Owns p b))

-- What grammar_identifier_def leaves: a matching declaration with its blocks, or the statement's
-- own block alone.
abbrev pub Declared : StatementType → ErrGrm × Statement → Type 0
Declared t (grm_match, q) = Owns stmt_data_decl q
Declared t (_, q) = (q.type ≡ t) × (q.held ≡ live 1)

freed :
    (t : StatementType) (segs : List InitSegment) (q : Statement)
    → q.type ≡ t
    → q.held ≡ owned segs
    → ((free_segments segs q).type ≡ t) × ((free_segments segs q).held ≡ live 1)
freed t [] q e h = (e, h)
freed t (_ ∷ _) q e h = (e, ap jree h)

declared-Declared :
    (t : StatementType) (r : ErrGrm × Statement) (is_dw : Bool)
    → Owns t r.1
    → Declared t (declared r is_dw)
declared-Declared t (grm_match, q) is_dw o = record { type = refl; held = o.held }
declared-Declared t (grm_no_match, q) is_dw o = freed t q.data_decl.segments q o.type o.held
declared-Declared t (grm_generic_error, q) is_dw o = freed t q.data_decl.segments q o.type o.held

either-Declared :
    (t : StatementType) (b : Bool) (x y : ErrGrm × Statement)
    → Declared t x
    → Declared t y
    → Declared t (if b then x else y)
either-Declared t true x y p q = p
either-Declared t false x y p q = q

pub def-Declared :
    (t : StatementType) (m : Allocator) (p : Statement) (tokens : List Token)
    → Bare t p
    → Declared t (grammar_identifier_def m p tokens)
unfolding grammar_identifier_def
def-Declared t m p tokens b =
    let decs = λ (is_dw : Bool).
      dec-Leaves t is_dw (grammar_identifier_dec2 (length tokens) m is_dw)
        (dec2-Leaves t (length tokens) m is_dw) p (drop 1 tokens) b in
    either-Declared t (token_is (get_elem? tokens 0) TokenType.data_type) _ _
      (either-Declared t (is_dw_word (get_elem? tokens 0)) _ _
        (declared-Declared t _ true (decs true))
        (either-Declared t (is_db_word (get_elem? tokens 0)) _ _
          (declared-Declared t _ false (decs false)) (b.type, b.held)))
      (b.type, b.held)
