-- ===== src/Parser/DeclarationShape.antt =====
-- The recursion of _grammar_identifier_dec and _grammar_identifier_dec2 over the whole declaration.
use kiv_pc_sw.Prelude.{
  ℕ, zero, suc, ◌≡◌, refl, sym, ap, subst, Bool, true, false, [], ◌∷◌, List, none, some, arith,
  if◌then◌else◌, if_cases, get_elem?, drop, length, length-replicate, replicate, not, ◌&&◌, ◌==◌,
  some_inj,
}
use kiv_pc_sw.Common.{Allocator, size_max}
use kiv_pc_sw.Lexer.Token.{TokenType, Token}
use kiv_pc_sw.Parser.Statement.{Statement, InitSegment, DataType, data_dword, data_byte, no_segment}
use kiv_pc_sw.Parser.TokenHelpers.{tokens_start_with, token_is, token_is_eof}
use kiv_pc_sw.Parser.Segments.{segments_finalize, segment_set_number, segment_set_string}
use kiv_pc_sw.Parser.Operands.{ErrGrm, grm_match, grm_no_match, grm_generic_error}
use kiv_pc_sw.Parser.Identifier.{
  Rest, identifier_dup, grammar_identifier_dup, identifier_alternatives, grammar_identifier_dec,
  grammar_identifier_dec2, match_or_no, finalized, free_segments, declared, is_dw_word, is_db_word,
  grammar_identifier_def,
}
use kiv_pc_sw.Parser.Shape.{SegmentsShape}
use kiv_pc_sw.Parser.DataShape.{
  Filled, segments_of, match_segments, no_match_ne, identifier_dup-Dup,
}
use kiv_pc_sw.Parser.SegmentShape.{
  Fills, FillsAt, number_FillsAt, string_FillsAt, uninit_FillsAt, at_token_FillsAt,
  segment_after-Filled, Dup-Filled,
}

string_case :
    (is_dw b : Bool) (k : ℕ) (token : Token)
    → (not is_dw && b) ≡ true
    → FillsAt (if is_dw then data_dword else data_byte) k (λ p. segment_set_string p k token)
string_case true b k token h = absurd cc
string_case false b k token h = string_FillsAt k token

-- The alternatives for the segment at `k`, which is the last one appended so far.
alternatives_Filled :
    (is_dw : Bool) (next : Rest) (p : Statement) (tokens : List Token) (k : ℕ) {q : Statement}
    → Fills (if is_dw then data_dword else data_byte) next
    → p.data_decl.segment_count ≡ suc k
    → identifier_alternatives is_dw next p tokens k ≡ (grm_match, q)
    → Filled (if is_dw then data_dword else data_byte) k (segments_of q)
unfolding grammar_identifier_dup
alternatives_Filled is_dw next p tokens k n c h =
    let dt = if is_dw then data_dword else data_byte in
    let filled : (mid : Statement)
        → next p (drop 1 tokens) ≡ (grm_match, mid)
        → Filled dt (suc k) (segments_of mid) =
      λ mid e. subst (λ j. Filled dt j (segments_of mid)) c (n p (drop 1 tokens) mid e) in
    if_cases (tokens_start_with tokens (TokenType.number ∷ TokenType.dup ∷ [])) _ _ h
      (λ t h.
        segment_after-Filled (grammar_identifier_dup next p tokens k) (λ s. some s) dt k
          (λ mid e s same.
            subst (λ r. Filled dt k (segments_of r)) (some_inj same)
              (Dup-Filled (identifier_dup next p tokens k) next dt k p (drop 5 tokens)
                (λ s. identifier_dup-Dup next p tokens k) n c e))
          h)
      (λ f h.
        if_cases (token_is (get_elem? tokens 0) TokenType.number) _ _ h
          (λ t h.
            segment_after-Filled (next p (drop 1 tokens)) _ dt k
              (λ mid e s set.
                at_token_FillsAt (get_elem? tokens 0) dt k (λ r. segment_set_number r k)
                  (number_FillsAt dt k) mid s set (filled mid e))
              h)
          (λ f h.
            if_cases (token_is (get_elem? tokens 0) TokenType.question) _ _ h
              (λ t h.
                segment_after-Filled (next p (drop 1 tokens)) _ dt k
                  (λ mid e s set. uninit_FillsAt dt k mid s set (filled mid e)) h)
              (λ f h.
                if_cases (not is_dw && token_is (get_elem? tokens 0) TokenType.string) _ _ h
                  (λ t h.
                    segment_after-Filled (next p (drop 1 tokens)) _ dt k
                      (λ mid e s set.
                        at_token_FillsAt (get_elem? tokens 0) dt k (λ r. segment_set_string r k)
                          (λ token. string_case is_dw _ k token t) mid s set (filled mid e))
                      h)
                  (λ f h. cc))))

appended_Filled :
    (b : Bool) (is_dw : Bool) (next : Rest) (p : Statement) (tokens : List Token) (x : Statement)
    (n : ℕ) {q : Statement}
    → (b ≡ (n == size_max))
    → Fills (if is_dw then data_dword else data_byte) next
    → x.data_decl.segment_count ≡ suc n
    → (let r : ℕ × Statement = if b then (size_max, p) else (n, x) in
        if r.0 == size_max
        then (grm_no_match, r.1)
        else identifier_alternatives is_dw next r.1 tokens r.0)
      ≡ (grm_match, q)
    → Filled (if is_dw then data_dword else data_byte) n (segments_of q)
appended_Filled true is_dw next p tokens x n e f c h = cc
appended_Filled false is_dw next p tokens x n e f c h =
    if_cases (n == size_max) _ _ h (λ t. no_match_ne x)
      (λ g. alternatives_Filled is_dw next x tokens n f c)

-- A matching segment, and all behind it, are filled in.
dec_Filled :
    (is_dw : Bool) (next : Rest)
    → Fills (if is_dw then data_dword else data_byte) next
    → Fills (if is_dw then data_dword else data_byte) (grammar_identifier_dec is_dw next)
unfolding grammar_identifier_dec
dec_Filled is_dw next n p tokens q h =
    appended_Filled (p.data_decl.segment_count == size_max) is_dw next p tokens _
      p.data_decl.segment_count refl n (omega arith) h

drop-replicate : (n : ℕ) (seg : InitSegment) → drop n (replicate n seg) ≡ []
drop-replicate zero seg = refl
drop-replicate (suc n) seg = drop-replicate n seg

blank_Filled : (dt : DataType) (n : ℕ) → Filled dt n (replicate n no_segment)
blank_Filled dt n = record {
  enough = omega (arith, length-replicate n no_segment);
  shaped = subst (SegmentsShape dt) (sym (drop-replicate n no_segment)) tt;
}

finalized-Filled :
    (b : Bool) (dt : DataType) (p x : Statement) {q : Statement}
    → segments_of x ≡ replicate p.data_decl.segment_count no_segment
    → finalized p (if b then some x else none) ≡ (grm_match, q)
    → Filled dt p.data_decl.segment_count (segments_of q)
finalized-Filled true dt p x e h = match_segments (Filled dt p.data_decl.segment_count) x h (
    subst (Filled dt p.data_decl.segment_count) (sym e) (blank_Filled dt p.data_decl.segment_count))
finalized-Filled false dt p x e h = cc

match_or_no_match :
    (r : ErrGrm × Statement) {q : Statement} → match_or_no r ≡ (grm_match, q) → r ≡ (grm_match, q)
match_or_no_match (grm_match, p) h = h
match_or_no_match (grm_no_match, p) h = h
match_or_no_match (grm_generic_error, p) h = cc

dec2_Filled :
    (fuel : ℕ) (m : Allocator) (is_dw : Bool)
    → Fills (if is_dw then data_dword else data_byte) (grammar_identifier_dec2 fuel m is_dw)
unfolding grammar_identifier_dec2 segments_finalize
dec2_Filled zero m is_dw p tokens q h = cc
dec2_Filled (suc fuel) m is_dw p tokens q h =
    if_cases (token_is (get_elem? tokens 0) TokenType.comma) _ _ h
      (λ t h.
        dec_Filled is_dw (grammar_identifier_dec2 fuel m is_dw) (dec2_Filled fuel m is_dw) p
          (drop 1 tokens) q (match_or_no_match _ h))
      (λ f h.
        if_cases (token_is_eof (get_elem? tokens 0)) _ _ h
          (λ t. finalized-Filled _ (if is_dw then data_dword else data_byte) p _ refl)
          (λ f. no_match_ne p))

-- A declaration in its shape: its segments have the counts that go with the data type.
abbrev Declares : Statement → Type 0
Declares q = SegmentsShape q.data_decl.type q.data_decl.segments

declared-Declares :
    (r : ErrGrm × Statement) (is_dw : Bool) {q : Statement}
    → ((s : Statement)
        → r ≡ (grm_match, s)
        → Filled (if is_dw then data_dword else data_byte) 0 (segments_of s))
    → declared r is_dw ≡ (grm_match, q)
    → Declares q
declared-Declares (grm_match, s) is_dw f h =
    subst Declares (ap (λ (r : ErrGrm × Statement). r.1) h) (f s refl).shaped
declared-Declares (grm_no_match, s) is_dw f h = no_match_ne (free_segments s.data_decl.segments s) h
declared-Declares (grm_generic_error, s) is_dw f h =
    no_match_ne (free_segments s.data_decl.segments s) h

-- Every match of grammar_identifier_def on a statement without segments leaves segments whose
-- element counts go with their types.
pub grammar_identifier_def-SegmentsShape :
    (m : Allocator) (p : Statement) (tokens : List Token) {q : Statement}
    → p.data_decl.segment_count ≡ 0
    → grammar_identifier_def m p tokens ≡ (grm_match, q)
    → SegmentsShape q.data_decl.type q.data_decl.segments
unfolding grammar_identifier_def
grammar_identifier_def-SegmentsShape m p tokens c h =
    let filled : (is_dw : Bool) (s : Statement)
        → grammar_identifier_dec is_dw (grammar_identifier_dec2 (length tokens) m is_dw) p
            (drop 1 tokens)
          ≡ (grm_match, s)
        → Filled (if is_dw then data_dword else data_byte) 0 (segments_of s) =
      λ is_dw s e.
        subst (λ k. Filled (if is_dw then data_dword else data_byte) k (segments_of s)) c
          (dec_Filled is_dw _ (dec2_Filled (length tokens) m is_dw) p (drop 1 tokens) s e) in
    if_cases (token_is (get_elem? tokens 0) TokenType.data_type) _ _ h
      (λ t h.
        if_cases (is_dw_word (get_elem? tokens 0)) _ _ h
          (λ t. declared-Declares _ true (filled true))
          (λ f h.
            if_cases (is_db_word (get_elem? tokens 0)) _ _ h
              (λ t. declared-Declares _ false (filled false)) (λ f. no_match_ne p)))
      (λ f. no_match_ne p)
