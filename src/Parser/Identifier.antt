-- ===== src/Parser/Identifier.antt =====
-- parser/identifier.c: data declarations. The functions for DWORD and for BYTE differ in the flag
-- `is_dw` alone, which they pass on, and stand here as one function each. The recursion of
-- dec2 through dec and dup takes fuel: each round passes a comma, so the number of tokens is enough.
use kiv_pc_sw.Prelude.{
  ℕ, zero, suc, Bool, true, false, not, ◌==◌, ◌&&◌, ◌||◌, [], ◌∷◌, List, Option, none, some,
  if◌then◌else◌, get_elem?, drop, length,
}
use kiv_pc_sw.Prelude.Text.{codes, str_eq}
use kiv_pc_sw.Common.{Allocator, size_max}
use kiv_pc_sw.Memory.{jree}
use kiv_pc_sw.Lexer.Token.{TokenType, Token}
use kiv_pc_sw.Parser.Statement.{
  Statement, InitSegment, data_dword, data_byte, stmt_data_decl, par_no_error,
}
use kiv_pc_sw.Parser.TokenHelpers.{
  token_is, token_is_eof, tokens_start_with, token_value_eq, token_parse_int32, token_parse_size_t,
}
use kiv_pc_sw.Parser.Segments.{
  with_data_decl, update_at, segment_append, segments_finalize, segment_remove_last,
  segment_set_dup, segment_set_number, segment_set_uninit, segment_set_string,
}
use kiv_pc_sw.Parser.Operands.{ErrGrm, grm_match, grm_no_match}

-- What follows a declared segment: the rest of the tokens, from where the segment ends.
abbrev pub Rest : Type 0
Rest = Statement → List Token → ErrGrm × Statement

abbrev pub dup_marked : Bool → InitSegment → InitSegment
dup_marked is_uninit seg = record seg { is_uninit = is_uninit }

abbrev pub dup_count_read : ℕ → InitSegment → InitSegment
dup_count_read count seg = record seg { dup_count = count }

abbrev pub dup_value_read : ℕ → InitSegment → InitSegment
dup_value_read value seg = record seg { dup_value = value }

abbrev pub change_segment : Statement → ℕ → (InitSegment → InitSegment) → Statement
change_segment pstmt i f =
    let dd = pstmt.data_decl in
    with_data_decl pstmt (record dd { segments = update_at f i dd.segments })

abbrev pub parse_int32_at : List Token → ℕ → Option ℕ
parse_int32_at tokens i = elim (get_elem? tokens i) [ none ↦ none | some t ↦ token_parse_int32 t ]

abbrev pub parse_size_t_at : List Token → ℕ → Option ℕ
parse_size_t_at tokens i = elim (get_elem? tokens i) [ none ↦ none | some t ↦ token_parse_size_t t ]

-- The values of a DUP, once the rest of the line has matched. A failure leaves what is written.
abbrev pub dup_values : Statement → List Token → ℕ → Bool → ErrGrm × Statement
dup_values pstmt tokens segment_idx is_uninit =
    let marked = change_segment pstmt segment_idx (dup_marked is_uninit) in
    elim (parse_size_t_at tokens 0) [
      | none ↦ (grm_no_match, marked)
      | some count ↦
          let counted = change_segment marked segment_idx (dup_count_read count) in
          if is_uninit then (grm_match, counted) else elim (parse_int32_at tokens 3) [
            | none ↦ (grm_no_match, counted)
            | some value ↦ (grm_match, change_segment counted segment_idx (dup_value_read value))
          ]
    ]

abbrev pub dup_after : ErrGrm × Statement → List Token → ℕ → Bool → ErrGrm × Statement
dup_after (grm_match, pstmt) tokens segment_idx is_uninit =
    dup_values pstmt tokens segment_idx is_uninit
dup_after (_, pstmt) tokens segment_idx is_uninit = (grm_no_match, pstmt)

-- _grammar_identifier_dup
unfoldable pub identifier_dup : Rest → Statement → List Token → ℕ → ErrGrm × Statement
identifier_dup next pstmt tokens segment_idx =
    if token_is (get_elem? tokens 0) TokenType.number
      && token_is (get_elem? tokens 1) TokenType.dup
      && token_is (get_elem? tokens 2) TokenType.lparen
      && token_is (get_elem? tokens 4) TokenType.rparen
    then (if token_is (get_elem? tokens 3) TokenType.number
        then dup_after (next pstmt (drop 5 tokens)) tokens segment_idx false
        else if token_is (get_elem? tokens 3) TokenType.question
        then dup_after (next pstmt (drop 5 tokens)) tokens segment_idx true
        else (grm_no_match, pstmt))
    else (grm_no_match, pstmt)

abbrev pub set_dup_after : ErrGrm × Statement → ℕ → ErrGrm × Statement
set_dup_after (grm_match, pstmt) segment_idx = (grm_match, segment_set_dup pstmt segment_idx)
set_dup_after other segment_idx = other

-- grammar_identifier_dw_dup and grammar_identifier_db_dup
unfoldable pub grammar_identifier_dup : Rest → Statement → List Token → ℕ → ErrGrm × Statement
unfolding identifier_dup segment_set_dup
grammar_identifier_dup next pstmt tokens segment_idx =
    set_dup_after (identifier_dup next pstmt tokens segment_idx) segment_idx

-- The cleanup of _grammar_identifier_dec: the segment is given back.
abbrev pub give_back : Statement → ErrGrm × Statement
give_back pstmt = (grm_no_match, segment_remove_last pstmt)

-- CLEANUP_IF_FAIL (… == GRM_MATCH), and then the segment's own setter, which may fail too.
abbrev pub segment_after : ErrGrm × Statement → (Statement → Option Statement) → ErrGrm × Statement
segment_after (grm_match, pstmt) setter = elim (setter pstmt) [
  | some pstmt' ↦ (grm_match, pstmt')
  | none ↦ give_back pstmt
]
segment_after (_, pstmt) setter = give_back pstmt

abbrev pub at_token : List Token → (Token → Option Statement) → Option Statement
at_token tokens f = elim (get_elem? tokens 0) [ none ↦ none | some token ↦ f token ]

-- The alternatives of _grammar_identifier_dec for the segment at `segment_idx`.
abbrev pub identifier_alternatives : Bool → Rest → Statement → List Token → ℕ → ErrGrm × Statement
identifier_alternatives is_dw next pstmt tokens segment_idx =
    if tokens_start_with tokens (TokenType.number ∷ TokenType.dup ∷ [])
    then segment_after (grammar_identifier_dup next pstmt tokens segment_idx) (λ p. some p)
    else if token_is (get_elem? tokens 0) TokenType.number
    then segment_after (next pstmt (drop 1 tokens))
        (λ p. at_token tokens (segment_set_number p segment_idx))
    else if token_is (get_elem? tokens 0) TokenType.question
    then segment_after (next pstmt (drop 1 tokens)) (λ p. some (segment_set_uninit p segment_idx))
    else if not is_dw && token_is (get_elem? tokens 0) TokenType.string
    then segment_after (next pstmt (drop 1 tokens))
        (λ p. at_token tokens (segment_set_string p segment_idx))
    else give_back pstmt

-- _grammar_identifier_dec, grammar_identifier_dw_dec and grammar_identifier_db_dec
unfoldable pub grammar_identifier_dec : Bool → Rest → Statement → List Token → ErrGrm × Statement
unfolding tokens_start_with segment_append segment_remove_last segment_set_number segment_set_uninit
    segment_set_string grammar_identifier_dup
grammar_identifier_dec is_dw next pstmt tokens =
    let (segment_idx, pstmt') = segment_append pstmt in
    if segment_idx == size_max
    then (grm_no_match, pstmt')
    else identifier_alternatives is_dw next pstmt' tokens segment_idx

abbrev pub match_or_no : ErrGrm × Statement → ErrGrm × Statement
match_or_no (grm_match, pstmt) = (grm_match, pstmt)
match_or_no (_, pstmt) = (grm_no_match, pstmt)

abbrev pub finalized : Statement → Option Statement → ErrGrm × Statement
finalized pstmt none = (grm_no_match, pstmt)
finalized pstmt (some pstmt') = (grm_match, pstmt')

-- _grammar_identifier_dec2, grammar_identifier_dw_dec2 and grammar_identifier_db_dec2
unfoldable pub grammar_identifier_dec2 :
    ℕ → Allocator → Bool → Statement → List Token → ErrGrm × Statement
unfolding segments_finalize grammar_identifier_dec
grammar_identifier_dec2 zero m is_dw pstmt tokens = (grm_no_match, pstmt)
grammar_identifier_dec2 (suc fuel) m is_dw pstmt tokens =
    let rest =
      match_or_no (
        grammar_identifier_dec is_dw (grammar_identifier_dec2 fuel m is_dw) pstmt
          (drop 1 tokens)) in
    if token_is (get_elem? tokens 0) TokenType.comma
    then rest
    else if token_is_eof (get_elem? tokens 0)
    then finalized pstmt (segments_finalize m pstmt)
    else (grm_no_match, pstmt)

-- The cleanup of grammar_identifier_def. The pointer to the freed segments stays.
abbrev pub free_segments : List InitSegment → Statement → Statement
free_segments [] pstmt = pstmt
free_segments (_ ∷ _) pstmt = record pstmt { held = jree pstmt.held }

abbrev pub declared : ErrGrm × Statement → Bool → ErrGrm × Statement
declared (grm_match, pstmt) is_dw =
    let dd = pstmt.data_decl in
    (
      grm_match,
      record pstmt {
        type = stmt_data_decl;
        err = par_no_error;
        data_decl = record dd { type = if is_dw then data_dword else data_byte };
      },
    )
declared (_, pstmt) is_dw = (grm_no_match, free_segments pstmt.data_decl.segments pstmt)

abbrev pub is_dw_word : Option Token → Bool
is_dw_word none = false
is_dw_word (some tok) = token_value_eq tok (codes "DWORD") || token_value_eq tok (codes "DW")

abbrev pub is_db_word : Option Token → Bool
is_db_word none = false
is_db_word (some tok) = token_value_eq tok (codes "BYTE") || token_value_eq tok (codes "DB")

unfoldable pub grammar_identifier_def : Allocator → Statement → List Token → ErrGrm × Statement
unfolding grammar_identifier_dec grammar_identifier_dec2 str_eq
grammar_identifier_def m pstmt tokens =
    let decs = λ (is_dw : Bool).
      grammar_identifier_dec is_dw (grammar_identifier_dec2 (length tokens) m is_dw) pstmt
        (drop 1 tokens) in
    if token_is (get_elem? tokens 0) TokenType.data_type
    then (if is_dw_word (get_elem? tokens 0)
        then declared (decs true) true
        else if is_db_word (get_elem? tokens 0)
        then declared (decs false) false
        else (grm_no_match, pstmt))
    else (grm_no_match, pstmt)
