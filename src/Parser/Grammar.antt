-- ===== src/Parser/Grammar.antt =====
-- parser/grammar.c and parse_tokens of parser/parser.c: the alternatives of a line, tried in order
-- on one statement.
use kiv_pc_sw.Prelude.{
  ℕ, ◌+◌, ◌*◌, [], ◌∷◌, List, Option, none, some, if◌then◌else◌, get_elem?, drop, length,
}
use kiv_pc_sw.Common.{Allocator, jalloc, max_identifier_len}
use kiv_pc_sw.Instruction
use kiv_pc_sw.Lexer.Token.{TokenType, Token}
use kiv_pc_sw.Parser.Statement.{
  Statement, StatementType, stmt_none, stmt_kma, stmt_section_data, stmt_section_code,
  stmt_label_def, stmt_data_decl, stmt_instruction, par_no_error, par_empty_line, p_stmt_create,
}
use kiv_pc_sw.Parser.TokenHelpers.{token_is, token_is_eof, tokens_start_with, token_copy_value}
use kiv_pc_sw.Parser.Segments.{with_data_decl, segment_set_dd_total_size}
use kiv_pc_sw.Parser.Operands.{
  ErrGrm, grm_match, grm_no_match, grm_generic_error, grammar_instruction_rhs,
}
use kiv_pc_sw.Parser.Identifier.{grammar_identifier_def}

abbrev pub section_line : TokenType → StatementType → Statement → List Token → ErrGrm × Statement
section_line wanted type pstmt tokens =
    if tokens_start_with tokens (wanted ∷ TokenType.eof ∷ [])
    then (grm_match, record pstmt { type = type; err = par_no_error })
    else (grm_no_match, pstmt)

unfoldable pub grammar_line_kma : Statement → List Token → ErrGrm × Statement
unfolding tokens_start_with
grammar_line_kma = section_line TokenType.kma stmt_kma

unfoldable pub grammar_line_code : Statement → List Token → ErrGrm × Statement
unfolding tokens_start_with
grammar_line_code = section_line TokenType.section_code stmt_section_code

unfoldable pub grammar_line_data : Statement → List Token → ErrGrm × Statement
unfolding tokens_start_with
grammar_line_data = section_line TokenType.section_data stmt_section_data

abbrev pub copied : Option Token → Option (List ℕ)
copied none = none
copied (some token) = token_copy_value token max_identifier_len

unfoldable pub grammar_line_label : Statement → List Token → ErrGrm × Statement
unfolding tokens_start_with
grammar_line_label pstmt tokens =
    if tokens_start_with tokens (TokenType.label ∷ TokenType.eof ∷ [])
    then (let typed = record pstmt { type = stmt_label_def; err = par_no_error } in
        elim (copied (get_elem? tokens 0)) [
          | none ↦ (grm_generic_error, typed)
          | some name ↦ (grm_match, record typed { label_name = name })
        ])
    else (grm_no_match, pstmt)

abbrev pub identifier_after : ErrGrm × Statement → List Token → ErrGrm × Statement
identifier_after (grm_match, pstmt) tokens =
    let typed = record pstmt { type = stmt_data_decl; err = par_no_error } in
    let dd = segment_set_dd_total_size typed.data_decl in
    elim (copied (get_elem? tokens 0)) [
      | none ↦ (grm_generic_error, with_data_decl typed dd)
      | some name ↦ (grm_match, with_data_decl typed (record dd { identifier = name }))
    ]
identifier_after (_, pstmt) tokens = (grm_no_match, pstmt)

unfoldable pub grammar_line_identifier : Allocator → Statement → List Token → ErrGrm × Statement
unfolding grammar_identifier_def segment_set_dd_total_size
grammar_line_identifier m pstmt tokens =
    if token_is (get_elem? tokens 0) TokenType.identifier
    then identifier_after (grammar_identifier_def m pstmt (drop 1 tokens)) tokens
    else (grm_no_match, pstmt)

abbrev pub found : Option Token → Statement → Option Instruction.Descriptor
found none pstmt = none
found (some token) pstmt =
    let is = pstmt.instruction in
    Instruction.find token.value (length token.value) is.operand0.type is.operand1.type

abbrev pub instruction_after : ErrGrm × Statement → List Token → ErrGrm × Statement
instruction_after (grm_match, pstmt) tokens =
    let is = pstmt.instruction in
    let d = found (get_elem? tokens 0) pstmt in
    let typed = record pstmt {
      type = stmt_instruction;
      err = par_no_error;
      instruction = record is { descriptor = d };
    } in
    elim d [ none ↦ (grm_generic_error, typed) | some _ ↦ (grm_match, typed) ]
instruction_after (_, pstmt) tokens = (grm_no_match, pstmt)

unfoldable pub grammar_line_instruction : Statement → List Token → ErrGrm × Statement
unfolding grammar_instruction_rhs
grammar_line_instruction pstmt tokens =
    if token_is (get_elem? tokens 0) TokenType.instruction
    then instruction_after (grammar_instruction_rhs pstmt (drop 1 tokens)) tokens
    else (grm_no_match, pstmt)

-- if (alternative == GRM_MATCH) return GRM_MATCH; the next one goes on with the same statement.
abbrev pub or_else : ErrGrm × Statement → (Statement → ErrGrm × Statement) → ErrGrm × Statement
or_else (grm_match, pstmt) next = (grm_match, pstmt)
or_else (_, pstmt) next = next pstmt

abbrev pub empty_line : List Token → Statement → ErrGrm × Statement
empty_line tokens pstmt =
    if token_is_eof (get_elem? tokens 0)
    then (grm_match, record pstmt { type = stmt_none; err = par_empty_line })
    else (grm_no_match, pstmt)

unfoldable pub grammar_line : Allocator → Statement → List Token → ErrGrm × Statement
unfolding grammar_line_kma grammar_line_code grammar_line_data grammar_line_label
    grammar_line_identifier grammar_line_instruction
grammar_line m pstmt tokens = or_else (grammar_line_kma pstmt tokens) λ p1.
    or_else (grammar_line_code p1 tokens) λ p2. or_else (grammar_line_data p2 tokens) λ p3.
      or_else (grammar_line_label p3 tokens) λ p4.
        or_else (grammar_line_identifier m p4 tokens)
          λ p5. or_else (grammar_line_instruction p5 tokens) (empty_line tokens)

-- sizeof (struct Parsed_Statement)
abbrev pub statement_size : ℕ
statement_size = 560

abbrev pub matched : ErrGrm × Statement → Option Statement
matched (grm_match, pstmt) = some pstmt
matched (_, pstmt) = none

-- parse_tokens
unfoldable pub parse_tokens : Allocator → List Token → ℕ → Option Statement
unfolding grammar_line p_stmt_create
parse_tokens m tokens nl =
    if jalloc m statement_size then matched (grammar_line m (p_stmt_create nl) tokens) else none

-- convert_parse_tokens of assembler/convert.c, with the array of pointers that it allocates.
unfoldable pub convert_parse_tokens : Allocator → List Token → ℕ → Option Statement
unfolding parse_tokens
convert_parse_tokens m tokens nl =
    if jalloc m ((length tokens + 1) * 8) then parse_tokens m tokens nl else none
