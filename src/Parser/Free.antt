-- ===== src/Parser/Free.antt =====
-- p_stmt_deinit and p_stmt_free of parser/parser.c, and the count of live blocks over parse_tokens
-- and convert_parse_tokens.
use kiv_pc_sw.Prelude.{ℕ, ◌+◌, ◌*◌, [], List, if◌then◌else◌, length}
use kiv_pc_sw.Common.{Allocator, jalloc}
use kiv_pc_sw.Memory.{Live, count_up, jree, both}
use kiv_pc_sw.Lexer.Token.{Token}
use kiv_pc_sw.Parser.Statement.{
  Statement, StatementType, stmt_none, stmt_label_def, stmt_data_decl, stmt_instruction,
  par_no_error, no_instruction, no_data_decl, p_stmt_create,
}
use kiv_pc_sw.Parser.Operands.{ErrGrm, grm_match}
use kiv_pc_sw.Parser.Identifier.{free_segments}
use kiv_pc_sw.Parser.Grammar.{grammar_line, statement_size}

-- The member of the union that goes with the type.
abbrev pub clear_content : StatementType → Statement → Statement
clear_content stmt_label_def ps = record ps { label_name = [] }
clear_content stmt_data_decl ps = record (free_segments ps.data_decl.segments ps) {
  data_decl = no_data_decl;
}
clear_content stmt_instruction ps = record ps { instruction = no_instruction }
clear_content _ ps = ps

unfoldable pub p_stmt_deinit : Statement → Statement
p_stmt_deinit ps = record (clear_content ps.type ps) {
  type = stmt_none;
  line_number = 0;
  err = par_no_error;
}

-- What is left of the statement's own count.
unfoldable pub p_stmt_free : Statement → Live
unfolding p_stmt_deinit
p_stmt_free stmt = jree (p_stmt_deinit stmt).held

-- The count behind grammar_line: a statement that is returned keeps its blocks, another is freed.
abbrev pub matched_count : ErrGrm × Statement → Live → Live
matched_count (grm_match, stmt) c = c
matched_count (_, stmt) c = both c (p_stmt_free stmt)

-- The count without the blocks of the statement that is returned.
unfoldable pub parse_tokens_count : Allocator → List Token → ℕ → Live → Live
unfolding grammar_line p_stmt_create p_stmt_free
parse_tokens_count m tokens nl c =
    if jalloc m statement_size
    then matched_count (grammar_line m (p_stmt_create nl) tokens) c
    else c

-- convert_tokens_to_arr and convert_free_tokens_arr around it.
unfoldable pub convert_parse_tokens_count : Allocator → List Token → ℕ → Live → Live
unfolding parse_tokens_count
convert_parse_tokens_count m tokens nl c =
    if jalloc m ((length tokens + 1) * 8)
    then jree (parse_tokens_count m tokens nl (count_up c))
    else c
