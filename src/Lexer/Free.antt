-- ===== src/Lexer/Free.antt =====
-- The count of live blocks over lexer_tokenize_line: tok_arr_init, tok_arr_deinit and
-- lexer_free_tokens.
use kiv_pc_sw.Prelude.{ℕ, ◌*◌, Option, none, some}
use kiv_pc_sw.Prelude.Text.{Text}
use kiv_pc_sw.Common.{Allocator, dynamic_array_initial_capacity}
use kiv_pc_sw.Memory.{Live, jalloc_count, jree}
use kiv_pc_sw.Lexer.Token.{token_size}
use kiv_pc_sw.Lexer.TokenArray
use kiv_pc_sw.Lexer.TokenArray.{TokenArr}
use kiv_pc_sw.Lexer.Line.{Tokenized, tokens, tokenize_line}

unfoldable pub tok_arr_init_count : Allocator → Live → Live
unfolding jalloc_count
tok_arr_init_count m c = jalloc_count m (dynamic_array_initial_capacity * token_size) c

-- Only an array that tok_arr_init allocated is there to be freed.
unfoldable pub tok_arr_deinit_count : Option TokenArr → Live → Live
tok_arr_deinit_count none c = c
tok_arr_deinit_count (some arr) c = jree c

-- The array is handed out, or freed on the way out.
abbrev pub tokenized_count : Tokenized → Option TokenArr → Live → Live
tokenized_count (tokens ts) arr c = c
tokenized_count _ arr c = tok_arr_deinit_count arr c

unfoldable pub tokenize_line_count : Allocator → Text → ℕ → Live → Live
unfolding tok_arr_init_count tok_arr_deinit_count
tokenize_line_count m line nl c =
    tokenized_count (tokenize_line m line nl) (TokenArray.init m) (tok_arr_init_count m c)

unfoldable pub lexer_free_tokens_count : Live → Live
lexer_free_tokens_count c = jree c
