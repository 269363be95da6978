-- ===== src/Assembler/Free.antt =====
-- The count of live blocks over assembler/: the parts of the state, the tokens and the statement of
-- a line, and the line that a pass reads into.
use kiv_pc_sw.Prelude.{ℕ, ◌+◌, Bool, true, false, List, [], ◌∷◌, Option, none, some, if◌then◌else◌}
use kiv_pc_sw.Prelude.Text.{Text}
use kiv_pc_sw.Common.{Allocator, Heap, jalloc}
use kiv_pc_sw.Memory.{Live, count_up, jree, both}
use kiv_pc_sw.Dataseg
use kiv_pc_sw.Segment
use kiv_pc_sw.Segment.Free.{cdsg_create_count, cdsg_free_count}
use kiv_pc_sw.Symbol
use kiv_pc_sw.Symbol.Free.{symtab_create_count, symtab_free_count}
use kiv_pc_sw.FileUtil.{fu_getline_init_len}
use kiv_pc_sw.Lexer.Line.{Tokenized, tokens, tokenize_line}
use kiv_pc_sw.Lexer.Free.{tokenize_line_count, lexer_free_tokens_count}
use kiv_pc_sw.Parser.Statement.{Statement}
use kiv_pc_sw.Parser.Grammar.{convert_parse_tokens}
use kiv_pc_sw.Parser.Free.{p_stmt_free, convert_parse_tokens_count}
use kiv_pc_sw.Assembler.Types.{asc_file_start, asm_no_error, State, Outcome}
use kiv_pc_sw.Assembler.Run.{passes_line, passes_any_pass}

-- A part that is there is freed.
abbrev pub freed_if {ℓ} : {A : Type ℓ} → Option A → (Live → Live) → Live → Live
freed_if none free c = c
freed_if (some _) free c = free c

abbrev pub asp_deinit_count :
    Option Symbol.SymbolTable → Option Segment.Segment → Option Segment.Segment → Live → Live
asp_deinit_count symtab dtsg cdsg c =
    freed_if cdsg cdsg_free_count
      (freed_if dtsg cdsg_free_count (freed_if symtab symtab_free_count c))

-- The parts are NULL after a failed asp_init, so that asp_free finds the struct alone.
abbrev pub with_cdsg : Symbol.SymbolTable → Segment.Segment → Option Segment.Segment → Live → Live
with_cdsg symtab dtsg none c = jree (asp_deinit_count (some symtab) (some dtsg) none c)
with_cdsg symtab dtsg (some cdsg) c = c

abbrev pub with_dtsg : Heap → Symbol.SymbolTable → Option Segment.Segment → Live → Live
with_dtsg m symtab none c = jree (asp_deinit_count (some symtab) none none c)
with_dtsg m symtab (some dtsg) c =
    with_cdsg symtab dtsg (Segment.create (m 3)) (cdsg_create_count (m 3) c)

abbrev pub with_symtab : Heap → Option Symbol.SymbolTable → Live → Live
with_symtab m none c = jree (asp_deinit_count none none none c)
with_symtab m (some symtab) c =
    with_dtsg m symtab (Dataseg.create (m 2)) (cdsg_create_count (m 2) c)

unfoldable pub asp_create_count : Heap → Live → Live
unfolding symtab_create_count cdsg_create_count symtab_free_count cdsg_free_count
asp_create_count m c =
    if jalloc (m 0) 32
    then with_symtab m (Symbol.create (m 1)) (symtab_create_count (m 1) (count_up c))
    else c

-- All parts, then the struct.
unfoldable pub asp_free_count : State → Live → Live
unfolding symtab_free_count cdsg_free_count
asp_free_count asp c = jree (asp_deinit_count (some asp.symtab) (some asp.dtsg) (some asp.cdsg) c)

-- The cleanup of passes_line: the tokens, then the statement if there is one.
abbrev pub line_freed : Option Statement → Live → Live
line_freed none c = lexer_free_tokens_count c
line_freed (some pstmt) c = both (lexer_free_tokens_count c) (p_stmt_free pstmt)

abbrev pub tokens_count : Tokenized → Allocator → ℕ → Live → Live
tokens_count (tokens ts) m nl c =
    line_freed (convert_parse_tokens m ts nl) (convert_parse_tokens_count m ts nl c)
tokens_count _ m nl c = c

-- What the passes do with a statement allocates no block: the arrays of the state only grow.
unfoldable pub passes_line_count : Allocator → ℕ → Text → Live → Live
unfolding tokenize_line_count lexer_free_tokens_count p_stmt_free convert_parse_tokens_count
passes_line_count m nl line c =
    tokens_count (tokenize_line m line nl) m nl (tokenize_line_count m line nl c)

abbrev pub if_ok : Outcome → (State → Live) → Live → Live
if_ok (asm_no_error, st) next c = next st
if_ok (_, st) next c = c

unfoldable pub passes_lines_count : Bool → Heap → State → ℕ → List Text → Live → Live
unfolding passes_line_count
passes_lines_count is_second m st nl [] c = c
passes_lines_count is_second m st nl (line ∷ lines) c =
    let c' = passes_line_count (m nl) nl line c in
    if_ok (passes_line is_second (m nl) st nl line)
      (λ st'. passes_lines_count is_second m st' (nl + 1) lines c') c'

-- `b` is the heap that fu_getline meets: its first call allocates the line, and the cleanup frees it.
unfoldable pub passes_any_pass_count :
    Bool → Heap → Allocator → State → Option (List Text) → Live → Live
unfolding passes_lines_count
passes_any_pass_count is_second m b st none c = c
passes_any_pass_count is_second m b st (some lines) c =
    let start = record st { ctx = asc_file_start } in
    if jalloc b fu_getline_init_len
    then jree (passes_lines_count is_second m start 1 lines (count_up c))
    else passes_lines_count is_second m start 1 lines c

unfoldable pub process_assembler_count :
    Heap
    → Heap
    → Allocator
    → Allocator
    → State
    → Option (List Text)
    → Option (List Text)
    → Live
    → Live
unfolding passes_any_pass_count
process_assembler_count m1 m2 b1 b2 st file1 file2 c =
    let c' = passes_any_pass_count false m1 b1 st file1 c in
    if_ok (passes_any_pass false m1 st file1)
      (λ st'.
        passes_any_pass_count true m2 b2
          (record st' { cdsg = Segment.begin st'.cdsg; dtsg = Dataseg.begin st'.dtsg }) file2 c')
      c'
