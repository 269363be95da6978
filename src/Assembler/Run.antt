-- ===== src/Assembler/Run.antt =====
-- passes_any_pass and passes_line of assembler/passes.c, and assembler.c: the two passes over the
-- lines of the file, and process_assembler.
use kiv_pc_sw.Prelude.{ℕ, ◌+◌, Bool, true, false, List, [], ◌∷◌, Option, none, some, if◌then◌else◌}
use kiv_pc_sw.Prelude.Text.{Text}
use kiv_pc_sw.Common.{Allocator, Heap, jalloc, ErrMain}
use kiv_pc_sw.Dataseg
use kiv_pc_sw.Segment
use kiv_pc_sw.Symbol
use kiv_pc_sw.Lexer.Line.{tokenize_line, Tokenized, tokens, failed, out_of_fuel}
use kiv_pc_sw.Parser.Grammar.{convert_parse_tokens}
use kiv_pc_sw.Parser.Statement.{Statement}
use kiv_pc_sw.Assembler.Types.{
  asc_file_start, ErrAsm, asm_no_error, asm_cannot_open_file, asm_creating_tokens,
  asm_creating_pstmt, State, Outcome, convert_err,
}
use kiv_pc_sw.Assembler.Pass1.{pass1_decide}
use kiv_pc_sw.Assembler.Pass2.{pass2_decide, and_then}

unfoldable pub decide : Bool → Allocator → Statement → State → Outcome
decide is_second m pstmt st = if is_second then pass2_decide m pstmt st else pass1_decide m pstmt st

-- The statement of a line, or the error code: the lexer's NULL, then the parser's. A statement
-- has one of the two codes of Err_Parse, and both are let through.
pub data LineRead : Type 0 where
  statement : Statement → LineRead
  line_err : ErrAsm → LineRead

abbrev pub parsed : Option Statement → LineRead
parsed none = line_err asm_creating_pstmt
parsed (some pstmt) = statement pstmt

abbrev pub from_tokens : Tokenized → Allocator → ℕ → LineRead
from_tokens (tokens ts) m nl = parsed (convert_parse_tokens m ts nl)
from_tokens failed m nl = line_err asm_creating_tokens
from_tokens out_of_fuel m nl = line_err asm_creating_tokens

unfoldable pub read_line : Allocator → Text → ℕ → LineRead
read_line m line nl = from_tokens (tokenize_line m line nl) m nl

abbrev pub run_read : LineRead → (Statement → State → Outcome) → State → Outcome
run_read (line_err e) f st = (e, st)
run_read (statement pstmt) f st = f pstmt st

unfoldable pub passes_line : Bool → Allocator → State → ℕ → Text → Outcome
passes_line is_second m st nl line = run_read (read_line m line nl) (decide is_second m) st

-- The loop over the lines, with the line number, which is also the moment of the line on the heap.
unfoldable pub passes_lines : Bool → Heap → State → ℕ → List Text → Outcome
passes_lines is_second m st nl [] = (asm_no_error, st)
passes_lines is_second m st nl (line ∷ lines) =
    and_then (passes_line is_second (m nl) st nl line)
      (λ st'. passes_lines is_second m st' (nl + 1) lines)

-- The file is its lines as fu_getline returns them, or none if it cannot be opened.
unfoldable pub passes_any_pass : Bool → Heap → State → Option (List Text) → Outcome
passes_any_pass is_second m st none = (asm_cannot_open_file, st)
passes_any_pass is_second m st (some lines) =
    passes_lines is_second m (record st { ctx = asc_file_start }) 1 lines

abbrev pub second_pass : Outcome → Heap → Option (List Text) → Outcome
second_pass (asm_no_error, st) m file =
    passes_any_pass true m
      (record st { cdsg = Segment.begin st.cdsg; dtsg = Dataseg.begin st.dtsg }) file
second_pass (e, st) m file = (e, st)

-- Each pass opens and reads the file itself, and meets the heap at its own moments.
unfoldable pub process_assembler :
    Heap → Heap → State → Option (List Text) → Option (List Text) → ErrMain × State
process_assembler m1 m2 st file1 file2 =
    let (e, st') = second_pass (passes_any_pass false m1 st file1) m2 file2 in (convert_err e, st')

abbrev pub all_created :
    Option Symbol.SymbolTable → Option Segment.Segment → Option Segment.Segment → Option State
all_created (some symtab) (some dtsg) (some cdsg) =
    some (record { symtab = symtab; dtsg = dtsg; cdsg = cdsg; ctx = asc_file_start })
all_created _ _ _ = none

-- asp_create with no parts given, as main calls it: 32 bytes for the struct, then each part
-- at its own moment.
unfoldable pub asp_create : Heap → Option State
asp_create m =
    if jalloc (m 0) 32
    then all_created (Symbol.create (m 1)) (Dataseg.create (m 2)) (Segment.create (m 3))
    else none
