-- ===== src/Assembler/Balance.antt =====
-- The passes free what they allocate: the count of live blocks is the same before and after.
use kiv_pc_sw.Prelude.{
  ℕ, suc, length, ◌+◌, ◌*◌, ◌≡◌, refl, ◌∙◌, ap, Bool, true, false, List, [], ◌∷◌, Option, none,
  some, if◌then◌else◌, arith,
}
use kiv_pc_sw.Prelude.Text.{Text}
use kiv_pc_sw.Common.{Allocator, Heap, jalloc, dynamic_array_initial_capacity}
use kiv_pc_sw.Memory.{Live, live, jalloc_count, jree, both}
use kiv_pc_sw.Dataseg
use kiv_pc_sw.Segment
use kiv_pc_sw.Segment.Free.{cdsg_create_count, cdsg_free_count}
use kiv_pc_sw.Symbol
use kiv_pc_sw.Symbol.Free.{symtab_create_count, symtab_free_count, symtab_deinit_count}
use kiv_pc_sw.FileUtil.{fu_getline_init_len}
use kiv_pc_sw.Lexer.Token.{token_size}
use kiv_pc_sw.Lexer.TokenArray
use kiv_pc_sw.Lexer.TokenArray.{TokenArr}
use kiv_pc_sw.Lexer.Line.{Tokenized, tokens, failed, out_of_fuel, tokenize_line, tokenize_loop}
use kiv_pc_sw.Lexer.Free.{
  tokenized_count, tokenize_line_count, tok_arr_init_count, tok_arr_deinit_count,
  lexer_free_tokens_count,
}
use kiv_pc_sw.Parser.Statement.{Statement}
use kiv_pc_sw.Parser.Grammar.{convert_parse_tokens}
use kiv_pc_sw.Parser.Settled.{Balanced}
use kiv_pc_sw.Parser.LineBlocks.{
  both-zero, convert_parse_tokens-Balanced, convert_parse_tokens_count_lem,
}
use kiv_pc_sw.Assembler.Types.{asc_file_start, asm_no_error, State, Outcome}
use kiv_pc_sw.Assembler.Run.{passes_line, passes_any_pass, all_created, asp_create}
use kiv_pc_sw.Assembler.Free.{
  line_freed, tokens_count, passes_line_count, if_ok, passes_lines_count, passes_any_pass_count,
  process_assembler_count, with_cdsg, with_dtsg, with_symtab, asp_create_count, asp_free_count,
}

-- The tokens of a line are one block more, if there are any.
abbrev tokens_held : Tokenized → ℕ → ℕ
tokens_held (tokens ts) n = suc n
tokens_held _ n = n

-- The array of a line that is handed out.
handed_out :
    (b : Bool) (t : Tokenized) (n : ℕ)
    → (b ≡ false → t ≡ failed)
    → tokenized_count t
        (if b then some (record { tokens = []; count = 0; capacity = 16 }) else none)
        (if b then live (suc n) else live n)
      ≡ live (tokens_held t n)
unfolding tok_arr_deinit_count
handed_out true (tokens ts) n f = refl
handed_out true failed n f = refl
handed_out true out_of_fuel n f = refl
handed_out false (tokens ts) n f = absurd (let e = f refl in cc)
handed_out false failed n f = refl
handed_out false out_of_fuel n f = refl

refused_line :
    (b : Bool) (arr : TokenArr) (m : Allocator) (line : Text) (nl : ℕ)
    → b ≡ false
    → elim (if◌then◌else◌ {A = Option TokenArr} b (some arr) none) as (λ _. Tokenized) [
      | none ↦ failed
      | some arr ↦ tokenize_loop (suc (length line)) m line nl arr 0
    ]
      ≡ failed
refused_line b arr m line nl e = rw e refl

tokenize_line_count_lem :
    (m : Allocator) (line : Text) (nl n : ℕ)
    → tokenize_line_count m line nl (live n) ≡ live (tokens_held (tokenize_line m line nl) n)
unfolding tokenize_line_count tok_arr_init_count jalloc_count TokenArray.init tokenize_line
tokenize_line_count_lem m line nl n =
    handed_out (jalloc m (dynamic_array_initial_capacity * token_size)) _ n
      (refused_line (jalloc m (dynamic_array_initial_capacity * token_size)) _ m line nl)

line_freed_lem :
    (o : Option Statement) (n : ℕ)
    → ((p : Statement) → o ≡ some p → Balanced p)
    → line_freed o (live (suc n)) ≡ live n
unfolding lexer_free_tokens_count
line_freed_lem none n f = refl
line_freed_lem (some p) n f = ap (both (live n)) (f p refl) ∙ both-zero (live n)

tokens_count_lem :
    (t : Tokenized) (m : Allocator) (nl n : ℕ)
    → tokens_count t m nl (live (tokens_held t n)) ≡ live n
tokens_count_lem (tokens ts) m nl n =
    ap (line_freed (convert_parse_tokens m ts nl)) (convert_parse_tokens_count_lem m ts nl (suc n))
    ∙ line_freed_lem (convert_parse_tokens m ts nl) n (λ p. convert_parse_tokens-Balanced m ts nl)
tokens_count_lem failed m nl n = refl
tokens_count_lem out_of_fuel m nl n = refl

pub passes_line_count_lem :
    (m : Allocator) (nl : ℕ) (line : Text) (n : ℕ) → passes_line_count m nl line (live n) ≡ live n
unfolding passes_line_count
passes_line_count_lem m nl line n =
    ap (tokens_count (tokenize_line m line nl) m nl) (tokenize_line_count_lem m line nl n)
    ∙ tokens_count_lem (tokenize_line m line nl) m nl n

-- Whichever way it goes on.
if_ok_lem :
    (o : Outcome) (next : State → Live) (c d : Live)
    → ((s : State) → next s ≡ d)
    → c ≡ d
    → if_ok o next c ≡ d
if_ok_lem (asm_no_error, s) next c d f e = f s
if_ok_lem (_, s) next c d f e = e

passes_lines_count_lem :
    (b : Bool) (m : Heap) (st : State) (nl : ℕ) (lines : List Text) (n : ℕ)
    → passes_lines_count b m st nl lines (live n) ≡ live n
unfolding passes_lines_count
passes_lines_count_lem b m st nl [] n = refl
passes_lines_count_lem b m st nl (line ∷ lines) n =
    let same = passes_line_count_lem (m nl) nl line n in
    if_ok_lem (passes_line b (m nl) st nl line) _ _ (live n)
      (λ s.
        ap (passes_lines_count b m s (nl + 1) lines) same
        ∙ passes_lines_count_lem b m s (nl + 1) lines n)
      same

passes_any_pass_count_lem :
    (is_second : Bool) (m : Heap) (b : Allocator) (st : State) (file : Option (List Text)) (n : ℕ)
    → passes_any_pass_count is_second m b st file (live n) ≡ live n
unfolding passes_any_pass_count
passes_any_pass_count_lem is_second m b st none n = refl
passes_any_pass_count_lem is_second m b st (some lines) n = go (jalloc b fu_getline_init_len)
  where
    start : State
    start = record st { ctx = asc_file_start }

    go :
        (c : Bool)
        → (if c
            then jree (passes_lines_count is_second m start 1 lines (live (suc n)))
            else passes_lines_count is_second m start 1 lines (live n))
          ≡ live n
    go true = ap jree (passes_lines_count_lem is_second m start 1 lines (suc n))
    go false = passes_lines_count_lem is_second m start 1 lines n

-- Both passes together leave the count as it was.
pub process_assembler_count_lem :
    (m1 m2 : Heap) (b1 b2 : Allocator) (st : State) (file1 file2 : Option (List Text)) (n : ℕ)
    → process_assembler_count m1 m2 b1 b2 st file1 file2 (live n) ≡ live n
unfolding process_assembler_count
process_assembler_count_lem m1 m2 b1 b2 st file1 file2 n =
    let same = passes_any_pass_count_lem false m1 b1 st file1 n in
    if_ok_lem (passes_any_pass false m1 st file1) _ _ (live n)
      (λ s.
        let again : State = record s { cdsg = Segment.begin s.cdsg; dtsg = Dataseg.begin s.dtsg } in
        ap (passes_any_pass_count true m2 b2 again file2) same
        ∙ passes_any_pass_count_lem true m2 b2 again file2 n)
      same

-- The blocks of a part that has been made.
abbrev pub blocks_if {ℓ} : {A : Type ℓ} → ℕ → Option A → ℕ
blocks_if k none = 0
blocks_if k (some _) = k

part_count {ℓ} :
    {A : Type ℓ} (a b : Bool) (x : A) (n : ℕ)
    → (if a then if b then live (suc (suc n)) else live n else live n)
      ≡ live (blocks_if 2 (if◌then◌else◌ {A = Option A} a (if b then some x else none) none) + n)
part_count true true x n = ap live (omega arith)
part_count true false x n = ap live (omega arith)
part_count false b x n = ap live (omega arith)

symtab_create_count_lem :
    (m : Allocator) (n : ℕ)
    → symtab_create_count m (live n) ≡ live (blocks_if 2 (Symbol.create m) + n)
unfolding symtab_create_count Symbol.create Symbol.init
symtab_create_count_lem m n = part_count (jalloc m 24) _ _ n

cdsg_create_count_lem :
    (m : Allocator) (n : ℕ)
    → cdsg_create_count m (live n) ≡ live (blocks_if 2 (Segment.create m) + n)
unfolding cdsg_create_count Segment.create
cdsg_create_count_lem m n = part_count (jalloc m 24) _ _ n

with_cdsg_lem :
    (symtab : Symbol.SymbolTable) (dtsg : Segment.Segment) (cdsg : Option Segment.Segment) (n : ℕ)
    → with_cdsg symtab dtsg cdsg (live (blocks_if 2 cdsg + (5 + n)))
      ≡ live (blocks_if 7 (all_created (some symtab) (some dtsg) cdsg) + n)
unfolding symtab_free_count cdsg_free_count symtab_deinit_count
with_cdsg_lem symtab dtsg none n = rw (add5 n) (ap live (omega arith))
  where
    add5 : (n : ℕ) → 0 + (5 + n) ≡ suc (suc (suc (suc (suc n))))
    add5 n = omega arith
with_cdsg_lem symtab dtsg (some cdsg) n = ap live (omega arith)

with_dtsg_lem :
    (m : Heap) (symtab : Symbol.SymbolTable) (dtsg : Option Segment.Segment) (n : ℕ)
    → with_dtsg m symtab dtsg (live (blocks_if 2 dtsg + (3 + n)))
      ≡ live (blocks_if 7 (all_created (some symtab) dtsg (Segment.create (m 3))) + n)
unfolding symtab_free_count cdsg_free_count symtab_deinit_count
with_dtsg_lem m symtab none n = rw (add3 n) (ap live (omega arith))
  where
    add3 : (n : ℕ) → 0 + (3 + n) ≡ suc (suc (suc n))
    add3 n = omega arith
with_dtsg_lem m symtab (some dtsg) n =
    rw (cdsg_create_count_lem (m 3) (2 + (3 + n)), add5 n)
      (with_cdsg_lem symtab dtsg (Segment.create (m 3)) n)
  where
    add5 : (n : ℕ) → 2 + (3 + n) ≡ 5 + n
    add5 n = omega arith

with_symtab_lem :
    (m : Heap) (symtab : Option Symbol.SymbolTable) (n : ℕ)
    → with_symtab m symtab (live (blocks_if 2 symtab + (1 + n)))
      ≡ live (blocks_if 7 (all_created symtab (Segment.create (m 2)) (Segment.create (m 3))) + n)
with_symtab_lem m none n = rw (add1 n) (ap live (omega arith))
  where
    add1 : (n : ℕ) → 0 + (1 + n) ≡ suc n
    add1 n = omega arith
with_symtab_lem m (some symtab) n =
    rw (cdsg_create_count_lem (m 2) (2 + (1 + n)), add3 n)
      (with_dtsg_lem m symtab (Segment.create (m 2)) n)
  where
    add3 : (n : ℕ) → 2 + (1 + n) ≡ 3 + n
    add3 n = omega arith

-- asp_create leaves seven blocks, or none if a part is refused.
pub asp_create_count_lem :
    (m : Heap) (n : ℕ) → asp_create_count m (live n) ≡ live (blocks_if 7 (asp_create m) + n)
unfolding asp_create_count asp_create
asp_create_count_lem m n = go (jalloc (m 0) 32)
  where
    go :
        (b : Bool)
        → (if b
            then with_symtab m (Symbol.create (m 1)) (symtab_create_count (m 1) (live (suc n)))
            else live n)
          ≡ live (
              blocks_if 7 (
                if b
                then all_created (Symbol.create (m 1)) (Segment.create (m 2)) (Segment.create (m 3))
                else none)
              + n)
    go true =
        ap (with_symtab m (Symbol.create (m 1)))
          (symtab_create_count_lem (m 1) (suc n) ∙ ap live (omega arith))
        ∙ with_symtab_lem m (Symbol.create (m 1)) n
    go false = ap live (omega arith)

-- asp_free frees them all.
pub asp_free_count_lem : (asp : State) (n : ℕ) → asp_free_count asp (live (7 + n)) ≡ live n
unfolding asp_free_count symtab_free_count cdsg_free_count symtab_deinit_count
asp_free_count_lem asp n = rw (add7 n) refl
  where
    add7 : (n : ℕ) → 7 + n ≡ suc (suc (suc (suc (suc (suc (suc n))))))
    add7 n = omega arith
