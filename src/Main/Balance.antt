-- ===== src/Main/Balance.antt =====
-- At the end of the program no block is left, and no assertion on the count fails.
use kiv_pc_sw.Prelude.{
  ℕ, ◌+◌, ◌≡◌, refl, sym, ◌∙◌, ap, subst, List, Option, none, some, ◌⊎◌, inl, inr,
}
use kiv_pc_sw.Prelude.Text.{Text}
use kiv_pc_sw.Common.{ErrMain, err_no_error}
use kiv_pc_sw.Memory.{Live, live, assert_none_left}
use kiv_pc_sw.Args.{Config, Parsed, args_parse}
use kiv_pc_sw.Args.Free.{args_config_deinit_count}
use kiv_pc_sw.Args.Balance.{config_blocks, args_parse_count_lem, parent_dir_count_lem}
use kiv_pc_sw.Assembler.Types.{State}
use kiv_pc_sw.Assembler.Run.{asp_create, process_assembler}
use kiv_pc_sw.Assembler.Balance.{
  blocks_if, process_assembler_count_lem, asp_create_count_lem, asp_free_count_lem,
}
use kiv_pc_sw.Main.{Platform, source_lines}
use kiv_pc_sw.Main.Free.{finalize_count, output_count, asp_count, parsed_count, main_count}

output_count_lem :
    (w : Platform) (config : Config) (e : ErrMain) (n : ℕ)
    → output_count w config e (live n) ≡ live n
output_count_lem w config err_no_error n = parent_dir_count_lem w.target_heap config.target n
output_count_lem w config _ n = refl

-- The configuration's blocks alone.
config_freed :
    (config : Option Config) → finalize_count config none (live (config_blocks config)) ≡ live 0
unfolding args_config_deinit_count
config_freed none = refl
config_freed (some config) = refl

-- The assembler's seven blocks, and the configuration's two.
all_freed :
    (config : Config) (asp : State) → finalize_count (some config) (some asp) (live 9) ≡ live 0
unfolding args_config_deinit_count
all_freed config asp = ap assert_none_left (asp_free_count_lem asp 0)

-- What is left at the end: nothing, or the two paths if asp_create failed.
abbrev pub Left : Platform → Live → Type 0
Left w c = (c ≡ live 0) ⊎ ((asp_create w.parts ≡ none) × (c ≡ live 2))

asp-Left :
    (w : Platform) (config : Config) (o : Option State)
    → asp_create w.parts ≡ o
    → Left w (asp_count w config o (live (blocks_if 7 o + 2)))
asp-Left w config none e = inr (e, refl)
asp-Left w config (some asp) e =
    let file1 = source_lines w.first config.source in
    let file2 = source_lines w.second config.source in
    let r = (process_assembler w.first.heap w.second.heap asp file1 file2).0 in
    inl (
      ap (λ c. finalize_count (some config) (some asp) (output_count w config r c))
        (process_assembler_count_lem w.first.heap w.second.heap w.first.buffer w.second.buffer asp
          file1 file2 9)
      ∙ ap (finalize_count (some config) (some asp)) (output_count_lem w config r 9)
      ∙ all_freed config asp)

parsed-Left :
    (w : Platform) (argv : List Text) (p : Parsed)
    → args_parse w.heap w.files argv ≡ p
    → Left w (parsed_count w p (live (config_blocks p.1)))
parsed-Left w argv (err_no_error, some config) e =
    subst (λ c. Left w (asp_count w config (asp_create w.parts) c))
      (sym (asp_create_count_lem w.parts 2)) (asp-Left w config (asp_create w.parts) refl)
parsed-Left w argv (err_no_error, none) e = inl (config_freed none)
parsed-Left w argv (_, config) e = inl (config_freed config)

-- On every device and command line, and on every heap and file system that may answer differently
-- to each copy of a path, to each part of the assembler, to each line of each pass, to each
-- reading of the source and to the opening of the target, either no block is left when the program
-- ends and no assertion on the count of blocks fails, or asp_create failed and the count at the
-- return is 2.
pub main-Left : (w : Platform) (argv : List Text) → Left w (main_count w argv)
unfolding main_count
main-Left w argv =
    let p = args_parse w.heap w.files argv in
    subst (λ c. Left w (parsed_count w p c)) (sym (args_parse_count_lem w.heap w.files argv))
      (parsed-Left w argv p refl)
