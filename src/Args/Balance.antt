-- ===== src/Args/Balance.antt =====
-- The blocks of the configuration: args_parse leaves its two paths, or nothing if they were cleared.
use kiv_pc_sw.Prelude.{
  ℕ, ◌+◌, ◌≡◌, refl, ◌∙◌, ap, Bool, true, false, not, List, Option, none, some, if◌then◌else◌, ltb,
  length,
}
use kiv_pc_sw.Prelude.Text.{Text, codes}
use kiv_pc_sw.Common.{Allocator, Heap, jalloc, err_invalid_input_file, err_invalid_output_file}
use kiv_pc_sw.Memory.{Live, live}
use kiv_pc_sw.FileUtil.{FileSystem, fu_is_file, fu_is_dir, fu_path_exists}
use kiv_pc_sw.FileUtil.Free.{fu_can_write_parent_dir_count, fu_can_write_count}
use kiv_pc_sw.Args.{
  Config, Parsed, bad_syntax, args_path_check_syntax, args_path_check_semantic, check_paths,
  checked, with_target, targeted, or_source, args_config_init, args_find_src, args_find_tgt,
  args_is_v, args_is_i, parse_source, args_parse,
}
use kiv_pc_sw.Args.Free.{
  args_config_deinit_count, args_config_init_count, args_path_check_semantic_count,
  check_paths_count, target_count, config_count, source_count, args_parse_count,
}

-- The two paths of a configuration that is there.
abbrev pub config_blocks : Option Config → ℕ
config_blocks none = 0
config_blocks (some config) = 2

same_count : (b : Bool) (c d e : Live) → c ≡ e → d ≡ e → (if b then c else d) ≡ e
same_count true c d e p q = p
same_count false c d e p q = q

pub parent_dir_count_lem :
    (m : Allocator) (path : Text) (n : ℕ) → fu_can_write_parent_dir_count m path (live n) ≡ live n
unfolding fu_can_write_parent_dir_count
parent_dir_count_lem m path n = same_count (jalloc m (length path + 1)) _ _ (live n) refl refl

can_write_count_lem :
    (m : Allocator) (fs : FileSystem) (path : Text) (n : ℕ)
    → fu_can_write_count m fs path (live n) ≡ live n
unfolding fu_can_write_count
can_write_count_lem m fs path n = same_count (fu_is_dir fs path) _ _ (live n) refl (
    same_count (fu_is_file fs path) _ _ (live n) refl
      (same_count (not (fu_path_exists fs path)) _ _ (live n) (parent_dir_count_lem m path n) refl))

semantic_count_lem :
    (m : Heap) (fs : FileSystem) (config : Config) (n : ℕ)
    → args_path_check_semantic_count m fs config (live n) ≡ live n
unfolding args_path_check_semantic_count
semantic_count_lem m fs config n =
    same_count (not (fu_is_file fs config.source)) _ _ (live n) refl
      (can_write_count_lem (m 2) fs config.target n)

check_paths_count_lem :
    (m : Heap) (fs : FileSystem) (config : Config)
    → check_paths_count m fs config (live 2) ≡ live (config_blocks (check_paths m fs config).1)
unfolding check_paths args_config_deinit_count
check_paths_count_lem m fs config =
    go (bad_syntax (args_path_check_syntax config.source none (some (codes ".kas"))))
      (bad_syntax (args_path_check_syntax config.target none (some (codes ".kmx"))))
  where
    go :
        (a b : Bool)
        → ◌≡◌ {A = Live}
            (if a
              then live 0
              else if b
              then live 0
              else args_path_check_semantic_count m fs config (live 2))
            (live (
              config_blocks (
                (if◌then◌else◌ {A = Parsed} a
                  (err_invalid_input_file, none)
                  (if b
                    then (err_invalid_output_file, none)
                    else (args_path_check_semantic m fs config, some config))).1)))
    go true b = refl
    go false true = refl
    go false false = semantic_count_lem m fs config 2

target_count_lem :
    (m : Heap) (fs : FileSystem) (config : Config) (o : Option Config)
    → target_count m fs config o (live 2) ≡ live (config_blocks (checked m fs o).1)
unfolding args_config_deinit_count
target_count_lem m fs config none = refl
target_count_lem m fs config (some changed) = check_paths_count_lem m fs changed

config_count_lem :
    (m : Heap) (fs : FileSystem) (o : Option Config) (tgt : Option Text)
    → config_count m fs o tgt (live (config_blocks o))
      ≡ live (config_blocks (checked m fs (targeted o tgt)).1)
unfolding args_config_deinit_count
config_count_lem m fs none tgt = refl
config_count_lem m fs (some config) tgt = target_count_lem m fs config (with_target tgt config)

init_count_lem :
    (m : Heap) (source target : Text) (v i : Bool)
    → args_config_init_count m source target (live 0)
      ≡ live (config_blocks (args_config_init m source target v i))
unfolding args_config_init_count args_config_init
init_count_lem m source target v i =
    go (jalloc (m 0) (length source + 1)) (jalloc (m 1) (length target + 1)) _
  where
    go :
        (a b : Bool) (c : Config)
        → ◌≡◌ {A = Live}
            (if a then if b then live 2 else live 0 else live 0)
            (live (config_blocks (if a then (if b then some c else none) else none)))
    go true true c = refl
    go true false c = refl
    go false b c = refl

source_count_lem :
    (m : Heap) (fs : FileSystem) (argv : List Text) (o : Option Text)
    → source_count m fs argv o (live 0) ≡ live (config_blocks (parse_source m fs argv o).1)
unfolding parse_source
source_count_lem m fs argv none = refl
source_count_lem m fs argv (some src) =
    let tgt = args_find_tgt argv in
    let config = args_config_init m src (or_source tgt src) (args_is_v argv) (args_is_i argv) in
    ap (config_count m fs config tgt)
      (init_count_lem m src (or_source tgt src) (args_is_v argv) (args_is_i argv))
    ∙ config_count_lem m fs config tgt

-- args_parse leaves the blocks of the configuration that it returns.
pub args_parse_count_lem :
    (m : Heap) (fs : FileSystem) (argv : List Text)
    → args_parse_count m fs argv (live 0) ≡ live (config_blocks (args_parse m fs argv).1)
unfolding args_parse_count args_parse
args_parse_count_lem m fs argv = go (ltb (length argv) 2)
  where
    go :
        (b : Bool)
        → (if b then live 0 else source_count m fs argv (args_find_src argv) (live 0))
          ≡ live (
              config_blocks (
                (if◌then◌else◌ {A = Parsed} b
                  (err_invalid_input_file, none)
                  (parse_source m fs argv (args_find_src argv))).1))
    go true = refl
    go false = source_count_lem m fs argv (args_find_src argv)
