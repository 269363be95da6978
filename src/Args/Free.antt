-- ===== src/Args/Free.antt =====
-- The count of live blocks over core/args.c: the copies of both paths.
use kiv_pc_sw.Prelude.{◌+◌, not, List, Option, none, some, ltb, if◌then◌else◌, length}
use kiv_pc_sw.Prelude.Text.{Text, codes}
use kiv_pc_sw.Common.{Heap, jalloc}
use kiv_pc_sw.Memory.{Live, count_up, jree}
use kiv_pc_sw.FileUtil.{FileSystem, fu_is_file}
use kiv_pc_sw.FileUtil.Free.{fu_can_write_count}
use kiv_pc_sw.Args.{
  Config, bad_syntax, args_path_check_syntax, with_target, or_source, args_config_init,
  args_find_src, args_find_tgt, args_is_v, args_is_i,
}

-- Both paths of a configuration; none has been cleared already.
unfoldable pub args_config_deinit_count : Option Config → Live → Live
args_config_deinit_count none c = c
args_config_deinit_count (some config) c = jree (jree c)

-- The source is given back if the target is refused.
unfoldable pub args_config_init_count : Heap → Text → Text → Live → Live
args_config_init_count m source target c =
    if jalloc (m 0) (length source + 1)
    then (if jalloc (m 1) (length target + 1) then count_up (count_up c) else jree (count_up c))
    else c

unfoldable pub args_path_check_semantic_count : Heap → FileSystem → Config → Live → Live
unfolding fu_can_write_count
args_path_check_semantic_count m fs config c =
    if not (fu_is_file fs config.source) then c else fu_can_write_count (m 2) fs config.target c

abbrev pub check_paths_count : Heap → FileSystem → Config → Live → Live
check_paths_count m fs config c =
    if bad_syntax (args_path_check_syntax config.source none (some (codes ".kas")))
    then args_config_deinit_count (some config) c
    else if bad_syntax (args_path_check_syntax config.target none (some (codes ".kmx")))
    then args_config_deinit_count (some config) c
    else args_path_check_semantic_count m fs config c

-- Behind the change of the extension, which fails on none.
abbrev pub target_count : Heap → FileSystem → Config → Option Config → Live → Live
target_count m fs config none c = args_config_deinit_count (some config) c
target_count m fs config (some changed) c = check_paths_count m fs changed c

abbrev pub config_count : Heap → FileSystem → Option Config → Option Text → Live → Live
config_count m fs none tgt c = args_config_deinit_count none c
config_count m fs (some config) tgt c = target_count m fs config (with_target tgt config) c

abbrev pub source_count : Heap → FileSystem → List Text → Option Text → Live → Live
source_count m fs argv none c = c
source_count m fs argv (some src) c =
    let tgt = args_find_tgt argv in
    config_count m fs (args_config_init m src (or_source tgt src) (args_is_v argv) (args_is_i argv))
      tgt (args_config_init_count m src (or_source tgt src) c)

unfoldable pub args_parse_count : Heap → FileSystem → List Text → Live → Live
unfolding args_config_init_count args_path_check_semantic_count args_config_deinit_count
args_parse_count m fs argv c =
    if ltb (length argv) 2 then c else source_count m fs argv (args_find_src argv) c
