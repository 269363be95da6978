-- ===== src/Main/Free.antt =====
-- The count of live blocks over main.c, with the assertions on it.
use kiv_pc_sw.Prelude.{List, Option, none, some}
use kiv_pc_sw.Prelude.Text.{Text}
use kiv_pc_sw.Common.{ErrMain, err_no_error}
use kiv_pc_sw.Memory.{Live, live, assert_none_left}
use kiv_pc_sw.FileUtil.Free.{fu_can_write_parent_dir_count}
use kiv_pc_sw.Args.{Config, Parsed, args_parse}
use kiv_pc_sw.Args.Free.{args_parse_count, args_config_deinit_count}
use kiv_pc_sw.Assembler.Types.{State}
use kiv_pc_sw.Assembler.Run.{asp_create, process_assembler}
use kiv_pc_sw.Assembler.Free.{asp_create_count, asp_free_count, process_assembler_count}
use kiv_pc_sw.Main.{Platform, source_lines}

-- finalize: the configuration and the assembler are freed, and nothing may be left.
abbrev pub finalize_count : Option Config → Option State → Live → Live
finalize_count config none c = assert_none_left (args_config_deinit_count config c)
finalize_count config (some asp) c =
    assert_none_left (asp_free_count asp (args_config_deinit_count config c))

-- output_binary is called after a success, and its fu_open duplicates the path.
abbrev pub output_count : Platform → Config → ErrMain → Live → Live
output_count w config err_no_error c = fu_can_write_parent_dir_count w.target_heap config.target c
output_count w config _ c = c

-- Without the assembler main returns at once.
abbrev pub asp_count : Platform → Config → Option State → Live → Live
asp_count w config none c = c
asp_count w config (some asp) c =
    let file1 = source_lines w.first config.source in
    let file2 = source_lines w.second config.source in
    finalize_count (some config) (some asp) (
      output_count w config (process_assembler w.first.heap w.second.heap asp file1 file2).0 (
        process_assembler_count w.first.heap w.second.heap w.first.buffer w.second.buffer asp file1
          file2 c))

abbrev pub parsed_count : Platform → Parsed → Live → Live
parsed_count w (err_no_error, some config) c =
    asp_count w config (asp_create w.parts) (asp_create_count w.parts c)
parsed_count w (_, config) c = finalize_count config none c

unfoldable pub main_count : Platform → List Text → Live
unfolding args_parse_count args_config_deinit_count asp_create_count asp_free_count
    process_assembler_count fu_can_write_parent_dir_count
main_count w argv =
    parsed_count w (args_parse w.heap w.files argv) (args_parse_count w.heap w.files argv (live 0))
