-- ===== src/Args/Tests.antt =====
-- Command lines.
use kiv_pc_sw.Prelude.{◌≡◌, refl, true, false, List, [], ◌∷◌, ◌++◌, some}
use kiv_pc_sw.Prelude.Text.{Text, codes, str_eq}
use kiv_pc_sw.Common.{jalloc, err_invalid_output_file}
use kiv_pc_sw.FileUtil.{
  fu_is_file, fu_is_dir, fu_path_exists, fu_can_write_dir, fu_can_write_file, before_slash,
  fu_can_write_parent_dir, fu_can_write,
}
use kiv_pc_sw.Args.{
  Config, args_parse, args_find_src, args_find_tgt, find_path, args_is_v, args_is_i, has_arg,
  args_change_extension, args_path_check_syntax, args_path_check_semantic, args_config_init,
  check_paths, parse_source,
}
use kiv_pc_sw.Args.Extension.{args_change_extension-append}
use kiv_pc_sw.Samples.{always, files}

abbrev line : List Text
line = codes "kmas" ∷ codes "d/a.kas" ∷ codes "-v" ∷ []

abbrev config : Config
config = record {
  flag_verbose = true;
  flag_instruction = false;
  source = codes "d/a.kas";
  target = codes "d/a.kmx";
}

-- A target in a directory that does not exist.
no_directory :
    (args_parse always files (codes "kmas" ∷ codes "d/a.kas" ∷ codes "-i" ∷ codes "e/a.kmx" ∷ [])).0
    ≡ err_invalid_output_file
unfolding str_eq jalloc fu_is_file fu_is_dir fu_path_exists fu_can_write_dir fu_can_write_file
    before_slash fu_can_write_parent_dir fu_can_write args_parse args_find_src args_find_tgt
    find_path args_is_v args_is_i has_arg args_change_extension args_path_check_syntax
    args_path_check_semantic args_config_init check_paths parse_source
no_directory = refl

extension_example :
    args_change_extension (codes "d/a" ++ codes ".kas") ≡ some (codes "d/a" ++ codes ".kmx")
unfolding args_change_extension str_eq
extension_example = args_change_extension-append (codes "d/a") refl
