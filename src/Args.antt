-- ===== src/Args.antt =====
-- core/args.c on a POSIX system: the command line and the checks of both paths. argv is the list of
-- its strings; a parameter that the source may pass as NULL is an Option.
pub mod Checked
pub mod Extension
pub mod Free
pub mod Balance
mod Tests
use kiv_pc_sw.Prelude.{
  ℕ, ◌+◌, ◌-◌, Bool, true, false, not, ◌||◌, List, [], ◌∷◌, ◌++◌, Option, none, some, ltb, ◌==◌,
  if◌then◌else◌, length, take, drop, get_elem?,
}
use kiv_pc_sw.Prelude.Text.{Text, codes, str_eq}
use kiv_pc_sw.Common.{
  Heap, jalloc, ErrMain, err_no_error, err_invalid_input_file, err_invalid_output_file,
}
use kiv_pc_sw.FileUtil.{FileSystem, fu_is_file, fu_can_write}

-- enum Err_Args
pub data ErrArgs : Type 0 where
  args_no_error args_invalid_pointer args_path_empty args_path_bad_extension : ErrArgs
  args_path_special_chars args_path_bad_prefix : ErrArgs

-- struct Config, once both paths are set.
pub record Config : Type 0 where
  pub flag_verbose : Bool
  pub flag_instruction : Bool
  pub source : Text
  pub target : Text

unfoldable pub args_find_src : List Text → Option Text
args_find_src argv = get_elem? argv 1

abbrev is_flag : Text → Bool
is_flag [] = false
is_flag (c ∷ s) = c == b'-'

-- The first of the arguments that is no flag.
unfoldable pub find_path : List Text → Option Text
find_path [] = none
find_path (arg ∷ args) = if is_flag arg then find_path args else some arg

-- The program and the source are skipped.
unfoldable pub args_find_tgt : List Text → Option Text
unfolding find_path
args_find_tgt argv = find_path (drop 2 argv)

unfoldable pub has_arg : Text → List Text → Bool
has_arg flag [] = false
has_arg flag (arg ∷ args) = if str_eq arg flag then true else has_arg flag args

unfoldable pub args_is_v : List Text → Bool
unfolding has_arg
args_is_v argv = has_arg (codes "-v") (drop 2 argv)

unfoldable pub args_is_i : List Text → Bool
unfolding has_arg
args_is_i argv = has_arg (codes "-i") (drop 2 argv)

-- The first ".kas" in the path becomes ".kmx"; none is the return value 0.
unfoldable pub args_change_extension : Text → Option Text
args_change_extension [] = none
args_change_extension (c ∷ s) =
    let rest = args_change_extension s in
    if str_eq (take 4 (c ∷ s)) (codes ".kas")
    then some (take 2 (c ∷ s) ++ (codes "mx" ++ drop 4 (c ∷ s)))
    else elim rest [ none ↦ none | some t ↦ some (c ∷ t) ]

abbrev pub lacks_prefix : Text → Option Text → Bool
lacks_prefix path none = false
lacks_prefix path (some prefix) =
    ltb (length path) (length prefix) || not (str_eq (take (length prefix) path) prefix)

abbrev pub lacks_suffix : Text → Option Text → Bool
lacks_suffix path none = false
lacks_suffix path (some suffix) =
    ltb (length path) (length suffix)
    || not (str_eq (drop (length path - length suffix) path) suffix)

unfoldable pub args_path_check_syntax : Text → Option Text → Option Text → ErrArgs
args_path_check_syntax path prefix suffix =
    if length path == 0
    then args_path_empty
    else if lacks_prefix path prefix
    then args_path_bad_prefix
    else if lacks_suffix path suffix
    then args_path_bad_extension
    else args_no_error

unfoldable pub args_path_check_semantic : Heap → FileSystem → Config → ErrMain
args_path_check_semantic m fs config =
    if not (fu_is_file fs config.source)
    then err_invalid_input_file
    else if not (fu_can_write (m 2) fs config.target)
    then err_invalid_output_file
    else err_no_error

-- Both paths are copied to the heap.
-- The moments of the heap: 0 and 1 for the two copies, 2 for fu_can_write.
unfoldable pub args_config_init : Heap → Text → Text → Bool → Bool → Option Config
args_config_init m source target verbose instruction =
    if jalloc (m 0) (length source + 1)
    then (if jalloc (m 1) (length target + 1)
        then some (record {
          flag_verbose = verbose;
          flag_instruction = instruction;
          source = source;
          target = target;
        })
        else none)
    else none

-- The configuration beside the error code; none once args_config_deinit has cleared it.
abbrev pub Parsed : Type 0
Parsed = ErrMain × Option Config

abbrev pub bad_syntax : ErrArgs → Bool
bad_syntax args_no_error = false
bad_syntax _ = true

-- The checks of both paths. After a failure of the last one the configuration is left as it is.
unfoldable pub check_paths : Heap → FileSystem → Config → Parsed
unfolding args_path_check_syntax args_path_check_semantic
check_paths m fs config =
    if bad_syntax (args_path_check_syntax config.source none (some (codes ".kas")))
    then (err_invalid_input_file, none)
    else if bad_syntax (args_path_check_syntax config.target none (some (codes ".kmx")))
    then (err_invalid_output_file, none)
    else (args_path_check_semantic m fs config, some config)

-- The target gets its extension if it is a copy of the source.
abbrev pub with_target : Option Text → Config → Option Config
with_target (some tgt) config = some config
with_target none config = elim (args_change_extension config.target) [
  | none ↦ none
  | some target ↦ some (record config { target = target })
]

abbrev pub or_source : Option Text → Text → Text
or_source none src = src
or_source (some tgt) src = tgt

abbrev pub checked : Heap → FileSystem → Option Config → Parsed
checked m fs none = (err_invalid_input_file, none)
checked m fs (some config) = check_paths m fs config

abbrev pub targeted : Option Config → Option Text → Option Config
targeted none tgt = none
targeted (some config) tgt = with_target tgt config

-- With the source that _args_find_src found.
unfoldable pub parse_source : Heap → FileSystem → List Text → Option Text → Parsed
unfolding args_find_tgt args_is_v args_is_i args_config_init args_change_extension check_paths
parse_source m fs argv none = (err_invalid_input_file, none)
parse_source m fs argv (some src) =
    let tgt = args_find_tgt argv in
    checked m fs
      (targeted (args_config_init m src (or_source tgt src) (args_is_v argv) (args_is_i argv)) tgt)

unfoldable pub args_parse : Heap → FileSystem → List Text → Parsed
unfolding args_find_src parse_source
args_parse m fs argv =
    if ltb (length argv) 2
    then (err_invalid_input_file, none)
    else parse_source m fs argv (args_find_src argv)
