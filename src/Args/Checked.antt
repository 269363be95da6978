-- ===== src/Args/Checked.antt =====
-- What holds of the configuration that args_parse accepts.
use kiv_pc_sw.Prelude.{
  ◌-◌, ◌≤◌, ◌≡◌, ◌≢◌, refl, sym, ◌∙◌, ap, subst, Bool, true, false, not, List, Option, none, some,
  some_inj, arith, ltb, ◌==◌, if◌then◌else◌, if_cases, length, drop, get_elem?,
}
use kiv_pc_sw.Prelude.Text.{Text, codes, str_eq_iff}
use kiv_pc_sw.Common.{Heap, err_no_error, err_invalid_input_file, err_invalid_output_file}
use kiv_pc_sw.FileUtil.{FileSystem, fu_is_file, fu_can_write}
use kiv_pc_sw.Args.{
  or_source, args_path_empty, args_path_bad_prefix, args_path_bad_extension, Config, args_no_error,
  Parsed, lacks_suffix, bad_syntax, args_path_check_syntax, args_path_check_semantic, check_paths,
  checked, targeted, args_config_init, args_is_v, args_is_i, args_find_src, args_find_tgt,
  parse_source, args_parse, args_change_extension,
}

-- The path ends with the suffix.
abbrev pub EndsWith : Text → Text → Type 0
EndsWith path suffix =
    (length suffix ≤ length path) × (drop (length path - length suffix) path ≡ suffix)

pub record Accepted (m : Heap) (fs : FileSystem) (c : Config) : Type 0 where
  pub source_suffix : EndsWith c.source (codes ".kas")
  pub target_suffix : EndsWith c.target (codes ".kmx")
  pub source_file : fu_is_file fs c.source ≡ true
  pub target_writable : fu_can_write (m 2) fs c.target ≡ true

lacks_suffix-EndsWith :
    (path suffix : Text) → lacks_suffix path (some suffix) ≡ false → EndsWith path suffix
lacks_suffix-EndsWith path suffix h =
    (ground arith, ground (arith, str_eq_iff (drop (length path - length suffix) path) suffix))

no_suffix_missing :
    (empty lacks : Bool)
    → bad_syntax (
        if empty
        then args_path_empty
        else if false
        then args_path_bad_prefix
        else if lacks
        then args_path_bad_extension
        else args_no_error)
      ≡ false
    → lacks ≡ false
no_suffix_missing true lacks h = cc
no_suffix_missing false true h = cc
no_suffix_missing false false h = refl

syntax-EndsWith :
    (path suffix : Text)
    → bad_syntax (args_path_check_syntax path none (some suffix)) ≡ false
    → EndsWith path suffix
unfolding args_path_check_syntax
syntax-EndsWith path suffix h =
    lacks_suffix-EndsWith path suffix
      (no_suffix_missing (length path == 0) (lacks_suffix path (some suffix)) h)

semantic_ok :
    (is_file can_write : Bool)
    → (if not is_file
        then err_invalid_input_file
        else if not can_write
        then err_invalid_output_file
        else err_no_error)
      ≡ err_no_error
    → (is_file ≡ true) × (can_write ≡ true)
semantic_ok true true h = (refl, refl)
semantic_ok true false h = cc
semantic_ok false can_write h = cc

check_paths-Accepted :
    (m : Heap) (fs : FileSystem) (config : Config) {c : Config}
    → check_paths m fs config ≡ (err_no_error, some c)
    → Accepted m fs config × (config ≡ c)
unfolding check_paths args_path_check_semantic
check_paths-Accepted m fs config h =
    if_cases (bad_syntax (args_path_check_syntax config.source none (some (codes ".kas")))) _ _ h
      (λ t. absurd cc)
      (λ f h.
        if_cases (bad_syntax (args_path_check_syntax config.target none (some (codes ".kmx")))) _ _
          h (λ t. absurd cc)
          (λ g h.
            let (file, writable) =
              semantic_ok (fu_is_file fs config.source) (fu_can_write (m 2) fs config.target)
                (ap (λ (r : Parsed). r.0) h) in
            (
              record {
                source_suffix = syntax-EndsWith config.source (codes ".kas") f;
                target_suffix = syntax-EndsWith config.target (codes ".kmx") g;
                source_file = file;
                target_writable = writable;
              },
              some_inj (ap (λ (r : Parsed). r.1) h),
            )))

checked-Accepted :
    (m : Heap) (fs : FileSystem) (o : Option Config) {c : Config}
    → checked m fs o ≡ (err_no_error, some c)
    → Accepted m fs c × (o ≡ some c)
checked-Accepted m fs none h = cc
checked-Accepted m fs (some config) h =
    let (a, e) = check_paths-Accepted m fs config h in (subst (Accepted m fs) e a, ap some e)

init_source :
    (m : Heap) (src tgt : Text) (v i : Bool) {c : Config}
    → args_config_init m src tgt v i ≡ some c
    → (c.source ≡ src) × (c.target ≡ tgt)
unfolding args_config_init
init_source m src tgt v i {c} h = (ground arith, ground arith)

-- The target of a configuration: the given one, or the source with its extension changed.
abbrev pub TargetOf : Option Text → Text → Text → Type 0
TargetOf (some tgt) src target = target ≡ tgt
TargetOf none src target = args_change_extension src ≡ some target

targeted_paths :
    (o : Option Config) (tgt : Option Text) (src : Text) {c : Config}
    → ((d : Config) → o ≡ some d → (d.source ≡ src) × (d.target ≡ or_source tgt src))
    → targeted o tgt ≡ some c
    → (c.source ≡ src) × TargetOf tgt src c.target
targeted_paths none tgt src f h = cc
targeted_paths (some d) (some tgt) src {c} f h =
    let (s, t) = f d refl in
    let e : d ≡ c = some_inj h in
    (ap (λ (x : Config). x.source) (sym e) ∙ s, ap (λ (x : Config). x.target) (sym e) ∙ t)
targeted_paths (some d) none src {c} f h =
    let (s, t) = f d refl in changed (args_change_extension d.target) refl s t h
  where
    changed :
        (r : Option Text)
        → args_change_extension d.target ≡ r
        → d.source ≡ src
        → d.target ≡ src
        → ◌≡◌ {A = Option Config}
            (elim r [ none ↦ none | some target ↦ some (record d { target = target }) ])
            (some c)
        → (c.source ≡ src) × (args_change_extension src ≡ some c.target)
    changed none e s t h = cc
    changed (some target) e s t h =
        let same = some_inj h in
        (
          ap (λ (x : Config). x.source) (sym same) ∙ s,
          ap args_change_extension (sym t) ∙ e ∙ ap (λ (x : Config). some x.target) same,
        )

from_source :
    (m : Heap) (fs : FileSystem) (argv : List Text) (o : Option Text) {c : Config}
    → get_elem? argv 1 ≡ o
    → parse_source m fs argv o ≡ (err_no_error, some c)
    → Accepted m fs c
      × (get_elem? argv 1 ≡ some c.source)
      × TargetOf (args_find_tgt argv) c.source c.target
unfolding parse_source
from_source m fs argv none e h = cc
from_source m fs argv (some src) {c} e h =
    let (a, made) = checked-Accepted m fs _ h in
    let (s, t) =
      targeted_paths _ (args_find_tgt argv) src
        (λ d.
          init_source m src (or_source (args_find_tgt argv) src) (args_is_v argv) (args_is_i argv))
        made in
    (a, e ∙ ap some (sym s), subst (λ x. TargetOf (args_find_tgt argv) x c.target) (sym s) t)

pub args_parse-Accepted :
    (m : Heap) (fs : FileSystem) (argv : List Text) {c : Config}
    → args_parse m fs argv ≡ (err_no_error, some c)
    → Accepted m fs c
      × (get_elem? argv 1 ≡ some c.source)
      × TargetOf (args_find_tgt argv) c.source c.target
unfolding args_parse args_find_src
args_parse-Accepted m fs argv h =
    if_cases (ltb (length argv) 2) _ _ h (λ t. absurd cc)
      (λ f. from_source m fs argv (args_find_src argv) refl)

checked_kept :
    (m : Heap) (fs : FileSystem) (o : Option Config) → checked m fs o ≢ (err_no_error, none)
unfolding check_paths
checked_kept m fs none h = cc
checked_kept m fs (some config) h =
    if_cases (bad_syntax (args_path_check_syntax config.source none (some (codes ".kas")))) _ _ h
      (λ t h. cc)
      (λ f h.
        if_cases (bad_syntax (args_path_check_syntax config.target none (some (codes ".kmx")))) _ _
          h (λ t h. cc) (λ g h. let gone : some config ≡ none = ap (λ (r : Parsed). r.1) h in cc))

source_kept :
    (m : Heap) (fs : FileSystem) (argv : List Text) (o : Option Text)
    → parse_source m fs argv o ≢ (err_no_error, none)
unfolding parse_source
source_kept m fs argv none h = cc
source_kept m fs argv (some src) h =
    checked_kept m fs
      (targeted
        (args_config_init m src (or_source (args_find_tgt argv) src) (args_is_v argv)
          (args_is_i argv))
        (args_find_tgt argv))
      h

-- A command line that is accepted leaves a configuration.
pub args_parse_kept :
    (m : Heap) (fs : FileSystem) (argv : List Text) → args_parse m fs argv ≢ (err_no_error, none)
unfolding args_parse
args_parse_kept m fs argv h =
    if_cases (ltb (length argv) 2) _ _ h (λ t h. cc)
      (λ f. source_kept m fs argv (args_find_src argv))
