-- ===== src/Main/Correct.antt =====
-- What a run that exits with status 0 has done.
use kiv_pc_sw.Prelude.{
  ℕ, ◌≡◌, refl, sym, ◌∙◌, ap, Bool, true, false, [], if◌then◌else◌, subst, List, Option, none, some,
  some_inj, map, if_cases, ◌++◌, get_elem?,
}
use kiv_pc_sw.Prelude.Text.{Text}
use kiv_pc_sw.Common.{ErrMain, err_no_error, err_my_code_failure, exit_code}
use kiv_pc_sw.Segment.{Segment, contents}
use kiv_pc_sw.FileUtil.{fu_open_read, file_lines, c_string}
use kiv_pc_sw.Args.{Config, Parsed, args_parse, args_find_tgt}
use kiv_pc_sw.Args.Checked.{Accepted, TargetOf, args_parse-Accepted, args_parse_kept}
use kiv_pc_sw.Assembler.Types.{State}
use kiv_pc_sw.Assembler.Run.{asp_create, process_assembler}
use kiv_pc_sw.Assembler.Whole.{Assembled, process_assembler-Assembled}
use kiv_pc_sw.Output.{output_binary, finish, write_segments}
use kiv_pc_sw.Output.Load.{load, terminator, output_binary-load}
use kiv_pc_sw.Main.{
  Platform, Reading, source_lines, device, Ended, closed_file, output, assemble, run_config, run,
  main,
}

-- A run without an error on a configuration.
pub record Translated (w : Platform) (argv : List Text) (o : Option (List ℕ)) : Type 0 where
  pub config : Config
  pub accepted : Accepted w.heap w.files config
  pub source : get_elem? argv 1 ≡ some config.source
  pub target : TargetOf (args_find_tgt argv) config.source config.target
  pub start : State
  pub made : asp_create w.parts ≡ some start
  pub end : State
  pub assembled :
      Assembled w.first.heap
        (map c_string (file_lines w.first.buffer (w.first.files.content config.source)))
        start
        end
  pub file : List ℕ
  pub written : o ≡ some file
  pub loads : load file ≡ some (contents end.dtsg, contents end.cdsg ++ terminator w.stray end.cdsg)

exit_code_ok : (e : ErrMain) → exit_code e ≡ 0 → e ≡ err_no_error
unfolding exit_code
exit_code_ok err_no_error h = refl
exit_code_ok _ h = cc

opened_lines :
    (r : Reading) (path : Text) {lines : List Text}
    → source_lines r path ≡ some lines
    → lines ≡ map c_string (file_lines r.buffer (r.files.content path))
unfolding source_lines
opened_lines r path h =
    if_cases (fu_open_read r.files path) _ _ h (λ t h. sym (some_inj h)) (λ f. absurd cc)

-- Without an error the target has been opened.
closed_ok :
    (w : Platform) (target : Text) (dtsg cdsg : Segment) {o : Option (List ℕ)}
    → closed_file w target (output_binary (device w target) w.stray dtsg cdsg) ≡ (err_no_error, o)
    → (file : List ℕ) × (o ≡ some (w.closed file))
      × (output_binary (device w target) w.stray dtsg cdsg ≡ (err_no_error, file))
unfolding output_binary
closed_ok w target dtsg cdsg {o} h =
    go (device w target).opens (finish (write_segments (device w target) w.stray dtsg cdsg)) h
  where
    go :
        (b : Bool) (r : ErrMain × List ℕ)
        → ◌≡◌ {A = Ended}
            (
              (if b then r else (err_my_code_failure, [])).0,
              (if b then some (w.closed (if b then r else (err_my_code_failure, [])).1) else none),
            )
            (err_no_error, o)
        → (file : List ℕ) × (o ≡ some (w.closed file))
          × (◌≡◌ {A = ErrMain × List ℕ}
              (if b then r else (err_my_code_failure, []))
              (err_no_error, file))
    go true r h =
        (r.1, sym (ap (λ (x : Ended). x.1) h), (λ i. ((ap (λ (x : Ended). x.0) h) i, r.1)))
    go false r h = absurd cc

-- The result of process_assembler that goes on to the output.
output_ok :
    (w : Platform) (config : Config) (r : ErrMain × State) {o : Option (List ℕ)}
    → output w config r ≡ (err_no_error, o)
    → (t : State) × (file : List ℕ) × (r ≡ (err_no_error, t))
      × (o ≡ some (w.closed file))
      × (output_binary (device w config.target) w.stray t.dtsg t.cdsg ≡ (err_no_error, file))
output_ok w config (err_no_error, t) {o} h =
    let (file, whole, out) = closed_ok w config.target t.dtsg t.cdsg h in
    (t, file, refl, whole, out)
output_ok w config (_, t) h = cc

-- Where the second pass reads as the first did, and fclose loses nothing.
record Faithful (w : Platform) : Type 0 where
  pub same : w.second ≡ w.first
  pub kept : (bytes : List ℕ) → w.closed bytes ≡ bytes

assembled_ok :
    (w : Platform) (argv : List Text) (config : Config) (s : State) {o : Option (List ℕ)}
    → Faithful w
    → args_parse w.heap w.files argv ≡ (err_no_error, some config)
    → asp_create w.parts ≡ some s
    → assemble w config (some s) ≡ (err_no_error, o)
    → Translated w argv o
assembled_ok w argv config s f parsed made h =
    let (accepted, source, target) = args_parse-Accepted w.heap w.files argv parsed in
    let (t, file, done, written, out) = output_ok w config _ h in
    let done_same =
      subst
        (λ (r : Reading).
          process_assembler w.first.heap r.heap s (source_lines w.first config.source)
            (source_lines r config.source)
          ≡ (err_no_error, t))
        f.same done in
    let (lines, opened, a) =
      process_assembler-Assembled w.first.heap (source_lines w.first config.source) w.parts made
        done_same in
    record {
      config = config;
      accepted = accepted;
      source = source;
      target = target;
      start = s;
      made = made;
      end = t;
      assembled =
          subst (λ l. Assembled w.first.heap l s t) (opened_lines w.first config.source opened) a;
      file = file;
      written = written ∙ ap some (f.kept file);
      loads =
          output_binary-load (device w config.target) w.stray t.dtsg t.cdsg a.agree.data_buffer out;
    }

created_ok :
    (w : Platform) (argv : List Text) (config : Config) (r : Option State) {o : Option (List ℕ)}
    → Faithful w
    → args_parse w.heap w.files argv ≡ (err_no_error, some config)
    → asp_create w.parts ≡ r
    → assemble w config r ≡ (err_no_error, o)
    → Translated w argv o
created_ok w argv config none f parsed made h = cc
created_ok w argv config (some s) f parsed made h = assembled_ok w argv config s f parsed made h

parsed_ok :
    (w : Platform) (argv : List Text) (p : Parsed) {o : Option (List ℕ)}
    → Faithful w
    → args_parse w.heap w.files argv ≡ p
    → run_config w p ≡ (err_no_error, o)
    → Translated w argv o
parsed_ok w argv (err_no_error, some config) f e h =
    created_ok w argv config (asp_create w.parts) f e refl h
parsed_ok w argv (err_no_error, none) f e h = absurd (args_parse_kept w.heap w.files argv e)
parsed_ok w argv (_, config) f e h = cc

-- If the second reading of the source meets the same heap and the same files as the first, fclose
-- loses nothing that was handed to fwrite, and the program ends with exit status 0, then the
-- command line was accepted with its second argument as the source and with its target, asp_create
-- made the parts, both passes accepted the lines of the source without an error, the sizes after
-- them agree, and the target holds a file that loads: the loader gets back the bytes in use of the
-- data segment, and of the code segment with the zero byte that output_binary may add.
pub main-Translated :
    (w : Platform) (argv : List Text)
    → w.second ≡ w.first
    → ((bytes : List ℕ) → w.closed bytes ≡ bytes)
    → main w argv ≡ 0
    → Translated w argv (run w argv).1
unfolding main run
main-Translated w argv same kept h =
    parsed_ok w argv (args_parse w.heap w.files argv) (record { same = same; kept = kept }) refl
      (λ i. (exit_code_ok (run w argv).0 h i, (run w argv).1))
