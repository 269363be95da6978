-- ===== src/Main.antt =====
-- main.c: the whole program, from the command line to the file that it writes.
pub mod Correct
pub mod Free
pub mod Balance
mod Tests
use kiv_pc_sw.Prelude.{ℕ, Bool, List, Option, none, some, map, if◌then◌else◌}
use kiv_pc_sw.Prelude.Text.{Text}
use kiv_pc_sw.Common.{Allocator, Heap, ErrMain, err_no_error, err_my_code_failure, exit_code}
use kiv_pc_sw.FileUtil.{FileSystem, fu_open_read, fu_open_write, file_lines, c_string}
use kiv_pc_sw.Args.{Config, Parsed, args_parse}
use kiv_pc_sw.Assembler.Types.{State}
use kiv_pc_sw.Assembler.Run.{asp_create, process_assembler}
use kiv_pc_sw.Output.{Device, output_binary}

-- One reading of the source: the heap at each line, the heap that fu_getline meets, which asks for
-- each size once until it is refused, and the files.
pub record Reading : Type 0 where
  pub heap : Heap
  pub buffer : Allocator
  pub files : FileSystem

-- The platform: the heap and the files for args_parse, the heap for the parts of the assembler, the
-- two readings, the heap and the files when the target is opened, how the opened target takes
-- blocks, what it holds after fclose, and what stands in front of an empty code buffer.
pub record Platform : Type 0 where
  pub heap : Heap
  pub files : FileSystem
  pub parts : Heap
  pub first : Reading
  pub second : Reading
  pub target_heap : Allocator
  pub target_files : FileSystem
  pub accepts : List ℕ → List ℕ → Bool
  pub short : List ℕ → List ℕ → List ℕ
  pub closed : List ℕ → List ℕ
  pub stray : ℕ

-- The lines of the source as a pass gets them, if it can be opened.
unfoldable pub source_lines : Reading → Text → Option (List Text)
source_lines r path =
    if fu_open_read r.files path
    then some (map c_string (file_lines r.buffer (r.files.content path)))
    else none

abbrev pub device : Platform → Text → Device
device w target = record {
  opens = fu_open_write w.target_heap w.target_files target;
  accepts = w.accepts;
  short = w.short;
}

-- The error code, and what the target holds if the run came to opening it for writing.
abbrev pub Ended : Type 0
Ended = ErrMain × Option (List ℕ)

-- The result of fclose is ignored.
abbrev pub closed_file : Platform → Text → ErrMain × List ℕ → Ended
closed_file w target (e, file) = (e, if (device w target).opens then some (w.closed file) else none)

abbrev pub output : Platform → Config → ErrMain × State → Ended
output w config (err_no_error, st) =
    closed_file w config.target (output_binary (device w config.target) w.stray st.dtsg st.cdsg)
output w config (e, st) = (e, none)

abbrev pub assemble : Platform → Config → Option State → Ended
assemble w config none = (err_my_code_failure, none)
assemble w config (some st) = output w config (
    process_assembler w.first.heap w.second.heap st (source_lines w.first config.source)
      (source_lines w.second config.source))

abbrev pub run_config : Platform → Parsed → Ended
run_config w (err_no_error, some config) = assemble w config (asp_create w.parts)
run_config w (err_no_error, none) = (err_no_error, none)
run_config w (e, config) = (e, none)

unfoldable pub run : Platform → List Text → Ended
run w argv = run_config w (args_parse w.heap w.files argv)

-- The exit status of the process.
unfoldable pub main : Platform → List Text → ℕ
unfolding run exit_code
main w argv = exit_code (run w argv).0
