-- ===== src/Samples.antt =====
-- Small inputs for the tests: a heap that grants every block, and the state in which an assembly
-- starts on it.
use kiv_pc_sw.Prelude.Text.{Text, codes, str_eq}
use kiv_pc_sw.FileUtil.{FileSystem, Kind, missing, regular, directory}
use kiv_pc_sw.Prelude.{ℕ, if◌then◌else◌, refl, true, List, [], ◌∷◌, replicate, arith}
use kiv_pc_sw.Common.{Allocator, Heap}
use kiv_pc_sw.Segment.{Segment, IsBuffer}
use kiv_pc_sw.Symbol.{SymbolTable}
use kiv_pc_sw.Assembler.Types.{State, Context, asc_file_start}

abbrev pub generous : Allocator
generous = record { grants = λ n. true; residue = λ n. 0 }

-- The same at every moment.
abbrev pub always : Heap
always n = generous

abbrev pub empty_segment : Segment
empty_segment = record { bytes = replicate 16 0; size = 0; capacity = 16 }

pub empty_segment-IsBuffer : IsBuffer empty_segment
empty_segment-IsBuffer = record { allocated = refl; within = omega arith; bounded = omega arith }

-- Two bytes in use, in a buffer of two.
abbrev pub full_segment : Segment
full_segment = record { bytes = 1 ∷ 2 ∷ []; size = 2; capacity = 2 }

pub full_segment-IsBuffer : IsBuffer full_segment
full_segment-IsBuffer = record { allocated = refl; within = omega arith; bounded = omega arith }

abbrev pub no_symbols : SymbolTable
no_symbols = record { symbols = []; count = 0; capacity = 16 }

abbrev pub in_context : Context → State
in_context ctx = record {
  symtab = no_symbols;
  dtsg = empty_segment;
  cdsg = empty_segment;
  ctx = ctx;
}

abbrev pub start : State
start = in_context asc_file_start

-- One source file in one directory.
abbrev pub source_text : List ℕ
source_text = codes ".KMA\n.CODE\nNOP\n"

abbrev pub kind_of : Text → Kind
kind_of path =
    if str_eq path (codes "d/a.kas")
    then regular
    else if str_eq path (codes "d")
    then directory
    else missing

abbrev pub files : FileSystem
files = record {
  kind = kind_of;
  readable = λ path. true;
  writable = λ path. true;
  opens_read = λ path. true;
  opens_write = λ path. true;
  content = λ path. source_text;
}
