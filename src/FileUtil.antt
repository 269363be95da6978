-- ===== src/FileUtil.antt =====
-- io/fileutil.c on a POSIX system: the tests on paths, fu_open and fu_getline. What stat, access
-- and fopen answer is up to the file system, and a file that is read is the list of its bytes.
pub mod Lines
pub mod Free
mod Tests
use kiv_pc_sw.Prelude.{
  ℕ, zero, suc, ◌+◌, ◌*◌, ◌%◌, ◌^◌, Bool, true, false, not, ◌&&◌, List, [], ◌∷◌, ◌++◌, Option, none,
  some, leb, ◌==◌, if◌then◌else◌, length,
}
use kiv_pc_sw.Prelude.Text.{Text, codes}
use kiv_pc_sw.Common.{Allocator, jalloc, jealloc, dynamic_array_growth_multiplier}

-- What stat reports of a path.
pub data Kind : Type 0 where
  missing regular directory special : Kind

pub record FileSystem : Type 0 where
  pub kind : Text → Kind
  pub readable : Text → Bool
  pub writable : Text → Bool
  pub opens_read : Text → Bool
  pub opens_write : Text → Bool
  pub content : Text → List ℕ

abbrev is_missing : Kind → Bool
is_missing missing = true
is_missing _ = false

abbrev is_regular : Kind → Bool
is_regular regular = true
is_regular _ = false

abbrev is_directory : Kind → Bool
is_directory directory = true
is_directory _ = false

unfoldable pub fu_path_exists : FileSystem → Text → Bool
fu_path_exists fs path = not (is_missing (fs.kind path))

unfoldable pub fu_is_file : FileSystem → Text → Bool
fu_is_file fs path = is_regular (fs.kind path)

unfoldable pub fu_is_dir : FileSystem → Text → Bool
fu_is_dir fs path = is_directory (fs.kind path)

unfoldable pub fu_can_read : FileSystem → Text → Bool
fu_can_read fs path = fs.readable path

unfoldable pub fu_can_write_file : FileSystem → Text → Bool
unfolding fu_is_file
fu_can_write_file fs path = if fu_is_file fs path then fs.writable path else false

unfoldable pub fu_can_write_dir : FileSystem → Text → Bool
unfolding fu_is_dir
fu_can_write_dir fs path = if fu_is_dir fs path then fs.writable path else false

-- What stands before the last '/', if there is one.
unfoldable pub before_slash : Text → Option Text
before_slash [] = none
before_slash (c ∷ s) =
    let rest = before_slash s in
    elim rest [ some p ↦ some (c ∷ p) | none ↦ if c == b'/' then some [] else none ]

abbrev parent_of : Option Text → Text
parent_of none = codes "."
parent_of (some []) = codes "/"
parent_of (some (c ∷ s)) = c ∷ s

-- The path is duplicated on the heap first.
unfoldable pub fu_can_write_parent_dir : Allocator → FileSystem → Text → Bool
unfolding before_slash fu_can_write_dir
fu_can_write_parent_dir m fs path =
    if jalloc m (length path + 1)
    then fu_can_write_dir fs (parent_of (before_slash path))
    else false

unfoldable pub fu_can_write : Allocator → FileSystem → Text → Bool
unfolding fu_is_dir fu_is_file fu_path_exists fu_can_write_dir fu_can_write_file
    fu_can_write_parent_dir
fu_can_write m fs path =
    if fu_is_dir fs path
    then fu_can_write_dir fs path
    else if fu_is_file fs path
    then fu_can_write_file fs path
    else if not (fu_path_exists fs path)
    then fu_can_write_parent_dir m fs path
    else false

-- fu_open with no mode, which is "r", and with "wb".
unfoldable pub fu_open_read : FileSystem → Text → Bool
unfolding fu_is_file fu_can_read
fu_open_read fs path =
    if fu_is_file fs path && fu_can_read fs path then fs.opens_read path else false

unfoldable pub fu_open_write : Allocator → FileSystem → Text → Bool
unfolding fu_can_write_parent_dir
fu_open_write m fs path = if fu_can_write_parent_dir m fs path then fs.opens_write path else false

abbrev pub fu_getline_init_len : ℕ
fu_getline_init_len = 128

-- What a call leaves: the line, or none for the -1, the length of the buffer, and what is left to
-- read.
abbrev pub Got : Type 0
Got = Option (List ℕ) × ℕ × List ℕ

-- The loop over the characters: `pos` of them stand in the buffer of `n` bytes.
unfoldable pub read_chars : Allocator → ℕ → ℕ → List ℕ → List ℕ → Got
read_chars m pos n line [] = if pos == 0 then (none, n, []) else (some line, n, [])
read_chars m pos n line (ch ∷ stream) =
    let extend = leb n (pos + 1) in
    let new_n = if extend then n * dynamic_array_growth_multiplier % 2 ^ 64 else n in
    let rest = read_chars m (suc pos) new_n (line ++ (ch ∷ [])) stream in
    if extend && not (jealloc m new_n)
    then (none, n, stream)
    else if ch == b'\n'
    then (some (line ++ (ch ∷ [])), new_n, stream)
    else rest

-- A buffer of length 0 is the NULL pointer, which is allocated first.
unfoldable pub fu_getline : Allocator → ℕ → List ℕ → Got
unfolding read_chars
fu_getline m n stream =
    if n == 0
    then (if jalloc m fu_getline_init_len
        then read_chars m 0 fu_getline_init_len [] stream
        else (none, fu_getline_init_len, stream))
    else read_chars m 0 n [] stream

abbrev pub and_more : Got → (ℕ → List ℕ → List (List ℕ)) → List (List ℕ)
and_more (none, n, stream) more = []
and_more (some line, n, stream) more = line ∷ more n stream

-- The lines that the loop `while (fu_getline (&line, &line_len, f) != -1)` sees, with fuel.
unfoldable pub read_lines : ℕ → Allocator → ℕ → List ℕ → List (List ℕ)
unfolding fu_getline
read_lines zero m n stream = []
read_lines (suc fuel) m n stream =
    and_more (fu_getline m n stream) (λ n' stream'. read_lines fuel m n' stream')

-- Every call that returns a line reads a character, so a round more than characters is enough.
unfoldable pub file_lines : Allocator → List ℕ → List (List ℕ)
unfolding read_lines
file_lines m stream = read_lines (suc (length stream)) m 0 stream

-- A line as the C string that it is passed on as: up to the first NUL.
unfoldable pub c_string : List ℕ → Text
c_string [] = []
c_string (c ∷ s) = let rest = c_string s in if c == 0 then [] else c ∷ rest
