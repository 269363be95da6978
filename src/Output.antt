-- ===== src/Output.antt =====
-- io/output.c and fu_write_bytes of io/fileutil.c: the .kmx file is the signature, the size of the
-- data segment in four bytes, the data, and the code with a closing zero byte.
pub mod Load
mod Tests
use kiv_pc_sw.Prelude.{
  ℕ, ◌-◌, Bool, true, false, not, List, [], ◌∷◌, ◌++◌, Option, none, some, ltb, ◌==◌, if◌then◌else◌,
  get_elem?,
}
use kiv_pc_sw.Prelude.Text.{codes}
use kiv_pc_sw.Common.{int32_max, ErrMain, err_no_error, err_my_code_failure}
use kiv_pc_sw.Segment.{Segment, contents, word_bytes}

-- The target file: whether it can be opened for writing (fu_open), whether fwrite writes a whole
-- block behind what the file holds, and what the file holds after a short write.
pub record Device : Type 0 where
  pub opens : Bool
  pub accepts : List ℕ → List ℕ → Bool
  pub short : List ℕ → List ℕ → List ℕ

-- Whether a write was whole, and what the file then holds.
abbrev pub Written : Type 0
Written = Bool × List ℕ

unfoldable pub fu_write_bytes : Device → List ℕ → List ℕ → Written
fu_write_bytes d file bs =
    if d.accepts file bs then (true, file ++ bs) else (false, d.short file bs)

unfoldable pub write_in_little_endian : Device → List ℕ → ℕ → Written
unfolding fu_write_bytes
write_in_little_endian d file number =
    if ltb int32_max number then (false, file) else fu_write_bytes d file (word_bytes number)

-- CLEANUP_VERBOSE_IF_FAIL: go on only after a success.
abbrev pub next : Written → (List ℕ → Written) → Written
next (true, file) k = k file
next (false, file) k = (false, file)

abbrev byte_or : Option ℕ → ℕ → ℕ
byte_or none stray = stray
byte_or (some b) stray = b

-- The byte at size - 1. Without any code the source reads in front of the buffer; `stray` is what
-- it finds there.
unfoldable pub last_byte : ℕ → Segment → ℕ
last_byte stray cdsg =
    if cdsg.size == 0 then stray else byte_or (get_elem? cdsg.bytes (cdsg.size - 1)) stray

unfoldable pub write_segments : Device → ℕ → Segment → Segment → Written
write_segments d stray dtsg cdsg = next (fu_write_bytes d [] (codes "KMX")) λ f1.
    next (if ltb int32_max dtsg.size then (false, f1) else write_in_little_endian d f1 dtsg.size)
      λ f2. next (fu_write_bytes d f2 (contents dtsg)) λ f3.
        next (fu_write_bytes d f3 (contents cdsg))
          λ f4. if last_byte stray cdsg == 0 then (true, f4) else fu_write_bytes d f4 (0 ∷ [])

abbrev pub finish : Written → ErrMain × List ℕ
finish (true, file) = (err_no_error, file)
finish (false, file) = (err_my_code_failure, file)

-- The error code, and what has been handed to fwrite. That fclose may lose some of it is in Main.
unfoldable pub output_binary : Device → ℕ → Segment → Segment → ErrMain × List ℕ
unfolding write_segments
output_binary d stray dtsg cdsg =
    if d.opens then finish (write_segments d stray dtsg cdsg) else (err_my_code_failure, [])
