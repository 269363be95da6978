-- ===== src/Parser/Segments.antt =====
-- parser/segment.c: the init segments of a data declaration. A function that may fail returns
-- none for its 0.
use kiv_pc_sw.Prelude.{
  ℕ, zero, suc, ◌+◌, ◌-◌, ◌*◌, ◌%◌, ◌^◌, Bool, true, false, ◌==◌, [], ◌∷◌, List, Option, none, some,
  if◌then◌else◌, length, replicate,
}
use kiv_pc_sw.Prelude.Text.{Text}
use kiv_pc_sw.Common.{
  size_max, kma_dword_size, kma_byte_size, max_identifier_len, Allocator, jalloc,
}
use kiv_pc_sw.Memory.{count_up}
use kiv_pc_sw.Lexer.Token.{Token}
use kiv_pc_sw.Parser.Statement.{
  Statement, DataDeclaration, DataType, data_dword, data_byte, InitSegment, init_seg_value,
  init_seg_dup, init_seg_string, init_seg_uninit, init_segment_size, no_segment,
}
use kiv_pc_sw.Parser.TokenHelpers.{token_copy_value, token_parse_int32}

abbrev pub with_data_decl : Statement → DataDeclaration → Statement
with_data_decl pstmt dd = record pstmt { data_decl = dd }

-- SIZE_MAX is the failure.
unfoldable pub segment_append : Statement → ℕ × Statement
segment_append pstmt =
    let dd = pstmt.data_decl in
    if dd.segment_count == size_max then (size_max, pstmt) else (
      dd.segment_count,
      with_data_decl pstmt (record dd { segment_count = dd.segment_count + 1 }),
    )

unfoldable pub segments_finalize : Allocator → Statement → Option Statement
segments_finalize m pstmt =
    let dd = pstmt.data_decl in
    if jalloc m (dd.segment_count * init_segment_size % 2 ^ 64)
    then some (record pstmt {
      data_decl = record dd {
        segments = replicate dd.segment_count no_segment;
        is_fully_uninit = true;
      };
      held = count_up pstmt.held;
    })
    else none

abbrev pub element_size : DataType → ℕ
element_size data_dword = kma_dword_size
element_size data_byte = kma_byte_size

-- The sum over the segments, in size_t.
unfoldable pub total_size_of : ℕ → ℕ → List InitSegment → ℕ
total_size_of elem_size total [] = total
total_size_of elem_size total (seg ∷ segs) =
    total_size_of elem_size ((total + seg.element_count * elem_size) % 2 ^ 64) segs

unfoldable pub segment_set_dd_total_size : DataDeclaration → DataDeclaration
segment_set_dd_total_size dd = record dd {
  total_size = total_size_of (element_size dd.type) 0 dd.segments;
}

unfoldable pub segment_remove_last : Statement → Statement
segment_remove_last pstmt =
    let dd = pstmt.data_decl in
    with_data_decl pstmt (record dd { segment_count = dd.segment_count - 1 })

-- The segment at an index that segment_append gave out, changed in place.
abbrev pub update_at : (InitSegment → InitSegment) → ℕ → List InitSegment → List InitSegment
update_at f i [] = []
update_at f zero (seg ∷ segs) = f seg ∷ segs
update_at f (suc i) (seg ∷ segs) = seg ∷ update_at f i segs

abbrev pub as_dup : InitSegment → InitSegment
as_dup seg = record seg { type = init_seg_dup; element_count = seg.dup_count }

abbrev is_uninit_at : List InitSegment → ℕ → Bool
is_uninit_at [] i = false
is_uninit_at (seg ∷ segs) zero = seg.is_uninit
is_uninit_at (seg ∷ segs) (suc i) = is_uninit_at segs i

unfoldable pub segment_set_dup : Statement → ℕ → Statement
segment_set_dup pstmt segment_idx =
    let dd = pstmt.data_decl in
    with_data_decl pstmt (record dd {
      segments = update_at as_dup segment_idx dd.segments;
      is_fully_uninit = if is_uninit_at dd.segments segment_idx then dd.is_fully_uninit else false;
    })

abbrev pub as_number : ℕ → InitSegment → InitSegment
as_number value seg = record seg {
  type = init_seg_value;
  value = value;
  element_count = 1;
  is_uninit = false;
}

unfoldable pub segment_set_number : Statement → ℕ → Token → Option Statement
segment_set_number pstmt segment_idx token =
    let dd = pstmt.data_decl in
    elim (token_parse_int32 token) [
      | none ↦ none
      | some value ↦ some (
          with_data_decl pstmt (record dd {
            segments = update_at (as_number value) segment_idx dd.segments;
            is_fully_uninit = false;
          }))
    ]

abbrev pub as_uninit : InitSegment → InitSegment
as_uninit seg = record seg { type = init_seg_uninit; element_count = 1; is_uninit = true }

unfoldable pub segment_set_uninit : Statement → ℕ → Statement
segment_set_uninit pstmt segment_idx =
    let dd = pstmt.data_decl in
    with_data_decl pstmt (record dd { segments = update_at as_uninit segment_idx dd.segments })

abbrev pub as_string : Text → InitSegment → InitSegment
as_string s seg = record seg {
  type = init_seg_string;
  string = s;
  element_count = length s;
  is_uninit = false;
}

unfoldable pub segment_set_string : Statement → ℕ → Token → Option Statement
segment_set_string pstmt segment_idx token =
    let dd = pstmt.data_decl in
    elim (token_copy_value token max_identifier_len) [
      | none ↦ none
      | some s ↦ some (
          with_data_decl pstmt (record dd {
            segments = update_at (as_string s) segment_idx dd.segments;
            is_fully_uninit = false;
          }))
    ]
