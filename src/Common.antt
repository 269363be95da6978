-- ===== src/Common.antt =====
-- include/common.h and core/memory.c: the error codes of the program, the sizes of the KMA
-- computer, and the two allocation calls. A size_t has 64 bits.
use kiv_pc_sw.Prelude.{
  ℕ, zero, suc, ◌-◌, ◌*◌, ◌^◌, ◌++◌, Bool, false, ◌||◌, List, [], ◌∷◌, ltb, ◌==◌,
}
use kiv_pc_sw.Prelude.{if◌then◌else◌, length, take}

-- enum Err_Main
pub data ErrMain : Type 0 where
  err_no_error err_invalid_input_file err_invalid_output_file err_syntax_error : ErrMain
  err_file_access_failure err_out_of_memory err_unresolved_reference : ErrMain
  err_code_segment_too_large err_data_segment_too_large err_my_code_failure : ErrMain

-- The exit status of the process.
unfoldable pub exit_code : ErrMain → ℕ
exit_code err_no_error = 0
exit_code err_invalid_input_file = 1
exit_code err_invalid_output_file = 2
exit_code err_syntax_error = 3
exit_code err_file_access_failure = 4
exit_code err_out_of_memory = 5
exit_code err_unresolved_reference = 6
exit_code err_code_segment_too_large = 7
exit_code err_data_segment_too_large = 8
exit_code err_my_code_failure = 42

abbrev pub size_max : ℕ
size_max = 2 ^ 64 - 1

abbrev pub int32_max : ℕ
int32_max = 2 ^ 31 - 1

abbrev pub uint32_max : ℕ
uint32_max = 2 ^ 32 - 1

abbrev pub kma_cdsg_bytes : ℕ
kma_cdsg_bytes = 256 * 1024

abbrev pub kma_dtsg_bytes : ℕ
kma_dtsg_bytes = 256 * 1024

abbrev pub kma_dword_size : ℕ
kma_dword_size = 4

abbrev pub kma_byte_size : ℕ
kma_byte_size = 1

abbrev pub max_identifier_len : ℕ
max_identifier_len = 256

abbrev pub max_register_name_len : ℕ
max_register_name_len = 3

abbrev pub dynamic_array_initial_capacity : ℕ
dynamic_array_initial_capacity = 16

abbrev pub dynamic_array_growth_multiplier : ℕ
dynamic_array_growth_multiplier = 2

-- The heap of the C library: whether calloc and realloc grant a block of so many bytes, and which
-- bytes realloc leaves behind the old ones. Both are up to the platform.
pub record Allocator : Type 0 where
  pub grants : ℕ → Bool
  pub residue : ℕ → ℕ

-- The heap over time: its answers at successive moments.
abbrev pub Heap : Type 0
Heap = ℕ → Allocator

-- jalloc: whether a zeroed block is returned.
unfoldable pub jalloc : Allocator → ℕ → Bool
jalloc m bytes = if bytes == 0 || ltb size_max bytes then false else m.grants bytes

-- jealloc of a live block: whether a block is returned.
unfoldable pub jealloc : Allocator → ℕ → Bool
jealloc m bytes = m.grants bytes

abbrev pub residues : (ℕ → ℕ) → ℕ → List ℕ
residues f zero = []
residues f (suc n) = f n ∷ residues f n

-- The contents of a block after a realloc to `bytes` bytes.
abbrev pub realloc_bytes : Allocator → List ℕ → ℕ → List ℕ
realloc_bytes m old bytes = take bytes old ++ residues m.residue (bytes - length old)
