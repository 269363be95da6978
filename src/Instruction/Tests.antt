-- ===== src/Instruction/Tests.antt =====
-- Rows of the table looked up again.
use kiv_pc_sw.Prelude.{◌≡◌, ◌≤◌, ◌<◌, refl, some}
use kiv_pc_sw.Prelude.Text.{codes, str_eq}
use kiv_pc_sw.Instruction.{
  Descriptor, row, op_none, op_imm32, instruction_table, find, find_in, get_encoded_size,
}
use kiv_pc_sw.Instruction.Encoding.{
  IsRow, decode, decode-opcode, find-row, asked_name, find-IsNamed, encoded_size_bounds,
}

abbrev pub je : Descriptor
je = row "JE" 0x72 op_imm32 op_none 1

pub je-IsRow : IsRow je
unfolding instruction_table
je-IsRow = (36, refl)

decode_example : decode je.opcode ≡ some je
decode_example = decode-opcode je je-IsRow

find_example : find je.mnemonic 0 je.operand1 je.operand2 ≡ some je
find_example = find-row je je-IsRow

found_example :
    IsRow je
    × (asked_name (codes "JE @a") 2 ≡ je.mnemonic)
    × (je.operand1 ≡ op_imm32)
    × (je.operand2 ≡ op_none)
unfolding instruction_table find find_in str_eq
found_example = find-IsNamed (codes "JE @a") 2 op_imm32 op_none refl

encoded_size_example : (1 ≤ get_encoded_size je) × (get_encoded_size je ≤ 6) × (je.opcode < 256)
encoded_size_example = encoded_size_bounds je je-IsRow
