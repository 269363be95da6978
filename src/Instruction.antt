-- ===== src/Instruction.antt =====
-- data_structures/instruction.c: the instruction set and the queries on it.
pub mod Encoding
pub mod Tests
use kiv_pc_sw.Prelude.{
  ℕ, zero, suc, ◌+◌, Bool, true, false, List, [], ◌∷◌, Option, none, some, ltb, leb, ◌==◌, ◌&&◌,
  if◌then◌else◌, length, take,
}
use kiv_pc_sw.Prelude.Text.{Text, codes, str_eq}
use Prim.Native.String.{String}
use kiv_pc_sw.Common.{kma_byte_size, kma_dword_size}

-- enum Operand_Type
pub data OperandType : Type 0 where
  op_none op_reg op_imm32 : OperandType

abbrev pub operand_type_eq : OperandType → OperandType → Bool
operand_type_eq op_none op_none = true
operand_type_eq op_reg op_reg = true
operand_type_eq op_imm32 op_imm32 = true
operand_type_eq _ _ = false

-- struct Instruction_Descriptor
pub record Descriptor : Type 0 where
  pub mnemonic : Text
  pub opcode : ℕ
  pub operand1 : OperandType
  pub operand2 : OperandType
  pub operand_count : ℕ

abbrev pub row : String → ℕ → OperandType → OperandType → ℕ → Descriptor
row name opcode operand1 operand2 count = record {
  mnemonic = codes name;
  opcode = opcode;
  operand1 = operand1;
  operand2 = operand2;
  operand_count = count;
}

-- INSTRUCTION_TABLE
unfoldable pub instruction_table : List Descriptor
instruction_table =
    row "HALT" 0x00 op_none op_none 0
    ∷ row "NOP" 0x90 op_none op_none 0
    ∷ row "MOV" 0x10 op_reg op_imm32 2
    ∷ row "MOV" 0x11 op_reg op_reg 2
    ∷ row "MOVSD" 0x12 op_reg op_reg 2
    ∷ row "LOAD" 0x13 op_reg op_imm32 2
    ∷ row "LOAD" 0x14 op_reg op_reg 2
    ∷ row "STOR" 0x15 op_reg op_imm32 2
    ∷ row "STOR" 0x16 op_reg op_reg 2
    ∷ row "PUSH" 0x20 op_reg op_none 1
    ∷ row "POP" 0x21 op_reg op_none 1
    ∷ row "ADD" 0x30 op_reg op_imm32 2
    ∷ row "ADD" 0x31 op_reg op_reg 2
    ∷ row "SUB" 0x32 op_reg op_imm32 2
    ∷ row "SUB" 0x33 op_reg op_reg 2
    ∷ row "MUL" 0x34 op_reg op_imm32 2
    ∷ row "MUL" 0x35 op_reg op_reg 2
    ∷ row "DIV" 0x36 op_reg op_imm32 2
    ∷ row "DIV" 0x37 op_reg op_reg 2
    ∷ row "INC" 0x38 op_reg op_none 1
    ∷ row "DEC" 0x39 op_reg op_none 1
    ∷ row "AND" 0x40 op_reg op_imm32 2
    ∷ row "AND" 0x41 op_reg op_reg 2
    ∷ row "OR" 0x42 op_reg op_imm32 2
    ∷ row "OR" 0x43 op_reg op_reg 2
    ∷ row "XOR" 0x44 op_reg op_imm32 2
    ∷ row "XOR" 0x45 op_reg op_reg 2
    ∷ row "NOT" 0x46 op_reg op_none 1
    ∷ row "SHL" 0x50 op_reg op_imm32 2
    ∷ row "SHL" 0x51 op_reg op_reg 2
    ∷ row "SHR" 0x52 op_reg op_imm32 2
    ∷ row "SHR" 0x53 op_reg op_reg 2
    ∷ row "CMP" 0x60 op_reg op_imm32 2
    ∷ row "CMP" 0x61 op_reg op_reg 2
    ∷ row "JMP" 0x70 op_imm32 op_none 1
    ∷ row "JMP" 0x71 op_reg op_none 1
    ∷ row "JE" 0x72 op_imm32 op_none 1
    ∷ row "JNE" 0x73 op_imm32 op_none 1
    ∷ row "JG" 0x74 op_imm32 op_none 1
    ∷ row "JGE" 0x75 op_imm32 op_none 1
    ∷ row "JNG" 0x76 op_imm32 op_none 1
    ∷ row "JL" 0x77 op_imm32 op_none 1
    ∷ row "JLE" 0x78 op_imm32 op_none 1
    ∷ row "JNL" 0x79 op_imm32 op_none 1
    ∷ row "CALL" 0x80 op_imm32 op_none 1
    ∷ row "CALL" 0x81 op_reg op_none 1
    ∷ row "RET" 0x82 op_none op_none 0
    ∷ row "OUTD" 0xF0 op_reg op_none 1
    ∷ row "OUTC" 0xF1 op_reg op_none 1
    ∷ row "OUTS" 0xF2 op_reg op_none 1
    ∷ row "INPD" 0xF3 op_reg op_none 1
    ∷ row "INPC" 0xF4 op_reg op_none 1
    ∷ row "INPS" 0xF5 op_reg op_none 1
    ∷ []

-- strncmp (a, b, n) == 0 for strings of at least `n` characters.
abbrev pub same_prefix : Text → Text → ℕ → Bool
same_prefix a b n = str_eq (take n a) (take n b)

-- A length of 0 stands for the length of the word.
abbrev pub word_len : Text → ℕ → ℕ
word_len word len = if len == 0 then length word else len

abbrev pub mnemonic_is : Text → ℕ → Descriptor → Bool
mnemonic_is word w_len d = w_len == length d.mnemonic && same_prefix d.mnemonic word w_len

unfoldable pub is_mnemonic_in : List Descriptor → Text → ℕ → Bool
is_mnemonic_in [] word w_len = false
is_mnemonic_in (d ∷ ds) word w_len =
    if mnemonic_is word w_len d then true else is_mnemonic_in ds word w_len

unfoldable pub is_mnemonic : Text → ℕ → Bool
is_mnemonic word len = is_mnemonic_in instruction_table word (word_len word len)

unfoldable pub find_in : List Descriptor → Text → ℕ → OperandType → OperandType → Option Descriptor
find_in [] mnemonic w_len op1 op2 = none
find_in (d ∷ ds) mnemonic w_len op1 op2 =
    if mnemonic_is mnemonic w_len d
      && operand_type_eq d.operand1 op1
      && operand_type_eq d.operand2 op2
    then some d
    else find_in ds mnemonic w_len op1 op2

unfoldable pub find : Text → ℕ → OperandType → OperandType → Option Descriptor
find mnemonic len op1 op2 = find_in instruction_table mnemonic (word_len mnemonic len) op1 op2

-- What one operand adds to the size of an instruction.
abbrev pub operand_size : OperandType → ℕ
operand_size op_none = 0
operand_size op_reg = kma_byte_size
operand_size op_imm32 = kma_dword_size

unfoldable pub get_encoded_size : Descriptor → ℕ
get_encoded_size d = kma_byte_size + operand_size d.operand1 + operand_size d.operand2

unfoldable pub is_relative_jump : Descriptor → Bool
is_relative_jump d = leb 0x72 d.opcode && ltb d.opcode 0x80
