-- ===== src/Assembler/Jumps.antt =====
-- Where a relative jump lands: the value that the second pass writes, added to the address behind
-- the instruction in 32-bit arithmetic, is the address of the label.
use kiv_pc_sw.Prelude.{ℕ, ◌+◌, ◌%◌, ◌^◌, ◌≤◌, ◌≡◌, refl, ◌∙◌, ap, true, [], ◌∷◌, some, arith}
use kiv_pc_sw.Prelude.Text.{Text}
use kiv_pc_sw.Common.{int32_max}
use kiv_pc_sw.Symbol
use kiv_pc_sw.Instruction.{Descriptor, get_encoded_size, is_relative_jump}
use kiv_pc_sw.Assembler.Types.{convert_uint32, convert_size_t, asm_invalid_operand_label}
use kiv_pc_sw.Assembler.Pass2.{
  got, address_of, got_or, relative_to, relocate, pass2_instruction_get_op_label,
}

-- The value written for a jump at `addr` to a symbol, with what it comes from.
pub record JumpsTo (symtab : Symbol.SymbolTable) (name : Text) (d : Descriptor) (addr target : ℕ)
    : Type 0 where
  pub offset : ℕ
  pub looked_up : pass2_instruction_get_op_label symtab name ≡ got target
  pub written : relocate d (target ∷ []) addr ≡ offset ∷ []
  pub lands : (addr + get_encoded_size d + offset) % 2 ^ 32 ≡ target

convert_uint32_small : (u : ℕ) → u ≤ int32_max → convert_uint32 u ≡ u
unfolding convert_uint32
convert_uint32_small u h = ground arith

relative_to_lands :
    (v addr size : ℕ)
    → v ≤ int32_max
    → addr + size ≤ int32_max
    → (addr + size + relative_to v addr size) % 2 ^ 32 ≡ v
unfolding convert_size_t
relative_to_lands v addr size h k = ground arith

-- For a relative jump to a symbol of the table, where the address of the symbol and the address
-- behind the instruction are at most INT32_MAX: the operand is the address of the symbol, one word
-- is written for it, and that word added to the address behind the instruction gives the address
-- of the symbol modulo 2^32.
pub jump_lands :
    (symtab : Symbol.SymbolTable) (name : Text) (d : Descriptor) (addr : ℕ) {s : Symbol.Symbol}
    → Symbol.find symtab name ≡ some s
    → is_relative_jump d ≡ true
    → s.address ≤ int32_max
    → addr + get_encoded_size d ≤ int32_max
    → JumpsTo symtab name d addr s.address
unfolding pass2_instruction_get_op_label relocate
jump_lands symtab name d addr {s} found jump small room = record {
  offset = relative_to s.address addr (get_encoded_size d);
  looked_up =
      ap (λ o. got_or (address_of o) asm_invalid_operand_label) found
      ∙ ap got (convert_uint32_small s.address small);
  written = rw jump refl;
  lands = relative_to_lands s.address addr (get_encoded_size d) small room;
}
