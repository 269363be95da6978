-- ===== src/Assembler/Encoded.antt =====
-- The bytes of an instruction against the values of its operands.
use kiv_pc_sw.Prelude.{
  ℕ, ◌+◌, ◌%◌, ◌^◌, ◌≤◌, ◌<◌, ◌≡◌, refl, subst, Bool, true, List, [], ◌∷◌, some, arith, inl, inr,
  Bool-cases,
}
use kiv_pc_sw.Common.{Allocator, int32_max}
use kiv_pc_sw.Segment
use kiv_pc_sw.Segment.{IsBuffer}
use kiv_pc_sw.Instruction.{Descriptor, get_encoded_size, is_relative_jump}
use kiv_pc_sw.Parser.Statement.{Statement}
use kiv_pc_sw.Assembler.Types.{State, asm_no_error, convert_size_t}
use kiv_pc_sw.Assembler.Pass2.{
  operands_of, pass2_instruction, relocate, relative_to, relocate_first,
}
use kiv_pc_sw.Assembler.Operands.{AreValues, Described, ops_get-Described}
use kiv_pc_sw.Assembler.Emit.{EmitsCode, operands_bytes}
use kiv_pc_sw.Assembler.Layout.{pass2_instruction-Encodes}

-- The words written for the values: with a jump, the first word added to the address behind the
-- instruction in 32-bit arithmetic is the first value.
abbrev pub Relocated : Bool → ℕ → List ℕ → List ℕ → Type 0
Relocated true behind (v ∷ vs) (w ∷ ws) =
    (w < 2 ^ 32) × ((behind + w) % 2 ^ 32 ≡ v % 2 ^ 32) × (ws ≡ vs)
Relocated jump behind vs ws = ws ≡ vs

-- What an instruction adds to the code segment.
pub record Written (p : Statement) (d : Descriptor) (s t : State) : Type 0 where
  pub vs : List ℕ
  pub ws : List ℕ
  pub operands : AreValues s.symtab (operands_of p.instruction) vs
  pub relocated : Relocated (is_relative_jump d) (s.cdsg.size + get_encoded_size d) vs ws
  pub emitted : EmitsCode s (d.opcode ∷ operands_bytes (operands_of p.instruction) ws) t

relative_to_behind :
    (v addr size : ℕ)
    → addr + size ≤ int32_max
    → (addr + size + relative_to v addr size) % 2 ^ 32 ≡ v % 2 ^ 32
unfolding convert_size_t
relative_to_behind v addr size h = ground arith

relocate_first-Relocated :
    (vs : List ℕ) (addr size : ℕ)
    → addr + size ≤ int32_max
    → Relocated true (addr + size) vs (relocate_first vs addr size)
relocate_first-Relocated [] addr size h = refl
relocate_first-Relocated (v ∷ vs) addr size h =
    (omega arith, relative_to_behind v addr size h, refl)

relocate-Relocated :
    (d : Descriptor) (vs : List ℕ) (addr : ℕ)
    → addr + get_encoded_size d ≤ int32_max
    → Relocated (is_relative_jump d) (addr + get_encoded_size d) vs (relocate d vs addr)
unfolding relocate
relocate-Relocated d vs addr h = elim (Bool-cases (is_relative_jump d)) [
  | inl jump ↦ rw jump (relocate_first-Relocated vs addr (get_encoded_size d) h)
  | inr other ↦ rw other refl
]

-- If pass2_instruction ends without an error on a statement with a descriptor, the code segment is
-- a proper buffer, and the address behind the instruction is at most INT32_MAX, then every operand
-- has a value (the code of its register, its number, or the address of its symbol, at most
-- INT32_MAX), and the code segment gains the opcode followed by the bytes of one word for each
-- value: the value itself, but for the first operand of a relative jump a 32-bit word that added
-- to the address behind the instruction gives the value modulo 2^32; nothing else of the state
-- changes.
pub pass2_instruction-Written :
    (m : Allocator) (p : Statement) (d : Descriptor) (s : State) {t : State}
    → p.instruction.descriptor ≡ some d
    → IsBuffer s.cdsg
    → s.cdsg.size + get_encoded_size d ≤ int32_max
    → pass2_instruction m p s ≡ (asm_no_error, t)
    → Written p d s t
unfolding Segment.get_size
pass2_instruction-Written m p d s e b room h =
    let encoded = pass2_instruction-Encodes m p d s e b h in
    record {
      vs = encoded.vs;
      ws = relocate d encoded.vs s.cdsg.size;
      operands =
          subst (Described s.symtab (operands_of p.instruction)) encoded.operands
            (ops_get-Described s.symtab (operands_of p.instruction));
      relocated = relocate-Relocated d encoded.vs s.cdsg.size room;
      emitted = encoded.emitted;
    }
