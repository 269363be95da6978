-- ===== src/Assembler/Reserve.antt =====
-- What a successful step of the first pass does to the state: the room that it reserves, and the
-- symbol that it defines.
use kiv_pc_sw.Prelude.{ℕ, ◌+◌, ◌≤◌, ◌<◌, ◌≡◌, refl, true, false, Option, none, some, is_some, arith}
use kiv_pc_sw.Prelude.Text.{Text}
use kiv_pc_sw.Common.{Allocator, kma_cdsg_bytes, kma_dtsg_bytes}
use kiv_pc_sw.Segment
use kiv_pc_sw.Symbol
use kiv_pc_sw.Parser.Statement.{Statement}
use kiv_pc_sw.Assembler.Types.{asm_no_error, State, asc_data, asc_code}
use kiv_pc_sw.Assembler.Pass1.{define, pass1_data_decl, pass1_instruction, pass1_label_def, size_of}

-- A definition puts one new name into the table and changes nothing else.
pub record Defines (m : Allocator) (s : State) (name : Text) (address : ℕ) (t : State)
    : Type 0 where
  pub fresh : Symbol.find s.symtab name ≡ none
  pub added : is_some (Symbol.add m s.symtab name address).0 ≡ true
  pub symtab : t.symtab ≡ (Symbol.add m s.symtab name address).1
  pub dtsg : t.dtsg ≡ s.dtsg
  pub cdsg : t.cdsg ≡ s.cdsg
  pub ctx : t.ctx ≡ s.ctx

not_some : {A : Type 0} (o : Option A) → is_some o ≡ false → o ≡ none
not_some none h = refl
not_some (some a) h = cc

pub define-Defines :
    (m : Allocator) (s : State) (name : Text) (address : ℕ) {t : State}
    → define m s name address ≡ (asm_no_error, t)
    → Defines m s name address t
unfolding define
define-Defines m s name address {t} h = record {
  fresh = ground (arith, not_some (Symbol.find s.symtab name));
  added = ground arith;
  symtab = ground arith;
  dtsg = ground arith;
  cdsg = ground arith;
  ctx = ground arith;
}

pub record ReservesData (m : Allocator) (pstmt : Statement) (s t : State) : Type 0 where
  pub grows : t.dtsg.size ≡ s.dtsg.size + pstmt.data_decl.total_size
  pub bounded : t.dtsg.size ≤ kma_dtsg_bytes
  pub cdsg : t.cdsg ≡ s.cdsg
  pub ctx : t.ctx ≡ s.ctx
  pub in_section : s.ctx ≡ asc_data
  pub fresh : Symbol.find s.symtab pstmt.data_decl.identifier ≡ none
  pub added : is_some (Symbol.add m s.symtab pstmt.data_decl.identifier s.dtsg.size).0 ≡ true
  pub symtab : t.symtab ≡ (Symbol.add m s.symtab pstmt.data_decl.identifier s.dtsg.size).1

-- If pass1_data_decl ends without an error, it ran in the data section, the identifier was not in
-- the table and was added with the offset of the data segment, and the data segment grew by the
-- total size of the declaration and has at most 256 KiB; the code segment and the context do not
-- change.
pub pass1_data_decl-ReservesData :
    (m : Allocator) (pstmt : Statement) (s : State) {t : State}
    → pass1_data_decl m pstmt s ≡ (asm_no_error, t)
    → ReservesData m pstmt s t
unfolding pass1_data_decl Segment.advance
pass1_data_decl-ReservesData m pstmt s {t} h = record {
  grows = ground arith;
  bounded = ground arith;
  cdsg = ground arith;
  ctx = ground arith;
  in_section = ground arith;
  fresh = ground (arith, not_some (Symbol.find s.symtab pstmt.data_decl.identifier));
  added = ground arith;
  symtab = ground arith;
}

pub record ReservesCode (pstmt : Statement) (s t : State) : Type 0 where
  pub grows : t.cdsg.size ≡ s.cdsg.size + size_of pstmt.instruction.descriptor
  pub bounded : t.cdsg.size ≤ kma_cdsg_bytes
  pub not_empty : 0 < size_of pstmt.instruction.descriptor
  pub dtsg : t.dtsg ≡ s.dtsg
  pub symtab : t.symtab ≡ s.symtab
  pub ctx : t.ctx ≡ s.ctx
  pub in_section : s.ctx ≡ asc_code

-- If pass1_instruction ends without an error on a descriptor whose size is at most 256 KiB, it ran
-- in the code section, the size is not zero, and the code segment grew by it and has at most 256
-- KiB; the data segment, the symbol table and the context do not change.
pub pass1_instruction-ReservesCode :
    (pstmt : Statement) (s : State) {t : State}
    → pass1_instruction pstmt s ≡ (asm_no_error, t)
    → size_of pstmt.instruction.descriptor ≤ kma_cdsg_bytes
    → ReservesCode pstmt s t
unfolding pass1_instruction Segment.advance
pass1_instruction-ReservesCode pstmt s {t} h fits = record {
  grows = ground arith;
  bounded = ground arith;
  not_empty = ground arith;
  dtsg = ground arith;
  symtab = ground arith;
  ctx = ground arith;
  in_section = ground arith;
}

pub record DefinesLabel (m : Allocator) (pstmt : Statement) (s t : State) : Type 0 where
  pub fresh : Symbol.find s.symtab pstmt.label_name ≡ none
  pub added : is_some (Symbol.add m s.symtab pstmt.label_name s.cdsg.size).0 ≡ true
  pub symtab : t.symtab ≡ (Symbol.add m s.symtab pstmt.label_name s.cdsg.size).1
  pub dtsg : t.dtsg ≡ s.dtsg
  pub cdsg_size : t.cdsg.size ≡ s.cdsg.size
  pub bounded : t.cdsg.size ≤ kma_cdsg_bytes
  pub ctx : t.ctx ≡ s.ctx
  pub in_section : s.ctx ≡ asc_code

-- If pass1_label_def ends without an error, it ran in the code section, the label was not in the
-- table and was added with the offset of the code segment, which is at most 256 KiB and does not
-- change; nor do the data segment and the context.
pub pass1_label_def-DefinesLabel :
    (m : Allocator) (pstmt : Statement) (s : State) {t : State}
    → pass1_label_def m pstmt s ≡ (asm_no_error, t)
    → DefinesLabel m pstmt s t
unfolding pass1_label_def Segment.advance
pass1_label_def-DefinesLabel m pstmt s {t} h = record {
  fresh = ground (arith, not_some (Symbol.find s.symtab pstmt.label_name));
  added = ground arith;
  symtab = ground arith;
  dtsg = ground arith;
  cdsg_size = ground arith;
  bounded = ground arith;
  ctx = ground arith;
  in_section = ground arith;
}
