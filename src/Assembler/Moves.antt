-- ===== src/Assembler/Moves.antt =====
-- The lines that only move the context: .KMA, the section markers and empty lines.
use kiv_pc_sw.Prelude.{◌≡◌, arith}
use kiv_pc_sw.Assembler.Types.{
  asc_after_kma, asc_data, asc_code, asm_no_error, State, Outcome, Context,
}
use kiv_pc_sw.Assembler.Passes.{passes_kma, passes_code_section, passes_data_section}

-- A line that moves the context alone.
pub record Moves (s : State) (c : Context) (t : State) : Type 0 where
  pub symtab : t.symtab ≡ s.symtab
  pub dtsg : t.dtsg ≡ s.dtsg
  pub cdsg : t.cdsg ≡ s.cdsg
  pub ctx : t.ctx ≡ c

pub kma-Moves : (s : State) {t : State} → passes_kma s ≡ (asm_no_error, t) → Moves s asc_after_kma t
unfolding passes_kma
kma-Moves s {t} h = record {
  symtab = ground arith;
  dtsg = ground arith;
  cdsg = ground arith;
  ctx = ground arith;
}

pub code_section-Moves :
    (s : State) {t : State} → passes_code_section s ≡ (asm_no_error, t) → Moves s asc_code t
unfolding passes_code_section
code_section-Moves s {t} h = record {
  symtab = ground arith;
  dtsg = ground arith;
  cdsg = ground arith;
  ctx = ground arith;
}

pub data_section-Moves :
    (s : State) {t : State} → passes_data_section s ≡ (asm_no_error, t) → Moves s asc_data t
unfolding passes_data_section
data_section-Moves s {t} h = record {
  symtab = ground arith;
  dtsg = ground arith;
  cdsg = ground arith;
  ctx = ground arith;
}

pub none-Moves :
    (s : State) {t : State}
    → ◌≡◌ {A = Outcome} (asm_no_error, s) (asm_no_error, t)
    → Moves s s.ctx t
none-Moves s {t} h = record {
  symtab = ground arith;
  dtsg = ground arith;
  cdsg = ground arith;
  ctx = ground arith;
}
