-- ===== src/Assembler/Whole.antt =====
-- The whole run of process_assembler on the parts that asp_create makes.
use kiv_pc_sw.Prelude.{
  ℕ, ◌≤◌, ◌≡◌, refl, sym, ◌∙◌, ap, subst, true, false, List, Option, none, some, some_inj, arith,
  length, length-replicate, if_cases,
}
use kiv_pc_sw.Prelude.Text.{Text}
use kiv_pc_sw.Common.{
  Allocator, Heap, jalloc, ErrMain, err_no_error, kma_cdsg_bytes, kma_dtsg_bytes,
  dynamic_array_initial_capacity,
}
use kiv_pc_sw.Segment
use kiv_pc_sw.Segment.{IsBuffer, begin}
use kiv_pc_sw.Dataseg
use kiv_pc_sw.Symbol
use kiv_pc_sw.Assembler.Types.{asc_file_start, ErrAsm, asm_no_error, State, Outcome, convert_err}
use kiv_pc_sw.Assembler.Run.{
  passes_lines, passes_any_pass, second_pass, process_assembler, all_created, asp_create,
}
use kiv_pc_sw.Assembler.Layout.{Agree}
use kiv_pc_sw.Assembler.Addresses.{passes_lines-Agree}
use kiv_pc_sw.Assembler.Reserved.{passes_lines-Reserves}

-- Where a pass begins.
abbrev pub first_start : State → State
first_start s = record s { ctx = asc_file_start }

abbrev pub second_start : State → State
second_start s = record s { cdsg = begin s.cdsg; dtsg = begin s.dtsg; ctx = asc_file_start }

-- A run without an error: both passes over the lines, and what they leave.
pub record Assembled (m : Heap) (lines : List Text) (s t : State) : Type 0 where
  pub first : State
  pub reserved : passes_lines false m (first_start s) 1 lines ≡ (asm_no_error, first)
  pub written : passes_lines true m (second_start first) 1 lines ≡ (asm_no_error, t)
  pub agree : Agree first t
  pub data_limit : t.dtsg.size ≤ kma_dtsg_bytes
  pub code_limit : t.cdsg.size ≤ kma_cdsg_bytes

-- Only ASM_NO_ERROR is no error of the program.
pub convert_err_ok : (e : ErrAsm) → convert_err e ≡ err_no_error → e ≡ asm_no_error
unfolding convert_err
convert_err_ok asm_no_error h = refl
convert_err_ok _ h = cc

pub IsEmpty : Segment.Segment → Type 0
IsEmpty s = IsBuffer s × (s.size ≡ 0)

create-IsEmpty : (m : Allocator) {s : Segment.Segment} → Segment.create m ≡ some s → IsEmpty s
unfolding Segment.create IsEmpty
create-IsEmpty m {s} h =
    if_cases (jalloc m 24) _ _ h
      (λ t h.
        if_cases (jalloc m dynamic_array_initial_capacity) _ _ h
          (λ t h. subst IsEmpty (some_inj h) (
            record {
              allocated = length-replicate {A = ℕ} 16 0;
              within = omega arith;
              bounded = omega arith;
            },
            refl,
          ))
          (λ f. absurd cc))
      (λ f. absurd cc)

created :
    (symtab : Option Symbol.SymbolTable) (dtsg cdsg : Option Segment.Segment) {s : State}
    → all_created symtab dtsg cdsg ≡ some s
    → (dtsg ≡ some s.dtsg) × (cdsg ≡ some s.cdsg)
created (some symtab) (some dtsg) (some cdsg) {s} h =
    (ap (λ (x : State). some x.dtsg) (some_inj h), ap (λ (x : State). some x.cdsg) (some_inj h))
created _ _ _ h = cc

-- What asp_create makes are empty segments.
pub asp_create-IsEmpty :
    (m : Heap) {s : State} → asp_create m ≡ some s → IsEmpty s.dtsg × IsEmpty s.cdsg
unfolding asp_create
asp_create-IsEmpty m h =
    if_cases (jalloc (m 0) 32) _ _ h
      (λ t h.
        let (d, c) =
          created (Symbol.create (m 1)) (Dataseg.create (m 2)) (Segment.create (m 3)) h in
        (create-IsEmpty (m 2) d, create-IsEmpty (m 3) c))
      (λ f. absurd cc)

second_ok :
    (o : Outcome) (m : Heap) (file : Option (List Text)) {t : State}
    → second_pass o m file ≡ (asm_no_error, t)
    → (u : State) × (o ≡ (asm_no_error, u))
      × (passes_any_pass true m (record u { cdsg = begin u.cdsg; dtsg = begin u.dtsg }) file
          ≡ (asm_no_error, t))
second_ok (asm_no_error, u) m file h = (u, refl, h)
second_ok (_, u) m file h = cc

-- An empty segment that the first pass used and the second begins again.
begun :
    (s t : Segment.Segment)
    → IsBuffer s
    → (t.bytes ≡ s.bytes) × (t.capacity ≡ s.capacity)
    → IsBuffer (begin t)
unfolding begin
begun s t b (bytes, capacity) = record {
  allocated = ap (λ (l : List ℕ). length l) bytes ∙ b.allocated ∙ sym capacity;
  within = omega arith;
  bounded = omega (arith, b.bounded, capacity);
}

-- After the first pass the second one starts where the first did.
pub second_start-Agree :
    (m : Heap) (lines : List Text) (s u : State)
    → IsEmpty s.dtsg
    → IsEmpty s.cdsg
    → passes_lines false m (first_start s) 1 lines ≡ (asm_no_error, u)
    → Agree (first_start s) (second_start u)
unfolding IsEmpty begin
second_start-Agree m lines s u d c e =
    let r = passes_lines-Reserves m 1 lines (first_start s) e in
    record {
      code = c.1;
      data_size = d.1;
      ctx = refl;
      code_buffer = begun s.cdsg u.cdsg c.0 r.cdsg;
      data_buffer = begun s.dtsg u.dtsg d.0 r.dtsg;
    }

run_Assembled :
    (m : Heap) (lines : List Text) (s u t : State)
    → IsEmpty s.dtsg
    → IsEmpty s.cdsg
    → passes_lines false m (first_start s) 1 lines ≡ (asm_no_error, u)
    → passes_lines true m (second_start u) 1 lines ≡ (asm_no_error, t)
    → Assembled m lines s t
unfolding IsEmpty
run_Assembled m lines s u t d c e1 e2 =
    let r = passes_lines-Reserves m 1 lines (first_start s) e1 in
    let a = passes_lines-Agree m 1 lines (second_start-Agree m lines s u d c e1) e1 e2 in
    let data_room = r.data_limit (omega (arith, d.1)) in
    let code_room = r.code_limit (omega (arith, c.1)) in
    record {
      first = u;
      reserved = e1;
      written = e2;
      agree = a;
      data_limit = omega (arith, data_room, a.data_size);
      code_limit = omega (arith, code_room, a.code);
    }

converted_ok :
    (o : Outcome) {t : State}
    → ◌≡◌ {A = ErrMain × State} (convert_err o.0, o.1) (err_no_error, t)
    → o ≡ (asm_no_error, t)
converted_ok o h = λ i. (
  convert_err_ok o.0 (ap (λ (r : ErrMain × State). r.0) h) i,
  ap (λ (r : ErrMain × State). r.1) h i,
)

opened :
    (file : Option (List Text)) (m : Heap) (s u t : State)
    → IsEmpty s.dtsg
    → IsEmpty s.cdsg
    → passes_any_pass false m s file ≡ (asm_no_error, u)
    → passes_any_pass true m (record u { cdsg = begin u.cdsg; dtsg = begin u.dtsg }) file
      ≡ (asm_no_error, t)
    → (lines : List Text) × (file ≡ some lines) × Assembled m lines s t
unfolding passes_any_pass
opened none m s u t d c e1 e2 = cc
opened (some lines) m s u t d c e1 e2 = (lines, refl, run_Assembled m lines s u t d c e1 e2)

-- If asp_create makes the parts and process_assembler on them, with the same lines and the same
-- heap for both passes, ends without an error, then the file could be opened, both passes accepted
-- all its lines, the second from the state that the first left with both sizes set to 0 again, the
-- states after the two agree in offsets and context with proper buffers, and neither segment has
-- more than 256 KiB.
pub process_assembler-Assembled :
    (m : Heap) (file : Option (List Text)) (parts : Heap) {s t : State}
    → asp_create parts ≡ some s
    → process_assembler m m s file file ≡ (err_no_error, t)
    → (lines : List Text) × (file ≡ some lines) × Assembled m lines s t
unfolding process_assembler
process_assembler-Assembled m file parts {s} {t} made h =
    let (d, c) = asp_create-IsEmpty parts made in
    let (u, one, two) =
      second_ok (passes_any_pass false m s file) m file
        (converted_ok (second_pass (passes_any_pass false m s file) m file) h) in
    opened file m s u t d c one two
