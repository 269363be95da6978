-- ===== src/Assembler/Operands.antt =====
-- The values of the operands of an instruction in the second pass, or the first error among them,
-- described without the code that computes them.
use kiv_pc_sw.Prelude.{
  ℕ, zero, suc, ◌+◌, ◌≡◌, ◌≢◌, refl, sym, ap, subst, true, List, [], ◌∷◌, Option, none, some,
  some_inj, arith, ltb, ◌⊎◌, inl, inr, get_elem?, if◌then◌else◌, Bool-cases,
}
use kiv_pc_sw.Prelude.Text.{Text, codes, str_eq, str_eq_iff}
use kiv_pc_sw.Common.{int32_max}
use kiv_pc_sw.Symbol
use kiv_pc_sw.Symbol.{Symbol, SymbolTable}
use kiv_pc_sw.Instruction.{OperandType, op_none, op_reg, op_imm32}
use kiv_pc_sw.Parser.Statement.{Operand, OperandSpecifier, ops_none, ops_offset, ops_label}
use kiv_pc_sw.Assembler.Types.{
  ErrAsm, asm_no_error, asm_invalid_operand_register, asm_invalid_operand_label, convert_uint32,
}
use kiv_pc_sw.Assembler.Pass2.{
  Got, got, got_err, got_or, GotAll, values, values_err, got_next, imm32_value, operand_value,
  address_of, pass2_instruction_get_op, pass2_instruction_get_op_reg,
  pass2_instruction_get_op_label, pass2_instruction_ops_get, pass2_register_name_to_value,
}

-- The registers in the order of their codes, which start at 1.
abbrev pub register_names : List Text
register_names = codes "A" ∷ codes "B" ∷ codes "C" ∷ codes "D" ∷ codes "S" ∷ codes "SP" ∷ []

abbrev pub IsRegister : Text → ℕ → Type 0
IsRegister name v = (i : ℕ) × (get_elem? register_names i ≡ some name) × (v ≡ i + 1)

-- An address as an int32_t.
abbrev pub saturated : ℕ → ℕ
saturated address = if ltb int32_max address then int32_max else address

abbrev pub IsAddress : SymbolTable → Text → ℕ → Type 0
IsAddress symtab name v =
    (s : Symbol) × (Symbol.find symtab name ≡ some s) × (v ≡ saturated s.address)

abbrev pub IsImmediate : OperandSpecifier → SymbolTable → Operand → ℕ → Type 0
IsImmediate ops_none symtab op v = v ≡ op.immediate_value
IsImmediate ops_label symtab op v = IsAddress symtab op.label v
IsImmediate ops_offset symtab op v = IsAddress symtab op.label v

-- The value of an operand: the code of a register, a number, or the address of a symbol.
abbrev pub IsValue : OperandType → SymbolTable → Operand → ℕ → Type 0
IsValue op_reg symtab op v = IsRegister op.register_name v
IsValue op_imm32 symtab op v = IsImmediate op.specifier symtab op v
IsValue op_none symtab op v = v ≡ 0

-- An operand without a value, and its error.
abbrev pub LacksValue : OperandType → SymbolTable → Operand → ErrAsm → Type 0
LacksValue op_reg symtab op x =
    ((i : ℕ) → get_elem? register_names i ≢ some op.register_name)
    × (x ≡ asm_invalid_operand_register)
LacksValue op_imm32 symtab op x =
    (op.specifier ≢ ops_none)
    × (Symbol.find symtab op.label ≡ none)
    × (x ≡ asm_invalid_operand_label)
LacksValue op_none symtab op x = ⊥

abbrev pub AreValues : SymbolTable → List Operand → List ℕ → Type 0
AreValues symtab [] [] = Unit
AreValues symtab (op ∷ ops) (v ∷ vs) = IsValue op.type symtab op v × AreValues symtab ops vs
AreValues symtab _ _ = ⊥

-- Some operand lacks a value.
abbrev pub HasError : SymbolTable → List Operand → ErrAsm → Type 0
HasError symtab [] x = ⊥
HasError symtab (op ∷ ops) x =
    LacksValue op.type symtab op x
    ⊎ (((v : ℕ) × IsValue op.type symtab op v) × HasError symtab ops x)

abbrev pub Described : SymbolTable → List Operand → GotAll → Type 0
Described symtab ops (values vs) = AreValues symtab ops vs
Described symtab ops (values_err x) = HasError symtab ops x

number_of : List Text → ℕ → Text → Option ℕ
number_of [] k name = none
number_of (r ∷ rs) k name = if str_eq name r then some k else number_of rs (k + 1) name

number_of-some :
    (rs : List Text) (k : ℕ) (name : Text) {v : ℕ}
    → number_of rs k name ≡ some v
    → (i : ℕ) × (get_elem? rs i ≡ some name) × (v ≡ i + k)
unfolding number_of
number_of-some [] k name h = absurd cc
number_of-some (r ∷ rs) k name {v} h = elim (Bool-cases (str_eq name r)) [
  | inl same ↦
      let e : k ≡ v = some_inj (rw same at h) in
      (0, ap some (sym ((str_eq_iff name r).0 same)), omega (arith, e))
  | inr other ↦
      let (i, found, e) = number_of-some rs (k + 1) name {v = v} (rw other at h) in
      (suc i, found, omega (arith, e))
]

number_of-none :
    (rs : List Text) (k : ℕ) (name : Text)
    → number_of rs k name ≡ none
    → (i : ℕ) → get_elem? rs i ≢ some name
unfolding number_of
number_of-none [] k name h i = λ e. absurd cc
number_of-none (r ∷ rs) k name h zero = λ e.
    let same : str_eq name r ≡ true = (str_eq_iff name r).1 (sym (some_inj e)) in
    let n : ◌≡◌ {A = Option ℕ} (some k) none = rw same at h in absurd cc
number_of-none (r ∷ rs) k name h (suc i) = elim (Bool-cases (str_eq name r)) [
  | inl same ↦ absurd (let n : ◌≡◌ {A = Option ℕ} (some k) none = rw same at h in cc)
  | inr other ↦ number_of-none rs (k + 1) name (rw other at h) i
]

-- The chain of comparisons numbers the registers.
register_name_lem :
    (name : Text) → pass2_register_name_to_value name ≡ number_of register_names 1 name
unfolding pass2_register_name_to_value number_of
register_name_lem name = refl

-- What one operand gives.
abbrev IsGot : OperandType → SymbolTable → Operand → Got → Type 0
IsGot t symtab op (got v) = IsValue t symtab op v
IsGot t symtab op (got_err x) = LacksValue t symtab op x

reg-IsGot :
    (o : Option ℕ) (symtab : SymbolTable) (op : Operand)
    → number_of register_names 1 op.register_name ≡ o
    → IsGot op_reg symtab op (got_or o asm_invalid_operand_register)
reg-IsGot none symtab op e = (number_of-none register_names 1 op.register_name e, refl)
reg-IsGot (some v) symtab op e = number_of-some register_names 1 op.register_name e

address-IsGot :
    (specifier : OperandSpecifier) (o : Option Symbol) (symtab : SymbolTable) (op : Operand)
    → op.specifier ≡ specifier
    → specifier ≢ ops_none
    → Symbol.find symtab op.label ≡ o
    → IsGot op_imm32 symtab op (got_or (address_of o) asm_invalid_operand_label)
unfolding convert_uint32
address-IsGot ops_none o symtab op t n e = absurd (n refl)
address-IsGot ops_label none symtab op t n e = (rw t n, e, refl)
address-IsGot ops_offset none symtab op t n e = (rw t n, e, refl)
address-IsGot ops_label (some s) symtab op t n e = rw t (s, e, refl)
address-IsGot ops_offset (some s) symtab op t n e = rw t (s, e, refl)

imm32-IsGot :
    (specifier : OperandSpecifier) (symtab : SymbolTable) (op : Operand)
    → op.specifier ≡ specifier
    → IsGot op_imm32 symtab op (imm32_value specifier symtab op)
unfolding pass2_instruction_get_op_label
imm32-IsGot ops_none symtab op t = rw t refl
imm32-IsGot ops_label symtab op t = address-IsGot ops_label _ symtab op t (λ e. cc) refl
imm32-IsGot ops_offset symtab op t = address-IsGot ops_offset _ symtab op t (λ e. cc) refl

operand-IsGot :
    (t : OperandType) (symtab : SymbolTable) (op : Operand)
    → IsGot t symtab op (operand_value t symtab op)
unfolding pass2_instruction_get_op_reg
operand-IsGot op_reg symtab op = reg-IsGot _ symtab op (sym (register_name_lem op.register_name))
operand-IsGot op_imm32 symtab op = imm32-IsGot op.specifier symtab op refl
operand-IsGot op_none symtab op = refl

next-Described :
    (g : Got) (r : GotAll) (symtab : SymbolTable) (op : Operand) (ops : List Operand)
    → IsGot op.type symtab op g
    → Described symtab ops r
    → Described symtab (op ∷ ops) (got_next g r)
next-Described (got v) (values vs) symtab op ops h k = (h, k)
next-Described (got v) (values_err x) symtab op ops h k = inr ((v, h), k)
next-Described (got_err x) (values vs) symtab op ops h k = inl h
next-Described (got_err x) (values_err y) symtab op ops h k = inl h

-- Reading the operands of an instruction in the second pass gives their values in order (the code
-- of a register, the number, or the address of the symbol, at most INT32_MAX), or the error of the
-- first operand without a value: that of an invalid register for a name that is none of the six
-- registers, and that of an undefined symbol for a name that is not in the symbol table.
pub ops_get-Described :
    (symtab : SymbolTable) (ops : List Operand)
    → Described symtab ops (pass2_instruction_ops_get symtab ops)
unfolding pass2_instruction_ops_get pass2_instruction_get_op
ops_get-Described symtab [] = tt
ops_get-Described symtab (op ∷ ops) =
    next-Described (operand_value op.type symtab op) (pass2_instruction_ops_get symtab ops) symtab
      op ops (operand-IsGot op.type symtab op) (ops_get-Described symtab ops)

-- One of the two errors.
abbrev pub IsOperandError : ErrAsm → Type 0
IsOperandError x = (x ≡ asm_invalid_operand_register) ⊎ (x ≡ asm_invalid_operand_label)

lacks-IsOperandError :
    (t : OperandType) (symtab : SymbolTable) (op : Operand) {x : ErrAsm}
    → LacksValue t symtab op x
    → IsOperandError x
lacks-IsOperandError op_reg symtab op h = inl h.1
lacks-IsOperandError op_imm32 symtab op h = inr h.2
lacks-IsOperandError op_none symtab op h = absurd h

error-IsOperandError :
    (symtab : SymbolTable) (ops : List Operand) {x : ErrAsm}
    → HasError symtab ops x
    → IsOperandError x
error-IsOperandError symtab [] h = absurd h
error-IsOperandError symtab (op ∷ ops) (inl h) = lacks-IsOperandError op.type symtab op h
error-IsOperandError symtab (op ∷ ops) (inr h) = error-IsOperandError symtab ops h.1

pub ops_get-IsOperandError :
    (symtab : SymbolTable) (ops : List Operand) {x : ErrAsm}
    → pass2_instruction_ops_get symtab ops ≡ values_err x
    → IsOperandError x
ops_get-IsOperandError symtab ops {x} h =
    error-IsOperandError symtab ops (subst (Described symtab ops) h (ops_get-Described symtab ops))

pub operand_error_ne : (x : ErrAsm) → IsOperandError x → x ≢ asm_no_error
operand_error_ne x (inl e) n = cc
operand_error_ne x (inr e) n = cc
