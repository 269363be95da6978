-- ===== src/Instruction/Encoding.antt =====
-- What the instruction table promises: every row can be found under its own name and operand
-- types, an opcode names one row, and what a search returns has the operand types asked for.
use kiv_pc_sw.Prelude.{
  ℕ, zero, suc, ◌+◌, ◌≤◌, ◌<◌, ◌≡◌, refl, ap, Bool, true, false, List, [], ◌∷◌, Option, none, some,
  arith, leb, ltb, ◌==◌, ◌&&◌, if◌then◌else◌, get_elem?, Bool-cases, inl, inr, subst, not, ◌||◌,
}
use kiv_pc_sw.Prelude.{some_inj, suc_ne_zero, take, length, sym, ◌∙◌}
use kiv_pc_sw.Prelude.Text.{Text, str_eq, str_eq_iff}
use kiv_pc_sw.Instruction.{
  OperandType, op_none, op_reg, op_imm32, operand_type_eq, operand_size, Descriptor,
  instruction_table, find_in, find, mnemonic_is, word_len, get_encoded_size, is_relative_jump,
  is_mnemonic_in,
}

pub operand_type_eq→eq : (a b : OperandType) → operand_type_eq a b ≡ true → a ≡ b
operand_type_eq→eq op_none op_none h = refl
operand_type_eq→eq op_reg op_reg h = refl
operand_type_eq→eq op_imm32 op_imm32 h = refl
operand_type_eq→eq _ _ h = cc

all : (Descriptor → Bool) → List Descriptor → Bool
all p [] = true
all p (d ∷ ds) = p d && all p ds

all_at :
    (p : Descriptor → Bool) (ds : List Descriptor) (i : ℕ) {d : Descriptor}
    → all p ds ≡ true
    → get_elem? ds i ≡ some d
    → p d ≡ true
unfolding all
all_at p [] i h e = cc
all_at p (x ∷ ds) zero h e = ground arith
all_at p (x ∷ ds) (suc i) h e = all_at p ds i (ground arith) e

-- A row of INSTRUCTION_TABLE.
abbrev pub IsRow : Descriptor → Type 0
IsRow d = (i : ℕ) × (get_elem? instruction_table i ≡ some d)

table_check :
    (p : Descriptor → Bool) {d : Descriptor} → all p instruction_table ≡ true → IsRow d → p d ≡ true
table_check p h (i, e) = all_at p instruction_table i h e

descriptor_eq : Descriptor → Descriptor → Bool
descriptor_eq d e =
    str_eq d.mnemonic e.mnemonic
    && d.opcode == e.opcode
    && operand_type_eq d.operand1 e.operand1
    && operand_type_eq d.operand2 e.operand2
    && d.operand_count == e.operand_count

descriptor_eq→eq : (d e : Descriptor) → descriptor_eq d e ≡ true → d ≡ e
unfolding descriptor_eq
descriptor_eq→eq d e h = ground (
  arith,
  str_eq_iff d.mnemonic e.mnemonic,
  operand_type_eq→eq d.operand1 e.operand1,
  operand_type_eq→eq d.operand2 e.operand2,
)

is_just : Option Descriptor → Descriptor → Bool
is_just none d = false
is_just (some e) d = descriptor_eq e d

is_just→eq : (o : Option Descriptor) (d : Descriptor) → is_just o d ≡ true → o ≡ some d
unfolding is_just
is_just→eq none d h = cc
is_just→eq (some e) d h = ap some (descriptor_eq→eq e d h)

-- Reading an opcode back: the row that a decoder finds.
pub decode_in : List Descriptor → ℕ → Option Descriptor
decode_in [] opcode = none
decode_in (d ∷ ds) opcode = if d.opcode == opcode then some d else decode_in ds opcode

pub decode : ℕ → Option Descriptor
decode opcode = decode_in instruction_table opcode

-- No two rows of the instruction table share an opcode: a decoder that looks up the opcode of a
-- row finds that row.
pub decode-opcode : (d : Descriptor) → IsRow d → decode d.opcode ≡ some d
unfolding all instruction_table decode decode_in is_just descriptor_eq str_eq
decode-opcode d r =
    is_just→eq (decode d.opcode) d (table_check (λ x. is_just (decode x.opcode) x) refl r)

-- No row of the instruction table is hidden by an earlier one: instruction_find for the name and
-- the operand types of a row returns that row.
pub find-row : (d : Descriptor) → IsRow d → find d.mnemonic 0 d.operand1 d.operand2 ≡ some d
unfolding all instruction_table find find_in is_just descriptor_eq str_eq
find-row d r =
    is_just→eq (find d.mnemonic 0 d.operand1 d.operand2) d
      (table_check (λ x. is_just (find x.mnemonic 0 x.operand1 x.operand2) x) refl r)

-- What a hit means: it is the row at some place, with the operand types and the name asked for.
abbrev Hit : List Descriptor → Text → ℕ → OperandType → OperandType → Descriptor → Type 0
Hit ds word w_len op1 op2 d =
    ((i : ℕ) × (get_elem? ds i ≡ some d))
    × (d.operand1 ≡ op1)
    × (d.operand2 ≡ op2)
    × (mnemonic_is word w_len d ≡ true)

head-Hit :
    (x : Descriptor) (ds : List Descriptor) (word : Text) (w_len : ℕ) (op1 op2 : OperandType)
    → (mnemonic_is word w_len x && operand_type_eq x.operand1 op1 && operand_type_eq x.operand2 op2)
      ≡ true
    → Hit (x ∷ ds) word w_len op1 op2 x
head-Hit x ds word w_len op1 op2 h = (
  (0, refl),
  ground (arith, operand_type_eq→eq x.operand1 op1),
  ground (arith, operand_type_eq→eq x.operand2 op2),
  ground arith,
)

find_in-Hit :
    (ds : List Descriptor) (word : Text) (w_len : ℕ) (op1 op2 : OperandType) {d : Descriptor}
    → find_in ds word w_len op1 op2 ≡ some d
    → Hit ds word w_len op1 op2 d
unfolding find_in
find_in-Hit [] word w_len op1 op2 h = cc
find_in-Hit (x ∷ ds) word w_len op1 op2 {d} h =
    elim (Bool-cases (
      mnemonic_is word w_len x
      && operand_type_eq x.operand1 op1
      && operand_type_eq x.operand2 op2)) [
        | inl hit ↦
            subst (Hit (x ∷ ds) word w_len op1 op2) (some_inj (rw hit at h))
              (head-Hit x ds word w_len op1 op2 hit)
        | inr miss ↦
            let (i, one, two, name) = find_in-Hit ds word w_len op1 op2 (rw miss at h) in
            ((suc i.0, i.1), one, two, name)
      ]

-- What instruction_find returns is a row of the instruction table with the two operand types asked
-- for.
pub find-IsRow :
    (word : Text) (len : ℕ) (op1 op2 : OperandType) {d : Descriptor}
    → find word len op1 op2 ≡ some d
    → IsRow d × (d.operand1 ≡ op1) × (d.operand2 ≡ op2)
unfolding find
find-IsRow word len op1 op2 h =
    let hit = find_in-Hit instruction_table word (word_len word len) op1 op2 h in
    (hit.0, hit.1, hit.2)

take-whole : (s : Text) → take (length s) s ≡ s
take-whole [] = refl
take-whole (c ∷ s) = ap (λ r. c ∷ r) (take-whole s)

-- The name asked for: the first `len` characters of the word, or the whole word if `len` is 0.
abbrev pub asked_name : Text → ℕ → Text
asked_name word len = if len == 0 then word else take len word

mnemonic_of_length :
    (word : Text) (n : ℕ) (d : Descriptor) → mnemonic_is word n d ≡ true → take n word ≡ d.mnemonic
mnemonic_of_length word n d h =
    let same : (n == length d.mnemonic) ≡ true = ground arith in
    let long : n ≡ length d.mnemonic = ground arith in
    let prefix : str_eq (take n d.mnemonic) (take n word) ≡ true = ground arith in
    sym ((str_eq_iff (take n d.mnemonic) (take n word)).0 prefix)
    ∙ ap (λ k. take k d.mnemonic) long
    ∙ take-whole d.mnemonic

asked_name_lem :
    (word : Text) (len : ℕ) (d : Descriptor)
    → mnemonic_is word (word_len word len) d ≡ true
    → asked_name word len ≡ d.mnemonic
asked_name_lem word zero d h = sym (take-whole word) ∙ mnemonic_of_length word (length word) d h
asked_name_lem word (suc n) d h =
    rw (suc_ne_zero n) (mnemonic_of_length word (suc n) d (rw (suc_ne_zero n) at h))

-- What instruction_find returns is a row of the instruction table with the two operand types asked
-- for, and its mnemonic is the first len characters of the word, or the whole word if len is 0.
pub find-IsNamed :
    (word : Text) (len : ℕ) (op1 op2 : OperandType) {d : Descriptor}
    → find word len op1 op2 ≡ some d
    → IsRow d × (asked_name word len ≡ d.mnemonic) × (d.operand1 ≡ op1) × (d.operand2 ≡ op2)
unfolding find
find-IsNamed word len op1 op2 {d} h =
    let hit = find_in-Hit instruction_table word (word_len word len) op1 op2 h in
    (hit.0, asked_name_lem word len d hit.3, hit.1, hit.2)

is_mnemonic_in-find :
    (ds : List Descriptor) (word : Text) (w_len : ℕ) (op1 op2 : OperandType) {d : Descriptor}
    → find_in ds word w_len op1 op2 ≡ some d
    → is_mnemonic_in ds word w_len ≡ true
unfolding is_mnemonic_in find_in
is_mnemonic_in-find [] word w_len op1 op2 h = cc
is_mnemonic_in-find (x ∷ ds) word w_len op1 op2 {d} h =
    ground (arith, is_mnemonic_in-find ds word w_len op1 op2 {d = d})

-- A row that instruction_is_relative_jump accepts has one operand, a 32-bit value, and is encoded
-- in five bytes.
pub relative_jump_operands :
    (d : Descriptor)
    → IsRow d
    → is_relative_jump d ≡ true
    → (d.operand1 ≡ op_imm32) × (d.operand2 ≡ op_none) × (get_encoded_size d ≡ 5)
unfolding all instruction_table is_relative_jump get_encoded_size
relative_jump_operands d r j =
    let checked =
      table_check
        (λ x.
          not (leb 0x72 x.opcode && ltb x.opcode 0x80)
          || (operand_type_eq x.operand1 op_imm32 && operand_type_eq x.operand2 op_none))
        refl r in
    let one : d.operand1 ≡ op_imm32 = ground (arith, operand_type_eq→eq d.operand1 op_imm32) in
    let two : d.operand2 ≡ op_none = ground (arith, operand_type_eq→eq d.operand2 op_none) in
    (one, two, rw (one, two) refl)

-- The encoded size of a row of the instruction table is from 1 to 6 bytes, and its opcode fits one
-- byte.
pub encoded_size_bounds :
    (d : Descriptor)
    → IsRow d
    → (1 ≤ get_encoded_size d) × (get_encoded_size d ≤ 6) × (d.opcode < 256)
unfolding all instruction_table get_encoded_size
encoded_size_bounds d r =
    let checked =
      table_check
        (λ x. leb (1 + operand_size x.operand1 + operand_size x.operand2) 6 && ltb x.opcode 256)
        refl r in
    (omega arith, ground arith, ground arith)
