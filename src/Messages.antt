-- ===== src/Messages.antt =====
-- core/common.c: what is printed, as text. printf is taken with the conversions that the messages
-- use: %s, %d and %zu. The verbose messages and those on stderr get their formatted text as it is.
pub mod Decimal
pub mod Lexed
mod Pointers
mod Tests
use kiv_pc_sw.Prelude.{
  ℕ, zero, suc, ◌+◌, ◌-◌, ◌/◌, ◌%◌, ◌^◌, Bool, true, false, List, [], ◌∷◌, ◌++◌, Option, none, some,
  ltb, ◌==◌, if◌then◌else◌, take,
}
use kiv_pc_sw.Prelude.Text.{Text, codes}
use kiv_pc_sw.Instruction.{Descriptor, OperandType, op_none, op_reg, op_imm32}
use kiv_pc_sw.Parser.Statement.{
  InstructionStatement, Operand, OperandSpecifier, ops_none, ops_label, ops_offset,
}

-- The decimal digits of a number in front of `after`, with fuel.
unfoldable pub digits : ℕ → ℕ → Text → Text
digits zero n after = after
digits (suc fuel) n after =
    let rest = digits fuel (n / 10) ((b'0' + n % 10) ∷ after) in
    if ltb n 10 then (b'0' + n) ∷ after else rest

-- %zu. A number has fewer digits than its value has units, so the fuel is enough.
unfoldable pub decimal : ℕ → Text
unfolding digits
decimal n = digits (suc n) n []

-- %d of a 32-bit pattern.
unfoldable pub decimal_int32 : ℕ → Text
unfolding decimal
decimal_int32 v = if ltb v (2 ^ 31) then decimal v else b'-' ∷ decimal (2 ^ 32 - v)

-- print_verbose
abbrev pub print_verbose : Bool → Text → Text
print_verbose condition message = if condition then codes "[VERBOSE] " ++ message else []

abbrev pub print_verbose_clean : Bool → Text → Text
print_verbose_clean condition message = if condition then message else []

-- _get_op_text, with a buffer of 64 bytes for a number.
unfoldable pub get_op_text : Operand → Text
unfolding decimal_int32
get_op_text op = elim op.type [
  | op_none ↦ []
  | op_reg ↦ op.register_name
  | op_imm32 ↦ elim op.specifier [
    | ops_none ↦ take 63 (decimal_int32 op.immediate_value)
    | ops_label ↦ op.label
    | ops_offset ↦ op.label
  ]
]

-- The text of an operand behind a space, if it is used.
abbrev pub spaced : OperandType → Operand → Text
spaced op_none op = []
spaced _ op = codes " " ++ get_op_text op

-- What print_instruction prints on stdout.
unfoldable pub print_instruction : Bool → ℕ → InstructionStatement → ℕ → Text
unfolding get_op_text decimal
print_instruction condition line is addr =
    if condition
    then elim is.descriptor [
      | none ↦ []
      | some d ↦
          codes "[INSTR] L"
          ++ (decimal line
              ++ (codes ": "
                  ++ (d.mnemonic
                      ++ (spaced is.operand0.type is.operand0
                          ++ (spaced is.operand1.type is.operand1
                              ++ (codes " at CS:" ++ (decimal addr ++ codes "\n")))))))
    ]
    else []

abbrev ends_line : Text → Bool
ends_line [] = false
ends_line (c ∷ []) = c == 10
ends_line (c ∷ d ∷ s) = ends_line (d ∷ s)

abbrev file_or : Option Text → Text
file_or none = codes "unspecified"
file_or (some name) = name

-- What print_err prints on stderr: `string` is the format, `message` what vfprintf makes of it.
unfoldable pub print_err : Text → Option Text → ℕ → Text → Text → Text
unfolding decimal
print_err time filename line string message =
    codes "["
    ++ (time
        ++ (codes "] {"
            ++ (file_or filename
                ++ (codes ":"
                    ++ (decimal line
                        ++ (codes "} "
                            ++ (message ++ (if ends_line string then [] else codes "\n"))))))))

-- A pointer is whether it is NULL. The position is counted from 1.
unfoldable pub first_null_arg : List Bool → ℕ
first_null_arg [] = 0
first_null_arg (is_null ∷ args) =
    let rest = first_null_arg args in if is_null then 1 else if rest == 0 then 0 else rest + 1

unfoldable pub valid_args : List Bool → Bool
valid_args [] = true
valid_args (is_null ∷ args) = if is_null then false else valid_args args
