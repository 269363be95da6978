-- ===== src/Lexer/Token.antt =====
-- include/lexer.h: the tokens.
use kiv_pc_sw.Prelude.{ℕ, Bool, ◌==◌}
use kiv_pc_sw.Prelude.Text.{Text}

-- enum Token_Type
pub data TokenType : Type 0 where
  instruction register number identifier label comma section_data section_code kma : TokenType
  offset question string data_type dup lparen rparen eof unknown : TokenType

-- The value of the enumerator.
abbrev pub type_code : TokenType → ℕ
type_code instruction = 0
type_code register = 1
type_code number = 2
type_code identifier = 3
type_code label = 4
type_code comma = 5
type_code section_data = 6
type_code section_code = 7
type_code kma = 8
type_code offset = 9
type_code question = 10
type_code string = 11
type_code data_type = 12
type_code dup = 13
type_code lparen = 14
type_code rparen = 15
type_code eof = 16
type_code unknown = 17

abbrev pub token_type_eq : TokenType → TokenType → Bool
token_type_eq a b = type_code a == type_code b

-- struct Token. The value is a C string in a buffer of 256 bytes.
pub record Token : Type 0 where
  pub type : TokenType
  pub value : Text
  pub line_number : ℕ

-- sizeof (struct Token)
abbrev pub token_size : ℕ
token_size = 272
