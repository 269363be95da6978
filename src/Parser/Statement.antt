-- ===== src/Parser/Statement.antt =====
-- include/parser.h: the parsed statement. A union of the source is one field for each member: no
-- path of the parser writes one member and reads another. All fields start at zero, as the
-- zeroed block that p_stmt_create allocates. An int32_t is its bit pattern, below 2 ^ 32.
use kiv_pc_sw.Memory.{Live, live}
use kiv_pc_sw.Prelude.{ℕ, Bool, false, List, [], Option, none}
use kiv_pc_sw.Prelude.Text.{Text}
use kiv_pc_sw.Instruction.{OperandType, op_none, Descriptor}

-- enum Err_Parse
pub data ErrParse : Type 0 where
  par_no_error par_empty_line : ErrParse

-- enum Statement_Type
pub data StatementType : Type 0 where
  stmt_none stmt_kma stmt_section_data stmt_section_code : StatementType
  stmt_label_def stmt_data_decl stmt_instruction stmt_error : StatementType

-- enum Data_Type
pub data DataType : Type 0 where
  data_dword data_byte : DataType

-- enum Init_Segment_Type
pub data InitSegmentType : Type 0 where
  init_seg_value init_seg_dup init_seg_string init_seg_uninit : InitSegmentType

-- enum Operand_Specifier
pub data OperandSpecifier : Type 0 where
  ops_none ops_offset ops_label : OperandSpecifier

-- struct Operand
pub record Operand : Type 0 where
  pub type : OperandType
  pub specifier : OperandSpecifier
  pub register_name : Text
  pub immediate_value : ℕ
  pub label : Text

-- struct Instruction_Statement, with operands[0] and operands[1].
pub record InstructionStatement : Type 0 where
  pub operand_count : ℕ
  pub operand0 : Operand
  pub operand1 : Operand
  pub descriptor : Option Descriptor

-- struct Init_Segment
pub record InitSegment : Type 0 where
  pub type : InitSegmentType
  pub value : ℕ
  pub dup_count : ℕ
  pub dup_value : ℕ
  pub string : Text
  pub element_count : ℕ
  pub is_uninit : Bool

-- sizeof (struct Init_Segment)
abbrev pub init_segment_size : ℕ
init_segment_size = 280

-- struct Data_Declaration
pub record DataDeclaration : Type 0 where
  pub identifier : Text
  pub type : DataType
  pub segments : List InitSegment
  pub segment_count : ℕ
  pub total_size : ℕ
  pub is_fully_uninit : Bool

-- struct Parsed_Statement, with the count of the live blocks that it stands for: its own, and that of
-- its segments.
pub record Statement : Type 0 where
  pub type : StatementType
  pub err : ErrParse
  pub line_number : ℕ
  pub instruction : InstructionStatement
  pub data_decl : DataDeclaration
  pub label_name : Text
  pub held : Live

abbrev pub no_operand : Operand
no_operand = record {
  type = op_none;
  specifier = ops_none;
  register_name = [];
  immediate_value = 0;
  label = [];
}

abbrev pub no_instruction : InstructionStatement
no_instruction = record {
  operand_count = 0;
  operand0 = no_operand;
  operand1 = no_operand;
  descriptor = none;
}

abbrev pub no_segment : InitSegment
no_segment = record {
  type = init_seg_value;
  value = 0;
  dup_count = 0;
  dup_value = 0;
  string = [];
  element_count = 0;
  is_uninit = false;
}

abbrev pub no_data_decl : DataDeclaration
no_data_decl = record {
  identifier = [];
  type = data_dword;
  segments = [];
  segment_count = 0;
  total_size = 0;
  is_fully_uninit = false;
}

-- p_stmt_create (STMT_NONE, nl)
unfoldable pub p_stmt_create : ℕ → Statement
p_stmt_create nl = record {
  type = stmt_none;
  err = par_no_error;
  line_number = nl;
  instruction = no_instruction;
  data_decl = no_data_decl;
  label_name = [];
  held = live 1;
}
