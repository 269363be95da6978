-- ===== src/Parser.antt =====
-- The parser: include/parser.h and parser/. The statements are in Parser/Statement, the token
-- helpers of parser/token.c in Parser/TokenHelpers, parser/segment.c in Parser/Segments,
-- parser/instruction.c in Parser/Operands, parser/identifier.c in Parser/Identifier, and
-- parser/grammar.c with parser/parser.c in Parser/Grammar and Parser/Free. The modules whose names
-- end in Shape, with OperandUses, are about what a statement holds, and those that end in Blocks,
-- with Owned and Settled, about what it has allocated.
pub mod Statement
pub mod TokenHelpers
pub mod Segments
pub mod Operands
pub mod Identifier
pub mod Grammar
pub mod Shape
pub mod OperandUses
pub mod OperandShape
pub mod DataShape
pub mod SegmentShape
pub mod DeclarationShape
pub mod NamedShape
pub mod LineShape
pub mod Free
pub mod Owned
pub mod DeclarationBlocks
pub mod Settled
pub mod NamedBlocks
pub mod InstructionBlocks
pub mod LineBlocks
mod Tests
