-- ===== src/Assembler.antt =====
-- The assembler: include/assembler.h and assembler/. The state and the error codes are in
-- Assembler/Types, passes.c in Assembler/Passes and Assembler/Run, pass_1.c in Assembler/Pass1,
-- pass_2.c in Assembler/Pass2, and assembler.c in Assembler/Run.
pub mod Types
pub mod Passes
pub mod Pass1
pub mod Pass2
pub mod Run
pub mod Free
pub mod Balance
pub mod Reserve
pub mod Emit
pub mod Sizes
pub mod Operands
pub mod Moves
pub mod Layout
pub mod Encoded
pub mod Addresses
pub mod Targets
pub mod Jumps
pub mod Order
pub mod Sections
pub mod Reserved
pub mod Whole
mod Tests
mod FileTests
mod RunTests
