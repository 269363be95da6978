-- ===== src/Lib.antt =====
-- kmas is an assembler for the KMA computer: it reads a .kas source file and writes a .kmx binary.
-- This library models the C code under src/ with the types of include/.
--
-- The parts and where they are modelled:
--   Common      include/common.h and core/memory.c: error codes, limits, jalloc and jealloc.
--   Memory      core/memory.c: the count of live blocks (jalloc, jree) and jtrdup.
--   Segment     data_structures/codeseg.c: the growing buffer of the code segment.
--   Dataseg     data_structures/dataseg.c: the data segment, over the same record.
--   Symbol      data_structures/symbol.c: symtab_add and symtab_find.
--   Instruction data_structures/instruction.c: the instruction table and its queries.
--   Lexer       lexer/: a line of text to tokens (lexer_tokenize_line, set_next_token), print_tokens.
--   Parser      parser/: the tokens of a line to a statement (parse_tokens, grammar_line).
--   Assembler   assembler/: the two passes (process_assembler, passes_line, pass1_*, pass2_*).
--   Output      io/output.c: the .kmx file (output_binary), with a loader for it.
--   Messages    core/common.c: the texts of the messages, first_null_arg and valid_args.
--   FileUtil    io/fileutil.c: the tests on paths, fu_open and fu_getline.
--   Args        core/args.c: the command line (args_parse) and the checks of the paths.
--   Main        main.c: the whole program, from the command line to the exit status.
-- Each module keeps the function names of its C file, less the prefix that the module's name
-- carries (cdsg_app_b is Segment.app_b). Submodules named for a property hold the proofs, modules
-- named Tests the runs at fixed inputs, and Samples what these runs share. Modules named Free say
-- what each function of their component makes of the count of live blocks, and those named Balance
-- or Blocks relate these counts.
--
-- main takes the configuration from args_parse, opens the source twice, once for each pass, and
-- hands its lines to the passes; output_binary gets the two segments (Main).
-- For each line the assembler calls the lexer, then the parser, and hands the statement to the pass
-- (Assembler/Run). The first pass advances the sizes of both segments and fills the symbol table;
-- the second starts both sizes at 0 again and writes the bytes. The state of the assembler is one
-- record (Assembler/Types.State) that every handler takes and returns beside its error code. An
-- operation on a segment or on the table returns its C result beside the structure that it leaves.
--
-- Choices. A C string is the list of its byte values. A size_t has 64 bits, and where the source
-- adds or multiplies size_t values without a check the model takes the result modulo 2^64. An
-- int32_t is its bit pattern below 2^32, and its arithmetic wraps around, also where C leaves an
-- overflow undefined (the relative jumps). Unions are one field for each member. The NULL checks
-- that the callers never trigger are left out, and so are the calls that print.
--
-- The heap is a parameter. Common.Allocator says which blocks calloc and realloc grant at one moment
-- and which bytes realloc leaves behind the old ones; within a moment it gives the same answer to
-- the same size. Common.Heap gives an Allocator for each moment: each copy of a path, each part that
-- asp_create makes, and each line of a pass have their own. fu_getline keeps its buffer through a
-- pass, so it asks for each size once until it is refused, and one Allocator stands for a pass. The
-- two passes open and read the source separately (Main.Reading). What the target holds after fclose
-- is a function of what was handed to fwrite (Main.Platform), since the source ignores the result
-- of fclose.
--
-- Freeing is modelled by the count of live blocks that core/memory.c keeps (Memory.Live), which is
-- lost when one of the assertions on it fails. A statement has a count of its own, its field `held`,
-- because the parser frees by what it finds in the statement; the other structures hold a fixed
-- number of blocks, and a function's effect on the count is a function beside it (passes_line has
-- passes_line_count), which branches on the same results.
--
-- Loops with fuel: the growth loops double a capacity and have 64 rounds, enough for any size_t
-- (Segment/Grow); the tokenizer loop has one round more than the line has characters
-- (Lexer/Progress), and the loop over the lines of a file one more than the file has bytes
-- (FileUtil/Lines); the recursion of _grammar_identifier_dec2 has one for each token of the line,
-- and each of its rounds passes a comma (Parser/Identifier); the growth of the symbol table has 64
-- rounds (Symbol/Room); printing a number has one more than its value (Messages). All other loops
-- recurse on the list or the count that they go through.
--
-- Not modelled: the branches for Windows, the usage text, jtrndup, which nothing calls, and where in
-- the run a message is printed. What stat, access, fopen, fwrite and fclose do are parameters
-- (FileUtil.FileSystem, Output.Device, gathered in Main.Platform).
pub mod Prelude
pub mod Common
pub mod Memory
pub mod Segment
pub mod Dataseg
pub mod Symbol
pub mod Instruction
pub mod Lexer
pub mod Parser
pub mod Assembler
pub mod Output
pub mod Messages
pub mod FileUtil
pub mod Args
pub mod Main
pub mod Samples
