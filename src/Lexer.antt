-- ===== src/Lexer.antt =====
-- The lexer: include/lexer.h and lexer/. Tokens are in Lexer/Token, the character classes of the C
-- library in Lexer/Chars, the setters of lexer/set_token.c in Lexer/SetToken, the growing array of
-- lexer/token_array.c in Lexer/TokenArray, and lexer_tokenize_line in Lexer/Line.
pub mod Token
pub mod Chars
pub mod SetToken
pub mod TokenArray
pub mod Line
pub mod Progress
pub mod TokenShape
pub mod Closed
pub mod Free
pub mod Print
mod Tests
