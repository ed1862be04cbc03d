-- ===== src/Lexer.antt =====
-- db/sql/Lexer.hpp, Lexer.cpp: from the text of a query to its tokens.
pub mod Token
pub mod Scan
pub mod Ends
pub mod Parts
pub mod Rounds
pub mod Tiled
pub mod Words
