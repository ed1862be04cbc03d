-- ===== src/Parser.antt =====
-- db/sql/Parser.cpp.
pub mod Expression
pub mod Operator
pub mod Levels
pub mod Precedence
pub mod Query
pub mod Reply
pub mod Safe
pub mod Simple
pub mod Statement
pub mod Table
