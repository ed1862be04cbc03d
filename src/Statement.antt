-- ===== src/Statement.antt =====
-- db/sql/ast/Statement.hpp, Statement.cpp, and `InsertInto` of Select.cpp: the statements that change
-- a database, run on tables in memory.
pub mod Queries
pub mod Rows
pub mod Manipulate
pub mod Assigned
pub mod Define
pub mod Deleted
pub mod Deletion
pub mod Insertion
pub mod Others
pub mod Session
pub mod Updated
