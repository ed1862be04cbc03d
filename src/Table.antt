-- ===== src/Table.antt =====
-- db/core/Table.hpp, Table.cpp, Relation.cpp, IndexedRelation.hpp: tables held in memory, the checks
-- on a row and its insertion. A row that a check refuses leaves the table as it was.
pub mod State
pub mod Fill
pub mod Checks
pub mod Insert
pub mod Valid
pub mod Inserted
pub mod Appended
pub mod Referenced
