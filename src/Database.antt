-- ===== src/Database.antt =====
-- db/core/Database.hpp, Database.cpp, TupleFromValues.cpp: a database that lives in memory, as a map
-- from names to tables. A call that fails half-way leaves what it has done, so the database comes
-- back beside the error.
pub mod Action
pub mod Tables
pub mod Laws
pub mod Restructure
pub mod Others
pub mod Valid
