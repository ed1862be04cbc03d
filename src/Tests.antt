-- ===== src/Tests.antt =====
-- Runs of the models on small inputs, and each property at one of them.
pub mod Fixture
pub mod Values
pub mod Tables
pub mod Sessions
pub mod Blocks
pub mod Texts
pub mod Functions
pub mod Parsing
pub mod Queries
pub mod Csv
