-- ===== src/Csv.antt =====
-- db/storage/CSVFile.cpp, and `export_to_csv` of db/core/Table.cpp: tables as text with commas.
pub mod Read
pub mod Import
pub mod Ends
pub mod Keeps
pub mod ReadBack
