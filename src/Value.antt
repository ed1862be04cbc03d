-- ===== src/Value.antt =====
-- db/core/Value.hpp, Value.cpp: the values that a cell can hold, their conversions, operators and
-- comparisons.
pub mod Types
pub mod Number
pub mod DateText
pub mod Convert
pub mod Operators
pub mod Compare
pub mod RoundTrip
pub mod Order
pub mod Arithmetic
