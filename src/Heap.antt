-- ===== src/Heap.antt =====
-- db/storage/edb/Heap.cpp, Heap.hpp: the allocator inside one heap block of an EDB file.
pub mod Memory
pub mod Block
pub mod Chain
pub mod Alloc
pub mod Blocks
pub mod Linked
pub mod Allocated
pub mod Grown
pub mod Allocation
pub mod Outcome
pub mod Freed
pub mod File
pub mod Free
pub mod Region
pub mod Split
