-- ===== src/Index.antt =====
-- The B+ tree index: index/.
pub mod Keys
pub mod Order
pub mod Columns
pub mod Node
pub mod Tree
mod Tests
