-- ===== src/Rbtree.antt =====
-- The red-black tree demonstration, rbtree/rbtree.c.
pub mod Tree
pub mod Order
pub mod Insert
pub mod Search
pub mod Demo
pub mod Destroy
pub mod DestroyCount
pub mod Table
pub mod Lookup
pub mod Whole
