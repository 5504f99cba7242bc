-- ===== src/Cilk2c.antt =====
-- The compiler cilk2c: its data structures.
pub mod Container
pub mod Lists
pub mod Chunks
pub mod Symbol
pub mod TypeQual
