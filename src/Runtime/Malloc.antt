-- ===== src/Runtime/Malloc.antt =====
-- The block allocator of the runtime system: runtime/internal-malloc.c and the inline fast paths of
-- runtime/cilk-cilk2c-pre.h.
pub mod Sizes
pub mod State
pub mod Global
pub mod Local
pub mod Batch
pub mod Release
pub mod Critical
pub mod Loops
pub mod Safety
pub mod Fast
pub mod Cleanup
pub mod Script
mod Tests
