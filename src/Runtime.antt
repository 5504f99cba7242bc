-- ===== src/Runtime.antt =====
-- The runtime system: runtime/*.c and runtime/*.h.
pub mod Barrier
pub mod Malloc
pub mod Options
pub mod Sched
pub mod Protocol
