-- ===== src/Runtime/Sched.antt =====
-- The scheduler of runtime/sched.c.
pub mod State
pub mod Deque
pub mod Closure
pub mod Abort
pub mod Steal
pub mod Inlets
pub mod Return
pub mod Execute
pub mod Joined
pub mod Steps
pub mod Tests
pub mod TestsTree
pub mod TestsSync
pub mod TestsChildren
