-- ===== src/Runtime/Sched/Joined.antt =====
-- The count of a closure's outstanding children, through the handlers of runtime/sched.c.
pub mod Keep
pub mod Basic
pub mod Aborts
pub mod Moves
pub mod Children
pub mod Promote
pub mod Inlets
pub mod Handlers
pub mod Worker
pub mod Trace
