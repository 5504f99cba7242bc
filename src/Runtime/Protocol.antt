-- ===== src/Runtime/Protocol.antt =====
-- The protocol by which a worker and its thieves share a stack without a lock on the worker's side:
-- do_dekker_on, Closure_steal and Cilk_exception_handler of runtime/sched.c against
-- Cilk_cilk2c_pop_check and Cilk_cilk2c_before_return_fast of runtime/cilk-cilk2c-pre.h. Each step is
-- one access to memory, and the fences put them in the order of the program. The frames from `head` to
-- `tail` are the worker's, those below `head` were stolen. The locks let one thief in at a time.
pub mod Safety
pub mod Tests
use cilk.Common.{ℕ, ◌+◌, ◌-◌, ◌≡◌, ◌≤◌, ◌<◌, Option, none, some}

-- `signalled`: the exception pointer is incremented. `won`: the test of head and tail passed.
pub data Thief : Type 0 where
  idle signalled won : Thief

-- `working`: on the frame at tail - 1. `popped`: a child has returned, the exception pointer is not
-- read yet. `excepted`: on the way to the exception handler. `robbed`: back in the scheduler.
pub data Victim : Type 0 where
  working popped excepted robbed : Victim

-- `exception` is `none` for EXCEPTION_INFINITY.
pub record Shared : Type 0 where
  pub head : ℕ
  pub tail : ℕ
  pub exception : Option ℕ
  pub thief : Thief
  pub victim : Victim

-- exception >= t
abbrev pub AtLeast : Option ℕ → ℕ → Type 0
AtLeast none t = Unit
AtLeast (some e) t = t ≤ e

-- exception < t
abbrev pub Below : Option ℕ → ℕ → Type 0
Below none t = ⊥
Below (some e) t = e < t

abbrev pub up : Option ℕ → Option ℕ
up none = none
up (some e) = some (e + 1)

abbrev pub down : Option ℕ → Option ℕ
down none = none
down (some e) = some (e - 1)

pub data Step : Shared → Shared → Type 0 where
  -- a spawned procedure pushes its frame
  push : {s : Shared} → s.victim ≡ Victim.working → Step s (record s { tail = s.tail + 1 })
  -- a procedure returns to the frame before its own
  pop :
      {s : Shared}
      → s.victim ≡ Victim.working
      → 1 < s.tail
      → Step s (record s { tail = s.tail - 1; victim = Victim.popped })
  resume :
      {s : Shared}
      → s.victim ≡ Victim.popped
      → Below s.exception s.tail
      → Step s (record s { victim = Victim.working })
  raise :
      {s : Shared}
      → s.victim ≡ Victim.popped
      → AtLeast s.exception s.tail
      → Step s (record s { victim = Victim.excepted })
  -- the exception handler, with the locks
  go_on :
      {s : Shared}
      → s.victim ≡ Victim.excepted
      → s.thief ≡ Thief.idle
      → s.head < s.tail
      → Step s (record s { exception = some s.head; victim = Victim.working })
  give_up :
      {s : Shared}
      → s.victim ≡ Victim.excepted
      → s.thief ≡ Thief.idle
      → s.tail ≤ s.head
      → Step s (record s { exception = some s.head; victim = Victim.robbed })
  -- the thief, with the locks
  signal :
      {s : Shared}
      → s.thief ≡ Thief.idle
      → Step s (record s { exception = up s.exception; thief = Thief.signalled })
  retract :
      {s : Shared}
      → s.thief ≡ Thief.signalled
      → s.tail ≤ s.head + 1
      → Step s (record s { exception = down s.exception; thief = Thief.idle })
  win :
      {s : Shared}
      → s.thief ≡ Thief.signalled
      → s.head + 1 < s.tail
      → Step s (record s { thief = Thief.won })
  steal :
      {s : Shared}
      → s.thief ≡ Thief.won
      → Step s (record s { head = s.head + 1; thief = Thief.idle })
  -- signal_immediate_exception, by whoever holds the locks
  interrupt : {s : Shared} → s.thief ≡ Thief.idle → Step s (record s { exception = none })

pub data Steps (s : Shared) : Shared → Type 0 where
  start : Steps s s
  then_step : {t u : Shared} → Steps s t → Step t u → Steps s u

-- setup_for_execution: one frame on the stack, which the worker runs
abbrev pub set_up : Shared
set_up = record {
  head = 0;
  tail = 1;
  exception = some 0;
  thief = Thief.idle;
  victim = Victim.working;
}
