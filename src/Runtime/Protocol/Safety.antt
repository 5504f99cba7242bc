-- ===== src/Runtime/Protocol/Safety.antt =====
-- No frame is both stolen and resumed (runtime/sched.c, do_dekker_on).
use cilk.Common.{ℕ, ◌+◌, ◌≡◌, ◌≤◌, ◌<◌, arith}
use cilk.Runtime.Protocol.{
  Thief, Victim, Shared, AtLeast, Step, push, pop, resume, raise, go_on, give_up, signal, retract,
  win, steal, interrupt, Steps, start, then_step, set_up,
}

-- the head once the thief that has won is done
abbrev pub next_head : Thief → ℕ → ℕ
next_head Thief.idle h = h
next_head Thief.signalled h = h
next_head Thief.won h = h + 1

-- what the exception pointer is at least
abbrev pub announced : Thief → ℕ → ℕ
announced Thief.idle h = h
announced Thief.signalled h = h + 1
announced Thief.won h = h + 1

-- what the worker may count on
abbrev pub Owns : Victim → ℕ → ℕ → Type 0
Owns Victim.working h t = h < t
Owns Victim.popped h t = h ≤ t
Owns Victim.excepted h t = h ≤ t
Owns Victim.robbed h t = t ≡ h

pub record IsShared (s : Shared) : Type 0 where
  pub below : AtLeast s.exception (announced s.thief s.head)
  pub owns : Owns s.victim (next_head s.thief s.head) s.tail
  pub caught : s.victim ≡ Victim.robbed → s.tail ≡ s.head

pub step-IsShared : {s t : Shared} → IsShared s → Step s t → IsShared t
step-IsShared {s} i (push v) = ground arith
step-IsShared {s} i (pop v l) = ground arith
step-IsShared {s} i (resume v b) = ground arith
step-IsShared {s} i (raise v b) = ground arith
step-IsShared {s} i (go_on v t l) = ground arith
step-IsShared {s} i (give_up v t l) = ground arith
step-IsShared {s} i (signal t) = ground arith
step-IsShared {s} i (retract t l) = ground arith
step-IsShared {s} i (win t l) = ground arith
step-IsShared {s} i (steal t) = ground arith
step-IsShared {s} i (interrupt t) = ground arith

pub steps-IsShared : {s t : Shared} → IsShared s → Steps s t → IsShared t
steps-IsShared i start = i
steps-IsShared i (then_step r m) = step-IsShared (steps-IsShared i r) m

set_up-IsShared : IsShared set_up
set_up-IsShared = record { below = omega arith; owns = omega arith; caught = λ e. cc }

-- the frame that the worker runs, at tail - 1, is not among the stolen ones, below head
abbrev pub FrameIsOwn : Shared → Type 0
FrameIsOwn s = next_head s.thief s.head < s.tail

owner_lem :
    (s : Shared)
    → IsShared s
    → (s.victim ≡ Victim.working → FrameIsOwn s)
      × (s.victim ≡ Victim.robbed → s.tail ≡ s.head)
      × (s.head ≤ s.tail)
owner_lem s i = (λ v. ground arith, i.caught, ground arith)

-- In whatever order the accesses of a worker and its thieves come, from the set-up of a closure on:
-- while the worker runs a frame, that frame is neither stolen nor about to be stolen by a thief that
-- has passed its test; the worker goes back to the scheduler only when the frame that it was to resume
-- is the last one stolen; and no thief takes a frame at or beyond the tail.
pub no_frame_twice :
    (s : Shared)
    → Steps set_up s
    → (s.victim ≡ Victim.working → FrameIsOwn s)
      × (s.victim ≡ Victim.robbed → s.tail ≡ s.head)
      × (s.head ≤ s.tail)
no_frame_twice s r = owner_lem s (steps-IsShared set_up-IsShared r)
