-- ===== src/Runtime/Sched/Steal.antt =====
-- Work stealing (runtime/sched.c): the thief's side, under the locks of the victim's deque and of
-- the closure at its top.
pub mod Dekker
pub mod Leave
pub mod Take
pub mod Promote
pub mod Finish
pub mod Split
pub mod Theft
use cilk.Common.{
  ℕ, ◌+◌, ◌-◌, ◌≡◌, Bool, true, false, not, Option, none, some, List, [], ◌∷◌, update, ◌==◌, leb,
  if◌then◌else◌, Cmd, ok, fail, fault, assertion, null_deref, check, pure, ◌>>=◌, ◌>>◌,
}
use cilk.Runtime.Sched.State.{
  Status, Abort, Inlet, Closure, Cache, Sched, opt_eq, deref, assign, deref_links, get_cache,
  assign_cache, is_running, is_no_abort,
}
use cilk.Runtime.Sched.Closure.{
  Closure_assert_ownership, Closure_assert_alienation, Closure_lock, Closure_unlock, Closure_create,
  Closure_add_child,
}
use cilk.Runtime.Sched.Abort.{
  Closure_being_aborted, increment_exception_pointer, decrement_exception_pointer,
}
use cilk.Runtime.Sched.Deque.{
  deque_assert_ownership, deque_lock, deque_unlock, deque_peek_top, deque_xtract_top,
  deque_add_bottom,
}

-- The thief's part: true if the frame at the head can be stolen.
unfoldable pub do_dekker_on : ℕ → ℕ → Cmd Sched Bool
do_dekker_on ws cl = do
  Closure_assert_ownership ws cl
  increment_exception_pointer ws cl
  h ← get_cache cl
  if leb h.tail (h.head + 1) then (do decrement_exception_pointer ws cl; pure false) else pure true

unfoldable pub Closure_make_ready : ℕ → Cmd Sched (Unit {0})
Closure_make_ready cl = assign cl (λ c. record c { cache = none; status = Status.ready })

-- `head <= exception`, which EXCEPTION_INFINITY exceeds
abbrev pub below : ℕ → Option ℕ → Bool
below h none = true
below h (some e) = leb h e

-- what the parent, running on the victim's cache, must be
unfoldable pub check_promote : ℕ → ℕ → ℕ → Cmd Sched (Unit {0})
check_promote ws parent victim = do
  Closure_assert_ownership ws parent
  deque_assert_ownership ws victim
  p ← deref parent
  l ← deref_links parent
  check (is_running p.status)
  check (opt_eq l.owner_ready_deque victim)
  check (l.next_ready == 0)
  h ← get_cache parent
  check (below h.head h.exception)

-- The child keeps the frame behind the stolen one.
unfoldable pub take_frame : ℕ → Cmd Sched (Unit {0})
take_frame child = do
  assign_cache child (λ h. record h { head = h.head + 1 })
  h ← get_cache child
  assign child (λ c. record c { frame = h.stack h.head })

unfoldable pub promote_child : ℕ → ℕ → ℕ → Cmd Sched ℕ
promote_child ws parent victim = do
  child ← Closure_create
  check_promote ws parent victim
  p ← deref parent
  assign child (λ c. record c {
    parent = parent;
    join_counter = 0;
    cache = p.cache;
    status = Status.running;
  })
  take_frame child
  deque_add_bottom ws child victim
  pure child

unfoldable pub finish_promote : ℕ → ℕ → ℕ → Cmd Sched (Unit {0})
finish_promote ws parent child = do
  Closure_assert_ownership ws parent
  Closure_assert_alienation ws child
  assign parent (λ c. record c { join_counter = c.join_counter + 1 })
  Closure_add_child ws parent child
  Closure_make_ready parent

-- `give_up`
unfoldable pub leave_alone : ℕ → ℕ → ℕ → Cmd Sched ℕ
leave_alone ws victim cl = do Closure_unlock ws cl; deque_unlock ws victim; pure 0

unfoldable pub steal_ready : ℕ → ℕ → ℕ → Cmd Sched ℕ
steal_ready ws victim cl = do
  res ← deque_xtract_top ws victim
  check (cl == res)
  Closure_unlock ws cl
  deque_unlock ws victim
  pure res

-- The child frame becomes a closure, and the parent is stolen.
unfoldable pub steal_parent : ℕ → ℕ → ℕ → Cmd Sched ℕ
steal_parent ws victim cl = do
  child ← promote_child ws cl victim
  res ← deque_xtract_top ws victim
  check (cl == res)
  deque_unlock ws victim
  finish_promote ws cl child
  Closure_unlock ws cl
  pure res

unfoldable pub steal_by_status : ℕ → ℕ → ℕ → Status → Cmd Sched ℕ
steal_by_status ws victim cl Status.ready = steal_ready ws victim cl
steal_by_status ws victim cl Status.running = do
  won ← do_dekker_on ws cl
  if won then steal_parent ws victim cl else leave_alone ws victim cl
steal_by_status ws victim cl Status.suspended = fail assertion
steal_by_status ws victim cl Status.returning = leave_alone ws victim cl

-- `cl`, at the top of the victim's deque, is locked.
unfoldable pub steal_locked : ℕ → ℕ → ℕ → Cmd Sched ℕ
steal_locked ws victim cl = do
  aborted ← Closure_being_aborted ws cl
  c ← deref cl
  if aborted then leave_alone ws victim cl else steal_by_status ws victim cl c.status

unfoldable pub Closure_steal : ℕ → ℕ → Cmd Sched ℕ
Closure_steal ws victim = do
  deque_lock ws victim
  cl ← deque_peek_top ws victim
  if cl == 0
      then (do deque_unlock ws victim; pure 0)
      else (do Closure_lock ws cl; steal_locked ws victim cl)
