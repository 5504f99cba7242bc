-- ===== src/Runtime/Sched/Return.antt =====
-- The return, suspend and sync protocols (runtime/sched.c), built with CILK_TIMING.
pub mod Sync
pub mod Proceed
pub mod Suspend
pub mod Result
pub mod Resume
use cilk.Common.{
  ℕ, ◌+◌, Bool, true, false, not, ◌||◌, Option, none, ◌==◌, leb, ltb, if◌then◌else◌, Cmd, check,
  pure, ◌>>=◌, ◌>>◌, ◌-◌,
}
use cilk.Runtime.Sched.State.{
  Status, Abort, Closure, Sched, is_none, deref, deref_links, deref_frame, assign, get_cache,
  get_worker, is_running, is_returning, is_almost,
}
use cilk.Runtime.Sched.Closure.{
  Closure_checkmagic, Closure_assert_ownership, Closure_assert_alienation, Closure_lock,
  Closure_unlock, Closure_destroy, Closure_at_top_of_stack, Closure_has_children,
  Closure_remove_child,
}
use cilk.Runtime.Sched.Abort.{
  Closure_being_aborted, maybe_reset_abort, signal_immediate_exception, reset_exception_pointer,
  recursively_signal_abort, get_frame_size, Cilk_destroy_frame,
}
use cilk.Runtime.Sched.Inlets.{
  InletCode, poll_inlets, provably_good_steal_maybe, complete_and_enque_inlet,
}
use cilk.Runtime.Sched.Deque.{
  deque_assert_ownership, deque_lock, deque_unlock, deque_peek_bottom, deque_xtract_bottom,
}

-- The critical path is the longer one, the work is added up.
unfoldable pub charge_time : ℕ → ℕ → Cmd Sched (Unit {0})
charge_time ws parent = do
  w ← get_worker ws
  assign parent (λ c. record c {
    cp = if ltb c.cp w.cp_hack then w.cp_hack else c.cp;
    work = c.work + w.work_hack;
  })

-- what the returning closure must be
unfoldable pub check_returning : ℕ → ℕ → Cmd Sched (Unit {0})
check_returning ws child = do
  c ← deref child
  l ← deref_links child
  check (c.join_counter == 0)
  check (is_returning c.status)
  check (is_none l.owner_ready_deque)
  Closure_assert_alienation ws child

-- what its parent must be
unfoldable pub check_parent : ℕ → Cmd Sched (Unit {0})
check_parent parent = do
  p ← deref parent
  check (not (is_returning p.status))
  fr ← deref_frame p.frame
  check fr.magic

unfoldable pub count_down : ℕ → Cmd Sched (Unit {0})
count_down parent = do
  p ← deref parent
  check (ltb 0 p.join_counter)
  assign parent (λ p. record p { join_counter = p.join_counter - 1 })

module _ (code : InletCode) where
  -- A running parent is told to poll the inlet; for another one the worker does it.
  unfoldable pub notify_parent : ℕ → ℕ → ℕ → Cmd Sched (Unit {0})
  notify_parent fuel ws parent = do
    p ← deref parent
    if is_running p.status
        then signal_immediate_exception ws parent
        else poll_inlets code fuel ws parent

  unfoldable pub Closure_return : ℕ → ℕ → ℕ → Cmd Sched ℕ
  Closure_return fuel ws child = do
    check_returning ws child
    c ← deref child
    Closure_lock ws c.parent
    check_parent c.parent
    inlet ← Closure_remove_child ws c.parent child
    Closure_lock ws child
    complete_and_enque_inlet ws c.parent child inlet
    notify_parent fuel ws c.parent
    charge_time ws c.parent
    count_down c.parent
    res ← provably_good_steal_maybe code fuel ws c.parent
    Closure_unlock ws c.parent
    Closure_unlock ws child
    Closure_destroy child
    pure res

-- `cl` leaves the bottom of the worker's own deque.
unfoldable pub Closure_suspend : ℕ → ℕ → Cmd Sched (Unit {0})
Closure_suspend ws cl = do
  Closure_checkmagic cl
  Closure_assert_ownership ws cl
  deque_assert_ownership ws ws
  c ← deref cl
  check (is_running c.status)
  assign cl (λ c. record c { status = Status.suspended })
  cl1 ← deque_xtract_bottom ws ws
  check (cl == cl1)

unfoldable pub deque_assert_is_bottom : ℕ → ℕ → Cmd Sched (Unit {0})
deque_assert_is_bottom ws t = do
  deque_assert_ownership ws ws
  b ← deque_peek_bottom ws ws
  check (t == b)

-- The closure at the bottom of the worker's deque, both locked, and the end of such a handler.
unfoldable pub lock_bottom : ℕ → Cmd Sched ℕ
lock_bottom ws = do deque_lock ws ws; t ← deque_peek_bottom ws ws; Closure_lock ws t; pure t

unfoldable pub unlock_bottom : ℕ → ℕ → Cmd Sched (Unit {0})
unlock_bottom ws t = do Closure_unlock ws t; deque_unlock ws ws

unfoldable pub check_frame : ℕ → Cmd Sched (Unit {0})
check_frame t = do c ← deref t; fr ← deref_frame c.frame; check fr.magic

unfoldable pub check_working : ℕ → Cmd Sched (Unit {0})
check_working t = do c ← deref t; check (is_running c.status); check_frame t

-- True if the closure waits for its children.
unfoldable pub Cilk_sync : InletCode → ℕ → ℕ → Cmd Sched Bool
Cilk_sync code fuel ws = do
  t ← lock_bottom ws
  check_working t
  h ← get_cache t
  check (Closure_at_top_of_stack h)
  poll_inlets code fuel ws t
  deque_assert_is_bottom ws t
  maybe_reset_abort t
  c ← deref t
  let res = Closure_has_children c
  if res then Closure_suspend ws t else pure tt
  unlock_bottom ws t
  pure res

-- The time of the children is given to the caller, and the closure starts at 0 again.
unfoldable pub Cilk_after_sync_slow_cp : ℕ → ℕ × ℕ → Cmd Sched (ℕ × ℕ)
Cilk_after_sync_slow_cp ws (work, cp) = do
  t ← lock_bottom ws
  check_working t
  h ← get_cache t
  check (Closure_at_top_of_stack h)
  c ← deref t
  assign t (λ c. record c { cp = 0; work = 0 })
  unlock_bottom ws t
  pure (work + c.work, if ltb cp c.cp then c.cp else cp)

-- `result` is the object at `resultp`.
unfoldable pub move_result_into_closure : ℕ → ℕ → Option ℕ → ℕ → Cmd Sched (Unit {0})
move_result_into_closure ws t result size = do
  Closure_assert_ownership ws t
  assign t (λ c. record c { return_size = size; return_value = if size == 0 then none else result })

-- The frame that is being aborted is the closure's last one.
unfoldable pub abort_last : ℕ → ℕ → Closure → Cmd Sched Bool
abort_last ws t c =
    if Closure_has_children c
    then (do maybe_reset_abort t; Closure_suspend ws t; pure false)
    else (do assign t (λ c. record c { status = Status.returning }); pure true)

-- A frame of an aborted closure: unless the closure suspends, the frame is freed.
unfoldable pub abort_frame : ℕ → ℕ → Cmd Sched (Unit {0})
abort_frame ws t = do
  signal_immediate_exception ws t
  h ← get_cache t
  c ← deref t
  free ← if Closure_at_top_of_stack h then abort_last ws t c else pure true
  if free
      then (do
        h ← get_cache t
        size ← get_frame_size (h.stack (h.tail - 1))
        Cilk_destroy_frame (h.stack (h.tail - 1)) size)
      else pure tt

-- The frame was stolen, aborted, or neither.
unfoldable pub handle_exception : ℕ → ℕ → Option ℕ → ℕ → Cmd Sched Bool
handle_exception ws t result size = do
  h ← get_cache t
  c ← deref t
  if leb h.tail h.head
      then (do
        if is_running c.status
            then (do
              assign t (λ c. record c { status = Status.returning })
              move_result_into_closure ws t result size)
            else pure tt
        pure true)
      else (do
        check_frame t
        aborted ← Closure_being_aborted ws t
        if aborted then abort_frame ws t else maybe_reset_abort t
        pure aborted)

-- An inlet may have given the worker's stack to a new closure.
unfoldable pub relock : ℕ → ℕ → ℕ → Cmd Sched (Unit {0})
relock ws t t1 = if t == t1 then pure tt else (do Closure_unlock ws t; Closure_lock ws t1)

-- True if the worker must return to the runtime system.
unfoldable pub Cilk_exception_handler : InletCode → ℕ → ℕ → Option ℕ → ℕ → Cmd Sched Bool
Cilk_exception_handler code fuel ws result size = do
  t ← lock_bottom ws
  poll_inlets code fuel ws t
  t1 ← deque_peek_bottom ws ws
  relock ws t t1
  reset_exception_pointer ws t1
  c ← deref t1
  check (is_running c.status || is_returning c.status)
  res ← handle_exception ws t1 result size
  unlock_bottom ws t1
  pure res

unfoldable pub Cilk_set_result : ℕ → Option ℕ → ℕ → Cmd Sched (Unit {0})
Cilk_set_result ws result size = do
  t ← lock_bottom ws
  check_working t
  c ← deref t
  check (not (is_almost c.abort_status))
  assign t (λ c. record c { status = Status.returning; frame = 0 })
  move_result_into_closure ws t result size
  unlock_bottom ws t

unfoldable pub Cilk_abort_slow : InletCode → ℕ → ℕ → Cmd Sched (Unit {0})
Cilk_abort_slow code fuel ws = do
  cl ← lock_bottom ws
  c ← deref cl
  check (is_running c.status)
  h ← get_cache cl
  check (Closure_at_top_of_stack h)
  recursively_signal_abort fuel ws cl Abort.almost_no_abort
  poll_inlets code fuel ws cl
  unlock_bottom ws cl
