-- ===== src/Runtime/Sched/Execute.antt =====
-- The scheduler's loop and what it does with a closure (runtime/sched.c).
use cilk.Common.{
  ℕ, ◌+◌, ◌*◌, ◌/◌, ◌%◌, ◌^◌, false, none, some, ◌∷◌, update, ◌==◌, ltb, if◌then◌else◌, Cmd, ok,
  fail, assertion, check, pure, ◌>>=◌, ◌>>◌,
}
use cilk.Runtime.Sched.State.{
  Status, Sched, deref, deref_frame, assign, assign_cache, is_running, is_returning,
}
use cilk.Runtime.Sched.Closure.{
  Closure_assert_ownership, Closure_assert_alienation, Closure_lock, Closure_unlock,
  Closure_destroy_malloc, make_incomplete_inlet_closure,
}
use cilk.Runtime.Sched.Abort.{
  Closure_being_aborted, signal_immediate_exception, reset_exception_pointer, reset_abort,
  abort_ready_closure,
}
use cilk.Runtime.Sched.Steal.{Closure_steal}
use cilk.Runtime.Sched.Inlets.{copy_bytes, InletCode, poll_inlets}
use cilk.Runtime.Sched.Return.{Closure_return}
use cilk.Runtime.Sched.Deque.{deque_lock, deque_unlock, deque_xtract_bottom, deque_add_bottom}

-- unsigned int, of 32 bits
unfoldable pub rts_rand : ℕ → Cmd Sched ℕ
rts_rand ws s = ok (((s.workers ws).rand_next * 1103515245 + 12345) % 2 ^ 32 / 2 ^ 16) (record s {
  workers = update s.workers ws (record (s.workers ws) {
    rand_next = ((s.workers ws).rand_next * 1103515245 + 12345) % 2 ^ 32;
  });
})

pub rts_srand : ℕ → ℕ → Cmd Sched (Unit {0})
rts_srand ws seed s = ok tt (record s {
  workers = update s.workers ws (record (s.workers ws) { rand_next = seed % 2 ^ 32 });
})

-- The stack of the worker holds the closure's frame only.
unfoldable pub setup_for_execution : ℕ → ℕ → Cmd Sched (Unit {0})
setup_for_execution ws t = do
  Closure_assert_ownership ws t
  c ← deref t
  fr ← deref_frame c.frame
  check fr.magic
  assign t (λ c. record c { status = Status.running; cache = some ws })
  assign_cache t (λ h. record h { stack = update h.stack 0 c.frame; head = 0; tail = 1 })
  reset_exception_pointer ws t
  reset_abort t

-- `next t` is the closure to go on with, 0 if there is none; `call f` runs the slow code of the frame `f`.
pub data Action : Type 0 where
  next : ℕ → Action
  call : ℕ → Action

unfoldable pub add_to_own : ℕ → ℕ → Cmd Sched (Unit {0})
add_to_own ws t = do deque_lock ws ws; deque_add_bottom ws t ws; deque_unlock ws ws

-- a ready closure that is not being aborted
unfoldable pub execute : InletCode → ℕ → ℕ → ℕ → Cmd Sched Action
execute code fuel ws t = do
  setup_for_execution ws t
  c ← deref t
  fr ← deref_frame c.frame
  check fr.magic
  poll_inlets code fuel ws t
  Closure_unlock ws t
  add_to_own ws t
  pure (Action.call c.frame)

unfoldable pub execute_ready : InletCode → ℕ → ℕ → ℕ → Cmd Sched Action
execute_ready code fuel ws t = do
  aborted ← Closure_being_aborted ws t
  if aborted
      then (do res ← abort_ready_closure t; Closure_unlock ws t; pure (Action.next res))
      else execute code fuel ws t

unfoldable pub return_value : InletCode → ℕ → ℕ → ℕ → Cmd Sched Action
return_value code fuel ws t = do
  Closure_unlock ws t
  c ← deref t
  check (is_returning c.status)
  res ← Closure_return code fuel ws t
  pure (Action.next res)

unfoldable pub do_status : InletCode → ℕ → ℕ → ℕ → Status → Cmd Sched Action
do_status code fuel ws t Status.ready = execute_ready code fuel ws t
do_status code fuel ws t Status.returning = return_value code fuel ws t
do_status code fuel ws t Status.running = fail assertion
do_status code fuel ws t Status.suspended = fail assertion

unfoldable pub do_what_it_says : InletCode → ℕ → ℕ → ℕ → Cmd Sched Action
do_what_it_says code fuel ws t = do
  Closure_assert_alienation ws t
  Closure_lock ws t
  c ← deref t
  do_status code fuel ws t c.status

-- work of the local queue
unfoldable pub local_work : ℕ → Cmd Sched ℕ
local_work ws = do deque_lock ws ws; t ← deque_xtract_bottom ws ws; deque_unlock ws ws; pure t

-- one round of the stealing loop, with a victim at random
unfoldable pub try_steal : ℕ → ℕ → Cmd Sched ℕ
try_steal active_size ws = do
  r ← rts_rand ws
  if r % active_size == ws then pure 0 else Closure_steal ws (r % active_size)

-- One round of Cilk_scheduler while `done` is not set; the stealing loop makes one try.
unfoldable pub scheduler_round : InletCode → ℕ → ℕ → ℕ → ℕ → Cmd Sched Action
scheduler_round code fuel active_size ws t = do
  t ← if t == 0 then local_work ws else pure t
  t ← if t == 0 then try_steal active_size ws else pure t
  if t == 0 then pure (Action.next 0) else do_what_it_says code fuel ws t

init_deques : ℕ → Sched → Sched
init_deques active_size s = record s {
  deques = λ i.
      if ltb i active_size then record { mutex_owner = none; top = 0; bottom = 0 } else s.deques i;
}

-- `res` is the int that the exit inlet gets.
unfoldable pub make_exit_inlet_closure : ℕ → ℕ → Cmd Sched (Unit {0})
make_exit_inlet_closure cl res = do
  p ← make_incomplete_inlet_closure cl (some 1) 0
  assign cl (λ c. record c {
    complete_inlets = (record p { args = copy_bytes 4 p.args (some res) }) ∷ c.complete_inlets;
  })

unfoldable pub Cilk_exit_from_user_main : InletCode → ℕ → ℕ → ℕ → ℕ → Cmd Sched (Unit {0})
Cilk_exit_from_user_main code fuel ws cl res = do
  Closure_assert_alienation ws cl
  Closure_lock ws cl
  make_exit_inlet_closure cl res
  c ← deref cl
  if is_running c.status then signal_immediate_exception ws cl else poll_inlets code fuel ws cl
  Closure_unlock ws cl

-- The frame `f` is freed with the closure at the bottom of the deque `pn`.
unfoldable pub Cilk_remove_and_free_closure_and_frame : ℕ → ℕ → ℕ → Cmd Sched (Unit {0})
Cilk_remove_and_free_closure_and_frame ws f pn = do
  deque_lock ws pn
  t ← deque_xtract_bottom ws pn
  c ← deref t
  check (c.frame == f)
  deque_unlock ws pn
  (λ s. ok tt (record s { frames = update s.frames f (record (s.frames f) { magic = false }) }))
  Closure_destroy_malloc t
