-- ===== src/Runtime/Sched/Abort.antt =====
-- Exceptions and aborts (runtime/sched.c). EXCEPTION_INFINITY is `none`.
pub mod Later
pub mod Signal
pub mod Free
pub mod Walk
pub mod Whole
use cilk.Common.{
  ℕ, zero, suc, ◌+◌, ◌-◌, Bool, false, not, Option, none, some, List, [], ◌∷◌, update, ◌==◌,
  if◌then◌else◌, Cmd, ok, fault, out_of_fuel, null_deref, check, pure, ◌>>=◌, ◌>>◌,
}
use cilk.Runtime.Sched.State.{
  Status, Abort, Inlet, Sched, deref, assign, deref_frame, assign_cache, is_running, abort_ltb,
  is_abort_all, is_no_abort,
}
use cilk.Runtime.Sched.Closure.{
  Closure_assert_ownership, Closure_lock, Closure_unlock, Closure_has_children,
}

-- `++` and `--` on an exception pointer that is not EXCEPTION_INFINITY
abbrev pub raise : Option ℕ → Option ℕ
raise none = none
raise (some e) = some (e + 1)

abbrev pub lower : Option ℕ → Option ℕ
lower none = none
lower (some e) = some (e - 1)

unfoldable pub increment_exception_pointer : ℕ → ℕ → Cmd Sched (Unit {0})
increment_exception_pointer ws cl = do
  Closure_assert_ownership ws cl
  c ← deref cl
  check (is_running c.status)
  assign_cache cl (λ h. record h { exception = raise h.exception })

unfoldable pub decrement_exception_pointer : ℕ → ℕ → Cmd Sched (Unit {0})
decrement_exception_pointer ws cl = do
  Closure_assert_ownership ws cl
  c ← deref cl
  check (is_running c.status)
  assign_cache cl (λ h. record h { exception = lower h.exception })

unfoldable pub reset_exception_pointer : ℕ → ℕ → Cmd Sched (Unit {0})
reset_exception_pointer ws cl = do
  Closure_assert_ownership ws cl
  assign_cache cl (λ h. record h { exception = some h.head })

unfoldable pub signal_immediate_exception : ℕ → ℕ → Cmd Sched (Unit {0})
signal_immediate_exception ws cl = do
  Closure_assert_ownership ws cl
  c ← deref cl
  check (is_running c.status)
  assign_cache cl (λ h. record h { exception = none })

-- the size that the compiler puts in the first entry of the signature
unfoldable pub get_frame_size : ℕ → Cmd Sched (Option ℕ)
get_frame_size f = do fr ← deref_frame f; pure (fr.sig 0).index

unfoldable pub Closure_being_aborted : ℕ → ℕ → Cmd Sched Bool
Closure_being_aborted ws cl = do
  Closure_assert_ownership ws cl
  c ← deref cl
  pure (not (is_no_abort c.abort_status))

-- the smaller of the two
pub min_abort : Abort → Abort → Abort
min_abort s a = if abort_ltb s a then s else a

unfoldable pub signal_abort : ℕ → Abort → Cmd Sched (Unit {0})
signal_abort cl s = assign cl (λ c. record c { abort_status = min_abort s c.abort_status })

unfoldable pub reset_abort : ℕ → Cmd Sched (Unit {0})
reset_abort cl = assign cl (λ c. record c { abort_status = Abort.no_abort })

unfoldable pub maybe_reset_abort : ℕ → Cmd Sched (Unit {0})
maybe_reset_abort cl = do
  c ← deref cl
  if is_abort_all c.abort_status then pure tt else reset_abort cl

-- One closure; then `visit` goes on with its children.
unfoldable pub signal_one : ℕ → ℕ → Abort → Cmd Sched (Unit {0})
signal_one ws cl s = do
  Closure_assert_ownership ws cl
  signal_abort cl s
  c ← deref cl
  if is_running c.status then signal_immediate_exception ws cl else pure tt

-- the walk along the list of children
unfoldable pub signal_children : ℕ → (ℕ → Cmd Sched (Unit {0})) → List Inlet → Cmd Sched (Unit {0})
signal_children ws visit [] = pure tt
signal_children ws visit (p ∷ ps) = do
  Closure_lock ws p.child
  visit p.child
  Closure_unlock ws p.child
  signal_children ws visit ps

-- The fuel bounds the depth of the closure tree.
unfoldable pub recursively_signal_abort : ℕ → ℕ → ℕ → Abort → Cmd Sched (Unit {0})
recursively_signal_abort zero ws cl s = λ st. out_of_fuel
recursively_signal_abort (suc fuel) ws cl s = do
  signal_one ws cl s
  c ← deref cl
  signal_children ws (λ child. recursively_signal_abort fuel ws child Abort.abort_all)
      c.incomplete_inlets

-- the frame's block is freed; its magic number is spoilt
unfoldable pub Cilk_destroy_frame : ℕ → Option ℕ → Cmd Sched (Unit {0})
Cilk_destroy_frame f size s =
    if f == 0
    then fault null_deref
    else ok tt (record s { frames = update s.frames f (record (s.frames f) { magic = false }) })

unfoldable pub abort_ready_closure : ℕ → Cmd Sched ℕ
abort_ready_closure cl = do
  c ← deref cl
  check (is_abort_all c.abort_status)
  if Closure_has_children c
      then (do assign cl (λ c. record c { status = Status.suspended }); pure 0)
      else (do
        size ← get_frame_size c.frame
        Cilk_destroy_frame c.frame size
        assign cl (λ c. record c { status = Status.returning })
        pure cl)
