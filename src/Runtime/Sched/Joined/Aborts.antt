-- ===== src/Runtime/Sched/Joined/Aborts.antt =====
-- Exceptions and aborts of runtime/sched.c leave the closure tree as it is.
use cilk.Common.{ℕ, zero, suc, refl, Option, null_deref, ◌==◌, List, [], ◌∷◌, Cmd}
use cilk.Runtime.Sched.State.{Sched, Abort, Inlet}
use cilk.Runtime.Sched.Closure.{Closure_lock, Closure_unlock}
use cilk.Runtime.Sched.Abort.{
  increment_exception_pointer, decrement_exception_pointer, reset_exception_pointer,
  signal_immediate_exception, get_frame_size, Closure_being_aborted, signal_abort, reset_abort,
  maybe_reset_abort, signal_one, signal_children, recursively_signal_abort, Cilk_destroy_frame,
  abort_ready_closure,
}
use cilk.Runtime.Sched.Joined.Keep.{Count, Keeps, Keeps-bind, Safe-write, same_closures}
use cilk.Runtime.Sched.Joined.Basic.{keep_basic, Keeps-lock, Keeps-unlock}

module _ {I : Count} where
  pub Keeps-increment : (ws cl : ℕ) → Keeps I (increment_exception_pointer ws cl)
  unfolding increment_exception_pointer
  Keeps-increment ws cl = search keep_basic depth 30

  pub Keeps-decrement : (ws cl : ℕ) → Keeps I (decrement_exception_pointer ws cl)
  unfolding decrement_exception_pointer
  Keeps-decrement ws cl = search keep_basic depth 30

  pub Keeps-reset : (ws cl : ℕ) → Keeps I (reset_exception_pointer ws cl)
  unfolding reset_exception_pointer
  Keeps-reset ws cl = search keep_basic depth 30

  pub Keeps-immediate : (ws cl : ℕ) → Keeps I (signal_immediate_exception ws cl)
  unfolding signal_immediate_exception
  Keeps-immediate ws cl = search keep_basic depth 30

  pub Keeps-frame_size : (f : ℕ) → Keeps I (get_frame_size f)
  unfolding get_frame_size
  Keeps-frame_size f = search keep_basic depth 30

  pub Keeps-being_aborted : (ws cl : ℕ) → Keeps I (Closure_being_aborted ws cl)
  unfolding Closure_being_aborted
  Keeps-being_aborted ws cl = search keep_basic depth 30

  pub Keeps-reset_abort : (cl : ℕ) → Keeps I (reset_abort cl)
  unfolding reset_abort
  Keeps-reset_abort cl = search keep_basic depth 30

  pub Keeps-maybe_reset : (cl : ℕ) → Keeps I (maybe_reset_abort cl)
  unfolding maybe_reset_abort
  Keeps-maybe_reset cl = search (keep_basic, Keeps-reset_abort) depth 30

  pub Keeps-signal_one : (ws cl : ℕ) (s : Abort) → Keeps I (signal_one ws cl s)
  unfolding signal_one signal_abort
  Keeps-signal_one ws cl s = search (keep_basic, Keeps-immediate) depth 30

  pub Keeps-children :
      (ws : ℕ) (visit : ℕ → Cmd Sched (Unit {0})) (ps : List Inlet)
      → ((c : ℕ) → Keeps I (visit c))
      → Keeps I (signal_children ws visit ps)
  unfolding signal_children
  Keeps-children ws visit [] h = search keep_basic
  Keeps-children ws visit (p ∷ ps) h =
      Keeps-bind (Closure_lock ws p.child) _ (Keeps-lock ws p.child) (λ u.
        Keeps-bind (visit p.child) _ (h p.child) (λ u.
          Keeps-bind (Closure_unlock ws p.child) _ (Keeps-unlock ws p.child)
            (λ u. Keeps-children ws visit ps h)))

  pub Keeps-recursively :
      (fuel ws cl : ℕ) (s : Abort) → Keeps I (recursively_signal_abort fuel ws cl s)
  unfolding recursively_signal_abort
  Keeps-recursively zero ws cl s = record { keeps = λ st h. tt }
  Keeps-recursively (suc fuel) ws cl s =
      let ih = λ (c : ℕ). Keeps-recursively fuel ws c Abort.abort_all in
      search (keep_basic, Keeps-signal_one, Keeps-children, ih) depth 30

  pub Keeps-destroy_frame : (f : ℕ) (size : Option ℕ) → Keeps I (Cilk_destroy_frame f size)
  unfolding Cilk_destroy_frame
  Keeps-destroy_frame f size = record {
    keeps = λ s h. Safe-write (f == 0) null_deref s _ (same_closures s _ h refl refl);
  }

  pub Keeps-abort_ready : (cl : ℕ) → Keeps I (abort_ready_closure cl)
  unfolding abort_ready_closure
  Keeps-abort_ready cl = search (keep_basic, Keeps-frame_size, Keeps-destroy_frame) depth 30

pub ruleset keep_abort = (
  keep_basic, Keeps-increment, Keeps-decrement, Keeps-reset, Keeps-immediate, Keeps-frame_size,
  Keeps-being_aborted, Keeps-reset_abort, Keeps-maybe_reset, Keeps-recursively, Keeps-destroy_frame,
  Keeps-abort_ready,
)
