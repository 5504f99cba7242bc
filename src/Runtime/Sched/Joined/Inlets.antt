-- ===== src/Runtime/Sched/Joined/Inlets.antt =====
-- Inlets and the parts of the return protocol leave the closure tree counted (runtime/sched.c).
use cilk.Common.{ℕ, zero, suc, refl, List, [], ◌∷◌, Cmd}
use cilk.Runtime.Sched.State.{Closure, Sched, Inlet, deref, assign}
use cilk.Runtime.Sched.Inlets.{
  InletCode, works_below, signal_abort_from_inlet, call_inlet, run_inlet, apply_inlet, apply_step,
  apply_inlets, poll_inlets, provably_good_steal_maybe, install_value, complete_and_enque_inlet,
}
use cilk.Runtime.Sched.Return.{charge_time, check_returning, check_parent, notify_parent}
use cilk.Runtime.Sched.Joined.Keep.{
  Keeps, Keeps-bind, Keeps-assign, Keeps-deref, Keeps-pure, Keeps-other,
}
use cilk.Runtime.Sched.Joined.Aborts.{keep_abort}
use cilk.Runtime.Sched.Joined.Moves.{Counts}
use cilk.Runtime.Sched.Joined.Children.{Keeps-make_ready, Keeps-finish}
use cilk.Runtime.Sched.Joined.Promote.{Keeps-promote}

module _ (code : InletCode) (d : ℕ → ℕ) where
  Keeps-works_below : (cl : ℕ) → Keeps (Counts d) (works_below cl)
  unfolding works_below
  Keeps-works_below cl = search keep_abort depth 40

  Keeps-signal : (fuel ws cl : ℕ) → Keeps (Counts d) (signal_abort_from_inlet fuel ws cl)
  unfolding signal_abort_from_inlet
  Keeps-signal fuel ws cl =
      search (keep_abort, Keeps-works_below, Keeps-promote, Keeps-finish) depth 40

  Keeps-call : (frame : ℕ) (i : Inlet) → Keeps (Counts d) (call_inlet code frame i)
  unfolding call_inlet
  Keeps-call frame i =
      Keeps-other (λ s. (run_inlet code frame i s.memory).1)
        (λ s. record s { memory = (run_inlet code frame i s.memory).0 }) (λ s. refl) (λ s. refl)

  Keeps-apply : (fuel ws cl : ℕ) (i : Inlet) → Keeps (Counts d) (apply_inlet code fuel ws cl i)
  unfolding apply_inlet
  Keeps-apply fuel ws cl i = search (keep_abort, Keeps-signal, Keeps-call) depth 40

  Keeps-apply_step :
      (fuel ws cl : ℕ) (rest : Cmd Sched (Unit {0})) (is : List Inlet)
      → Keeps (Counts d) rest
      → Keeps (Counts d) (apply_step code fuel ws cl rest is)
  unfolding apply_step
  Keeps-apply_step fuel ws cl rest [] h = Keeps-pure tt
  Keeps-apply_step fuel ws cl rest (i ∷ is) h =
      Keeps-bind (assign cl (λ c. record c { complete_inlets = is })) _
        (Keeps-assign cl (λ c. record c { complete_inlets = is }) (λ c. refl) (λ c. refl)
          (λ c e. e))
        (λ u. Keeps-bind (apply_inlet code fuel ws cl i) _ (Keeps-apply fuel ws cl i) (λ u. h))

  Keeps-apply_inlets :
      (rounds fuel ws cl : ℕ) → Keeps (Counts d) (apply_inlets code rounds fuel ws cl)
  unfolding apply_inlets
  Keeps-apply_inlets zero fuel ws cl = record { keeps = λ s h. tt }
  Keeps-apply_inlets (suc rounds) fuel ws cl =
      Keeps-bind (deref cl) _ (Keeps-deref cl) (λ c.
        Keeps-apply_step fuel ws cl _ c.complete_inlets (Keeps-apply_inlets rounds fuel ws cl))

  pub Keeps-poll : (fuel ws cl : ℕ) → Keeps (Counts d) (poll_inlets code fuel ws cl)
  unfolding poll_inlets
  Keeps-poll fuel ws cl = search (keep_abort, Keeps-works_below, Keeps-apply_inlets) depth 40

  pub Keeps-good_steal :
      (fuel ws p : ℕ) → Keeps (Counts d) (provably_good_steal_maybe code fuel ws p)
  unfolding provably_good_steal_maybe
  Keeps-good_steal fuel ws p = search (keep_abort, Keeps-poll, Keeps-make_ready) depth 40

  Keeps-install : (child : ℕ) (c : Closure) (i : Inlet) → Keeps (Counts d) (install_value child c i)
  unfolding install_value
  Keeps-install child c i = search keep_abort depth 40

  pub Keeps-enque :
      (ws p child : ℕ) (i : Inlet) → Keeps (Counts d) (complete_and_enque_inlet ws p child i)
  unfolding complete_and_enque_inlet
  Keeps-enque ws p child i = search (keep_abort, Keeps-install) depth 40

  pub Keeps-notify : (fuel ws p : ℕ) → Keeps (Counts d) (notify_parent code fuel ws p)
  unfolding notify_parent
  Keeps-notify fuel ws p = search (keep_abort, Keeps-poll) depth 40

  pub Keeps-charge : (ws p : ℕ) → Keeps (Counts d) (charge_time ws p)
  unfolding charge_time
  Keeps-charge ws p = search keep_abort depth 40

  pub Keeps-check_returning : (ws t : ℕ) → Keeps (Counts d) (check_returning ws t)
  unfolding check_returning
  Keeps-check_returning ws t = search keep_abort depth 40

  pub Keeps-check_parent : (p : ℕ) → Keeps (Counts d) (check_parent p)
  unfolding check_parent
  Keeps-check_parent p = search keep_abort depth 40
