-- ===== src/Runtime/Sched/Return/Proceed.antt =====
-- Cilk_sync of runtime/sched.c where no child is left.
use cilk.Common.{
  ℕ, ◌≡◌, refl, sym, ◌∙◌, ap, false, Option, none, some, List, [], ok, update_twice, update_same,
  ==_refl, ==_eq, ◌==◌, fun_ext, Bool-cases, inl, inr,
}
use cilk.Runtime.Sched.State.{Closure, Sched, Memory}
use cilk.Runtime.Sched.Closure.{Closure_unlock}
use cilk.Runtime.Sched.Inlets.{InletCode}
use cilk.Runtime.Sched.Inlets.Poll.{Quiet, polled}
use cilk.Runtime.Sched.Return.{Cilk_sync, unlock_bottom}
use cilk.Runtime.Sched.Steps.{hold, hold_deque, deque_unlock_lem, Closure_unlock_lem}
use cilk.Runtime.Sched.Steal.Leave.{both}
use cilk.Runtime.Sched.Return.Sync.{CanSync, nz, after_inlets, final_memory, quiet-t, sync_start}

module _ (code : InletCode) (fuel ws t w : ℕ) (xs : List ℕ) (s : Sched)
    (h : CanSync s ws t w xs) where
  abbrev quiet : Sched
  quiet = after_inlets code ws t s

  abbrev m : Memory
  m = final_memory code t s

  unlock_t : Closure_unlock ws t quiet ≡ ok tt (hold none t quiet)
  unlock_t =
      Closure_unlock_lem ws t quiet (nz code fuel ws t w xs s h)
        (ap (λ (c : Closure). c.magic) (quiet-t code fuel ws t w xs s h) ∙ h.alive)
        (ap (λ (c : Closure). c.mutex_owner) (quiet-t code fuel ws t w xs s h))

  quiet_closures : (hold none t quiet).closure ≡ (polled t [] m s).closure
  unfolding hold polled both hold_deque
  quiet_closures = fun_ext (λ j. elim (Bool-cases (t == j)) [
    | inl e ↦ rw e (
        rw (==_refl t) (
          ap (λ (o : Option ℕ). record (s.closure t) { mutex_owner = o; complete_inlets = [] })
            (sym h.free)))
    | inr e ↦ rw e refl
  ])

  quiet_deques : (hold_deque none ws (hold none t quiet)).deques ≡ s.deques
  unfolding hold polled both hold_deque
  quiet_deques = rw (==_refl ws) (
      rw (update_twice s.deques ws (record (s.deques ws) { mutex_owner = some ws })) (
        update_same s.deques ws _
          (ap (λ (o : Option ℕ). record (s.deques ws) { mutex_owner = o }) (sym h.deque_free))))

  pub restored : hold_deque none ws (hold none t quiet) ≡ polled t [] m s
  unfolding hold polled both hold_deque
  restored = λ i. record s { closure = quiet_closures i; deques = quiet_deques i; memory = m }

  -- A worker that syncs at the top of its stack, in a closure with no children left that is not being
  -- aborted, and with inlets none of which asks for an abort, goes on: its inlets have been run in their
  -- order, and nothing else is changed, no lock is held.
  pub Cilk_sync-proceeds :
      (s.closure t).join_counter ≡ 0
      → Quiet code (s.closure t).frame (s.closure t).complete_inlets s.memory
      → Cilk_sync code fuel ws s ≡ ok false (polled t [] m s)
  unfolding unlock_bottom
  Cilk_sync-proceeds j q =
      rw (sync_start code fuel ws t w xs s h q, ==_eq j)
        (rw (unlock_t, deque_unlock_lem ws ws (hold none t quiet)) (ap (ok false) restored))
