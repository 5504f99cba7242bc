-- ===== src/Runtime/Sched/Inlets/GoodSteal.antt =====
-- provably_good_steal_maybe of runtime/sched.c.
use cilk.Common.{
  ℕ, ◌≡◌, ◌≢◌, refl, ap, false, none, [], ok, update, update_twice, ==_ne, ==_refl, ==_eq, ◌⊎◌, inl,
  inr, Bool-cases, ◌==◌,
}
use cilk.Runtime.Sched.State.{Status, Sched, Memory, is_suspended, is_running, assign}
use cilk.Runtime.Sched.Closure.{Closure_has_children}
use cilk.Runtime.Sched.Steal.{Closure_make_ready}
use cilk.Runtime.Sched.Inlets.{InletCode, provably_good_steal_maybe}
use cilk.Runtime.Sched.Steps.{Closure_assert_ownership_lem}
use cilk.Runtime.Sched.Inlets.Poll.{IsHeld, Quiet, run_all, polled, poll_inlets_lem}

-- `p` is ready, with no inlet and no cache, and the memory is `m`
pub made_ready : ℕ → Memory → Sched → Sched
made_ready p m s = record s {
  closure =
      update s.closure p
        (record (s.closure p) { complete_inlets = []; cache = none; status = Status.ready });
  memory = m;
}

module _ (code : InletCode) (fuel ws p : ℕ) (s : Sched) (h : IsHeld ws p s) where
  -- A worker that holds a closure gets nothing, and changes nothing, if the closure has children or is
  -- not suspended.
  pub good_steal-declines :
      ((s.closure p).join_counter ≢ 0) ⊎ (is_suspended (s.closure p).status ≡ false)
      → provably_good_steal_maybe code fuel ws p s ≡ ok 0 s
  unfolding provably_good_steal_maybe Closure_has_children
  good_steal-declines (inl j) =
      rw (Closure_assert_ownership_lem ws p s h.there h.locked)
        (rw (==_ne h.there) (rw (==_ne j) refl))
  good_steal-declines (inr e) = rw (Closure_assert_ownership_lem ws p s h.there h.locked) (
      rw (==_ne h.there) (
        rw e (elim (Bool-cases ((s.closure p).join_counter == 0)) [
          | inl j ↦ rw j refl
          | inr j ↦ rw j refl
        ])))

  ready_after : (m : Memory) → Closure_make_ready p (polled p [] m s) ≡ ok tt (made_ready p m s)
  unfolding Closure_make_ready polled made_ready assign
  ready_after m = rw (==_ne h.there) (
      rw (update_twice s.closure p (record (s.closure p) { complete_inlets = [] }))
        (rw (==_refl p) refl))

  polled-owner :
      (m : Memory) → ((polled p [] m s).links p).owner_ready_deque ≡ (s.links p).owner_ready_deque
  unfolding polled
  polled-owner m = refl

  -- A worker that holds a suspended closure with no children left, in no deque, not being aborted, with
  -- inlets none of which asks for an abort, gets that closure: it is ready, its inlets have been run in
  -- their order, and nothing else is changed.
  pub good_steal-takes :
      (s.closure p).join_counter ≡ 0
      → (s.closure p).status ≡ Status.suspended
      → (s.links p).owner_ready_deque ≡ none
      → Quiet code (s.closure p).frame (s.closure p).complete_inlets s.memory
      → provably_good_steal_maybe code fuel ws p s
        ≡ ok p (
            made_ready p
              (run_all code (s.closure p).frame (s.closure p).complete_inlets s.memory)
              s)
  unfolding provably_good_steal_maybe Closure_has_children
  good_steal-takes j st o q =
      let m = run_all code (s.closure p).frame (s.closure p).complete_inlets s.memory in
      rw (Closure_assert_ownership_lem ws p s h.there h.locked) (
        rw (==_ne h.there) (
          rw (==_eq j, st)
            (rw (poll_inlets_lem code fuel ws p s h (inl (ap is_running st)) q)
              (rw (==_ne h.there) (rw (polled-owner m, o) (rw (ready_after m) refl))))))
