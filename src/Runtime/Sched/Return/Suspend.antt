-- ===== src/Runtime/Sched/Return/Suspend.antt =====
-- Cilk_sync of runtime/sched.c where children are left: Closure_suspend.
use cilk.Common.{
  ℕ, ◌≡◌, ◌≢◌, refl, sym, ◌∙◌, ap, subst, true, Option, none, some, List, [], ◌∷◌, ◌++◌, update,
  ==_ne, ==_refl, ==_eq, ◌==◌, fun_ext, Bool-cases, inl, inr, Returns, Returns-bind, ◌>>◌, pure,
}
use cilk.Runtime.Sched.State.{Status, Closure, Sched, Memory, assign}
use cilk.Runtime.Sched.Closure.{Closure_checkmagic}
use cilk.Runtime.Sched.Deque.{deque_assert_ownership, deque_xtract_bottom}
use cilk.Runtime.Sched.Deque.Repr.{IsDeque, opt_eq_self}
use cilk.Runtime.Sched.Deque.Top.{Taken}
use cilk.Runtime.Sched.Deque.Bottom.{deque_xtract_bottom_lem}
use cilk.Runtime.Sched.Inlets.{InletCode}
use cilk.Runtime.Sched.Inlets.Poll.{Quiet, polled}
use cilk.Runtime.Sched.Return.{Cilk_sync, Closure_suspend, unlock_bottom}
use cilk.Runtime.Sched.Steps.{
  hold, hold_deque, deque_unlock_lem, Closure_unlock_lem, Closure_assert_ownership_lem,
  hold_deque-IsDeque,
}
use cilk.Runtime.Sched.Steal.Leave.{both}
use cilk.Runtime.Sched.Return.Sync.{
  CanSync, nz, after_inlets, final_memory, quiet-t, quiet-owner, quiet-IsDeque, sync_start,
}

-- The closure waits, its inlets have been run.
abbrev waiting : Closure → Closure
waiting c = record c { status = Status.suspended; complete_inlets = [] }

-- `t` has left the bottom of the deque of `ws`: it waits in no deque, with its inlets run, which left
-- the memory `m`. Nothing is locked, the other closures and deques are as before.
pub record Suspended (s s' : Sched) (ws t : ℕ) (xs : List ℕ) (m : Memory) : Type 0 where
  pub deque : IsDeque s' ws xs
  pub owner : (s'.links t).owner_ready_deque ≡ none
  pub closure : s'.closure ≡ update s.closure t (waiting (s.closure t))
  pub deque_free : (s'.deques ws).mutex_owner ≡ none
  pub others : (qn : ℕ) (ys : List ℕ) → qn ≢ ws → IsDeque s qn ys → IsDeque s' qn ys
  pub memory : s'.memory ≡ m

unfoldable asleep : ℕ → Sched → Sched
asleep t s = record s {
  closure = update s.closure t (record (s.closure t) { status = Status.suspended });
}

asleep-IsDeque : (t qn : ℕ) (s : Sched) (ys : List ℕ) → IsDeque s qn ys → IsDeque (asleep t s) qn ys
unfolding asleep
asleep-IsDeque t qn s ys d = record {
  links = d.links;
  top = d.top;
  bottom = d.bottom;
  distinct = d.distinct;
}

hold-IsDeque :
    (t : ℕ) (s : Sched) (qn : ℕ) (ys : List ℕ) → IsDeque s qn ys → IsDeque (hold none t s) qn ys
unfolding hold
hold-IsDeque t s qn ys d = record {
  links = d.links;
  top = d.top;
  bottom = d.bottom;
  distinct = d.distinct;
}

module _ (ws t : ℕ) (xs : List ℕ) (q : Sched) (n : t ≢ 0) (d : IsDeque q ws (xs ++ (t ∷ [])))
    (o : (q.deques ws).mutex_owner ≡ some ws) (r : (q.closure t).status ≡ Status.running)
    (l : (q.closure t).mutex_owner ≡ some ws) (a : (q.closure t).magic ≡ true) where
  Closure_suspend_lem : Returns (Closure_suspend ws t q) (λ u s'. Taken (asleep t q) s' ws t xs)
  unfolding Closure_suspend Closure_checkmagic deque_assert_ownership assign
  Closure_suspend_lem = rw (==_ne n) (
      rw a (
        rw (Closure_assert_ownership_lem ws t q n l, opt_eq_self o)
          (rw (==_ne n) (
            rw r (
              rw (==_ne n) (
                unfold asleep in
                Returns-bind (deque_xtract_bottom ws ws (asleep t q)) _ _ _
                  (deque_xtract_bottom_lem ws ws t xs (asleep t q) o (asleep-IsDeque t ws q _ d))
                  (λ cl1 s1 p. rw (==_eq (sym p.0)) p.1)))))))

module _ (code : InletCode) (fuel ws t w : ℕ) (xs : List ℕ) (s : Sched)
    (h : CanSync s ws t w xs) where
  abbrev quiet : Sched
  quiet = after_inlets code ws t s

  quiet_closures :
      (hold none t (asleep t quiet)).closure ≡ update s.closure t (waiting (s.closure t))
  unfolding asleep hold polled both hold_deque
  quiet_closures = fun_ext (λ j. elim (Bool-cases (t == j)) [
    | inl e ↦ rw e (
        rw (==_refl t)
          (ap (λ (o : Option ℕ). record (waiting (s.closure t)) { mutex_owner = o }) (sym h.free)))
    | inr e ↦ rw e refl
  ])

  quiet_others : (qn : ℕ) (ys : List ℕ) → IsDeque s qn ys → IsDeque (asleep t quiet) qn ys
  unfolding polled both hold
  quiet_others qn ys d =
      let e = hold_deque-IsDeque (some ws) ws qn s ys d in
      asleep-IsDeque t qn quiet ys
        (record { links = e.links; top = e.top; bottom = e.bottom; distinct = e.distinct })

  quiet_memory : (asleep t quiet).memory ≡ final_memory code t s
  unfolding asleep polled
  quiet_memory = refl

  -- both locks are released
  released :
      (s1 : Sched)
      → Taken (asleep t quiet) s1 ws t xs
      → Suspended s (hold_deque none ws (hold none t s1)) ws t xs (final_memory code t s)
  unfolding hold_deque hold
  released s1 p =
      let d = λ (qn : ℕ) (ys : List ℕ) (e : IsDeque s1 qn ys).
        hold_deque-IsDeque none ws qn (hold none t s1) ys (hold-IsDeque t s1 qn ys e) in
      record {
        deque = d ws xs p.deque;
        owner = p.owner;
        closure =
            subst
              (λ (f : ℕ → Closure).
                update f t (record (f t) { mutex_owner = none })
                ≡ update s.closure t (waiting (s.closure t)))
              (sym p.only.closure) quiet_closures;
        deque_free = rw (==_refl ws) refl;
        others = λ qn ys ne e. d qn ys (p.only.others qn ys ne (quiet_others qn ys e));
        memory = p.only.memory ∙ quiet_memory;
      }

  asleep_magic : ((asleep t quiet).closure t).magic ≡ true
  unfolding asleep
  asleep_magic =
      rw (==_refl t) (ap (λ (c : Closure). c.magic) (quiet-t code fuel ws t w xs s h) ∙ h.alive)

  asleep_owner : ((asleep t quiet).closure t).mutex_owner ≡ some ws
  unfolding asleep
  asleep_owner =
      rw (==_refl t) (ap (λ (c : Closure). c.mutex_owner) (quiet-t code fuel ws t w xs s h))

  unlock_lem :
      (s1 : Sched)
      → Taken (asleep t quiet) s1 ws t xs
      → Returns
          ((do unlock_bottom ws t; pure true) s1)
          (λ r s'. (r ≡ true) × Suspended s s' ws t xs (final_memory code t s))
  unfolding unlock_bottom
  unlock_lem s1 p =
      rw
        (Closure_unlock_lem ws t s1 (nz code fuel ws t w xs s h)
          (ap (λ (f : ℕ → Closure). (f t).magic) p.only.closure ∙ asleep_magic)
          (ap (λ (f : ℕ → Closure). (f t).mutex_owner) p.only.closure ∙ asleep_owner))
        (rw (deque_unlock_lem ws ws (hold none t s1)) (refl, released s1 p))

  suspend_lem : Returns (Closure_suspend ws t quiet) (λ u s'. Taken (asleep t quiet) s' ws t xs)
  suspend_lem =
      let e = quiet-t code fuel ws t w xs s h in
      Closure_suspend_lem ws t xs quiet (nz code fuel ws t w xs s h)
        (quiet-IsDeque code fuel ws t w xs s h) (quiet-owner code fuel ws t w xs s h)
        (ap (λ (c : Closure). c.status) e ∙ h.running) (ap (λ (c : Closure). c.mutex_owner) e)
        (ap (λ (c : Closure). c.magic) e ∙ h.alive)

  -- A worker that syncs at the top of its stack, in a closure that has children left and is not being
  -- aborted, and with inlets none of which asks for an abort, is told to give the closure up: the inlets
  -- have been run in their order, the closure is suspended and has left the bottom of the deque, no lock
  -- is held, and the other closures and deques are as before.
  pub Cilk_sync-suspends :
      (s.closure t).join_counter ≢ 0
      → Quiet code (s.closure t).frame (s.closure t).complete_inlets s.memory
      → Returns
          (Cilk_sync code fuel ws s)
          (λ r s'. (r ≡ true) × Suspended s s' ws t xs (final_memory code t s))
  Cilk_sync-suspends j q =
      rw (sync_start code fuel ws t w xs s h q, ==_ne j)
        (Returns-bind (Closure_suspend ws t quiet) _ (λ u s'. Taken (asleep t quiet) s' ws t xs) _
          suspend_lem (λ u s1 p. unlock_lem s1 p))
