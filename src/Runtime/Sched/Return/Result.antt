-- ===== src/Runtime/Sched/Return/Result.antt =====
-- Cilk_set_result and Cilk_after_sync_slow_cp of runtime/sched.c.
use cilk.Common.{
  ℕ, ◌+◌, ◌≡◌, refl, sym, ◌∙◌, ap, false, Option, none, some, List, ok, update, update_twice,
  update_same, max, ==_ne, ==_refl, ==_eq, ◌==◌, ltb, if◌then◌else◌, fun_ext, Bool-cases, inl, inr,
  arith,
}
use cilk.Runtime.Sched.State.{Status, Closure, Sched, is_almost, assign}
use cilk.Runtime.Sched.Closure.{Closure_at_top_of_stack}
use cilk.Runtime.Sched.Inlets.{InletCode}
use cilk.Runtime.Sched.Return.{
  Cilk_set_result, Cilk_after_sync_slow_cp, unlock_bottom, move_result_into_closure,
}
use cilk.Runtime.Sched.Deque.Snoc.{Links-last}
use cilk.Runtime.Sched.Steps.{
  hold, hold_deque, deque_unlock_lem, Closure_unlock_lem, Closure_assert_ownership_lem,
}
use cilk.Runtime.Sched.Steal.Leave.{both}
use cilk.Runtime.Sched.Return.Sync.{
  CanSync, nz, lock_bottom_lem, working_lem, held_cache, top_lem, held-t,
}

-- the closure `t` is changed by `f`
pub changed : (Closure → Closure) → ℕ → Sched → Sched
changed f t s = record s { closure = update s.closure t (f (s.closure t)) }

-- the times of a closure start again
abbrev pub no_time : Closure → Closure
no_time c = record c { cp = 0; work = 0 }

-- a closure that returns the object `result` of `size` bytes
abbrev pub with_result : Option ℕ → ℕ → Closure → Closure
with_result result size c = record c {
  status = Status.returning;
  frame = 0;
  return_size = size;
  return_value = if size == 0 then none else result;
}

-- the owner of a closure's lock is changed, and nothing else
abbrev owned : Option ℕ → Closure → Closure
owned o c = record c { mutex_owner = o }

changed-changed :
    (f g : Closure → Closure) (t : ℕ) (s : Sched)
    → changed g t (changed f t s) ≡ changed (λ c. g (f c)) t s
unfolding changed
changed-changed f g t s = rw (update_twice s.closure t (f (s.closure t))) (rw (==_refl t) refl)

module _ (ws t w : ℕ) (xs : List ℕ) (s : Sched) (h : CanSync s ws t w xs) (f : Closure → Closure)
    (owner : (c : Closure) (o : Option ℕ) → f (owned o c) ≡ owned o (f c))
    (magic : (c : Closure) → (f c).magic ≡ c.magic) where
  abbrev q : Sched
  q = changed f t (both ws ws t s)

  q-t : q.closure t ≡ owned (some ws) (f (s.closure t))
  unfolding changed both hold hold_deque
  q-t = rw (==_refl t) (owner (s.closure t) (some ws))

  free_again : owned none (f (owned (some ws) (s.closure t))) ≡ f (s.closure t)
  free_again =
      let c = s.closure t in
      ap (owned none) (owner c (some ws))
      ∙ sym (owner c none)
      ∙ ap (λ (o : Option ℕ). f (owned o c)) (sym h.free)

  restored_closures : (hold none t q).closure ≡ (changed f t s).closure
  unfolding hold changed both hold_deque
  restored_closures = fun_ext (λ j. elim (Bool-cases (t == j)) [
    | inl e ↦ rw e (rw (==_refl t) free_again)
    | inr e ↦ rw e refl
  ])

  restored_deques : (hold_deque none ws (hold none t q)).deques ≡ s.deques
  unfolding hold changed both hold_deque
  restored_deques = rw (==_refl ws) (
      rw (update_twice s.deques ws (record (s.deques ws) { mutex_owner = some ws })) (
        update_same s.deques ws _
          (ap (λ (o : Option ℕ). record (s.deques ws) { mutex_owner = o }) (sym h.deque_free))))

  restored : hold_deque none ws (hold none t q) ≡ changed f t s
  unfolding hold changed both hold_deque
  restored = λ i. record s { closure = restored_closures i; deques = restored_deques i }

  -- both locks are released
  pub unlock_changed : unlock_bottom ws t q ≡ ok tt (changed f t s)
  unfolding unlock_bottom
  unlock_changed =
      rw
        (Closure_unlock_lem ws t q (Links-last s.links ws 0 t xs h.deque.links).0
          (ap (λ (c : Closure). c.magic) q-t ∙ magic (s.closure t) ∙ h.alive)
          (ap (λ (c : Closure). c.mutex_owner) q-t))
        (rw (deque_unlock_lem ws ws (hold none t q)) (ap (ok tt) restored))

-- what is proved of locks does not depend on the inlets
abbrev code : InletCode
code inlet frame args receiver m = (m, false)

module _ (ws t w : ℕ) (xs : List ℕ) (s : Sched) (h : CanSync s ws t w xs) where
  abbrev m : Sched
  m = both ws ws t s

  longer : (a b : ℕ) → (if ltb a b then b else a) ≡ max a b
  longer a b = ground arith

  time : (m.closure t).cp ≡ (s.closure t).cp
  time = ap (λ (c : Closure). c.cp) (held-t code 0 ws t w xs s h)

  unlock_untimed :
      unlock_bottom ws t
        (record m { closure = update m.closure t (record (m.closure t) { cp = 0; work = 0 }) })
      ≡ ok tt (changed no_time t s)
  unlock_untimed = unfold changed in unlock_changed ws t w xs s h no_time (λ c o. refl) (λ c. refl)

  -- After a sync a worker at the top of its stack is given the work of the children on top of its own, and
  -- the longer of the two critical paths; the closure's own start at 0 again, no lock is held, and
  -- nothing else is changed.
  pub Cilk_after_sync_slow_cp_lem :
      (work cp : ℕ)
      → Cilk_after_sync_slow_cp ws (work, cp) s
        ≡ ok (work + (s.closure t).work, max cp (s.closure t).cp) (changed no_time t s)
  unfolding Cilk_after_sync_slow_cp Closure_at_top_of_stack assign
  Cilk_after_sync_slow_cp_lem work cp =
      rw
        (
          lock_bottom_lem code 0 ws t w xs s h,
          working_lem code 0 ws t w xs s h,
          held_cache code 0 ws t w xs s h,
        )
        (rw (==_eq (top_lem code 0 ws t w xs s h)) (
          rw (==_ne (nz code 0 ws t w xs s h)) (
            rw (==_ne (nz code 0 ws t w xs s h)) (
              rw unlock_untimed (
                rw (longer cp (m.closure t).cp) (
                  ap (λ (c : Closure). ok (work + c.work, max cp c.cp) (changed no_time t s))
                    (held-t code 0 ws t w xs s h)))))))

  abbrev m1 : Sched
  m1 = record m {
    closure = update m.closure t (record (m.closure t) { status = Status.returning; frame = 0 });
  }

  move_lem :
      (result : Option ℕ) (size : ℕ)
      → move_result_into_closure ws t result size m1 ≡ ok tt (changed (with_result result size) t m)
  unfolding move_result_into_closure assign changed
  move_lem result size =
      rw
        (Closure_assert_ownership_lem ws t m1 (nz code 0 ws t w xs s h)
          (rw (==_refl t) (ap (λ (c : Closure). c.mutex_owner) (held-t code 0 ws t w xs s h))))
        (rw (==_ne (nz code 0 ws t w xs s h)) (
          ap (λ (f : ℕ → Closure). ok tt (record m { closure = f }))
            (rw
              (update_twice m.closure t
                (record (m.closure t) { status = Status.returning; frame = 0 }))
              (rw (==_refl t) refl))))

  -- A worker that sets the result of the closure at the bottom of its deque leaves it returning, without a
  -- frame, and with the result where it has a size; no lock is held, and nothing else is changed.
  pub Cilk_set_result_lem :
      (result : Option ℕ) (size : ℕ)
      → Cilk_set_result ws result size s ≡ ok tt (changed (with_result result size) t s)
  unfolding Cilk_set_result assign
  Cilk_set_result_lem result size =
      rw (lock_bottom_lem code 0 ws t w xs s h, working_lem code 0 ws t w xs s h)
        (rw (==_ne (nz code 0 ws t w xs s h)) (
          rw
            (ap (λ (c : Closure). is_almost c.abort_status) (held-t code 0 ws t w xs s h)
              ∙ ap is_almost h.going)
            (rw (==_ne (nz code 0 ws t w xs s h)) (
              rw (move_lem result size) (
                unlock_changed ws t w xs s h (with_result result size) (λ c o. refl)
                  (λ c. refl))))))
