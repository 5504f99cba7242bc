-- ===== src/Runtime/Sched/Steal/Take.antt =====
-- Closure_steal of runtime/sched.c takes a ready closure.
use cilk.Common.{
  ℕ, ◌≡◌, ◌≢◌, refl, sym, ◌∙◌, ap, true, none, some, List, ◌∷◌, update, ==_refl, ==_eq, subst,
  Returns, Returns-bind, ◌==◌, check, pure, ◌>>◌,
}
use cilk.Runtime.Sched.State.{Status, Closure, Sched, is_no_abort}
use cilk.Runtime.Sched.Deque.{deque_unlock, deque_xtract_top}
use cilk.Runtime.Sched.Deque.Repr.{IsDeque}
use cilk.Runtime.Sched.Deque.Top.{deque_xtract_top_lem, Taken}
use cilk.Runtime.Sched.Closure.{Closure_unlock}
use cilk.Runtime.Sched.Steal.{Closure_steal, steal_ready, steal_by_status}
use cilk.Runtime.Sched.Steps.{
  hold, hold_deque, deque_unlock_lem, Closure_unlock_lem, hold_deque-IsDeque,
}
use cilk.Runtime.Sched.Steal.Leave.{IsOpen, both, both-owner, both-same, nz, steal_status, restore}

-- `x` has left the deque `v` of `x ∷ xs`, for good: nothing is locked, no closure is changed.
pub record Stolen (s s' : Sched) (v x : ℕ) (xs : List ℕ) : Type 0 where
  pub deque : IsDeque s' v xs
  pub owner : (s'.links x).owner_ready_deque ≡ none
  pub closure : s'.closure ≡ s.closure
  pub deque_free : (s'.deques v).mutex_owner ≡ none
  pub others : (qn : ℕ) (ys : List ℕ) → qn ≢ v → IsDeque s qn ys → IsDeque s' qn ys

hold-IsDeque :
    (x : ℕ) (s : Sched) (qn : ℕ) (ys : List ℕ) → IsDeque s qn ys → IsDeque (hold none x s) qn ys
unfolding hold
hold-IsDeque x s qn ys e = record {
  links = e.links;
  top = e.top;
  bottom = e.bottom;
  distinct = e.distinct;
}

module _ (ws v x : ℕ) (xs : List ℕ) (s : Sched) (h : IsOpen s v x xs) where
  closure_back : (hold none x (both ws v x s)).closure ≡ s.closure
  unfolding hold_deque
  closure_back = ap (λ (q : Sched). q.closure) (restore ws v x xs s h)

  both-IsDeque : (qn : ℕ) (ys : List ℕ) → IsDeque s qn ys → IsDeque (both ws v x s) qn ys
  unfolding both hold
  both-IsDeque qn ys d =
      let e = hold_deque-IsDeque (some ws) v qn s ys d in
      record { links = e.links; top = e.top; bottom = e.bottom; distinct = e.distinct }

  both-deque_owner : ((both ws v x s).deques v).mutex_owner ≡ some ws
  unfolding both hold hold_deque
  both-deque_owner = rw (==_refl v) refl

  -- both locks are released after the extraction
  released :
      (s1 : Sched)
      → Taken (both ws v x s) s1 v x xs
      → Stolen s (hold_deque none v (hold none x s1)) v x xs
  unfolding hold_deque hold
  released s1 t =
      let d = λ (qn : ℕ) (ys : List ℕ) (e : IsDeque s1 qn ys).
        hold_deque-IsDeque none v qn (hold none x s1) ys (hold-IsDeque x s1 qn ys e) in
      record {
        deque = d v xs t.deque;
        owner = t.owner;
        closure =
            subst
              (λ (f : ℕ → Closure). update f x (record (f x) { mutex_owner = none }) ≡ s.closure)
              (sym t.only.closure) closure_back;
        deque_free = rw (==_refl v) refl;
        others = λ qn ys ne e. d qn ys (t.only.others qn ys ne (both-IsDeque qn ys e));
      }

  s1_closure :
      {B : Type 0} (f : Closure → B) (s1 : Sched)
      → Taken (both ws v x s) s1 v x xs
      → f (s1.closure x) ≡ f ((both ws v x s).closure x)
  s1_closure f s1 t = ap (λ (g : ℕ → Closure). f (g x)) t.only.closure

  unlock_both :
      (r : ℕ) (s1 : Sched)
      → r ≡ x
      → Taken (both ws v x s) s1 v x xs
      → Returns
          ((do check (x == r); Closure_unlock ws x; deque_unlock ws v; pure r) s1)
          (λ r s'. (r ≡ x) × Stolen s s' v x xs)
  unlock_both r s1 e t = rw (==_eq (sym e)) (
      rw
        (Closure_unlock_lem ws x s1 (nz ws v x xs s h)
          (s1_closure (λ c. c.magic) s1 t
            ∙ both-same ws v x (λ c. c.magic) s (λ c o. refl)
            ∙ h.alive)
          (s1_closure (λ c. c.mutex_owner) s1 t ∙ both-owner ws v x s))
        (rw (deque_unlock_lem ws v (hold none x s1)) (e, released s1 t)))

  steal_ready_lem :
      Returns (steal_ready ws v x (both ws v x s)) (λ r s'. (r ≡ x) × Stolen s s' v x xs)
  unfolding steal_ready
  steal_ready_lem =
      Returns-bind (deque_xtract_top ws v (both ws v x s)) _ _ _
        (deque_xtract_top_lem ws v x xs (both ws v x s) both-deque_owner
          (both-IsDeque v (x ∷ xs) h.deque))
        (λ r s1 t. unlock_both r s1 t.0 t.1)

  -- A thief that finds a free deque with a free closure at its top that is ready and not being aborted
  -- takes it: the deque holds the others, the closure is in no deque, no closure is changed, the deque
  -- is unlocked, and the other deques are as before.
  pub Closure_steal-takes :
      is_no_abort (s.closure x).abort_status ≡ true
      → (s.closure x).status ≡ Status.ready
      → Returns (Closure_steal ws v s) (λ r s'. (r ≡ x) × Stolen s s' v x xs)
  unfolding steal_by_status
  Closure_steal-takes a r = rw (steal_status ws v x xs s h a, r) steal_ready_lem
