-- ===== src/Runtime/Sched/Steps.antt =====
-- What the locks of runtime/sched.c do to the state.
use cilk.Common.{
  ℕ, ◌≡◌, ◌≢◌, refl, sym, ◌∙◌, ap, true, Option, none, some, List, ok, fault, deadlock, update,
  update_twice, update_same, ==_ne, ==_refl, Bool-cases, inl, inr, ◌==◌, ==_true, subst,
}
use cilk.Runtime.Sched.State.{Sched, assign, assign_deque}
use cilk.Runtime.Sched.Deque.{deque_lock, deque_unlock}
use cilk.Runtime.Sched.Deque.Repr.{IsDeque, opt_eq_self}
use cilk.Runtime.Sched.Closure.{
  Closure_checkmagic, Closure_assert_ownership, Closure_lock, Closure_unlock, take_mutex,
}

-- the lock of the deque `pn` is with `o`
unfoldable pub hold_deque : Option ℕ → ℕ → Sched → Sched
hold_deque o pn s = record s {
  deques = update s.deques pn (record (s.deques pn) { mutex_owner = o });
}

-- the lock of the closure `t` is with `o`
unfoldable pub hold : Option ℕ → ℕ → Sched → Sched
hold o t s = record s { closure = update s.closure t (record (s.closure t) { mutex_owner = o }) }

pub deque_lock_lem :
    (ws pn : ℕ) (s : Sched)
    → (s.deques pn).mutex_owner ≡ none
    → deque_lock ws pn s ≡ ok tt (hold_deque (some ws) pn s)
unfolding deque_lock hold_deque
deque_lock_lem ws pn s e =
    subst
      (λ o.
        elim o [
          | none ↦ assign_deque pn (λ d. record d { mutex_owner = some ws }) s
          | some w ↦ fault deadlock
        ]
        ≡ ok tt (hold_deque (some ws) pn s))
      (sym e) refl

pub deque_unlock_lem : (ws pn : ℕ) (s : Sched) → deque_unlock ws pn s ≡ ok tt (hold_deque none pn s)
unfolding deque_unlock hold_deque
deque_unlock_lem ws pn s = refl

pub Closure_lock_lem :
    (ws t : ℕ) (s : Sched)
    → t ≢ 0
    → (s.closure t).magic ≡ true
    → (s.closure t).mutex_owner ≡ none
    → Closure_lock ws t s ≡ ok tt (hold (some ws) t s)
unfolding Closure_lock Closure_checkmagic take_mutex assign
Closure_lock_lem ws t s nz m o =
    rw (==_ne nz) (rw m (rw (==_ne nz) (rw o (rw (==_ne nz) (unfold hold in refl)))))

pub Closure_unlock_lem :
    (ws t : ℕ) (s : Sched)
    → t ≢ 0
    → (s.closure t).magic ≡ true
    → (s.closure t).mutex_owner ≡ some ws
    → Closure_unlock ws t s ≡ ok tt (hold none t s)
unfolding Closure_unlock Closure_checkmagic Closure_assert_ownership assign
Closure_unlock_lem ws t s nz m o =
    rw (==_ne nz) (rw m (rw (==_ne nz) (rw (opt_eq_self o) (rw (==_ne nz) (unfold hold in refl)))))

pub Closure_assert_ownership_lem :
    (ws t : ℕ) (s : Sched)
    → t ≢ 0
    → (s.closure t).mutex_owner ≡ some ws
    → Closure_assert_ownership ws t s ≡ ok tt s
unfolding Closure_assert_ownership
Closure_assert_ownership_lem ws t s nz o = rw (==_ne nz) (rw (opt_eq_self o) refl)

-- A lock taken and released is as it was.
pub hold-hold :
    (o : Option ℕ) (t : ℕ) (s : Sched)
    → (s.closure t).mutex_owner ≡ none
    → hold none t (hold o t s) ≡ s
unfolding hold
hold-hold o t s e = rw (update_twice s.closure t (record (s.closure t) { mutex_owner = o })) (
    rw (==_refl t) (
      ap (λ f. record s { closure = f })
        (update_same s.closure t _
          (ap (λ (q : Option ℕ). record (s.closure t) { mutex_owner = q }) (sym e)))))

pub hold_deque-hold_deque :
    (o : Option ℕ) (pn : ℕ) (s : Sched)
    → (s.deques pn).mutex_owner ≡ none
    → hold_deque none pn (hold_deque o pn s) ≡ s
unfolding hold_deque
hold_deque-hold_deque o pn s e =
    rw (update_twice s.deques pn (record (s.deques pn) { mutex_owner = o })) (
      rw (==_refl pn) (
        ap (λ f. record s { deques = f })
          (update_same s.deques pn _
            (ap (λ (q : Option ℕ). record (s.deques pn) { mutex_owner = q }) (sym e)))))

-- The lock of a deque does not matter to what it holds.
pub hold_deque-IsDeque :
    (o : Option ℕ) (pn qn : ℕ) (s : Sched) (xs : List ℕ)
    → IsDeque s qn xs
    → IsDeque (hold_deque o pn s) qn xs
unfolding hold_deque
hold_deque-IsDeque o pn qn s xs d = record {
  links = d.links;
  top = elim (Bool-cases (pn == qn)) [
    | inl e ↦ rw e (ap (λ i. (s.deques i).top) (==_true e) ∙ d.top)
    | inr e ↦ rw e d.top
  ];
  bottom = elim (Bool-cases (pn == qn)) [
    | inl e ↦ rw e (ap (λ i. (s.deques i).bottom) (==_true e) ∙ d.bottom)
    | inr e ↦ rw e d.bottom
  ];
  distinct = d.distinct;
}
