-- ===== src/Runtime/Sched/Steal/Leave.antt =====
-- When Closure_steal of runtime/sched.c gives up.
use cilk.Common.{
  ℕ, ◌+◌, ◌≡◌, ◌≢◌, ◌≤◌, refl, sym, ◌∙◌, ap, true, false, not, Option, none, some, List, [], ◌∷◌,
  ok, ==_ne, ==_refl, subst, ◌⊎◌, inl, inr, Bool-cases,
}
use cilk.Runtime.Sched.State.{Status, Closure, Sched, is_no_abort}
use cilk.Runtime.Sched.Deque.Repr.{IsDeque}
use cilk.Runtime.Sched.Deque.Top.{deque_peek_top_lem}
use cilk.Runtime.Sched.Abort.{Closure_being_aborted}
use cilk.Runtime.Sched.Steal.{Closure_steal, steal_locked, leave_alone, steal_by_status}
use cilk.Runtime.Sched.Steal.Dekker.{RunsOn, dekker-loses}
use cilk.Runtime.Sched.Steps.{
  hold, hold_deque, deque_lock_lem, deque_unlock_lem, Closure_lock_lem, Closure_unlock_lem,
  Closure_assert_ownership_lem, hold-hold, hold_deque-hold_deque, hold_deque-IsDeque,
}

-- The thief `ws` looks at a free deque with `x` at its top, and nobody holds `x`.
pub record IsOpen (s : Sched) (v x : ℕ) (xs : List ℕ) : Type 0 where
  pub deque_free : (s.deques v).mutex_owner ≡ none
  pub deque : IsDeque s v (x ∷ xs)
  pub alive : (s.closure x).magic ≡ true
  pub free : (s.closure x).mutex_owner ≡ none

module _ (ws v x : ℕ) where
  -- The state of a thief that holds both locks.
  unfoldable pub both : Sched → Sched
  both s = hold (some ws) x (hold_deque (some ws) v s)

  pub both-owner : (s : Sched) → ((both s).closure x).mutex_owner ≡ some ws
  unfolding both hold
  both-owner s = rw (==_refl x) refl

  pub both-same :
      {B : Type 0} (f : Closure → B) (s : Sched)
      → ((c : Closure) (o : Option ℕ) → f (record c { mutex_owner = o }) ≡ f c)
      → f ((both s).closure x) ≡ f (s.closure x)
  unfolding both hold hold_deque
  both-same f s h = rw (==_refl x) (h (s.closure x) (some ws))

module _ (ws v x : ℕ) (xs : List ℕ) (s : Sched) (h : IsOpen s v x xs) where
  pub nz : x ≢ 0
  nz = h.deque.links.0

  pub steal_start : Closure_steal ws v s ≡ steal_locked ws v x (both ws v x s)
  unfolding Closure_steal both
  steal_start = rw (deque_lock_lem ws v s h.deque_free) (
      rw
        (deque_peek_top_lem ws v (x ∷ xs) (hold_deque (some ws) v s)
          (unfold hold_deque in rw (==_refl v) refl)
          (hold_deque-IsDeque (some ws) v v s (x ∷ xs) h.deque))
        (rw (==_ne nz) (
          rw
            (Closure_lock_lem ws x (hold_deque (some ws) v s) nz (unfold hold_deque in h.alive)
              (unfold hold_deque in h.free))
            refl)))

  pub restore : hold_deque none v (hold none x (both ws v x s)) ≡ s
  unfolding both
  restore =
      rw (hold-hold (some ws) x (hold_deque (some ws) v s) (unfold hold_deque in h.free))
        (hold_deque-hold_deque (some ws) v s h.deque_free)

  leave_alone_lem : leave_alone ws v x (both ws v x s) ≡ ok 0 s
  unfolding leave_alone
  leave_alone_lem =
      rw
        (Closure_unlock_lem ws x (both ws v x s) nz
          (both-same ws v x (λ c. c.magic) s (λ c o. refl) ∙ h.alive) (both-owner ws v x s))
        (rw (deque_unlock_lem ws v (hold none x (both ws v x s))) (ap (ok 0) restore))

  being_aborted_lem :
      Closure_being_aborted ws x (both ws v x s)
      ≡ ok (not (is_no_abort (s.closure x).abort_status)) (both ws v x s)
  unfolding Closure_being_aborted
  being_aborted_lem =
      rw (Closure_assert_ownership_lem ws x (both ws v x s) nz (both-owner ws v x s))
        (rw (==_ne nz) (rw (both-same ws v x (λ c. c.abort_status) s (λ c o. refl)) refl))

  leave-aborted : is_no_abort (s.closure x).abort_status ≡ false → Closure_steal ws v s ≡ ok 0 s
  unfolding steal_locked
  leave-aborted e = rw (steal_start, being_aborted_lem, e) (rw (==_ne nz) leave_alone_lem)

  -- A closure that is not being aborted is dealt with by its status.
  pub steal_status :
      is_no_abort (s.closure x).abort_status ≡ true
      → Closure_steal ws v s ≡ steal_by_status ws v x (s.closure x).status (both ws v x s)
  unfolding steal_locked
  steal_status e =
      rw (steal_start, being_aborted_lem, e)
        (rw (==_ne nz) (rw (both-same ws v x (λ c. c.status) s (λ c o. refl)) refl))

  -- the closure works on the cache `w` for a thief that holds both locks
  pub both-RunsOn :
      (w : ℕ)
      → (s.closure x).status ≡ Status.running
      → (s.closure x).cache ≡ some w
      → RunsOn ws x w (both ws v x s)
  both-RunsOn w r c = record {
    there = nz;
    locked = both-owner ws v x s;
    running = both-same ws v x (λ c. c.status) s (λ c o. refl) ∙ r;
    cache = both-same ws v x (λ c. c.cache) s (λ c o. refl) ∙ c;
  }

  pub both-caches : (both ws v x s).caches ≡ s.caches
  unfolding both hold hold_deque
  both-caches = refl

  leave-returning :
      is_no_abort (s.closure x).abort_status ≡ true
      → (s.closure x).status ≡ Status.returning
      → Closure_steal ws v s ≡ ok 0 s
  unfolding steal_by_status
  leave-returning a r = rw (steal_status a, r) leave_alone_lem

  leave-late :
      (w : ℕ)
      → is_no_abort (s.closure x).abort_status ≡ true
      → (s.closure x).status ≡ Status.running
      → (s.closure x).cache ≡ some w
      → (s.caches w).tail ≤ (s.caches w).head + 1
      → Closure_steal ws v s ≡ ok 0 s
  unfolding steal_by_status
  leave-late w a r c l =
      rw (steal_status a, r)
        (rw
          (dekker-loses ws x w (both ws v x s) (both-RunsOn w r c)
            (subst (λ f. (f w).tail ≤ (f w).head + 1) (sym both-caches) l))
          leave_alone_lem)

-- What a thief must leave: a closure that is being aborted, one that returns, and one whose worker
-- has no frame but the one at the head.
abbrev pub Unstealable : Sched → ℕ → Type 0
Unstealable s x =
    (is_no_abort (s.closure x).abort_status ≡ false)
    ⊎ ((s.closure x).status ≡ Status.returning)
    ⊎ (((s.closure x).status ≡ Status.running)
        × ((w : ℕ) × ((s.closure x).cache ≡ some w) × ((s.caches w).tail ≤ (s.caches w).head + 1)))

-- A thief that finds a free deque with a free closure at its top that is being aborted, returns, or
-- runs with no frame behind the one at the head gets NULL, and the state is exactly as before: both
-- locks are released and the exception is retracted.
pub Closure_steal-leaves :
    (ws v x : ℕ) (xs : List ℕ) (s : Sched)
    → IsOpen s v x xs
    → Unstealable s x
    → Closure_steal ws v s ≡ ok 0 s
Closure_steal-leaves ws v x xs s h (inl a) = leave-aborted ws v x xs s h a
Closure_steal-leaves ws v x xs s h (inr (inl r)) =
    elim (Bool-cases (is_no_abort (s.closure x).abort_status)) [
      | inl a ↦ leave-returning ws v x xs s h a r
      | inr a ↦ leave-aborted ws v x xs s h a
    ]
Closure_steal-leaves ws v x xs s h (inr (inr (r, (w, c, l)))) =
    elim (Bool-cases (is_no_abort (s.closure x).abort_status)) [
      | inl a ↦ leave-late ws v x xs s h w a r c l
      | inr a ↦ leave-aborted ws v x xs s h a
    ]

-- A thief that finds a free and empty deque gets NULL, and the state is exactly as before.
pub Closure_steal-empty :
    (ws v : ℕ) (s : Sched)
    → (s.deques v).mutex_owner ≡ none
    → IsDeque s v []
    → Closure_steal ws v s ≡ ok 0 s
unfolding Closure_steal
Closure_steal-empty ws v s f d = rw (deque_lock_lem ws v s f) (
    rw
      (deque_peek_top_lem ws v [] (hold_deque (some ws) v s)
        (unfold hold_deque in rw (==_refl v) refl) (hold_deque-IsDeque (some ws) v v s [] d))
      (rw (deque_unlock_lem ws v (hold_deque (some ws) v s))
        (ap (ok 0) (hold_deque-hold_deque (some ws) v s f))))
