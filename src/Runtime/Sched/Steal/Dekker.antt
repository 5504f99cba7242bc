-- ===== src/Runtime/Sched/Steal/Dekker.antt =====
-- The thief's part of Dekker's protocol, do_dekker_on of runtime/sched.c, once the closure is locked.
use cilk.Common.{
  ℕ, ◌+◌, ◌≡◌, ◌≢◌, ◌≤◌, ◌<◌, refl, ap, true, false, Option, none, some, ok, update, ==_ne, ==_refl,
  le→leb, leb, arith, update_twice, update_same,
}
use cilk.Runtime.Sched.State.{Status, Sched, get_cache}
use cilk.Runtime.Sched.Abort.{
  increment_exception_pointer, decrement_exception_pointer, raise, lower,
}
use cilk.Runtime.Sched.Steal.{do_dekker_on}
use cilk.Runtime.Sched.Steps.{Closure_assert_ownership_lem}

-- The exception pointer of the cache `w` is one higher.
unfoldable pub raised : ℕ → Sched → Sched
raised w s = record s {
  caches = update s.caches w (record (s.caches w) { exception = raise (s.caches w).exception });
}

-- A locked closure that runs on the cache `w`.
pub record RunsOn (ws x w : ℕ) (s : Sched) : Type 0 where
  pub there : x ≢ 0
  pub locked : (s.closure x).mutex_owner ≡ some ws
  pub running : (s.closure x).status ≡ Status.running
  pub cache : (s.closure x).cache ≡ some w

pub get_cache_lem : (ws x w : ℕ) (s : Sched) → RunsOn ws x w s → get_cache x s ≡ ok (s.caches w) s
get_cache_lem ws x w s r = rw (==_ne r.there) (rw r.cache refl)

lower-raise : (e : Option ℕ) → lower (raise e) ≡ e
lower-raise none = refl
lower-raise (some n) = ap some (omega arith)

module _ (ws x w : ℕ) (s : Sched) (r : RunsOn ws x w s) where
  increment_lem : increment_exception_pointer ws x s ≡ ok tt (raised w s)
  unfolding increment_exception_pointer
  increment_lem =
      rw (Closure_assert_ownership_lem ws x s r.there r.locked) (
        rw (==_ne r.there) (rw r.running (rw (==_ne r.there) (rw r.cache (unfold raised in refl)))))

  pub raised-RunsOn : RunsOn ws x w (raised w s)
  unfolding raised
  raised-RunsOn = record {
    there = r.there;
    locked = r.locked;
    running = r.running;
    cache = r.cache;
  }

module _ (ws x w : ℕ) (s : Sched) (r : RunsOn ws x w s) where
  decrement_lem :
      decrement_exception_pointer ws x s
      ≡ ok tt (record s {
        caches =
            update s.caches w (record (s.caches w) { exception = lower (s.caches w).exception });
      })
  unfolding decrement_exception_pointer
  decrement_lem =
      rw (Closure_assert_ownership_lem ws x s r.there r.locked)
        (rw (==_ne r.there) (rw r.running (rw (==_ne r.there) (rw r.cache refl))))

module _ (ws x w : ℕ) (s : Sched) (r : RunsOn ws x w s) where
  test-false :
      (s.caches w).head + 1 < (s.caches w).tail
      → leb ((raised w s).caches w).tail (((raised w s).caches w).head + 1) ≡ false
  unfolding raised
  test-false lt = rw (==_refl w) (ground arith)

  test-true :
      (s.caches w).tail ≤ (s.caches w).head + 1
      → leb ((raised w s).caches w).tail (((raised w s).caches w).head + 1) ≡ true
  unfolding raised
  test-true le = rw (==_refl w) (le→leb le)

  -- The exception is retracted.
  down :
      (record (raised w s) {
        caches = update (raised w s).caches w (record ((raised w s).caches w) {
          exception = lower ((raised w s).caches w).exception;
        });
      })
      ≡ s
  unfolding raised
  down =
      rw (==_refl w, lower-raise (s.caches w).exception)
        (rw
          (update_twice s.caches w
            (record (s.caches w) { exception = raise (s.caches w).exception }))
          (ap (λ f. record s { caches = f }) (update_same s.caches w _ refl)))

  -- The victim has more than the frame at the head.
  pub dekker-wins :
      (s.caches w).head + 1 < (s.caches w).tail → do_dekker_on ws x s ≡ ok true (raised w s)
  unfolding do_dekker_on raised
  dekker-wins lt =
      rw (Closure_assert_ownership_lem ws x s r.there r.locked, increment_lem ws x w s r)
        (rw (==_ne r.there) (rw ((raised-RunsOn ws x w s r).cache) (rw (test-false lt) refl)))

  pub dekker-loses : (s.caches w).tail ≤ (s.caches w).head + 1 → do_dekker_on ws x s ≡ ok false s
  unfolding do_dekker_on raised
  dekker-loses le =
      rw (Closure_assert_ownership_lem ws x s r.there r.locked, increment_lem ws x w s r)
        (rw (==_ne r.there) (
          rw ((raised-RunsOn ws x w s r).cache) (
            rw (test-true le, decrement_lem ws x w (raised w s) (raised-RunsOn ws x w s r))
              (ap (ok false) down))))
