-- ===== src/Runtime/Sched/Abort/Signal.antt =====
-- One closure of the walk of recursively_signal_abort (runtime/sched.c).
use cilk.Common.{
  ℕ, ◌≡◌, ◌≢◌, refl, sym, ◌∙◌, ap, true, false, none, some, ok, update, ◌==◌, ==_ne, ==_refl, ==_eq,
  ==_true, some-inj, subst, Bool-cases, ◌⊎◌, inl, inr, arith, update_self, update_ne,
}
use cilk.Runtime.Sched.State.{Abort, Closure, Sched, assign, is_running}
use cilk.Runtime.Sched.Abort.{signal_abort, signal_one, signal_immediate_exception, min_abort}
use cilk.Runtime.Sched.Steps.{Closure_assert_ownership_lem}
use cilk.Runtime.Sched.Abort.Later.{aborted, excepted, RunsAt, Later, Told}

abbrev pub signalled : Abort → Closure → Closure
signalled a c = record c { abort_status = min_abort a c.abort_status }

-- A closure that runs has a cache.
abbrev pub HasCache : Closure → Type 0
HasCache c =
    (is_running c.status ≡ false) ⊎ ((w : ℕ) × (is_running c.status ≡ true) × (c.cache ≡ some w))

abbrev set_closure : ℕ → Closure → Sched → Sched
set_closure cl c s = record s { closure = update s.closure cl c }

module _ (ws cl : ℕ) (a : Abort) (s : Sched) (nz : cl ≢ 0)
    (owner : (s.closure cl).mutex_owner ≡ some ws) where
  signal_one-idle :
      is_running (s.closure cl).status ≡ false
      → signal_one ws cl a s ≡ ok tt (set_closure cl (signalled a (s.closure cl)) s)
  unfolding signal_one signal_abort assign
  signal_one-idle r =
      rw (Closure_assert_ownership_lem ws cl s nz owner)
        (rw (==_ne nz) (rw (==_ne nz) (rw (==_refl cl) (rw r refl))))

  signal_one-running :
      (w : ℕ)
      → is_running (s.closure cl).status ≡ true
      → (s.closure cl).cache ≡ some w
      → signal_one ws cl a s
        ≡ ok tt (record (set_closure cl (signalled a (s.closure cl)) s) {
          caches = update s.caches w (excepted (s.caches w));
        })
  unfolding signal_one signal_abort signal_immediate_exception assign
  signal_one-running w r e =
      let s1 = set_closure cl (signalled a (s.closure cl)) s in
      rw (Closure_assert_ownership_lem ws cl s nz owner) (
        rw (==_ne nz) (
          rw (==_ne nz) (
            rw (==_refl cl) (
              rw r (
                rw (Closure_assert_ownership_lem ws cl s1 nz (rw (==_refl cl) owner)) (
                  rw (==_ne nz)
                    (rw (==_refl cl) (rw r (rw (==_ne nz) (rw (==_refl cl) (rw e refl)))))))))))

-- What signal_one does to the state.
pub record Signalled (a : Abort) (cl : ℕ) (s t : Sched) : Type 0 where
  pub here : t.closure cl ≡ signalled a (s.closure cl)
  pub there : (c : ℕ) → c ≢ cl → t.closure c ≡ s.closure c
  pub cache :
      (w : ℕ) → (t.caches w ≡ s.caches w) ⊎ (RunsAt s cl w × (t.caches w ≡ excepted (s.caches w)))
  pub exception :
      (w : ℕ)
      → is_running (s.closure cl).status ≡ true
      → (s.closure cl).cache ≡ some w
      → (t.caches w).exception ≡ none
  pub rest : t ≡ record s { closure = t.closure; caches = t.caches }

pub signal_one_lem :
    (ws cl : ℕ) (a : Abort) (s : Sched)
    → cl ≢ 0
    → (s.closure cl).mutex_owner ≡ some ws
    → HasCache (s.closure cl)
    → (t : Sched) × (signal_one ws cl a s ≡ ok tt t) × Signalled a cl s t
signal_one_lem ws cl a s nz owner (inl r) = (
  _,
  signal_one-idle ws cl a s nz owner r,
  record {
    here = update_self s.closure cl _;
    there = λ c ne. update_ne s.closure _ (λ e. ne (sym e));
    cache = λ w. inl refl;
    exception = λ w q. absurd (cc (q, r));
    rest = refl;
  },
)
signal_one_lem ws cl a s nz owner (inr (v, r, e)) = (
  _,
  signal_one-running ws cl a s nz owner v r e,
  record {
    here = update_self s.closure cl _;
    there = λ c ne. update_ne s.closure _ (λ q. ne (sym q));
    cache = λ w. elim (Bool-cases (v == w)) [
      | inl q ↦
          inr ((r, e ∙ ap some (==_true q)), rw q (ap (λ i. excepted (s.caches i)) (==_true q)))
      | inr q ↦ inl (rw q refl)
    ];
    exception = λ w q k. ground (arith, some-inj (sym e ∙ k));
    rest = refl;
  },
)

min_abort_all : (c : Closure) → signalled Abort.abort_all c ≡ aborted c
unfolding min_abort
min_abort_all c = λ i. record c { abort_status = least c.abort_status i }
  where
    least : (x : Abort) → min_abort Abort.abort_all x ≡ Abort.abort_all
    least Abort.abort_all = refl
    least Abort.almost_no_abort = refl
    least Abort.no_abort = refl

-- A closure that is told to abort is told so from then on.
pub Signalled-Later :
    {cl : ℕ} {s t : Sched} → Signalled Abort.abort_all cl s t → Later (λ c. c ≡ cl) s t × Told t cl
Signalled-Later {cl} {s} {t} h = (
  record {
    closure = λ c. elim (Bool-cases (c == cl)) [
      | inl e ↦ inr (
        ==_true e,
        subst (λ i. t.closure i ≡ aborted (s.closure i)) (sym (==_true e))
            (h.here ∙ min_abort_all _),
      )
      | inr e ↦ inl (h.there c (λ q. cc (e, ==_eq q)))
    ];
    cache = λ w. elim (h.cache w) [ inl e ↦ inl e | inr e ↦ inr ((cl, refl, e.0), e.1) ];
    rest = h.rest;
  },
  record {
    status = ap (λ (x : Closure). x.abort_status) (h.here ∙ min_abort_all _);
    exception = λ w r k.
        h.exception w (sym (ap (λ (x : Closure). is_running x.status) h.here) ∙ r)
          (sym (ap (λ (x : Closure). x.cache) h.here) ∙ k);
  },
)
