-- ===== src/Runtime/Sched/Abort/Whole.antt =====
-- What recursively_signal_abort of runtime/sched.c does to a subtree.
use cilk.Common.{
  ℕ, zero, suc, ◌≡◌, ◌≢◌, ◌<◌, refl, sym, ◌∙◌, ap, subst, true, none, some, List, ◌⊎◌, inl, inr,
  arith,
}
use cilk.Runtime.Sched.State.{Abort, Inlet, Closure, Cache, Sched, is_running}
use cilk.Runtime.Sched.Abort.{recursively_signal_abort}
use cilk.Runtime.Sched.Abort.Later.{aborted, excepted, RunsAt, Later, Told}
use cilk.Runtime.Sched.Abort.Signal.{signalled, HasCache, Signalled, signal_one_lem}
use cilk.Runtime.Sched.Abort.Free.{Below, Lower, IsFree, IsFree-subst}
use cilk.Runtime.Sched.Abort.Walk.{rank-Below, below_lem, visits}
use cilk.Common.{Returns}

-- the children of a closure that are still to return
abbrev pub children : Sched → ℕ → List Inlet
children s c = (s.closure c).incomplete_inlets

abbrev pub IsBelow : Sched → ℕ → ℕ → Type 0
IsBelow s cl c = Below (children s) (children s cl) c

-- The state `t` is `s` after the signal `a` to the closure `cl`, and ABORT_ALL to all below it.
pub record Aborts (a : Abort) (cl : ℕ) (s t : Sched) : Type 0 where
  pub root : t.closure cl ≡ signalled a (s.closure cl)
  pub root_exception :
      (w : ℕ)
      → is_running (s.closure cl).status ≡ true
      → (s.closure cl).cache ≡ some w
      → (t.caches w).exception ≡ none
  pub below : (c : ℕ) → IsBelow s cl c → t.closure c ≡ aborted (s.closure c)
  pub below_exception :
      (c w : ℕ)
      → IsBelow s cl c
      → is_running (s.closure c).status ≡ true
      → (s.closure c).cache ≡ some w
      → (t.caches w).exception ≡ none
  pub others : (c : ℕ) → c ≢ cl → (IsBelow s cl c → ⊥) → t.closure c ≡ s.closure c
  pub cache :
      (w : ℕ)
      → (t.caches w ≡ s.caches w)
        ⊎ (((c : ℕ) × ((c ≡ cl) ⊎ IsBelow s cl c) × RunsAt s c w)
            × (t.caches w ≡ excepted (s.caches w)))
  pub rest : t ≡ record s { closure = t.closure; caches = t.caches }

module _ {a : Abort} {cl : ℕ} {s u t : Sched} (self : IsBelow s cl cl → ⊥) (g : Signalled a cl s u)
    (l : Later (IsBelow s cl) u t) (told : (d : ℕ) → IsBelow s cl d → Told t d) where
  not_root : (c : ℕ) → IsBelow s cl c → c ≢ cl
  not_root c k e = self (subst (IsBelow s cl) e k)

  aborted_below : (c : ℕ) → IsBelow s cl c → t.closure c ≡ aborted (s.closure c)
  aborted_below c k =
      let before = g.there c (not_root c k) in
      elim (l.closure c) [
        | inr e ↦ e.1 ∙ ap aborted before
        | inl e ↦
            e
            ∙ before
            ∙ ap (λ i. record (s.closure c) { abort_status = i })
                (sym (ap (λ (x : Closure). x.abort_status) (e ∙ before)) ∙ (told c k).status)
      ]

  outside : (c : ℕ) → (IsBelow s cl c → ⊥) → t.closure c ≡ u.closure c
  outside c no_way = elim (l.closure c) [ inl e ↦ e | inr e ↦ absurd (no_way e.0) ]

  merged :
      (w : ℕ)
      → (t.caches w ≡ s.caches w)
        ⊎ (((c : ℕ) × ((c ≡ cl) ⊎ IsBelow s cl c) × RunsAt s c w)
            × (t.caches w ≡ excepted (s.caches w)))
  merged w = elim (l.cache w) [
    | inl e ↦ elim (g.cache w) [ inl d ↦ inl (e ∙ d) | inr d ↦ inr ((cl, inl refl, d.0), e ∙ d.1) ]
    | inr e ↦
        let before = g.there e.0.0 (not_root e.0.0 e.0.1) in
        let runs =
          subst (λ (x : Closure). (is_running x.status ≡ true) × (x.cache ≡ some w)) before e.0.2 in
        elim (g.cache w) [
          | inl d ↦ inr ((e.0.0, inr e.0.1, runs), e.1 ∙ ap excepted d)
          | inr d ↦ inr ((cl, inl refl, d.0), e.1 ∙ ap excepted d.1)
        ]
  ]

  Aborts-after : Aborts a cl s t
  Aborts-after = record {
    root = outside cl self ∙ g.here;
    root_exception = λ w r k. elim (l.cache w) [
      | inl e ↦ ap (λ (x : Cache). x.exception) e ∙ g.exception w r k
      | inr e ↦ ap (λ (x : Cache). x.exception) e.1
    ];
    below = aborted_below;
    below_exception = λ c w k r q.
        (told c k).exception w (ap (λ (x : Closure). is_running x.status) (aborted_below c k) ∙ r)
          (ap (λ (x : Closure). x.cache) (aborted_below c k) ∙ q);
    others = λ c ne far. outside c far ∙ g.there c ne;
    cache = merged;
    rest = l.rest ∙ ap (λ (x : Sched). record x { closure = t.closure; caches = t.caches }) g.rest;
  }

not_below_itself :
    (rank : ℕ → ℕ) (s : Sched) (cl : ℕ)
    → ((c : ℕ) → Lower rank (rank c) (children s c))
    → (ws : ℕ) → IsBelow s cl cl
    → ⊥
not_below_itself rank s cl ranked ws k =
    omega (arith, rank-Below (children s) rank ranked ws (rank cl) (ranked cl) k)

-- recursively_signal_abort reaches a whole subtree. Let every closure have a rank above those of its
-- children, and the fuel be above the rank of the closure whose subtree is to be aborted, which is not
-- NULL. Let the worker hold the lock of that closure, every closure below it be alive and free, and the
-- closure and all below it have a cache if they run. Then the walk returns. The closure has the smaller
-- of the signal and its abort status, every closure below it has ABORT_ALL, and the exception pointers of
-- the caches that those that run use are infinite. All locks are as they were, and nothing else of the
-- state has changed.
pub recursively_signal_abort-Aborts :
    (rank : ℕ → ℕ) (fuel ws cl : ℕ) (a : Abort) (s : Sched)
    → ((c : ℕ) → Lower rank (rank c) (children s c))
    → rank cl < fuel
    → cl ≢ 0
    → (s.closure cl).mutex_owner ≡ some ws
    → HasCache (s.closure cl)
    → ((c : ℕ) → IsBelow s cl c → IsFree (children s) s c)
    → Returns (recursively_signal_abort fuel ws cl a s) (λ u t. Aborts a cl s t)
recursively_signal_abort-Aborts rank zero ws cl a s ranked lt nz owner cached free =
    absurd (omega arith)
recursively_signal_abort-Aborts rank (suc fuel) ws cl a s ranked lt nz owner cached free =
    let ls = children s in
    let self = not_below_itself rank s cl ranked ws in
    let g = signal_one_lem ws cl a s nz owner cached in
    let r =
      below_lem ls rank ranked ws fuel cl a s g.0
        (λ c k. visits ls rank ranked ws fuel c (omega arith)) nz g.1
        (ap (λ (x : Closure). x.incomplete_inlets) g.2.here)
        (λ c k. IsFree-subst (g.2.there c (λ e. self (subst (IsBelow s cl) e k))) (free c k)) in
    rw r.1 (Aborts-after self g.2 r.2 r.3)
