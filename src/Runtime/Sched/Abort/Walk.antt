-- ===== src/Runtime/Sched/Abort/Walk.antt =====
-- recursively_signal_abort of runtime/sched.c walks the whole subtree of a closure.
use cilk.Common.{
  ℕ, zero, suc, ◌≡◌, ◌≢◌, ◌<◌, refl, sym, ◌∙◌, ap, subst, none, some, List, [], ◌∷◌, ok, ==_ne, ◌⊎◌,
  inl, inr, arith,
}
use cilk.Runtime.Sched.State.{Abort, Inlet, Closure, Sched}
use cilk.Runtime.Sched.Abort.{signal_one, signal_children, recursively_signal_abort}
use cilk.Runtime.Sched.Steps.{hold, Closure_lock_lem, Closure_unlock_lem}
use cilk.Runtime.Sched.Abort.Later.{
  Later, Later-refl, Later-trans, Later-field, Later-widen, Told, Told-Later,
}
use cilk.Runtime.Sched.Abort.Signal.{HasCache, signal_one_lem, Signalled-Later}
use cilk.Runtime.Sched.Abort.Free.{
  Below, child, within, next, Lower, IsFree, IsFree-subst, IsFree-Later, hold-here, hold-there,
  release, Told-hold,
}

module _ (ls : ℕ → List Inlet) (rank : ℕ → ℕ) (ranked : (c : ℕ) → Lower rank (rank c) (ls c))
    (ws : ℕ) where
  pub rank-Below : {ps : List Inlet} {c : ℕ} (n : ℕ) → Lower rank n ps → Below ls ps c → rank c < n
  rank-Below n h child = h.0
  rank-Below n h (within {p} k) = omega (arith, rank-Below (rank p.child) (ranked p.child) k, h.0)
  rank-Below n h (next k) = rank-Below n h.1 k

  abbrev AtOrBelow : ℕ → ℕ → Type 0
  AtOrBelow c d = (d ≡ c) ⊎ Below ls (ls c) d

  first_or_next :
      {p : Inlet} {ps : List Inlet} {d : ℕ}
      → Below ls (p ∷ ps) d
      → AtOrBelow p.child d ⊎ Below ls ps d
  first_or_next child = inl (inl refl)
  first_or_next (within k) = inl (inr k)
  first_or_next (next k) = inr k

  -- What the walk does below a closure that the worker has locked.
  abbrev Visits : ℕ → ℕ → Type 0
  Visits fuel c =
      (s : Sched)
      → c ≢ 0
      → (s.closure c).mutex_owner ≡ some ws
      → HasCache (s.closure c)
      → (s.closure c).incomplete_inlets ≡ ls c
      → ((d : ℕ) → Below ls (ls c) d → IsFree ls s d)
      → (t : Sched) × (recursively_signal_abort fuel ws c Abort.abort_all s ≡ ok tt t)
        × Later (AtOrBelow c) s t
        × ((d : ℕ) → AtOrBelow c d → Told t d)

  children_lem :
      (fuel n : ℕ) (ps : List Inlet) (s : Sched)
      → ((c : ℕ) → rank c < n → Visits fuel c)
      → Lower rank n ps
      → ((d : ℕ) → Below ls ps d → IsFree ls s d)
      → (t : Sched) × (signal_children ws
            (λ c. recursively_signal_abort fuel ws c Abort.abort_all)
            ps
            s
          ≡ ok tt t)
        × Later (Below ls ps) s t
        × ((d : ℕ) → Below ls ps d → Told t d)
  unfolding signal_children
  children_lem fuel n [] s visits b free = (s, refl, Later-refl s, λ d k. elim k [ ])
  children_lem fuel n (p ∷ ps) s visits b free =
      let f = free p.child child in
      let x = p.child in
      let s1 = hold (some ws) x s in
      let here = hold-here (some ws) x s in
      let v =
        visits x b.0 s1 f.there (ap (λ (c : Closure). c.mutex_owner) here)
          (subst HasCache (sym here) f.cached)
          (ap (λ (c : Closure). c.incomplete_inlets) here ∙ f.children)
          (λ d k.
            IsFree-subst
              (hold-there (some ws) x d s
                (λ e. omega (arith, ap rank e, rank-Below (rank x) (ranked x) k)))
              (free d (within k))) in
      let s3 = hold none x v.0 in
      let later = release ws x s v.0 f.free v.2 in
      let r = children_lem fuel n ps s3 visits b.1 (λ d k. IsFree-Later later (free d (next k))) in
      (
        r.0,
        rw (Closure_lock_lem ws x s f.there f.alive f.free) (
            rw v.1 (
              rw
                (Closure_unlock_lem ws x v.0 f.there
                  (Later-field (λ c. c.magic) (λ c. refl) v.2 x
                    ∙ ap (λ (c : Closure). c.magic) here
                    ∙ f.alive)
                  (Later-field (λ c. c.mutex_owner) (λ c. refl) v.2 x
                    ∙ ap (λ (c : Closure). c.mutex_owner) here))
                r.1)),
        Later-trans
            (Later-widen
              (λ c k. elim k [ inl e ↦ subst (Below ls (p ∷ ps)) (sym e) child | inr k ↦ within k ])
              later)
            (Later-widen (λ c k. next k) r.2),
        λ d k. elim (first_or_next k) [
          | inl q ↦ Told-Later d r.2 (Told-hold x d v.0 (v.3 d q))
          | inr q ↦ r.3 d q
        ],
      )

  -- The walk after its first step, which has signalled the closure itself.
  pub below_lem :
      (fuel cl : ℕ) (a : Abort) (s u : Sched)
      → ((c : ℕ) → rank c < rank cl → Visits fuel c)
      → cl ≢ 0
      → signal_one ws cl a s ≡ ok tt u
      → (u.closure cl).incomplete_inlets ≡ ls cl
      → ((d : ℕ) → Below ls (ls cl) d → IsFree ls u d)
      → (t : Sched) × (recursively_signal_abort (suc fuel) ws cl a s ≡ ok tt t)
        × Later (Below ls (ls cl)) u t
        × ((d : ℕ) → Below ls (ls cl) d → Told t d)
  unfolding recursively_signal_abort
  below_lem fuel cl a s u visits nz first children free =
      let r = children_lem fuel (rank cl) (ls cl) u visits (ranked cl) free in
      (r.0, rw first (rw (==_ne nz) (rw children r.1)), r.2, r.3)

  pub visits : (fuel c : ℕ) → rank c < fuel → Visits fuel c
  visits zero c lt s nz owner cached children free = absurd (omega arith)
  visits (suc fuel) c lt s nz owner cached children free =
      let g = signal_one_lem ws c Abort.abort_all s nz owner cached in
      let l = Signalled-Later g.2 in
      let r =
        below_lem fuel c Abort.abort_all s g.0 (λ d k. visits fuel d (omega arith)) nz g.1
          (ap (λ (x : Closure). x.incomplete_inlets) g.2.here ∙ children)
          (λ d k. IsFree-Later l.0 (free d k)) in
      (
        r.0,
        r.1,
        Later-trans (Later-widen (λ d k. inl k) l.0) (Later-widen (λ d k. inr k) r.2),
        λ d k. elim k [ inl e ↦ Told-Later d r.2 (subst (Told g.0) (sym e) l.1) | inr k ↦ r.3 d k ],
      )
