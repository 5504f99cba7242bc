-- ===== src/Runtime/Barrier/Rounds.antt =====
-- The rounds of Cilk_barrier (runtime/barrier.c): who may leave.
use cilk.Common.{
  ℕ, suc, ◌≡◌, ◌≢◌, ◌<◌, ◌≤◌, sym, ◌∙◌, ap, subst, arith, inl, inr, Bool-cases, ◌==◌, ==_true,
  ==_eq,
}
use cilk.Runtime.Barrier.{Place, WorkerState, Barrier, barrier_init, Steps}
use cilk.Runtime.Barrier.Stage.{
  inside, Stage, is_outside, is_arrived, is_waiting, is_late, Waiting, waits,
}
use cilk.Runtime.Barrier.Inv.{Phase, gathering, full, emptied}
use cilk.Runtime.Barrier.Keep.{steps-Inv}

-- passed at most r times, entered at least r and at most r + 1 times
abbrev Around : ℕ → WorkerState → Type 0
Around r x = (x.passed ≤ r) × (r ≤ x.entered) × (x.entered ≤ suc r)

Stage-Around : {n R : ℕ} {x : WorkerState} → Stage n R x → Around R x
Stage-Around {R = R} (is_outside e) = subst (Around R) (sym e) (omega arith)
Stage-Around {R = R} (is_arrived e) = subst (Around R) (sym e) (omega arith)
Stage-Around {R = R} (is_waiting k e h) = subst (Around R) (sym e) (omega arith)
Stage-Around {R = R} (is_late k r d e h) = subst (Around R) (sym e) (omega (arith, d))

Waiting-Around : {n R : ℕ} {x : WorkerState} → Waiting n R x → Around R x
Waiting-Around {R = R} (waits k e h) = subst (Around R) (sym e) (omega arith)

others-Around :
    {n R w : ℕ} (f : ℕ → WorkerState) (p : Place)
    → f w ≡ inside p R
    → ((v : ℕ) → v < n → v ≢ w → Waiting n R (f v))
    → (v : ℕ) → v < n
    → Around R (f v)
others-Around {n} {R} {w} f p e h v l = elim (Bool-cases (v == w)) [
  | inl t ↦ subst (Around R) (sym (ap f (==_true t) ∙ e)) (omega arith)
  | inr t ↦ Waiting-Around (h v l (λ z. cc (t, ==_eq z)))
]

Phase-Around : {n R : ℕ} {s : Barrier} → Phase n R s → (v : ℕ) → v < n → Around R (s.workers v)
Phase-Around (gathering c d st) v l = Stage-Around (st v l)
Phase-Around {s = s} (full w b e h) v l = others-Around s.workers _ e h v l
Phase-Around {s = s} (emptied w b e c h) v l = others-Around s.workers _ e h v l

-- In every state that n workers reach from Cilk_barrier_init, for workers i and j below n: i has left
-- the barrier at most as often as j has entered it, and i is at most one entry ahead of j.
pub nobody_early :
    (n i j : ℕ) (s : Barrier)
    → Steps n barrier_init s
    → i < n
    → j < n
    → ((s.workers i).passed ≤ (s.workers j).entered)
      × ((s.workers i).entered ≤ suc (s.workers j).entered)
nobody_early n i j s r a b =
    let inv = steps-Inv (omega (arith, a)) r in
    let (x, y, z) = Phase-Around inv.phase i a in
    let (x', y', z') = Phase-Around inv.phase j b in omega (arith, x, y, z, x', y', z')
