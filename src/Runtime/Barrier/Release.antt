-- ===== src/Runtime/Barrier/Release.antt =====
-- Cilk_barrier lets everybody out (runtime/barrier.c).
use cilk.Common.{
  ℕ, zero, suc, ◌≡◌, ◌≢◌, ◌<◌, sym, ◌∙◌, ap, false, arith, inl, inr, Bool-cases, ◌==◌, ==_true,
  ==_eq,
}
use cilk.Runtime.Barrier.{Place, outside, Barrier, barrier_init, Steps, done, then_step}
use cilk.Runtime.Barrier.Stage.{inside, Waiting, place_of, Stage-outside, Waiting-counted}
use cilk.Runtime.Barrier.Inv.{gathering, full, emptied, Inv}
use cilk.Runtime.Barrier.Keep.{step-Inv, steps-Inv}
use cilk.Runtime.Barrier.Rank.{rank_sum, Falls}
use cilk.Runtime.Barrier.Next.{
  gathering_step, full_step, emptied_step, in-Stage, search_below, is_out, is_out-true,
}

next_step :
    {n E : ℕ} (s : Barrier) (v : ℕ)
    → Inv n s
    → ((u : ℕ) → u < n → (s.workers u).entered ≡ E)
    → v < n
    → is_out (s.workers v).place ≡ false
    → (t : Barrier) × Falls n s t
next_step {n} {E} s v i h l f = elim i.phase [
  | gathering c d st ↦ elim (in-Stage s v l i.released f (st v l)) [
    | inl t ↦ t
    | inr e ↦
        gathering_step s i.released
          (λ u b q.
            let o = ap (λ x. x.entered) (Stage-outside (st u b) q) in
            let z = h u b in let y = h v l in omega (arith, e, o, z, y))
          c d st
  ]
  | full w b e o ↦ full_step s w b e
  | emptied w b e c o ↦ emptied_step s w b e
]

others_in :
    {n R w : ℕ} (s : Barrier) (p : Place)
    → s.workers w ≡ inside p R
    → outside ≢ p
    → ((v : ℕ) → v < n → v ≢ w → Waiting n R (s.workers v))
    → (v : ℕ) → v < n
    → (s.workers v).place ≢ outside
others_in {w = w} s p e d h v l q = elim (Bool-cases (v == w)) [
  | inl t ↦ d (sym q ∙ ap (λ u. (s.workers u).place) (==_true t) ∙ ap place_of e)
  | inr t ↦ let (k, a, b) = Waiting-counted outside (h v l (λ z. cc (t, ==_eq z))) q in absurd cc
]

outside_even :
    {n v : ℕ} {s : Barrier}
    → Inv n s
    → v < n
    → (s.workers v).place ≡ outside
    → (s.workers v).passed ≡ (s.workers v).entered
outside_even {v = v} {s = s} i l q = elim i.phase [
  | gathering c d st ↦
      let e = Stage-outside (st v l) q in ap (λ x. x.passed) e ∙ sym (ap (λ x. x.entered) e)
  | full w b e o ↦ absurd (others_in s _ e (λ z. cc) o v l q)
  | emptied w b e c o ↦ absurd (others_in s _ e (λ z. cc) o v l q)
]

-- everybody is out of the barrier, `E` times
abbrev pub AllOut : ℕ → ℕ → Barrier → Type 0
AllOut n E s = (v : ℕ) → v < n → ((s.workers v).place ≡ outside) × ((s.workers v).passed ≡ E)

leave_on :
    {n E : ℕ} {r : Barrier} (fuel : ℕ) (s : Barrier)
    → rank_sum n s < fuel
    → Inv n s
    → ((v : ℕ) → v < n → (s.workers v).entered ≡ E)
    → Steps n r s
    → (t : Barrier) × Steps n r t × AllOut n E t
leave_on zero s l i h m = absurd (omega arith)
leave_on {n} (suc fuel) s l i h m = elim (search_below n (λ v. is_out (s.workers v).place)) [
  | inl o ↦ (s, m, λ v b. let q = is_out-true _ (o v b) in (q, outside_even i b q ∙ h v b))
  | inr (v, b, f) ↦
      let (t, fall) = next_step s v i h b f in
      leave_on fuel t (omega (arith, fall.less, l)) (step-Inv i fall.step)
        (λ u c. fall.same_entered u ∙ h u c) (then_step m fall.step)
]

-- From every state that n > 0 workers reach from Cilk_barrier_init, and in which each has entered the
-- barrier E times, steps of the workers lead to a state where each is outside and has left it E times.
pub all_leave :
    (n E : ℕ) (s : Barrier)
    → 0 < n
    → Steps n barrier_init s
    → ((v : ℕ) → v < n → (s.workers v).entered ≡ E)
    → (t : Barrier) × Steps n s t × AllOut n E t
all_leave n E s l r h = leave_on (suc (rank_sum n s)) s (omega arith) (steps-Inv l r) h done
