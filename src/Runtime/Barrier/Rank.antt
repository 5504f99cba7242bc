-- ===== src/Runtime/Barrier/Rank.antt =====
-- How far the workers are from the end of Cilk_barrier (runtime/barrier.c).
use cilk.Common.{
  ℕ, zero, suc, ◌+◌, ◌≡◌, ◌≢◌, ◌<◌, refl, sym, ◌∙◌, ap, subst, arith, inl, inr, Bool-cases, ◌==◌,
  ==_true, ==_eq, update, update_self, update_ne,
}
use cilk.Runtime.Barrier.{Place, outside, arrived, counted, cleared, WorkerState, Barrier, Step}
use cilk.Runtime.Barrier.Stage.{place_of}

abbrev pub rank : Place → ℕ
rank outside = 0
rank arrived = 3
rank (counted k) = 2
rank cleared = 1

sum_below : ℕ → (ℕ → ℕ) → ℕ
sum_below zero p = 0
sum_below (suc n) p = p n + sum_below n p

sum_below_same :
    (n : ℕ) (p q : ℕ → ℕ) → ((v : ℕ) → v < n → q v ≡ p v) → sum_below n q ≡ sum_below n p
unfolding sum_below
sum_below_same zero p q h = refl
sum_below_same (suc n) p q h =
    omega (arith, h n (omega arith), sum_below_same n p q (λ v l. h v (omega arith)))

below_ne : {a b : ℕ} → a < b → a ≢ b
below_ne l = omega arith

sum_below_less :
    (n w : ℕ) (p q : ℕ → ℕ)
    → w < n
    → q w < p w
    → ((v : ℕ) → v ≢ w → q v ≡ p v)
    → sum_below n q < sum_below n p
unfolding sum_below
sum_below_less zero w p q l d h = absurd (omega arith)
sum_below_less (suc n) w p q l d h = elim (Bool-cases (n == w)) [
  | inl e ↦
      let same = sum_below_same n p q (λ v lt. h v (λ z. below_ne lt (z ∙ sym (==_true e)))) in
      let d' : q n < p n = subst (λ v. q v < p v) (sym (==_true e)) d in omega arith
  | inr e ↦
      let x = h n (λ z. cc (e, ==_eq z)) in
      let ih = sum_below_less n w p q (ground arith) d h in omega arith
]

pub rank_sum : ℕ → Barrier → ℕ
rank_sum n s = sum_below n (λ v. rank (s.workers v).place)

-- a step of a worker that is in the barrier
pub record Falls (n : ℕ) (s t : Barrier) : Type 0 where
  pub step : Step n s t
  pub less : rank_sum n t < rank_sum n s
  pub same_entered : (v : ℕ) → (t.workers v).entered ≡ (s.workers v).entered

pub make_Falls :
    {n : ℕ} (s t : Barrier) (w : ℕ) (x : WorkerState)
    → w < n
    → t.workers ≡ update s.workers w x
    → rank x.place < rank (s.workers w).place
    → x.entered ≡ (s.workers w).entered
    → Step n s t
    → Falls n s t
unfolding rank_sum
make_Falls {n} s t w x l e d same st = record {
  step = st;
  less =
      sum_below_less n w _ _ l
        (subst (λ y. rank (place_of y) < rank (s.workers w).place)
          (sym (ap (λ f. f w) e ∙ update_self s.workers w x)) d)
        (λ v h.
          ap (λ f. rank (place_of (f v))) e
          ∙ ap (λ y. rank (place_of y)) (update_ne s.workers x (λ z. h (sym z))));
  same_entered = λ v. ap (λ f. (f v).entered) e ∙ elim (Bool-cases (w == v)) [
    | inl q ↦
        subst (λ u. (update s.workers w x u).entered ≡ (s.workers u).entered) (==_true q)
          (ap (λ y. y.entered) (update_self s.workers w x) ∙ same)
    | inr q ↦ ap (λ y. y.entered) (update_ne s.workers x (λ z. cc (q, ==_eq z)))
  ];
}
