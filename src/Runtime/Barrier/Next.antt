-- ===== src/Runtime/Barrier/Next.antt =====
-- Cilk_barrier can go on: the step of a worker that is in it (runtime/barrier.c).
use cilk.Common.{
  ℕ, zero, suc, ◌+◌, ◌≡◌, ◌⊎◌, ◌≢◌, ◌<◌, refl, sym, ◌∙◌, ap, subst, Bool, true, false, arith, inl,
  inr, Bool-cases, ◌==◌, ==_true, ==_eq,
}
use cilk.Runtime.Barrier.{
  Place, outside, arrived, counted, cleared, Barrier, count, clear, release, pass, go_to, leave,
}
use cilk.Runtime.Barrier.Count.{count_below, count_below_gap}
use cilk.Runtime.Barrier.Stage.{
  parity, inside, Stage, is_outside, is_arrived, is_waiting, is_late, place_of,
}
use cilk.Runtime.Barrier.Inv.{counted_in}
use cilk.Runtime.Barrier.Keep.{old_round}
use cilk.Runtime.Barrier.Rank.{rank, Falls, make_Falls}

rank_lem : {p q : Place} (r : ℕ) → q ≡ p → r < rank p → r < rank q
rank_lem r q l = subst (λ y. r < rank y) (sym q) l

Stage-step :
    {n R : ℕ} (s : Barrier) (v : ℕ)
    → v < n
    → s.barrier_release ≡ parity R
    → (s.workers v).place ≢ outside
    → counted_in R (s.workers v) ≡ false
    → Stage n R (s.workers v)
    → (t : Barrier) × Falls n s t
Stage-step s v l r h f (is_outside e) = absurd (h (ap place_of e))
Stage-step s v l r h f (is_arrived e) =
    let q = ap place_of e in
    (
      _,
      make_Falls s _ v (go_to (counted (s.barrier_counter + 1)) (s.workers v)) l refl
          (rank_lem 2 q (omega arith)) refl (count s v l q),
    )
Stage-step {R = R} s v l r h f (is_waiting k e d) =
    absurd (let z = ap (counted_in R) e in let y = ==_eq {a = suc R} refl in cc)
Stage-step {R = R} s v l r h f (is_late k p d e kn) =
    let q = ap place_of e in
    (
      _,
      make_Falls s _ v (leave (s.workers v)) l refl (rank_lem 0 q (omega arith)) refl
          (pass s v k l q kn (r ∙ ap parity d ∙ sym (ap (λ x. x.barrier_direction) e))),
    )

pub gathering_step :
    {n R : ℕ} (s : Barrier)
    → s.barrier_release ≡ parity R
    → ((v : ℕ) → v < n → (s.workers v).place ≢ outside)
    → s.barrier_counter ≡ count_below n (λ v. counted_in R (s.workers v))
    → s.barrier_counter ≢ n
    → ((v : ℕ) → v < n → Stage n R (s.workers v))
    → (t : Barrier) × Falls n s t
gathering_step {n} {R} s r h c d st =
    let (v, l, f) = count_below_gap n (λ v. counted_in R (s.workers v)) (λ z. d (c ∙ z)) in
    Stage-step s v l r (h v l) f (st v l)

pub full_step :
    {n R : ℕ} (s : Barrier) (w : ℕ)
    → w < n
    → s.workers w ≡ inside (counted n) R
    → (t : Barrier) × Falls n s t
full_step s w l e =
    let q = ap place_of e in
    (
      _,
      make_Falls s _ w (go_to cleared (s.workers w)) l refl (rank_lem 1 q (omega arith)) refl
          (clear s w l q),
    )

pub emptied_step :
    {n R : ℕ} (s : Barrier) (w : ℕ)
    → w < n
    → s.workers w ≡ inside cleared R
    → (t : Barrier) × Falls n s t
emptied_step s w l e =
    let q = ap place_of e in
    (
      _,
      make_Falls s _ w (leave (s.workers w)) l refl (rank_lem 0 q (omega arith)) refl
          (release s w l q),
    )

-- all below n, or one that is not
pub search_below :
    (n : ℕ) (p : ℕ → Bool) → ((v : ℕ) → v < n → p v ≡ true) ⊎ ((v : ℕ) × (v < n) × (p v ≡ false))
search_below zero p = inl (λ v l. absurd (omega arith))
search_below (suc n) p = elim (search_below n p) [
  | inr (v, l, f) ↦ inr (v, omega (arith, l), f)
  | inl h ↦ elim (Bool-cases (p n)) [
    | inr f ↦ inr (n, omega arith, f)
    | inl t ↦ inl (λ v l. elim (Bool-cases (n == v)) [
      | inl q ↦ ap p (sym (==_true q)) ∙ t
      | inr q ↦ h v (ground arith)
    ])
  ]
]

abbrev pub is_out : Place → Bool
is_out outside = true
is_out arrived = false
is_out (counted k) = false
is_out cleared = false

pub is_out-true : (p : Place) → is_out p ≡ true → p ≡ outside
is_out-true outside e = refl
is_out-true arrived e = absurd cc
is_out-true (counted k) e = absurd cc
is_out-true cleared e = absurd cc

-- one that is in, with its stage: it can step, or it has entered the round that is gathered
pub in-Stage :
    {n R : ℕ} (s : Barrier) (v : ℕ)
    → v < n
    → s.barrier_release ≡ parity R
    → is_out (s.workers v).place ≡ false
    → Stage n R (s.workers v)
    → ((t : Barrier) × Falls n s t) ⊎ ((s.workers v).entered ≡ suc R)
in-Stage s v l r f (is_outside e) = let z = ap (λ x. is_out x.place) e in absurd cc
in-Stage s v l r f (is_arrived e) = inr (ap (λ x. x.entered) e)
in-Stage s v l r f (is_waiting k e h) = inr (ap (λ x. x.entered) e)
in-Stage {R = R} s v l r f (is_late k p d e kn) = inl (
    Stage-step s v l r (λ z. let y = ap is_out z in cc) (ap (counted_in R) e ∙ old_round d)
      (is_late k p d e kn))
