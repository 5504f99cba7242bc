-- ===== src/Runtime/Barrier/Stage.antt =====
-- Where a worker can stand while round `R` of the barrier is gathered (runtime/barrier.c).
use cilk.Common.{ℕ, zero, suc, ◌≡◌, ◌≢◌, sym, ◌∙◌, ap, subst, Bool, true, false, not}
use cilk.Runtime.Barrier.{Place, outside, arrived, counted, cleared, WorkerState}

-- the direction of a worker that entered `r` times, and the release after `r` rounds
abbrev pub parity : ℕ → Bool
parity zero = false
parity (suc r) = not (parity r)

abbrev pub at_outside : ℕ → WorkerState
at_outside r = record { barrier_direction = parity r; place = outside; entered = r; passed = r }

abbrev pub inside : Place → ℕ → WorkerState
inside p r = record { barrier_direction = not (parity r); place = p; entered = suc r; passed = r }

-- `late` is a worker that waits although the round before this one is released
pub data Stage (n R : ℕ) (x : WorkerState) : Type 0 where
  is_outside : x ≡ at_outside R → Stage n R x
  is_arrived : x ≡ inside arrived R → Stage n R x
  is_waiting : (k : ℕ) → x ≡ inside (counted k) R → k ≢ n → Stage n R x
  is_late : (k r : ℕ) → R ≡ suc r → x ≡ inside (counted k) r → k ≢ n → Stage n R x

-- counted in this round
pub data Waiting (n R : ℕ) (x : WorkerState) : Type 0 where
  waits : (k : ℕ) → x ≡ inside (counted k) R → k ≢ n → Waiting n R x

not_ne : (b : Bool) → b ≢ not b
not_ne true e = cc
not_ne false e = cc

pub release_ne : {n R : ℕ} {x : WorkerState} → Waiting n R x → parity R ≢ x.barrier_direction
release_ne {R = R} (waits k e h) q = not_ne (parity R) (q ∙ ap (λ y. y.barrier_direction) e)

abbrev pub place_of : WorkerState → Place
place_of x = x.place

pub Waiting-counted :
    {n R : ℕ} {x : WorkerState} (p : Place)
    → Waiting n R x
    → x.place ≡ p
    → (k : ℕ) × (p ≡ counted k) × (k ≢ n)
Waiting-counted p (waits k e h) q = (k, sym q ∙ ap place_of e, h)

module _ {n R : ℕ} {x : WorkerState} where
  pub Stage-outside : Stage n R x → x.place ≡ outside → x ≡ at_outside R
  Stage-outside (is_outside e) q = e
  Stage-outside (is_arrived e) q = let z = ap place_of e in cc
  Stage-outside (is_waiting k e h) q = let z = ap place_of e in cc
  Stage-outside (is_late k r d e h) q = let z = ap place_of e in cc

  pub Stage-arrived : Stage n R x → x.place ≡ arrived → x ≡ inside arrived R
  Stage-arrived (is_outside e) q = let z = ap place_of e in cc
  Stage-arrived (is_arrived e) q = e
  Stage-arrived (is_waiting k e h) q = let z = ap place_of e in cc
  Stage-arrived (is_late k r d e h) q = let z = ap place_of e in cc

  pub Stage-cleared : Stage n R x → x.place ≢ cleared
  Stage-cleared (is_outside e) q = let z = ap place_of e in cc
  Stage-cleared (is_arrived e) q = let z = ap place_of e in cc
  Stage-cleared (is_waiting k e h) q = let z = ap place_of e in cc
  Stage-cleared (is_late k r d e h) q = let z = ap place_of e in cc

  pub Stage-last : Stage n R x → x.place ≢ counted n
  Stage-last (is_outside e) q = let z = ap place_of e in cc
  Stage-last (is_arrived e) q = let z = ap place_of e in cc
  Stage-last (is_waiting k e h) q = let z = ap place_of e in h cc
  Stage-last (is_late k r d e h) q = let z = ap place_of e in h cc

  pub Stage-pass :
      {k : ℕ}
      → Stage n R x
      → x.place ≡ counted k
      → parity R ≡ x.barrier_direction
      → (r : ℕ) × (R ≡ suc r) × (x ≡ inside (counted k) r)
  Stage-pass (is_outside e) q d = let z = ap place_of e in cc
  Stage-pass (is_arrived e) q d = let z = ap place_of e in cc
  Stage-pass (is_waiting k e h) q d = absurd (release_ne (waits k e h) d)
  Stage-pass {k = k'} (is_late k r l e h) q d =
      let z : counted k ≡ counted k' = sym (ap place_of e) ∙ q in
      (r, l, subst (λ p. x ≡ inside p r) z e)
