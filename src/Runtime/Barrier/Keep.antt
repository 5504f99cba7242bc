-- ===== src/Runtime/Barrier/Keep.antt =====
-- The end of a round of Cilk_barrier (runtime/barrier.c): what clear, release and pass keep, and with
-- them every step.
use cilk.Common.{
  ℕ, suc, ◌≡◌, ◌≢◌, ◌<◌, refl, sym, ◌∙◌, ap, subst, false, arith, inl, inr, Bool-cases, ◌==◌,
  ==_true, ==_eq, update, update_self,
}
use cilk.Runtime.Barrier.{
  Place, counted, cleared, WorkerState, Barrier, barrier_init, go_to, leave, set_worker, Step,
  enter, count, clear, release, pass, Steps, done, then_step,
}
use cilk.Runtime.Barrier.Count.{count_below_none}
use cilk.Runtime.Barrier.Stage.{
  parity, at_outside, inside, Stage, is_outside, is_late, Waiting, waits, release_ne, place_of,
  Stage-cleared, Stage-last, Stage-pass,
}
use cilk.Runtime.Barrier.Inv.{
  counted_in, Phase, gathering, full, emptied, Inv, Waiting-update, sole, elsewhere, keep_gathering,
  Phase-enter, Phase-count,
}

cleared_ne : {n : ℕ} (k : ℕ) → cleared ≡ counted k → k ≢ n → ⊥
cleared_ne k a b = cc

last_ne : {n : ℕ} (k : ℕ) → counted n ≡ counted k → k ≢ n → ⊥
last_ne k a b = b cc

-- a worker that waited in the round that ends is late in the next
late : {n R : ℕ} {x : WorkerState} → Waiting n R x → Stage n (suc R) x
late {R = R} (waits k e h) = is_late k R refl e h

pub old_round : {R r : ℕ} → R ≡ suc r → (suc r == suc R) ≡ false
old_round {R} {r} e = elim (Bool-cases (suc r == suc R)) [
  | inl t ↦ absurd (omega (arith, ==_true t))
  | inr f ↦ f
]

late-counted : {n R : ℕ} {x : WorkerState} → Waiting n R x → counted_in (suc R) x ≡ false
late-counted {R = R} (waits k e h) = ap (counted_in (suc R)) e ∙ old_round refl

-- a worker that waits can not leave before the release
no_pass :
    {n R w0 w k : ℕ} (f : ℕ → WorkerState) (p : Place)
    → ((v : ℕ) → v < n → v ≢ w0 → Waiting n R (f v))
    → f w0 ≡ inside p R
    → ((j : ℕ) → p ≡ counted j → j ≢ n → ⊥)
    → w < n
    → (f w).place ≡ counted k
    → k ≢ n
    → parity R ≢ (f w).barrier_direction
no_pass {w0 = w0} {w = w} {k = k} f p h e closed l q kn b = elim (Bool-cases (w == w0)) [
  | inl t ↦ closed k (sym (ap place_of e) ∙ ap (λ v. (f v).place) (sym (==_true t)) ∙ q) kn
  | inr t ↦ release_ne (h w l (λ z. cc (t, ==_eq z))) b
]

module _ {n R : ℕ} (s : Barrier) (w : ℕ) (l : w < n) where
  Phase-clear :
      Phase n R s
      → (s.workers w).place ≡ counted n
      → Phase n R (record (set_worker w (go_to cleared (s.workers w)) s) { barrier_counter = 0 })
  Phase-clear (gathering c d st) q = absurd (Stage-last (st w l) q)
  Phase-clear (full w0 l0 e h) q =
      let m = sole s.workers w (counted n) h l q last_ne in
      emptied w l
        (update_self s.workers w (go_to cleared (s.workers w))
          ∙ ap (go_to cleared) (ap s.workers m ∙ e))
        refl (Waiting-update s.workers _ (λ v b d. h v b (λ z. d (z ∙ sym m))))
  Phase-clear (emptied w0 l0 e c h) q =
      let z = elsewhere s.workers w (counted n) cleared h l q last_ne e in absurd cc

  -- the round ends with the release
  next_round :
      s.workers w ≡ inside cleared R
      → s.barrier_counter ≡ 0
      → ((v : ℕ) → v < n → v ≢ w → Waiting n R (s.workers v))
      → Phase n (suc R) (record (set_worker w (leave (s.workers w)) s) {
        barrier_release = (s.workers w).barrier_direction;
      })
  next_round e c h =
      let x = leave (s.workers w) in
      let e' : x ≡ at_outside (suc R) = ap leave e in
      let f = update s.workers w x in
      let self : f w ≡ at_outside (suc R) = update_self s.workers w x ∙ e' in
      let others = Waiting-update {n = n} {R = R} {w = w} s.workers x h in
      let none_counted =
        count_below_none n (λ v. counted_in (suc R) (f v))
          (λ v b. elim (Bool-cases (v == w)) [
            | inl t ↦ ap (λ u. counted_in (suc R) (f u)) (==_true t) ∙ ap (counted_in (suc R)) self
            | inr t ↦ late-counted (others v b (λ z. cc (t, ==_eq z)))
          ]) in
      gathering (c ∙ sym none_counted) (omega (arith, c)) (λ v b. elim (Bool-cases (v == w)) [
        | inl t ↦ subst (λ u. Stage n (suc R) (f u)) (sym (==_true t)) (is_outside self)
        | inr t ↦ late (others v b (λ z. cc (t, ==_eq z)))
      ])

  Inv-release :
      s.barrier_release ≡ parity R
      → Phase n R s
      → (s.workers w).place ≡ cleared
      → Inv n (record (set_worker w (leave (s.workers w)) s) {
        barrier_release = (s.workers w).barrier_direction;
      })
  Inv-release r (gathering c d st) q = absurd (Stage-cleared (st w l) q)
  Inv-release r (full w0 l0 e h) q =
      let z = elsewhere s.workers w cleared (counted n) h l q cleared_ne e in absurd cc
  Inv-release r (emptied w0 l0 e c h) q =
      let m = sole s.workers w cleared h l q cleared_ne in
      let e' = ap s.workers m ∙ e in
      record {
        round = suc R;
        released = ap (λ x. x.barrier_direction) e';
        phase = next_round e' c (λ v b d. h v b (λ z. d (z ∙ sym m)));
      }

  Phase-pass :
      (k : ℕ)
      → s.barrier_release ≡ parity R
      → Phase n R s
      → (s.workers w).place ≡ counted k
      → k ≢ n
      → s.barrier_release ≡ (s.workers w).barrier_direction
      → Phase n R (set_worker w (leave (s.workers w)) s)
  Phase-pass k r (gathering c d st) q kn b =
      let (o, ro, e) = Stage-pass (st w l) q (sym r ∙ b) in
      let e' : leave (s.workers w) ≡ at_outside R = ap leave e ∙ ap at_outside (sym ro) in
      let was : counted_in R (s.workers w) ≡ false = ap (counted_in R) e ∙ old_round ro in
      keep_gathering s w l (leave (s.workers w)) c d st (ap (counted_in R) e' ∙ sym was)
        (is_outside e')
  Phase-pass k r (full w0 l0 e h) q kn b =
      absurd (no_pass s.workers (counted n) h e last_ne l q kn (sym r ∙ b))
  Phase-pass k r (emptied w0 l0 e c h) q kn b =
      absurd (no_pass s.workers cleared h e cleared_ne l q kn (sym r ∙ b))

pub step-Inv : {n : ℕ} {s t : Barrier} → Inv n s → Step n s t → Inv n t
step-Inv i (enter s w l q) = record {
  round = i.round;
  released = i.released;
  phase = Phase-enter s w l i.phase q;
}
step-Inv i (count s w l q) = record {
  round = i.round;
  released = i.released;
  phase = Phase-count s w l i.phase q;
}
step-Inv i (clear s w l q) = record {
  round = i.round;
  released = i.released;
  phase = Phase-clear s w l i.phase q;
}
step-Inv i (release s w l q) = Inv-release s w l i.released i.phase q
step-Inv i (pass s w k l q kn b) = record {
  round = i.round;
  released = i.released;
  phase = Phase-pass s w l k i.released i.phase q kn b;
}

barrier_init-Inv : {n : ℕ} → 0 < n → Inv n barrier_init
barrier_init-Inv {n} l = record {
  round = 0;
  released = refl;
  phase =
      gathering (sym (count_below_none n _ (λ v b. refl))) (omega (arith, l))
        (λ v b. is_outside refl);
}

pub steps-Inv : {n : ℕ} {s : Barrier} → 0 < n → Steps n barrier_init s → Inv n s
steps-Inv l done = barrier_init-Inv l
steps-Inv l (then_step r m) = step-Inv (steps-Inv l r) m
