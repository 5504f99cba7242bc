-- ===== src/Runtime/Barrier/Inv.antt =====
-- What holds between the steps of Cilk_barrier (runtime/barrier.c), and that each step keeps it.
use cilk.Common.{
  ℕ, suc, ◌+◌, ◌≡◌, ◌≢◌, ◌<◌, refl, sym, ◌∙◌, ap, subst, Bool, true, false, arith, inl, inr,
  Bool-cases, ◌==◌, ==_true, ==_eq, update, update_self, update_ne,
}
use cilk.Runtime.Barrier.{
  Place, outside, arrived, counted, cleared, WorkerState, Barrier, turn, go_to, set_worker,
}
use cilk.Runtime.Barrier.Count.{count_below, count_below_same, count_below_flip, count_below_full}
use cilk.Runtime.Barrier.Stage.{
  parity, inside, Stage, is_outside, is_arrived, is_waiting, is_late, Waiting, waits, place_of,
  Waiting-counted, Stage-outside, Stage-arrived,
}

abbrev has_count : ℕ → Place → ℕ → Bool
has_count R outside e = false
has_count R arrived e = false
has_count R (counted k) e = e == suc R
has_count R cleared e = false

-- whether the worker is counted in round R
abbrev pub counted_in : ℕ → WorkerState → Bool
counted_in R x = has_count R x.place x.entered

new-Waiting : {n R : ℕ} {x : WorkerState} → Stage n R x → counted_in R x ≡ true → Waiting n R x
new-Waiting {R = R} (is_outside e) q = let z = ap (counted_in R) e in absurd cc
new-Waiting {R = R} (is_arrived e) q = let z = ap (counted_in R) e in absurd cc
new-Waiting (is_waiting k e h) q = waits k e h
new-Waiting {R = R} (is_late k r d e h) q =
    let z : (suc r == suc R) ≡ true = sym (ap (counted_in R) e) ∙ q in
    absurd (omega (arith, ==_true z))

pub data Phase (n R : ℕ) (s : Barrier) : Type 0 where
  gathering :
      s.barrier_counter ≡ count_below n (λ v. counted_in R (s.workers v))
      → s.barrier_counter ≢ n
      → ((v : ℕ) → v < n → Stage n R (s.workers v))
      → Phase n R s
  -- the worker that came last has the whole count
  full :
      (w : ℕ)
      → w < n
      → s.workers w ≡ inside (counted n) R
      → ((v : ℕ) → v < n → v ≢ w → Waiting n R (s.workers v))
      → Phase n R s
  emptied :
      (w : ℕ)
      → w < n
      → s.workers w ≡ inside cleared R
      → s.barrier_counter ≡ 0
      → ((v : ℕ) → v < n → v ≢ w → Waiting n R (s.workers v))
      → Phase n R s

pub record Inv (n : ℕ) (s : Barrier) : Type 0 where
  pub round : ℕ
  pub released : s.barrier_release ≡ parity round
  pub phase : Phase n round s

Stages-update :
    {n R : ℕ} (w : ℕ) (f : ℕ → WorkerState) (x : WorkerState)
    → ((v : ℕ) → v < n → Stage n R (f v))
    → Stage n R x
    → (v : ℕ) → v < n
    → Stage n R (update f w x v)
Stages-update {n} {R} w f x st h v l = elim (Bool-cases (w == v)) [
  | inl e ↦
      subst (λ u. Stage n R (update f w x u)) (==_true e)
        (subst (Stage n R) (sym (update_self f w x)) h)
  | inr e ↦ subst (Stage n R) (sym (update_ne f x (λ z. cc (e, ==_eq z)))) (st v l)
]

count-update :
    (n R w : ℕ) (f : ℕ → WorkerState) (x : WorkerState)
    → counted_in R x ≡ counted_in R (f w)
    → count_below n (λ v. counted_in R (update f w x v)) ≡ count_below n (λ v. counted_in R (f v))
count-update n R w f x h = count_below_same n _ _ (λ v l. elim (Bool-cases (w == v)) [
  | inl e ↦
      subst (λ u. counted_in R (update f w x u) ≡ counted_in R (f u)) (==_true e)
        (ap (counted_in R) (update_self f w x) ∙ h)
  | inr e ↦ ap (counted_in R) (update_ne f x (λ z. cc (e, ==_eq z)))
])

pub Waiting-update :
    {n R w : ℕ} (f : ℕ → WorkerState) (x : WorkerState)
    → ((v : ℕ) → v < n → v ≢ w → Waiting n R (f v))
    → (v : ℕ) → v < n
    → v ≢ w
    → Waiting n R (update f w x v)
Waiting-update {n} {R} f x h v l d =
    subst (Waiting n R) (sym (update_ne f x (λ z. d (sym z)))) (h v l d)

-- the only worker that does not wait
pub sole :
    {n R w0 : ℕ} (f : ℕ → WorkerState) (w : ℕ) (p : Place)
    → ((v : ℕ) → v < n → v ≢ w0 → Waiting n R (f v))
    → w < n
    → (f w).place ≡ p
    → ((k : ℕ) → p ≡ counted k → k ≢ n → ⊥)
    → w ≡ w0
sole {w0 = w0} f w p h l q no_wait = elim (Bool-cases (w == w0)) [
  | inl e ↦ ==_true e
  | inr e ↦
      let (k, a, b) = Waiting-counted p (h w l (λ z. cc (e, ==_eq z))) q in absurd (no_wait k a b)
]

-- the worker that came last is elsewhere
pub elsewhere :
    {n R w0 : ℕ} (f : ℕ → WorkerState) (w : ℕ) (p r : Place)
    → ((v : ℕ) → v < n → v ≢ w0 → Waiting n R (f v))
    → w < n
    → (f w).place ≡ p
    → ((k : ℕ) → p ≡ counted k → k ≢ n → ⊥)
    → f w0 ≡ inside r R
    → r ≡ p
elsewhere {w0 = w0} f w p r h l q no_wait e =
    sym (ap place_of e) ∙ ap (λ v. (f v).place) (sym (sole f w p h l q no_wait)) ∙ q

module _ {n R : ℕ} (s : Barrier) (w : ℕ) (l : w < n) where
  pub keep_gathering :
      (x : WorkerState)
      → s.barrier_counter ≡ count_below n (λ v. counted_in R (s.workers v))
      → s.barrier_counter ≢ n
      → ((v : ℕ) → v < n → Stage n R (s.workers v))
      → counted_in R x ≡ counted_in R (s.workers w)
      → Stage n R x
      → Phase n R (set_worker w x s)
  keep_gathering x c d st h g =
      gathering (c ∙ sym (count-update n R w s.workers x h)) d (Stages-update w s.workers x st g)

  pub Phase-enter :
      Phase n R s → (s.workers w).place ≡ outside → Phase n R (set_worker w (turn (s.workers w)) s)
  Phase-enter (gathering c d st) q =
      let e = Stage-outside (st w l) q in
      let e' : turn (s.workers w) ≡ inside arrived R = ap turn e in
      keep_gathering (turn (s.workers w)) c d st (ap (counted_in R) e' ∙ sym (ap (counted_in R) e))
        (is_arrived e')
  Phase-enter (full w0 l0 e h) q =
      let z = elsewhere s.workers w outside (counted n) h l q (λ k a b. cc) e in absurd cc
  Phase-enter (emptied w0 l0 e c h) q =
      let z = elsewhere s.workers w outside cleared h l q (λ k a b. cc) e in absurd cc

  gathered :
      (x : WorkerState) (k : ℕ)
      → s.barrier_counter ≡ count_below n (λ v. counted_in R (s.workers v))
      → ((v : ℕ) → v < n → Stage n R (s.workers v))
      → s.workers w ≡ inside arrived R
      → x ≡ inside (counted k) R
      → k ≡ s.barrier_counter + 1
      → Phase n R (record (set_worker w x s) { barrier_counter = k })
  gathered x k c st e e' kc =
      let p : ℕ → Bool = λ v. counted_in R (s.workers v) in
      let q : ℕ → Bool = λ v. counted_in R (update s.workers w x v) in
      let pw : p w ≡ false = ap (counted_in R) e in
      let qw : q w ≡ true = ap (counted_in R) (update_self s.workers w x ∙ e') ∙ ==_eq refl in
      let same : (v : ℕ) → v ≢ w → q v ≡ p v =
        λ v d. ap (counted_in R) (update_ne s.workers x (λ z. d (sym z))) in
      let up = count_below_flip n w p q l pw qw same in
      elim (Bool-cases (k == n)) [
        | inl m ↦
            let all : count_below n q ≡ n = omega (arith, ==_true m, up, c, kc) in
            full w l (update_self s.workers w x ∙ e' ∙ ap (λ j. inside (counted j) R) (==_true m)) (
              Waiting-update s.workers x
                (λ v b d. new-Waiting (st v b) (sym (same v d) ∙ count_below_full n v q all b)))
        | inr m ↦
            let d : k ≢ n = λ z. cc (m, ==_eq z) in
            gathering (omega (arith, up, c, kc)) d
              (Stages-update w s.workers x st (is_waiting k e' d))
      ]

  pub Phase-count :
      Phase n R s
      → (s.workers w).place ≡ arrived
      → Phase n R (record (set_worker w (go_to (counted (s.barrier_counter + 1)) (s.workers w)) s) {
        barrier_counter = s.barrier_counter + 1;
      })
  Phase-count (gathering c d st) q =
      let e = Stage-arrived (st w l) q in
      gathered (go_to (counted (s.barrier_counter + 1)) (s.workers w)) (s.barrier_counter + 1) c st
        e (ap (go_to (counted (s.barrier_counter + 1))) e) refl
  Phase-count (full w0 l0 e h) q =
      let z = elsewhere s.workers w arrived (counted n) h l q (λ k a b. cc) e in absurd cc
  Phase-count (emptied w0 l0 e c h) q =
      let z = elsewhere s.workers w arrived cleared h l q (λ k a b. cc) e in absurd cc
