-- ===== src/Runtime/Sched/Abort/Free.antt =====
-- The closures that the walk of recursively_signal_abort (runtime/sched.c) comes to, and the locks that it
-- takes and releases.
use cilk.Common.{
  ℕ, ◌≡◌, ◌≢◌, ◌<◌, sym, ◌∙◌, ap, subst, true, Option, none, some, List, [], ◌∷◌, ◌==◌, ==_eq,
  ==_true, Bool-cases, ◌⊎◌, inl, inr, update_self, update_ne,
}
use cilk.Runtime.Sched.State.{Inlet, Closure, Sched, is_running}
use cilk.Runtime.Sched.Steps.{hold}
use cilk.Runtime.Sched.Abort.Later.{aborted, RunsAt, Later, Told}
use cilk.Runtime.Sched.Abort.Signal.{HasCache}

-- The closure `c` is the child of one of the inlets, or stands below such a child in the tree `ls`.
pub data Below (ls : ℕ → List Inlet) : List Inlet → ℕ → Type 0 where
  child : {p : Inlet} {ps : List Inlet} → Below ls (p ∷ ps) p.child
  within : {p : Inlet} {ps : List Inlet} {c : ℕ} → Below ls (ls p.child) c → Below ls (p ∷ ps) c
  next : {p : Inlet} {ps : List Inlet} {c : ℕ} → Below ls ps c → Below ls (p ∷ ps) c

-- Every child of the list has a rank below `n`.
abbrev pub Lower : (ℕ → ℕ) → ℕ → List Inlet → Type 0
Lower rank n [] = Unit
Lower rank n (p ∷ ps) = (rank p.child < n) × Lower rank n ps

-- A closure that the walk may come to: it is there, alive and free, and has the children `ls` says.
pub record IsFree (ls : ℕ → List Inlet) (s : Sched) (c : ℕ) : Type 0 where
  pub there : c ≢ 0
  pub alive : (s.closure c).magic ≡ true
  pub free : (s.closure c).mutex_owner ≡ none
  pub cached : HasCache (s.closure c)
  pub children : (s.closure c).incomplete_inlets ≡ ls c

pub IsFree-subst :
    {ls : ℕ → List Inlet} {s t : Sched} {c : ℕ}
    → (t.closure c ≡ s.closure c)
    → IsFree ls s c
    → IsFree ls t c
IsFree-subst {ls} {s} {t} {c} e h = record {
  there = h.there;
  alive = ap (λ (x : Closure). x.magic) e ∙ h.alive;
  free = ap (λ (x : Closure). x.mutex_owner) e ∙ h.free;
  cached = subst HasCache (sym e) h.cached;
  children = ap (λ (x : Closure). x.incomplete_inlets) e ∙ h.children;
}

pub IsFree-Later :
    {ls : ℕ → List Inlet} {V : ℕ → Type 0} {s t : Sched} {c : ℕ}
    → Later V s t
    → IsFree ls s c
    → IsFree ls t c
IsFree-Later {ls} {V} {s} {t} {c} p h = elim (p.closure c) [
  | inl e ↦ IsFree-subst e h
  | inr e ↦ record {
    there = h.there;
    alive = ap (λ (x : Closure). x.magic) e.1 ∙ h.alive;
    free = ap (λ (x : Closure). x.mutex_owner) e.1 ∙ h.free;
    cached = subst HasCache (sym e.1) h.cached;
    children = ap (λ (x : Closure). x.incomplete_inlets) e.1 ∙ h.children;
  }
]

pub hold-here :
    (o : Option ℕ) (t : ℕ) (s : Sched)
    → (hold o t s).closure t ≡ record (s.closure t) { mutex_owner = o }
unfolding hold
hold-here o t s = update_self s.closure t _

pub hold-there : (o : Option ℕ) (t c : ℕ) (s : Sched) → c ≢ t → (hold o t s).closure c ≡ s.closure c
unfolding hold
hold-there o t c s ne = update_ne s.closure _ (λ e. ne (sym e))

hold-RunsAt : (o : Option ℕ) (t c w : ℕ) (s : Sched) → RunsAt (hold o t s) c w → RunsAt s c w
unfolding hold
hold-RunsAt o t c w s h = elim (Bool-cases (t == c)) [
  | inl e ↦
      subst (λ i. RunsAt s i w) (==_true e)
        (at_self (subst (λ i. RunsAt (hold o t s) i w) (sym (==_true e)) h))
  | inr e ↦ at_other (λ q. cc (e, ==_eq (sym q)))
]
  where
    at_self : RunsAt (hold o t s) t w → RunsAt s t w
    at_self k =
        subst (λ (x : Closure). (is_running x.status ≡ true) × (x.cache ≡ some w)) (hold-here o t s)
          k

    at_other : c ≢ t → RunsAt s c w
    at_other ne =
        subst (λ (x : Closure). (is_running x.status ≡ true) × (x.cache ≡ some w))
          (hold-there o t c s ne) h

-- A child that is free is locked, walked and released: it ends as it would without the lock.
pub release :
    {V : ℕ → Type 0} (ws x : ℕ) (s t : Sched)
    → (s.closure x).mutex_owner ≡ none
    → Later V (hold (some ws) x s) t
    → Later V s (hold none x t)
unfolding hold
release {V} ws x s t free p = record {
  closure = λ c. elim (Bool-cases (c == x)) [
    | inl e ↦
        subst
          (λ i.
            ((hold none x t).closure i ≡ s.closure i)
            ⊎ (V i × ((hold none x t).closure i ≡ aborted (s.closure i))))
          (sym (==_true e))
          (elim (p.closure x) [
            | inl q ↦ inl (
                hold-here none x t
                ∙ ap unowned (q ∙ hold-here (some ws) x s)
                ∙ ap (λ o. record (s.closure x) { mutex_owner = o }) (sym free))
            | inr q ↦ inr (
              q.0,
              hold-here none x t
                  ∙ ap unowned (q.1 ∙ ap aborted (hold-here (some ws) x s))
                  ∙ ap (λ o. record (aborted (s.closure x)) { mutex_owner = o }) (sym free),
            )
          ])
    | inr e ↦
        let ne = λ (q : c ≡ x). absurd (cc (e, ==_eq q)) in
        elim (p.closure c) [
          | inl q ↦ inl (hold-there none x c t ne ∙ q ∙ hold-there (some ws) x c s ne)
          | inr q ↦
              inr (q.0, hold-there none x c t ne ∙ q.1 ∙ ap aborted (hold-there (some ws) x c s ne))
        ]
  ];
  cache = λ w. elim (p.cache w) [
    | inl e ↦ inl e
    | inr e ↦ inr ((e.0.0, e.0.1, hold-RunsAt (some ws) x e.0.0 w s e.0.2), e.1)
  ];
  rest = ap (λ (r : Sched). record r { closure = (hold none x t).closure }) p.rest;
}
  where
    unowned : Closure → Closure
    unowned c = record c { mutex_owner = none }

pub Told-hold : (x d : ℕ) (s : Sched) → Told s d → Told (hold none x s) d
unfolding hold
Told-hold x d s h = elim (Bool-cases (x == d)) [
  | inl e ↦
      let same = ap s.closure (==_true e) in
      record {
        status = rw e (ap (λ (c : Closure). c.abort_status) same ∙ h.status);
        exception = rw e (λ w r k.
            h.exception w (sym (ap (λ (c : Closure). is_running c.status) same) ∙ r)
              (sym (ap (λ (c : Closure). c.cache) same) ∙ k));
      }
  | inr e ↦ record { status = rw e h.status; exception = rw e h.exception }
]
