-- ===== src/Runtime/Sched/Abort/Later.antt =====
-- How the states of a walk of recursively_signal_abort (runtime/sched.c) are related.
use cilk.Common.{ℕ, ◌≡◌, refl, sym, ◌∙◌, ap, true, none, some, ◌⊎◌, inl, inr}
use cilk.Runtime.Sched.State.{Abort, Closure, Cache, Sched, is_running}

abbrev pub aborted : Closure → Closure
aborted c = record c { abort_status = Abort.abort_all }

-- EXCEPTION_INFINITY
abbrev pub excepted : Cache → Cache
excepted h = record h { exception = none }

-- The closure `c` runs on the worker `w`.
abbrev pub RunsAt : Sched → ℕ → ℕ → Type 0
RunsAt s c w = (is_running (s.closure c).status ≡ true) × ((s.closure c).cache ≡ some w)

-- What a walk that visits the closures in `V` may have done: it set their abort status, and the exception
-- pointers of the workers that run them.
pub record Later (V : ℕ → Type 0) (s t : Sched) : Type 0 where
  pub closure :
      (c : ℕ) → (t.closure c ≡ s.closure c) ⊎ (V c × (t.closure c ≡ aborted (s.closure c)))
  pub cache :
      (w : ℕ)
      → (t.caches w ≡ s.caches w)
        ⊎ (((c : ℕ) × V c × RunsAt s c w) × (t.caches w ≡ excepted (s.caches w)))
  pub rest : t ≡ record s { closure = t.closure; caches = t.caches }

-- The closure `c` is told to abort, and the worker that runs it is told so.
pub record Told (t : Sched) (c : ℕ) : Type 0 where
  pub status : (t.closure c).abort_status ≡ Abort.abort_all
  pub exception :
      (w : ℕ)
      → is_running (t.closure c).status ≡ true
      → (t.closure c).cache ≡ some w
      → (t.caches w).exception ≡ none

module _ {V : ℕ → Type 0} where
  pub Later-refl : (s : Sched) → Later V s s
  Later-refl s = record { closure = λ c. inl refl; cache = λ w. inl refl; rest = refl }

  -- A field that a walk leaves alone.
  pub Later-field :
      {A : Type 0} {s t : Sched} (f : Closure → A)
      → ((c : Closure) → f (aborted c) ≡ f c)
      → Later V s t
      → (c : ℕ) → f (t.closure c) ≡ f (s.closure c)
  Later-field f same p c = elim (p.closure c) [ inl e ↦ ap f e | inr e ↦ ap f e.1 ∙ same _ ]

  runs_before :
      {s t : Sched} {w : ℕ}
      → Later V s t
      → (c : ℕ) × V c × RunsAt t c w
      → (c : ℕ) × V c × RunsAt s c w
  runs_before p (c, k, r) = (
    c,
    k,
    (
      sym (Later-field (λ x. is_running x.status) (λ x. refl) p c) ∙ r.0,
      sym (Later-field (λ x. x.cache) (λ x. refl) p c) ∙ r.1,
    ),
  )

  pub Later-trans : {s t u : Sched} → Later V s t → Later V t u → Later V s u
  Later-trans {s} {t} {u} p q = record {
    closure = λ c. elim (q.closure c) [
      | inl e ↦ elim (p.closure c) [ inl d ↦ inl (e ∙ d) | inr d ↦ inr (d.0, e ∙ d.1) ]
      | inr e ↦ elim (p.closure c) [
        | inl d ↦ inr (e.0, e.1 ∙ ap aborted d)
        | inr d ↦ inr (d.0, e.1 ∙ ap aborted d.1)
      ]
    ];
    cache = λ w. elim (q.cache w) [
      | inl e ↦ elim (p.cache w) [ inl d ↦ inl (e ∙ d) | inr d ↦ inr (d.0, e ∙ d.1) ]
      | inr e ↦ elim (p.cache w) [
        | inl d ↦ inr (runs_before p e.0, e.1 ∙ ap excepted d)
        | inr d ↦ inr (d.0, e.1 ∙ ap excepted d.1)
      ]
    ];
    rest = q.rest ∙ ap (λ (x : Sched). record x { closure = u.closure; caches = u.caches }) p.rest;
  }

  pub Told-Later : {s t : Sched} (c : ℕ) → Later V s t → Told s c → Told t c
  Told-Later {s} {t} c p h = record {
    status = elim (p.closure c) [
      | inl e ↦ ap (λ (x : Closure). x.abort_status) e ∙ h.status
      | inr e ↦ ap (λ (x : Closure). x.abort_status) e.1
    ];
    exception = λ w r k.
        let old =
          h.exception w (sym (Later-field (λ x. is_running x.status) (λ x. refl) p c) ∙ r)
            (sym (Later-field (λ x. x.cache) (λ x. refl) p c) ∙ k) in
        elim (p.cache w) [
          | inl e ↦ ap (λ (x : Cache). x.exception) e ∙ old
          | inr e ↦ ap (λ (x : Cache). x.exception) e.1
        ];
  }

pub Later-widen :
    {V W : ℕ → Type 0} {s t : Sched} → ((c : ℕ) → V c → W c) → Later V s t → Later W s t
Later-widen f p = record {
  closure = λ c. elim (p.closure c) [ inl e ↦ inl e | inr e ↦ inr (f c e.0, e.1) ];
  cache =
      λ w. elim (p.cache w) [ inl e ↦ inl e | inr e ↦ inr ((e.0.0, f e.0.0 e.0.1, e.0.2), e.1) ];
  rest = p.rest;
}
