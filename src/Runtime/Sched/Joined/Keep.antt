-- ===== src/Runtime/Sched/Joined/Keep.antt =====
-- What a handler of runtime/sched.c leaves as it is in the closure tree: a relation `I` of each
-- closure to its join counter and to the number of its outstanding children.
use cilk.Common.{
  ℕ, ◌≡◌, ◌≤◌, ◌<◌, ◌≢◌, refl, Bool, true, false, Option, none, some, length, update, ◌==◌,
  if◌then◌else◌, Cmd, ok, fail, fault, check, pure, null_deref, ◌>>=◌, Safe, Safe-bind, Fault,
  arith, sym, Bool-cases, inl, inr, ==_true, subst,
}
use cilk.Runtime.Sched.State.{
  Closure, Ready, ReadyDeque, Cache, Sched, deref, deref_links, deref_frame, assign, assign_links,
  assign_deque, assign_cache, get_deque, get_cache, get_worker,
}

abbrev pub Count : Type 1
Count = ℕ → ℕ → ℕ → Type 0

-- `new` is what a closure needs that is yet to be created.
pub record Inv (I : Count) (s : Sched) : Type 0 where
  pub each : (c : ℕ) → I c (s.closure c).join_counter (length (s.closure c).incomplete_inlets)
  pub new : (c : ℕ) → s.fresh ≤ c → I c 0 0
  pub alive : (c : ℕ) → (s.closure c).magic ≡ true → c < s.fresh

pub record Keeps (I : Count) {A : Type 0} (m : Cmd Sched A) : Type 0 where
  pub keeps : (s : Sched) → Inv I s → Safe (m s) (λ a s'. Inv I s')

-- a closure at one address of the table
pub at_update :
    (P : ℕ → Closure → Type 0) (g : ℕ → Closure) (cl : ℕ) (v : Closure)
    → ((c : ℕ) → P c (g c))
    → P cl v
    → (c : ℕ) → P c (update g cl v c)
at_update P g cl v h p c = elim (Bool-cases (cl == c)) [
  | inl e ↦ rw e (subst (λ i. P i v) (==_true e) p)
  | inr e ↦ rw e (h c)
]

pub at_others :
    (P : ℕ → Closure → Type 0) (g : ℕ → Closure) (cl : ℕ) (v : Closure)
    → ((c : ℕ) → c ≢ cl → P c (g c))
    → P cl v
    → (c : ℕ) → P c (update g cl v c)
at_others P g cl v h p c = elim (Bool-cases (cl == c)) [
  | inl e ↦ rw e (subst (λ i. P i v) (==_true e) p)
  | inr e ↦ rw e (h c (λ q. ground (arith, e, q)))
]

module _ {I : Count} where
  pub Keeps-bind :
      {A B : Type 0} (m : Cmd Sched A) (k : A → Cmd Sched B)
      → Keeps I m
      → ((a : A) → Keeps I (k a))
      → Keeps I (m >>= k)
  Keeps-bind m k p q = record {
    keeps = λ s h. Safe-bind (m s) k _ _ (p.keeps s h) (λ a s' h'. (q a).keeps s' h');
  }

  pub Keeps-if :
      {A : Type 0} (b : Bool) (m n : Cmd Sched A)
      → Keeps I m
      → Keeps I n
      → Keeps I (if b then m else n)
  Keeps-if true m n p q = p
  Keeps-if false m n p q = q

  pub Keeps-pure : {A : Type 0} (a : A) → Keeps I (pure {S = Sched} a)
  Keeps-pure a = record { keeps = λ s h. h }

  pub Keeps-fail : {A : Type 0} (e : Fault) → Keeps I (fail {S = Sched} {A = A} e)
  Keeps-fail e = record { keeps = λ s h. tt }

  pub Keeps-check : (b : Bool) → Keeps I (check {S = Sched} b)
  Keeps-check true = record { keeps = λ s h. h }
  Keeps-check false = record { keeps = λ s h. tt }

  -- a read
  Safe-read :
      {A : Type 0} (b : Bool) (e : Fault) (a : A) (s : Sched)
      → Inv I s
      → Safe (if b then fault e else ok a s) (λ a s'. Inv I s')
  Safe-read true e a s h = tt
  Safe-read false e a s h = h

  pub Keeps-deref : (cl : ℕ) → Keeps I (deref cl)
  Keeps-deref cl = record { keeps = λ s h. Safe-read (cl == 0) _ _ s h }

  pub Keeps-deref_links : (cl : ℕ) → Keeps I (deref_links cl)
  Keeps-deref_links cl = record { keeps = λ s h. Safe-read (cl == 0) _ _ s h }

  pub Keeps-deref_frame : (f : ℕ) → Keeps I (deref_frame f)
  Keeps-deref_frame f = record { keeps = λ s h. Safe-read (f == 0) _ _ s h }

  pub Keeps-get_deque : (pn : ℕ) → Keeps I (get_deque pn)
  Keeps-get_deque pn = record { keeps = λ s h. h }

  pub Keeps-get_worker : (ws : ℕ) → Keeps I (get_worker ws)
  Keeps-get_worker ws = record { keeps = λ s h. h }

  -- a state with the same closures
  pub same_closures :
      (s s' : Sched) → Inv I s → s'.closure ≡ s.closure → s'.fresh ≡ s.fresh → Inv I s'
  same_closures s s' h e f = record {
    each = rw e h.each;
    new = rw f h.new;
    alive = rw (e, f) h.alive;
  }

  -- a step that changes no closure
  pub Keeps-other :
      {A : Type 0} (a : Sched → A) (g : Sched → Sched)
      → ((s : Sched) → (g s).closure ≡ s.closure)
      → ((s : Sched) → (g s).fresh ≡ s.fresh)
      → Keeps I (λ s. ok (a s) (g s))
  Keeps-other a g e f = record { keeps = λ s h. same_closures s (g s) h (e s) (f s) }

  pub Safe-write :
      (b : Bool) (e : Fault) (s s' : Sched)
      → Inv I s'
      → Safe (if b then fault e else ok tt s') (λ (a : Unit {0}) s'. Inv I s')
  Safe-write true e s s' h = tt
  Safe-write false e s s' h = h

  pub Keeps-assign_links : (cl : ℕ) (f : Ready → Ready) → Keeps I (assign_links cl f)
  Keeps-assign_links cl f = record {
    keeps = λ s h. Safe-write (cl == 0) _ s _ (same_closures s _ h refl refl);
  }

  pub Keeps-assign_deque : (pn : ℕ) (f : ReadyDeque → ReadyDeque) → Keeps I (assign_deque pn f)
  Keeps-assign_deque pn f = record { keeps = λ s h. same_closures s _ h refl refl }

  cache_read :
      (o : Option ℕ) (s : Sched)
      → Inv I s
      → Safe (elim o [ none ↦ fault null_deref | some w ↦ ok (s.caches w) s ]) (λ a s'. Inv I s')
  cache_read none s h = tt
  cache_read (some w) s h = h

  pub Keeps-get_cache : (cl : ℕ) → Keeps I (get_cache cl)
  Keeps-get_cache cl =
      Keeps-bind (deref cl) _ (Keeps-deref cl)
        (λ c. record { keeps = λ s h. cache_read c.cache s h })

  cache_write :
      (f : Cache → Cache) (o : Option ℕ) (s : Sched)
      → Inv I s
      → Safe
          (elim o [
            | none ↦ fault null_deref
            | some w ↦ ok tt (record s { caches = update s.caches w (f (s.caches w)) })
          ])
          (λ (a : Unit {0}) s'. Inv I s')
  cache_write f none s h = tt
  cache_write f (some w) s h = same_closures s _ h refl refl

  pub Keeps-assign_cache : (cl : ℕ) (f : Cache → Cache) → Keeps I (assign_cache cl f)
  Keeps-assign_cache cl f =
      Keeps-bind (deref cl) _ (Keeps-deref cl)
        (λ c. record { keeps = λ s h. cache_write f c.cache s h })

  pub Inv-update :
      (s : Sched) (cl : ℕ) (v : Closure)
      → Inv I s
      → I cl v.join_counter (length v.incomplete_inlets)
      → (v.magic ≡ true → cl < s.fresh)
      → Inv I (record s { closure = update s.closure cl v })
  Inv-update s cl v h p a = record {
    each =
        at_update (λ c w. I c w.join_counter (length w.incomplete_inlets)) s.closure cl v h.each p;
    new = h.new;
    alive = at_update (λ c w. w.magic ≡ true → c < s.fresh) s.closure cl v h.alive a;
  }

  -- an assignment that changes neither number
  pub Keeps-assign :
      (cl : ℕ) (f : Closure → Closure)
      → ((c : Closure) → (f c).join_counter ≡ c.join_counter)
      → ((c : Closure) → (f c).incomplete_inlets ≡ c.incomplete_inlets)
      → ((c : Closure) → (f c).magic ≡ true → c.magic ≡ true)
      → Keeps I (assign cl f)
  unfolding assign
  Keeps-assign cl f j i m = record {
    keeps = λ s h. Safe-write (cl == 0) _ s _ (
        Inv-update s cl (f (s.closure cl)) h (rw (j (s.closure cl), i (s.closure cl)) (h.each cl))
          (λ e. h.alive cl (m (s.closure cl) e)));
  }

pub ruleset keep = (
  Keeps-bind, Keeps-if, Keeps-pure, Keeps-fail, Keeps-check, Keeps-deref, Keeps-deref_links,
  Keeps-deref_frame, Keeps-get_deque, Keeps-get_worker, Keeps-assign_links, Keeps-assign_deque,
  Keeps-get_cache, Keeps-assign_cache, Keeps-assign,
)

-- A command that only reads.
pub record Reads {A : Type 0} (m : Cmd Sched A) : Type 0 where
  pub reads : (s : Sched) → Safe (m s) (λ a s'. s' ≡ s)

pub Reads-check : (t : ℕ) (b : Closure → Bool) → Reads (deref t >>= λ c. check (b c))
Reads-check t b = record {
  reads = λ s. elim (Bool-cases (t == 0)) [
    | inl e ↦ rw e tt
    | inr e ↦ rw e (elim (Bool-cases (b (s.closure t))) [ inl q ↦ rw q refl | inr q ↦ rw q tt ])
  ];
}

pub read_then :
    {A B : Type 0} (m : Cmd Sched A) (k : A → Cmd Sched B) (s : Sched) (Q : B → Sched → Type 0)
    → Reads m
    → ((a : A) → Safe (k a s) Q)
    → Safe ((m >>= k) s) Q
read_then m k s Q r f =
    Safe-bind (m s) k _ Q (r.reads s) (λ a s' e. subst (λ st. Safe (k a st) Q) (sym e) (f a))
