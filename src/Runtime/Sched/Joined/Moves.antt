-- ===== src/Runtime/Sched/Joined/Moves.antt =====
-- The steps of runtime/sched.c that change a join counter or a list of children. `Counts d` allows
-- each closure `d` children that the list does not show.
use cilk.Common.{
  ℕ, ◌+◌, ◌-◌, ◌≡◌, ◌≢◌, ◌≤◌, ◌<◌, sym, ◌==◌, true, List, ◌∷◌, length, if◌then◌else◌, ◌>>=◌, Cmd,
  null_deref, Safe, Safe-bind, check, ltb, arith, Bool-cases, inl, inr, ==_true, ==_refl, update,
  subst,
}
use cilk.Runtime.Sched.State.{Closure, Sched, Inlet, deref, assign}
use cilk.Runtime.Sched.Closure.{Closure_checkmagic}
use cilk.Runtime.Sched.Return.{count_down}
use cilk.Runtime.Sched.Joined.Keep.{
  Count, Inv, Keeps, Safe-write, at_update, Keeps-check, Keeps-deref,
}

pub record Moves (I J : Count) {A : Type 0} (m : Cmd Sched A) : Type 0 where
  pub moves : (s : Sched) → Inv I s → Safe (m s) (λ a s'. Inv J s')

pub Moves-bind :
    {I J K : Count} {A B : Type 0} (m : Cmd Sched A) (k : A → Cmd Sched B)
    → Moves I J m
    → ((a : A) → Moves J K (k a))
    → Moves I K (m >>= k)
Moves-bind m k p q = record {
  moves = λ s h. Safe-bind (m s) k _ _ (p.moves s h) (λ a s' h'. (q a).moves s' h');
}

pub Moves-keep :
    {I J : Count} {A B : Type 0} (m : Cmd Sched A) (k : A → Cmd Sched B)
    → Keeps I m
    → ((a : A) → Moves I J (k a))
    → Moves I J (m >>= k)
Moves-keep m k p q = record {
  moves = λ s h. Safe-bind (m s) k _ _ (p.keeps s h) (λ a s' h'. (q a).moves s' h');
}

pub Keeps-move : {I : Count} {A : Type 0} {m : Cmd Sched A} → Moves I I m → Keeps I m
Keeps-move p = record { keeps = p.moves }

pub Move-keep : {I : Count} {A : Type 0} {m : Cmd Sched A} → Keeps I m → Moves I I m
Move-keep p = record { moves = p.keeps }

abbrev pub Counts : (ℕ → ℕ) → Count
Counts d c j n = j ≡ n + d c

-- one more at `p`
abbrev pub bump : (ℕ → ℕ) → ℕ → ℕ → ℕ
bump d p c = if p == c then d c + 1 else d c

-- After the check of the magic number the closure is known to be one that was created.
module _ {A : Type 0} (t : ℕ) (k : Unit {0} → Cmd Sched A) (Q : A → Sched → Type 0) where
  pub magic_first :
      (s : Sched)
      → ((s.closure t).magic ≡ true → Safe (k tt s) Q)
      → Safe ((Closure_checkmagic t >>= k) s) Q
  unfolding Closure_checkmagic
  magic_first s f = elim (Bool-cases (t == 0)) [
    | inl e ↦ rw e tt
    | inr e ↦ rw e (elim (Bool-cases (s.closure t).magic) [ inl m ↦ rw m (f m) | inr m ↦ rw m tt ])
  ]

module _ (d : ℕ → ℕ) (p : ℕ) where
  -- A change of the closure `p` alone.
  Counts-move :
      (d' : ℕ → ℕ) (s : Sched) (v : Closure)
      → Inv (Counts d) s
      → ((c : ℕ) → c ≢ p → d' c ≡ d c)
      → ((c : ℕ) → s.fresh ≤ c → d' c ≡ 0)
      → v.join_counter ≡ length v.incomplete_inlets + d' p
      → (v.magic ≡ true → p < s.fresh)
      → Inv (Counts d') (record s { closure = update s.closure p v })
  Counts-move d' s v h same later here a = record {
    each = λ c. elim (Bool-cases (p == c)) [
      | inl e ↦
          rw e (subst (λ i. v.join_counter ≡ length v.incomplete_inlets + d' i) (==_true e) here)
      | inr e ↦ rw (e, same c (λ q. ground (arith, e, q))) (h.each c)
    ];
    new = λ c l. omega (arith, later c l);
    alive = at_update (λ c w. w.magic ≡ true → c < s.fresh) s.closure p v h.alive a;
  }

module _ (d : ℕ → ℕ) (p : ℕ) where
  bump-new : (s : Sched) → Inv (Counts d) s → p < s.fresh → (c : ℕ) → s.fresh ≤ c → bump d p c ≡ 0
  bump-new s h l c b = ground (arith, h.new c b)

  bump-same : (c : ℕ) → c ≢ p → bump d p c ≡ d c
  bump-same c ne = ground arith

  bumped :
      (s : Sched)
      → Inv (Counts (bump d p)) s
      → (s.closure p).join_counter ≡ length (s.closure p).incomplete_inlets + (d p + 1)
  bumped s h = ground (arith, h.each p)

  unbump : (s : Sched) → Inv (Counts (bump d p)) s → (c : ℕ) → s.fresh ≤ c → d c ≡ 0
  unbump s h c b = ground (arith, h.new c b)

  -- The join counter first: then `p` has a child that its list does not show.
  pub count_up :
      (s : Sched)
      → Inv (Counts d) s
      → p < s.fresh
      → Inv (Counts (bump d p)) (record s {
        closure =
            update s.closure p
              (record (s.closure p) { join_counter = (s.closure p).join_counter + 1 });
      })
  count_up s h l =
      Counts-move d p (bump d p) s _ h bump-same (bump-new s h l)
        (rw (==_refl p) (omega (arith, h.each p))) (λ e. l)

  -- The list catches up.
  pub list_up :
      (s : Sched) (i : Inlet)
      → Inv (Counts (bump d p)) s
      → Inv (Counts d) (record s {
        closure =
            update s.closure p
              (record (s.closure p) { incomplete_inlets = i ∷ (s.closure p).incomplete_inlets });
      })
  list_up s i h =
      Counts-move (bump d p) p d s _ h (λ c ne. sym (bump-same c ne)) (unbump s h)
        (omega (arith, bumped s h)) (h.alive p)

  -- The list first.
  pub list_down :
      (s : Sched) (ps : List Inlet)
      → Inv (Counts d) s
      → p < s.fresh
      → length (s.closure p).incomplete_inlets ≡ length ps + 1
      → Inv (Counts (bump d p)) (record s {
        closure = update s.closure p (record (s.closure p) { incomplete_inlets = ps });
      })
  list_down s ps h l e =
      Counts-move d p (bump d p) s _ h bump-same (bump-new s h l)
        (rw (==_refl p) (omega (arith, h.each p, e))) (λ e. l)

  -- The join counter catches up.
  count_down_lem :
      (s : Sched)
      → Inv (Counts (bump d p)) s
      → Inv (Counts d) (record s {
        closure =
            update s.closure p
              (record (s.closure p) { join_counter = (s.closure p).join_counter - 1 });
      })
  count_down_lem s h =
      Counts-move (bump d p) p d s _ h (λ c ne. sym (bump-same c ne)) (unbump s h)
        (omega (arith, bumped s h)) (h.alive p)

  pub Moves-count_down : Moves (Counts (bump d p)) (Counts d) (count_down p)
  unfolding count_down assign
  Moves-count_down = Moves-keep (deref p) _ (Keeps-deref p) (λ c.
      Moves-keep (check (ltb 0 c.join_counter)) _ (Keeps-check _)
        (λ u. record { moves = λ s h. Safe-write (p == 0) null_deref s _ (count_down_lem s h) }))
