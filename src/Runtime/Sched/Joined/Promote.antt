-- ===== src/Runtime/Sched/Joined/Promote.antt =====
-- A child frame becomes a closure, and closures are stolen (runtime/sched.c).
use cilk.Common.{
  ==_eq, ℕ, ◌+◌, ◌≡◌, ◌≢◌, ◌<◌, refl, sym, Option, ◌==◌, true, length, null_deref, Safe, Safe-bind,
  arith, Bool-cases, inl, inr, ==_true, update, subst, assertion,
}
use cilk.Runtime.Sched.State.{Closure, Sched, Status, deref, assign}
use cilk.Runtime.Sched.Deque.{deque_add_bottom}
use cilk.Runtime.Sched.Closure.{Closure_create}
use cilk.Runtime.Sched.Steal.{
  promote_child, check_promote, take_frame, do_dekker_on, leave_alone, steal_ready, steal_parent,
  steal_by_status, steal_locked, Closure_steal,
}
use cilk.Runtime.Sched.Steal.Promote.{created, blank, Closure_create_lem}
use cilk.Runtime.Sched.Joined.Keep.{
  Count, Inv, Keeps, Safe-write, at_update, at_others, Keeps-deref, Keeps-pure, Keeps-fail,
}
use cilk.Runtime.Sched.Joined.Basic.{Keeps-add_bottom}
use cilk.Runtime.Sched.Joined.Aborts.{keep_abort}
use cilk.Runtime.Sched.Joined.Moves.{Moves, Moves-bind, Moves-keep, Move-keep, Counts}
use cilk.Runtime.Sched.Joined.Children.{Keeps-check_promote, Keeps-take_frame, Keeps-finish}

module _ (d : ℕ → ℕ) where
  -- The closure `a` is new: it has no children, and its counter is not set.
  abbrev Created : ℕ → Count
  Created a c j n = (c ≢ a → j ≡ n + d c) × (c ≡ a → n ≡ 0) × (d a ≡ 0)

  z0 : (s : Sched) → Inv (Counts d) s → d s.fresh ≡ 0
  z0 s h = omega (arith, h.new s.fresh)

  create_lem : (s : Sched) → Inv (Counts d) s → Safe (Closure_create s) (λ a s'. Inv (Created a) s')
  unfolding created blank
  create_lem s h = elim (Bool-cases (s.fresh == 0)) [
    | inl z ↦ unfold Closure_create assign in rw z tt
    | inr z ↦ rw (Closure_create_lem s (λ e. cc (z, ==_eq e))) (record {
      each =
          at_others (λ c w. Created s.fresh c w.join_counter (length w.incomplete_inlets)) s.closure
            s.fresh _ (λ c ne. (λ q. h.each c, λ q. absurd (ne q), z0 s h))
            (λ q. absurd (q refl), λ q. refl, z0 s h);
      new = λ c l. (λ q. omega (arith, h.new c), λ q. refl, z0 s h);
      alive =
          at_update (λ c w. w.magic ≡ true → c < s.fresh + 1) s.closure s.fresh _
            (λ c m. omega (arith, h.alive c m)) (λ e. omega arith);
    })
  ]

  -- The counter is set to 0.
  settle :
      (a : ℕ) (s : Sched) (v : Closure)
      → Inv (Created a) s
      → v.join_counter ≡ 0
      → length v.incomplete_inlets ≡ length (s.closure a).incomplete_inlets
      → (v.magic ≡ true → (s.closure a).magic ≡ true)
      → Inv (Counts d) (record s { closure = update s.closure a v })
  settle a s v h j n m = record {
    each =
        at_others (λ c w. Counts d c w.join_counter (length w.incomplete_inlets)) s.closure a v
          (λ c ne. (h.each c).0 ne) (omega (arith, j, n, (h.each a).1 refl, (h.each a).2));
    new = λ c l. elim (Bool-cases (c == a)) [
      | inl e ↦ subst (λ i. Counts d i 0 0) (sym (==_true e)) (omega (arith, (h.each a).2))
      | inr e ↦ (h.new c l).0 (λ q. ground (arith, e, q))
    ];
    alive =
        at_update (λ c w. w.magic ≡ true → c < s.fresh) s.closure a v h.alive
          (λ e. h.alive a (m e));
  }

  Moves-settle :
      (p a : ℕ) (o : Option ℕ)
      → Moves (Created a) (Counts d) (
          assign a
            (λ c. record c { parent = p; join_counter = 0; cache = o; status = Status.running }))
  unfolding assign
  Moves-settle p a o = record {
    moves = λ s h. Safe-write (a == 0) null_deref s _ (settle a s _ h refl refl (λ e. e));
  }

  pub Keeps-promote : (ws p victim : ℕ) → Keeps (Counts d) (promote_child ws p victim)
  unfolding promote_child
  Keeps-promote ws p victim = record {
    keeps = λ s h.
        Safe-bind (Closure_create s) _ (λ a s'. Inv (Created a) s') _ (create_lem s h)
          (λ a s' h'.
            (Moves-keep (check_promote ws p victim) _ (Keeps-check_promote ws p victim) (λ u.
                Moves-keep (deref p) _ (Keeps-deref p) (λ c.
                  Moves-bind
                    (assign a (λ b. record b {
                      parent = p;
                      join_counter = 0;
                      cache = c.cache;
                      status = Status.running;
                    }))
                    _ (Moves-settle p a c.cache)
                    (λ u. Moves-keep (take_frame a) _ (Keeps-take_frame a) (λ u.
                      Moves-keep (deque_add_bottom ws a victim) _ (Keeps-add_bottom ws a victim)
                        (λ u. Move-keep (Keeps-pure a))))))).moves
              s' h');
  }

  Keeps-dekker : (ws cl : ℕ) → Keeps (Counts d) (do_dekker_on ws cl)
  unfolding do_dekker_on
  Keeps-dekker ws cl = search keep_abort depth 40

  Keeps-leave : (ws v cl : ℕ) → Keeps (Counts d) (leave_alone ws v cl)
  unfolding leave_alone
  Keeps-leave ws v cl = search keep_abort depth 40

  Keeps-steal_ready : (ws v cl : ℕ) → Keeps (Counts d) (steal_ready ws v cl)
  unfolding steal_ready
  Keeps-steal_ready ws v cl = search keep_abort depth 40

  Keeps-steal_parent : (ws v cl : ℕ) → Keeps (Counts d) (steal_parent ws v cl)
  unfolding steal_parent
  Keeps-steal_parent ws v cl = search (keep_abort, Keeps-promote, Keeps-finish) depth 40

  Keeps-by_status : (ws v cl : ℕ) (x : Status) → Keeps (Counts d) (steal_by_status ws v cl x)
  unfolding steal_by_status
  Keeps-by_status ws v cl Status.ready = Keeps-steal_ready ws v cl
  Keeps-by_status ws v cl Status.running =
      search (keep_abort, Keeps-dekker, Keeps-steal_parent, Keeps-leave) depth 40
  Keeps-by_status ws v cl Status.suspended = Keeps-fail assertion
  Keeps-by_status ws v cl Status.returning = Keeps-leave ws v cl

  Keeps-steal_locked : (ws v cl : ℕ) → Keeps (Counts d) (steal_locked ws v cl)
  unfolding steal_locked
  Keeps-steal_locked ws v cl = search (keep_abort, Keeps-by_status, Keeps-leave) depth 40

  pub Keeps-steal : (ws v : ℕ) → Keeps (Counts d) (Closure_steal ws v)
  unfolding Closure_steal
  Keeps-steal ws v = search (keep_abort, Keeps-steal_locked) depth 40
