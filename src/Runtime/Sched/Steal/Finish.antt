-- ===== src/Runtime/Sched/Steal/Finish.antt =====
-- finish_promote of runtime/sched.c.
use cilk.Common.{
  ℕ, ◌+◌, ◌≡◌, ◌≢◌, ◌<◌, refl, ap, true, none, some, ◌∷◌, ok, update, ==_ne, ==_refl, ◌==◌, lt→ltb,
  Bool-cases, inl, inr, fun_ext,
}
use cilk.Runtime.Sched.State.{Status, Closure, Sched, Inlet, assign}
use cilk.Runtime.Sched.Closure.{
  Closure_checkmagic, Closure_assert_alienation, make_incomplete_inlet_closure, get_CilkProcInfo,
  inlet_of, Closure_add_child,
}
use cilk.Runtime.Sched.Steal.{finish_promote, Closure_make_ready}
use cilk.Runtime.Sched.Steps.{Closure_assert_ownership_lem}

-- the inlet that awaits the value of the child `c` of `x`
unfoldable pub awaited : ℕ → ℕ → Sched → Inlet
awaited x c s =
    let fr = s.frames (s.closure x).frame in inlet_of (s.closure x).frame fr (fr.sig fr.entry) c s

-- `x` is ready, and has the child `c`
unfoldable pub detached : ℕ → ℕ → Sched → Sched
detached x c s = record s {
  closure = update s.closure x (record (s.closure x) {
    join_counter = (s.closure x).join_counter + 1;
    incomplete_inlets = awaited x c s ∷ (s.closure x).incomplete_inlets;
    cache = none;
    status = Status.ready;
  });
}

-- The parent is locked, the child is free, and the frame of the parent says which spawn it waits for.
pub record CanFinish (ws x c : ℕ) (s : Sched) : Type 0 where
  pub there : x ≢ 0
  pub child_there : c ≢ 0
  pub differ : x ≢ c
  pub locked : (s.closure x).mutex_owner ≡ some ws
  pub alive : (s.closure x).magic ≡ true
  pub child_free : (s.closure c).mutex_owner ≡ none
  pub child_alive : (s.closure c).magic ≡ true
  pub framed : (s.closure x).frame ≢ 0
  pub spawned : 0 < (s.frames (s.closure x).frame).entry

-- the join counter goes up
unfoldable counted : ℕ → Sched → Sched
counted x s = record s {
  closure =
      update s.closure x (record (s.closure x) { join_counter = (s.closure x).join_counter + 1 });
}

-- then the list grows
unfoldable pub listed : ℕ → ℕ → Sched → Sched
listed x c s = record s {
  closure = update s.closure x (record (s.closure x) {
    incomplete_inlets = awaited x c s ∷ (s.closure x).incomplete_inlets;
  });
}

module _ (ws x c : ℕ) (s : Sched) (h : CanFinish ws x c s) where
  alienation_lem : Closure_assert_alienation ws c s ≡ ok tt s
  unfolding Closure_assert_alienation
  alienation_lem = rw (==_ne h.child_there) (rw h.child_free refl)

  magic_lem : (t : ℕ) → t ≢ 0 → (s.closure t).magic ≡ true → Closure_checkmagic t s ≡ ok tt s
  unfolding Closure_checkmagic
  magic_lem t nz m = rw (==_ne nz) (rw m refl)

  make_inlet_lem : make_incomplete_inlet_closure x none c s ≡ ok (awaited x c s) s
  unfolding make_incomplete_inlet_closure get_CilkProcInfo awaited
  make_inlet_lem = rw (==_ne h.there) (rw (==_ne h.framed) (rw (lt→ltb h.spawned) refl))

  pub add_child_lem : Closure_add_child ws x c s ≡ ok tt (listed x c s)
  unfolding Closure_add_child assign
  add_child_lem =
      rw
        (
          magic_lem x h.there h.alive,
          Closure_assert_ownership_lem ws x s h.there h.locked,
          magic_lem c h.child_there h.child_alive,
          alienation_lem,
          make_inlet_lem,
        )
        (rw (==_ne h.there) (unfold listed in refl))

  counted-CanFinish : CanFinish ws x c (counted x s)
  unfolding counted
  counted-CanFinish = record {
    there = h.there;
    child_there = h.child_there;
    differ = h.differ;
    locked = rw (==_refl x) h.locked;
    alive = rw (==_refl x) h.alive;
    child_free = rw (==_ne h.differ) h.child_free;
    child_alive = rw (==_ne h.differ) h.child_alive;
    framed = rw (==_refl x) h.framed;
    spawned = rw (==_refl x) h.spawned;
  }

  ready_lem : Closure_make_ready x (listed x c (counted x s)) ≡ ok tt (detached x c s)
  unfolding Closure_make_ready assign listed counted detached awaited inlet_of
  ready_lem = rw (==_ne h.there) (
      ap (λ (f : ℕ → Closure). ok tt (record s { closure = f }))
        (fun_ext (λ j. elim (Bool-cases (x == j)) [
          | inl e ↦ rw e (rw (==_refl x) refl)
          | inr e ↦ rw e refl
        ])))

  count_lem : assign x (λ b. record b { join_counter = b.join_counter + 1 }) s ≡ ok tt (counted x s)
  unfolding assign counted
  count_lem = rw (==_ne h.there) refl

module _ (ws x c : ℕ) (s : Sched) (h : CanFinish ws x c s) where
  pub finish_promote_lem : finish_promote ws x c s ≡ ok tt (detached x c s)
  unfolding finish_promote
  finish_promote_lem =
      rw
        (
          Closure_assert_ownership_lem ws x s h.there h.locked,
          alienation_lem ws x c s h,
          count_lem ws x c s h,
          add_child_lem ws x c (counted x s) (counted-CanFinish ws x c s h),
          ready_lem ws x c s h,
        )
        refl

-- What a child is awaited with depends on the parent, the frames and the memory.
pub awaited_cong :
    (x c : ℕ) (s s' : Sched)
    → (s.closure x).frame ≡ (s'.closure x).frame
    → s.frames ≡ s'.frames
    → s.memory ≡ s'.memory
    → awaited x c s ≡ awaited x c s'
unfolding awaited inlet_of
awaited_cong x c s s' e g m =
    λ i. let fr = g i (e i) in inlet_of (e i) fr (fr.sig fr.entry) c (record s { memory = m i })
