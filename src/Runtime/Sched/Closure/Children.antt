-- ===== src/Runtime/Sched/Closure/Children.antt =====
-- Closure_add_child and Closure_remove_child of runtime/sched.c: the list of the children that are
-- still to return.
use cilk.Common.{
  ℕ, ◌≡◌, ◌≢◌, refl, ◌∙◌, ap, true, none, some, List, [], ◌∷◌, ◌++◌, ok, fault, assertion, update,
  update_twice, update_same, ==_ne, ==_refl, ==_eq, and_then, Bool-cases, inl, inr, ◌==◌,
}
use cilk.Runtime.Sched.State.{Closure, Sched, Inlet, assign}
use cilk.Runtime.Sched.Closure.{
  Closure_checkmagic, Closure_add_child, Closure_remove_child, unlink_child, give_inlet, inlet_of,
}
use cilk.Runtime.Sched.Steal.Finish.{CanFinish, awaited, listed, add_child_lem}
use cilk.Runtime.Sched.Steps.{Closure_assert_ownership_lem}

-- No inlet of the list waits for the child.
abbrev pub NotAwaited : ℕ → List Inlet → Type 0
NotAwaited child [] = Unit
NotAwaited child (p ∷ ps) = (p.child ≢ child) × NotAwaited child ps

-- Both closures are there, and `ws` has locked the parent.
pub record CanRemove (ws parent child : ℕ) (s : Sched) : Type 0 where
  pub there : parent ≢ 0
  pub child_there : child ≢ 0
  pub alive : (s.closure parent).magic ≡ true
  pub child_alive : (s.closure child).magic ≡ true
  pub locked : (s.closure parent).mutex_owner ≡ some ws

-- the children of `parent` that are still to return are those of the list
abbrev pub with_inlets : ℕ → List Inlet → Sched → Sched
with_inlets parent ps s = record s {
  closure = update s.closure parent (record (s.closure parent) { incomplete_inlets = ps });
}

unlink-finds :
    (child : ℕ) (p : Inlet) (before after : List Inlet)
    → p.child ≡ child
    → NotAwaited child before
    → unlink_child child (before ++ (p ∷ after)) ≡ some (p, before ++ after)
unfolding unlink_child
unlink-finds child p [] after e n = rw (==_eq e) refl
unlink-finds child p (q ∷ before) after e n =
    rw (==_ne n.0, unlink-finds child p before after e n.1) refl

unlink-misses : (child : ℕ) (ps : List Inlet) → NotAwaited child ps → unlink_child child ps ≡ none
unfolding unlink_child
unlink-misses child [] n = refl
unlink-misses child (p ∷ ps) n = rw (==_ne n.0, unlink-misses child ps n.1) refl

module _ (ws parent child : ℕ) (s : Sched) (h : CanRemove ws parent child s) where
  start :
      Closure_remove_child ws parent child s
      ≡ give_inlet parent (unlink_child child (s.closure parent).incomplete_inlets) s
  unfolding Closure_remove_child Closure_checkmagic
  start = rw (==_ne h.there) (
      rw h.alive (
        rw (==_ne h.child_there) (
          rw h.child_alive (
            rw (Closure_assert_ownership_lem ws parent s h.there h.locked)
              (rw (==_ne h.there) refl)))))

  -- The child's return finds the newest inlet for it: that inlet leaves the list of the locked parent,
  -- the others stay in their order, and nothing else is changed.
  pub Closure_remove_child-takes :
      (p : Inlet) (before after : List Inlet)
      → (s.closure parent).incomplete_inlets ≡ before ++ (p ∷ after)
      → p.child ≡ child
      → NotAwaited child before
      → Closure_remove_child ws parent child s ≡ ok p (with_inlets parent (before ++ after) s)
  unfolding give_inlet assign
  Closure_remove_child-takes p before after l e n =
      rw start (rw l (rw (unlink-finds child p before after e n) (rw (==_ne h.there) refl)))

  -- Where no inlet of the parent waits for the child, the worker dies.
  pub Closure_remove_child-dies :
      NotAwaited child (s.closure parent).incomplete_inlets
      → Closure_remove_child ws parent child s ≡ fault assertion
  unfolding give_inlet
  Closure_remove_child-dies n = rw start (rw (unlink-misses child _ n) refl)

awaited_child : (x c : ℕ) (s : Sched) → (awaited x c s).child ≡ c
unfolding awaited inlet_of
awaited_child x c s =
    let fr = s.frames (s.closure x).frame in
    elim (Bool-cases ((fr.sig fr.entry).inlet == 0)) [ inl e ↦ rw e refl | inr e ↦ rw e refl ]

module _ (ws x c : ℕ) (s : Sched) (h : CanFinish ws x c s) where
  listed-CanRemove : CanRemove ws x c (listed x c s)
  unfolding listed
  listed-CanRemove = record {
    there = h.there;
    child_there = h.child_there;
    alive = rw (==_refl x) h.alive;
    child_alive = rw (==_ne h.differ) h.child_alive;
    locked = rw (==_refl x) h.locked;
  }

  listed_inlets :
      ((listed x c s).closure x).incomplete_inlets ≡ awaited x c s ∷ (s.closure x).incomplete_inlets
  unfolding listed
  listed_inlets = rw (==_refl x) refl

  unlisted : with_inlets x (s.closure x).incomplete_inlets (listed x c s) ≡ s
  unfolding listed
  unlisted = rw (==_refl x) (
      rw
        (update_twice s.closure x (record (s.closure x) {
          incomplete_inlets = awaited x c s ∷ (s.closure x).incomplete_inlets;
        }))
        (ap (λ (f : ℕ → Closure). record s { closure = f }) (update_same s.closure x _ refl)))

  -- A child that is added to a locked parent and then removed gives back the inlet of the spawn that the
  -- parent's frame names, and the state that there was before.
  pub Closure_remove_child-Closure_add_child :
      and_then (Closure_add_child ws x c s) (λ u. Closure_remove_child ws x c)
      ≡ ok (awaited x c s) s
  Closure_remove_child-Closure_add_child = rw (add_child_lem ws x c s h) (
      Closure_remove_child-takes ws x c (listed x c s) listed-CanRemove (awaited x c s) []
        (s.closure x).incomplete_inlets listed_inlets (awaited_child x c s) tt
      ∙ ap (ok (awaited x c s)) unlisted)
