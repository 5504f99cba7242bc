-- ===== src/Runtime/Sched/Joined/Children.antt =====
-- Children come and go (runtime/sched.c: Closure_add_child, Closure_remove_child, promote_child and
-- finish_promote).
use cilk.Common.{
  ℕ, ◌+◌, ◌≡◌, ◌<◌, refl, Option, none, some, ◌==◌, true, List, [], ◌∷◌, length, if◌then◌else◌,
  ◌>>=◌, ◌>>◌, null_deref, Safe, Safe-bind, arith, Bool-cases, Option-cases, inl, inr, ==_refl,
  subst,
}
use cilk.Runtime.Sched.State.{ProcInfo, Sched, Inlet, deref_frame, deref, assign, opt_eq}
use cilk.Runtime.Sched.Closure.{
  Closure_checkmagic, Closure_assert_ownership, Closure_assert_alienation,
  make_incomplete_inlet_closure, get_CilkProcInfo, Closure_add_child, unlink_child, give_inlet,
  Closure_remove_child, inlet_of,
}
use cilk.Runtime.Sched.Steal.{check_promote, take_frame, finish_promote, Closure_make_ready}
use cilk.Runtime.Sched.Joined.Keep.{
  Count, Inv, Keeps, Keeps-bind, keep, Safe-write, Keeps-deref, Keeps-deref_frame, Keeps-other,
  Reads-check, read_then,
}
use cilk.Runtime.Sched.Joined.Basic.{keep_basic, Keeps-magic, Keeps-ownership, Keeps-alienation}
use cilk.Runtime.Sched.Joined.Moves.{
  Moves, Moves-keep, Counts, bump, magic_first, count_up, list_up, list_down,
}

module _ {I : Count} where
  Keeps-info : (sig : ℕ → ProcInfo) (entry : ℕ) → Keeps I (get_CilkProcInfo sig entry)
  unfolding get_CilkProcInfo
  Keeps-info sig entry = search keep depth 30

  pub Keeps-make_inlet :
      (parent : ℕ) (entry : Option ℕ) (child : ℕ)
      → Keeps I (make_incomplete_inlet_closure parent entry child)
  unfolding make_incomplete_inlet_closure
  Keeps-make_inlet parent entry child = Keeps-bind (deref parent) _ (Keeps-deref parent) (λ p.
      Keeps-bind (deref_frame p.frame) _ (Keeps-deref_frame p.frame) (λ fr.
        Keeps-bind (get_CilkProcInfo fr.sig (elim entry [ none ↦ fr.entry | some e ↦ e ])) _
          (Keeps-info fr.sig _)
          (λ info. Keeps-other (inlet_of p.frame fr info child) (λ s. s) (λ s. refl) (λ s. refl))))

  pub Keeps-make_ready : (cl : ℕ) → Keeps I (Closure_make_ready cl)
  unfolding Closure_make_ready
  Keeps-make_ready cl = search keep

  pub Keeps-check_promote : (ws p v : ℕ) → Keeps I (check_promote ws p v)
  unfolding check_promote
  Keeps-check_promote ws p v = search keep_basic depth 40

  pub Keeps-take_frame : (c : ℕ) → Keeps I (take_frame c)
  unfolding take_frame
  Keeps-take_frame c = search keep depth 40

module _ (d : ℕ → ℕ) (ws p child : ℕ) where
  add_tail : Moves (Counts (bump d p)) (Counts d) (do
    Closure_assert_ownership ws p
    Closure_checkmagic child
    Closure_assert_alienation ws child
    i ← make_incomplete_inlet_closure p none child
    assign p (λ c. record c { incomplete_inlets = i ∷ c.incomplete_inlets }))
  unfolding assign
  add_tail = Moves-keep (Closure_assert_ownership ws p) _ (Keeps-ownership ws p) (λ u.
      Moves-keep (Closure_checkmagic child) _ (Keeps-magic child) (λ u.
        Moves-keep (Closure_assert_alienation ws child) _ (Keeps-alienation ws child) (λ u.
          Moves-keep (make_incomplete_inlet_closure p none child) _ (Keeps-make_inlet p none child)
            (λ i. record {
              moves = λ s h. Safe-write (p == 0) null_deref s _ (list_up d p s i h);
            }))))

  add_child_lem :
      (s : Sched)
      → ((s.closure p).magic ≡ true → Inv (Counts (bump d p)) s)
      → Safe (Closure_add_child ws p child s) (λ a s'. Inv (Counts d) s')
  unfolding Closure_add_child
  add_child_lem s h = magic_first p _ _ s (λ m. add_tail.moves s (h m))

  -- The counter and the list of the parent go up together.
  pub Keeps-finish : Keeps (Counts d) (finish_promote ws p child)
  unfolding finish_promote assign
  Keeps-finish = Keeps-bind (Closure_assert_ownership ws p) _ (Keeps-ownership ws p) (λ u.
      Keeps-bind (Closure_assert_alienation ws child) _ (Keeps-alienation ws child) (λ u. record {
        keeps = λ s h. elim (Bool-cases (p == 0)) [
          | inl e ↦ rw e tt
          | inr e ↦ rw e (
              Safe-bind (Closure_add_child ws p child _) _ (λ a s'. Inv (Counts d) s') _
                (add_child_lem _ (λ m. count_up d p s h (
                  h.alive p (
                    subst
                      (λ b.
                        (if b
                          then record (s.closure p) {
                            join_counter = (s.closure p).join_counter + 1;
                          }
                          else s.closure p).magic
                        ≡ true)
                      (==_refl p) m))))
                (λ a s' h'. (Keeps-make_ready p).keeps s' h'))
        ];
      }))

length-unlink :
    (child : ℕ) (xs : List Inlet) (q : Inlet) (qs : List Inlet)
    → unlink_child child xs ≡ some (q, qs)
    → length xs ≡ length qs + 1
unfolding unlink_child
length-unlink child [] q qs e = ground (arith, e)
length-unlink child (x ∷ xs) q qs e =
    let ih = length-unlink child xs in
    elim (Option-cases (unlink_child child xs)) [
      | inl n ↦ ground (arith, e, n)
      | inr r ↦ ground (arith, e, r.1, ih r.0.0 r.0.1 r.1)
    ]

module _ (d : ℕ → ℕ) (ws p child : ℕ) where
  give_lem :
      (s : Sched) (o : Option (Inlet × List Inlet))
      → Inv (Counts d) s
      → p < s.fresh
      → unlink_child child (s.closure p).incomplete_inlets ≡ o
      → Safe (give_inlet p o s) (λ a s'. Inv (Counts (bump d p)) s')
  unfolding give_inlet assign
  give_lem s none h l e = tt
  give_lem s (some (q, qs)) h l e = elim (Bool-cases (p == 0)) [
    | inl z ↦ rw z tt
    | inr z ↦ rw z (list_down d p s qs h l (length-unlink child _ q qs e))
  ]

  -- The list of the parent goes down, its counter not yet.
  pub Moves-remove : Moves (Counts d) (Counts (bump d p)) (Closure_remove_child ws p child)
  unfolding Closure_remove_child Closure_checkmagic Closure_assert_ownership
  Moves-remove = record {
    moves = λ s h. magic_first p _ _ s (λ m.
        read_then (Closure_checkmagic child) _ s _ (Reads-check child (λ c. c.magic)) (λ u.
          read_then (Closure_assert_ownership ws p) _ s _
            (Reads-check p (λ c. opt_eq c.mutex_owner ws))
            (λ u. elim (Bool-cases (p == 0)) [
              | inl z ↦ rw z tt
              | inr z ↦ rw z (
                  give_lem s (unlink_child child (s.closure p).incomplete_inlets) h (h.alive p m)
                    refl)
            ])));
  }
