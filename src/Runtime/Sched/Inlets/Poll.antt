-- ===== src/Runtime/Sched/Inlets/Poll.antt =====
-- poll_inlets of runtime/sched.c runs the inlets that wait, in their order.
use cilk.Common.{
  ℕ, suc, ◌+◌, ◌≡◌, ◌≢◌, refl, sym, ◌∙◌, ap, true, false, ◌⊎◌, inl, inr, Bool-cases, ==_eq, some,
  List, [], ◌∷◌, length, ok, update, update_twice, update_same, Cmd, Run, ==_ne, ==_refl, subst,
  and_then,
}
use cilk.Runtime.Sched.State.{
  Abort, Closure, Sched, Inlet, Memory, assign, is_no_abort, is_almost, is_running,
}
use cilk.Runtime.Sched.Closure.{Closure_at_top_of_stack}
use cilk.Runtime.Sched.Abort.{Closure_being_aborted}
use cilk.Runtime.Sched.Inlets.{
  InletCode, run_inlet, call_inlet, apply_inlet, apply_step, apply_inlets, poll_inlets, works_below,
}
use cilk.Runtime.Sched.Steps.{Closure_assert_ownership_lem}

module _ (code : InletCode) where
  -- No inlet of the list asks for an abort when they run one after the other.
  abbrev pub Quiet : ℕ → List Inlet → Memory → Type 0
  Quiet frame [] m = Unit
  Quiet frame (i ∷ is) m =
      ((run_inlet code frame i m).1 ≡ false) × Quiet frame is (run_inlet code frame i m).0

  -- the memory after the inlets of the list, the first of them first
  abbrev pub run_all : ℕ → List Inlet → Memory → Memory
  run_all frame [] m = m
  run_all frame (i ∷ is) m = run_all frame is (run_inlet code frame i m).0

-- The closure is locked by `ws` and is not being aborted.
pub record IsHeld (ws cl : ℕ) (s : Sched) : Type 0 where
  pub there : cl ≢ 0
  pub locked : (s.closure cl).mutex_owner ≡ some ws
  pub going : is_no_abort (s.closure cl).abort_status ≡ true

-- `cl` has only the inlets `is`, and the memory is `m`
unfoldable pub polled : ℕ → List Inlet → Memory → Sched → Sched
polled cl is m s = record s {
  closure = update s.closure cl (record (s.closure cl) { complete_inlets = is });
  memory = m;
}

module _ (code : InletCode) (fuel ws cl : ℕ) (s : Sched) (h : IsHeld ws cl s) where
  being_aborted_lem : Closure_being_aborted ws cl s ≡ ok false s
  unfolding Closure_being_aborted
  being_aborted_lem =
      rw (Closure_assert_ownership_lem ws cl s h.there h.locked)
        (rw (==_ne h.there) (rw h.going refl))

  apply_inlet_lem :
      (i : Inlet)
      → (run_inlet code (s.closure cl).frame i s.memory).1 ≡ false
      → apply_inlet code fuel ws cl i s
        ≡ ok tt (record s { memory = (run_inlet code (s.closure cl).frame i s.memory).0 })
  unfolding apply_inlet call_inlet
  apply_inlet_lem i q =
      rw (Closure_assert_ownership_lem ws cl s h.there h.locked)
        (rw (==_ne h.there) (rw being_aborted_lem (rw q refl)))

  polled-IsHeld : (is : List Inlet) (m : Memory) → IsHeld ws cl (polled cl is m s)
  unfolding polled
  polled-IsHeld is m = record {
    there = h.there;
    locked = rw (==_refl cl) h.locked;
    going = rw (==_refl cl) h.going;
  }

polled-polled :
    (cl : ℕ) (is js : List Inlet) (m n : Memory) (s : Sched)
    → polled cl js n (polled cl is m s) ≡ polled cl js n s
unfolding polled
polled-polled cl is js m n s =
    rw (update_twice s.closure cl (record (s.closure cl) { complete_inlets = is }))
      (rw (==_refl cl) refl)

polled_self :
    (cl : ℕ) (s : Sched) → (s.closure cl).complete_inlets ≡ [] → polled cl [] s.memory s ≡ s
unfolding polled
polled_self cl s e =
    ap (λ (f : ℕ → Closure). record s { closure = f })
      (update_same s.closure cl _
        (ap (λ (q : List Inlet). record (s.closure cl) { complete_inlets = q }) (sym e)))

module _ (code : InletCode) (fuel ws cl : ℕ) where
  apply_one :
      (i : Inlet) (is : List Inlet) (s : Sched)
      → IsHeld ws cl s
      → (run_inlet code (s.closure cl).frame i s.memory).1 ≡ false
      → apply_inlet code fuel ws cl i (polled cl is s.memory s)
        ≡ ok tt (polled cl is (run_inlet code (s.closure cl).frame i s.memory).0 s)
  unfolding polled
  apply_one i is s h q =
      let s1 = polled cl is s.memory s in
      let f : (s1.closure cl).frame ≡ (s.closure cl).frame = rw (==_refl cl) refl in
      let step =
        apply_inlet_lem code fuel ws cl s1 (polled-IsHeld code fuel ws cl s h is s.memory) i
          (subst (λ (g : ℕ). (run_inlet code g i s.memory).1 ≡ false) (sym f) q) in
      subst
        (λ (g : ℕ).
          apply_inlet code fuel ws cl i s1
          ≡ ok tt (record s1 { memory = (run_inlet code g i s.memory).0 }))
        f step

  -- one inlet of the loop
  apply_first :
      (i : Inlet) (is : List Inlet) (s : Sched)
      → IsHeld ws cl s
      → (run_inlet code (s.closure cl).frame i s.memory).1 ≡ false
      → (rest : Cmd Sched (Unit {0}))
      → apply_step code fuel ws cl rest (i ∷ is) s
        ≡ rest (polled cl is (run_inlet code (s.closure cl).frame i s.memory).0 s)
  unfolding apply_step assign
  apply_first i is s h q rest = rw (==_ne h.there) (
      unfold polled in
      ap (λ (r : Run Sched (Unit {0})). and_then r (λ u. rest)) (apply_one i is s h q))

  polled_frame :
      (s : Sched) (is : List Inlet) (m : Memory)
      → ((polled cl is m s).closure cl).frame ≡ (s.closure cl).frame
  unfolding polled
  polled_frame s is m = rw (==_refl cl) refl

  polled_inlets :
      (s : Sched) (is : List Inlet) (m : Memory)
      → ((polled cl is m s).closure cl).complete_inlets ≡ is
  unfolding polled
  polled_inlets s is m = rw (==_refl cl) refl

  loop_end :
      (s : Sched)
      → IsHeld ws cl s
      → (s.closure cl).complete_inlets ≡ []
      → apply_inlets code 1 fuel ws cl s ≡ ok tt (polled cl [] s.memory s)
  unfolding apply_inlets apply_step
  loop_end s h e = rw (==_ne h.there) (rw (polled_self cl s e) (rw e refl))

  apply_inlets_lem :
      (is : List Inlet) (s : Sched)
      → IsHeld ws cl s
      → (s.closure cl).complete_inlets ≡ is
      → Quiet code (s.closure cl).frame is s.memory
      → apply_inlets code (suc (length is)) fuel ws cl s
        ≡ ok tt (polled cl [] (run_all code (s.closure cl).frame is s.memory) s)
  unfolding apply_inlets polled run_inlet
  apply_inlets_lem [] s h e q = loop_end s h e
  apply_inlets_lem (i ∷ is) s h e q =
      let m = (run_inlet code (s.closure cl).frame i s.memory).0 in
      let s1 = polled cl is m s in
      rw (==_ne h.there) (
        rw e (
          apply_first i is s h q.0 (apply_inlets code (suc (length is)) fuel ws cl)
          ∙ apply_inlets_lem is s1 (polled-IsHeld code fuel ws cl s h is m) (polled_inlets s is m)
              (subst (λ (g : ℕ). Quiet code g is m) (sym (polled_frame s is m)) q.1)
          ∙ subst
              (λ (g : ℕ).
                ok tt (polled cl [] (run_all code g is m) s1)
                ≡ ok tt (polled cl [] (run_all code (s.closure cl).frame is m) s))
              (sym (polled_frame s is m))
              (ap (ok tt) (polled-polled cl is [] m (run_all code (s.closure cl).frame is m) s))))

-- The closure does not run, or runs the frame at the top of its stack.
abbrev pub AtTop : Sched → ℕ → Type 0
AtTop s cl =
    (is_running (s.closure cl).status ≡ false)
    ⊎ ((w : ℕ) × ((s.closure cl).cache ≡ some w) × ((s.caches w).head + 1 ≡ (s.caches w).tail))

works_below_lem : (cl : ℕ) (s : Sched) → cl ≢ 0 → AtTop s cl → works_below cl s ≡ ok false s
unfolding works_below Closure_at_top_of_stack
works_below_lem cl s nz (inl r) = rw (==_ne nz) (rw r refl)
works_below_lem cl s nz (inr (w, c, e)) = elim (Bool-cases (is_running (s.closure cl).status)) [
  | inl r ↦ rw (==_ne nz) (rw r (rw (==_ne nz) (rw c (rw (==_eq e) refl))))
  | inr r ↦ rw (==_ne nz) (rw r refl)
]

not-almost : (a : Abort) → is_no_abort a ≡ true → is_almost a ≡ false
not-almost Abort.no_abort e = refl
not-almost Abort.almost_no_abort e = cc
not-almost Abort.abort_all e = refl

polled-abort :
    (cl : ℕ) (is : List Inlet) (m : Memory) (s : Sched)
    → ((polled cl is m s).closure cl).abort_status ≡ (s.closure cl).abort_status
unfolding polled
polled-abort cl is m s = rw (==_refl cl) refl

-- A worker that holds a closure which is not being aborted, and does not run below the top of its
-- stack, polls its inlets, none of which asks for an abort: each of them is run once, in the order of
-- the list and on the memory that the one before it left, the list is then empty, and nothing else of
-- the state is changed. No fuel is used.
pub poll_inlets_lem :
    (code : InletCode) (fuel ws cl : ℕ) (s : Sched)
    → IsHeld ws cl s
    → AtTop s cl
    → Quiet code (s.closure cl).frame (s.closure cl).complete_inlets s.memory
    → poll_inlets code fuel ws cl s
      ≡ ok tt (
          polled cl []
            (run_all code (s.closure cl).frame (s.closure cl).complete_inlets s.memory)
            s)
unfolding poll_inlets
poll_inlets_lem code fuel ws cl s h t q =
    let is = (s.closure cl).complete_inlets in
    let m = run_all code (s.closure cl).frame is s.memory in
    rw (Closure_assert_ownership_lem ws cl s h.there h.locked, works_below_lem cl s h.there t)
      (rw (==_ne h.there) (
        rw (apply_inlets_lem code fuel ws cl is s h refl q) (
          rw (==_ne h.there)
            (rw (polled-abort cl [] m s, not-almost (s.closure cl).abort_status h.going) refl))))
