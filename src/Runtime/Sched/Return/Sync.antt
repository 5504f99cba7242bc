-- ===== src/Runtime/Sched/Return/Sync.antt =====
-- Cilk_sync of runtime/sched.c: the worker waits for the children of the closure that it runs.
use cilk.Common.{
  ℕ, ◌+◌, ◌≡◌, ◌≢◌, refl, sym, ◌∙◌, ap, Bool, true, not, none, some, List, [], ◌∷◌, ◌++◌, ok, Cmd,
  update_same, ==_ne, ==_refl, ==_eq, subst, ◌==◌, inr, pure, if◌then◌else◌, ◌>>◌,
}
use cilk.Runtime.Sched.State.{
  Status, Abort, Closure, Cache, Frame, Sched, Memory, assign, is_no_abort, is_abort_all, get_cache,
}
use cilk.Runtime.Sched.Deque.{deque_assert_ownership}
use cilk.Runtime.Sched.Deque.Repr.{IsDeque, opt_eq_self}
use cilk.Runtime.Sched.Deque.Snoc.{Links-last}
use cilk.Runtime.Sched.Deque.Bottom.{deque_peek_bottom_lem}
use cilk.Runtime.Sched.Closure.{Closure_at_top_of_stack, Closure_has_children}
use cilk.Runtime.Sched.Abort.{maybe_reset_abort, reset_abort}
use cilk.Runtime.Sched.Inlets.{InletCode, poll_inlets}
use cilk.Runtime.Sched.Inlets.Poll.{IsHeld, Quiet, run_all, polled, poll_inlets_lem}
use cilk.Runtime.Sched.Return.{
  Cilk_sync, Closure_suspend, lock_bottom, unlock_bottom, check_working, check_frame,
  deque_assert_is_bottom,
}
use cilk.Runtime.Sched.Steps.{
  hold, hold_deque, deque_lock_lem, Closure_lock_lem, hold_deque-IsDeque,
}
use cilk.Runtime.Sched.Steal.Dekker.{get_cache_lem}
use cilk.Runtime.Sched.Steal.Leave.{both}

-- The worker `ws` runs `t`, at the bottom of its free deque, at the top of its stack.
pub record CanSync (s : Sched) (ws t w : ℕ) (xs : List ℕ) : Type 0 where
  pub deque_free : (s.deques ws).mutex_owner ≡ none
  pub deque : IsDeque s ws (xs ++ (t ∷ []))
  pub alive : (s.closure t).magic ≡ true
  pub free : (s.closure t).mutex_owner ≡ none
  pub running : (s.closure t).status ≡ Status.running
  pub cache : (s.closure t).cache ≡ some w
  pub top : (s.caches w).head + 1 ≡ (s.caches w).tail
  pub framed : (s.closure t).frame ≢ 0
  pub frame_alive : (s.frames (s.closure t).frame).magic ≡ true
  pub going : (s.closure t).abort_status ≡ Abort.no_abort

-- the memory after the inlets, and the state, with both locks held
abbrev pub final_memory : InletCode → ℕ → Sched → Memory
final_memory code t s = run_all code (s.closure t).frame (s.closure t).complete_inlets s.memory

abbrev pub after_inlets : InletCode → ℕ → ℕ → Sched → Sched
after_inlets code ws t s = polled t [] (final_memory code t s) (both ws ws t s)

-- what is left to do when the inlets have been run
abbrev pub sync_tail : ℕ → ℕ → Bool → Cmd Sched Bool
sync_tail ws t res = do if res then Closure_suspend ws t else pure tt; unlock_bottom ws t; pure res

module _ (code : InletCode) (fuel ws t w : ℕ) (xs : List ℕ) (s : Sched)
    (h : CanSync s ws t w xs) where
  pub nz : t ≢ 0
  nz = (Links-last s.links ws 0 t xs h.deque.links).0

  -- both locks are taken
  abbrev held : Sched
  held = both ws ws t s

  held-IsDeque : IsDeque held ws (xs ++ (t ∷ []))
  unfolding both hold
  held-IsDeque =
      let e = hold_deque-IsDeque (some ws) ws ws s (xs ++ (t ∷ [])) h.deque in
      record { links = e.links; top = e.top; bottom = e.bottom; distinct = e.distinct }

  pub lock_bottom_lem : lock_bottom ws s ≡ ok t held
  unfolding lock_bottom both
  lock_bottom_lem =
      rw
        (
          deque_lock_lem ws ws s h.deque_free,
          deque_peek_bottom_lem ws ws t xs (hold_deque (some ws) ws s)
              (unfold hold_deque in rw (==_refl ws) refl)
              (hold_deque-IsDeque (some ws) ws ws s _ h.deque),
          Closure_lock_lem ws t (hold_deque (some ws) ws s) nz (unfold hold_deque in h.alive)
              (unfold hold_deque in h.free),
        )
        refl

  pub held-t : (held).closure t ≡ record (s.closure t) { mutex_owner = some ws }
  unfolding both hold hold_deque
  held-t = rw (==_refl t) refl

  held-frames : held.frames ≡ s.frames
  unfolding both hold hold_deque
  held-frames = refl

  held_caches : held.caches ≡ s.caches
  unfolding both hold hold_deque
  held_caches = refl

  held-memory : held.memory ≡ s.memory
  unfolding both hold hold_deque
  held-memory = refl

  held-IsHeld : IsHeld ws t held
  held-IsHeld = record {
    there = nz;
    locked = ap (λ (c : Closure). c.mutex_owner) held-t;
    going = ap (λ (c : Closure). is_no_abort c.abort_status) held-t ∙ ap is_no_abort h.going;
  }

  framed : (held.closure t).frame ≢ 0
  framed = subst (λ (c : Closure). c.frame ≢ 0) (sym held-t) h.framed

  frame_alive : (held.frames (held.closure t).frame).magic ≡ true
  frame_alive =
      ap (λ (f : ℕ → Frame). (f (held.closure t).frame).magic) held-frames
      ∙ ap (λ (c : Closure). (s.frames c.frame).magic) held-t
      ∙ h.frame_alive

  pub working_lem : check_working t held ≡ ok tt held
  unfolding check_working check_frame
  working_lem = rw (==_ne nz) (
      rw (ap (λ (c : Closure). c.status) held-t ∙ h.running)
        (rw (==_ne nz) (rw (==_ne framed) (rw frame_alive refl))))

  abbrev quiet : Sched
  quiet = after_inlets code ws t s

  pub top_lem : (held.caches w).head + 1 ≡ (held.caches w).tail
  top_lem = subst (λ (f : ℕ → Cache). (f w).head + 1 ≡ (f w).tail) (sym held_caches) h.top

  cache_lem : (held.closure t).cache ≡ some w
  cache_lem = ap (λ (c : Closure). c.cache) held-t ∙ h.cache

  pub poll_lem :
      Quiet code (s.closure t).frame (s.closure t).complete_inlets s.memory
      → poll_inlets code fuel ws t held ≡ ok tt quiet
  poll_lem q =
      poll_inlets_lem code fuel ws t held held-IsHeld (inr (w, cache_lem, top_lem)) (
        subst (λ (m : Memory). Quiet code (held.closure t).frame (held.closure t).complete_inlets m)
          (sym held-memory)
          (subst (λ (c : Closure). Quiet code c.frame c.complete_inlets s.memory) (sym held-t) q))
      ∙ (λ i. ok tt (
          polled t [] (run_all code (held-t i).frame (held-t i).complete_inlets (held-memory i))
            held))

  pub quiet-t :
      quiet.closure t ≡ record (s.closure t) { mutex_owner = some ws; complete_inlets = [] }
  unfolding polled
  quiet-t = rw (==_refl t) (ap (λ (c : Closure). record c { complete_inlets = [] }) held-t)

  pub quiet-owner : (quiet.deques ws).mutex_owner ≡ some ws
  unfolding polled both hold hold_deque
  quiet-owner = rw (==_refl ws) refl

  pub quiet-IsDeque : IsDeque quiet ws (xs ++ (t ∷ []))
  unfolding polled
  quiet-IsDeque = record {
    links = held-IsDeque.links;
    top = held-IsDeque.top;
    bottom = held-IsDeque.bottom;
    distinct = held-IsDeque.distinct;
  }

  bottom_lem : deque_assert_is_bottom ws t quiet ≡ ok tt quiet
  unfolding deque_assert_is_bottom deque_assert_ownership
  bottom_lem =
      rw (opt_eq_self quiet-owner, deque_peek_bottom_lem ws ws t xs quiet quiet-owner quiet-IsDeque)
        (rw (==_refl t) refl)

  reset_lem : maybe_reset_abort t quiet ≡ ok tt quiet
  unfolding maybe_reset_abort reset_abort assign
  reset_lem = rw (==_ne nz) (
      rw (ap (λ (c : Closure). is_abort_all c.abort_status) quiet-t ∙ ap is_abort_all h.going) (
        rw (==_ne nz) (
          ap (λ (f : ℕ → Closure). ok tt (record quiet { closure = f }))
            (update_same quiet.closure t _ (
              ap (λ (a : Abort). record (quiet.closure t) { abort_status = a })
                (sym (ap (λ (c : Closure). c.abort_status) quiet-t ∙ h.going)))))))

  pub held_cache : get_cache t held ≡ ok (held.caches w) held
  held_cache = get_cache_lem ws t w held (record {
    there = nz;
    locked = ap (λ (c : Closure). c.mutex_owner) held-t;
    running = ap (λ (c : Closure). c.status) held-t ∙ h.running;
    cache = cache_lem;
  })

  pub sync_start :
      Quiet code (s.closure t).frame (s.closure t).complete_inlets s.memory
      → Cilk_sync code fuel ws s ≡ sync_tail ws t (not ((s.closure t).join_counter == 0)) quiet
  unfolding Cilk_sync Closure_has_children Closure_at_top_of_stack
  sync_start q =
      rw (lock_bottom_lem, working_lem, held_cache)
        (rw (==_eq top_lem) (
          rw (poll_lem q, bottom_lem, reset_lem)
            (rw (==_ne nz) (rw (ap (λ (c : Closure). c.join_counter) quiet-t) refl))))
