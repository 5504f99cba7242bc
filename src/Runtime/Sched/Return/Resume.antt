-- ===== src/Runtime/Sched/Return/Resume.antt =====
-- Cilk_exception_handler of runtime/sched.c where there is nothing to do but to go on.
use cilk.Common.{
  ℕ, ◌≡◌, ◌≢◌, refl, sym, ◌∙◌, ap, true, false, Option, none, some, List, [], ◌∷◌, ◌++◌, ok, update,
  update_same, ==_ne, ==_refl, leb, ◌||◌, pure, check, ◌>>=◌, ◌>>◌, arith, subst,
}
use cilk.Runtime.Sched.State.{
  get_cache, deref, is_running, is_returning, Status, Abort, Closure, Cache, Frame, Sched, Memory,
  assign, is_no_abort, is_abort_all,
}
use cilk.Runtime.Sched.Deque.Repr.{IsDeque}
use cilk.Runtime.Sched.Deque.{deque_peek_bottom}
use cilk.Runtime.Sched.Deque.Bottom.{deque_peek_bottom_lem}
use cilk.Runtime.Sched.Abort.{
  reset_exception_pointer, maybe_reset_abort, reset_abort, Closure_being_aborted,
}
use cilk.Runtime.Sched.Inlets.{InletCode}
use cilk.Runtime.Sched.Inlets.Poll.{Quiet, polled}
use cilk.Runtime.Sched.Return.{
  Cilk_exception_handler, handle_exception, relock, check_frame, unlock_bottom,
}
use cilk.Runtime.Sched.Steps.{
  hold, hold_deque, deque_unlock_lem, Closure_unlock_lem, Closure_assert_ownership_lem,
}
use cilk.Runtime.Sched.Steal.Leave.{both}
use cilk.Runtime.Sched.Return.Sync.{
  CanSync, after_inlets, final_memory, nz, quiet-t, quiet-owner, quiet-IsDeque, lock_bottom_lem,
  poll_lem,
}
use cilk.Runtime.Sched.Return.Proceed.{restored}

-- the exception pointer of the cache `w` is at its head again
abbrev pub cleared : ℕ → Sched → Sched
cleared w s = record s {
  caches = update s.caches w (record (s.caches w) { exception = some (s.caches w).head });
}

-- A locked closure on the cache `w` that is not being aborted.
record Working (ws t w : ℕ) (q : Sched) : Type 0 where
  there : t ≢ 0
  owner : (q.closure t).mutex_owner ≡ some ws
  going : (q.closure t).abort_status ≡ Abort.no_abort
  running : (q.closure t).status ≡ Status.running
  cache : (q.closure t).cache ≡ some w
  framed : (q.closure t).frame ≢ 0
  frame_alive : (q.frames (q.closure t).frame).magic ≡ true

module _ (ws t w : ℕ) (q : Sched) (h : Working ws t w q) where
  clear_lem : reset_exception_pointer ws t q ≡ ok tt (cleared w q)
  unfolding reset_exception_pointer
  clear_lem =
      rw (Closure_assert_ownership_lem ws t q h.there h.owner)
        (rw (==_ne h.there) (rw h.cache refl))

  cleared-Working : Working ws t w (cleared w q)
  cleared-Working = record {
    there = h.there;
    owner = h.owner;
    going = h.going;
    running = h.running;
    cache = h.cache;
    framed = h.framed;
    frame_alive = h.frame_alive;
  }

  reset_lem : maybe_reset_abort t q ≡ ok tt q
  unfolding maybe_reset_abort reset_abort assign
  reset_lem = rw (==_ne h.there) (
      rw (ap is_abort_all h.going) (
        rw (==_ne h.there) (
          ap (λ (f : ℕ → Closure). ok tt (record q { closure = f }))
            (update_same q.closure t _
              (ap (λ (a : Abort). record (q.closure t) { abort_status = a }) (sym h.going))))))

  being_aborted_lem : Closure_being_aborted ws t q ≡ ok false q
  unfolding Closure_being_aborted
  being_aborted_lem =
      rw (Closure_assert_ownership_lem ws t q h.there h.owner)
        (rw (==_ne h.there) (rw (ap is_no_abort h.going) refl))

  check_frame_lem : check_frame t q ≡ ok tt q
  unfolding check_frame
  check_frame_lem = rw (==_ne h.there) (rw (==_ne h.framed) (rw h.frame_alive refl))

  cache_lem : get_cache t q ≡ ok (q.caches w) q
  cache_lem = rw (==_ne h.there) (rw h.cache refl)

  handle_lem :
      (result : Option ℕ) (size : ℕ)
      → leb (q.caches w).tail (q.caches w).head ≡ false
      → handle_exception ws t result size q ≡ ok false q
  unfolding handle_exception
  handle_lem result size e =
      rw cache_lem
        (rw (==_ne h.there) (rw e (rw (check_frame_lem, being_aborted_lem) (rw reset_lem refl))))

module _ (ws t w : ℕ) (q : Sched) (h : Working ws t w q) where
  -- what the handler does when the inlets have been run, up to the release of the locks
  rest_lem :
      (result : Option ℕ) (size : ℕ) (xs : List ℕ)
      → (q.deques ws).mutex_owner ≡ some ws
      → IsDeque q ws (xs ++ (t ∷ []))
      → leb ((cleared w q).caches w).tail ((cleared w q).caches w).head ≡ false
      → (do
        t1 ← deque_peek_bottom ws ws
        relock ws t t1
        reset_exception_pointer ws t1
        c ← deref t1
        check (is_running c.status || is_returning c.status)
        res ← handle_exception ws t1 result size
        unlock_bottom ws t1
        pure res)
          q
        ≡ (do unlock_bottom ws t; pure false) (cleared w q)
  unfolding relock
  rest_lem result size xs o d e = rw (deque_peek_bottom_lem ws ws t xs q o d) (
      rw (==_refl t) (
        rw (clear_lem ws t w q h) (
          rw (==_ne h.there) (
            rw h.running (
              rw (handle_lem ws t w (cleared w q) (cleared-Working ws t w q h) result size e)
                refl)))))

module _ (code : InletCode) (fuel ws t w : ℕ) (xs : List ℕ) (s : Sched)
    (h : CanSync s ws t w xs) where
  abbrev quiet : Sched
  quiet = after_inlets code ws t s

  abbrev m : Memory
  m = final_memory code t s

  quiet_caches : quiet.caches ≡ s.caches
  unfolding polled both hold hold_deque
  quiet_caches = refl

  quiet_frames : quiet.frames ≡ s.frames
  unfolding polled both hold hold_deque
  quiet_frames = refl

  quiet-Working : Working ws t w quiet
  quiet-Working =
      let e = quiet-t code fuel ws t w xs s h in
      record {
        there = nz code fuel ws t w xs s h;
        owner = ap (λ (c : Closure). c.mutex_owner) e;
        going = ap (λ (c : Closure). c.abort_status) e ∙ h.going;
        running = ap (λ (c : Closure). c.status) e ∙ h.running;
        cache = ap (λ (c : Closure). c.cache) e ∙ h.cache;
        framed = subst (λ (c : Closure). c.frame ≢ 0) (sym e) h.framed;
        frame_alive =
            ap (λ (c : Closure). (quiet.frames c.frame).magic) e
            ∙ ap (λ (f : ℕ → Frame). (f (s.closure t).frame).magic) quiet_frames
            ∙ h.frame_alive;
      }

  above_head : leb ((cleared w quiet).caches w).tail ((cleared w quiet).caches w).head ≡ false
  above_head = rw (==_refl w) (
      subst (λ (f : ℕ → Cache). leb (f w).tail (f w).head ≡ false) (sym quiet_caches)
        (let e = h.top in ground arith))

  unlock_lem : unlock_bottom ws t (cleared w quiet) ≡ ok tt (cleared w (polled t [] m s))
  unfolding unlock_bottom
  unlock_lem =
      let k = cleared-Working ws t w quiet quiet-Working in
      rw
        (Closure_unlock_lem ws t (cleared w quiet) k.there
          (ap (λ (c : Closure). c.magic) (quiet-t code fuel ws t w xs s h) ∙ h.alive) k.owner)
        (rw (deque_unlock_lem ws ws (hold none t (cleared w quiet))) (
          unfold hold hold_deque in
          ap (λ (x : Sched). ok tt (cleared w x)) (restored code fuel ws t w xs s h)))

  -- A worker in the exception handler, in a closure at the top of its stack that is not being aborted and
  -- with inlets none of which asks for an abort, goes on with its frame: its inlets have been run in their
  -- order, the exception is taken back, no lock is held, and nothing else is changed.
  pub Cilk_exception_handler-goes_on :
      (result : Option ℕ) (size : ℕ)
      → Quiet code (s.closure t).frame (s.closure t).complete_inlets s.memory
      → Cilk_exception_handler code fuel ws result size s
        ≡ ok false (cleared w (polled t [] (final_memory code t s) s))
  unfolding Cilk_exception_handler
  Cilk_exception_handler-goes_on result size q = rw (lock_bottom_lem code fuel ws t w xs s h) (
      rw (poll_lem code fuel ws t w xs s h q) (
        rest_lem ws t w quiet quiet-Working result size xs (quiet-owner code fuel ws t w xs s h)
          (quiet-IsDeque code fuel ws t w xs s h) above_head
        ∙ rw unlock_lem refl))
