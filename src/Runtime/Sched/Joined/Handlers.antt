-- ===== src/Runtime/Sched/Joined/Handlers.antt =====
-- The handlers that compiled code and the scheduler's loop call (runtime/sched.c) count the children.
use cilk.Common.{ℕ, Option}
use cilk.Runtime.Sched.State.{Closure, deref}
use cilk.Runtime.Sched.Closure.{Closure_lock, Closure_unlock, Closure_remove_child, Closure_destroy}
use cilk.Runtime.Sched.Inlets.{InletCode, provably_good_steal_maybe, complete_and_enque_inlet}
use cilk.Runtime.Sched.Return.{
  charge_time, check_returning, check_parent, count_down, notify_parent, Closure_return,
  Closure_suspend, deque_assert_is_bottom, lock_bottom, unlock_bottom, check_frame, check_working,
  Cilk_sync, Cilk_after_sync_slow_cp, move_result_into_closure, abort_last, abort_frame,
  handle_exception, relock, Cilk_exception_handler, Cilk_set_result, Cilk_abort_slow,
}
use cilk.Runtime.Sched.Joined.Keep.{Keeps, Keeps-bind, Keeps-deref, Keeps-pure}
use cilk.Runtime.Sched.Joined.Basic.{Keeps-lock, Keeps-unlock, Keeps-destroy}
use cilk.Runtime.Sched.Joined.Aborts.{keep_abort}
use cilk.Runtime.Sched.Joined.Moves.{
  Moves-bind, Moves-keep, Move-keep, Keeps-move, Counts, bump, Moves-count_down,
}
use cilk.Runtime.Sched.Joined.Children.{Moves-remove}
use cilk.Runtime.Sched.Joined.Inlets.{
  Keeps-poll, Keeps-good_steal, Keeps-enque, Keeps-notify, Keeps-charge, Keeps-check_returning,
  Keeps-check_parent,
}

module _ (code : InletCode) (d : ℕ → ℕ) where
  -- Between the two assignments the parent has a child that its list does not show.
  pub Keeps-return : (fuel ws t : ℕ) → Keeps (Counts d) (Closure_return code fuel ws t)
  unfolding Closure_return
  Keeps-return fuel ws t =
      Keeps-bind (check_returning ws t) _ (Keeps-check_returning code d ws t) (λ u.
        Keeps-bind (deref t) _ (Keeps-deref t) (λ c.
          let b = bump d c.parent in
          Keeps-bind (Closure_lock ws c.parent) _ (Keeps-lock ws c.parent) (λ u.
            Keeps-bind (check_parent c.parent) _ (Keeps-check_parent code d c.parent) (λ u.
              Keeps-move (
                Moves-bind {J = Counts b} (Closure_remove_child ws c.parent t) _
                  (Moves-remove d ws c.parent t)
                  (λ i. Moves-keep (Closure_lock ws t) _ (Keeps-lock ws t) (λ u.
                    Moves-keep (complete_and_enque_inlet ws c.parent t i) _
                      (Keeps-enque code b ws c.parent t i)
                      (λ u.
                        Moves-keep (notify_parent code fuel ws c.parent) _
                          (Keeps-notify code b fuel ws c.parent)
                          (λ u.
                            Moves-keep (charge_time ws c.parent) _ (Keeps-charge code b ws c.parent)
                              (λ u.
                                Moves-bind (count_down c.parent) _ (Moves-count_down d c.parent)
                                  (λ u.
                                    Moves-keep (provably_good_steal_maybe code fuel ws c.parent) _
                                      (Keeps-good_steal code d fuel ws c.parent)
                                      (λ r.
                                        Moves-keep (Closure_unlock ws c.parent) _
                                          (Keeps-unlock ws c.parent)
                                          (λ u.
                                            Moves-keep (Closure_unlock ws t) _ (Keeps-unlock ws t)
                                              (λ u.
                                                Moves-keep (Closure_destroy t) _ (Keeps-destroy t)
                                                  (λ u. Move-keep (Keeps-pure r))))))))))))))))

  Keeps-suspend : (ws cl : ℕ) → Keeps (Counts d) (Closure_suspend ws cl)
  unfolding Closure_suspend
  Keeps-suspend ws cl = search keep_abort depth 40

  Keeps-is_bottom : (ws t : ℕ) → Keeps (Counts d) (deque_assert_is_bottom ws t)
  unfolding deque_assert_is_bottom
  Keeps-is_bottom ws t = search keep_abort depth 40

  Keeps-lock_bottom : (ws : ℕ) → Keeps (Counts d) (lock_bottom ws)
  unfolding lock_bottom
  Keeps-lock_bottom ws = search keep_abort depth 40

  Keeps-unlock_bottom : (ws t : ℕ) → Keeps (Counts d) (unlock_bottom ws t)
  unfolding unlock_bottom
  Keeps-unlock_bottom ws t = search keep_abort depth 40

  Keeps-frame : (t : ℕ) → Keeps (Counts d) (check_frame t)
  unfolding check_frame
  Keeps-frame t = search keep_abort depth 40

  Keeps-working : (t : ℕ) → Keeps (Counts d) (check_working t)
  unfolding check_working
  Keeps-working t = search (keep_abort, Keeps-frame) depth 40

  pub Keeps-sync : (fuel ws : ℕ) → Keeps (Counts d) (Cilk_sync code fuel ws)
  unfolding Cilk_sync
  Keeps-sync fuel ws =
      search
        (
          keep_abort,
          Keeps-poll code d,
          Keeps-suspend,
          Keeps-is_bottom,
          Keeps-lock_bottom,
          Keeps-unlock_bottom,
          Keeps-working,
        )
        depth 60

  pub Keeps-after_sync :
      (ws : ℕ) (times : ℕ × ℕ) → Keeps (Counts d) (Cilk_after_sync_slow_cp ws times)
  unfolding Cilk_after_sync_slow_cp
  Keeps-after_sync ws (work, cp) =
      search (keep_abort, Keeps-lock_bottom, Keeps-unlock_bottom, Keeps-working) depth 60

  Keeps-move_result :
      (ws t : ℕ) (r : Option ℕ) (size : ℕ) → Keeps (Counts d) (move_result_into_closure ws t r size)
  unfolding move_result_into_closure
  Keeps-move_result ws t r size = search keep_abort depth 40

  Keeps-abort_last : (ws t : ℕ) (c : Closure) → Keeps (Counts d) (abort_last ws t c)
  unfolding abort_last
  Keeps-abort_last ws t c = search (keep_abort, Keeps-suspend) depth 40

  Keeps-abort_frame : (ws t : ℕ) → Keeps (Counts d) (abort_frame ws t)
  unfolding abort_frame
  Keeps-abort_frame ws t = search (keep_abort, Keeps-abort_last) depth 60

  Keeps-handle :
      (ws t : ℕ) (r : Option ℕ) (size : ℕ) → Keeps (Counts d) (handle_exception ws t r size)
  unfolding handle_exception
  Keeps-handle ws t r size =
      search (keep_abort, Keeps-move_result, Keeps-frame, Keeps-abort_frame) depth 60

  Keeps-relock : (ws t u : ℕ) → Keeps (Counts d) (relock ws t u)
  unfolding relock
  Keeps-relock ws t u = search keep_abort depth 40

  pub Keeps-exception :
      (fuel ws : ℕ) (r : Option ℕ) (size : ℕ)
      → Keeps (Counts d) (Cilk_exception_handler code fuel ws r size)
  unfolding Cilk_exception_handler
  Keeps-exception fuel ws r size =
      search
        (
          keep_abort,
          Keeps-poll code d,
          Keeps-lock_bottom,
          Keeps-unlock_bottom,
          Keeps-relock,
          Keeps-handle,
        )
        depth 60

  pub Keeps-set_result :
      (ws : ℕ) (r : Option ℕ) (size : ℕ) → Keeps (Counts d) (Cilk_set_result ws r size)
  unfolding Cilk_set_result
  Keeps-set_result ws r size =
      search (keep_abort, Keeps-lock_bottom, Keeps-unlock_bottom, Keeps-working, Keeps-move_result)
        depth 60

  pub Keeps-abort_slow : (fuel ws : ℕ) → Keeps (Counts d) (Cilk_abort_slow code fuel ws)
  unfolding Cilk_abort_slow
  Keeps-abort_slow fuel ws =
      search (keep_abort, Keeps-poll code d, Keeps-lock_bottom, Keeps-unlock_bottom) depth 60
