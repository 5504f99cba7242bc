-- ===== src/Runtime/Sched/Joined/Worker.antt =====
-- The scheduler loop and what it does with a closure (runtime/sched.c) count the children.
use cilk.Common.{ℕ, refl, false, ok, assertion, update}
use cilk.Runtime.Sched.State.{Status}
use cilk.Runtime.Sched.Inlets.{InletCode}
use cilk.Runtime.Sched.Execute.{
  rts_rand, setup_for_execution, add_to_own, execute, execute_ready, return_value, do_status,
  do_what_it_says, local_work, try_steal, scheduler_round, make_exit_inlet_closure,
  Cilk_exit_from_user_main, Cilk_remove_and_free_closure_and_frame,
}
use cilk.Runtime.Sched.Joined.Keep.{Keeps, Keeps-fail, Keeps-other}
use cilk.Runtime.Sched.Joined.Aborts.{keep_abort}
use cilk.Runtime.Sched.Joined.Moves.{Counts}
use cilk.Runtime.Sched.Joined.Children.{Keeps-make_inlet}
use cilk.Runtime.Sched.Joined.Promote.{Keeps-steal}
use cilk.Runtime.Sched.Joined.Inlets.{Keeps-poll}
use cilk.Runtime.Sched.Joined.Handlers.{Keeps-return}

module _ (code : InletCode) (d : ℕ → ℕ) where
  Keeps-rand : (ws : ℕ) → Keeps (Counts d) (rts_rand ws)
  unfolding rts_rand
  Keeps-rand ws = Keeps-other _ _ (λ s. refl) (λ s. refl)

  Keeps-setup : (ws t : ℕ) → Keeps (Counts d) (setup_for_execution ws t)
  unfolding setup_for_execution
  Keeps-setup ws t = search keep_abort depth 60

  Keeps-add_own : (ws t : ℕ) → Keeps (Counts d) (add_to_own ws t)
  unfolding add_to_own
  Keeps-add_own ws t = search keep_abort depth 60

  Keeps-execute : (fuel ws t : ℕ) → Keeps (Counts d) (execute code fuel ws t)
  unfolding execute
  Keeps-execute fuel ws t =
      search (keep_abort, Keeps-setup, Keeps-add_own, Keeps-poll code d) depth 60

  Keeps-ready : (fuel ws t : ℕ) → Keeps (Counts d) (execute_ready code fuel ws t)
  unfolding execute_ready
  Keeps-ready fuel ws t = search (keep_abort, Keeps-execute) depth 60

  Keeps-value : (fuel ws t : ℕ) → Keeps (Counts d) (return_value code fuel ws t)
  unfolding return_value
  Keeps-value fuel ws t = search (keep_abort, Keeps-return code d) depth 60

  Keeps-status : (fuel ws t : ℕ) (x : Status) → Keeps (Counts d) (do_status code fuel ws t x)
  unfolding do_status
  Keeps-status fuel ws t Status.ready = Keeps-ready fuel ws t
  Keeps-status fuel ws t Status.returning = Keeps-value fuel ws t
  Keeps-status fuel ws t Status.running = Keeps-fail assertion
  Keeps-status fuel ws t Status.suspended = Keeps-fail assertion

  pub Keeps-do : (fuel ws t : ℕ) → Keeps (Counts d) (do_what_it_says code fuel ws t)
  unfolding do_what_it_says
  Keeps-do fuel ws t = search (keep_abort, Keeps-status) depth 60

  Keeps-local : (ws : ℕ) → Keeps (Counts d) (local_work ws)
  unfolding local_work
  Keeps-local ws = search keep_abort depth 60

  Keeps-try : (size ws : ℕ) → Keeps (Counts d) (try_steal size ws)
  unfolding try_steal
  Keeps-try size ws = search (keep_abort, Keeps-rand, Keeps-steal d) depth 60

  pub Keeps-round : (fuel size ws t : ℕ) → Keeps (Counts d) (scheduler_round code fuel size ws t)
  unfolding scheduler_round
  Keeps-round fuel size ws t = search (keep_abort, Keeps-local, Keeps-try, Keeps-do) depth 60

  Keeps-exit_inlet : (cl res : ℕ) → Keeps (Counts d) (make_exit_inlet_closure cl res)
  unfolding make_exit_inlet_closure
  Keeps-exit_inlet cl res = search (keep_abort, Keeps-make_inlet) depth 60

  pub Keeps-exit :
      (fuel ws cl res : ℕ) → Keeps (Counts d) (Cilk_exit_from_user_main code fuel ws cl res)
  unfolding Cilk_exit_from_user_main
  Keeps-exit fuel ws cl res = search (keep_abort, Keeps-exit_inlet, Keeps-poll code d) depth 60

  free_frame :
      (f : ℕ)
      → Keeps (Counts d) (λ s.
        ok
          (tt {0})
          (record s { frames = update s.frames f (record (s.frames f) { magic = false }) }))
  free_frame f = Keeps-other _ _ (λ s. refl) (λ s. refl)

  pub Keeps-remove :
      (ws f pn : ℕ) → Keeps (Counts d) (Cilk_remove_and_free_closure_and_frame ws f pn)
  unfolding Cilk_remove_and_free_closure_and_frame
  Keeps-remove ws f pn = search (keep_abort, free_frame) depth 60
