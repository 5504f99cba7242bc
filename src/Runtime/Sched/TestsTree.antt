-- ===== src/Runtime/Sched/TestsTree.antt =====
-- Inlets and the count of children (runtime/sched.c) at concrete inputs.
use cilk.Common.{
  ◌≡◌, refl, false, none, some, List, [], ◌∷◌, arith, ok, fault, out_of_fuel, Run, inl, update,
}
use cilk.Runtime.Sched.State.{Status, Inlet, Sched, assign}
use cilk.Runtime.Sched.Inlets.{
  InletCode, run_inlet, default_inlet, poll_inlets, works_below, apply_inlets, apply_step,
  provably_good_steal_maybe,
}
use cilk.Runtime.Sched.Deque.{
  deque_lock, deque_unlock, deque_xtract_bottom, deque_peek_top, deque_xtract_top, unlink_top,
  deque_add_bottom, deque_assert_ownership,
}
use cilk.Runtime.Sched.Closure.{
  Closure_lock, Closure_unlock, Closure_checkmagic, Closure_assert_ownership,
  Closure_assert_alienation, Closure_at_top_of_stack, take_mutex,
}
use cilk.Runtime.Sched.Abort.{Closure_being_aborted, reset_exception_pointer, reset_abort}
use cilk.Runtime.Sched.Steal.{Closure_steal, steal_locked, steal_by_status, steal_ready}
use cilk.Runtime.Sched.Inlets.Poll.{IsHeld, polled, run_all, poll_inlets_lem}
use cilk.Runtime.Sched.Inlets.GoodSteal.{made_ready, good_steal-takes}
use cilk.Runtime.Sched.Execute.{
  add_to_own, scheduler_round, local_work, try_steal, rts_rand, do_what_it_says, do_status,
  execute_ready, execute, setup_for_execution,
}
use cilk.Runtime.Sched.Joined.Trace.{round, start, handled, perform, IsJoined, Reach-IsJoined}
use cilk.Runtime.Sched.Tests.{world, closure_of}

-- an inlet at 1 that puts its argument at 200
abbrev pub to_200 : InletCode
to_200 inlet frame args receiver m = (update m 200 args, false)

abbrev pub waiting_inlets : List Inlet
waiting_inlets =
    (record { child = 7; receiver = 100; inlet = 0; argsize = 4; args = some 42 })
    ∷ (record { child = 8; receiver = 0; inlet = 1; argsize = 4; args = some 43 })
    ∷ []

-- closure 5 is suspended, in no deque, and locked by worker 1
abbrev waiting : Sched
waiting = record (world (closure_of Status.suspended none (some 1) waiting_inlets) none) {
  links = λ n. record { next_ready = 0; prev_ready = 0; owner_ready_deque = none };
}

waiting-IsHeld : IsHeld 1 5 waiting
waiting-IsHeld = record { there = omega arith; locked = refl; going = refl }

poll_inlets_lem_example :
    poll_inlets to_200 0 1 5 waiting
    ≡ ok tt (polled 5 [] (run_all to_200 40 waiting_inlets waiting.memory) waiting)
unfolding run_inlet default_inlet
poll_inlets_lem_example =
    poll_inlets_lem to_200 0 1 5 waiting waiting-IsHeld (inl refl) (refl, (refl, tt))

good_steal-takes_example :
    provably_good_steal_maybe to_200 0 1 5 waiting
    ≡ ok 5 (made_ready 5 (run_all to_200 40 waiting_inlets waiting.memory) waiting)
unfolding run_inlet default_inlet
good_steal-takes_example =
    good_steal-takes to_200 0 1 5 waiting waiting-IsHeld refl refl refl (refl, (refl, tt))

abbrev at_rest : Sched
at_rest = world (closure_of Status.ready none none []) none

at_rest-IsJoined : IsJoined at_rest
at_rest-IsJoined = record { counted = λ c. ground arith; alive = λ c m. ground (arith, m) }

abbrev state_of : {A : Type 0} → Run Sched A → Sched → Sched
state_of (ok a s) d = s
state_of (fault e) d = d
state_of out_of_fuel d = d

-- worker 1 steals closure 5, with the pseudo-random victim 0, and runs it
abbrev after_round : Sched
after_round = state_of (perform to_200 3 (round 2 1 0) at_rest) at_rest

one_round : perform to_200 3 (round 2 1 0) at_rest ≡ ok tt after_round
unfolding perform scheduler_round local_work deque_lock deque_xtract_bottom deque_unlock try_steal
    rts_rand Closure_steal deque_peek_top Closure_lock Closure_checkmagic take_mutex assign
    steal_locked Closure_being_aborted Closure_assert_ownership steal_by_status steal_ready
    deque_xtract_top unlink_top Closure_unlock do_what_it_says Closure_assert_alienation do_status
    execute_ready execute setup_for_execution reset_exception_pointer reset_abort poll_inlets
    works_below apply_inlets apply_step add_to_own deque_add_bottom deque_assert_ownership
    Closure_at_top_of_stack
one_round = refl

Reach-IsJoined_example : IsJoined after_round
Reach-IsJoined_example =
    Reach-IsJoined to_200 3 at_rest after_round at_rest-IsJoined
      (handled (round 2 1 0) start one_round)
