-- ===== src/Runtime/Sched/TestsSync.antt =====
-- The handlers of a worker's own closure (runtime/sched.c) at concrete inputs: worker 0 runs the
-- closure 5, at the bottom of its deque, with one frame on its stack.
use cilk.Common.{ℕ, ◌+◌, ◌≡◌, refl, true, false, none, some, [], ◌∷◌, arith, ok, Returns}
use cilk.Runtime.Sched.State.{Status, Closure, Sched}
use cilk.Runtime.Sched.Deque.Repr.{IsDeque}
use cilk.Runtime.Sched.Inlets.{run_inlet, default_inlet}
use cilk.Runtime.Sched.Inlets.Poll.{polled}
use cilk.Runtime.Sched.Return.{Cilk_exception_handler, Cilk_sync, Cilk_after_sync_slow_cp}
use cilk.Runtime.Sched.Return.Resume.{cleared, Cilk_exception_handler-goes_on}
use cilk.Runtime.Sched.Return.Result.{changed, no_time, Cilk_after_sync_slow_cp_lem}
use cilk.Runtime.Sched.Return.Sync.{CanSync, final_memory}
use cilk.Runtime.Sched.Return.Proceed.{Cilk_sync-proceeds}
use cilk.Runtime.Sched.Return.Suspend.{Suspended, Cilk_sync-suspends}
use cilk.Runtime.Sched.Tests.{world, closure_of}
use cilk.Runtime.Sched.TestsTree.{to_200, waiting_inlets}

-- the closure 5 has `n` children left
abbrev parent_of : ℕ → Closure
parent_of n = record (closure_of Status.running (some 0) none waiting_inlets) {
  join_counter = n;
  cp = 5;
  work = 9;
}

abbrev at_sync : ℕ → Sched
at_sync n = record (world (parent_of n) none) {
  caches = λ n. record { head = 0; tail = 1; exception = none; stack = λ i. 40 + i };
}

at_sync-IsDeque : (n : ℕ) → IsDeque (at_sync n) 0 (5 ∷ [])
at_sync-IsDeque n = record {
  links = (omega arith, refl, refl, refl, tt);
  top = refl;
  bottom = refl;
  distinct = (tt, tt);
}

at_sync-CanSync : (n : ℕ) → CanSync (at_sync n) 0 5 0 []
at_sync-CanSync n = record {
  deque_free = refl;
  deque = at_sync-IsDeque n;
  alive = refl;
  free = refl;
  running = refl;
  cache = refl;
  top = refl;
  framed = omega arith;
  frame_alive = refl;
  going = refl;
}

Cilk_sync-proceeds_example :
    Cilk_sync to_200 0 0 (at_sync 0)
    ≡ ok false (polled 5 [] (final_memory to_200 5 (at_sync 0)) (at_sync 0))
unfolding run_inlet default_inlet
Cilk_sync-proceeds_example =
    Cilk_sync-proceeds to_200 0 0 5 0 [] (at_sync 0) (at_sync-CanSync 0) refl (refl, (refl, tt))

Cilk_sync-suspends_example :
    Returns
      (Cilk_sync to_200 0 0 (at_sync 2))
      (λ r s'. (r ≡ true) × Suspended (at_sync 2) s' 0 5 [] (final_memory to_200 5 (at_sync 2)))
unfolding run_inlet default_inlet
Cilk_sync-suspends_example =
    Cilk_sync-suspends to_200 0 0 5 0 [] (at_sync 2) (at_sync-CanSync 2) (omega arith)
      (refl, (refl, tt))

Cilk_after_sync_slow_cp_lem_example :
    Cilk_after_sync_slow_cp 0 (7, 3) (at_sync 2) ≡ ok (16, 5) (changed no_time 5 (at_sync 2))
Cilk_after_sync_slow_cp_lem_example =
    Cilk_after_sync_slow_cp_lem 0 5 0 [] (at_sync 2) (at_sync-CanSync 2) 7 3

Cilk_exception_handler-goes_on_example :
    Cilk_exception_handler to_200 0 0 (some 6) 4 (at_sync 2)
    ≡ ok false (cleared 0 (polled 5 [] (final_memory to_200 5 (at_sync 2)) (at_sync 2)))
unfolding run_inlet default_inlet
Cilk_exception_handler-goes_on_example =
    Cilk_exception_handler-goes_on to_200 0 0 5 0 [] (at_sync 2) (at_sync-CanSync 2) (some 6) 4
      (refl, (refl, tt))
