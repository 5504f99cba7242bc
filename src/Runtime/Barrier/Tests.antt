-- ===== src/Runtime/Barrier/Tests.antt =====
-- Two workers in Cilk_barrier (runtime/barrier.c).
use cilk.Common.{ℕ, zero, suc, ◌+◌, ◌≡◌, ◌<◌, ◌≤◌, refl, arith}
use cilk.Runtime.Barrier.{
  counted, cleared, Barrier, barrier_init, turn, go_to, leave, set_worker, Steps, done, then_step,
  enter, count, clear, release,
}
use cilk.Runtime.Barrier.Rounds.{nobody_early}
use cilk.Runtime.Barrier.Release.{AllOut, all_leave}

abbrev entering : ℕ → Barrier → Barrier
entering w s = set_worker w (turn (s.workers w)) s

abbrev counting : ℕ → Barrier → Barrier
counting w s = record (set_worker w (go_to (counted (s.barrier_counter + 1)) (s.workers w)) s) {
  barrier_counter = s.barrier_counter + 1;
}

abbrev clearing : ℕ → Barrier → Barrier
clearing w s = record (set_worker w (go_to cleared (s.workers w)) s) { barrier_counter = 0 }

abbrev releasing : ℕ → Barrier → Barrier
releasing w s = record (set_worker w (leave (s.workers w)) s) {
  barrier_release = (s.workers w).barrier_direction;
}

abbrev both_in : Barrier
both_in = counting 0 (entering 1 (entering 0 barrier_init))

run : Steps 2 barrier_init both_in
run =
    then_step
      (then_step (then_step done (enter _ 0 (omega arith) refl)) (enter _ 1 (omega arith) refl))
      (count _ 0 (omega arith) refl)

abbrev one_out : Barrier
one_out = releasing 1 (clearing 1 (counting 1 both_in))

run_on : Steps 2 barrier_init one_out
run_on =
    then_step
      (then_step (then_step run (count _ 1 (omega arith) refl)) (clear _ 1 (omega arith) refl))
      (release _ 1 (omega arith) refl)

nobody_early_example :
    ((one_out.workers 1).passed ≤ (one_out.workers 0).entered)
    × ((one_out.workers 1).entered ≤ suc (one_out.workers 0).entered)
nobody_early_example = nobody_early 2 1 0 one_out run_on (omega arith) (omega arith)

passed_one : (one_out.workers 1).passed ≡ 1
passed_one = refl

both_once : (v : ℕ) → v < 2 → (both_in.workers v).entered ≡ 1
both_once zero l = refl
both_once (suc zero) l = refl
both_once (suc (suc v)) l = absurd (omega arith)

all_leave_example : (t : Barrier) × Steps 2 both_in t × AllOut 2 1 t
all_leave_example = all_leave 2 1 both_in (omega arith) run both_once
