-- ===== src/Runtime/Barrier.antt =====
-- The sense-reversing barrier of runtime/barrier.c, for the workers below `active_size`.
pub mod Count
pub mod Stage
pub mod Inv
pub mod Keep
pub mod Rank
pub mod Rounds
pub mod Next
pub mod Release
pub mod Tests
use cilk.Common.{ℕ, suc, ◌+◌, ◌≡◌, ◌≢◌, ◌<◌, Bool, true, false, not, update}

-- Where a worker is: outside of the barrier; past the change of its direction; past the lock, with its
-- `local_counter`; past the reset of the counter.
pub data Place : Type 0 where
  outside arrived : Place
  counted : ℕ → Place
  cleared : Place

-- `entered` and `passed` count the calls of the worker and their returns; the code does not keep them.
pub record WorkerState : Type 0 where
  pub barrier_direction : Bool
  pub place : Place
  pub entered : ℕ
  pub passed : ℕ

pub record Barrier : Type 0 where
  pub barrier_counter : ℕ
  pub barrier_release : Bool
  pub workers : ℕ → WorkerState

-- Cilk_barrier_init, and Cilk_barrier_per_worker_init for each worker
abbrev pub barrier_init : Barrier
barrier_init = record {
  barrier_counter = 0;
  barrier_release = false;
  workers = λ w. record { barrier_direction = false; place = outside; entered = 0; passed = 0 };
}

-- what a worker does to its own state
abbrev pub turn : WorkerState → WorkerState
turn w = record w {
  barrier_direction = not w.barrier_direction;
  place = arrived;
  entered = suc w.entered;
}

abbrev pub go_to : Place → WorkerState → WorkerState
go_to p w = record w { place = p }

abbrev pub leave : WorkerState → WorkerState
leave w = record w { place = outside; passed = suc w.passed }

abbrev pub set_worker : ℕ → WorkerState → Barrier → Barrier
set_worker w x s = record s { workers = update s.workers w x }

-- One worker takes a step. The counter is raised and read under the lock, which is one step here; a
-- round of the waiting loop that goes on changes nothing.
pub data Step (n : ℕ) : Barrier → Barrier → Type 0 where
  enter :
      (s : Barrier) (w : ℕ)
      → w < n
      → (s.workers w).place ≡ outside
      → Step n s (set_worker w (turn (s.workers w)) s)
  count :
      (s : Barrier) (w : ℕ)
      → w < n
      → (s.workers w).place ≡ arrived
      → Step n s (record (set_worker w (go_to (counted (s.barrier_counter + 1)) (s.workers w)) s) {
        barrier_counter = s.barrier_counter + 1;
      })
  clear :
      (s : Barrier) (w : ℕ)
      → w < n
      → (s.workers w).place ≡ counted n
      → Step n s (record (set_worker w (go_to cleared (s.workers w)) s) { barrier_counter = 0 })
  release :
      (s : Barrier) (w : ℕ)
      → w < n
      → (s.workers w).place ≡ cleared
      → Step n s (record (set_worker w (leave (s.workers w)) s) {
        barrier_release = (s.workers w).barrier_direction;
      })
  pass :
      (s : Barrier) (w k : ℕ)
      → w < n
      → (s.workers w).place ≡ counted k
      → k ≢ n
      → s.barrier_release ≡ (s.workers w).barrier_direction
      → Step n s (set_worker w (leave (s.workers w)) s)

pub data Steps (n : ℕ) (s : Barrier) : Barrier → Type 0 where
  done : Steps n s s
  then_step : {t u : Barrier} → Steps n s t → Step n t u → Steps n s u
