-- ===== src/Runtime/Sched/Tests.antt =====
-- The scheduler of runtime/sched.c at concrete inputs: worker 1 against worker 0, whose deque holds the
-- closure 5 with the frame 40.
use cilk.Common.{
  ℕ, ◌+◌, ◌≡◌, refl, true, false, Option, none, some, List, [], ◌∷◌, arith, ok, Returns, ◌==◌,
  if◌then◌else◌, inl, inr,
}
use cilk.Runtime.Sched.State.{Status, Abort, Inlet, ProcInfo, Closure, Sched}
use cilk.Runtime.Sched.Deque.{deque_xtract_top, deque_xtract_bottom, deque_add_bottom}
use cilk.Runtime.Sched.Deque.Repr.{IsDeque}
use cilk.Runtime.Sched.Deque.Top.{Taken, deque_xtract_top_lem}
use cilk.Runtime.Sched.Deque.Bottom.{deque_xtract_bottom_lem}
use cilk.Runtime.Sched.Deque.Add.{Added, deque_add_bottom_lem}
use cilk.Runtime.Sched.Steal.{Closure_steal}
use cilk.Runtime.Sched.Steal.Leave.{Closure_steal-leaves}
use cilk.Runtime.Sched.Steal.Take.{Stolen, Closure_steal-takes}
use cilk.Runtime.Sched.Steal.Theft.{Theft, Closure_steal-splits}

abbrev pub info : ProcInfo
info = record { size = 4; index = some 8; inlet = 0; argsize = 0; argindex = 0 }

-- a closure that no one holds, with the frame 40
abbrev pub closure_of : Status → Option ℕ → Option ℕ → List Inlet → Closure
closure_of st cache owner is = record {
  mutex_owner = owner;
  join_counter = 0;
  status = st;
  return_value = none;
  return_size = 0;
  complete_inlets = is;
  incomplete_inlets = [];
  parent = 0;
  frame = 40;
  abort_status = Abort.no_abort;
  cache = cache;
  magic = true;
  malloced = false;
  cp = 0;
  work = 0;
}

abbrev pub dead : Closure
dead = record (closure_of Status.ready none none []) { magic = false }

-- the deque of worker 0 holds closure 5; its stack holds the frames 40 and 41
abbrev pub world : Closure → Option ℕ → Sched
world c holder = record {
  closure = λ n. if n == 5 then c else dead;
  links = λ n. record {
    next_ready = 0;
    prev_ready = 0;
    owner_ready_deque = if n == 5 then some 0 else none;
  };
  deques = λ n.
      if n == 0
      then record { mutex_owner = holder; top = 5; bottom = 5 }
      else record { mutex_owner = none; top = 0; bottom = 0 };
  caches = λ n. record { head = 0; tail = 2; exception = some 0; stack = λ i. 40 + i };
  frames = λ n. record { entry = 1; receiver = 0; sig = λ e. info; magic = true };
  memory = λ n. none;
  workers = λ n. record { cp_hack = 0; work_hack = 0; rand_next = 1 };
  fresh = 9;
}

world-IsDeque : (c : Closure) (o : Option ℕ) → IsDeque (world c o) 0 (5 ∷ [])
world-IsDeque c o = record {
  links = (omega arith, refl, refl, refl, tt);
  top = refl;
  bottom = refl;
  distinct = (tt, tt);
}

deque_xtract_top_lem_example :
    Returns
      (deque_xtract_top 1 0 (world dead (some 1)))
      (λ r s'. (r ≡ 5) × Taken (world dead (some 1)) s' 0 5 [])
deque_xtract_top_lem_example =
    deque_xtract_top_lem 1 0 5 [] (world dead (some 1)) refl (world-IsDeque dead (some 1))

deque_xtract_bottom_lem_example :
    Returns
      (deque_xtract_bottom 1 0 (world dead (some 1)))
      (λ r s'. (r ≡ 5) × Taken (world dead (some 1)) s' 0 5 [])
deque_xtract_bottom_lem_example =
    deque_xtract_bottom_lem 1 0 5 [] (world dead (some 1)) refl (world-IsDeque dead (some 1))

deque_add_bottom_lem_example :
    Returns
      (deque_add_bottom 1 6 0 (world dead (some 1)))
      (λ r s'. Added (world dead (some 1)) s' 0 6 (5 ∷ []))
deque_add_bottom_lem_example =
    deque_add_bottom_lem 1 6 0 (5 ∷ []) (world dead (some 1)) refl (omega arith) refl
      (world-IsDeque dead (some 1))

abbrev at_rest : Sched
at_rest = world (closure_of Status.ready none none []) none

abbrev at_work : Sched
at_work = world (closure_of Status.running (some 0) none []) none

abbrev returning : Sched
returning = world (closure_of Status.returning (some 0) none []) none

Closure_steal-leaves_example : Closure_steal 1 0 returning ≡ ok 0 returning
Closure_steal-leaves_example =
    Closure_steal-leaves 1 0 5 [] returning
      (record { deque_free = refl; deque = world-IsDeque _ none; alive = refl; free = refl })
      (inr (inl refl))

Closure_steal-takes_example :
    Returns (Closure_steal 1 0 at_rest) (λ r s'. (r ≡ 5) × Stolen at_rest s' 0 5 [])
Closure_steal-takes_example =
    Closure_steal-takes 1 0 5 [] at_rest
      (record { deque_free = refl; deque = world-IsDeque _ none; alive = refl; free = refl }) refl
      refl

Closure_steal-splits_example :
    Returns (Closure_steal 1 0 at_work) (λ r s'. (r ≡ 5) × Theft at_work s' 0 5 0 9)
Closure_steal-splits_example =
    Closure_steal-splits 1 0 5 0 at_work
      (record { deque_free = refl; deque = world-IsDeque _ none; alive = refl; free = refl })
      (record {
        running = refl;
        cache = refl;
        spare = omega arith;
        exception = refl;
        framed = record { framed = omega arith; spawned = omega arith; alive = refl };
        old = omega arith;
      })
      refl
