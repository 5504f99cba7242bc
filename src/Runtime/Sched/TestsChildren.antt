-- ===== src/Runtime/Sched/TestsChildren.antt =====
-- The children of a closure (runtime/sched.c) at concrete inputs: the closure 5, locked by worker 1,
-- waits for 7 and 8; the closure 6 is its new child.
use cilk.Common.{
  Bool-cases, inl, inr, if◌then◌else◌, ℕ, ◌+◌, ◌≡◌, refl, none, some, [], ◌∷◌, arith, ok, and_then,
  ◌==◌, Returns,
}
use cilk.Runtime.Sched.Abort.{recursively_signal_abort}
use cilk.Runtime.Sched.Abort.Free.{Below, child, within, next, Lower, IsFree}
use cilk.Runtime.Sched.Abort.Whole.{Aborts, IsBelow, children, recursively_signal_abort-Aborts}
use cilk.Runtime.Sched.State.{Abort, Status, Closure, Sched, Inlet}
use cilk.Runtime.Sched.Closure.{Closure_add_child, Closure_remove_child}
use cilk.Runtime.Sched.Closure.Children.{
  CanRemove, with_inlets, Closure_remove_child-takes, Closure_remove_child-Closure_add_child,
}
use cilk.Runtime.Sched.Steal.Finish.{CanFinish, awaited}
use cilk.Runtime.Sched.Tests.{world, closure_of}

abbrev awaits : ℕ → Inlet
awaits n = record { child = n; receiver = 100 + n; inlet = 0; argsize = 4; args = none }

abbrev parent : Closure
parent = record (closure_of Status.suspended none (some 1) []) {
  incomplete_inlets = awaits 7 ∷ awaits 8 ∷ [];
}

abbrev family : Sched
family = record (world parent none) {
  closure = λ n. if n == 5 then parent else closure_of Status.running none none [];
}

family-CanRemove : (n : ℕ) → CanRemove 1 5 (n + 6) family
family-CanRemove n = record {
  there = omega arith;
  child_there = omega arith;
  alive = refl;
  child_alive = ground arith;
  locked = refl;
}

family-CanFinish : CanFinish 1 5 6 family
family-CanFinish = record {
  there = omega arith;
  child_there = omega arith;
  differ = omega arith;
  locked = refl;
  alive = refl;
  child_free = refl;
  child_alive = refl;
  framed = omega arith;
  spawned = omega arith;
}

Closure_remove_child-takes_example :
    Closure_remove_child 1 5 8 family ≡ ok (awaits 8) (with_inlets 5 (awaits 7 ∷ []) family)
Closure_remove_child-takes_example =
    Closure_remove_child-takes 1 5 8 family (family-CanRemove 2) (awaits 8) (awaits 7 ∷ []) [] refl
      refl (omega arith, tt)

Closure_remove_child-Closure_add_child_example :
    and_then (Closure_add_child 1 5 6 family) (λ u. Closure_remove_child 1 5 6)
    ≡ ok (awaited 5 6 family) family
Closure_remove_child-Closure_add_child_example =
    Closure_remove_child-Closure_add_child 1 5 6 family family-CanFinish

-- The closure 7 runs on worker 2 and waits for 9; 8 and 9 are ready.
abbrev three : Sched
three = record (world parent none) {
  closure = λ n.
      if n == 5
      then parent
      else if n == 7
      then (record (closure_of Status.running (some 2) none []) {
        incomplete_inlets = awaits 9 ∷ [];
      })
      else closure_of Status.ready none none [];
}

abbrev rank : ℕ → ℕ
rank c = if c == 5 then 2 else if c == 7 then 1 else 0

three_ranks : (c : ℕ) → Lower rank (rank c) (three.closure c).incomplete_inlets
three_ranks c = elim (Bool-cases (c == 5)) [
  | inl e ↦ rw e (omega arith, (omega arith, tt))
  | inr e ↦ rw e (elim (Bool-cases (c == 7)) [ inl q ↦ rw q (omega arith, tt) | inr q ↦ rw q tt ])
]

Below-9 : (c : ℕ) → Below (children three) (awaits 9 ∷ []) c → IsFree (children three) three c
Below-9 c child = record {
  there = omega arith;
  alive = refl;
  free = refl;
  cached = inl refl;
  children = refl;
}
Below-9 c (within k) = elim k [ ]
Below-9 c (next k) = elim k [ ]

three-IsFree : (c : ℕ) → IsBelow three 5 c → IsFree (children three) three c
three-IsFree c child = record {
  there = omega arith;
  alive = refl;
  free = refl;
  cached = inr (2, refl, refl);
  children = refl;
}
three-IsFree c (within k) = Below-9 c k
three-IsFree c (next child) = record {
  there = omega arith;
  alive = refl;
  free = refl;
  cached = inl refl;
  children = refl;
}
three-IsFree c (next (within k)) = elim k [ ]
three-IsFree c (next (next k)) = elim k [ ]

recursively_signal_abort-Aborts_example :
    Returns
      (recursively_signal_abort 3 1 5 Abort.almost_no_abort three)
      (λ u t. Aborts Abort.almost_no_abort 5 three t)
recursively_signal_abort-Aborts_example =
    recursively_signal_abort-Aborts rank 3 1 5 Abort.almost_no_abort three three_ranks (omega arith)
      (omega arith) refl (inl refl) three-IsFree
