-- ===== src/Runtime/Protocol/Tests.antt =====
-- The protocol of runtime/sched.c on one order of accesses: the thief is first.
use cilk.Common.{◌≡◌, ◌≤◌, refl, some, arith}
use cilk.Runtime.Protocol.{
  Thief, Victim, Shared, Steps, start, then_step, set_up, push, signal, win, steal, pop, raise,
  give_up,
}
use cilk.Runtime.Protocol.Safety.{FrameIsOwn, no_frame_twice}

-- the worker has lost the frame to which its child returns
abbrev caught : Shared
caught = record {
  head = 1;
  tail = 1;
  exception = some 1;
  thief = Thief.idle;
  victim = Victim.robbed;
}

thief_first : Steps set_up caught
thief_first =
    then_step
      (then_step
        (then_step
          (then_step
            (then_step (then_step (then_step start (push refl)) (signal refl))
              (win refl (omega arith)))
            (steal refl))
          (pop refl (omega arith)))
        (raise refl (omega arith)))
      (give_up refl refl (omega arith))

no_frame_twice_example :
    (caught.victim ≡ Victim.working → FrameIsOwn caught)
    × (caught.victim ≡ Victim.robbed → caught.tail ≡ caught.head)
    × (caught.head ≤ caught.tail)
no_frame_twice_example = no_frame_twice caught thief_first
