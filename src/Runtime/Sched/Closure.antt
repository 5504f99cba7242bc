-- ===== src/Runtime/Sched/Closure.antt =====
-- Closures, their locks and their children (runtime/sched.c), built with CILK_DEBUG.
pub mod Children
use cilk.Common.{
  ℕ, ◌+◌, Bool, true, false, not, Option, none, some, List, [], ◌∷◌, ◌==◌, ltb, if◌then◌else◌, Cmd,
  ok, fail, assertion, deadlock, check, pure, ◌>>=◌, ◌>>◌,
}
use cilk.Runtime.Sched.State.{
  no_abort, Inlet, ProcInfo, Frame, Closure, Cache, Sched, opt_eq, deref, assign, assign_links,
  deref_frame,
}

unfoldable pub Closure_checkmagic : ℕ → Cmd Sched (Unit {0})
Closure_checkmagic t = do c ← deref t; check c.magic

unfoldable pub Closure_assert_ownership : ℕ → ℕ → Cmd Sched (Unit {0})
Closure_assert_ownership ws t = do c ← deref t; check (opt_eq c.mutex_owner ws)

unfoldable pub Closure_assert_alienation : ℕ → ℕ → Cmd Sched (Unit {0})
Closure_assert_alienation ws t = do c ← deref t; check (not (opt_eq c.mutex_owner ws))

-- the mutex, free or with a holder
unfoldable pub take_mutex : ℕ → ℕ → Option ℕ → Cmd Sched (Unit {0})
take_mutex ws t none = assign t (λ c. record c { mutex_owner = some ws })
take_mutex ws t (some w) = fail deadlock

unfoldable pub Closure_lock : ℕ → ℕ → Cmd Sched (Unit {0})
Closure_lock ws t = do Closure_checkmagic t; c ← deref t; take_mutex ws t c.mutex_owner

unfoldable pub Closure_unlock : ℕ → ℕ → Cmd Sched (Unit {0})
Closure_unlock ws t = do
  Closure_checkmagic t
  Closure_assert_ownership ws t
  assign t (λ c. record c { mutex_owner = none })

-- The block is freed; the state keeps its last contents, with the magic number spoilt.
unfoldable pub Closure_destroy : ℕ → Cmd Sched (Unit {0})
Closure_destroy t = do
  Closure_checkmagic t
  assign t (λ c. record c { magic = false })
  c ← deref t
  check (not c.malloced)

-- the same for a block of the C library's allocator
unfoldable pub Closure_destroy_malloc : ℕ → Cmd Sched (Unit {0})
Closure_destroy_malloc t = do
  Closure_checkmagic t
  assign t (λ c. record c { magic = false })
  c ← deref t
  check c.malloced

unfoldable pub Closure_at_top_of_stack : Cache → Bool
Closure_at_top_of_stack c = c.head + 1 == c.tail

unfoldable pub Closure_has_children : Closure → Bool
Closure_has_children c = not (c.join_counter == 0)

unfoldable pub Closure_init : ℕ → Cmd Sched (Unit {0})
Closure_init new = do
  assign new (λ c. record c {
    cp = 0;
    work = 0;
    complete_inlets = [];
    incomplete_inlets = [];
    abort_status = no_abort;
    return_size = 0;
    return_value = none;
    magic = true;
    mutex_owner = none;
  })
  assign_links new (λ r. record { next_ready = 0; prev_ready = 0; owner_ready_deque = none })

-- a block that the allocator has not given out before
unfoldable pub Closure_create : Cmd Sched ℕ
Closure_create s =
    (do assign s.fresh (λ c. record c { malloced = false }); Closure_init s.fresh; pure s.fresh)
      (record s { fresh = s.fresh + 1 })

unfoldable pub get_CilkProcInfo : (ℕ → ProcInfo) → ℕ → Cmd Sched ProcInfo
get_CilkProcInfo sig entry = do check (ltb 0 entry); pure (sig entry)

-- the receiver: an offset in the frame, or the frame's own
pub receiver_of : ℕ → Frame → Option ℕ → ℕ
receiver_of f fr none = fr.receiver
receiver_of f fr (some index) = f + index

-- An inlet's arguments are copied from the frame, else the block awaits the returned value.
unfoldable pub inlet_of : ℕ → Frame → ProcInfo → ℕ → Sched → Inlet
inlet_of f fr info child s =
    if info.inlet == 0
    then (record {
      child = child;
      receiver = receiver_of f fr info.index;
      inlet = 0;
      argsize = info.size;
      args = none;
    })
    else (record {
      child = child;
      receiver = receiver_of f fr info.index;
      inlet = info.inlet;
      argsize = info.argsize;
      args = s.memory (f + info.argindex);
    })

-- `entry` is `none` where the code passes -1. The child is filled in, or left NULL.
unfoldable pub make_incomplete_inlet_closure : ℕ → Option ℕ → ℕ → Cmd Sched Inlet
make_incomplete_inlet_closure parent entry child = do
  p ← deref parent
  fr ← deref_frame p.frame
  info ← get_CilkProcInfo fr.sig (elim entry [ none ↦ fr.entry | some e ↦ e ])
  λ s. ok (inlet_of p.frame fr info child s) s

unfoldable pub Closure_add_child : ℕ → ℕ → ℕ → Cmd Sched (Unit {0})
Closure_add_child ws parent child = do
  Closure_checkmagic parent
  Closure_assert_ownership ws parent
  Closure_checkmagic child
  Closure_assert_alienation ws child
  p ← make_incomplete_inlet_closure parent none child
  assign parent (λ c. record c { incomplete_inlets = p ∷ c.incomplete_inlets })

-- The first inlet for `child`, and the others in their order.
unfoldable pub unlink_child : ℕ → List Inlet → Option (Inlet × List Inlet)
unlink_child child [] = none
unlink_child child (p ∷ ps) =
    let rest = unlink_child child ps in
    if p.child == child
    then some (p, ps)
    else elim rest [ none ↦ none | some (q, qs) ↦ some (q, p ∷ qs) ]

unfoldable pub give_inlet : ℕ → Option (Inlet × List Inlet) → Cmd Sched Inlet
give_inlet parent none = fail assertion
give_inlet parent (some (p, ps)) = do
  assign parent (λ c. record c { incomplete_inlets = ps })
  pure p

unfoldable pub Closure_remove_child : ℕ → ℕ → ℕ → Cmd Sched Inlet
Closure_remove_child ws parent child = do
  Closure_checkmagic parent
  Closure_checkmagic child
  Closure_assert_ownership ws parent
  c ← deref parent
  give_inlet parent (unlink_child child c.incomplete_inlets)
