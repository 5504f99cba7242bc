-- ===== src/Runtime/Sched/State.antt =====
-- The state of the scheduler: closures, ready deques and the workers' stacks (struct Closure_s,
-- ReadyDeque, InletClosure of runtime/cilk-internal.h, CilkClosureCache of runtime/cilk.h). Pointers
-- are numbers, NULL is 0. A worker takes a lock only when nobody holds it: what the others do while
-- it waits lies between the handlers.
use cilk.Common.{
  ℕ, Bool, true, false, Option, none, some, List, update, ◌==◌, if◌then◌else◌, Cmd, ok, fault,
  null_deref, ◌>>=◌,
}

-- enum ClosureStatus
pub data Status : Type 0 where
  running suspended returning ready : Status

-- enum AbortStatus, from the smallest
pub data Abort : Type 0 where
  abort_all almost_no_abort no_abort : Abort

-- CilkProcInfo of runtime/cilk.h. An `index` of -1 is `none`, an `inlet` of NULL is 0.
pub record ProcInfo : Type 0 where
  pub size : ℕ
  pub index : Option ℕ
  pub inlet : ℕ
  pub argsize : ℕ
  pub argindex : ℕ

-- CilkStackFrame of runtime/cilk.h; `magic` is whether the frame is alive.
pub record Frame : Type 0 where
  pub entry : ℕ
  pub receiver : ℕ
  pub sig : ℕ → ProcInfo
  pub magic : Bool

-- struct InletClosure. `receiver` and `inlet` are pointers; `args` is the object in the block
-- `inlet_args`, `none` before it is written.
pub record Inlet : Type 0 where
  pub child : ℕ
  pub receiver : ℕ
  pub inlet : ℕ
  pub argsize : ℕ
  pub args : Option ℕ

-- The fields of struct Closure_s that only the ready deques manage.
pub record Ready : Type 0 where
  pub next_ready : ℕ
  pub prev_ready : ℕ
  pub owner_ready_deque : Option ℕ

-- The other fields of struct Closure_s. The lists of inlets run through the `next` fields. `cache` is the worker whose
-- cache the closure uses; `magic` is whether the closure is alive.
pub record Closure : Type 0 where
  pub mutex_owner : Option ℕ
  pub join_counter : ℕ
  pub status : Status
  pub return_value : Option ℕ
  pub return_size : ℕ
  pub complete_inlets : List Inlet
  pub incomplete_inlets : List Inlet
  pub parent : ℕ
  pub frame : ℕ
  pub abort_status : Abort
  pub cache : Option ℕ
  pub magic : Bool
  pub malloced : Bool
  pub cp : ℕ
  pub work : ℕ

-- ReadyDeque
pub record ReadyDeque : Type 0 where
  pub mutex_owner : Option ℕ
  pub top : ℕ
  pub bottom : ℕ

-- CilkClosureCache: indices into the stack. `none` is EXCEPTION_INFINITY.
pub record Cache : Type 0 where
  pub head : ℕ
  pub tail : ℕ
  pub exception : Option ℕ
  pub stack : ℕ → ℕ

-- The fields of a worker (CilkWorkerState of runtime/cilk.h) that the scheduler uses.
pub record Worker : Type 0 where
  pub cp_hack : ℕ
  pub work_hack : ℕ
  pub rand_next : ℕ

abbrev pub Memory : Type 0
Memory = ℕ → Option ℕ

-- `memory` holds the objects that frames and receivers keep at their addresses. `fresh` is the
-- address of the next closure that is created.
pub record Sched : Type 0 where
  pub closure : ℕ → Closure
  pub links : ℕ → Ready
  pub deques : ℕ → ReadyDeque
  pub caches : ℕ → Cache
  pub frames : ℕ → Frame
  pub memory : Memory
  pub workers : ℕ → Worker
  pub fresh : ℕ

abbrev pub opt_eq : Option ℕ → ℕ → Bool
opt_eq none n = false
opt_eq (some m) n = m == n

abbrev pub is_none : Option ℕ → Bool
is_none none = true
is_none (some m) = false

-- a read of `*cl`
abbrev pub deref : ℕ → Cmd Sched Closure
deref cl s = if cl == 0 then fault null_deref else ok (s.closure cl) s

abbrev pub deref_links : ℕ → Cmd Sched Ready
deref_links cl s = if cl == 0 then fault null_deref else ok (s.links cl) s

-- an assignment to fields of `*cl`
unfoldable pub assign : ℕ → (Closure → Closure) → Cmd Sched (Unit {0})
assign cl f s =
    if cl == 0
    then fault null_deref
    else ok tt (record s { closure = update s.closure cl (f (s.closure cl)) })

abbrev pub assign_links : ℕ → (Ready → Ready) → Cmd Sched (Unit {0})
assign_links cl f s =
    if cl == 0
    then fault null_deref
    else ok tt (record s { links = update s.links cl (f (s.links cl)) })

abbrev pub assign_deque : ℕ → (ReadyDeque → ReadyDeque) → Cmd Sched (Unit {0})
assign_deque pn f s = ok tt (record s { deques = update s.deques pn (f (s.deques pn)) })

abbrev pub get_deque : ℕ → Cmd Sched ReadyDeque
get_deque pn s = ok (s.deques pn) s

abbrev pub deref_frame : ℕ → Cmd Sched Frame
deref_frame f s = if f == 0 then fault null_deref else ok (s.frames f) s

abbrev pub get_worker : ℕ → Cmd Sched Worker
get_worker ws s = ok (s.workers ws) s

-- a read or write of the cache that `cl` uses
abbrev pub get_cache : ℕ → Cmd Sched Cache
get_cache cl =
    deref cl >>= λ c s. elim c.cache [ none ↦ fault null_deref | some w ↦ ok (s.caches w) s ]

abbrev pub assign_cache : ℕ → (Cache → Cache) → Cmd Sched (Unit {0})
assign_cache cl f = deref cl >>= λ c s. elim c.cache [
  | none ↦ fault null_deref
  | some w ↦ ok tt (record s { caches = update s.caches w (f (s.caches w)) })
]

abbrev pub is_running : Status → Bool
is_running Status.running = true
is_running Status.suspended = false
is_running Status.returning = false
is_running Status.ready = false

abbrev pub is_suspended : Status → Bool
is_suspended Status.suspended = true
is_suspended Status.running = false
is_suspended Status.returning = false
is_suspended Status.ready = false

abbrev pub is_returning : Status → Bool
is_returning Status.returning = true
is_returning Status.running = false
is_returning Status.suspended = false
is_returning Status.ready = false

-- `a < b` on enum AbortStatus
abbrev pub abort_ltb : Abort → Abort → Bool
abort_ltb Abort.abort_all Abort.abort_all = false
abort_ltb Abort.abort_all Abort.almost_no_abort = true
abort_ltb Abort.abort_all Abort.no_abort = true
abort_ltb Abort.almost_no_abort Abort.no_abort = true
abort_ltb Abort.almost_no_abort Abort.abort_all = false
abort_ltb Abort.almost_no_abort Abort.almost_no_abort = false
abort_ltb Abort.no_abort b = false

abbrev pub is_abort_all : Abort → Bool
is_abort_all Abort.abort_all = true
is_abort_all Abort.almost_no_abort = false
is_abort_all Abort.no_abort = false

abbrev pub is_no_abort : Abort → Bool
is_no_abort Abort.no_abort = true
is_no_abort Abort.abort_all = false
is_no_abort Abort.almost_no_abort = false

abbrev pub is_almost : Abort → Bool
is_almost Abort.almost_no_abort = true
is_almost Abort.abort_all = false
is_almost Abort.no_abort = false
