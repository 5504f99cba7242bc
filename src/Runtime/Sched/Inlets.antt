-- ===== src/Runtime/Sched/Inlets.antt =====
-- Remote argument sending (runtime/sched.c). The code of the inlets is the user's: `inlet_code inlet
-- frame args receiver` gives the memory after the call and whether the call set `abort_flag`.
pub mod Poll
pub mod GoodSteal
use cilk.Common.{
  ℕ, zero, suc, ◌+◌, ◌*◌, ◌/◌, ◌%◌, ◌^◌, ◌≡◌, Bool, true, false, not, ◌&&◌, Option, none, some,
  List, [], ◌∷◌, length, update, ◌==◌, leb, if◌then◌else◌, Cmd, ok, fail, fault, out_of_fuel,
  assertion, check, pure, ◌>>=◌, ◌>>◌,
}
use cilk.Runtime.Sched.State.{
  Status, Abort, Inlet, Closure, Cache, Sched, Memory, is_none, deref, deref_links, assign,
  get_cache, is_running, is_suspended, is_almost, is_no_abort,
}
use cilk.Runtime.Sched.Closure.{
  Closure_assert_ownership, Closure_at_top_of_stack, Closure_has_children,
}
use cilk.Runtime.Sched.Abort.{Closure_being_aborted, reset_abort, recursively_signal_abort}
use cilk.Runtime.Sched.Steal.{promote_child, finish_promote, Closure_make_ready}
use cilk.Runtime.Sched.Deque.{deque_assert_ownership}

abbrev pub InletCode : Type 0
InletCode = ℕ → ℕ → Option ℕ → ℕ → Memory → Memory × Bool

-- `running, and not at the top of the stack`; the cache is only read for a running closure
unfoldable pub works_below : ℕ → Cmd Sched Bool
works_below cl = do
  c ← deref cl
  if is_running c.status
      then (do h ← get_cache cl; pure (not (Closure_at_top_of_stack h)))
      else pure false

-- The fuel bounds the depth of the closure tree.
unfoldable pub signal_abort_from_inlet : ℕ → ℕ → ℕ → Cmd Sched (Unit {0})
signal_abort_from_inlet fuel ws cl = do
  Closure_assert_ownership ws cl
  below ← works_below cl
  if below
      then (do
        deque_assert_ownership ws ws
        child ← promote_child ws cl ws
        finish_promote ws cl child)
      else pure tt
  recursively_signal_abort fuel ws cl Abort.almost_no_abort

-- the default inlet copies the value into its place
unfoldable pub default_inlet : Inlet → Memory → Memory
default_inlet i m = if i.argsize == 0 then m else update m i.receiver i.args

unfoldable pub run_inlet : InletCode → ℕ → Inlet → Memory → Memory × Bool
run_inlet code frame i m =
    if i.inlet == 0 then (default_inlet i m, false) else code i.inlet frame i.args i.receiver m

module _ (code : InletCode) where
  unfoldable pub call_inlet : ℕ → Inlet → Cmd Sched Bool
  call_inlet frame i s =
      ok (run_inlet code frame i s.memory).1
        (record s { memory = (run_inlet code frame i s.memory).0 })

  unfoldable pub apply_inlet : ℕ → ℕ → ℕ → Inlet → Cmd Sched (Unit {0})
  apply_inlet fuel ws cl i = do
    Closure_assert_ownership ws cl
    c ← deref cl
    aborted ← Closure_being_aborted ws cl
    if aborted then pure tt else (do
      abort_flag ← call_inlet c.frame i
      if abort_flag then signal_abort_from_inlet fuel ws cl else pure tt)

  -- the loop over `complete_inlets`, which is read again after each inlet
  unfoldable pub apply_step : ℕ → ℕ → ℕ → Cmd Sched (Unit {0}) → List Inlet → Cmd Sched (Unit {0})
  apply_step fuel ws cl rest [] = pure tt
  apply_step fuel ws cl rest (i ∷ is) = do
    assign cl (λ c. record c { complete_inlets = is })
    apply_inlet fuel ws cl i
    rest

  unfoldable pub apply_inlets : ℕ → ℕ → ℕ → ℕ → Cmd Sched (Unit {0})
  apply_inlets zero fuel ws cl = λ s. out_of_fuel
  apply_inlets (suc rounds) fuel ws cl = do
    c ← deref cl
    apply_step fuel ws cl (apply_inlets rounds fuel ws cl) c.complete_inlets

  -- One round for each inlet that waits, and one to find that none is left.
  unfoldable pub poll_inlets : ℕ → ℕ → ℕ → Cmd Sched (Unit {0})
  poll_inlets fuel ws cl = do
    Closure_assert_ownership ws cl
    below ← works_below cl
    if below then deque_assert_ownership ws ws else pure tt
    c ← deref cl
    apply_inlets (suc (length c.complete_inlets)) fuel ws cl
    c ← deref cl
    if is_almost c.abort_status then reset_abort cl else pure tt

  unfoldable pub provably_good_steal_maybe : ℕ → ℕ → ℕ → Cmd Sched ℕ
  provably_good_steal_maybe fuel ws parent = do
    Closure_assert_ownership ws parent
    p ← deref parent
    if not (Closure_has_children p) && is_suspended p.status
        then (do
          poll_inlets fuel ws parent
          l ← deref_links parent
          check (is_none l.owner_ready_deque)
          Closure_make_ready parent
          pure parent)
        else pure 0

-- memcpy of the first `size` bytes of an object: the number of an object has its first byte lowest.
abbrev pub copy_bytes : ℕ → Option ℕ → Option ℕ → Option ℕ
copy_bytes size none value = value
copy_bytes size (some old) none = some old
copy_bytes size (some old) (some v) = some (old / 256 ^ size * 256 ^ size + v % 256 ^ size)

-- The returned value goes into the inlet's block, which every inlet has.
unfoldable pub install_value : ℕ → Closure → Inlet → Cmd Sched Inlet
install_value child c i = if c.return_size == 0 then pure i else (do
  assign child (λ c. record c { return_value = none; return_size = 0 })
  pure (record i { args = copy_bytes c.return_size i.args c.return_value }))

unfoldable pub complete_and_enque_inlet : ℕ → ℕ → ℕ → Inlet → Cmd Sched (Unit {0})
complete_and_enque_inlet ws parent child i = do
  Closure_assert_ownership ws parent
  c ← deref child
  check (leb c.return_size i.argsize)
  i ← install_value child c i
  aborted ← Closure_being_aborted ws child
  if aborted
      then pure tt
      else assign parent (λ c. record c { complete_inlets = i ∷ c.complete_inlets })
