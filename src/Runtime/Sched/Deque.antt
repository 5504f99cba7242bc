-- ===== src/Runtime/Sched/Deque.antt =====
-- The ready deques of runtime/sched.c: doubly linked lists of closures, through their `next_ready`
-- and `prev_ready` fields.
pub mod Repr
pub mod Snoc
pub mod Top
pub mod Bottom
pub mod Add
use cilk.Common.{
  ℕ, ◌≡◌, Bool, true, false, not, Option, none, some, ◌==◌, if◌then◌else◌, Cmd, ok, fault, deadlock,
  check, pure, ◌>>=◌, ◌>>◌,
}
use cilk.Runtime.Sched.State.{
  Closure, ReadyDeque, Sched, opt_eq, is_none, deref_links, assign_links, assign_deque, get_deque,
}

unfoldable pub deque_assert_ownership : ℕ → ℕ → Cmd Sched (Unit {0})
deque_assert_ownership ws pn = do d ← get_deque pn; check (opt_eq d.mutex_owner ws)

unfoldable pub deque_lock : ℕ → ℕ → Cmd Sched (Unit {0})
deque_lock ws pn s = elim (s.deques pn).mutex_owner [
  | none ↦ assign_deque pn (λ d. record d { mutex_owner = some ws }) s
  | some w ↦ fault deadlock
]

unfoldable pub deque_unlock : ℕ → ℕ → Cmd Sched (Unit {0})
deque_unlock ws pn = assign_deque pn (λ d. record d { mutex_owner = none })

-- the node `cl` leaves the top of the deque
unfoldable pub unlink_top : ℕ → ℕ → Cmd Sched (Unit {0})
unlink_top pn cl = do
  c ← deref_links cl
  check (opt_eq c.owner_ready_deque pn)
  assign_deque pn (λ d. record d { top = c.next_ready })
  d ← get_deque pn
  if cl == d.bottom
      then (check (c.next_ready == 0) >> assign_deque pn (λ d. record d { bottom = 0 }))
      else (check (not (c.next_ready == 0))
          >> assign_links c.next_ready (λ n. record n { prev_ready = 0 }))
  assign_links cl (λ c. record c { owner_ready_deque = none })

unfoldable pub deque_xtract_top : ℕ → ℕ → Cmd Sched ℕ
unfolding deque_assert_ownership unlink_top
deque_xtract_top ws pn = do
  deque_assert_ownership ws pn
  d ← get_deque pn
  if d.top == 0 then check (d.bottom == 0) else unlink_top pn d.top
  pure d.top

unfoldable pub deque_peek_top : ℕ → ℕ → Cmd Sched ℕ
unfolding deque_assert_ownership
deque_peek_top ws pn = do
  deque_assert_ownership ws pn
  d ← get_deque pn
  if d.top == 0
      then check (d.bottom == 0)
      else (do c ← deref_links d.top; check (opt_eq c.owner_ready_deque pn))
  pure d.top

-- the node `cl` leaves the bottom of the deque
unfoldable pub unlink_bottom : ℕ → ℕ → Cmd Sched (Unit {0})
unlink_bottom pn cl = do
  c ← deref_links cl
  check (opt_eq c.owner_ready_deque pn)
  assign_deque pn (λ d. record d { bottom = c.prev_ready })
  d ← get_deque pn
  if cl == d.top
      then (check (c.prev_ready == 0) >> assign_deque pn (λ d. record d { top = 0 }))
      else (check (not (c.prev_ready == 0))
          >> assign_links c.prev_ready (λ p. record p { next_ready = 0 }))
  assign_links cl (λ c. record c { owner_ready_deque = none })

unfoldable pub deque_xtract_bottom : ℕ → ℕ → Cmd Sched ℕ
unfolding deque_assert_ownership unlink_bottom
deque_xtract_bottom ws pn = do
  deque_assert_ownership ws pn
  d ← get_deque pn
  if d.bottom == 0 then check (d.top == 0) else unlink_bottom pn d.bottom
  pure d.bottom

unfoldable pub deque_peek_bottom : ℕ → ℕ → Cmd Sched ℕ
unfolding deque_assert_ownership
deque_peek_bottom ws pn = do
  deque_assert_ownership ws pn
  d ← get_deque pn
  if d.bottom == 0
      then check (d.top == 0)
      else (do c ← deref_links d.bottom; check (opt_eq c.owner_ready_deque pn))
  pure d.bottom

unfoldable pub deque_add_bottom : ℕ → ℕ → ℕ → Cmd Sched (Unit {0})
unfolding deque_assert_ownership
deque_add_bottom ws cl pn = do
  deque_assert_ownership ws pn
  c ← deref_links cl
  check (is_none c.owner_ready_deque)
  d ← get_deque pn
  assign_links cl (λ c. record c { prev_ready = d.bottom; next_ready = 0 })
  assign_deque pn (λ d. record d { bottom = cl })
  assign_links cl (λ c. record c { owner_ready_deque = some pn })
  if d.top == 0
      then assign_deque pn (λ d. record d { top = cl })
      else (check (not (d.bottom == 0))
          >> assign_links d.bottom (λ p. record p { next_ready = cl }))
