-- ===== src/Runtime/Sched/Joined/Basic.antt =====
-- Deques, locks, exceptions and aborts of runtime/sched.c leave the closure tree as it is.
use cilk.Common.{ℕ, refl, false, Option, none, some, Safe, fault, deadlock}
use cilk.Runtime.Sched.State.{assign, Sched, assign_deque}
use cilk.Runtime.Sched.Deque.{
  deque_assert_ownership, deque_lock, deque_unlock, unlink_top, deque_xtract_top, deque_peek_top,
  unlink_bottom, deque_xtract_bottom, deque_peek_bottom, deque_add_bottom,
}
use cilk.Runtime.Sched.Closure.{
  Closure_checkmagic, Closure_assert_ownership, Closure_assert_alienation, Closure_lock,
  Closure_unlock, Closure_destroy, Closure_destroy_malloc, take_mutex,
}
use cilk.Runtime.Sched.Joined.Keep.{
  Count, Inv, Keeps, Keeps-bind, Keeps-if, Keeps-assign, Keeps-fail, keep, Keeps-assign_deque,
}

module _ {I : Count} where
  pub Keeps-magic : (t : ℕ) → Keeps I (Closure_checkmagic t)
  unfolding Closure_checkmagic
  Keeps-magic t = search keep

  pub Keeps-ownership : (ws t : ℕ) → Keeps I (Closure_assert_ownership ws t)
  unfolding Closure_assert_ownership
  Keeps-ownership ws t = search keep

  pub Keeps-alienation : (ws t : ℕ) → Keeps I (Closure_assert_alienation ws t)
  unfolding Closure_assert_alienation
  Keeps-alienation ws t = search keep

  pub Keeps-deque_ownership : (ws t : ℕ) → Keeps I (deque_assert_ownership ws t)
  unfolding deque_assert_ownership
  Keeps-deque_ownership ws t = search keep

  pub Keeps-take_mutex : (ws t : ℕ) (o : Option ℕ) → Keeps I (take_mutex ws t o)
  unfolding take_mutex
  Keeps-take_mutex ws t none = Keeps-assign t _ (λ c. refl) (λ c. refl) (λ c e. e)
  Keeps-take_mutex ws t (some w) = Keeps-fail _

  pub Keeps-lock : (ws t : ℕ) → Keeps I (Closure_lock ws t)
  unfolding Closure_lock
  Keeps-lock ws t = search (keep, Keeps-magic, Keeps-take_mutex)

  pub Keeps-unlock : (ws t : ℕ) → Keeps I (Closure_unlock ws t)
  unfolding Closure_unlock
  Keeps-unlock ws t = search (keep, Keeps-magic, Keeps-ownership) depth 30

  Keeps-spoil : (t : ℕ) → Keeps I (assign t (λ c. record c { magic = false }))
  Keeps-spoil t =
      Keeps-assign t (λ c. record c { magic = false }) (λ c. refl) (λ c. refl) (λ c e. cc)

  pub Keeps-destroy : (t : ℕ) → Keeps I (Closure_destroy t)
  unfolding Closure_destroy
  Keeps-destroy t = search (keep, Keeps-magic, Keeps-spoil) depth 30

  pub Keeps-destroy_malloc : (t : ℕ) → Keeps I (Closure_destroy_malloc t)
  unfolding Closure_destroy_malloc
  Keeps-destroy_malloc t = search (keep, Keeps-magic, Keeps-spoil) depth 30

  elim_lock :
      (ws pn : ℕ) (o : Option ℕ) (s : Sched)
      → Inv I s
      → Safe
          (elim o [
            | none ↦ assign_deque pn (λ d. record d { mutex_owner = some ws }) s
            | some w ↦ fault deadlock
          ])
          (λ a s'. Inv I s')
  elim_lock ws pn none s h =
      (Keeps-assign_deque pn (λ d. record d { mutex_owner = some ws })).keeps s h
  elim_lock ws pn (some w) s h = tt

  pub Keeps-deque_lock : (ws pn : ℕ) → Keeps I (deque_lock ws pn)
  unfolding deque_lock
  Keeps-deque_lock ws pn = record { keeps = λ s h. elim_lock ws pn (s.deques pn).mutex_owner s h }

  pub Keeps-deque_unlock : (ws pn : ℕ) → Keeps I (deque_unlock ws pn)
  unfolding deque_unlock
  Keeps-deque_unlock ws pn = search keep

  pub Keeps-xtract_top : (ws pn : ℕ) → Keeps I (deque_xtract_top ws pn)
  unfolding deque_xtract_top deque_assert_ownership unlink_top
  Keeps-xtract_top ws pn = search keep depth 30

  pub Keeps-peek_top : (ws pn : ℕ) → Keeps I (deque_peek_top ws pn)
  unfolding deque_peek_top deque_assert_ownership
  Keeps-peek_top ws pn = search keep depth 30

  pub Keeps-xtract_bottom : (ws pn : ℕ) → Keeps I (deque_xtract_bottom ws pn)
  unfolding deque_xtract_bottom deque_assert_ownership unlink_bottom
  Keeps-xtract_bottom ws pn = search keep depth 30

  pub Keeps-peek_bottom : (ws pn : ℕ) → Keeps I (deque_peek_bottom ws pn)
  unfolding deque_peek_bottom deque_assert_ownership
  Keeps-peek_bottom ws pn = search keep depth 30

  pub Keeps-add_bottom : (ws cl pn : ℕ) → Keeps I (deque_add_bottom ws cl pn)
  unfolding deque_add_bottom deque_assert_ownership
  Keeps-add_bottom ws cl pn = search keep depth 40

pub ruleset keep_basic = (
  keep, Keeps-magic, Keeps-ownership, Keeps-alienation, Keeps-deque_ownership, Keeps-lock,
  Keeps-unlock, Keeps-destroy, Keeps-destroy_malloc, Keeps-deque_lock, Keeps-deque_unlock,
  Keeps-xtract_top, Keeps-peek_top, Keeps-xtract_bottom, Keeps-peek_bottom, Keeps-add_bottom,
)
