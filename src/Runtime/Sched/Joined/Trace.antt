-- ===== src/Runtime/Sched/Joined/Trace.antt =====
-- Any sequence of the handlers of runtime/sched.c, by any workers, with whatever compiled code does
-- in between.
use cilk.Common.{ℕ, ◌≡◌, true, Option, length, ◌<◌, ok, ◌>>◌, Cmd, pure, Safe, arith, subst}
use cilk.Runtime.Sched.State.{Sched}
use cilk.Runtime.Sched.Inlets.{InletCode}
use cilk.Runtime.Sched.Return.{
  Cilk_sync, Cilk_after_sync_slow_cp, Cilk_exception_handler, Cilk_set_result, Cilk_abort_slow,
}
use cilk.Runtime.Sched.Execute.{
  scheduler_round, Cilk_exit_from_user_main, Cilk_remove_and_free_closure_and_frame,
}
use cilk.Runtime.Sched.Joined.Keep.{Inv, Keeps, Keeps-bind, Keeps-pure, same_closures}
use cilk.Runtime.Sched.Joined.Moves.{Counts}
use cilk.Runtime.Sched.Joined.Handlers.{
  Keeps-sync, Keeps-after_sync, Keeps-exception, Keeps-set_result, Keeps-abort_slow,
}
use cilk.Runtime.Sched.Joined.Worker.{Keeps-round, Keeps-exit, Keeps-remove}

-- The entry points of the scheduler, each with the worker that calls it.
pub data Handler : Type 0 where
  round : ℕ → ℕ → ℕ → Handler
  sync : ℕ → Handler
  after_sync : ℕ → ℕ × ℕ → Handler
  exception : ℕ → Option ℕ → ℕ → Handler
  set_result : ℕ → Option ℕ → ℕ → Handler
  abort : ℕ → Handler
  exit : ℕ → ℕ → ℕ → Handler
  remove : ℕ → ℕ → ℕ → Handler

module _ (code : InletCode) (fuel : ℕ) where
  unfoldable pub perform : Handler → Cmd Sched (Unit {0})
  perform (round active_size ws t) = scheduler_round code fuel active_size ws t >> pure tt
  perform (sync ws) = Cilk_sync code fuel ws >> pure tt
  perform (after_sync ws times) = Cilk_after_sync_slow_cp ws times >> pure tt
  perform (exception ws result size) = Cilk_exception_handler code fuel ws result size >> pure tt
  perform (set_result ws result size) = Cilk_set_result ws result size
  perform (abort ws) = Cilk_abort_slow code fuel ws
  perform (exit ws cl res) = Cilk_exit_from_user_main code fuel ws cl res
  perform (remove ws f pn) = Cilk_remove_and_free_closure_and_frame ws f pn

  -- `compiled`: compiled code writes frames, stacks and memory, and no closure.
  pub data Reach (s : Sched) : Sched → Type 0 where
    start : Reach s s
    handled : {t u : Sched} (h : Handler) → Reach s t → perform h t ≡ ok tt u → Reach s u
    compiled : {t u : Sched} → Reach s t → u.closure ≡ t.closure → u.fresh ≡ t.fresh → Reach s u

-- Each join counter is the number of the outstanding children, and what is no closure yet is dead.
pub record IsJoined (s : Sched) : Type 0 where
  pub counted : (c : ℕ) → (s.closure c).join_counter ≡ length (s.closure c).incomplete_inlets
  pub alive : (c : ℕ) → (s.closure c).magic ≡ true → c < s.fresh

abbrev none_hidden : ℕ → ℕ
none_hidden c = 0

to-Inv : (s : Sched) → IsJoined s → Inv (Counts none_hidden) s
to-Inv s h = record {
  each = λ c. omega (arith, h.counted c);
  new = λ c l. omega arith;
  alive = h.alive;
}

of_Inv : (s : Sched) → Inv (Counts none_hidden) s → IsJoined s
of_Inv s h = record { counted = λ c. omega (arith, h.each c); alive = h.alive }

module _ (code : InletCode) (fuel : ℕ) where
  Keeps-perform : (h : Handler) → Keeps (Counts none_hidden) (perform code fuel h)
  unfolding perform
  Keeps-perform (round n ws t) =
      Keeps-bind _ _ (Keeps-round code none_hidden fuel n ws t) (λ a. Keeps-pure tt)
  Keeps-perform (sync ws) =
      Keeps-bind _ _ (Keeps-sync code none_hidden fuel ws) (λ a. Keeps-pure tt)
  Keeps-perform (after_sync ws ts) =
      Keeps-bind _ _ (Keeps-after_sync code none_hidden ws ts) (λ a. Keeps-pure tt)
  Keeps-perform (exception ws r n) =
      Keeps-bind _ _ (Keeps-exception code none_hidden fuel ws r n) (λ a. Keeps-pure tt)
  Keeps-perform (set_result ws r n) = Keeps-set_result code none_hidden ws r n
  Keeps-perform (abort ws) = Keeps-abort_slow code none_hidden fuel ws
  Keeps-perform (exit ws cl r) = Keeps-exit code none_hidden fuel ws cl r
  Keeps-perform (remove ws f pn) = Keeps-remove code none_hidden ws f pn

  reach-Inv :
      (s t : Sched) → Inv (Counts none_hidden) s → Reach code fuel s t → Inv (Counts none_hidden) t
  reach-Inv s t i start = i
  reach-Inv s u i (handled {t} h r e) =
      subst (λ q. Safe q (λ a s'. Inv (Counts none_hidden) s')) e
        ((Keeps-perform h).keeps t (reach-Inv s t i r))
  reach-Inv s u i (compiled {t} r e f) = same_closures t u (reach-Inv s t i r) e f

  -- Whatever the inlets do, after any sequence of handlers by any workers, with compiled code in
  -- between, that starts where each closure's join counter is the number of its outstanding children
  -- and only closures that were created are alive, both still hold of every closure.
  pub Reach-IsJoined : (s t : Sched) → IsJoined s → Reach code fuel s t → IsJoined t
  Reach-IsJoined s t j r = of_Inv t (reach-Inv s t (to-Inv s j) r)
