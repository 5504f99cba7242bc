-- ===== src/Runtime/Sched/Steal/Split.antt =====
-- Closure_steal of runtime/sched.c takes a parent from a worker that goes on with the child.
use cilk.Common.{
  ℕ, ◌+◌, ◌≡◌, ◌≢◌, ◌<◌, refl, sym, ◌∙◌, ap, true, Option, none, some, List, [], ◌∷◌, ok, Cmd,
  update, ==_ne, ==_refl, ==_eq, subst, ◌==◌, Returns, Returns-bind, check, pure, ◌>>=◌, ◌>>◌,
}
use cilk.Runtime.Sched.State.{Status, Closure, Frame, Sched, Inlet}
use cilk.Runtime.Sched.Closure.{Closure_unlock}
use cilk.Runtime.Sched.Deque.{deque_unlock, deque_xtract_top}
use cilk.Runtime.Sched.Deque.Repr.{IsDeque, Fresh}
use cilk.Runtime.Sched.Deque.Top.{deque_xtract_top_lem, Taken}
use cilk.Runtime.Sched.Deque.Add.{Added}
use cilk.Runtime.Sched.Steal.{steal_parent, promote_child, finish_promote}
use cilk.Runtime.Sched.Steps.{
  hold, hold_deque, deque_unlock_lem, Closure_unlock_lem, hold_deque-IsDeque,
}
use cilk.Runtime.Sched.Steal.Promote.{
  CanPromote, promote_child_lem, grown, grown-owner, grown-x, grown-caches, grown-frames,
  grown-memory, grown-child, grown-others, blank, ne, nz,
}
use cilk.Runtime.Sched.Steal.Finish.{awaited, awaited_cong, detached, CanFinish, finish_promote_lem}

-- The parent's frame names the spawn that it waits for.
pub record IsFramed (x : ℕ) (t : Sched) : Type 0 where
  pub framed : (t.closure x).frame ≢ 0
  pub spawned : 0 < (t.frames (t.closure x).frame).entry
  pub alive : (t.closure x).magic ≡ true

-- `x` was split off its worker on the cache `w`: it is ready and awaits the child `c`, which runs there.
pub record Split (t t' : Sched) (v x w c : ℕ) : Type 0 where
  pub deque : IsDeque t' v (c ∷ [])
  pub deque_free : (t'.deques v).mutex_owner ≡ none
  pub owner : (t'.links x).owner_ready_deque ≡ none
  pub parent : t'.closure x ≡ record (t.closure x) {
    mutex_owner = none;
    join_counter = (t.closure x).join_counter + 1;
    incomplete_inlets = awaited x c t ∷ (t.closure x).incomplete_inlets;
    cache = none;
    status = Status.ready;
  }
  pub child : t'.closure c ≡ record (blank (t.closure c)) {
    parent = x;
    join_counter = 0;
    cache = some w;
    status = Status.running;
    frame = (t.caches w).stack ((t.caches w).head + 1);
  }
  pub caches : t'.caches ≡ update t.caches w (record (t.caches w) { head = (t.caches w).head + 1 })
  pub others : (qn : ℕ) (ys : List ℕ) → qn ≢ v → Fresh c ys → IsDeque t qn ys → IsDeque t' qn ys

detached-same :
    (x c : ℕ) {B : Type 0} (f : Closure → B) (s : Sched)
    → ((k : Closure) (n : ℕ) (is : List Inlet) (o : Option ℕ) (q : Status)
        → f (record k { join_counter = n; incomplete_inlets = is; cache = o; status = q }) ≡ f k)
    → f ((detached x c s).closure x) ≡ f (s.closure x)
unfolding detached
detached-same x c f s h = rw (==_refl x) (h (s.closure x) _ _ _ _)

module _ (ws x v w : ℕ) (t : Sched) (h : CanPromote ws x v w t) (f : IsFramed x t) where
  -- the state `u` after the extraction, with the closures of the promotion
  module _ (b u : Sched) (a : Added (grown ws x v w t h) b v t.fresh (x ∷ []))
      (k : Taken b u v x (t.fresh ∷ [])) where
    u_closure : u.closure ≡ (grown ws x v w t h).closure
    u_closure = k.only.closure ∙ a.only.closure

    u_x : u.closure x ≡ t.closure x
    u_x = ap (λ (g : ℕ → Closure). g x) u_closure ∙ grown-x ws x v w t h

    u_frames : u.frames ≡ t.frames
    u_frames = k.only.frames ∙ a.only.frames ∙ grown-frames ws x v w t h

    u_child : u.closure t.fresh ≡ (grown ws x v w t h).closure t.fresh
    u_child = ap (λ (g : ℕ → Closure). g t.fresh) u_closure

    pub can_finish : CanFinish ws x t.fresh (hold_deque none v u)
    unfolding hold_deque
    can_finish = record {
      there = h.runs.there;
      child_there = nz ws x v w t h;
      differ = λ e. ne ws x v w t h (sym e);
      locked = ap (λ (c : Closure). c.mutex_owner) u_x ∙ h.runs.locked;
      alive = ap (λ (c : Closure). c.magic) u_x ∙ f.alive;
      child_free =
          ap (λ (c : Closure). c.mutex_owner) (u_child ∙ grown-child ws x v w t h)
          ∙ (unfold blank in refl);
      child_alive =
          ap (λ (c : Closure). c.magic) (u_child ∙ grown-child ws x v w t h)
          ∙ (unfold blank in refl);
      framed = subst (λ (c : Closure). c.frame ≢ 0) (sym u_x) f.framed;
      spawned =
          subst (λ (g : ℕ → Frame). 0 < (g (u.closure x).frame).entry) (sym u_frames)
            (subst (λ (c : Closure). 0 < (t.frames c.frame).entry) (sym u_x) f.spawned);
    }

    u_memory : u.memory ≡ t.memory
    u_memory = k.only.memory ∙ a.only.memory ∙ grown-memory ws x v w t h

    u_awaited : awaited x t.fresh (hold_deque none v u) ≡ awaited x t.fresh t
    unfolding hold_deque
    u_awaited =
        awaited_cong x t.fresh (hold_deque none v u) t (ap (λ (c : Closure). c.frame) u_x) u_frames
          u_memory

    -- the state when all locks are released
    pub finished : Sched
    finished = hold none x (detached x t.fresh (hold_deque none v u))

    finished_parent : finished.closure x ≡ record (t.closure x) {
      mutex_owner = none;
      join_counter = (t.closure x).join_counter + 1;
      incomplete_inlets = awaited x t.fresh t ∷ (t.closure x).incomplete_inlets;
      cache = none;
      status = Status.ready;
    }
    unfolding finished hold detached hold_deque
    finished_parent = rw (==_refl x) (λ i. record (u_x i) {
      mutex_owner = none;
      join_counter = (u_x i).join_counter + 1;
      incomplete_inlets = u_awaited i ∷ (u_x i).incomplete_inlets;
      cache = none;
      status = Status.ready;
    })

    finished_child : finished.closure t.fresh ≡ u.closure t.fresh
    unfolding finished hold detached hold_deque
    finished_child = rw (==_ne (λ (e : x ≡ t.fresh). ne ws x v w t h (sym e))) refl

    finished-IsDeque : (qn : ℕ) (ys : List ℕ) → IsDeque u qn ys → IsDeque finished qn ys
    unfolding finished hold detached
    finished-IsDeque qn ys d =
        let e = hold_deque-IsDeque none v qn u ys d in
        record { links = e.links; top = e.top; bottom = e.bottom; distinct = e.distinct }

    pub finished_lem : Split t finished v x w t.fresh
    unfolding finished hold detached hold_deque
    finished_lem = record {
      deque = finished-IsDeque v (t.fresh ∷ []) k.deque;
      deque_free = rw (==_refl v) refl;
      owner = k.owner;
      parent = finished_parent;
      child = finished_child ∙ u_child ∙ grown-child ws x v w t h;
      caches = k.only.caches ∙ a.only.caches ∙ grown-caches ws x v w t h;
      others = λ qn ys n fr d.
          finished-IsDeque qn ys
            (k.only.others qn ys n (a.only.others qn ys n (grown-others ws x v w t h qn ys fr d)));
    }

  unlock_lem :
      (b u : Sched) (a : Added (grown ws x v w t h) b v t.fresh (x ∷ []))
      (k : Taken b u v x (t.fresh ∷ []))
      → Closure_unlock ws x (detached x t.fresh (hold_deque none v u)) ≡ ok tt (finished b u a k)
  unfolding finished
  unlock_lem b u a k =
      Closure_unlock_lem ws x (detached x t.fresh (hold_deque none v u)) h.runs.there
        (detached-same x t.fresh (λ c. c.magic) (hold_deque none v u) (λ c n i o q. refl)
          ∙ (can_finish b u a k).alive)
        (detached-same x t.fresh (λ c. c.mutex_owner) (hold_deque none v u) (λ c n i o q. refl)
          ∙ (can_finish b u a k).locked)

  -- what follows the promotion of the child
  abbrev parent_tail : ℕ → Cmd Sched ℕ
  parent_tail child = do
    res ← deque_xtract_top ws v
    check (x == res)
    deque_unlock ws v
    finish_promote ws x child
    Closure_unlock ws x
    pure res

  tail_lem :
      (b : Sched)
      → Added (grown ws x v w t h) b v t.fresh (x ∷ [])
      → Returns (parent_tail t.fresh b) (λ r t'. (r ≡ x) × Split t t' v x w t.fresh)
  tail_lem b a =
      Returns-bind (deque_xtract_top ws v b) _ _ _
        (deque_xtract_top_lem ws v x (t.fresh ∷ []) b (a.only.owners v ∙ grown-owner ws x v w t h)
          a.deque)
        (λ r u k. rw (==_eq (sym k.0)) (
          rw
            (
              deque_unlock_lem ws v u,
              finish_promote_lem ws x t.fresh (hold_deque none v u) (can_finish b u a k.1),
              unlock_lem b u a k.1,
            )
            (k.0, finished_lem b u a k.1)))

  pub steal_parent_lem :
      Returns (steal_parent ws v x t) (λ r t'. (r ≡ x) × Split t t' v x w t.fresh)
  unfolding steal_parent
  steal_parent_lem =
      Returns-bind (promote_child ws x v t) _ _ _ (promote_child_lem ws x v w t h) (λ c b a.
        subst (λ (q : ℕ). Returns (parent_tail q b) (λ r t'. (r ≡ x) × Split t t' v x w t.fresh))
          (sym a.0) (tail_lem b a.1))
