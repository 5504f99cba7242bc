-- ===== src/Runtime/Sched/Steal/Theft.antt =====
-- Closure_steal of runtime/sched.c on a running closure, from the victim's free deque on.
use cilk.Common.{
  ℕ, ◌+◌, ◌≡◌, ◌≢◌, ◌<◌, refl, sym, ◌∙◌, ap, true, Option, none, some, List, [], ◌∷◌, update,
  update_ne, update_twice, ==_refl, subst, Returns, Returns-mono, arith,
}
use cilk.Runtime.Sched.State.{Status, Closure, Cache, Frame, Sched, is_no_abort}
use cilk.Runtime.Sched.Abort.{raise}
use cilk.Runtime.Sched.Deque.Repr.{IsDeque, Fresh}
use cilk.Runtime.Sched.Steal.{Closure_steal, steal_by_status, steal_parent, below}
use cilk.Runtime.Sched.Steps.{hold, hold_deque, hold_deque-IsDeque}
use cilk.Runtime.Sched.Steal.Leave.{IsOpen, both, both-RunsOn, both-caches, steal_status}
use cilk.Runtime.Sched.Steal.Dekker.{raised, raised-RunsOn, dekker-wins}
use cilk.Runtime.Sched.Steal.Promote.{CanPromote, blank}
use cilk.Runtime.Sched.Steal.Finish.{awaited, awaited_cong}
use cilk.Runtime.Sched.Steal.Split.{IsFramed, Split, steal_parent_lem}

-- The worker on the cache `w` runs `x` and has more than the frame at the head.
pub record CanSplit (s : Sched) (x w : ℕ) : Type 0 where
  pub running : (s.closure x).status ≡ Status.running
  pub cache : (s.closure x).cache ≡ some w
  pub spare : (s.caches w).head + 1 < (s.caches w).tail
  pub exception : below (s.caches w).head (s.caches w).exception ≡ true
  pub framed : IsFramed x s
  pub old : x < s.fresh

-- After the theft: the deque holds the child `c` alone, which runs the frame behind the head on the
-- worker's cache; the parent is ready, in no deque, counts and awaits the child; the head has moved on
-- and the exception with it; nothing is locked; the deques that do not hold `c` are as before.
pub record Theft (s s' : Sched) (v x w c : ℕ) : Type 0 where
  pub deque : IsDeque s' v (c ∷ [])
  pub deque_free : (s'.deques v).mutex_owner ≡ none
  pub owner : (s'.links x).owner_ready_deque ≡ none
  pub parent : s'.closure x ≡ record (s.closure x) {
    mutex_owner = none;
    join_counter = (s.closure x).join_counter + 1;
    incomplete_inlets = awaited x c s ∷ (s.closure x).incomplete_inlets;
    cache = none;
    status = Status.ready;
  }
  pub child : s'.closure c ≡ record (blank (s.closure c)) {
    parent = x;
    join_counter = 0;
    cache = some w;
    status = Status.running;
    frame = (s.caches w).stack ((s.caches w).head + 1);
  }
  pub caches :
      s'.caches
      ≡ update s.caches w (record (s.caches w) {
        head = (s.caches w).head + 1;
        exception = raise (s.caches w).exception;
      })
  pub others : (qn : ℕ) (ys : List ℕ) → qn ≢ v → Fresh c ys → IsDeque s qn ys → IsDeque s' qn ys

below-raise : (h : ℕ) (e : Option ℕ) → below h e ≡ true → below h (raise e) ≡ true
below-raise h none b = refl
below-raise h (some e) b = ground (arith, b)

module _ (ws v x w : ℕ) (s : Sched) (h : IsOpen s v x []) (p : CanSplit s x w) where
  -- the state of the thief that has passed the test
  unfoldable inside : Sched
  inside = raised w (both ws v x s)

  inside-IsDeque : (qn : ℕ) (ys : List ℕ) → IsDeque s qn ys → IsDeque inside qn ys
  unfolding inside raised both hold
  inside-IsDeque qn ys d =
      let e = hold_deque-IsDeque (some ws) v qn s ys d in
      record { links = e.links; top = e.top; bottom = e.bottom; distinct = e.distinct }

  inside-caches :
      inside.caches
      ≡ update s.caches w (record (s.caches w) { exception = raise (s.caches w).exception })
  unfolding inside raised both hold hold_deque
  inside-caches = refl

  inside-x : inside.closure x ≡ record (s.closure x) { mutex_owner = some ws }
  unfolding inside raised both hold hold_deque
  inside-x = rw (==_refl x) refl

  inside-other : (c : ℕ) → c ≢ x → inside.closure c ≡ s.closure c
  unfolding inside raised both hold hold_deque
  inside-other c ne = update_ne s.closure _ (λ e. ne (sym e))

  inside-cache : inside.caches w ≡ record (s.caches w) { exception = raise (s.caches w).exception }
  inside-cache = ap (λ (f : ℕ → Cache). f w) inside-caches ∙ rw (==_refl w) refl

  can_promote : CanPromote ws x v w inside
  unfolding inside
  can_promote = record {
    runs = raised-RunsOn ws x w (both ws v x s) (both-RunsOn ws v x [] s h w p.running p.cache);
    deque = inside-IsDeque v (x ∷ []) h.deque;
    deque_locked = unfold raised both hold hold_deque in rw (==_refl v) refl;
    old = unfold raised both hold hold_deque in p.old;
    exception =
        subst (λ (k : Cache). below k.head k.exception ≡ true) (sym inside-cache)
          (below-raise (s.caches w).head (s.caches w).exception p.exception);
  }

  inside-frames : inside.frames ≡ s.frames
  unfolding inside raised both hold hold_deque
  inside-frames = refl

  inside-memory : inside.memory ≡ s.memory
  unfolding inside raised both hold hold_deque
  inside-memory = refl

  inside-fresh : inside.fresh ≡ s.fresh
  unfolding inside raised both hold hold_deque
  inside-fresh = refl

  new : s.fresh ≢ x
  new e = ground (arith, e, p.old)

  inside-awaited : awaited x s.fresh inside ≡ awaited x s.fresh s
  inside-awaited =
      awaited_cong x s.fresh inside s (ap (λ (k : Closure). k.frame) inside-x) inside-frames
        inside-memory

  is_framed : IsFramed x inside
  is_framed = record {
    framed = subst (λ (k : Closure). k.frame ≢ 0) (sym inside-x) p.framed.framed;
    spawned =
        subst (λ (g : ℕ → Frame). 0 < (g (inside.closure x).frame).entry) (sym inside-frames)
          (subst (λ (k : Closure). 0 < (s.frames k.frame).entry) (sym inside-x) p.framed.spawned);
    alive = ap (λ (k : Closure). k.magic) inside-x ∙ p.framed.alive;
  }

  theft : (s' : Sched) → Split inside s' v x w s.fresh → Theft s s' v x w s.fresh
  theft s' t = record {
    deque = t.deque;
    deque_free = t.deque_free;
    owner = t.owner;
    parent = t.parent ∙ (λ i. record (inside-x i) {
      mutex_owner = none;
      join_counter = (inside-x i).join_counter + 1;
      incomplete_inlets = inside-awaited i ∷ (inside-x i).incomplete_inlets;
      cache = none;
      status = Status.ready;
    });
    child = t.child ∙ (λ i. record (blank (inside-other s.fresh new i)) {
      parent = x;
      join_counter = 0;
      cache = some w;
      status = Status.running;
      frame = (inside-cache i).stack ((inside-cache i).head + 1);
    });
    caches =
        t.caches
        ∙ (λ i.
            update (inside-caches i) w
              (record (inside-cache i) { head = (inside-cache i).head + 1 }))
        ∙ update_twice s.caches w (record (s.caches w) { exception = raise (s.caches w).exception })
            (record (s.caches w) {
              head = (s.caches w).head + 1;
              exception = raise (s.caches w).exception;
            });
    others = λ qn ys n fr d. t.others qn ys n fr (inside-IsDeque qn ys d);
  }

  -- A thief that finds a free deque with one free closure, which runs, is not being aborted and has more
  -- than the frame at its head, takes that closure, the parent, and leaves the worker a new child: see
  -- Theft.
  pub Closure_steal-splits :
      is_no_abort (s.closure x).abort_status ≡ true
      → Returns (Closure_steal ws v s) (λ r s'. (r ≡ x) × Theft s s' v x w s.fresh)
  unfolding steal_by_status inside
  Closure_steal-splits a =
      rw (steal_status ws v x [] s h a, p.running)
        (rw
          (dekker-wins ws x w (both ws v x s) (both-RunsOn ws v x [] s h w p.running p.cache) (
            subst (λ (f : ℕ → Cache). (f w).head + 1 < (f w).tail) (sym (both-caches ws v x [] s h))
              p.spare))
          (Returns-mono (steal_parent ws v x inside)
            (λ r s'. (r ≡ x) × Split inside s' v x w inside.fresh)
            (λ r s'. (r ≡ x) × Theft s s' v x w s.fresh)
            (steal_parent_lem ws x v w inside can_promote is_framed)
            (λ r s' t. (t.0, theft s' (subst (λ c. Split inside s' v x w c) inside-fresh t.1)))))
