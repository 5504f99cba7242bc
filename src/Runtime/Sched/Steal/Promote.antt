-- ===== src/Runtime/Sched/Steal/Promote.antt =====
-- promote_child of runtime/sched.c, under the locks of the parent and of the victim's deque.
use cilk.Common.{
  false, update_self, update_twice, ℕ, ◌+◌, ◌≡◌, ◌≢◌, ◌<◌, refl, ◌∙◌, ap, true, none, some, List,
  [], ◌∷◌, ok, Run, and_then, update_twice, update, update_ne, ==_ne, ==_refl, Returns,
  Returns-bind, check, ◌>>=◌, arith,
}
use cilk.Runtime.Sched.State.{Status, Abort, Closure, Cache, Sched, assign, ReadyDeque, get_cache}
use cilk.Runtime.Sched.Deque.{deque_assert_ownership, deque_add_bottom}
use cilk.Runtime.Sched.Deque.Repr.{IsDeque, opt_eq_self, Fresh, Links-update}
use cilk.Runtime.Sched.Deque.Add.{deque_add_bottom_lem, Added}
use cilk.Runtime.Sched.Closure.{Closure_create, Closure_init}
use cilk.Runtime.Sched.Steal.{promote_child, check_promote, take_frame, below}
use cilk.Runtime.Sched.Steps.{Closure_assert_ownership_lem}
use cilk.Runtime.Sched.Steal.Dekker.{RunsOn, get_cache_lem}

-- a closure as Closure_init leaves it
unfoldable pub blank : Closure → Closure
blank c = record c {
  cp = 0;
  work = 0;
  complete_inlets = [];
  incomplete_inlets = [];
  abort_status = Abort.no_abort;
  return_size = 0;
  return_value = none;
  magic = true;
  malloced = false;
  mutex_owner = none;
}

unfoldable pub created : Sched → Sched
created t = record t {
  fresh = t.fresh + 1;
  closure = update t.closure t.fresh (blank (t.closure t.fresh));
  links =
      update t.links t.fresh (record { next_ready = 0; prev_ready = 0; owner_ready_deque = none });
}

-- The child of `x` runs the frame behind the head of the cache `w`.
adopted : ℕ → ℕ → ℕ → Sched → Sched
adopted x w c t = record t {
  closure = update t.closure c (record (t.closure c) {
    parent = x;
    join_counter = 0;
    cache = some w;
    status = Status.running;
    frame = (t.caches w).stack ((t.caches w).head + 1);
  });
  caches = update t.caches w (record (t.caches w) { head = (t.caches w).head + 1 });
}

pub Closure_create_lem : (t : Sched) → t.fresh ≢ 0 → Closure_create t ≡ ok t.fresh (created t)
unfolding Closure_create Closure_init created blank assign
Closure_create_lem t nz =
    rw (==_ne nz)
      (rw (==_ne nz) (rw (==_ne nz) (rw (update_self t.closure t.fresh _, update_twice) refl)))

-- What the thief knows before it promotes the child.
pub record CanPromote (ws x v w : ℕ) (t : Sched) : Type 0 where
  pub runs : RunsOn ws x w t
  pub deque : IsDeque t v (x ∷ [])
  pub deque_locked : (t.deques v).mutex_owner ≡ some ws
  pub old : x < t.fresh
  pub exception : below (t.caches w).head (t.caches w).exception ≡ true

module _ (ws x v w : ℕ) (t : Sched) (h : CanPromote ws x v w t) where
  pub ne : t.fresh ≢ x
  ne e = ground (arith, e, h.old)

  pub nz : t.fresh ≢ 0
  nz e = ground (arith, e, h.old)

  pub created-x : (created t).closure x ≡ t.closure x
  unfolding created
  created-x = update_ne t.closure _ ne

  created-links : (created t).links x ≡ t.links x
  unfolding created
  created-links = update_ne t.links _ ne

  created-deques : (created t).deques ≡ t.deques
  unfolding created
  created-deques = refl

  pub created-caches : (created t).caches ≡ t.caches
  unfolding created
  created-caches = refl

  created-RunsOn : RunsOn ws x w (created t)
  created-RunsOn = record {
    there = h.runs.there;
    locked = ap (λ (c : Closure). c.mutex_owner) created-x ∙ h.runs.locked;
    running = ap (λ (c : Closure). c.status) created-x ∙ h.runs.running;
    cache = ap (λ (c : Closure). c.cache) created-x ∙ h.runs.cache;
  }

  created-owner : ((created t).deques v).mutex_owner ≡ some ws
  created-owner = ap (λ (f : ℕ → ReadyDeque). (f v).mutex_owner) created-deques ∙ h.deque_locked

  created-below : below ((created t).caches w).head ((created t).caches w).exception ≡ true
  created-below =
      ap (λ (f : ℕ → Cache). below (f w).head (f w).exception) created-caches ∙ h.exception

  cache_check :
      ((do h ← get_cache x; check (below h.head h.exception)) (created t)) ≡ ok tt (created t)
  cache_check =
      ap (λ (q : Run Sched Cache). and_then q (λ (c : Cache). check (below c.head c.exception)))
        (get_cache_lem ws x w (created t) created-RunsOn)
      ∙ rw created-below refl

  check_lem : check_promote ws x v (created t) ≡ ok tt (created t)
  unfolding check_promote deque_assert_ownership
  check_lem =
      let r = created-RunsOn in
      rw (Closure_assert_ownership_lem ws x (created t) r.there r.locked) (
        rw (opt_eq_self created-owner) (
          rw (==_ne r.there) (
            rw (==_ne r.there) (
              rw (r.running) (
                rw (created-links)
                  (rw (opt_eq_self h.deque.links.3, h.deque.links.2) cache_check))))))

  adopt_lem :
      (take_frame t.fresh (record (created t) {
        closure = update (created t).closure t.fresh (record ((created t).closure t.fresh) {
          parent = x;
          join_counter = 0;
          cache = some w;
          status = Status.running;
        });
      }))
      ≡ ok tt (adopted x w t.fresh (created t))
  unfolding take_frame assign adopted
  adopt_lem = rw (==_ne nz) (
      rw (==_refl t.fresh) (
        rw (==_ne nz) (
          rw (==_refl t.fresh) (
            rw (==_ne nz) (
              rw (update_twice (created t).closure t.fresh _ _)
                (rw (==_refl t.fresh) (rw (==_refl w) refl)))))))

  pub grown : Sched
  grown = adopted x w t.fresh (created t)

  grown-IsDeque : IsDeque grown v (x ∷ [])
  unfolding grown adopted created
  grown-IsDeque = record {
    links = Links-update t.links v t.fresh _ 0 (x ∷ []) (ne, tt) h.deque.links;
    top = h.deque.top;
    bottom = h.deque.bottom;
    distinct = h.deque.distinct;
  }

  grown-unowned : (grown.links t.fresh).owner_ready_deque ≡ none
  unfolding grown adopted created
  grown-unowned = rw (==_refl t.fresh) refl

  pub grown-owner : (grown.deques v).mutex_owner ≡ some ws
  unfolding grown adopted created
  grown-owner = h.deque_locked

  pub promote_child_lem :
      Returns (promote_child ws x v t) (λ r t'. (r ≡ t.fresh) × Added grown t' v t.fresh (x ∷ []))
  unfolding promote_child assign grown
  promote_child_lem =
      let r = created-RunsOn in
      rw (Closure_create_lem t nz, check_lem)
        (rw (==_ne r.there) (
          rw (r.cache) (
            rw (==_ne nz) (
              rw adopt_lem (
                Returns-bind (deque_add_bottom ws t.fresh v grown) _
                  (λ a t'. Added grown t' v t.fresh (x ∷ [])) _
                  (deque_add_bottom_lem ws t.fresh v (x ∷ []) grown grown-owner nz grown-unowned
                    grown-IsDeque)
                  (λ a t' d. (refl, d)))))))

  pub grown-x : grown.closure x ≡ t.closure x
  unfolding grown adopted
  grown-x = update_ne (created t).closure _ ne ∙ created-x

  pub grown-caches :
      grown.caches ≡ update t.caches w (record (t.caches w) { head = (t.caches w).head + 1 })
  unfolding grown adopted created
  grown-caches = refl

  pub grown-frames : grown.frames ≡ t.frames
  unfolding grown adopted created
  grown-frames = refl

  pub grown-memory : grown.memory ≡ t.memory
  unfolding grown adopted created
  grown-memory = refl

  -- the child as it is promoted
  pub grown-child : grown.closure t.fresh ≡ record (blank (t.closure t.fresh)) {
    parent = x;
    join_counter = 0;
    cache = some w;
    status = Status.running;
    frame = (t.caches w).stack ((t.caches w).head + 1);
  }
  unfolding grown adopted created
  grown-child = rw (==_refl t.fresh) refl

  pub grown-others :
      (qn : ℕ) (ys : List ℕ) → Fresh t.fresh ys → IsDeque t qn ys → IsDeque grown qn ys
  unfolding grown adopted created
  grown-others qn ys fr d = record {
    links = Links-update t.links qn t.fresh _ 0 ys fr d.links;
    top = d.top;
    bottom = d.bottom;
    distinct = d.distinct;
  }
