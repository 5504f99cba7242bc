-- ===== src/Runtime/Sched/Deque/Bottom.antt =====
-- deque_xtract_bottom, deque_peek_bottom and deque_add_bottom of runtime/sched.c work at the end of
-- the list.
use cilk.Common.{
  ℕ, ◌≡◌, refl, none, some, List, [], ◌∷◌, ◌++◌, update, update_twice, sym, ok, Returns,
  Returns-bind, ==_ne, ==_refl,
}
use cilk.Runtime.Sched.State.{Sched}
use cilk.Runtime.Sched.Deque.{
  deque_assert_ownership, deque_xtract_bottom, deque_peek_bottom, unlink_bottom,
}
use cilk.Runtime.Sched.Deque.Repr.{
  last, IsDeque, Links-update, opt_eq_self, OnlyDeque-one, OnlyDeque-two, other-Fresh,
}
use cilk.Runtime.Sched.Deque.Snoc.{
  last-append, last-ne-zero-init, Distinct-init, last-Fresh-self, Links-last, Links-init,
}
use cilk.Runtime.Sched.Deque.Top.{Taken}

unlink_bottom-one :
    (pn x : ℕ) (s : Sched)
    → IsDeque s pn (x ∷ [])
    → unlink_bottom pn x s
      ≡ ok tt (record s {
        links = update s.links x (record (s.links x) { owner_ready_deque = none });
        deques = update s.deques pn (record (s.deques pn) { top = 0; bottom = 0 });
      })
unfolding unlink_bottom
unlink_bottom-one pn x s d =
    rw
      (sym (
        update_twice s.deques pn (record (s.deques pn) { bottom = 0 })
          (record (s.deques pn) { top = 0; bottom = 0 })))
      (rw (==_ne d.links.0, opt_eq_self d.links.3, d.links.1)
        (rw (==_refl pn, d.top, ==_refl x) (rw (==_ne d.links.0, ==_refl pn, d.links.1) refl)))

unlink_bottom-more :
    (pn x y : ℕ) (ys : List ℕ) (s : Sched)
    → IsDeque s pn ((y ∷ ys) ++ (x ∷ []))
    → unlink_bottom pn x s
      ≡ ok tt (record s {
        links =
            update
              (update s.links (last y ys) (record (s.links (last y ys)) { next_ready = 0 }))
              x
              (record (s.links x) { owner_ready_deque = none });
        deques = update s.deques pn (record (s.deques pn) { bottom = last y ys });
      })
unfolding unlink_bottom
unlink_bottom-more pn x y ys s d =
    let l = Links-last s.links pn 0 x (y ∷ ys) d.links in
    let f = Distinct-init x (y ∷ ys) d.distinct in
    let nz = (last-ne-zero-init s.links pn 0 x y ys d.links).0 in
    rw (==_ne l.0, opt_eq_self l.3, l.1)
      (rw (==_refl pn, d.top, ==_ne f.1.0, ==_ne nz)
        (rw (==_ne nz) (rw (==_ne l.0, ==_ne (λ e. last-Fresh-self y ys x f.1 (sym e)), l.1) refl)))

unlink_bottom_lem :
    (pn x : ℕ) (xs : List ℕ) (s : Sched)
    → IsDeque s pn (xs ++ (x ∷ []))
    → Returns (unlink_bottom pn x s) (λ r s'. Taken s s' pn x xs)
unlink_bottom_lem pn x [] s d = rw (unlink_bottom-one pn x s d) (record {
  deque = record {
    links = tt;
    top = rw (==_refl pn) refl;
    bottom = rw (==_refl pn) refl;
    distinct = tt;
  };
  owner = rw (==_refl x) refl;
  only =
      OnlyDeque-one s pn (record (s.deques pn) { top = 0; bottom = 0 }) refl x _
        (other-Fresh s pn x d.links.3);
})
unlink_bottom_lem pn x (y ∷ ys) s d =
    let l = Links-last s.links pn 0 x (y ∷ ys) d.links in
    let f = Distinct-init x (y ∷ ys) d.distinct in
    let c = update s.links (last y ys) (record (s.links (last y ys)) { next_ready = 0 }) in
    rw (unlink_bottom-more pn x y ys s d) (record {
      deque = record {
        links =
            Links-update c pn x (record (s.links x) { owner_ready_deque = none }) 0 (y ∷ ys) f.1
              (Links-init s.links pn 0 x y ys f.0 d.links);
        top = rw (==_refl pn) d.top;
        bottom = rw (==_refl pn) refl;
        distinct = f.0;
      };
      owner = rw (==_refl x) refl;
      only =
          OnlyDeque-two s pn (record (s.deques pn) { bottom = last y ys }) refl x (last y ys) _ _
            (other-Fresh s pn x l.3)
            (other-Fresh s pn (last y ys) (last-ne-zero-init s.links pn 0 x y ys d.links).1);
    })

-- The owner of the lock of a deque that ends in `x` extracts `x` from the bottom: the deque then
-- holds what stood before `x`, `x` belongs to no deque, and the other deques, all locks and all
-- closures are as before.
pub deque_xtract_bottom_lem :
    (ws pn x : ℕ) (xs : List ℕ) (s : Sched)
    → (s.deques pn).mutex_owner ≡ some ws
    → IsDeque s pn (xs ++ (x ∷ []))
    → Returns (deque_xtract_bottom ws pn s) (λ r s'. (r ≡ x) × Taken s s' pn x xs)
unfolding deque_xtract_bottom deque_assert_ownership
deque_xtract_bottom_lem ws pn x xs s o d =
    rw (opt_eq_self o, d.bottom, last-append 0 x xs)
      (rw (==_ne (Links-last s.links pn 0 x xs d.links).0) (
        Returns-bind (unlink_bottom pn x s) _ (λ r s'. Taken s s' pn x xs) _
          (unlink_bottom_lem pn x xs s d) (λ r s' t. (refl, t))))

pub deque_xtract_bottom-empty :
    (ws pn : ℕ) (s : Sched)
    → (s.deques pn).mutex_owner ≡ some ws
    → IsDeque s pn []
    → deque_xtract_bottom ws pn s ≡ ok 0 s
unfolding deque_xtract_bottom deque_assert_ownership
deque_xtract_bottom-empty ws pn s o d = rw (opt_eq_self o, d.bottom, d.top) refl

pub deque_peek_bottom_lem :
    (ws pn x : ℕ) (xs : List ℕ) (s : Sched)
    → (s.deques pn).mutex_owner ≡ some ws
    → IsDeque s pn (xs ++ (x ∷ []))
    → deque_peek_bottom ws pn s ≡ ok x s
unfolding deque_peek_bottom deque_assert_ownership
deque_peek_bottom_lem ws pn x xs s o d =
    let l = Links-last s.links pn 0 x xs d.links in
    rw (opt_eq_self o, d.bottom, last-append 0 x xs)
      (rw (==_ne l.0) (rw (==_ne l.0) (rw (opt_eq_self l.3) refl)))

pub deque_peek_bottom-empty :
    (ws pn : ℕ) (s : Sched)
    → (s.deques pn).mutex_owner ≡ some ws
    → IsDeque s pn []
    → deque_peek_bottom ws pn s ≡ ok 0 s
unfolding deque_peek_bottom deque_assert_ownership
deque_peek_bottom-empty ws pn s o d = rw (opt_eq_self o, d.bottom, d.top) refl
