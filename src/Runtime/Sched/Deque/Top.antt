-- ===== src/Runtime/Sched/Deque/Top.antt =====
-- deque_xtract_top and deque_peek_top of runtime/sched.c take from and look at the front of the list.
use cilk.Common.{
  ℕ, ◌≡◌, refl, none, some, update_twice, List, [], ◌∷◌, update, sym, ok, Returns, Returns-bind,
  ==_ne, ==_refl,
}
use cilk.Runtime.Sched.State.{Ready, Sched}
use cilk.Runtime.Sched.Deque.{deque_assert_ownership, deque_xtract_top, deque_peek_top, unlink_top}
use cilk.Runtime.Sched.Deque.Repr.{
  first, IsDeque, Links-update, last-Fresh, opt_eq_self, OnlyDeque, OnlyDeque-one, OnlyDeque-two,
  other-Fresh,
}

-- The links after `x` has left the top, and `y` has become it.
abbrev top_left : (ℕ → Ready) → ℕ → ℕ → ℕ → Ready
top_left c x y =
    update (update c y (record (c y) { prev_ready = 0 })) x
      (record (c x) { owner_ready_deque = none })

unlink_top-one :
    (pn x : ℕ) (s : Sched)
    → IsDeque s pn (x ∷ [])
    → unlink_top pn x s
      ≡ ok tt (record s {
        links = update s.links x (record (s.links x) { owner_ready_deque = none });
        deques =
            update
              (update s.deques pn (record (s.deques pn) { top = 0 }))
              pn
              (record (s.deques pn) { top = 0; bottom = 0 });
      })
unfolding unlink_top
unlink_top-one pn x s d =
    rw (==_ne d.links.0, opt_eq_self d.links.3, d.links.2)
      (rw (==_refl pn, d.bottom, ==_refl x) (rw (==_ne d.links.0, ==_refl pn, d.links.2) refl))

unlink_top-more :
    (pn x y : ℕ) (ys : List ℕ) (s : Sched)
    → IsDeque s pn (x ∷ y ∷ ys)
    → unlink_top pn x s
      ≡ ok tt (record s {
        links = top_left s.links x y;
        deques = update s.deques pn (record (s.deques pn) { top = y });
      })
unfolding unlink_top
unlink_top-more pn x y ys s d =
    rw (==_ne d.links.0, opt_eq_self d.links.3, d.links.2)
      (rw
        (
          ==_refl pn,
          d.bottom,
          ==_ne (last-Fresh x y ys d.distinct.0.0 d.distinct.0.1),
          ==_ne d.links.4.0,
        )
        (rw (==_ne d.links.4.0)
          (rw (==_ne d.links.0, ==_ne (λ e. d.distinct.0.0 (sym e)), d.links.2) refl)))

-- What the deque `pn` of `x ∷ xs` is after `x` has left it, and that nothing else changed.
pub record Taken (s s' : Sched) (pn x : ℕ) (xs : List ℕ) : Type 0 where
  pub deque : IsDeque s' pn xs
  pub owner : (s'.links x).owner_ready_deque ≡ none
  pub only : OnlyDeque s s' pn

unlink_top_lem :
    (pn x : ℕ) (xs : List ℕ) (s : Sched)
    → IsDeque s pn (x ∷ xs)
    → Returns (unlink_top pn x s) (λ r s'. Taken s s' pn x xs)
unlink_top_lem pn x [] s d = rw (unlink_top-one pn x s d) (
    rw
      (update_twice s.deques pn (record (s.deques pn) { top = 0 })
        (record (s.deques pn) { top = 0; bottom = 0 }))
      (record {
        deque = record {
          links = tt;
          top = rw (==_refl pn) refl;
          bottom = rw (==_refl pn) refl;
          distinct = tt;
        };
        owner = rw (==_refl x) refl;
        only =
            OnlyDeque-one s pn (record (s.deques pn) { top = 0; bottom = 0 }) refl x _
              (other-Fresh s pn x d.links.3);
      }))
unlink_top_lem pn x (y ∷ ys) s d = rw (unlink_top-more pn x y ys s d) (record {
  deque = record {
    links =
        Links-update (update s.links y (record (s.links y) { prev_ready = 0 })) pn x
          (record (s.links x) { owner_ready_deque = none }) 0 (y ∷ ys) d.distinct.0
          (
            d.links.4.0,
            rw (==_refl y) refl,
            rw (==_refl y) d.links.4.2,
            rw (==_refl y) d.links.4.3,
            Links-update s.links pn y _ y ys d.distinct.1.0 d.links.4.4,
          );
    top = rw (==_refl pn) refl;
    bottom = rw (==_refl pn) d.bottom;
    distinct = d.distinct.1;
  };
  owner = rw (==_refl x) refl;
  only =
      OnlyDeque-two s pn (record (s.deques pn) { top = y }) refl x y _ _
        (other-Fresh s pn x d.links.3) (other-Fresh s pn y d.links.4.3);
})

-- The owner of the lock of a deque that holds `x ∷ xs` extracts `x`: the deque then holds `xs`, `x`
-- belongs to no deque, and the other deques, all locks and all closures are as before.
pub deque_xtract_top_lem :
    (ws pn x : ℕ) (xs : List ℕ) (s : Sched)
    → (s.deques pn).mutex_owner ≡ some ws
    → IsDeque s pn (x ∷ xs)
    → Returns (deque_xtract_top ws pn s) (λ r s'. (r ≡ x) × Taken s s' pn x xs)
unfolding deque_xtract_top deque_assert_ownership
deque_xtract_top_lem ws pn x xs s o d =
    rw (opt_eq_self o, d.top)
      (rw (==_ne d.links.0) (
        Returns-bind (unlink_top pn x s) _ (λ r s'. Taken s s' pn x xs) _
          (unlink_top_lem pn x xs s d) (λ r s' t. (refl, t))))

-- On an empty deque it returns NULL and changes nothing.
pub deque_xtract_top-empty :
    (ws pn : ℕ) (s : Sched)
    → (s.deques pn).mutex_owner ≡ some ws
    → IsDeque s pn []
    → deque_xtract_top ws pn s ≡ ok 0 s
unfolding deque_xtract_top deque_assert_ownership
deque_xtract_top-empty ws pn s o d = rw (opt_eq_self o, d.top, d.bottom) refl

pub deque_peek_top_lem :
    (ws pn : ℕ) (xs : List ℕ) (s : Sched)
    → (s.deques pn).mutex_owner ≡ some ws
    → IsDeque s pn xs
    → deque_peek_top ws pn s ≡ ok (first xs) s
unfolding deque_peek_top deque_assert_ownership
deque_peek_top_lem ws pn [] s o d = rw (opt_eq_self o, d.top, d.bottom) refl
deque_peek_top_lem ws pn (x ∷ xs) s o d =
    rw (opt_eq_self o, d.top)
      (rw (==_ne d.links.0) (rw (==_ne d.links.0) (rw (opt_eq_self d.links.3) refl)))
