-- ===== src/Runtime/Sched/Deque/Add.antt =====
-- deque_add_bottom of runtime/sched.c appends to the list.
use cilk.Common.{
  ℕ, ◌≡◌, ◌≢◌, refl, none, some, List, [], ◌∷◌, ◌++◌, update, update_ne, update_twice, arith, sym,
  subst, ok, Returns, ==_ne, ==_refl,
}
use cilk.Runtime.Sched.State.{Ready, Sched}
use cilk.Runtime.Sched.Deque.{deque_assert_ownership, deque_add_bottom}
use cilk.Runtime.Sched.Deque.Repr.{
  last, Fresh, Links, IsDeque, Links-update, owner-Fresh, last-ne-zero, opt_eq_self, OnlyDeque,
  OnlyDeque-one, OnlyDeque-two, other-Fresh,
}
use cilk.Runtime.Sched.Deque.Snoc.{
  last-append, Distinct-snoc, last-Fresh-self, Links-owner, Links-snoc,
}

-- What belongs to no deque is in none.
unowned-Fresh :
    (s : Sched) (x : ℕ)
    → (s.links x).owner_ready_deque ≡ none
    → (qn : ℕ) (ys : List ℕ) → IsDeque s qn ys
    → Fresh x ys
unowned-Fresh s x e qn ys d = owner-Fresh s.links qn x 0 ys (λ h. ground (arith, e, h)) d.links

abbrev added : ℕ → ℕ → Ready
added b pn = record { next_ready = 0; prev_ready = b; owner_ready_deque = some pn }

deque_add_bottom-one :
    (ws cl pn : ℕ) (s : Sched)
    → (s.deques pn).mutex_owner ≡ some ws
    → cl ≢ 0
    → (s.links cl).owner_ready_deque ≡ none
    → IsDeque s pn []
    → deque_add_bottom ws cl pn s
      ≡ ok tt (record s {
        links = update s.links cl (added 0 pn);
        deques = update s.deques pn (record (s.deques pn) { top = cl; bottom = cl });
      })
unfolding deque_add_bottom deque_assert_ownership
deque_add_bottom-one ws cl pn s o nz own d =
    rw
      (sym (
        update_twice s.deques pn (record (s.deques pn) { bottom = cl })
          (record (s.deques pn) { top = cl; bottom = cl })))
      (rw
        (sym (
          update_twice s.links cl (record (s.links cl) { prev_ready = 0; next_ready = 0 })
            (added 0 pn)))
        (rw (opt_eq_self o, ==_ne nz)
          (rw (own, ==_ne nz)
            (rw (==_ne nz) (rw (==_refl cl, d.top, d.bottom) (rw (==_refl pn, own) refl))))))

deque_add_bottom-more :
    (ws cl pn y : ℕ) (ys : List ℕ) (s : Sched)
    → (s.deques pn).mutex_owner ≡ some ws
    → cl ≢ 0
    → (s.links cl).owner_ready_deque ≡ none
    → IsDeque s pn (y ∷ ys)
    → deque_add_bottom ws cl pn s
      ≡ ok tt (record s {
        links =
            update
              (update s.links cl (added (last y ys) pn))
              (last y ys)
              (record (s.links (last y ys)) { next_ready = cl });
        deques = update s.deques pn (record (s.deques pn) { bottom = cl });
      })
unfolding deque_add_bottom deque_assert_ownership
deque_add_bottom-more ws cl pn y ys s o nz own d =
    rw
      (sym (
        update_twice s.links cl (record (s.links cl) { prev_ready = last y ys; next_ready = 0 })
          (added (last y ys) pn)))
      (rw (opt_eq_self o, ==_ne nz)
        (rw (own, d.bottom, ==_ne nz)
          (rw (==_ne nz) (
            rw (==_refl cl, d.top)
              (rw (==_ne d.links.0, own)
                (rw (==_ne (last-ne-zero s.links pn y ys d.links.0 d.links.4)) (
                  rw
                    (
                      ==_ne (last-ne-zero s.links pn y ys d.links.0 d.links.4),
                      ==_ne (last-Fresh-self y ys cl (unowned-Fresh s cl own pn (y ∷ ys) d)),
                    )
                    refl)))))))

-- What the deque `pn` of `xs` is after `cl` was added, and that nothing else changed.
pub record Added (s s' : Sched) (pn cl : ℕ) (xs : List ℕ) : Type 0 where
  pub deque : IsDeque s' pn (xs ++ (cl ∷ []))
  pub only : OnlyDeque s s' pn

-- The owner of the lock of a deque adds a closure that belongs to no deque: the closure is the new
-- bottom, and the other deques, all locks and all closures are as before.
pub deque_add_bottom_lem :
    (ws cl pn : ℕ) (xs : List ℕ) (s : Sched)
    → (s.deques pn).mutex_owner ≡ some ws
    → cl ≢ 0
    → (s.links cl).owner_ready_deque ≡ none
    → IsDeque s pn xs
    → Returns (deque_add_bottom ws cl pn s) (λ r s'. Added s s' pn cl xs)
deque_add_bottom_lem ws cl pn [] s o nz own d =
    rw (deque_add_bottom-one ws cl pn s o nz own d) (record {
      deque = record {
        links = (nz, rw (==_refl cl) refl, rw (==_refl cl) refl, rw (==_refl cl) refl, tt);
        top = rw (==_refl pn) refl;
        bottom = rw (==_refl pn) refl;
        distinct = (tt, tt);
      };
      only =
          OnlyDeque-one s pn (record (s.deques pn) { top = cl; bottom = cl }) refl cl (added 0 pn)
            (λ qn ys ne e. unowned-Fresh s cl own qn ys e);
    })
deque_add_bottom_lem ws cl pn (y ∷ ys) s o nz own d =
    let f = unowned-Fresh s cl own pn (y ∷ ys) d in
    let v = added (last y ys) pn in
    let c = update s.links cl v in
    rw (deque_add_bottom-more ws cl pn y ys s o nz own d) (record {
      deque = record {
        links =
            subst
              (λ r.
                Links (update c (last y ys) (record r { next_ready = cl })) pn 0
                  ((y ∷ ys) ++ (cl ∷ [])))
              (update_ne s.links v (last-Fresh-self y ys cl f))
              (Links-snoc c pn 0 cl y ys nz (rw (==_refl cl) refl) (rw (==_refl cl) refl)
                (rw (==_refl cl) refl) f d.distinct
                (Links-update s.links pn cl v 0 (y ∷ ys) f d.links));
        top = rw (==_refl pn) d.top;
        bottom = rw (==_refl pn, last-append 0 cl (y ∷ ys)) refl;
        distinct = Distinct-snoc cl (y ∷ ys) f d.distinct;
      };
      only =
          OnlyDeque-two s pn (record (s.deques pn) { bottom = cl }) refl (last y ys) cl _ v
            (other-Fresh s pn (last y ys) (Links-owner s.links pn 0 y ys d.links))
            (λ qn zs ne e. unowned-Fresh s cl own qn zs e);
    })
