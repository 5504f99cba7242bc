-- ===== src/Cilk2c/Lists/Join.antt =====
-- Last, JoinLists and AppendItem of cilk2c/list.c.
use cilk.Common.{
  ℕ, zero, suc, ◌<◌, ◌≡◌, ◌≢◌, refl, sym, ◌∙◌, ap, arith, List, [], ◌∷◌, ◌++◌, length, update,
  update_ne, ==_ne, ==_eq, ok, Returns, ◌==◌, if◌then◌else◌,
}
use cilk.Cilk2c.Lists.{Heap, last_loop, last, join_lists}
use cilk.Cilk2c.Lists.Seg.{
  Seg, NotIn, NotIn-last_of, Distinct, last_of, last_of_ne, Seg-append, Seg-update, Seg-relink,
  Distinct-left, Distinct-last_of,
}

last_loop_step :
    (fuel list : ℕ) (h : Heap)
    → list ≢ 0
    → last_loop (suc fuel) list h
      ≡ (if h.next list == 0 then ok list h else last_loop fuel (h.next list) h)
unfolding last_loop
last_loop_step fuel list h n = ground arith

last_loop_lem :
    (fuel : ℕ) (h : Heap) (p a : ℕ) (ps : List ℕ)
    → Seg h.next p (a ∷ ps) 0
    → length ps < fuel
    → last_loop fuel p h ≡ ok (last_of a ps) h
last_loop_lem zero h p a ps s l = absurd (omega arith)
last_loop_lem (suc fuel) h p a [] (e, n, s) l =
    ap (λ q. last_loop (suc fuel) q h) e ∙ last_loop_step fuel a h n ∙ rw (==_eq s) refl
last_loop_lem (suc fuel) h p a (b ∷ bs) (e, n, s) l =
    let (e', n', s') = s in
    ap (λ q. last_loop (suc fuel) q h) e
    ∙ last_loop_step fuel a h n
    ∙ rw (==_ne (λ z. n' (sym e' ∙ z))) (last_loop_lem fuel h (h.next a) b bs s (omega (arith, l)))

join_empty : (fuel q : ℕ) (h : Heap) → join_lists fuel 0 q h ≡ ok q h
unfolding join_lists last
join_empty fuel q h = refl

join_step :
    (fuel p q l : ℕ) (h : Heap)
    → p ≢ 0
    → last_loop fuel p h ≡ ok l h
    → l ≢ 0
    → join_lists fuel p q h ≡ ok p (record h { next = update h.next l q })
unfolding join_lists last
join_step fuel p q l h n e k = rw (==_ne n) (rw e (rw (==_ne k) (rw (==_ne k) refl)))

-- For two lists of distinct cells and as many rounds as the first has cells, JoinLists returns the list
-- of both. No item changes, and no link but the last one of the first list.
pub join_lists-append :
    (fuel : ℕ) (h : Heap) (p q : ℕ) (ps qs : List ℕ)
    → Seg h.next p ps 0
    → Seg h.next q qs 0
    → Distinct (ps ++ qs)
    → length ps < suc fuel
    → Returns (join_lists fuel p q h) (λ r h'.
      Seg h'.next r (ps ++ qs) 0
      × (h'.element ≡ h.element)
      × ((c : ℕ) → NotIn c ps → h'.next c ≡ h.next c))
join_lists-append fuel h p q [] qs s t d l =
    rw (ap (λ x. join_lists fuel x q h) s ∙ join_empty fuel q h) (t, refl, λ c n. refl)
join_lists-append fuel h p q (a ∷ ps) qs s t d l =
    let (e, n, s') = s in
    let z = last_of_ne h.next p a ps 0 s in
    rw
      (join_step fuel p q (last_of a ps) h (λ w. n (sym e ∙ w))
        (last_loop_lem fuel h p a ps s (omega (arith, l))) z)
      (
        Seg-append (update h.next (last_of a ps) q) p q 0 (a ∷ ps) qs
            (Seg-relink h.next p a q ps 0 (Distinct-left (a ∷ ps) qs d) s)
            (Seg-update h.next (last_of a ps) q q qs 0 (Distinct-last_of a ps qs d) t),
        refl,
        λ c k. update_ne h.next q (λ w. NotIn-last_of c a ps k (sym w)),
      )
