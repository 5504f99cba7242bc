-- ===== src/Cilk2c/Lists/Remove.antt =====
-- RemoveItem of cilk2c/list.c against the list without the item.
use cilk.Common.{
  ℕ, zero, suc, ◌<◌, ◌≡◌, ◌≢◌, refl, sym, ◌∙◌, ap, subst, arith, inl, inr, Bool-cases, List, [],
  ◌∷◌, ◌++◌, length, update, ==_ne, ok, ◌==◌, if◌then◌else◌, Returns,
}
use cilk.Cilk2c.Lists.{Heap, unlink, remove_loop, remove_item}
use cilk.Cilk2c.Lists.Seg.{
  Seg, Distinct, last_of, head_or, Seg-head_or, last_of_ne, Seg-append, Seg-split, Seg-update,
  Seg-relink, Distinct-left, Distinct-last_of,
}
use cilk.Cilk2c.Lists.Walk.{point, append_snoc, point_snoc}

-- without the first cell that has the item
abbrev pub without : ℕ → (ℕ → ℕ) → List ℕ → List ℕ
without item element [] = []
without item element (a ∷ ps) =
    let r = without item element ps in if item == element a then ps else a ∷ r

unlink_first : (n list : ℕ) (h : Heap) → unlink 0 n list h ≡ ok n h
unfolding unlink
unlink_first n list h = refl

unlink_later :
    (prev n list : ℕ) (h : Heap)
    → prev ≢ 0
    → unlink prev n list h ≡ ok list (record h { next = update h.next prev n })
unfolding unlink
unlink_later prev n list h k = rw (==_ne k) (rw (==_ne k) refl)

remove_step :
    (fuel prev curr list item : ℕ) (h : Heap)
    → curr ≢ 0
    → remove_loop (suc fuel) prev curr list item h
      ≡ (if item == h.element curr
            then unlink prev (h.next curr) list
            else remove_loop fuel curr (h.next curr) list item)
          h
unfolding remove_loop
remove_step fuel prev curr list item h n = rw (==_ne n) (rw (==_ne n) (rw (==_ne n) refl))

unlinked :
    (h : Heap) (list : ℕ) (done : List ℕ) (x : ℕ) (left : List ℕ)
    → Seg h.next list (done ++ (x ∷ left)) 0
    → Distinct (done ++ (x ∷ left))
    → (r : ℕ) × (h' : Heap) × (unlink (point done) (h.next x) list h ≡ ok r h')
      × Seg h'.next r (done ++ left) 0
      × (h'.element ≡ h.element)
unlinked h list [] x left (e, n, s) d = (h.next x, h, unlink_first (h.next x) list h, s, refl)
unlinked h list (a ∷ ps) x left s d =
    let (u, v) = Seg-split h.next list 0 (a ∷ ps) (x ∷ left) s in
    let (x_eq, x_ne, s') = v in
    let q = h.next x in
    let old = Seg-relink h.next list a q ps x (Distinct-left (a ∷ ps) (x ∷ left) d) u in
    let (out, out') = Distinct-last_of a ps (x ∷ left) d in
    let new = Seg-update h.next (last_of a ps) q q left 0 out' s' in
    (
      list,
      record h { next = update h.next (last_of a ps) q },
      unlink_later (last_of a ps) q list h (last_of_ne h.next list a ps x u),
      Seg-append (update h.next (last_of a ps) q) list q 0 (a ∷ ps) left old new,
      refl,
    )

-- the loop, where `done` is before the point and has not the item
remove_loop_lem :
    (fuel item : ℕ) (h : Heap) (list : ℕ) (done left : List ℕ)
    → Seg h.next list (done ++ left) 0
    → Distinct (done ++ left)
    → length left < fuel
    → (r : ℕ) × (h' : Heap) × (remove_loop fuel (point done) (head_or left 0) list item h ≡ ok r h')
      × Seg h'.next r (done ++ without item h.element left) 0
      × (h'.element ≡ h.element)
unfolding remove_loop
remove_loop_lem zero item h list done left s d l = absurd (omega arith)
remove_loop_lem (suc fuel) item h list done [] s d l = (list, h, refl, s, refl)
remove_loop_lem (suc fuel) item h list done (x ∷ left) s d l =
    let (u, v) = Seg-split h.next list 0 done (x ∷ left) s in
    let (x_eq, x_ne, s') = v in
    let next_eq = Seg-head_or h.next (h.next x) 0 left s' in
    elim (Bool-cases (item == h.element x)) [
      | inl t ↦
          let (r, h', e, w, same) = unlinked h list done x left s d in
          (r, h', remove_step fuel (point done) x list item h x_ne ∙ rw t e, rw t w, same)
      | inr t ↦
          let (r, h', e, w, same) =
            remove_loop_lem fuel item h list (done ++ (x ∷ [])) left
              (subst (λ l. Seg h.next list l 0) (sym (append_snoc done x left)) s)
              (subst Distinct (sym (append_snoc done x left)) d) (omega (arith, l)) in
          (
            r,
            h',
            remove_step fuel (point done) x list item h x_ne
                ∙ rw t (
                    ap (λ p. remove_loop fuel x p list item h) next_eq
                    ∙ ap (λ p. remove_loop fuel p (head_or left 0) list item h)
                        (sym (point_snoc done x))
                    ∙ e),
            rw t (
                subst (λ l. Seg h'.next r l 0) (append_snoc done x (without item h.element left))
                  w),
            same,
          )
    ]

-- For a list of distinct cells and more rounds than cells, RemoveItem returns the list without the first
-- cell that has the item, or the whole list where none has it. No item changes.
pub remove_item-without :
    (fuel item : ℕ) (h : Heap) (list : ℕ) (ps : List ℕ)
    → Seg h.next list ps 0
    → Distinct ps
    → length ps < fuel
    → Returns
        (remove_item fuel list item h)
        (λ r h'. Seg h'.next r (without item h.element ps) 0 × (h'.element ≡ h.element))
unfolding remove_item
remove_item-without fuel item h list ps s d l =
    let (r, h', e, w, same) = remove_loop_lem fuel item h list [] ps s d l in
    rw (ap (λ p. remove_loop fuel 0 p list item h) (Seg-head_or h.next list 0 ps s) ∙ e) (w, same)
