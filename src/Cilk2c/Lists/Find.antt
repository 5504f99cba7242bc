-- ===== src/Cilk2c/Lists/Find.antt =====
-- FirstItem, Rest, FindItem and ConsItem of cilk2c/list.c.
use cilk.Common.{
  ℕ, zero, suc, ◌+◌, ◌<◌, ◌≡◌, ◌≢◌, refl, ◌∙◌, ap, arith, Bool, false, not, inl, inr, Bool-cases,
  ◌||◌, List, [], ◌∷◌, length, map, update, ==_ne, ==_eq, ok, ◌==◌, if◌then◌else◌,
}
use cilk.Cilk2c.Lists.{Heap, heap_new, first_item, rest, make_new_list, cons_item, find_item}
use cilk.Cilk2c.Lists.Seg.{Seg}

abbrev pub has : ℕ → List ℕ → Bool
has x [] = false
has x (y ∷ ys) = (x == y) || has x ys

pub first_item_lem : (p : ℕ) (h : Heap) → p ≢ 0 → first_item p h ≡ ok (h.element p) h
unfolding first_item
first_item_lem p h n = ground arith

pub rest_lem : (p : ℕ) (h : Heap) → p ≢ 0 → rest p h ≡ ok (h.next p) h
unfolding rest
rest_lem p h n = ground arith

pub cons_item_lem :
    (x l : ℕ) (h : Heap)
    → h.fresh ≢ 0
    → cons_item x l h
      ≡ ok h.fresh (record {
        element = update h.element h.fresh x;
        next = update (update h.next h.fresh 0) h.fresh l;
        fresh = h.fresh + 1;
      })
unfolding cons_item make_new_list heap_new
cons_item_lem x l h n = rw (==_ne n) (rw (==_ne n) (rw (==_ne n) refl))

find_step :
    (fuel p x : ℕ) (h : Heap)
    → p ≢ 0
    → find_item (suc fuel) p x h
      ≡ (if x == h.element p then ok p h else find_item fuel (h.next p) x h)
unfolding find_item
find_step fuel p x h n = ground arith

-- FindItem finds a cell just where the list has the item
pub find_item-has :
    (fuel : ℕ) (h : Heap) (p x : ℕ) (ps : List ℕ)
    → Seg h.next p ps 0
    → length ps < fuel
    → (r : ℕ) × (find_item fuel p x h ≡ ok r h) × ((r == 0) ≡ not (has x (map h.element ps)))
unfolding find_item
find_item-has zero h p x ps s l = absurd (omega arith)
find_item-has (suc fuel) h p x [] s l = (0, rw (==_eq s) refl, refl)
find_item-has (suc fuel) h p x (a ∷ ps) (e, n, s) l =
    let here : find_item (suc fuel) p x h
        ≡ (if x == h.element a then ok a h else find_item fuel (h.next a) x h) =
      ap (λ q. find_item (suc fuel) q x h) e ∙ find_step fuel a x h n in
    elim (Bool-cases (x == h.element a)) [
      | inl t ↦ (a, here ∙ rw t refl, rw t (==_ne n))
      | inr t ↦
          let (r, e', q) = find_item-has fuel h (h.next a) x ps s (omega (arith, l)) in
          (r, here ∙ rw t e', rw t q)
    ]
