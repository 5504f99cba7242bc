-- ===== src/Cilk2c/Lists/Tests.antt =====
-- The lists of cilk2c/list.c on a heap with one list of three cells.
use cilk.Common.{ℕ, ◌<◌, ◌≡◌, refl, arith, [], ◌∷◌, map, update, Returns, ◌==◌}
use cilk.Cilk2c.Lists.{Heap, next_chunk_on_list, delete_if, list_copy}
use cilk.Cilk2c.Lists.Seg.{Seg}
use cilk.Cilk2c.Lists.Walk.{Ready}
use cilk.Cilk2c.Lists.Pieces.{next_chunk_on_list-loses}
use cilk.Cilk2c.Lists.Delete.{Only, delete_if-keep}
use cilk.Cilk2c.Lists.Store.{new_cells}
use cilk.Cilk2c.Lists.Copy.{list_copy-copies}

abbrev three : Heap
three = record {
  element = update (update (update (λ p. 0) 1 10) 2 20) 3 30;
  next = update (update (λ p. 0) 1 2) 2 3;
  fresh = 4;
}

three_cells : Seg three.next 1 (1 ∷ 2 ∷ 3 ∷ []) 0
three_cells = omega arith

delete_if-keep_example :
    Returns
      (delete_if 4 1 (λ x. x == 20) three)
      (λ r h'. Seg h'.next r (1 ∷ 3 ∷ []) 0 × Only (1 ∷ 2 ∷ 3 ∷ []) three h')
delete_if-keep_example =
    delete_if-keep 4 (λ x. x == 20) three 1 (1 ∷ 2 ∷ 3 ∷ []) three_cells (omega arith) (omega arith)

list_copy-copies_example : Returns (list_copy 4 1 three) (λ r h'.
    Seg h'.next r (new_cells 4 3) 0
    × (map h'.element (new_cells 4 3) ≡ 10 ∷ 20 ∷ 30 ∷ [])
    × ((c : ℕ) → c < 4 → (h'.next c ≡ three.next c) × (h'.element c ≡ three.element c)))
list_copy-copies_example =
    list_copy-copies 4 1 three (1 ∷ 2 ∷ 3 ∷ []) three_cells (omega arith) (omega arith)
      (omega arith)

next_chunk_on_list-loses_example :
    Returns
      (next_chunk_on_list 5 (record { first = 1; current = 1; tail = 0 }) 2 three)
      (λ r h'. (r.0 ≡ 0) × Ready h'.next r.1 (1 ∷ 2 ∷ 3 ∷ []) [])
next_chunk_on_list-loses_example =
    next_chunk_on_list-loses 5 2 three (record { first = 1; current = 1; tail = 0 }) 1 []
      (2 ∷ 3 ∷ []) (record { current = refl; tail = refl; chain = three_cells }) (omega arith)
      (omega arith) (omega arith)
