-- ===== src/Cilk2c/Chunks/Tests.antt =====
-- ApplyInChunks of cilk2c/analyze.c on three cells, two at a time.
use cilk.Common.{ℕ, arith, List, [], ◌∷◌, ◌++◌, update, Returns}
use cilk.Cilk2c.Lists.{Heap}
use cilk.Cilk2c.Chunks.{apply_in_chunks}
use cilk.Cilk2c.Chunks.Applied.{IsApplied}
use cilk.Cilk2c.Chunks.Whole.{apply_in_chunks-IsApplied}

abbrev variables : Heap
variables = record {
  element = update (update (update (λ p. 0) 1 10) 2 20) 3 30;
  next = update (update (λ p. 0) 1 2) 2 3;
  fresh = 4;
}

abbrev note_chunk : List ℕ → List (List ℕ) → List (List ℕ)
note_chunk xs w = w ++ (xs ∷ [])

apply_in_chunks-IsApplied_example :
    Returns
      (apply_in_chunks note_chunk 2 4 1 [] variables)
      (IsApplied note_chunk 2 1 (1 ∷ 2 ∷ 3 ∷ []) (1 ∷ 2 ∷ 3 ∷ []) [] variables)
apply_in_chunks-IsApplied_example =
    apply_in_chunks-IsApplied note_chunk 2 4 variables 1 (1 ∷ 2 ∷ 3 ∷ []) [] (omega arith)
      (omega arith) (omega arith) (omega arith)
