-- ===== src/Cilk2c/Chunks.antt =====
-- ApplyInChunks of cilk2c/analyze.c, a client of the lists of cilk2c/list.c: the analyses take the
-- variables by as many as a bit vector has bits. What an analysis does is a function of the items of the
-- chunk on a state of its own.
pub mod Applied
pub mod Whole
pub mod Tests
use cilk.Common.{
  ℕ, zero, suc, ◌+◌, List, [], ◌∷◌, ◌==◌, if◌then◌else◌, Cmd, pure, out_of_fuel, ◌>>=◌, ◌>>◌,
}
use cilk.Cilk2c.Lists.{Heap, ListMarker, iterate_list, next_chunk_on_list, first_item, rest}

-- the items of a chunk
pub items_of : ℕ → ℕ → Cmd Heap (List ℕ)
items_of zero list = λ _. out_of_fuel
items_of (suc fuel) list =
    if list == 0
    then pure []
    else do x ← first_item list; n ← rest list; xs ← items_of fuel n; pure (x ∷ xs)

-- `bits` is MAX_BITVECTOR_LENGTH, the bits of an unsigned integer of the platform
module _ {W : Type 0} (proc : List ℕ → W → W) (bits : ℕ) where
  pub chunks_loop : ℕ → ListMarker → W → Cmd Heap W
  chunks_loop zero m w = λ _. out_of_fuel
  chunks_loop (suc fuel) m w = do
    (chunk, m') ← next_chunk_on_list (bits + 1) m bits
    if chunk == 0
        then pure w
        else do xs ← items_of (bits + 1) chunk; chunks_loop fuel m' (proc xs w)

  pub apply_in_chunks : ℕ → ℕ → W → Cmd Heap W
  apply_in_chunks fuel list w = chunks_loop fuel (iterate_list list) w
