-- ===== src/Cilk2c/Chunks/Whole.antt =====
-- ApplyInChunks of cilk2c/analyze.c reaches every item once.
use cilk.Common.{
  ℕ, zero, suc, ◌+◌, ◌<◌, ◌≤◌, ◌≡◌, ◌≢◌, refl, sym, ◌∙◌, ap, subst, arith, List, [], ◌∷◌, ◌++◌,
  length, map, ==_ne, ==_eq, ok, Returns,
}
use cilk.Cilk2c.Lists.{Heap, ListMarker, iterate_list, next_chunk_on_list}
use cilk.Cilk2c.Lists.Seg.{Seg, Distinct, head_or, Seg-head_or}
use cilk.Cilk2c.Lists.Walk.{Ready, iterate_list-Plain}
use cilk.Cilk2c.Lists.Chunk.{take, drop, length-take, append_assoc, append_nil, take-drop}
use cilk.Cilk2c.Lists.Pieces.{next_chunk_on_list-takes}
use cilk.Cilk2c.Chunks.{chunks_loop, apply_in_chunks}
use cilk.Cilk2c.Chunks.Applied.{
  items_of_lem, map-append, length-map, IsApplied, Ready-Seg, take_none, drop_none, take_some,
  drop_shorter, chunk_ne,
}

module _ {W : Type 0} (proc : List ℕ → W → W) (bits : ℕ) (some_bits : 0 < bits) where
  -- the round that finds nothing more
  last_round :
      (fuel : ℕ) (h : Heap) (m : ListMarker) (done : List ℕ) (p : ℕ) (w : W)
      → Ready h.next m done []
      → Distinct (done ++ [])
      → p ≡ head_or done 0
      → (h' : Heap) × (chunks_loop proc bits (suc fuel) m w h ≡ ok w h')
        × IsApplied proc bits p done [] w h w h'
  unfolding chunks_loop
  last_round fuel h m done p w r d q =
      let (chunk, m', h', e, s, r', same) =
        next_chunk_on_list-takes (bits + 1) bits h m done [] r d some_bits (omega arith) in
      let none_left : chunk ≡ 0 = subst (λ l. Seg h'.next chunk l 0) (take_none bits) s in
      let r1 : Ready h'.next m' done [] =
        subst (λ l. Ready h'.next m' l []) (ap (λ l. done ++ l) (take_none bits) ∙ append_nil done)
          (subst (Ready h'.next m' (done ++ take bits [])) (drop_none bits) r') in
      let t = Ready-Seg h'.next m' done r1 in
      (
        h',
        rw e (rw (==_eq none_left) refl),
        record {
          chunks = [];
          all_items = refl;
          sizes = tt;
          applied = refl;
          list =
              subst (λ x. Seg h'.next x done 0) (Seg-head_or h'.next m'.first 0 done t ∙ sym q) t;
          element = same;
        },
      )

  chunks_step :
      (fuel chunk : ℕ) (h h' : Heap) (m m' : ListMarker) (cs : List ℕ) (w : W)
      → next_chunk_on_list (bits + 1) m bits h ≡ ok (chunk, m') h'
      → chunk ≢ 0
      → Seg h'.next chunk cs 0
      → length cs ≤ bits
      → chunks_loop proc bits (suc fuel) m w h
        ≡ chunks_loop proc bits fuel m' (proc (map h'.element cs) w) h'
  unfolding chunks_loop
  chunks_step fuel chunk h h' m m' cs w e n s l =
      rw e (rw (==_ne n) (rw (items_of_lem (bits + 1) h' chunk cs s (omega (arith, l))) refl))

  chunks_loop_lem :
      (fuel : ℕ) (h : Heap) (m : ListMarker) (done left : List ℕ) (p : ℕ) (w : W)
      → Ready h.next m done left
      → Distinct (done ++ left)
      → p ≡ head_or (done ++ left) 0
      → length left < fuel
      → (w' : W) × (h' : Heap) × (chunks_loop proc bits fuel m w h ≡ ok w' h')
        × IsApplied proc bits p (done ++ left) left w h w' h'
  chunks_loop_lem zero h m done left p w r d q l = absurd (omega arith)
  chunks_loop_lem (suc fuel) h m done [] p w r d q l =
      let (h', e, a) =
        last_round fuel h m done p w r d (q ∙ ap (λ x. head_or x 0) (append_nil done)) in
      (w, h', e, subst (λ x. IsApplied proc bits p x [] w h w h') (sym (append_nil done)) a)
  chunks_loop_lem (suc fuel) h m done (x ∷ left) p w r d q l =
      let (chunk, m1, h1, e, s, r1, same) =
        next_chunk_on_list-takes (bits + 1) bits h m done (x ∷ left) r d some_bits (omega arith) in
      let t = take bits (x ∷ left) in
      let u = drop bits (x ∷ left) in
      let whole : (done ++ t) ++ u ≡ done ++ (x ∷ left) =
        append_assoc done t u ∙ ap (λ l. done ++ l) (take-drop bits (x ∷ left)) in
      let short = length-take bits (x ∷ left) in
      let step =
        chunks_step fuel chunk h h1 m m1 t w e (chunk_ne h1.next chunk bits x left some_bits s) s
          short in
      let (w', h', e', a) =
        chunks_loop_lem fuel h1 m1 (done ++ t) u p (proc (map h1.element t) w) r1
          (subst Distinct (sym whole) d) (q ∙ ap (λ y. head_or y 0) (sym whole))
          (omega (arith, l, drop_shorter bits x left some_bits)) in
      (
        w',
        h',
        step ∙ e',
        record {
          chunks = map h1.element t ∷ a.chunks;
          all_items =
              ap (λ y. map h1.element t ++ y) a.all_items
              ∙ sym (map-append h1.element t u)
              ∙ ap (map h1.element) (take-drop bits (x ∷ left))
              ∙ ap (λ f. map f (x ∷ left)) same;
          sizes = (
            (
              omega (arith, length-map h1.element t, take_some bits x left some_bits),
              omega (arith, length-map h1.element t, short),
            ),
            a.sizes,
          );
          applied = a.applied;
          list = subst (λ y. Seg h'.next p y 0) whole a.list;
          element = a.element ∙ same;
        },
      )

-- For a list of distinct cells, bit vectors of some bits, and more rounds than cells, ApplyInChunks ends.
-- It applies the analysis to chunks of at least one item and at most as many as there are bits; together
-- they are the items of the list, in order. After it the list has its cells and items again.
pub apply_in_chunks-IsApplied :
    {W : Type 0}
    → (proc : List ℕ → W → W) (bits fuel : ℕ) (h : Heap) (list : ℕ) (ps : List ℕ) (w : W)
    → Seg h.next list ps 0
    → Distinct ps
    → 0 < bits
    → length ps < fuel
    → Returns (apply_in_chunks proc bits fuel list w h) (IsApplied proc bits list ps ps w h)
unfolding apply_in_chunks
apply_in_chunks-IsApplied proc bits fuel h list ps w s d b l =
    let (w', h', e, a) =
      chunks_loop_lem proc bits b fuel h (iterate_list list) [] ps list w
        (iterate_list-Plain h.next list ps s) d (Seg-head_or h.next list 0 ps s) l in
    rw e a
