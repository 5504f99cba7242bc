-- ===== src/Cilk2c/Lists/Pieces.antt =====
-- What NextChunkOnList of cilk2c/list.c gives, and how it leaves the list.
use cilk.Common.{
  true, leb, ℕ, zero, suc, ◌<◌, ◌≡◌, ◌≢◌, refl, sym, ◌∙◌, ap, subst, arith, List, [], ◌∷◌, ◌++◌,
  update, ==_ne, ==_eq, ok, Returns, le→leb, if◌then◌else◌, ◌==◌,
}
use cilk.Cilk2c.Lists.{Heap, ListMarker, terminate, next_chunk_on_list}
use cilk.Cilk2c.Lists.Seg.{
  Seg, Distinct, last_of, head_or, Seg-head_or, Seg-last_of, last_of_ne, Seg-split, Seg-update,
  Seg-relink, Distinct-left, Distinct-last_of,
}
use cilk.Cilk2c.Lists.Walk.{Plain, Ready}
use cilk.Cilk2c.Lists.Chunk.{
  chunk_loop_lem, take, drop, length-take, append_assoc, take-drop, list_length_lem,
  chunk_loop-Ready,
}

terminate_lem :
    (h : Heap) (m : ListMarker)
    → m.current ≢ 0
    → terminate m h
      ≡ ok (record m { tail = h.next m.current }) (record h { next = update h.next m.current 0 })
unfolding terminate
terminate_lem h m n = ground arith

terminate-Ready :
    (h : Heap) (m : ListMarker) (done left : List ℕ)
    → Plain h.next m done left
    → Distinct (done ++ left)
    → (m' : ListMarker) × (h' : Heap) × (terminate m h ≡ ok m' h')
      × Ready h'.next m' done left
      × (h'.element ≡ h.element)
unfolding terminate
terminate-Ready h m [] left w d = (m, h, rw (==_eq w.current) refl, w, refl)
terminate-Ready h m (a ∷ ps) left w d =
    let (u, v) = Seg-split h.next m.first 0 (a ∷ ps) left w.chain in
    let n : m.current ≢ 0 = λ z. last_of_ne h.next m.first a ps _ u (sym w.current ∙ z) in
    let k : h.next m.current ≡ head_or left 0 =
      ap h.next w.current ∙ Seg-last_of h.next m.first a ps _ u in
    let old = Seg-relink h.next m.first a 0 ps _ (Distinct-left (a ∷ ps) left d) u in
    let new = Seg-update h.next (last_of a ps) 0 _ left 0 (Distinct-last_of a ps left d) v in
    (
      record m { tail = h.next m.current },
      record h { next = update h.next m.current 0 },
      terminate_lem h m n,
      record {
        current = w.current;
        chain = subst (λ p. Seg (update h.next p 0) m.first (a ∷ ps) 0) (sym w.current) old;
        rest =
            subst (λ p. Seg (update h.next p 0) (h.next m.current) left 0) (sym w.current)
              (subst (λ q. Seg (update h.next (last_of a ps) 0) q left 0) (sym k) new);
      },
      refl,
    )

abbrev chunk_begin : ListMarker → ℕ
chunk_begin m = if m.current == 0 then m.first else m.tail

chunk_begin_lem :
    (nx : ℕ → ℕ) (m : ListMarker) (done left : List ℕ)
    → Ready nx m done left
    → chunk_begin m ≡ head_or left 0
chunk_begin_lem nx m [] left r = rw (==_eq r.current) (Seg-head_or nx m.first 0 left r.chain)
chunk_begin_lem nx m (a ∷ ps) left r =
    rw (==_ne (λ z. last_of_ne nx m.first a ps 0 r.chain (sym r.current ∙ z)))
      (Seg-head_or nx m.tail 0 left r.rest)

-- the piece that was cut off last
last_piece :
    (nx : ℕ → ℕ) (m : ListMarker) (done : List ℕ) (t : ℕ) (ts left : List ℕ)
    → Ready nx m (done ++ (t ∷ ts)) left
    → Seg nx t (t ∷ ts) 0
last_piece nx m [] t ts left r = let (u, v) = Seg-split nx m.first 0 [] (t ∷ ts) r.chain in v
last_piece nx m (a ∷ ps) t ts left r =
    let (u, v) = Seg-split nx m.first 0 (a ∷ ps) (t ∷ ts) r.chain in v

piece :
    (nx : ℕ → ℕ) (m m' : ListMarker) (k : ℕ) (done left : List ℕ) (p : ℕ)
    → p ≡ head_or left 0
    → Ready nx m' (done ++ take (suc k) left) (drop (suc k) left)
    → Seg nx p (take (suc k) left) 0
piece nx m m' k done [] p e r = e
piece nx m m' k done (x ∷ left) p e r =
    subst (λ q. Seg nx q (x ∷ take k left) 0) (sym e)
      (last_piece nx m' done x (take k left) (drop k left) r)

-- For a marker before the first item, or one that the last NextChunkOnList left, over a list of distinct
-- cells, a chunk size k > 0, and more rounds than k, NextChunkOnList returns the list of the next k cells,
-- or of those that are left if they are fewer, and that list ends in NULL; what it cut off before is
-- linked again. The marker is then ready for the next call. No item changes.
pub next_chunk_on_list-takes :
    (fuel k : ℕ) (h : Heap) (m : ListMarker) (done left : List ℕ)
    → Ready h.next m done left
    → Distinct (done ++ left)
    → 0 < k
    → k < fuel
    → (chunk : ℕ) × (m' : ListMarker) × (h' : Heap) × (next_chunk_on_list fuel m k h
        ≡ ok (chunk, m') h')
      × Seg h'.next chunk (take k left) 0
      × Ready h'.next m' (done ++ take k left) (drop k left)
      × (h'.element ≡ h.element)
unfolding next_chunk_on_list
next_chunk_on_list-takes fuel zero h m done left r d l f = absurd (omega arith)
next_chunk_on_list-takes fuel (suc k) h m done left r d l f =
    let (m1, h1, e1, w, same1) = chunk_loop-Ready k h m done left r d in
    let whole : (done ++ take (suc k) left) ++ drop (suc k) left ≡ done ++ left =
      append_assoc done (take (suc k) left) (drop (suc k) left)
      ∙ ap (λ l. done ++ l) (take-drop (suc k) left) in
    let d1 = subst Distinct (sym whole) d in
    let (m2, h2, e2, r2, same2) =
      terminate-Ready h1 m1 (done ++ take (suc k) left) (drop (suc k) left) w d1 in
    let s =
      piece h2.next m m2 k done left (chunk_begin m) (chunk_begin_lem h.next m done left r) r2 in
    let short = length-take (suc k) left in
    let e3 =
      list_length_lem fuel h2 (chunk_begin m) (take (suc k) left) s (omega (arith, short, f)) in
    let some_size : suc k ≢ 0 = λ q. omega (arith, q) in
    (
      chunk_begin m,
      m2,
      h2,
      rw (==_ne some_size) (rw e1 (rw e2 (rw e3 (rw (le→leb short) refl)))),
      s,
      r2,
      same2 ∙ same1,
    )

-- For a marker that NextOnList has put on a cell of a list of distinct cells, a chunk size k > 0, and some
-- rounds, NextChunkOnList returns NULL, whatever is left of the list, and the marker passes the next k
-- cells all the same.
pub next_chunk_on_list-loses :
    (fuel k : ℕ) (h : Heap) (m : ListMarker) (a : ℕ) (ps left : List ℕ)
    → Plain h.next m (a ∷ ps) left
    → Distinct ((a ∷ ps) ++ left)
    → 0 < k
    → 0 < fuel
    → Returns
        (next_chunk_on_list fuel m k h)
        (λ r h'. (r.0 ≡ 0) × Ready h'.next r.1 ((a ∷ ps) ++ take k left) (drop k left))
unfolding next_chunk_on_list
next_chunk_on_list-loses fuel k h m a ps left w d l f =
    let (m1, e1, w1) = chunk_loop_lem k h m (a ∷ ps) left w in
    let whole : ((a ∷ ps) ++ take k left) ++ drop k left ≡ (a ∷ ps) ++ left =
      append_assoc (a ∷ ps) (take k left) (drop k left)
      ∙ ap (λ l. (a ∷ ps) ++ l) (take-drop k left) in
    let d1 = subst Distinct (sym whole) d in
    let (m2, h2, e2, r2, same2) =
      terminate-Ready h m1 ((a ∷ ps) ++ take k left) (drop k left) w1 d1 in
    let (u, v) = Seg-split h.next m.first 0 (a ∷ ps) left w.chain in
    let n : m.current ≢ 0 = λ z. last_of_ne h.next m.first a ps _ u (sym w.current ∙ z) in
    let e3 = list_length_lem fuel h2 (chunk_begin m) [] (rw (==_ne n) w.tail) f in
    let some_size : k ≢ 0 = λ q. omega (arith, q, l) in
    let any : leb 0 k ≡ true = le→leb (omega arith) in
    rw (==_ne some_size) (rw e1 (rw e2 (rw e3 (rw any (rw (==_ne n) w.tail, r2)))))
