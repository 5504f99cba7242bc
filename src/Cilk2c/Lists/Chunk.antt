-- ===== src/Cilk2c/Lists/Chunk.antt =====
-- NextChunkOnList of cilk2c/list.c: a list is handed out in pieces and put together again.
use cilk.Common.{
  ℕ, zero, suc, ◌+◌, ◌<◌, ◌≤◌, ◌≡◌, ◌≢◌, refl, sym, ◌∙◌, ap, subst, arith, some, List, [], ◌∷◌,
  ◌++◌, length, update, ok,
}
use cilk.Cilk2c.Lists.{
  Heap, ListMarker, next_on_list, length_loop, list_length, iterate_list, chunk_loop,
}
use cilk.Cilk2c.Lists.Seg.{
  Seg, Distinct, last_of, Seg-last_of, last_of_ne, Seg-append, Seg-update, Seg-relink,
  Distinct-left, Distinct-last_of,
}
use cilk.Cilk2c.Lists.Walk.{
  at, Plain, Cut, Ready, append_snoc, point_snoc, iterate_list-Plain, next_on_list-finds,
  next_on_list-ends, next-joined,
}

abbrev pub take : ℕ → List ℕ → List ℕ
take zero xs = []
take (suc n) [] = []
take (suc n) (x ∷ xs) = x ∷ take n xs

abbrev pub drop : ℕ → List ℕ → List ℕ
drop zero xs = xs
drop (suc n) [] = []
drop (suc n) (x ∷ xs) = drop n xs

pub length-take : (n : ℕ) (xs : List ℕ) → length (take n xs) ≤ n
length-take zero xs = omega arith
length-take (suc n) [] = omega arith
length-take (suc n) (x ∷ xs) = omega (arith, length-take n xs)

length_loop_lem :
    (fuel n : ℕ) (h : Heap) (m : ListMarker) (done left : List ℕ)
    → Plain h.next m done left
    → length left < fuel
    → length_loop fuel n m h ≡ ok (n + length left) h
unfolding length_loop
length_loop_lem zero n h m done left w l = absurd (omega arith)
length_loop_lem (suc fuel) n h m done [] w l =
    rw (next_on_list-ends h m done w) (ap (λ k. ok k h) (omega arith))
length_loop_lem (suc fuel) n h m done (x ∷ left) w l =
    let (e, w') = next_on_list-finds h m done x left w in
    rw e (
      length_loop_lem fuel (n + 1) h (at m x) (done ++ (x ∷ [])) left w' (omega (arith, l))
      ∙ ap (λ k. ok k h) (omega arith))

-- ListLength is the length
pub list_length_lem :
    (fuel : ℕ) (h : Heap) (p : ℕ) (ps : List ℕ)
    → Seg h.next p ps 0
    → length ps < fuel
    → list_length fuel p h ≡ ok (length ps) h
unfolding list_length
list_length_lem fuel h p ps s l =
    length_loop_lem fuel 0 h (iterate_list p) [] ps (iterate_list-Plain h.next p ps s) l
    ∙ ap (λ k. ok k h) (omega arith)

pub append_nil : (xs : List ℕ) → xs ++ [] ≡ xs
append_nil [] = refl
append_nil (x ∷ xs) = ap (λ l. x ∷ l) (append_nil xs)

pub append_assoc : (xs ys zs : List ℕ) → (xs ++ ys) ++ zs ≡ xs ++ (ys ++ zs)
append_assoc [] ys zs = refl
append_assoc (x ∷ xs) ys zs = ap (λ l. x ∷ l) (append_assoc xs ys zs)

pub take-drop : (k : ℕ) (xs : List ℕ) → take k xs ++ drop k xs ≡ xs
take-drop zero xs = refl
take-drop (suc k) [] = refl
take-drop (suc k) (x ∷ xs) = ap (λ l. x ∷ l) (take-drop k xs)

pub chunk_loop_lem :
    (k : ℕ) (h : Heap) (m : ListMarker) (done left : List ℕ)
    → Plain h.next m done left
    → (m' : ListMarker) × (chunk_loop k m h ≡ ok m' h)
      × Plain h.next m' (done ++ take k left) (drop k left)
unfolding chunk_loop
chunk_loop_lem zero h m done left w =
    (m, refl, subst (λ l. Plain h.next m l left) (sym (append_nil done)) w)
chunk_loop_lem (suc k) h m done [] w = (
  m,
  rw (next_on_list-ends h m done w) refl,
  subst (λ l. Plain h.next m l []) (sym (append_nil done)) w,
)
chunk_loop_lem (suc k) h m done (x ∷ left) w =
    let (e, w') = next_on_list-finds h m done x left w in
    let (m', e', u) = chunk_loop_lem k h (at m x) (done ++ (x ∷ [])) left w' in
    (m', rw e e', subst (λ l. Plain h.next m' l (drop k left)) (append_snoc done x (take k left)) u)

-- the first round puts the list together again
joined :
    (h : Heap) (m : ListMarker) (a : ℕ) (ps : List ℕ) (x : ℕ) (left : List ℕ)
    → Cut h.next m (a ∷ ps) (x ∷ left)
    → Distinct ((a ∷ ps) ++ (x ∷ left))
    → let nx = update h.next m.current m.tail in
      (next_on_list m h
        ≡ ok
            (some (h.element x), record { first = m.first; current = x; tail = 0 })
            (record h { next = nx }))
      × Plain nx (record { first = m.first; current = x; tail = 0 }) ((a ∷ ps) ++ (x ∷ [])) left
joined h m a ps x left c d =
    let (e, x0, s) = c.rest in
    let n : m.current ≢ 0 = λ z. last_of_ne h.next m.first a ps 0 c.chain (sym c.current ∙ z) in
    let k : h.next m.current ≡ 0 =
      ap h.next c.current ∙ Seg-last_of h.next m.first a ps 0 c.chain in
    let t : m.tail ≢ 0 = λ z. x0 (sym e ∙ z) in
    let old =
      Seg-relink h.next m.first a m.tail ps 0 (Distinct-left (a ∷ ps) (x ∷ left) d) c.chain in
    let new =
      Seg-update h.next (last_of a ps) m.tail m.tail (x ∷ left) 0
        (Distinct-last_of a ps (x ∷ left) d) c.rest in
    let all =
      Seg-append (update h.next (last_of a ps) m.tail) m.first m.tail 0 (a ∷ ps) (x ∷ left) old
        new in
    (
      next-joined m h n k t
          ∙ ap
              (λ p.
                ok (some (h.element p), record { first = m.first; current = p; tail = 0 })
                  (record h { next = update h.next m.current m.tail }))
              e,
      record {
        current = sym (point_snoc (a ∷ ps) x);
        tail = refl;
        chain =
            subst (λ l. Seg (update h.next m.current m.tail) m.first l 0)
              (sym (append_snoc (a ∷ ps) x left))
              (subst (λ p. Seg (update h.next p m.tail) m.first ((a ∷ ps) ++ (x ∷ left)) 0)
                (sym c.current) all);
      },
    )

pub chunk_loop-Ready :
    (k : ℕ) (h : Heap) (m : ListMarker) (done left : List ℕ)
    → Ready h.next m done left
    → Distinct (done ++ left)
    → (m' : ListMarker) × (h' : Heap) × (chunk_loop (suc k) m h ≡ ok m' h')
      × Plain h'.next m' (done ++ take (suc k) left) (drop (suc k) left)
      × (h'.element ≡ h.element)
unfolding chunk_loop
chunk_loop-Ready k h m [] left r d =
    let (m', e, w) = chunk_loop_lem (suc k) h m [] left r in (m', h, e, w, refl)
chunk_loop-Ready k h m (a ∷ ps) [] r d =
    let w : Plain h.next m (a ∷ ps) [] = record {
      current = r.current;
      tail = r.rest;
      chain = subst (λ l. Seg h.next m.first l 0) (sym (append_nil (a ∷ ps))) r.chain;
    } in
    let (m', e, w') = chunk_loop_lem (suc k) h m (a ∷ ps) [] w in (m', h, e, w', refl)
chunk_loop-Ready k h m (a ∷ ps) (x ∷ left) r d =
    let (e, w) = joined h m a ps x left r d in
    let m1 : ListMarker = record { first = m.first; current = x; tail = 0 } in
    let h1 : Heap = record h { next = update h.next m.current m.tail } in
    let (m', e', w') = chunk_loop_lem k h1 m1 ((a ∷ ps) ++ (x ∷ [])) left w in
    (
      m',
      h1,
      rw e e',
      subst (λ l. Plain h1.next m' l (drop k left)) (append_snoc (a ∷ ps) x (take k left)) w',
      refl,
    )
