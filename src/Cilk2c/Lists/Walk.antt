-- ===== src/Cilk2c/Lists/Walk.antt =====
-- NextOnList of cilk2c/list.c: where a marker stands and how it moves.
use cilk.Common.{
  ℕ, ◌≡◌, ◌≢◌, refl, sym, ◌∙◌, ap, subst, arith, some, none, List, [], ◌∷◌, ◌++◌, update,
  update_self, ok,
}
use cilk.Cilk2c.Lists.{Heap, ListMarker, reconnect, arrive, next_on_list, iterate_list}
use cilk.Cilk2c.Lists.Seg.{Seg, last_of, Seg-last_of, last_of_ne, Seg-split}

-- the marker after `x` is found at the cell `p`
abbrev pub at : ListMarker → ℕ → ListMarker
at m p = record m { current = p }

module _ (m : ListMarker) (h : Heap) where
  next-first :
      m.current ≡ 0
      → m.first ≢ 0
      → next_on_list m h ≡ ok (some (h.element m.first), record m { current = m.first }) h
  unfolding next_on_list arrive
  next-first e n = ground arith

  next-empty : m.current ≡ 0 → m.first ≡ 0 → next_on_list m h ≡ ok (none, m) h
  unfolding next_on_list arrive
  next-empty e n = ground arith

  next-step :
      m.current ≢ 0
      → h.next m.current ≢ 0
      → next_on_list m h
        ≡ ok (some (h.element (h.next m.current)), record m { current = h.next m.current }) h
  unfolding next_on_list arrive
  next-step e n = ground arith

  next-end : m.current ≢ 0 → h.next m.current ≡ 0 → m.tail ≡ 0 → next_on_list m h ≡ ok (none, m) h
  unfolding next_on_list arrive
  next-end e n t = ground arith

  pub next-joined :
      m.current ≢ 0
      → h.next m.current ≡ 0
      → m.tail ≢ 0
      → next_on_list m h
        ≡ ok
            (some (h.element m.tail), record { first = m.first; current = m.tail; tail = 0 })
            (record h { next = update h.next m.current m.tail })
  unfolding next_on_list reconnect arrive
  next-joined e n t = ground (arith, update_self h.next m.current m.tail)

-- the cell on which the marker stands after `done`, NULL before the first
abbrev pub point : List ℕ → ℕ
point [] = 0
point (a ∷ ps) = last_of a ps

last_of_snoc : (a x : ℕ) (ps : List ℕ) → last_of a (ps ++ (x ∷ [])) ≡ x
last_of_snoc a x [] = refl
last_of_snoc a x (b ∷ bs) = last_of_snoc b x bs

pub point_snoc : (done : List ℕ) (x : ℕ) → point (done ++ (x ∷ [])) ≡ x
point_snoc [] x = refl
point_snoc (a ∷ ps) x = last_of_snoc a x ps

pub append_snoc :
    (done : List ℕ) (x : ℕ) (left : List ℕ) → (done ++ (x ∷ [])) ++ left ≡ done ++ (x ∷ left)
append_snoc [] x left = refl
append_snoc (a ∷ ps) x left = ap (λ l. a ∷ l) (append_snoc ps x left)

-- the marker has found the items of `done`, those of `left` are to come
pub record Plain (nx : ℕ → ℕ) (m : ListMarker) (done left : List ℕ) : Type 0 where
  pub current : m.current ≡ point done
  pub tail : m.tail ≡ 0
  pub chain : Seg nx m.first (done ++ left) 0

-- the same, and NextChunkOnList has cut the list after `done`
pub record Cut (nx : ℕ → ℕ) (m : ListMarker) (done left : List ℕ) : Type 0 where
  pub current : m.current ≡ point done
  pub chain : Seg nx m.first done 0
  pub rest : Seg nx m.tail left 0

abbrev pub Ready : (ℕ → ℕ) → ListMarker → List ℕ → List ℕ → Type 0
Ready nx m [] left = Plain nx m [] left
Ready nx m (a ∷ ps) left = Cut nx m (a ∷ ps) left

pub iterate_list-Plain :
    (nx : ℕ → ℕ) (p : ℕ) (ps : List ℕ) → Seg nx p ps 0 → Plain nx (iterate_list p) [] ps
unfolding iterate_list
iterate_list-Plain nx p ps s = record { current = refl; tail = refl; chain = s }

module _ (h : Heap) (m : ListMarker) where
  found_Plain :
      (done : List ℕ) (x : ℕ) (left : List ℕ)
      → Plain h.next m done (x ∷ left)
      → Plain h.next (at m x) (done ++ (x ∷ [])) left
  found_Plain done x left w = record {
    current = sym (point_snoc done x);
    tail = w.tail;
    chain = subst (λ l. Seg h.next m.first l 0) (sym (append_snoc done x left)) w.chain;
  }

  pub next_on_list-finds :
      (done : List ℕ) (x : ℕ) (left : List ℕ)
      → Plain h.next m done (x ∷ left)
      → (next_on_list m h ≡ ok (some (h.element x), at m x) h)
        × Plain h.next (at m x) (done ++ (x ∷ [])) left
  next_on_list-finds [] x left w =
      let (e, x0, s) = w.chain in
      let n : m.first ≢ 0 = λ z. x0 (sym e ∙ z) in
      (
        next-first m h w.current n ∙ ap (λ p. ok (some (h.element p), at m p) h) e,
        found_Plain [] x left w,
      )
  next_on_list-finds (a ∷ ps) x left w =
      let (u, v) = Seg-split h.next m.first 0 (a ∷ ps) (x ∷ left) w.chain in
      let e : h.next m.current ≡ x = ap h.next w.current ∙ Seg-last_of h.next m.first a ps x u in
      let n : m.current ≢ 0 = λ z. last_of_ne h.next m.first a ps x u (sym w.current ∙ z) in
      let (same, x0, s) = v in
      let k : h.next m.current ≢ 0 = λ z. x0 (sym e ∙ z) in
      (
        next-step m h n k ∙ ap (λ p. ok (some (h.element p), at m p) h) e,
        found_Plain (a ∷ ps) x left w,
      )

  pub next_on_list-ends :
      (done : List ℕ) → Plain h.next m done [] → next_on_list m h ≡ ok (none, m) h
  next_on_list-ends [] w = next-empty m h w.current w.chain
  next_on_list-ends (a ∷ ps) w =
      let (u, v) = Seg-split h.next m.first 0 (a ∷ ps) [] w.chain in
      let e : h.next m.current ≡ 0 = ap h.next w.current ∙ Seg-last_of h.next m.first a ps 0 u in
      let n : m.current ≢ 0 = λ z. last_of_ne h.next m.first a ps 0 u (sym w.current ∙ z) in
      next-end m h n e w.tail
