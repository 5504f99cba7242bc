-- ===== src/Cilk2c/Chunks/Applied.antt =====
-- What ApplyInChunks of cilk2c/analyze.c is to do, and the chunks of a list.
use cilk.Common.{
  ℕ, zero, suc, ◌<◌, ◌≤◌, ◌≡◌, ◌≢◌, refl, sym, ◌∙◌, ap, arith, List, [], ◌∷◌, ◌++◌, length, map,
  ==_ne, ==_eq, ok,
}
use cilk.Cilk2c.Lists.{Heap, ListMarker}
use cilk.Cilk2c.Lists.Seg.{Seg, head_or}
use cilk.Cilk2c.Lists.Walk.{Ready}
use cilk.Cilk2c.Lists.Chunk.{take, drop}
use cilk.Cilk2c.Lists.Find.{first_item_lem, rest_lem}
use cilk.Cilk2c.Chunks.{items_of}

pub items_of_lem :
    (fuel : ℕ) (h : Heap) (p : ℕ) (ps : List ℕ)
    → Seg h.next p ps 0
    → length ps < fuel
    → items_of fuel p h ≡ ok (map h.element ps) h
unfolding items_of
items_of_lem zero h p ps s l = absurd (omega arith)
items_of_lem (suc fuel) h p [] s l = rw (==_eq s) refl
items_of_lem (suc fuel) h p (a ∷ ps) (e, n, s) l =
    let k : p ≢ 0 = λ z. n (sym e ∙ z) in
    let r : items_of fuel (h.next p) h ≡ ok (map h.element ps) h =
      ap (λ q. items_of fuel (h.next q) h) e
      ∙ items_of_lem fuel h (h.next a) ps s (omega (arith, l)) in
    rw (==_ne k) (
      rw (first_item_lem p h k)
        (rw (rest_lem p h k) (rw r (λ i. ok (h.element (e i) ∷ map h.element ps) h))))

abbrev pub concat : List (List ℕ) → List ℕ
concat [] = []
concat (c ∷ cs) = c ++ concat cs

-- each chunk has an item, and no more than a bit vector has bits
abbrev pub AreChunks : ℕ → List (List ℕ) → Type 0
AreChunks bits [] = Unit
AreChunks bits (c ∷ cs) = ((0 < length c) × (length c ≤ bits)) × AreChunks bits cs

abbrev pub apply_all : {W : Type 0} → (List ℕ → W → W) → List (List ℕ) → W → W
apply_all proc [] w = w
apply_all proc (c ∷ cs) w = apply_all proc cs (proc c w)

pub map-append : (f : ℕ → ℕ) (xs ys : List ℕ) → map f (xs ++ ys) ≡ map f xs ++ map f ys
map-append f [] ys = refl
map-append f (x ∷ xs) ys = ap (λ l. f x ∷ l) (map-append f xs ys)

pub length-map : (f : ℕ → ℕ) (xs : List ℕ) → length (map f xs) ≡ length xs
length-map f [] = refl
length-map f (x ∷ xs) = ap suc (length-map f xs)

pub length-drop : (n : ℕ) (xs : List ℕ) → length (drop n xs) ≤ length xs
length-drop zero xs = omega arith
length-drop (suc n) [] = omega arith
length-drop (suc n) (x ∷ xs) = omega (arith, length-drop n xs)

-- what the analyses of all the chunks of `ps` leave
pub record IsApplied {W : Type 0} (proc : List ℕ → W → W) (bits p : ℕ) (whole left : List ℕ) (w : W)
    (h : Heap) (w' : W) (h' : Heap) : Type 0 where
  pub chunks : List (List ℕ)
  pub all_items : concat chunks ≡ map h.element left
  pub sizes : AreChunks bits chunks
  pub applied : w' ≡ apply_all proc chunks w
  pub list : Seg h'.next p whole 0
  pub element : h'.element ≡ h.element

pub Ready-Seg :
    (nx : ℕ → ℕ) (m : ListMarker) (done : List ℕ) → Ready nx m done [] → Seg nx m.first done 0
Ready-Seg nx m [] r = r.chain
Ready-Seg nx m (a ∷ ps) r = r.chain

pub take_none : (n : ℕ) → take n [] ≡ []
take_none zero = refl
take_none (suc n) = refl

pub drop_none : (n : ℕ) → drop n [] ≡ []
drop_none zero = refl
drop_none (suc n) = refl

pub head_of_take : (n x : ℕ) (left : List ℕ) → 0 < n → head_or (take n (x ∷ left)) 0 ≡ x
head_of_take zero x left l = absurd (omega arith)
head_of_take (suc n) x left l = refl

pub take_some : (n x : ℕ) (left : List ℕ) → 0 < n → 0 < length (take n (x ∷ left))
take_some zero x left l = absurd (omega arith)
take_some (suc n) x left l = omega arith

pub drop_shorter : (n x : ℕ) (left : List ℕ) → 0 < n → length (drop n (x ∷ left)) ≤ length left
drop_shorter zero x left l = absurd (omega arith)
drop_shorter (suc n) x left l = length-drop n left

-- the chunk of a list that goes on
pub chunk_ne :
    (nx : ℕ → ℕ) (chunk n x : ℕ) (left : List ℕ)
    → 0 < n
    → Seg nx chunk (take n (x ∷ left)) 0
    → chunk ≢ 0
chunk_ne nx chunk zero x left l s = absurd (omega arith)
chunk_ne nx chunk (suc n) x left l (e, k, s) = λ z. k (sym e ∙ z)
