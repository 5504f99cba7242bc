-- ===== src/Cilk2c/TypeQual/Union.antt =====
-- UnionLists of cilk2c/typequal.c is the union of two lists of attributes.
use cilk.Common.{
  ℕ, zero, suc, ◌+◌, ◌<◌, ◌≡◌, ◌≢◌, refl, sym, ◌∙◌, ap, subst, arith, Bool, true, false, not, inl,
  inr, Bool-cases, ◌||◌, List, [], ◌∷◌, length, map, pure, Cmd, ==_ne, ==_eq, ==_true, ok, Returns,
  ◌==◌, if◌then◌else◌,
}
use cilk.Cilk2c.Lists.{Heap, cons_item, find_item}
use cilk.Cilk2c.Lists.Seg.{Seg}
use cilk.Cilk2c.Lists.Store.{AllBelow}
use cilk.Cilk2c.Lists.Find.{has, first_item_lem, rest_lem, cons_item_lem, find_item-has}
use cilk.Cilk2c.TypeQual.Sets.{union_lists}
use cilk.Cilk2c.TypeQual.Attributes.{or_false, or_same, Seg-unique, IsUnion, in_both, in_front}

ite_here :
    (t : Bool) (l : ℕ) (h : Heap) (m : Cmd Heap ℕ)
    → (if t then pure l else m) h ≡ (if t then ok l h else m h)
ite_here true l h m = refl
ite_here false l h m = refl

union_step :
    (fuel a b found l : ℕ) (h h1 : Heap)
    → a ≢ 0
    → b ≢ 0
    → a ≢ b
    → find_item fuel b (h.element a) h ≡ ok found h
    → union_lists fuel (h.next a) b h ≡ ok l h1
    → union_lists (suc fuel) a b h
      ≡ (if not (found == 0) then ok l h1 else cons_item (h.element a) l h1)
unfolding union_lists
union_step fuel a b found l h h1 na nb nab f r = rw (==_ne na) (
    rw (==_ne nb) (
      rw (==_ne nab) (
        rw (first_item_lem a h na) (
          rw f (
            rw (rest_lem a h na)
              (rw r (ite_here (not (found == 0)) l h1 (cons_item (h.element a) l))))))))

as_before :
    (h : Heap) (ps qs : List ℕ) (r : ℕ) (cs : List ℕ)
    → Seg h.next r cs 0
    → AllBelow h.fresh cs
    → ((x : ℕ) → has x (map h.element cs) ≡ (has x (map h.element ps) || has x (map h.element qs)))
    → IsUnion h ps qs r h cs
as_before h ps qs r cs s b i = record {
  chain = s;
  items = i;
  below = b;
  grows = omega arith;
  old_next = λ c l. refl;
  old_element = λ c l. refl;
}

union_lem :
    (fuel a b : ℕ) (h : Heap) (ps qs : List ℕ)
    → Seg h.next a ps 0
    → Seg h.next b qs 0
    → AllBelow h.fresh ps
    → AllBelow h.fresh qs
    → h.fresh ≢ 0
    → length ps + length qs < fuel
    → (r : ℕ) × (h' : Heap) × (cs : List ℕ) × (union_lists fuel a b h ≡ ok r h')
      × IsUnion h ps qs r h' cs
unfolding union_lists
union_lem zero a b h ps qs s t p q k l = absurd (omega arith)
union_lem (suc fuel) a b h [] qs s t p q k l =
    (b, h, qs, rw (==_eq s) refl, as_before h [] qs b qs t q (λ x. refl))
union_lem (suc fuel) a b h (c ∷ ps) [] (e, n, s) t (pc, p) q k l =
    let na : a ≢ 0 = λ z. n (sym e ∙ z) in
    (
      a,
      h,
      c ∷ ps,
      rw (==_ne na) (rw (==_eq t) refl),
      as_before h (c ∷ ps) [] a (c ∷ ps) (e, n, s) (pc, p)
          (λ x. sym (or_false (has x (map h.element (c ∷ ps))))),
    )
union_lem (suc fuel) a b h (c ∷ ps) (d ∷ qs) (e, n, s) (f, m, t) (pc, p) (qd, q) k l =
    let na : a ≢ 0 = λ z. n (sym e ∙ z) in
    let nb : b ≢ 0 = λ z. m (sym f ∙ z) in
    elim (Bool-cases (a == b)) [
      | inl y ↦
          let same : c ∷ ps ≡ d ∷ qs =
            Seg-unique h.next a (c ∷ ps) (d ∷ qs) (e, n, s)
              (subst (λ x. Seg h.next x (d ∷ qs) 0) (sym (==_true y)) (f, m, t)) in
          (
            a,
            h,
            c ∷ ps,
            rw (==_ne na) (rw (==_ne nb) (rw y refl)),
            as_before h (c ∷ ps) (d ∷ qs) a (c ∷ ps) (e, n, s) (pc, p)
                (λ x.
                  sym (or_same (has x (map h.element (c ∷ ps))))
                  ∙ ap (λ z. has x (map h.element (c ∷ ps)) || has x (map h.element z)) same),
          )
      | inr y ↦
          let nab : a ≢ b = λ z. cc (y, ==_eq z) in
          let (found, fe, fh) =
            find_item-has fuel h b (h.element c) (d ∷ qs) (f, m, t) (omega (arith, l)) in
          let fe' : find_item fuel b (h.element a) h ≡ ok found h =
            ap (λ x. find_item fuel b (h.element x) h) e ∙ fe in
          let (r, h1, cs, re, u) =
            union_lem fuel (h.next c) b h ps (d ∷ qs) s (f, m, t) p (qd, q) k (omega (arith, l)) in
          let re' : union_lists fuel (h.next a) b h ≡ ok r h1 =
            ap (λ x. union_lists fuel (h.next x) b h) e ∙ re in
          let step = union_step fuel a b found r h h1 na nb nab fe' re' in
          elim (Bool-cases (has (h.element c) (map h.element (d ∷ qs)))) [
            | inl z ↦ (r, h1, cs, step ∙ rw fh (rw z refl), in_both h h1 c ps (d ∷ qs) r cs z u)
            | inr z ↦
                let k1 : h1.fresh ≢ 0 = λ w. k (omega (arith, w, u.grows)) in
                (
                  h1.fresh,
                  _,
                  h1.fresh ∷ cs,
                  step
                      ∙ rw fh (
                          rw z (
                            ap (λ x. cons_item (h.element x) r h1) e
                            ∙ cons_item_lem (h.element c) r h1 k1)),
                  in_front h h1 c ps (d ∷ qs) r cs k1 u,
                )
          ]
    ]

-- For two lists of cells below the next address, which is not 0, and more rounds than both have cells,
-- UnionLists ends, and returns a list that has an item just where one of the two has it. The cells below
-- keep their items and links.
pub union_lists-IsUnion :
    (fuel a b : ℕ) (h : Heap) (ps qs : List ℕ)
    → Seg h.next a ps 0
    → Seg h.next b qs 0
    → AllBelow h.fresh ps
    → AllBelow h.fresh qs
    → h.fresh ≢ 0
    → length ps + length qs < fuel
    → Returns (union_lists fuel a b h) (λ r h'. (cs : List ℕ) × IsUnion h ps qs r h' cs)
union_lists-IsUnion fuel a b h ps qs s t p q k l =
    let (r, h', cs, e, u) = union_lem fuel a b h ps qs s t p q k l in rw e (cs, u)
