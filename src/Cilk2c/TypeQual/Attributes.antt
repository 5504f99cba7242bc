-- ===== src/Cilk2c/TypeQual/Attributes.antt =====
-- What a union of two lists of attributes is, and how UnionLists of cilk2c/typequal.c makes it longer.
use cilk.Common.{
  ℕ, ◌+◌, ◌<◌, ◌≤◌, ◌≡◌, ◌≢◌, refl, sym, ◌∙◌, ap, subst, arith, Bool, true, false, inl, inr,
  Bool-cases, ◌||◌, List, [], ◌∷◌, map, update, update_self, update_ne, ==_true, ◌==◌,
}
use cilk.Cilk2c.Lists.{Heap}
use cilk.Cilk2c.Lists.Seg.{Seg, NotIn, Seg-update}
use cilk.Cilk2c.Lists.Store.{AllBelow}
use cilk.Cilk2c.Lists.Find.{has}

pub or_false : (b : Bool) → (b || false) ≡ b
or_false true = refl
or_false false = refl

pub or_same : (b : Bool) → (b || b) ≡ b
or_same true = refl
or_same false = refl

pub or_true : (b : Bool) → (b || true) ≡ true
or_true true = refl
or_true false = refl

pub or_assoc : (a b c : Bool) → (a || (b || c)) ≡ ((a || b) || c)
or_assoc true b c = refl
or_assoc false b c = refl

pub below_ne : {a b : ℕ} → a < b → b ≢ a
below_ne l = omega arith

pub Seg-unique : (nx : ℕ → ℕ) (p : ℕ) (ps qs : List ℕ) → Seg nx p ps 0 → Seg nx p qs 0 → ps ≡ qs
Seg-unique nx p [] [] s t = refl
Seg-unique nx p [] (b ∷ qs) s (e, n, t) = absurd (n (sym e ∙ s))
Seg-unique nx p (a ∷ ps) [] (e, n, s) t = absurd (n (sym e ∙ t))
Seg-unique nx p (a ∷ ps) (b ∷ qs) (e, n, s) (f, m, t) =
    let same : b ≡ a = sym f ∙ e in
    λ i. (sym same) i ∷ Seg-unique nx (nx a) ps qs s (subst (λ x. Seg nx (nx x) qs 0) same t) i

-- the list `r` of the cells `cs` has the items of both
pub record IsUnion (h : Heap) (ps qs : List ℕ) (r : ℕ) (h' : Heap) (cs : List ℕ) : Type 0 where
  pub chain : Seg h'.next r cs 0
  pub items :
      (x : ℕ) → has x (map h'.element cs) ≡ (has x (map h.element ps) || has x (map h.element qs))
  pub below : AllBelow h'.fresh cs
  pub grows : h.fresh ≤ h'.fresh
  pub old_next : (c : ℕ) → c < h.fresh → h'.next c ≡ h.next c
  pub old_element : (c : ℕ) → c < h.fresh → h'.element c ≡ h.element c

pub AllBelow-NotIn : (k : ℕ) (cs : List ℕ) → AllBelow k cs → NotIn k cs
AllBelow-NotIn k [] b = tt
AllBelow-NotIn k (c ∷ cs) (l, b) = (below_ne l, AllBelow-NotIn k cs b)

pub AllBelow-next : (k : ℕ) (cs : List ℕ) → AllBelow k cs → AllBelow (k + 1) cs
AllBelow-next k [] b = tt
AllBelow-next k (c ∷ cs) (l, b) = (omega (arith, l), AllBelow-next k cs b)

pub map-update :
    (e : ℕ → ℕ) (k x : ℕ) (cs : List ℕ) → AllBelow k cs → map (update e k x) cs ≡ map e cs
map-update e k x [] b = refl
map-update e k x (c ∷ cs) (l, b) = λ i. update_ne e x (below_ne l) i ∷ map-update e k x cs b i

-- where `b` has the first item already
pub in_both :
    (h h' : Heap) (a : ℕ) (ps qs : List ℕ) (r : ℕ) (cs : List ℕ)
    → has (h.element a) (map h.element qs) ≡ true
    → IsUnion h ps qs r h' cs
    → IsUnion h (a ∷ ps) qs r h' cs
in_both h h' a ps qs r cs t u = record {
  chain = u.chain;
  items = λ x. elim (Bool-cases (x == h.element a)) [
    | inl e ↦
        u.items x
        ∙ rw e (
            ap (λ b. has x (map h.element ps) || b)
              (ap (λ y. has y (map h.element qs)) (==_true e) ∙ t)
            ∙ or_true (has x (map h.element ps)))
    | inr e ↦ rw e (u.items x)
  ];
  below = u.below;
  grows = u.grows;
  old_next = u.old_next;
  old_element = u.old_element;
}

-- where it goes in front, in a new cell
pub in_front :
    (h h1 : Heap) (a : ℕ) (ps qs : List ℕ) (r : ℕ) (cs : List ℕ)
    → h1.fresh ≢ 0
    → IsUnion h ps qs r h1 cs
    → let h2 : Heap = record {
      element = update h1.element h1.fresh (h.element a);
      next = update (update h1.next h1.fresh 0) h1.fresh r;
      fresh = h1.fresh + 1;
    } in
      IsUnion h (a ∷ ps) qs h1.fresh h2 (h1.fresh ∷ cs)
in_front h h1 a ps qs r cs n u =
    let k = h1.fresh in
    let out = AllBelow-NotIn k cs u.below in
    let nx = update (update h1.next k 0) k r in
    let s =
      Seg-update (update h1.next k 0) k r r cs 0 out (Seg-update h1.next k 0 r cs 0 out u.chain) in
    record {
      chain = (refl, n, subst (λ p. Seg nx p cs 0) (sym (update_self (update h1.next k 0) k r)) s);
      items = λ x.
          ap (λ l. has x l)
            (λ i.
              update_self h1.element k (h.element a) i
              ∷ map-update h1.element k (h.element a) cs u.below i)
          ∙ ap (λ b. (x == h.element a) || b) (u.items x)
          ∙ or_assoc (x == h.element a) (has x (map h.element ps)) (has x (map h.element qs));
      below = (omega arith, AllBelow-next k cs u.below);
      grows = omega (arith, u.grows);
      old_next = λ c l.
          let d : k ≢ c = below_ne (omega (arith, l, u.grows)) in
          update_ne (update h1.next k 0) r d ∙ update_ne h1.next 0 d ∙ u.old_next c l;
      old_element = λ c l.
          let d : k ≢ c = below_ne (omega (arith, l, u.grows)) in
          update_ne h1.element (h.element a) d ∙ u.old_element c l;
    }
