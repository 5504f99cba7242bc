-- ===== src/Cilk2c/Lists/Delete.antt =====
-- DeleteIf of cilk2c/list.c against the list without the items.
use cilk.Common.{
  ℕ, zero, suc, ◌<◌, ◌≡◌, ◌≢◌, refl, sym, ◌∙◌, ap, subst, arith, Bool, true, false, inl, inr,
  Bool-cases, List, [], ◌∷◌, length, update, update_self, update_ne, ==_ne, ==_eq, ok,
  if◌then◌else◌, Returns,
}
use cilk.Cilk2c.Lists.{Heap, delete_here, delete_if}
use cilk.Cilk2c.Lists.Seg.{Seg, NotIn, Distinct, Seg-update}

-- the cells whose items fail the test
abbrev pub keep : (ℕ → Bool) → (ℕ → ℕ) → List ℕ → List ℕ
keep f element [] = []
keep f element (a ∷ ps) = let r = keep f element ps in if f (element a) then r else a ∷ r

NotIn-keep :
    (f : ℕ → Bool) (element : ℕ → ℕ) (c : ℕ) (ps : List ℕ)
    → NotIn c ps
    → NotIn c (keep f element ps)
NotIn-keep f element c [] n = tt
NotIn-keep f element c (a ∷ ps) (d, n) = elim (Bool-cases (f (element a))) [
  | inl e ↦ rw e (NotIn-keep f element c ps n)
  | inr e ↦ rw e (d, NotIn-keep f element c ps n)
]

-- `h'` has the items of `h`, and its links except from `ps`
pub record Only (ps : List ℕ) (h h' : Heap) : Type 0 where
  pub element : h'.element ≡ h.element
  pub next : (c : ℕ) → NotIn c ps → h'.next c ≡ h.next c

delete_if_step :
    (fuel : ℕ) (f : ℕ → Bool) (h h1 : Heap) (list r : ℕ)
    → list ≢ 0
    → delete_if fuel (h.next list) f h ≡ ok r h1
    → delete_if (suc fuel) list f h ≡ delete_here list (f (h.element list)) r h1
unfolding delete_if
delete_if_step fuel f h h1 list r n e = rw (==_ne n) (rw (==_ne n) (rw (==_ne n) (rw e refl)))

delete_here_gone : (l r : ℕ) (h : Heap) → delete_here l true r h ≡ ok r h
unfolding delete_here
delete_here_gone l r h = refl

delete_here_kept :
    (l r : ℕ) (h : Heap)
    → l ≢ 0
    → delete_here l false r h ≡ ok l (record h { next = update h.next l r })
unfolding delete_here
delete_here_kept l r h n = rw (==_ne n) refl

delete_if_lem :
    (fuel : ℕ) (f : ℕ → Bool) (h : Heap) (list : ℕ) (ps : List ℕ)
    → Seg h.next list ps 0
    → Distinct ps
    → length ps < fuel
    → (r : ℕ) × (h' : Heap) × (delete_if fuel list f h ≡ ok r h')
      × Seg h'.next r (keep f h.element ps) 0
      × Only ps h h'
unfolding delete_if
delete_if_lem zero f h list ps s d l = absurd (omega arith)
delete_if_lem (suc fuel) f h list [] s d l =
    (list, h, rw (==_eq s) refl, s, record { element = refl; next = λ c n. refl })
delete_if_lem (suc fuel) f h list (a ∷ ps) (e, n, s) (m, d) l =
    let (r, h1, e1, s1, o) = delete_if_lem fuel f h (h.next a) ps s d (omega (arith, l)) in
    let list_ne : list ≢ 0 = λ z. n (sym e ∙ z) in
    let e1' : delete_if fuel (h.next list) f h ≡ ok r h1 =
      ap (λ p. delete_if fuel (h.next p) f h) e ∙ e1 in
    let c : f (h.element list) ≡ f (h.element a) = ap (λ p. f (h.element p)) e in
    elim (Bool-cases (f (h.element a))) [
      | inl t ↦ (
        r,
        h1,
        delete_if_step fuel f h h1 list r list_ne e1'
            ∙ ap (λ g. delete_here list g r h1) (c ∙ t)
            ∙ delete_here_gone list r h1,
        rw t s1,
        record { element = o.element; next = λ x k. o.next x k.1 },
      )
      | inr t ↦
          let nx = update h1.next list r in
          let here : nx a ≡ r = ap nx (sym e) ∙ update_self h1.next list r in
          let out = NotIn-keep f h.element list ps (subst (λ p. NotIn p ps) (sym e) m) in
          let tail = Seg-update h1.next list r r (keep f h.element ps) 0 out s1 in
          (
            list,
            record h1 { next = nx },
            delete_if_step fuel f h h1 list r list_ne e1'
                ∙ ap (λ g. delete_here list g r h1) (c ∙ t)
                ∙ delete_here_kept list r h1 list_ne,
            rw t (e, n, subst (λ p. Seg nx p (keep f h.element ps) 0) (sym here) tail),
            record {
              element = o.element;
              next = λ x k. update_ne h1.next r (λ z. k.0 (sym z ∙ e)) ∙ o.next x k.1;
            },
          )
    ]

-- For a list of distinct cells and more rounds than cells, DeleteIf returns the list of the cells whose
-- items fail the test, in their order. No item changes, and no link of a cell outside the list.
pub delete_if-keep :
    (fuel : ℕ) (f : ℕ → Bool) (h : Heap) (list : ℕ) (ps : List ℕ)
    → Seg h.next list ps 0
    → Distinct ps
    → length ps < fuel
    → Returns
        (delete_if fuel list f h)
        (λ r h'. Seg h'.next r (keep f h.element ps) 0 × Only ps h h')
delete_if-keep fuel f h list ps s d l =
    let (r, h', e, w, o) = delete_if_lem fuel f h list ps s d l in rw e (w, o)
