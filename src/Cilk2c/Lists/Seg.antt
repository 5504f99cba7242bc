-- ===== src/Cilk2c/Lists/Seg.antt =====
-- What a list of cilk2c/list.c is: a chain of cells that are all different.
use cilk.Common.{ℕ, ◌≡◌, ◌≢◌, sym, subst, List, [], ◌∷◌, ◌++◌, update, update_self, update_ne}

-- from `p` through the cells `ps` to `q`
abbrev pub Seg : (ℕ → ℕ) → ℕ → List ℕ → ℕ → Type 0
Seg nx p [] q = p ≡ q
Seg nx p (a ∷ ps) q = (p ≡ a) × (a ≢ 0) × Seg nx (nx a) ps q

abbrev pub NotIn : ℕ → List ℕ → Type 0
NotIn a [] = Unit
NotIn a (b ∷ bs) = (a ≢ b) × NotIn a bs

abbrev pub Distinct : List ℕ → Type 0
Distinct [] = Unit
Distinct (a ∷ ps) = NotIn a ps × Distinct ps

-- the last cell of `a ∷ ps`
abbrev pub last_of : ℕ → List ℕ → ℕ
last_of a [] = a
last_of a (b ∷ bs) = last_of b bs

-- the first cell of `ps`, or `q`
abbrev pub head_or : List ℕ → ℕ → ℕ
head_or [] q = q
head_or (a ∷ ps) q = a

pub Seg-head_or : (nx : ℕ → ℕ) (p q : ℕ) (ps : List ℕ) → Seg nx p ps q → p ≡ head_or ps q
Seg-head_or nx p q [] s = s
Seg-head_or nx p q (a ∷ ps) (e, n, s) = e

pub NotIn-last_of : (x b : ℕ) (bs : List ℕ) → NotIn x (b ∷ bs) → x ≢ last_of b bs
NotIn-last_of x b [] (n, t) = n
NotIn-last_of x b (c ∷ cs) (n, t) = NotIn-last_of x c cs t

pub NotIn-append : (x : ℕ) (ps bs : List ℕ) → NotIn x ps → NotIn x bs → NotIn x (ps ++ bs)
NotIn-append x [] bs u v = v
NotIn-append x (a ∷ ps) bs (n, u) v = (n, NotIn-append x ps bs u v)

pub NotIn-left : (x : ℕ) (ps bs : List ℕ) → NotIn x (ps ++ bs) → NotIn x ps
NotIn-left x [] bs u = tt
NotIn-left x (a ∷ ps) bs (n, u) = (n, NotIn-left x ps bs u)

pub NotIn-right : (x : ℕ) (ps bs : List ℕ) → NotIn x (ps ++ bs) → NotIn x bs
NotIn-right x [] bs u = u
NotIn-right x (a ∷ ps) bs (n, u) = NotIn-right x ps bs u

pub Distinct-left : (ps bs : List ℕ) → Distinct (ps ++ bs) → Distinct ps
Distinct-left [] bs d = tt
Distinct-left (a ∷ ps) bs (n, d) = (NotIn-left a ps bs n, Distinct-left ps bs d)

-- the last cell of the first part is none of the second
pub Distinct-last_of :
    (a : ℕ) (ps bs : List ℕ) → Distinct ((a ∷ ps) ++ bs) → NotIn (last_of a ps) bs
Distinct-last_of a [] bs (n, d) = n
Distinct-last_of a (b ∷ cs) bs (n, d) = Distinct-last_of b cs bs d

module _ (nx : ℕ → ℕ) where
  pub Seg-last_of : (p a : ℕ) (ps : List ℕ) (q : ℕ) → Seg nx p (a ∷ ps) q → nx (last_of a ps) ≡ q
  Seg-last_of p a [] q (e, n, s) = s
  Seg-last_of p a (b ∷ bs) q (e, n, s) = Seg-last_of (nx a) b bs q s

  pub last_of_ne : (p a : ℕ) (ps : List ℕ) (q : ℕ) → Seg nx p (a ∷ ps) q → last_of a ps ≢ 0
  last_of_ne p a [] q (e, n, s) = n
  last_of_ne p a (b ∷ bs) q (e, n, s) = last_of_ne (nx a) b bs q s

  pub Seg-append :
      (p q r : ℕ) (ps bs : List ℕ) → Seg nx p ps q → Seg nx q bs r → Seg nx p (ps ++ bs) r
  Seg-append p q r [] bs e t = subst (λ x. Seg nx x bs r) (sym e) t
  Seg-append p q r (a ∷ ps) bs (e, n, s) t = (e, n, Seg-append (nx a) q r ps bs s t)

  -- a chain is cut between two cells
  pub Seg-split :
      (p r : ℕ) (ps bs : List ℕ)
      → Seg nx p (ps ++ bs) r
      → Seg nx p ps (head_or bs r) × Seg nx (head_or bs r) bs r
  Seg-split p r [] bs s = let e = Seg-head_or nx p r bs s in (e, subst (λ x. Seg nx x bs r) e s)
  Seg-split p r (a ∷ ps) bs (e, n, s) = let (u, v) = Seg-split (nx a) r ps bs s in ((e, n, u), v)

  -- a write to another cell
  pub Seg-update :
      (c v p : ℕ) (ps : List ℕ) (q : ℕ) → NotIn c ps → Seg nx p ps q → Seg (update nx c v) p ps q
  Seg-update c v p [] q n s = s
  Seg-update c v p (a ∷ ps) q (d, n) (e, z, s) = (
    e,
    z,
    subst (λ x. Seg (update nx c v) x ps q) (sym (update_ne nx v d))
        (Seg-update c v (nx a) ps q n s),
  )

  -- a write to the last cell
  pub Seg-relink :
      (p a v : ℕ) (ps : List ℕ) (q : ℕ)
      → Distinct (a ∷ ps)
      → Seg nx p (a ∷ ps) q
      → Seg (update nx (last_of a ps) v) p (a ∷ ps) v
  Seg-relink p a v [] q d (e, n, s) = (e, n, update_self nx a v)
  Seg-relink p a v (b ∷ bs) q (m, d) (e, n, s) =
      let f = update nx (last_of b bs) v in
      let k : f a ≡ nx a = update_ne nx v (λ z. NotIn-last_of a b bs m (sym z)) in
      (e, n, subst (λ x. Seg f x (b ∷ bs) v) (sym k) (Seg-relink (nx a) b v bs q d s))
