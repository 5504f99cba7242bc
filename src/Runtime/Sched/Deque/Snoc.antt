-- ===== src/Runtime/Sched/Deque/Snoc.antt =====
-- The list of a ready deque (runtime/sched.c) seen from its bottom.
use cilk.Common.{ℕ, ◌≡◌, ◌≢◌, refl, some, List, [], ◌∷◌, ◌++◌, update, update_ne, ==_refl, sym}
use cilk.Runtime.Sched.State.{Ready}
use cilk.Runtime.Sched.Deque.Repr.{first, last, Fresh, Distinct, Links, last-Fresh}

pub last-append : (p x : ℕ) (xs : List ℕ) → last p (xs ++ (x ∷ [])) ≡ x
last-append p x [] = refl
last-append p x (y ∷ ys) = last-append y x ys

-- A list with `x` at its end is not empty.
pub first-append : (x y : ℕ) (ys : List ℕ) → first ((y ∷ ys) ++ (x ∷ [])) ≡ y
first-append x y ys = refl

pub Fresh-snoc : (p x : ℕ) (xs : List ℕ) → Fresh p xs → p ≢ x → Fresh p (xs ++ (x ∷ []))
Fresh-snoc p x [] f h = (h, tt)
Fresh-snoc p x (y ∷ ys) f h = (f.0, Fresh-snoc p x ys f.1 h)

pub Distinct-snoc : (x : ℕ) (xs : List ℕ) → Fresh x xs → Distinct xs → Distinct (xs ++ (x ∷ []))
Distinct-snoc x [] f d = (tt, tt)
Distinct-snoc x (y ∷ ys) f d =
    (Fresh-snoc y x ys d.0 (λ e. f.0 (sym e)), Distinct-snoc x ys f.1 d.1)

pub Fresh-init : (p x : ℕ) (xs : List ℕ) → Fresh p (xs ++ (x ∷ [])) → Fresh p xs × (p ≢ x)
Fresh-init p x [] f = (tt, f.0)
Fresh-init p x (y ∷ ys) f = let r = Fresh-init p x ys f.1 in ((f.0, r.0), r.1)

pub Distinct-init : (x : ℕ) (xs : List ℕ) → Distinct (xs ++ (x ∷ [])) → Distinct xs × Fresh x xs
Distinct-init x [] d = (tt, tt)
Distinct-init x (y ∷ ys) d =
    let r = Distinct-init x ys d.1 in
    let f = Fresh-init y x ys d.0 in ((f.0, r.0), (λ e. f.1 (sym e), r.1))

pub last-Fresh-self : (y : ℕ) (ys : List ℕ) (x : ℕ) → Fresh x (y ∷ ys) → x ≢ last y ys
last-Fresh-self y ys x f = last-Fresh x y ys f.0 f.1

module _ (c : ℕ → Ready) (pn : ℕ) where
  -- What the list says of its last closure.
  pub Links-last :
      (prev x : ℕ) (xs : List ℕ)
      → Links c pn prev (xs ++ (x ∷ []))
      → (x ≢ 0)
        × ((c x).prev_ready ≡ last prev xs)
        × ((c x).next_ready ≡ 0)
        × ((c x).owner_ready_deque ≡ some pn)
  Links-last prev x [] l = (l.0, l.1, l.2, l.3)
  Links-last prev x (y ∷ ys) l = Links-last y x ys l.4

  -- Without it, once the one before it is the end.
  pub Links-init :
      (prev x y : ℕ) (ys : List ℕ)
      → Distinct (y ∷ ys)
      → Links c pn prev ((y ∷ ys) ++ (x ∷ []))
      → Links (update c (last y ys) (record (c (last y ys)) { next_ready = 0 })) pn prev (y ∷ ys)
  Links-init prev x y [] d l =
      (l.0, rw (==_refl y) l.1, rw (==_refl y) refl, rw (==_refl y) l.3, tt)
  Links-init prev x y (z ∷ zs) d l =
      rw
        (update_ne c (record (c (last z zs)) { next_ready = 0 })
          (λ e. last-Fresh-self z zs y d.0 (sym e)))
        (l.0, l.1, l.2, l.3, Links-init y x z zs d.1 l.4)

  -- The closure that owns the last end is the last of all.
  pub Links-owner :
      (prev x : ℕ) (xs : List ℕ)
      → Links c pn prev (x ∷ xs)
      → (c (last x xs)).owner_ready_deque ≡ some pn
  Links-owner prev x [] l = l.3
  Links-owner prev x (y ∷ ys) l = Links-owner x y ys l.4

  -- With `x` behind the last.
  pub Links-snoc :
      (prev x y : ℕ) (ys : List ℕ)
      → (x ≢ 0)
      → ((c x).prev_ready ≡ last y ys)
      → ((c x).next_ready ≡ 0)
      → ((c x).owner_ready_deque ≡ some pn)
      → Fresh x (y ∷ ys)
      → Distinct (y ∷ ys)
      → Links c pn prev (y ∷ ys)
      → Links
          (update c (last y ys) (record (c (last y ys)) { next_ready = x }))
          pn
          prev
          ((y ∷ ys) ++ (x ∷ []))
  Links-snoc prev x y [] nz p n o f d l = (
    l.0,
    rw (==_refl y) l.1,
    rw (==_refl y) refl,
    rw (==_refl y) l.3,
    rw (update_ne c (record (c y) { next_ready = x }) (λ e. f.0 (sym e))) (nz, p, n, o, tt),
  )
  Links-snoc prev x y (z ∷ zs) nz p n o f d l =
      rw
        (update_ne c (record (c (last z zs)) { next_ready = x })
          (λ e. last-Fresh-self z zs y d.0 (sym e)))
        (l.0, l.1, l.2, l.3, Links-snoc y x z zs nz p n o f.1 d.1 l.4)

  pub last-ne-zero-init :
      (prev x y : ℕ) (ys : List ℕ)
      → Links c pn prev ((y ∷ ys) ++ (x ∷ []))
      → (last y ys ≢ 0) × ((c (last y ys)).owner_ready_deque ≡ some pn)
  last-ne-zero-init prev x y [] l = (l.0, l.3)
  last-ne-zero-init prev x y (z ∷ zs) l = last-ne-zero-init y x z zs l.4
