-- ===== src/Runtime/Sched/Deque/Repr.antt =====
-- A ready deque of runtime/sched.c as the list of its closures, from top to bottom.
use cilk.Common.{
  ℕ, ◌≡◌, ◌≢◌, refl, Option, some, true, List, [], ◌∷◌, update, update_ne, arith, ap, ◌∙◌, sym, inl,
  inr, Bool-cases, ◌==◌, ==_true, some-inj,
}
use cilk.Runtime.Sched.State.{Ready, ReadyDeque, Sched, opt_eq}

abbrev pub first : List ℕ → ℕ
first [] = 0
first (x ∷ xs) = x

abbrev pub last : ℕ → List ℕ → ℕ
last p [] = p
last p (x ∷ xs) = last x xs

abbrev pub Fresh : ℕ → List ℕ → Type 0
Fresh p [] = Unit
Fresh p (x ∷ xs) = (p ≢ x) × Fresh p xs

abbrev pub Distinct : List ℕ → Type 0
Distinct [] = Unit
Distinct (x ∷ xs) = Fresh x xs × Distinct xs

-- The closures `xs` of the deque `pn` are linked both ways, `prev` stands before them.
abbrev pub Links : (ℕ → Ready) → ℕ → ℕ → List ℕ → Type 0
Links c pn prev [] = Unit
Links c pn prev (x ∷ xs) =
    (x ≢ 0)
    × ((c x).prev_ready ≡ prev)
    × ((c x).next_ready ≡ first xs)
    × ((c x).owner_ready_deque ≡ some pn)
    × Links c pn x xs

-- The deque `pn` holds the closures `xs`.
pub record IsDeque (s : Sched) (pn : ℕ) (xs : List ℕ) : Type 0 where
  pub links : Links s.links pn 0 xs
  pub top : (s.deques pn).top ≡ first xs
  pub bottom : (s.deques pn).bottom ≡ last 0 xs
  pub distinct : Distinct xs

module _ (c : ℕ → Ready) (pn : ℕ) where
  -- A write to a closure that is in no place of the list.
  pub Links-update :
      (p : ℕ) (v : Ready) (prev : ℕ) (xs : List ℕ)
      → Fresh p xs
      → Links c pn prev xs
      → Links (update c p v) pn prev xs
  Links-update p v prev [] f l = tt
  Links-update p v prev (x ∷ xs) (ne, f) (nz, pr, nx, ow, l) =
      rw (update_ne c v ne) (nz, pr, nx, ow, Links-update p v x xs f l)

  -- What belongs to a deque is not in the list of another.
  pub owner-Fresh :
      (p prev : ℕ) (xs : List ℕ)
      → (c p).owner_ready_deque ≢ some pn
      → Links c pn prev xs
      → Fresh p xs
  owner-Fresh p prev [] h l = tt
  owner-Fresh p prev (x ∷ xs) h (nz, pr, nx, ow, l) =
      (λ e. h (ap (λ q. (c q).owner_ready_deque) e ∙ ow), owner-Fresh p x xs h l)

  pub last-ne-zero : (x : ℕ) (xs : List ℕ) → (x ≢ 0) → Links c pn x xs → last x xs ≢ 0
  last-ne-zero x [] h l = h
  last-ne-zero x (y ∷ ys) h l = last-ne-zero y ys l.0 l.4

pub last-Fresh : (x y : ℕ) (ys : List ℕ) → x ≢ y → Fresh x ys → x ≢ last y ys
last-Fresh x y [] h f = h
last-Fresh x y (z ∷ zs) h f = last-Fresh x z zs f.0 f.1

pub opt_eq_self : {o : Option ℕ} {n : ℕ} → o ≡ some n → opt_eq o n ≡ true
opt_eq_self e = ground arith

-- Nothing but the links and the ends of the deque `pn` is touched.
pub record OnlyDeque (s s' : Sched) (pn : ℕ) : Type 0 where
  pub others : (qn : ℕ) (ys : List ℕ) → qn ≢ pn → IsDeque s qn ys → IsDeque s' qn ys
  pub owners : (qn : ℕ) → (s'.deques qn).mutex_owner ≡ (s.deques qn).mutex_owner
  pub closure : s'.closure ≡ s.closure
  pub caches : s'.caches ≡ s.caches
  pub fresh : s'.fresh ≡ s.fresh
  pub frames : s'.frames ≡ s.frames
  pub memory : s'.memory ≡ s.memory

module _ (s : Sched) (pn x : ℕ) (e : (s.links x).owner_ready_deque ≡ some pn) where
  -- What belongs to `pn` is in no other deque.
  pub other-Fresh : (qn : ℕ) (ys : List ℕ) → qn ≢ pn → IsDeque s qn ys → Fresh x ys
  other-Fresh qn ys ne d = owner-Fresh s.links qn x 0 ys (λ h. ne (some-inj (sym h ∙ e))) d.links

-- A change of the deque `pn` and of closures that are in no other deque.
module _ (s : Sched) (pn : ℕ) (d' : ReadyDeque)
    (same : d'.mutex_owner ≡ (s.deques pn).mutex_owner) where
  pub deque-owners : (qn : ℕ) → (update s.deques pn d' qn).mutex_owner ≡ (s.deques qn).mutex_owner
  deque-owners qn = elim (Bool-cases (pn == qn)) [
    | inl e ↦ rw e (same ∙ ap (λ i. (s.deques i).mutex_owner) (==_true e))
    | inr e ↦ rw e refl
  ]

  pub OnlyDeque-one :
      (x : ℕ) (v : Ready)
      → ((qn : ℕ) (ys : List ℕ) → qn ≢ pn → IsDeque s qn ys → Fresh x ys)
      → OnlyDeque s (record s { links = update s.links x v; deques = update s.deques pn d' }) pn
  OnlyDeque-one x v f = record {
    others = λ qn ys ne d. record {
      links = Links-update s.links qn x v 0 ys (f qn ys ne d) d.links;
      top = rw (update_ne s.deques d' (λ e. ne (sym e))) d.top;
      bottom = rw (update_ne s.deques d' (λ e. ne (sym e))) d.bottom;
      distinct = d.distinct;
    };
    owners = deque-owners;
    closure = refl;
    caches = refl;
    fresh = refl;
    frames = refl;
    memory = refl;
  }

  pub OnlyDeque-two :
      (x y : ℕ) (v w : Ready)
      → ((qn : ℕ) (ys : List ℕ) → qn ≢ pn → IsDeque s qn ys → Fresh x ys)
      → ((qn : ℕ) (ys : List ℕ) → qn ≢ pn → IsDeque s qn ys → Fresh y ys)
      → OnlyDeque s
          (record s { links = update (update s.links y w) x v; deques = update s.deques pn d' })
          pn
  OnlyDeque-two x y v w f g = record {
    others = λ qn ys ne d. record {
      links =
          Links-update (update s.links y w) qn x v 0 ys (f qn ys ne d)
            (Links-update s.links qn y w 0 ys (g qn ys ne d) d.links);
      top = rw (update_ne s.deques d' (λ e. ne (sym e))) d.top;
      bottom = rw (update_ne s.deques d' (λ e. ne (sym e))) d.bottom;
      distinct = d.distinct;
    };
    owners = deque-owners;
    closure = refl;
    caches = refl;
    fresh = refl;
    frames = refl;
    memory = refl;
  }
