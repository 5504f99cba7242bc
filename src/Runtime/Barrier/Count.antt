-- ===== src/Runtime/Barrier/Count.antt =====
-- How many of the first numbers satisfy a test.
use cilk.Common.{
  ℕ, zero, suc, ◌+◌, ◌≡◌, ◌≢◌, ◌≤◌, ◌<◌, refl, sym, ◌∙◌, ap, Bool, true, false, arith, Bool-cases,
  inl, inr, ◌==◌, ==_true, ==_eq,
}

abbrev pub bit : Bool → ℕ
bit true = 1
bit false = 0

pub count_below : ℕ → (ℕ → Bool) → ℕ
count_below zero p = 0
count_below (suc n) p = bit (p n) + count_below n p

bit-le : (b : Bool) → bit b ≤ 1
bit-le true = omega arith
bit-le false = omega arith

pub count_below-le : (n : ℕ) (p : ℕ → Bool) → count_below n p ≤ n
unfolding count_below
count_below-le zero p = omega arith
count_below-le (suc n) p = omega (arith, count_below-le n p, bit-le (p n))

pub count_below_same :
    (n : ℕ) (p q : ℕ → Bool) → ((v : ℕ) → v < n → q v ≡ p v) → count_below n q ≡ count_below n p
unfolding count_below
count_below_same zero p q h = refl
count_below_same (suc n) p q h =
    let e = ap bit (h n (omega arith)) in
    omega (arith, count_below_same n p q (λ v l. h v (omega arith)))

pub count_below_none :
    (n : ℕ) (p : ℕ → Bool) → ((v : ℕ) → v < n → p v ≡ false) → count_below n p ≡ 0
unfolding count_below
count_below_none zero p h = refl
count_below_none (suc n) p h =
    let e = ap bit (h n (omega arith)) in
    omega (arith, count_below_none n p (λ v l. h v (omega arith)))

below_ne : {a b : ℕ} → a < b → a ≢ b
below_ne l = omega arith

pub count_below_flip :
    (n w : ℕ) (p q : ℕ → Bool)
    → w < n
    → p w ≡ false
    → q w ≡ true
    → ((v : ℕ) → v ≢ w → q v ≡ p v)
    → count_below n q ≡ suc (count_below n p)
unfolding count_below
count_below_flip zero w p q l a b h = absurd (omega arith)
count_below_flip (suc n) w p q l a b h = elim (Bool-cases (n == w)) [
  | inl e ↦
      let x = ap bit (ap p (==_true e) ∙ a) in
      let y = ap bit (ap q (==_true e) ∙ b) in
      let same = count_below_same n p q (λ v lt. h v (λ z. below_ne lt (z ∙ sym (==_true e)))) in
      omega arith
  | inr e ↦
      let x = ap bit (h n (λ z. cc (e, ==_eq z))) in
      let ih = count_below_flip n w p q (ground arith) a b h in omega arith
]

pub count_below_full : (n v : ℕ) (p : ℕ → Bool) → count_below n p ≡ n → v < n → p v ≡ true
unfolding count_below
count_below_full zero v p e l = absurd (omega arith)
count_below_full (suc n) v p e l = elim (Bool-cases (p n)) [
  | inl t ↦ elim (Bool-cases (n == v)) [
    | inl q ↦ ap p (sym (==_true q)) ∙ t
    | inr q ↦ let x = ap bit t in count_below_full n v p (omega arith) (ground arith)
  ]
  | inr f ↦ let x = ap bit f in absurd (omega (arith, count_below-le n p))
]

pub count_below_gap :
    (n : ℕ) (p : ℕ → Bool) → count_below n p ≢ n → (v : ℕ) × (v < n) × (p v ≡ false)
unfolding count_below
count_below_gap zero p h = absurd (h refl)
count_below_gap (suc n) p h = elim (Bool-cases (p n)) [
  | inl t ↦
      let x = ap bit t in
      let (v, l, e) = count_below_gap n p (λ z. h (omega (arith, x, z))) in (v, omega (arith, l), e)
  | inr f ↦ (n, omega arith, f)
]
