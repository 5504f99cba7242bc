-- ===== src/Cilk2c/Symbol/Rows.antt =====
-- The rows of a bucket of cilk2c/symbol.c: what a change of the row of one name does to the others.
use cilk.Common.{
  ℕ, ◌≡◌, ◌≢◌, refl, sym, ◌∙◌, ap, true, false, List, [], ◌∷◌, ◌==◌, update, Bool-cases, inl, inr,
  ==_true, ==_refl, ==_ne, ==_eq,
}
use cilk.Cilk2c.Symbol.{Symbol, Row, Symbols, hash, row_of, replace_row, rows_for}
use cilk.Cilk2c.Symbol.Scopes.{row_at}

-- No name has two rows.
abbrev pub Distinct : List Row → Type 0
Distinct [] = Unit
Distinct (r ∷ rs) = (row_of r.0.name rs ≡ []) × Distinct rs

-- The rows `rs'` have the symbols `ks` for the name `n`, and for the other names what `rs` has.
pub record Puts (n : ℕ) (ks : List Symbol) (rs rs' : List Row) : Type 0 where
  pub here : row_of n rs' ≡ ks
  pub there : (m : ℕ) → m ≢ n → row_of m rs' ≡ row_of m rs
  pub distinct : Distinct rs'

module _ (n : ℕ) (r : Row) (e : r.0.name ≡ n) where
  row_of_self : (rs : List Row) → row_of n (r ∷ rs) ≡ r.0 ∷ r.1
  unfolding row_of
  row_of_self rs = rw (==_eq e) refl

  row_of_other : (m : ℕ) (rs : List Row) → m ≢ n → row_of m (r ∷ rs) ≡ row_of m rs
  unfolding row_of
  row_of_other m rs h = rw (==_ne (λ (q : r.0.name ≡ m). h (sym q ∙ e))) refl

-- a new name
pub put_front :
    (n : ℕ) (r : Row) (rs : List Row)
    → r.0.name ≡ n
    → Distinct rs
    → row_of n rs ≡ []
    → Puts n (r.0 ∷ r.1) rs (r ∷ rs)
put_front n r rs e d q = record {
  here = row_of_self n r e rs;
  there = λ m h. row_of_other n r e m rs h;
  distinct = (ap (λ k. row_of k rs) e ∙ q, d);
}

-- a row `r` before the change
keep_row :
    (n : ℕ) (ks : List Symbol) (r : Row) (rs rs' : List Row)
    → r.0.name ≢ n
    → row_of r.0.name rs ≡ []
    → Puts n ks rs rs'
    → Puts n ks (r ∷ rs) (r ∷ rs')
unfolding row_of
keep_row n ks r rs rs' ne q p = record {
  here = rw (==_ne ne) p.here;
  there =
      λ m h. elim (Bool-cases (r.0.name == m)) [ inl e ↦ rw e refl | inr e ↦ rw e (p.there m h) ];
  distinct = (p.there r.0.name ne ∙ q, p.distinct);
}

pub put_none : (n : ℕ) (rs : List Row) → Distinct rs → Puts n [] rs (replace_row n [] rs)
unfolding replace_row row_of
put_none n [] d = record { here = refl; there = λ m h. refl; distinct = tt }
put_none n (r ∷ rs) d = elim (Bool-cases (r.0.name == n)) [
  | inl e ↦ rw e (record {
    here = ap (λ k. row_of k rs) (sym (==_true e)) ∙ d.0;
    there = λ m h. sym (row_of_other n r (==_true e) m rs h);
    distinct = d.1;
  })
  | inr e ↦
      rw e (keep_row n [] r rs (replace_row n [] rs) (λ q. cc (e, ==_eq q)) d.0 (put_none n rs d.1))
]

pub put_row :
    (n : ℕ) (x : Row) (old : Symbol) (olds : List Symbol) (rs : List Row)
    → x.0.name ≡ n
    → Distinct rs
    → row_of n rs ≡ old ∷ olds
    → Puts n (x.0 ∷ x.1) rs (replace_row n (x ∷ []) rs)
unfolding replace_row row_of
put_row n x old olds [] e d q = cc q
put_row n x old olds (r ∷ rs) e d q = elim (Bool-cases (r.0.name == n)) [
  | inl h ↦ rw h (record {
    here = row_of_self n x e rs;
    there = λ m ne. row_of_other n x e m rs ne ∙ sym (row_of_other n r (==_true h) m rs ne);
    distinct = (ap (λ k. row_of k rs) (e ∙ sym (==_true h)) ∙ d.0, d.1);
  })
  | inr h ↦
      let next : row_of n rs ≡ old ∷ olds = rw h at q in
      rw h (
        keep_row n (x.0 ∷ x.1) r rs (replace_row n (x ∷ []) rs) (λ p. cc (h, ==_eq p)) d.0
          (put_row n x old olds rs e d.1 next))
]

module _ {W : Type 0} (t : ℕ) where
  -- the table with new rows in the bucket of `n`
  unfoldable pub with_rows : ℕ → List Row → Symbols W → Symbols W
  with_rows n rs s = record s {
    tables =
        update s.tables t (record (s.tables t) { table = update (s.tables t).table (hash n) rs });
  }

  -- The table `t` has the symbols `ks` for `n`, and for the other names what it had.
  pub record Put (n : ℕ) (ks : List Symbol) (s s' : Symbols W) : Type 0 where
    pub here : row_at t s' n ≡ ks
    pub there : (m : ℕ) → m ≢ n → row_at t s' m ≡ row_at t s m
    pub distinct : (b : ℕ) → Distinct ((s'.tables t).table b)

  rows_same :
      (n m : ℕ) (rs : List Row) (s : Symbols W)
      → (hash n == hash m) ≡ true
      → rows_for t m (with_rows n rs s) ≡ rs
  unfolding with_rows rows_for
  rows_same n m rs s e = rw (==_refl t, rows_for) (rw e refl)

  rows_other :
      (n m : ℕ) (rs : List Row) (s : Symbols W)
      → (hash n == hash m) ≡ false
      → rows_for t m (with_rows n rs s) ≡ rows_for t m s
  unfolding with_rows rows_for
  rows_other n m rs s e = rw (==_refl t, rows_for) (rw e refl)

  rows_eq : (n m : ℕ) (s : Symbols W) → (hash n == hash m) ≡ true → rows_for t n s ≡ rows_for t m s
  unfolding rows_for
  rows_eq n m s e = ap (s.tables t).table (==_true e)

  Distinct-with :
      (n : ℕ) (rs : List Row) (s : Symbols W)
      → ((b : ℕ) → Distinct ((s.tables t).table b))
      → Distinct rs
      → (b : ℕ) → Distinct (((with_rows n rs s).tables t).table b)
  unfolding with_rows
  Distinct-with n rs s d p b = elim (Bool-cases (hash n == b)) [
    | inl e ↦ rw (==_refl t) (rw e p)
    | inr e ↦ rw (==_refl t) (rw e (d b))
  ]

  pub Put-with_rows :
      (n : ℕ) (ks : List Symbol) (rs : List Row) (s : Symbols W)
      → ((b : ℕ) → Distinct ((s.tables t).table b))
      → Puts n ks (rows_for t n s) rs
      → Put n ks s (with_rows n rs s)
  unfolding row_at
  Put-with_rows n ks rs s d p = record {
    here = ap (row_of n) (rows_same n n rs s (==_refl (hash n))) ∙ p.here;
    there = λ m ne. elim (Bool-cases (hash n == hash m)) [
      | inl e ↦
          ap (row_of m) (rows_same n m rs s e) ∙ p.there m ne ∙ ap (row_of m) (rows_eq n m s e)
      | inr e ↦ ap (row_of m) (rows_other n m rs s e)
    ];
    distinct = Distinct-with n rs s d p.distinct;
  }
