-- ===== src/Cilk2c/Symbol/Lookup.antt =====
-- LookupSymbol of cilk2c/symbol.c against the stack of scopes.
use cilk.Common.{
  ℕ, ◌≡◌, ◌≢◌, ◌≤◌, refl, sym, ◌∙◌, ap, subst, Bool, List, [], ◌∷◌, ◌==◌, ok, Returns, update_ne,
  update_self, arith, Bool-cases, inl, inr, ==_true, ==_eq, fun_ext, zero, suc,
}
use cilk.Cilk2c.Symbol.{
  Symbol, Scope, Row, SymbolTable, Symbols, stale, row_of, rows_for, replace_row, drop_stale,
  set_rows, set_table, put_back, lookup_row, lookup_symbol,
}
use cilk.Cilk2c.Symbol.Scopes.{
  find, meaning, meaning_stale, scope_at, scopes_from, row_at, env, IsRow, head_var,
  find-drop_stale, find-scopes_from,
}
use cilk.Cilk2c.Symbol.Rows.{Distinct, Put, with_rows, Put-with_rows, put_none, put_row}

-- The table `t` is in order: each name has one row, which goes outwards.
pub record IsTable {W : Type 0} (t : ℕ) (s : Symbols W) : Type 0 where
  pub rows : (n : ℕ) → IsRow s.current_version n (row_at t s n)
  pub distinct : (b : ℕ) → Distinct ((s.tables t).table b)

-- The table `t` means the same in both states, and the rest is the same.
pub record Same {W : Type 0} (t : ℕ) (s s' : Symbols W) : Type 0 where
  pub env_eq : env t s' ≡ env t s
  pub table : IsTable t s'
  pub others : (u : ℕ) → u ≢ t → s'.tables u ≡ s.tables u
  pub kind : (s'.tables t).kind ≡ (s.tables t).kind
  pub level : s'.level ≡ s.level
  pub current_version : s'.current_version ≡ s.current_version
  pub world : s'.world ≡ s.world

pub drop_stale-IsRow :
    {W : Type 0} (s : Symbols W) (version : ℕ → ℕ) (n : ℕ) (cs : List Symbol)
    → IsRow version n cs
    → IsRow version n (drop_stale s cs)
unfolding drop_stale
drop_stale-IsRow s version n [] h = h
drop_stale-IsRow s version n (c ∷ cs) h = elim (Bool-cases (stale s c.scope)) [
  | inl e ↦ rw e (drop_stale-IsRow s version n cs h.3)
  | inr e ↦ rw e h
]

pub meaning-drop_stale :
    {W : Type 0} (s : Symbols W) (l : ℕ) (cs : List Symbol)
    → meaning (stale s) l (drop_stale s cs) ≡ meaning (stale s) l cs
unfolding drop_stale
meaning-drop_stale s l [] = refl
meaning-drop_stale s l (c ∷ cs) = elim (Bool-cases (stale s c.scope)) [
  | inl e ↦ rw e (meaning-drop_stale s l cs ∙ sym (meaning_stale (stale s) l c cs e))
  | inr e ↦ rw e refl
]

pub scopes_from_eq :
    (gone : Scope → Bool) (f g : ℕ → List Symbol) (l : ℕ)
    → ((k n : ℕ) → k ≤ l → meaning gone k (f n) ≡ meaning gone k (g n))
    → scopes_from gone f l ≡ scopes_from gone g l
unfolding scopes_from scope_at
scopes_from_eq gone f g zero h = λ i. fun_ext (λ n. h zero n (omega arith)) i ∷ []
scopes_from_eq gone f g (suc l) h = λ i.
    fun_ext (λ n. h (suc l) n (omega arith)) i
    ∷ scopes_from_eq gone f g l (λ k n q. h k n (omega arith)) i

module _ {W : Type 0} (t n : ℕ) (s : Symbols W) (h : IsTable t s) where
  IsRow-Put :
      (s' : Symbols W) (ks : List Symbol)
      → Put t n ks s s'
      → IsRow s.current_version n ks
      → (m : ℕ) → IsRow s.current_version m (row_at t s' m)
  IsRow-Put s' ks p k m = elim (Bool-cases (m == n)) [
    | inl e ↦
        subst (λ i. IsRow s.current_version i (row_at t s' i)) (sym (==_true e))
          (subst (IsRow s.current_version n) (sym p.here) k)
    | inr e ↦ subst (IsRow s.current_version m) (sym (p.there m (λ q. cc (e, ==_eq q)))) (h.rows m)
  ]

  pub with_rows-IsTable :
      (ks : List Symbol) (rs : List Row)
      → Put t n ks s (with_rows t n rs s)
      → IsRow s.current_version n ks
      → IsTable t (with_rows t n rs s)
  with_rows-IsTable ks rs p k = record {
    rows = unfold with_rows in IsRow-Put (with_rows t n rs s) ks p k;
    distinct = p.distinct;
  }

  -- The row of `n` is changed to one with the same meaning.
  same_meaning :
      (ks : List Symbol) (rs : List Row)
      → Put t n ks s (with_rows t n rs s)
      → ((l : ℕ) → meaning (stale s) l ks ≡ meaning (stale s) l (row_at t s n))
      → env t (with_rows t n rs s) ≡ env t s
  unfolding env with_rows stale
  same_meaning ks rs p e =
      scopes_from_eq (stale s) (row_at t (with_rows t n rs s)) (row_at t s) s.level (λ l m q.
        elim (Bool-cases (m == n)) [
          | inl z ↦
              ap (λ i. meaning (stale s) l (row_at t (with_rows t n rs s) i)) (==_true z)
              ∙ ap (meaning (stale s) l) p.here
              ∙ e l
              ∙ ap (λ i. meaning (stale s) l (row_at t s i)) (sym (==_true z))
          | inr z ↦ ap (meaning (stale s) l) (p.there m (λ q. cc (z, ==_eq q)))
        ])

  pub Same-with_rows :
      (ks : List Symbol) (rs : List Row)
      → Put t n ks s (with_rows t n rs s)
      → IsRow s.current_version n ks
      → ((l : ℕ) → meaning (stale s) l ks ≡ meaning (stale s) l (row_at t s n))
      → Same t s (with_rows t n rs s)
  Same-with_rows ks rs p k e = record {
    env_eq = same_meaning ks rs p e;
    table = with_rows-IsTable ks rs p k;
    others = λ u ne. unfold with_rows in update_ne s.tables _ (λ q. ne (sym q));
    kind = unfold with_rows in ap (λ (x : SymbolTable W). x.kind) (update_self s.tables t _);
    level = unfold with_rows in refl;
    current_version = unfold with_rows in refl;
    world = unfold with_rows in refl;
  }

  Same-refl : Same t s s
  Same-refl = record {
    env_eq = refl;
    table = h;
    others = λ u ne. refl;
    kind = refl;
    level = refl;
    current_version = refl;
    world = refl;
  }

  pub set_rows_lem : (rs : List Row) → set_rows t n rs s ≡ ok tt (with_rows t n rs s)
  unfolding set_rows set_table with_rows
  set_rows_lem rs = refl

  put_back_lem :
      (c : Symbol) (cs ks : List Symbol)
      → row_of n (rows_for t n s) ≡ c ∷ cs
      → IsRow s.current_version n ks
      → ((l : ℕ) → meaning (stale s) l ks ≡ meaning (stale s) l (row_at t s n))
      → Returns (put_back t n (rows_for t n s) ks s) (λ r s'. (r ≡ head_var ks) × Same t s s')
  unfolding put_back rows_for
  put_back_lem c cs [] q k e =
      let rs = replace_row n [] (rows_for t n s) in
      rw (set_rows_lem rs) (
        refl,
        Same-with_rows [] rs
            (Put-with_rows t n [] rs s h.distinct (put_none n (rows_for t n s) (h.distinct _))) k e,
      )
  put_back_lem c cs (d ∷ ds) q k e =
      let rs = replace_row n ((d, ds) ∷ []) (rows_for t n s) in
      rw (set_rows_lem rs) (
        refl,
        Same-with_rows (d ∷ ds) rs
            (Put-with_rows t n (d ∷ ds) rs s h.distinct
              (put_row n (d, ds) c cs (rows_for t n s) k.0 (h.distinct _) q))
            k e,
      )

  pub find-env : find n (env t s) ≡ head_var (drop_stale s (row_at t s n))
  unfolding env
  find-env =
      find-scopes_from (stale s) (row_at t s) n s.level
      ∙ find-drop_stale s s.current_version n (row_at t s n) (h.rows n)

  lookup_row_lem :
      (cs : List Symbol)
      → row_at t s n ≡ cs
      → Returns
          (lookup_row t n (rows_for t n s) cs s)
          (λ r s'. (r ≡ head_var (drop_stale s cs)) × Same t s s')
  unfolding lookup_row row_at
  lookup_row_lem [] q = (unfold drop_stale in refl, Same-refl)
  lookup_row_lem (c ∷ cs) q =
      put_back_lem c cs (drop_stale s (c ∷ cs)) q
        (drop_stale-IsRow s s.current_version n (c ∷ cs)
          (subst (IsRow s.current_version n) q (h.rows n)))
        (λ l. meaning-drop_stale s l (c ∷ cs) ∙ ap (meaning (stale s) l) (sym q))

  -- LookupSymbol gives what the innermost scope of the stack `env` that knows the name says, or nothing
  -- if none does. What the table means, the other tables, the level and the world stay the same.
  pub lookup_symbol-finds :
      Returns (lookup_symbol t n s) (λ r s'. (r ≡ find n (env t s)) × Same t s s')
  unfolding lookup_symbol
  lookup_symbol-finds = rw find-env (unfold row_at in lookup_row_lem (row_at t s n) refl)
