-- ===== src/Cilk2c/Symbol/Clash.antt =====
-- InsertSymbol of cilk2c/symbol.c where the innermost scope knows the name already.
use cilk.Common.{
  ℕ, Bool, ◌≡◌, ◌≢◌, ◌≤◌, refl, sym, ◌∙◌, ap, subst, false, some, List, [], ◌∷◌, Returns,
  Returns-bind, Returns-mono, ==_eq, Bool-cases, inl, inr, ◌==◌, some-inj, ==_true,
}
use cilk.Cilk2c.Symbol.{
  TableType, Symbol, Scope, Row, Symbols, stale, row_of, rows_for, replace_row, drop_stale,
  set_world, scope_of, list_in_scope, call_conflict, insert_over, insert_row, insert_symbol,
}
use cilk.Cilk2c.Symbol.Scopes.{
  IsRow, Below, meaning, meaning-Below, Below-le, row_at, env, stale-level,
}
use cilk.Cilk2c.Symbol.Rows.{Put-with_rows, put_row, with_rows}
use cilk.Cilk2c.Symbol.Lookup.{
  IsTable, Same, Same-with_rows, set_rows_lem, drop_stale-IsRow, meaning-drop_stale,
}
use cilk.Cilk2c.Symbol.Define.{innermost, innermost-env}
use cilk.Cilk2c.Symbol.Insert.{drop_stale-live}
use cilk.Cilk2c.Symbol.Declare.{Listed, list_lem, new_symbol}

-- the first symbol that is left has the level `l`
top_level :
    (gone : Scope → Bool) (l v : ℕ) (c : Symbol) (cs : List Symbol)
    → gone c.scope ≡ false
    → c.scope.level ≤ l
    → Below c.scope.level cs
    → meaning gone l (c ∷ cs) ≡ some v
    → (c.scope.level ≡ l) × (c.var ≡ v)
unfolding meaning
top_level gone l v c cs e le b m = elim (Bool-cases (c.scope.level == l)) [
  | inl q ↦ (==_true q, some-inj (rw (q, e) at m))
  | inr q ↦ cc (sym (meaning-Below gone l cs (Below-le c.scope.level l cs le b)) ∙ (rw q at m))
]

no_meaning : (gone : Scope → Bool) (l v : ℕ) → meaning gone l [] ≢ some v
unfolding meaning
no_meaning gone l v e = cc e

-- A table does not depend on the world.
world-Same :
    {W : Type 0} (t : ℕ) (s s' : Symbols W) (w : W)
    → Same t s s'
    → Same t (record s { world = w }) (record s' { world = w })
unfolding env stale row_at rows_for
world-Same t s s' w k = record {
  env_eq = k.env_eq;
  table = record { rows = k.table.rows; distinct = k.table.distinct };
  others = k.others;
  kind = k.kind;
  level = k.level;
  current_version = k.current_version;
  world = refl;
}

module _ {W : Type 0} (t : ℕ) (x : Symbol) (s : Symbols W) (h : IsTable t s)
    (here : x.scope.level ≡ s.level) (old : ℕ) (f : ℕ → ℕ → W → W)
    (known : meaning (stale s) s.level (row_at t s x.name) ≡ some old) where
  abbrev after : Symbols W
  after = record s { world = f old x.var s.world }

  over_lem :
      (c : Symbol) (cs ks : List Symbol)
      → row_at t s x.name ≡ c ∷ cs
      → drop_stale s (c ∷ cs) ≡ ks
      → Returns
          (insert_over t x (some f) (rows_for t x.name s) ks s)
          (λ r s'. (r ≡ old) × Same t after s')
  unfolding insert_over call_conflict set_world rows_for row_at with_rows
  over_lem c cs [] q d = absurd (
      no_meaning (stale s) s.level old (
        ap (meaning (stale s) s.level) (sym d)
        ∙ meaning-drop_stale s s.level (c ∷ cs)
        ∙ ap (meaning (stale s) s.level) (sym q)
        ∙ known))
  over_lem c cs (k ∷ ks) q d =
      let rs = replace_row x.name ((k, ks) ∷ []) (rows_for t x.name s) in
      let live = drop_stale-live s (c ∷ cs) k ks d in
      let row : IsRow s.current_version x.name (k ∷ ks) = subst (IsRow s.current_version x.name) d (
        drop_stale-IsRow s s.current_version x.name (c ∷ cs)
          (subst (IsRow s.current_version x.name) q (h.rows x.name))) in
      let same = λ (l : ℕ).
        ap (meaning (stale s) l) (sym d)
        ∙ meaning-drop_stale s l (c ∷ cs)
        ∙ ap (meaning (stale s) l) (sym q) in
      let top =
        top_level (stale s) s.level old k ks live (stale-level s k.scope live) row.2
          (same s.level ∙ known) in
      rw (==_eq (top.0 ∙ sym here)) (
        rw (set_rows_lem t x.name s h rs) (
          top.1,
          subst
              (λ o.
                Same t (record s { world = f o x.var s.world })
                  (record (with_rows t x.name rs s) { world = f k.var x.var s.world }))
              top.1
              (world-Same t s (with_rows t x.name rs s) (f k.var x.var s.world) (
                Same-with_rows t x.name s h (k ∷ ks) rs
                  (Put-with_rows t x.name (k ∷ ks) rs s h.distinct
                    (put_row x.name (k, ks) c cs (rows_for t x.name s) row.0 (h.distinct _) q))
                  row same)),
        ))

  row_lem :
      (cs : List Symbol)
      → row_at t s x.name ≡ cs
      → Returns
          (insert_row t x (some f) (rows_for t x.name s) cs s)
          (λ r s'. (r ≡ old) × Same t after s')
  unfolding insert_row
  row_lem [] q =
      absurd (no_meaning (stale s) s.level old (ap (meaning (stale s) s.level) (sym q) ∙ known))
  row_lem (c ∷ cs) q = over_lem c cs (drop_stale s (c ∷ cs)) q refl

module _ {W : Type 0} (t : ℕ) (s : Symbols W) (h : IsTable t s) (f : ℕ → ℕ → W → W) where
  Same-trans :
      (w : W) (s1 s' : Symbols W)
      → Same t s s1
      → Same t (record s1 { world = w }) s'
      → Same t (record s { world = w }) s'
  unfolding env stale row_at rows_for
  Same-trans w s1 s' k m = record {
    env_eq = m.env_eq ∙ k.env_eq;
    table = m.table;
    others = λ u ne. m.others u ne ∙ k.others u ne;
    kind = m.kind ∙ k.kind;
    level = m.level ∙ k.level;
    current_version = m.current_version ∙ k.current_version;
    world = m.world;
  }

  Listed-insert :
      (n v old : ℕ) (s1 : Symbols W)
      → innermost n (env t s) ≡ some old
      → Listed t s s1
      → Returns
          (insert_row t
            (new_symbol t s h n v)
            (some f)
            (rows_for t n s)
            (row_of n (rows_for t n s))
            s1)
          (λ r s'. (r ≡ old) × Same t (record s { world = f old v s.world }) s')
  Listed-insert n v old s1 e k =
      Returns-mono
        (insert_row t (new_symbol t s h n v) (some f) (rows_for t n s) (row_of n (rows_for t n s))
          s1)
        (λ r s'. (r ≡ old) × Same t (record s1 { world = f old v s1.world }) s') _
        (subst
          (λ (rs : List Row).
            Returns (insert_row t (new_symbol t s h n v) (some f) rs (row_of n rs) s1)
              (λ r s'. (r ≡ old) × Same t (record s1 { world = f old v s1.world }) s'))
          (k.rows n)
          (unfold row_at in
            row_lem t (new_symbol t s h n v) s1 k.same.table (sym k.same.level) old f
              (sym (innermost-env t n s1) ∙ ap (innermost n) k.same.env_eq ∙ e) (row_at t s1 n)
              refl))
        (λ r s' p. (
          p.0,
          Same-trans (f old v s.world) s1 s' k.same
              (subst (λ w. Same t (record s1 { world = f old v w }) s') k.same.world p.1),
        ))

  -- InsertSymbol of a name that the innermost scope knows calls the conflict procedure with the old object
  -- and the new one, and gives the old one; all that the table means, the other tables and the level
  -- stay the same.
  pub insert_symbol-clashes :
      (n v old : ℕ)
      → (s.tables t).kind ≡ TableType.nested
      → innermost n (env t s) ≡ some old
      → Returns
          (insert_symbol t n v (some f) s)
          (λ r s'. (r ≡ old) × Same t (record s { world = f old v s.world }) s')
  unfolding insert_symbol scope_of
  insert_symbol-clashes n v old nest e = rw nest (
      Returns-bind (list_in_scope t s.level v s) _ (λ u s1. Listed t s s1) _
        (list_lem t s h s.level v) (λ u s1 k. Listed-insert n v old s1 e k))
