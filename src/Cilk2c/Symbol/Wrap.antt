-- ===== src/Cilk2c/Symbol/Wrap.antt =====
-- The version of a level in cilk2c/symbol.c is a short: what happens when it is full.
use cilk.Common.{
  ℕ, ◌+◌, ◌-◌, ◌^◌, ◌%◌, ◌≡◌, ◌<◌, refl, ◌∙◌, ap, false, some, List, ◌∷◌, Returns, ==_refl, arith,
  ltb, le→not-ltb,
}
use cilk.Cilk2c.Symbol.{
  max_scope_depth, Symbol, Symbols, short_lt, stale, rows_for, drop_stale, enter_scope,
}
use cilk.Cilk2c.Symbol.Scopes.{find, row_at, env, head_var}
use cilk.Cilk2c.Symbol.Lookup.{IsTable, find-env}
use cilk.Cilk2c.Symbol.Nesting.{entered, entered-IsTable, enter_scope_lem}

wrapped : (v : ℕ) → v < 2 ^ 15 → ltb ((v + 2 ^ 15) % 2 ^ 16) ((2 ^ 15 + 2 ^ 15) % 2 ^ 16) ≡ false
wrapped v h = le→not-ltb (omega arith)

drop_live :
    {W : Type 0} (s : Symbols W) (c : Symbol) (cs : List Symbol)
    → stale s c.scope ≡ false
    → head_var (drop_stale s (c ∷ cs)) ≡ some c.var
unfolding drop_stale
drop_live s c cs e = rw e refl

full_fits : {a : ℕ} → a ≡ 2 ^ 15 - 1 → a + 1 < 2 ^ 16
full_fits e = omega arith

module _ {W : Type 0} (t n : ℕ) (s : Symbols W) (c : Symbol) (cs : List Symbol)
    (row : row_at t s n ≡ c ∷ cs) (here : c.scope.level ≡ s.level + 1)
    (positive : c.scope.version < 2 ^ 15)
    (full : s.current_version (s.level + 1) ≡ 2 ^ 15 - 1) where
  not_stale : stale (entered s) c.scope ≡ false
  unfolding stale entered short_lt
  not_stale =
      rw (here, ==_refl (s.level + 1), full) (rw (wrapped c.scope.version positive) (ground arith))

  entered_top : head_var (drop_stale (entered s) (row_at t (entered s) n)) ≡ some c.var
  entered_top =
      let e : row_at t (entered s) n ≡ row_at t s n = unfold row_at rows_for entered in refl in
      ap (λ r. head_var (drop_stale (entered s) r)) (e ∙ row) ∙ drop_live (entered s) c cs not_stale

  -- The version of a level is a short: where the current one is the greatest, EnterScope wraps it, and a
  -- name of the last scope of that level that stands at the top of its row is found again in the new
  -- scope, though the scope that it was declared in is closed.
  pub enter_scope-wraps :
      IsTable t s
      → s.level + 1 < max_scope_depth
      → Returns (enter_scope s) (λ u s'. find n (env t s') ≡ some c.var)
  enter_scope-wraps h deep =
      rw (enter_scope_lem s deep)
        (find-env t n (entered s) (entered-IsTable t s h (full_fits full)) ∙ entered_top)
