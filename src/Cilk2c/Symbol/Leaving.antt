-- ===== src/Cilk2c/Symbol/Leaving.antt =====
-- ExitScope of cilk2c/symbol.c against the stack of scopes.
use cilk.Common.{
  ℕ, suc, ◌-◌, ◌≡◌, ◌≢◌, ◌≤◌, refl, sym, ◌∙◌, ap, subst, Bool, Option, none, some, List, [], ◌∷◌,
  Returns, update, ==_ne, ==_true, arith, Bool-cases, inl, inr, ◌==◌, le→not-ltb, fun_ext,
}
use cilk.Cilk2c.Symbol.{
  hash, Symbol, Scope, Row, SymbolTable, Symbols, short_lt, stale, row_of, rows_for, exit_scope,
  leave_table, leave_tables, notify,
}
use cilk.Cilk2c.Symbol.Scopes.{Env, IsRow, scopes_from, row_at, env}
use cilk.Cilk2c.Symbol.Rows.{Distinct}
use cilk.Cilk2c.Symbol.Lookup.{IsTable}
use cilk.Cilk2c.Symbol.Nesting.{meaning_agree, scopes_agree}

-- the scopes but the innermost
unfoldable pub outer : Env → Env
outer [] = []
outer (e ∷ es) = es

-- The lists of a level have been emptied: every table has the rows that it had.
pub record Left {W : Type 0} (s s' : Symbols W) : Type 0 where
  pub rows : (t : ℕ) → (s'.tables t).table ≡ (s.tables t).table
  pub kind : (t : ℕ) → (s'.tables t).kind ≡ (s.tables t).kind
  pub current_version : s'.current_version ≡ s.current_version

module _ {W : Type 0} (level : ℕ) where
  field_update :
      {A : Type 0} (f : SymbolTable W → A) (g : ℕ → SymbolTable W) (t : ℕ) (x : SymbolTable W)
      → f x ≡ f (g t)
      → (u : ℕ) → f (update g t x u) ≡ f (g u)
  field_update f g t x e u = elim (Bool-cases (t == u)) [
    | inl q ↦ rw q (e ∙ ap (λ i. f (g i)) (==_true q))
    | inr q ↦ rw q refl
  ]

  leave_case :
      (t : ℕ) (s : Symbols W) (o : Option (ℕ → W → W)) (w : (ℕ → W → W) → W)
      → Left s (elim o [
        | none ↦ s
        | some f ↦ record s {
          tables =
              update s.tables t
                (record (s.tables t) { scopes = update (s.tables t).scopes level [] });
          world = w f;
        }
      ])
  leave_case t s none w = record { rows = λ u. refl; kind = λ u. refl; current_version = refl }
  leave_case t s (some f) w = record {
    rows = field_update (λ x. x.table) s.tables t _ refl;
    kind = field_update (λ x. x.kind) s.tables t _ refl;
    current_version = refl;
  }

  pub leave-Left : (ts : List ℕ) (s : Symbols W) → Left s (leave_tables level ts s)
  unfolding leave_tables leave_table
  leave-Left [] s = record { rows = λ u. refl; kind = λ u. refl; current_version = refl }
  leave-Left (t ∷ ts) s =
      let a =
        leave_case t s (s.tables t).exitscope
          (λ f. notify (some f) ((s.tables t).scopes level) s.world) in
      let b = leave-Left ts (leave_table level t s) in
      record {
        rows = λ u. b.rows u ∙ a.rows u;
        kind = λ u. b.kind u ∙ a.kind u;
        current_version = b.current_version ∙ a.current_version;
      }

lower : (k l c : ℕ) → c ≡ k → k ≤ l - 1 → c ≤ l - 1
lower k l c e h = omega arith

lower_pred : (k l c : ℕ) → c ≡ k → k ≤ l - 1 → c ≤ l
lower_pred k l c e h = omega arith

pred_suc : {l : ℕ} → l ≢ 0 → l ≡ suc (l - 1)
pred_suc h = omega arith

outer-scopes_from :
    (gone : Scope → Bool) (rows : ℕ → List Symbol) (l : ℕ)
    → scopes_from gone rows l ≡ outer (scopes_from gone rows (suc l))
unfolding outer scopes_from
outer-scopes_from gone rows l = refl

module _ {W : Type 0} (t : ℕ) (s : Symbols W) (h : IsTable t s) (inside : s.level ≢ 0) where
  abbrev left : Symbols W
  left = record (leave_tables s.level s.table_list s) { level = s.level - 1 }

  all-Left : Left s (leave_tables s.level s.table_list s)
  all-Left = leave-Left s.level s.table_list s

  left-row_at : row_at t left ≡ row_at t s
  unfolding row_at rows_for
  left-row_at = fun_ext (λ n. ap (λ (f : ℕ → List Row). row_of n (f (hash n))) (all-Left.rows t))

  left-agree :
      (k : ℕ)
      → k ≤ s.level - 1
      → (c : Scope) → c.version ≤ s.current_version c.level
      → c.level ≡ k
      → stale left c ≡ stale s c
  unfolding stale
  left-agree k le c v e =
      rw (le→not-ltb (lower k s.level c.level e le), le→not-ltb (lower_pred k s.level c.level e le))
        (ap (λ (f : ℕ → ℕ). short_lt c.version (f c.level)) all-Left.current_version)

  env-left : env t left ≡ outer (env t s)
  unfolding env
  env-left =
      let e : s.level ≡ suc (s.level - 1) = pred_suc inside in
      ap (λ r. scopes_from (stale left) r (s.level - 1)) left-row_at
      ∙ scopes_agree (stale s) (stale left) (row_at t s) (s.level - 1) (λ k n le.
        meaning_agree (stale s) (stale left) s.current_version n k (row_at t s n) (left-agree k le)
          (h.rows n))
      ∙ outer-scopes_from (stale s) (row_at t s) (s.level - 1)
      ∙ ap (λ l. outer (scopes_from (stale s) (row_at t s) l)) (sym e)

  left-IsTable : IsTable t left
  left-IsTable = record {
    rows = λ n.
        subst (λ (r : ℕ → List Symbol). IsRow left.current_version n (r n)) (sym left-row_at)
          (subst (λ (f : ℕ → ℕ). IsRow f n (row_at t s n)) (sym all-Left.current_version)
            (h.rows n));
    distinct =
        λ b. subst (λ (f : ℕ → List Row). Distinct (f b)) (sym (all-Left.rows t)) (h.distinct b);
  }

  -- ExitScope, inside a scope, closes the innermost scope of every table that is in order: the other
  -- scopes mean what they did, and no error is reported.
  pub exit_scope-closes : Returns (exit_scope s) (λ u s'.
      (env t s' ≡ outer (env t s))
      × IsTable t s'
      × ((s'.tables t).kind ≡ (s.tables t).kind)
      × (s'.level ≡ s.level - 1)
      × (s'.current_version ≡ s.current_version))
  unfolding exit_scope
  exit_scope-closes =
      rw (==_ne inside) (env-left, left-IsTable, all-Left.kind t, refl, all-Left.current_version)
