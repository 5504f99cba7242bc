-- ===== src/Cilk2c/Symbol/Declare.antt =====
-- InsertSymbol of cilk2c/symbol.c, whole: a new name, and a name that its scope knows already.
use cilk.Common.{
  ℕ, ◌≡◌, refl, sym, ◌∙◌, ap, subst, Option, none, some, List, ◌∷◌, ok, Returns, Returns-bind,
  Returns-mono, update, update_self, update_ne, fun_ext,
}
use cilk.Cilk2c.Symbol.{
  TableType, Symbol, Row, SymbolTable, Symbols, stale, hash, row_of, rows_for, set_table, scope_of,
  list_in_scope, insert_row, insert_symbol,
}
use cilk.Cilk2c.Symbol.Scopes.{IsRow, scopes_from, find, row_at, env}
use cilk.Cilk2c.Symbol.Rows.{Distinct}
use cilk.Cilk2c.Symbol.Lookup.{IsTable, Same}
use cilk.Cilk2c.Symbol.Define.{innermost, define, shadowed, Defined, innermost-env}
use cilk.Cilk2c.Symbol.Insert.{row_lem}

-- Only the list of the objects of a level has changed.
pub record Listed {W : Type 0} (t : ℕ) (s s' : Symbols W) : Type 0 where
  pub same : Same t s s'
  pub rows : (n : ℕ) → rows_for t n s' ≡ rows_for t n s
  pub shadow : (s'.tables t).shadow ≡ (s.tables t).shadow

module _ {W : Type 0} (t : ℕ) (s : Symbols W) (h : IsTable t s) where
  listed : (ℕ → List ℕ) → Symbols W
  listed f = record s { tables = update s.tables t (record (s.tables t) { scopes = f }) }

  listed_rows : (f : ℕ → List ℕ) (n : ℕ) → rows_for t n (listed f) ≡ rows_for t n s
  unfolding rows_for listed
  listed_rows f n = ap (λ (x : SymbolTable W). x.table (hash n)) (update_self s.tables t _)

  listed-row_at : (f : ℕ → List ℕ) (n : ℕ) → row_at t (listed f) n ≡ row_at t s n
  unfolding row_at
  listed-row_at f n = ap (row_of n) (listed_rows f n)

  env-listed : (f : ℕ → List ℕ) → env t (listed f) ≡ env t s
  unfolding env listed stale
  env-listed f =
      ap (λ (r : ℕ → List Symbol). scopes_from (stale s) r s.level) (fun_ext (listed-row_at f))

  listed-IsTable : (f : ℕ → List ℕ) → IsTable t (listed f)
  listed-IsTable f = record {
    rows =
        unfold listed in
        λ n. subst (IsRow s.current_version n) (sym (listed-row_at f n)) (h.rows n);
    distinct =
        unfold listed in
        λ b.
          subst (λ (x : SymbolTable W). Distinct (x.table b)) (sym (update_self s.tables t _))
            (h.distinct b);
  }

  listed-Listed : (f : ℕ → List ℕ) → Listed t s (listed f)
  unfolding listed
  listed-Listed f = record {
    same = record {
      env_eq = env-listed f;
      table = listed-IsTable f;
      others = λ u ne. update_ne s.tables _ (λ q. ne (sym q));
      kind = ap (λ (x : SymbolTable W). x.kind) (update_self s.tables t _);
      level = refl;
      current_version = refl;
      world = refl;
    };
    rows = listed_rows f;
    shadow = ap (λ (x : SymbolTable W). x.shadow) (update_self s.tables t _);
  }

  not-Listed : Listed t s s
  not-Listed = record {
    same = record {
      env_eq = refl;
      table = h;
      others = λ u ne. refl;
      kind = refl;
      level = refl;
      current_version = refl;
      world = refl;
    };
    rows = λ n. refl;
    shadow = refl;
  }

  list_case :
      (o : Option (ℕ → W → W)) (f : ℕ → List ℕ)
      → Returns
          (elim o [ none ↦ ok tt s | some g ↦ set_table t (record (s.tables t) { scopes = f }) s ])
          (λ u s1. Listed t s s1)
  unfolding set_table
  list_case none f = not-Listed
  list_case (some g) f = unfold listed in listed-Listed f

  pub list_lem : (l v : ℕ) → Returns (list_in_scope t l v s) (λ u s1. Listed t s s1)
  unfolding list_in_scope
  list_lem l v =
      list_case (s.tables t).exitscope (update (s.tables t).scopes l (v ∷ (s.tables t).scopes l))

  -- what holds after the list has changed holds from the start
  from-Listed :
      (n v : ℕ) (s1 s' : Symbols W) → Listed t s s1 → Defined t n v s1 s' → Defined t n v s s'
  from-Listed n v s1 s' k d = record {
    env_eq = d.env_eq ∙ ap (define n v) k.same.env_eq;
    table = d.table;
    others = λ u ne. d.others u ne ∙ k.same.others u ne;
    kind = d.kind ∙ k.same.kind;
    level = d.level ∙ k.same.level;
    current_version = d.current_version ∙ k.same.current_version;
    world = d.world ∙ (λ i. shadowed (k.shadow i) v (find n (k.same.env_eq i)) (k.same.world i));
  }

  abbrev pub new_symbol : ℕ → ℕ → Symbol
  new_symbol n v = record {
    name = n;
    var = v;
    scope = record { level = s.level; version = s.current_version s.level };
  }

  Listed-insert :
      (n v : ℕ) (conflict : Option (ℕ → ℕ → W → W)) (s1 : Symbols W)
      → innermost n (env t s) ≡ none
      → Listed t s s1
      → Returns
          (insert_row t (new_symbol n v) conflict (rows_for t n s) (row_of n (rows_for t n s)) s1)
          (λ r s'. (r ≡ v) × Defined t n v s s')
  Listed-insert n v conflict s1 e k =
      Returns-mono
        (insert_row t (new_symbol n v) conflict (rows_for t n s) (row_of n (rows_for t n s)) s1)
        (λ r s'. (r ≡ v) × Defined t n v s1 s') _
        (subst
          (λ (rs : List Row).
            Returns (insert_row t (new_symbol n v) conflict rs (row_of n rs) s1)
              (λ r s'. (r ≡ v) × Defined t n v s1 s'))
          (k.rows n)
          (unfold row_at in
            row_lem t (new_symbol n v) s1 k.same.table (sym k.same.level)
              (sym (λ i. k.same.current_version i (k.same.level i)))
              (sym (innermost-env t n s1) ∙ ap (innermost n) k.same.env_eq ∙ e) conflict
              (row_at t s1 n) refl))
        (λ r s' p. (p.0, from-Listed n v s1 s' k p.1))

  -- InsertSymbol of a name that is new in the innermost scope gives the object itself. That scope then
  -- means it by the name, every other name and scope means what it did, the shadow procedure of the table
  -- has been called if a symbol of an outer scope is shadowed, and the other tables are the same.
  pub insert_symbol-defines :
      (n v : ℕ) (conflict : Option (ℕ → ℕ → W → W))
      → (s.tables t).kind ≡ TableType.nested
      → innermost n (env t s) ≡ none
      → Returns (insert_symbol t n v conflict s) (λ r s'. (r ≡ v) × Defined t n v s s')
  unfolding insert_symbol scope_of
  insert_symbol-defines n v conflict nest e = rw nest (
      Returns-bind (list_in_scope t s.level v s) _ (λ u s1. Listed t s s1) _ (list_lem s.level v)
        (λ u s1 k. Listed-insert n v conflict s1 e k))
