-- ===== src/Cilk2c/Symbol/Nesting.antt =====
-- EnterScope of cilk2c/symbol.c against the stack of scopes.
use cilk.Common.{
  ℕ, zero, suc, ◌+◌, ◌^◌, ◌%◌, ◌≡◌, ◌≤◌, ◌<◌, refl, sym, ◌∙◌, ap, subst, Bool, true, not, none,
  some, List, [], ◌∷◌, ok, Returns, update, ==_ne, ==_true, arith, Bool-cases, inl, inr, ◌==◌, ltb,
  lt→ltb, fun_ext, if◌then◌else◌,
}
use cilk.Cilk2c.Symbol.{
  max_scope_depth, Symbol, Scope, Symbols, short_lt, stale, rows_for, enter_scope,
}
use cilk.Cilk2c.Symbol.Scopes.{IsRow, meaning, scope_at, scopes_from, row_at, env}
use cilk.Cilk2c.Symbol.Lookup.{IsTable}

-- Two tests agree on the symbols of a row.
pub meaning_agree :
    (gone gone' : Scope → Bool) (version : ℕ → ℕ) (n l : ℕ) (cs : List Symbol)
    → ((c : Scope) → c.version ≤ version c.level → c.level ≡ l → gone' c ≡ gone c)
    → IsRow version n cs
    → meaning gone' l cs ≡ meaning gone l cs
unfolding meaning
meaning_agree gone gone' version n l [] e h = refl
meaning_agree gone gone' version n l (c ∷ cs) e h =
    let rest = meaning_agree gone gone' version n l cs e h.3 in
    elim (Bool-cases (c.scope.level == l)) [
      | inl q ↦
          rw (q, e c.scope h.1 (==_true q)) (λ i. if not (gone c.scope) then some c.var else rest i)
      | inr q ↦ rw q rest
    ]

IsRow-mono :
    (f g : ℕ → ℕ) (n : ℕ) (cs : List Symbol) → ((l : ℕ) → f l ≤ g l) → IsRow f n cs → IsRow g n cs
IsRow-mono f g n [] le h = tt
IsRow-mono f g n (c ∷ cs) le h =
    (h.0, (let x = le c.scope.level in let y = h.1 in omega arith), h.2, IsRow-mono f g n cs le h.3)

-- a level of which all symbols are gone
meaning_gone :
    (gone : Scope → Bool) (version : ℕ → ℕ) (n l : ℕ) (cs : List Symbol)
    → ((c : Scope) → c.version ≤ version c.level → c.level ≡ l → gone c ≡ true)
    → IsRow version n cs
    → meaning gone l cs ≡ none
unfolding meaning
meaning_gone gone version n l [] e h = refl
meaning_gone gone version n l (c ∷ cs) e h =
    let rest = meaning_gone gone version n l cs e h.3 in
    elim (Bool-cases (c.scope.level == l)) [
      | inl q ↦ rw (q, e c.scope h.1 (==_true q)) rest
      | inr q ↦ rw q rest
    ]

pub scopes_agree :
    (gone gone' : Scope → Bool) (rows : ℕ → List Symbol) (l : ℕ)
    → ((k n : ℕ) → k ≤ l → meaning gone' k (rows n) ≡ meaning gone k (rows n))
    → scopes_from gone' rows l ≡ scopes_from gone rows l
unfolding scopes_from scope_at
scopes_agree gone gone' rows zero e = λ i. fun_ext (λ n. e zero n (omega arith)) i ∷ []
scopes_agree gone gone' rows (suc l) e = λ i.
    fun_ext (λ n. e (suc l) n (omega arith)) i
    ∷ scopes_agree gone gone' rows l (λ k n q. e k n (omega arith)) i

suc_add : (n : ℕ) → suc n ≡ n + 1
suc_add n = omega arith

-- the next version is later
later :
    (v a : ℕ)
    → v ≤ a
    → a + 1 < 2 ^ 15
    → ltb ((v + 2 ^ 15) % 2 ^ 16) (((a + 1) % 2 ^ 16 + 2 ^ 15) % 2 ^ 16) ≡ true
later v a le h = lt→ltb (omega arith)

-- the state in the new scope
unfoldable pub entered : {W : Type 0} → Symbols W → Symbols W
entered s = record s {
  level = s.level + 1;
  current_version =
      update s.current_version (s.level + 1) ((s.current_version (s.level + 1) + 1) % 2 ^ 16);
}

module _ {W : Type 0} (s : Symbols W) (deep : s.level + 1 < max_scope_depth) where
  pub enter_scope_lem : enter_scope s ≡ ok tt (entered s)
  unfolding enter_scope entered
  enter_scope_lem = rw (==_ne {a = s.level + 1} {b = 100} (omega arith)) refl

above : {a b : ℕ} → b ≡ a + 1 → a < b
above e = omega arith

mod-le : (a : ℕ) → a % 2 ^ 16 ≤ a
mod-le a = omega arith

next_le : {a : ℕ} → a + 1 < 2 ^ 16 → a ≤ (a + 1) % 2 ^ 16
next_le h = omega arith

module _ {W : Type 0} (t : ℕ) (s : Symbols W) (h : IsTable t s)
    (fits : s.current_version (s.level + 1) + 1 < 2 ^ 16) where
  entered-version : (l : ℕ) → s.current_version l ≤ (entered s).current_version l
  unfolding entered
  entered-version l = elim (Bool-cases (s.level + 1 == l)) [
    | inl q ↦ rw q (
        subst (λ i. s.current_version i ≤ (s.current_version (s.level + 1) + 1) % 2 ^ 16)
          (==_true q) (next_le fits))
    | inr q ↦ rw q (omega arith)
  ]

  pub entered-IsTable : IsTable t (entered s)
  entered-IsTable = record {
    rows = λ n.
        unfold row_at rows_for entered in
        IsRow-mono s.current_version (entered s).current_version n (row_at t s n) entered-version
          (h.rows n);
    distinct = unfold entered in h.distinct;
  }

module _ {W : Type 0} (t : ℕ) (s : Symbols W) (h : IsTable t s)
    (short : s.current_version (s.level + 1) + 1 < 2 ^ 15) where
  agree : (c : Scope) → c.version ≤ s.current_version c.level → stale (entered s) c ≡ stale s c
  unfolding stale entered short_lt
  agree c le = elim (Bool-cases (s.level + 1 == c.level)) [
    | inl q ↦
        let e = ==_true q in
        let k = subst (λ l. c.version ≤ s.current_version l) (sym e) le in
        rw (q, later c.version (s.current_version (s.level + 1)) k short) (ground arith)
    | inr q ↦ rw q (ground arith)
  ]

  new_level :
      (c : Scope)
      → c.version ≤ s.current_version c.level
      → c.level ≡ s.level + 1
      → stale (entered s) c ≡ true
  new_level c le e = agree c le ∙ (unfold stale in rw (lt→ltb (above e)) refl)

  entered-row_at : row_at t (entered s) ≡ row_at t s
  unfolding row_at rows_for entered
  entered-row_at = refl

  no_new : scope_at (stale (entered s)) (row_at t s) (suc s.level) ≡ (λ n. none)
  unfolding scope_at
  no_new = fun_ext (λ n.
      meaning_gone (stale (entered s)) s.current_version n (suc s.level) (row_at t s n)
        (λ c le e. new_level c le (e ∙ suc_add s.level)) (h.rows n))

  env-entered : env t (entered s) ≡ (λ n. none) ∷ env t s
  unfolding env scopes_from
  env-entered =
      let e : (entered s).level ≡ suc s.level = unfold entered in omega arith in
      ap (scopes_from (stale (entered s)) (row_at t (entered s))) e
      ∙ ap (λ r. scopes_from (stale (entered s)) r (suc s.level)) entered-row_at
      ∙ (λ i.
          no_new i
          ∷ scopes_agree (stale s) (stale (entered s)) (row_at t s) s.level
              (λ k n le.
                meaning_agree (stale s) (stale (entered s)) s.current_version n k (row_at t s n)
                  (λ c v e. agree c v) (h.rows n))
              i)

  entered-late : (l : ℕ) → (entered s).current_version l ≤ s.current_version l + 1
  unfolding entered
  entered-late l = elim (Bool-cases (s.level + 1 == l)) [
    | inl q ↦ rw q (
        subst (λ i. (s.current_version (s.level + 1) + 1) % 2 ^ 16 ≤ s.current_version i + 1)
          (==_true q) (mod-le (s.current_version (s.level + 1) + 1)))
    | inr q ↦ rw q (omega arith)
  ]

  -- EnterScope, below the greatest depth and while the version of the new level fits its type, opens a
  -- scope without any meaning inside the others, which mean what they did: the symbols of an earlier
  -- scope of that level, which the tables still hold, are gone.
  pub enter_scope-opens :
      s.level + 1 < max_scope_depth
      → Returns (enter_scope s) (λ u s'.
        (env t s' ≡ (λ n. none) ∷ env t s)
        × IsTable t s'
        × (s'.tables ≡ s.tables)
        × (s'.level ≡ s.level + 1)
        × ((l : ℕ) → s'.current_version l ≤ s.current_version l + 1))
  enter_scope-opens deep = rw (enter_scope_lem s deep) (
    env-entered,
    entered-IsTable t s h (omega arith),
    (unfold entered in refl),
    (unfold entered in refl),
    entered-late,
  )
