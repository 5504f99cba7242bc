-- ===== src/Cilk2c/Symbol/Trace.antt =====
-- Sequences of operations on a nested symbol table (cilk2c/symbol.c), against the stack of scopes.
use cilk.Common.{
  ℕ, Bool, zero, suc, ◌+◌, ◌^◌, ◌≡◌, ◌≢◌, ◌<◌, refl, sym, ◌∙◌, ap, Option, none, some, List, [],
  ◌∷◌, Cmd, Returns, Returns-bind, Returns-mono, length, arith, Bool-cases, inl, inr, ==_true,
  ==_eq, ◌==◌, pure, ◌>>=◌, ◌>>◌, Option-cases,
}
use cilk.Cilk2c.Symbol.{
  Scope, Symbol, stale, rows_for, TableType, max_scope_depth, Symbols, enter_scope, exit_scope,
  insert_symbol, lookup_symbol,
}
use cilk.Cilk2c.Symbol.Scopes.{row_at, Env, find, env, scopes_from}
use cilk.Cilk2c.Symbol.Lookup.{IsTable, lookup_symbol-finds}
use cilk.Cilk2c.Symbol.Define.{innermost, define}
use cilk.Cilk2c.Symbol.Declare.{insert_symbol-defines}
use cilk.Cilk2c.Symbol.Clash.{insert_symbol-clashes}
use cilk.Cilk2c.Symbol.Nesting.{enter_scope-opens}
use cilk.Cilk2c.Symbol.Leaving.{outer, exit_scope-closes}

pub data Op : Type 0 where
  enter exit : Op
  declare : ℕ → ℕ → Op
  look : ℕ → Op

module _ {W : Type 0} (t : ℕ) (f : ℕ → ℕ → W → W) where
  unfoldable pub perform : Op → Cmd (Symbols W) (Option ℕ)
  perform enter = do enter_scope; pure none
  perform exit = do exit_scope; pure none
  perform (declare n v) = do r ← insert_symbol t n v (some f); pure (some r)
  perform (look n) = lookup_symbol t n

  -- the results, in order
  pub perform_all : List Op → Cmd (Symbols W) (List (Option ℕ))
  perform_all [] = pure []
  perform_all (o ∷ os) = do r ← perform o; rs ← perform_all os; pure (r ∷ rs)

-- The same on the abstract view. The outermost scope is never closed.
unfoldable pub close : Env → Env
close [] = []
close (e ∷ []) = e ∷ []
close (e ∷ d ∷ ds) = d ∷ ds

unfoldable pub declared : ℕ → ℕ → Option ℕ → Env → Env
declared n v none es = define n v es
declared n v (some old) es = es

abbrev pub or_value : Option ℕ → ℕ → ℕ
or_value none v = v
or_value (some old) v = old

unfoldable pub after : Op → Env → Env
after enter es = (λ n. none) ∷ es
after exit es = close es
after (declare n v) es = declared n v (innermost n es) es
after (look n) es = es

unfoldable pub answer : Op → Env → Option ℕ
answer enter es = none
answer exit es = none
answer (declare n v) es = some (or_value (innermost n es) v)
answer (look n) es = find n es

unfoldable pub answers : List Op → Env → List (Option ℕ)
answers [] es = []
answers (o ∷ os) es = answer o es ∷ answers os (after o es)

close_zero :
    (gone : Scope → Bool) (rows : ℕ → List Symbol) (l : ℕ)
    → l ≡ 0
    → close (scopes_from gone rows l) ≡ scopes_from gone rows l
unfolding close scopes_from
close_zero gone rows zero e = refl
close_zero gone rows (suc l) e = absurd (omega arith)

close_suc :
    (gone : Scope → Bool) (rows : ℕ → List Symbol) (l : ℕ)
    → l ≢ 0
    → close (scopes_from gone rows l) ≡ outer (scopes_from gone rows l)
unfolding close scopes_from outer
close_suc gone rows zero e = absurd (e refl)
close_suc gone rows (suc zero) e = refl
close_suc gone rows (suc (suc l)) e = refl

env_world : {W : Type 0} (t : ℕ) (s : Symbols W) (w : W) → env t (record s { world = w }) ≡ env t s
unfolding env stale row_at rows_for
env_world t s w = refl

close-env : {W : Type 0} (t : ℕ) (s : Symbols W) → s.level ≢ 0 → close (env t s) ≡ outer (env t s)
unfolding env
close-env t s ne = close_suc (stale s) (row_at t s) s.level ne

-- Room for `k` more scopes: of levels, and of versions of each level.
pub record Room {W : Type 0} (t k : ℕ) (s : Symbols W) : Type 0 where
  pub table : IsTable t s
  pub kind : (s.tables t).kind ≡ TableType.nested
  pub depth : s.level + k < max_scope_depth
  pub versions : (l : ℕ) → s.current_version l + k < 2 ^ 15

module _ {W : Type 0} (t : ℕ) (f : ℕ → ℕ → W → W) (k : ℕ) (s : Symbols W)
    (h : Room t (suc k) s) where
  abbrev Next : Op → Option ℕ → Symbols W → Type 0
  Next o r s' = (r ≡ answer o (env t s)) × (env t s' ≡ after o (env t s)) × Room t k s'

  enter_lem : Returns (perform t f enter s) (Next enter)
  unfolding perform after answer
  enter_lem =
      Returns-bind (enter_scope s) _ _ _
        (enter_scope-opens t s h.table (let v = h.versions (s.level + 1) in omega arith)
          (let d = h.depth in omega arith))
        (λ u s' p. (
          refl,
          p.0,
          record {
            table = p.1;
            kind = ap (λ g. (g t).kind) p.2 ∙ h.kind;
            depth = let d = h.depth in let l = p.3 in omega arith;
            versions = λ l. let v = h.versions l in let w = p.4 l in omega arith;
          },
        ))

  -- the scopes stay, the level and the versions too
  stay :
      (s' : Symbols W)
      → IsTable t s'
      → (s'.tables t).kind ≡ (s.tables t).kind
      → s'.level ≡ s.level
      → s'.current_version ≡ s.current_version
      → Room t k s'
  stay s' i c l v = record {
    table = i;
    kind = c ∙ h.kind;
    depth = let d = h.depth in omega arith;
    versions = λ j. let a = h.versions j in let b = ap (λ g. g j) v in omega arith;
  }

  look_lem : (n : ℕ) → Returns (perform t f (look n) s) (Next (look n))
  unfolding perform after answer
  look_lem n =
      Returns-mono (lookup_symbol t n s) _ _ (lookup_symbol-finds t n s h.table)
        (λ r s' p. (p.0, p.1.env_eq, stay s' p.1.table p.1.kind p.1.level p.1.current_version))

  declare_new :
      (n v : ℕ)
      → innermost n (env t s) ≡ none
      → Returns (perform t f (declare n v) s) (Next (declare n v))
  unfolding perform after answer declared
  declare_new n v e =
      Returns-bind (insert_symbol t n v (some f) s) _ _ _
        (insert_symbol-defines t s h.table n v (some f) h.kind e)
        (λ r s' p. (
          ap some p.0 ∙ ap (λ o. some (or_value o v)) (sym e),
          p.1.env_eq ∙ ap (λ o. declared n v o (env t s)) (sym e),
          stay s' p.1.table p.1.kind p.1.level p.1.current_version,
        ))

  declare_old :
      (n v old : ℕ)
      → innermost n (env t s) ≡ some old
      → Returns (perform t f (declare n v) s) (Next (declare n v))
  unfolding perform after answer declared
  declare_old n v old e =
      Returns-bind (insert_symbol t n v (some f) s) _ _ _
        (insert_symbol-clashes t s h.table f n v old h.kind e)
        (λ r s' p. (
          ap some p.0 ∙ ap (λ o. some (or_value o v)) (sym e),
          p.1.env_eq ∙ env_world t s (f old v s.world) ∙ ap (λ o. declared n v o (env t s)) (sym e),
          stay s' p.1.table p.1.kind p.1.level p.1.current_version,
        ))

  exit_outermost : s.level ≡ 0 → Returns (perform t f exit s) (Next exit)
  unfolding perform after answer exit_scope env stale row_at rows_for
  exit_outermost e = rw (==_eq e) (
    refl,
    sym (close_zero (stale s) (row_at t s) s.level e),
    stay (record s { syntax_errors = s.syntax_errors + 1 })
        (record { rows = h.table.rows; distinct = h.table.distinct }) refl refl refl,
  )

  exit_inside : s.level ≢ 0 → Returns (perform t f exit s) (Next exit)
  unfolding perform after answer
  exit_inside ne = Returns-bind (exit_scope s) _ _ _ (exit_scope-closes t s h.table ne) (λ u s' p. (
    refl,
    p.0 ∙ sym (close-env t s ne),
    record {
      table = p.1;
      kind = p.2 ∙ h.kind;
      depth = let d = h.depth in let l = p.3 in omega arith;
      versions = λ j. let a = h.versions j in let b = ap (λ g. g j) p.4 in omega arith;
    },
  ))

  step_lem : (o : Op) → Returns (perform t f o s) (Next o)
  step_lem enter = enter_lem
  step_lem exit = elim (Bool-cases (s.level == 0)) [
    | inl e ↦ exit_outermost (==_true e)
    | inr e ↦ exit_inside (λ q. cc (e, ==_eq q))
  ]
  step_lem (declare n v) = elim (Option-cases (innermost n (env t s))) [
    | inl e ↦ declare_new n v e
    | inr (old, e) ↦ declare_old n v old e
  ]
  step_lem (look n) = look_lem n

-- A nested table implements a stack of scopes: whatever sequence of entering and leaving scopes, of
-- declarations and of lookups is performed on a table that is in order, and that has room for as many
-- scopes as there are operations, all of them return, with the answers that the stack of scopes gives.
pub perform_all-answers :
    {W : Type 0} (t : ℕ) (f : ℕ → ℕ → W → W) (os : List Op) (s : Symbols W)
    → Room t (length os) s
    → Returns (perform_all t f os s) (λ rs s'. rs ≡ answers os (env t s))
unfolding perform_all answers
perform_all-answers t f [] s h = refl
perform_all-answers t f (o ∷ os) s h =
    Returns-bind (perform t f o s) _ (Next t f (length os) s h o) _ (step_lem t f (length os) s h o)
      (λ r s1 p.
        Returns-bind (perform_all t f os s1) _ _ _ (perform_all-answers t f os s1 p.2)
          (λ rs s' q. λ i. p.0 i ∷ (q ∙ ap (answers os) p.1) i))
