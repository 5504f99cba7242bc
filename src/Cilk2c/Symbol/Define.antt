-- ===== src/Cilk2c/Symbol/Define.antt =====
-- A new meaning in the innermost scope, by a symbol on top of its row (cilk2c/symbol.c).
use cilk.Common.{
  ℕ, zero, suc, ◌≡◌, ◌≢◌, ◌≤◌, ◌<◌, refl, sym, ◌∙◌, ap, subst, Bool, false, Option, none, some,
  List, [], ◌∷◌, ◌==◌, update, update_ne, update_self, arith, Bool-cases, inl, inr, ==_true, ==_eq,
  ==_ne, fun_ext,
}
use cilk.Cilk2c.Symbol.{Symbol, Scope, Row, SymbolTable, Symbols, short_lt, stale, rows_for}
use cilk.Cilk2c.Symbol.Scopes.{Env, find, meaning, scope_at, scopes_from, row_at, env, Below, IsRow}
use cilk.Cilk2c.Symbol.Rows.{Put, with_rows}
use cilk.Cilk2c.Symbol.Lookup.{IsTable, with_rows-IsTable, scopes_from_eq}

-- what the innermost scope says of a name
unfoldable pub innermost : ℕ → Env → Option ℕ
innermost n [] = none
innermost n (e ∷ es) = e n

-- the innermost scope gets a meaning for the name
unfoldable pub define : ℕ → ℕ → Env → Env
define n v [] = []
define n v (e ∷ es) = update e n (some v) ∷ es

-- the call of a table's shadow procedure, if a symbol is shadowed
unfoldable pub shadowed : {W : Type 0} → Option (ℕ → ℕ → W → W) → ℕ → Option ℕ → W → W
shadowed none v o w = w
shadowed (some f) v none w = w
shadowed (some f) v (some d) w = f v d w

pub shadowed-none :
    {W : Type 0} (f : Option (ℕ → ℕ → W → W)) (v : ℕ) (w : W) → shadowed f v none w ≡ w
unfolding shadowed
shadowed-none none v w = refl
shadowed-none (some f) v w = refl

-- The innermost scope of the table has the new meaning `v` for `n`; the rest is the same, but for the world.
pub record Defined {W : Type 0} (t n v : ℕ) (s s' : Symbols W) : Type 0 where
  pub env_eq : env t s' ≡ define n v (env t s)
  pub table : IsTable t s'
  pub others : (u : ℕ) → u ≢ t → s'.tables u ≡ s.tables u
  pub kind : (s'.tables t).kind ≡ (s.tables t).kind
  pub level : s'.level ≡ s.level
  pub current_version : s'.current_version ≡ s.current_version
  pub world : s'.world ≡ shadowed (s.tables t).shadow v (find n (env t s)) s.world

pub lt_ne : {a b : ℕ} → a < b → a ≢ b
lt_ne lt = omega arith

module _ (gone : Scope → Bool) (f g : ℕ → List Symbol) (n v : ℕ)
    (other : (m : ℕ) → m ≢ n → g m ≡ f m) where
  scope_at_define :
      (l : ℕ)
      → meaning gone l (g n) ≡ some v
      → scope_at gone g l ≡ update (scope_at gone f l) n (some v)
  unfolding scope_at
  scope_at_define l top = fun_ext (λ m. elim (Bool-cases (n == m)) [
    | inl e ↦ rw e (ap (λ i. meaning gone l (g i)) (sym (==_true e)) ∙ top)
    | inr e ↦ rw e (ap (meaning gone l) (other m (λ q. cc (e, ==_eq (sym q)))))
  ])

  outer_same :
      (l : ℕ)
      → ((k : ℕ) → k ≤ l → meaning gone k (g n) ≡ meaning gone k (f n))
      → scopes_from gone g l ≡ scopes_from gone f l
  outer_same l low = scopes_from_eq gone g f l (λ k m h. elim (Bool-cases (m == n)) [
    | inl e ↦
        ap (λ i. meaning gone k (g i)) (==_true e)
        ∙ low k h
        ∙ ap (λ i. meaning gone k (f i)) (sym (==_true e))
    | inr e ↦ ap (meaning gone k) (other m (λ q. cc (e, ==_eq q)))
  ])

  -- a symbol on top of a row, of the level `l`
  scopes_from-define :
      (l : ℕ)
      → meaning gone l (g n) ≡ some v
      → ((k : ℕ) → k < l → meaning gone k (g n) ≡ meaning gone k (f n))
      → scopes_from gone g l ≡ define n v (scopes_from gone f l)
  unfolding scopes_from define
  scopes_from-define zero top low = λ i. scope_at_define zero top i ∷ []
  scopes_from-define (suc l) top low =
      λ i. scope_at_define (suc l) top i ∷ outer_same l (λ k h. low k (omega arith)) i

innermost-scopes_from :
    (gone : Scope → Bool) (f : ℕ → List Symbol) (n l : ℕ)
    → innermost n (scopes_from gone f l) ≡ meaning gone l (f n)
unfolding innermost scopes_from scope_at
innermost-scopes_from gone f n zero = refl
innermost-scopes_from gone f n (suc l) = refl

pub innermost-env :
    {W : Type 0} (t n : ℕ) (s : Symbols W)
    → innermost n (env t s) ≡ meaning (stale s) s.level (row_at t s n)
unfolding env
innermost-env t n s = innermost-scopes_from (stale s) (row_at t s) n s.level

module _ {W : Type 0} (t : ℕ) (sym_new : Symbol) (s : Symbols W) (h : IsTable t s)
    (here : sym_new.scope.level ≡ s.level)
    (now : sym_new.scope.version ≡ s.current_version s.level) where
  abbrev pub key : ℕ
  key = sym_new.name

  not_stale : stale s sym_new.scope ≡ false
  unfolding stale short_lt
  not_stale = rw (here, now) (ground arith)

  meaning_new : (ks : List Symbol) → meaning (stale s) s.level (sym_new ∷ ks) ≡ some sym_new.var
  unfolding meaning
  meaning_new ks = rw (==_eq here, not_stale) refl

  meaning_lower :
      (ks : List Symbol) (k : ℕ)
      → k < s.level
      → meaning (stale s) k (sym_new ∷ ks) ≡ meaning (stale s) k ks
  unfolding meaning
  meaning_lower ks k lt = rw (==_ne (λ (q : sym_new.scope.level ≡ k). lt_ne lt (sym q ∙ here))) refl

  abbrev pub world' : W
  world' = shadowed (s.tables t).shadow sym_new.var (find key (env t s)) s.world

  -- The new symbol stands on what is left of its row.
  module _ (ks : List Symbol) (rs : List Row)
      (p : Put t key (sym_new ∷ ks) s (with_rows t key rs s)) (k : IsRow s.current_version key ks)
      (b : Below s.level ks)
      (e : (l : ℕ) → meaning (stale s) l ks ≡ meaning (stale s) l (row_at t s key)) where
    env_defined : env t (with_rows t key rs s) ≡ define key sym_new.var (env t s)
    unfolding env with_rows stale
    env_defined =
        scopes_from-define (stale s) (row_at t s) (row_at t (with_rows t key rs s)) key sym_new.var
          p.there s.level (ap (meaning (stale s) s.level) p.here ∙ meaning_new ks)
          (λ l lt. ap (meaning (stale s) l) p.here ∙ meaning_lower ks l lt ∙ e l)

    new-IsRow : IsRow s.current_version key (sym_new ∷ ks)
    new-IsRow = (
      refl,
      subst (λ l. sym_new.scope.version ≤ s.current_version l) (sym here) (omega (arith, now)),
      subst (λ l. Below l ks) (sym here) b,
      k,
    )

    pub defined : Defined t key sym_new.var s (record (with_rows t key rs s) { world = world' })
    unfolding with_rows env row_at rows_for stale
    defined =
        let x = with_rows-IsTable t key s h (sym_new ∷ ks) rs p new-IsRow in
        record {
          env_eq = env_defined;
          table = record { rows = x.rows; distinct = x.distinct };
          others = λ u ne. update_ne s.tables _ (λ q. ne (sym q));
          kind = ap (λ (x : SymbolTable W). x.kind) (update_self s.tables t _);
          level = refl;
          current_version = refl;
          world = refl;
        }
