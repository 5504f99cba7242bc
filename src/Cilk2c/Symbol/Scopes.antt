-- ===== src/Cilk2c/Symbol/Scopes.antt =====
-- What the symbol tables of cilk2c/symbol.c stand for: a stack of scopes, each a finite map.
use cilk.Common.{
  ℕ, zero, suc, ◌≡◌, ◌≤◌, ◌<◌, refl, ◌∙◌, ap, Bool, true, false, not, ◌&&◌, Option, none, some,
  List, [], ◌∷◌, ◌==◌, if◌then◌else◌, arith, Bool-cases, inl, inr,
}
use cilk.Cilk2c.Symbol.{Symbol, Scope, Symbols, stale, row_of, rows_for, drop_stale}

-- The abstract view: what each name means in each scope, the innermost scope first.
abbrev pub Env : Type 0
Env = List (ℕ → Option ℕ)

abbrev pub first : Option ℕ → Option ℕ → Option ℕ
first none o = o
first (some v) o = some v

first-none : (o : Option ℕ) → first o none ≡ o
first-none none = refl
first-none (some v) = refl

-- The meaning of a name: that of the innermost scope that has one.
unfoldable pub find : ℕ → Env → Option ℕ
find n [] = none
find n (e ∷ es) = first (e n) (find n es)

-- what the symbols of one name say for the level `l`, by a test of which scopes are left
unfoldable pub meaning : (Scope → Bool) → ℕ → List Symbol → Option ℕ
meaning gone l [] = none
meaning gone l (c ∷ cs) =
    if c.scope.level == l && not (gone c.scope) then some c.var else meaning gone l cs

module _ (gone : Scope → Bool) (rows : ℕ → List Symbol) where
  unfoldable pub scope_at : ℕ → ℕ → Option ℕ
  scope_at l n = meaning gone l (rows n)

  -- the scopes from the level `l` outwards
  unfoldable pub scopes_from : ℕ → Env
  scopes_from zero = scope_at zero ∷ []
  scopes_from (suc l) = scope_at (suc l) ∷ scopes_from l

module _ {W : Type 0} where
  unfoldable pub row_at : ℕ → Symbols W → ℕ → List Symbol
  row_at t s n = row_of n (rows_for t n s)

  -- The scopes that are open, as the table `t` knows them.
  unfoldable pub env : ℕ → Symbols W → Env
  env t s = scopes_from (stale s) (row_at t s) s.level

-- No symbol of the list is of the level `l` or deeper.
abbrev pub Below : ℕ → List Symbol → Type 0
Below l [] = Unit
Below l (c ∷ cs) = (c.scope.level < l) × Below l cs

-- The symbols of one name: each shadows symbols of outer levels, and none is of a later version than the
-- current one.
abbrev pub IsRow : (ℕ → ℕ) → ℕ → List Symbol → Type 0
IsRow version n [] = Unit
IsRow version n (c ∷ cs) =
    (c.name ≡ n)
    × (c.scope.version ≤ version c.scope.level)
    × Below c.scope.level cs
    × IsRow version n cs

pub Below-le : (k l : ℕ) (cs : List Symbol) → k ≤ l → Below k cs → Below l cs
Below-le k l [] h b = tt
Below-le k l (c ∷ cs) h b = (omega arith, Below-le k l cs h b.1)

module _ (gone : Scope → Bool) where
  pub meaning-Below : (l : ℕ) (cs : List Symbol) → Below l cs → meaning gone l cs ≡ none
  unfolding meaning
  meaning-Below l [] b = refl
  meaning-Below l (c ∷ cs) b = ground (arith, meaning-Below l cs)

  pub meaning_stale :
      (l : ℕ) (c : Symbol) (cs : List Symbol)
      → gone c.scope ≡ true
      → meaning gone l (c ∷ cs) ≡ meaning gone l cs
  unfolding meaning
  meaning_stale l c cs e = rw e (ground arith)

  -- what the scopes from the level `l` outwards say of one name
  pub find_from : ℕ → List Symbol → Option ℕ
  find_from zero cs = meaning gone zero cs
  find_from (suc l) cs = first (meaning gone (suc l) cs) (find_from l cs)

  find_from_nil : (l : ℕ) → find_from l [] ≡ none
  unfolding find_from meaning
  find_from_nil zero = refl
  find_from_nil (suc l) = find_from_nil l

  find_from_stale :
      (l : ℕ) (c : Symbol) (cs : List Symbol)
      → gone c.scope ≡ true
      → find_from l (c ∷ cs) ≡ find_from l cs
  unfolding find_from
  find_from_stale zero c cs e = meaning_stale zero c cs e
  find_from_stale (suc l) c cs e =
      λ i. first (meaning_stale (suc l) c cs e i) (find_from_stale l c cs e i)

  find_from_live :
      (l : ℕ) (c : Symbol) (cs : List Symbol)
      → gone c.scope ≡ false
      → c.scope.level ≤ l
      → Below c.scope.level cs
      → find_from l (c ∷ cs) ≡ some c.var
  unfolding find_from meaning
  find_from_live zero c cs e h b = rw e (ground arith)
  find_from_live (suc l) c cs e h b = elim (Bool-cases (c.scope.level == suc l)) [
    | inl q ↦ rw (e, q) refl
    | inr q ↦
        rw (e, q)
          (rw (meaning-Below (suc l) cs (Below-le c.scope.level (suc l) cs h b))
            (find_from_live l c cs e (ground arith) b))
  ]

-- the object that a row stands for
abbrev pub head_var : List Symbol → Option ℕ
head_var [] = none
head_var (c ∷ cs) = some c.var

module _ {W : Type 0} (s : Symbols W) where
  pub stale-level : (c : Scope) → stale s c ≡ false → c.level ≤ s.level
  unfolding stale
  stale-level c e = ground arith

  pub find-drop_stale :
      (version : ℕ → ℕ) (n : ℕ) (cs : List Symbol)
      → IsRow version n cs
      → find_from (stale s) s.level cs ≡ head_var (drop_stale s cs)
  unfolding drop_stale
  find-drop_stale version n [] h = find_from_nil (stale s) s.level
  find-drop_stale version n (c ∷ cs) h = elim (Bool-cases (stale s c.scope)) [
    | inl e ↦ rw e (find_from_stale (stale s) s.level c cs e ∙ find-drop_stale version n cs h.3)
    | inr e ↦ rw e (find_from_live (stale s) s.level c cs e (stale-level c.scope e) h.2)
  ]

module _ (gone : Scope → Bool) where
  pub find-scopes_from :
      (rows : ℕ → List Symbol) (n l : ℕ)
      → find n (scopes_from gone rows l) ≡ find_from gone l (rows n)
  unfolding find scopes_from scope_at find_from
  find-scopes_from rows n zero = first-none (meaning gone zero (rows n))
  find-scopes_from rows n (suc l) =
      ap (first (meaning gone (suc l) (rows n))) (find-scopes_from rows n l)
