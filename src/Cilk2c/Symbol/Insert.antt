-- ===== src/Cilk2c/Symbol/Insert.antt =====
-- InsertSymbol of cilk2c/symbol.c against the stack of scopes: the loop over the bucket.
use cilk.Common.{
  ℕ, ◌≡◌, ◌≢◌, ◌<◌, refl, sym, ◌∙◌, ap, subst, Bool, false, Option, none, some, List, [], ◌∷◌, ok,
  Returns, update, update_self, arith, Bool-cases, inl, inr, ==_ne, lt→ltb,
}
use cilk.Cilk2c.Symbol.{
  Symbol, Scope, Row, SymbolTable, Symbols, stale, rows_for, replace_row, drop_stale, hash,
  set_world, call_shadow, insert_over, insert_row,
}
use cilk.Cilk2c.Symbol.Scopes.{find, meaning, stale-level, row_at, env, Below-le, IsRow, head_var}
use cilk.Cilk2c.Symbol.Rows.{Put, with_rows, Put-with_rows, put_front, put_row}
use cilk.Cilk2c.Symbol.Lookup.{
  IsTable, drop_stale-IsRow, meaning-drop_stale, find-env, set_rows_lem,
}
use cilk.Cilk2c.Symbol.Define.{shadowed, shadowed-none, Defined, defined}

shadow_case :
    {W : Type 0} (o : Option (ℕ → ℕ → W → W)) (v d : ℕ) (x : Symbols W)
    → elim o [ none ↦ ok tt x | some f ↦ set_world (f v d x.world) x ]
      ≡ ok tt (record x { world = shadowed o v (some d) x.world })
unfolding set_world shadowed
shadow_case none v d x = refl
shadow_case (some f) v d x = refl

pub call_shadow_lem :
    {W : Type 0} (t n v d : ℕ) (rs : List Row) (s : Symbols W)
    → call_shadow t v d (with_rows t n rs s)
      ≡ ok tt
          (record (with_rows t n rs s) { world = shadowed (s.tables t).shadow v (some d) s.world })
unfolding call_shadow with_rows
call_shadow_lem t n v d rs s =
    shadow_case
      (update s.tables t (record (s.tables t) { table = update (s.tables t).table (hash n) rs })
        t).shadow
      v d (with_rows t n rs s)
    ∙ ap
        (λ (x : SymbolTable _).
          ok tt (record (with_rows t n rs s) { world = shadowed x.shadow v (some d) s.world }))
        (update_self s.tables t _)

abbrev head_stale : {W : Type 0} → Symbols W → List Symbol → Bool
head_stale s [] = false
head_stale s (c ∷ cs) = stale s c.scope

pub drop_stale-live :
    {W : Type 0} (s : Symbols W) (cs : List Symbol) (k : Symbol) (ks : List Symbol)
    → drop_stale s cs ≡ k ∷ ks
    → stale s k.scope ≡ false
unfolding drop_stale
drop_stale-live s [] k ks e = cc e
drop_stale-live s (c ∷ cs) k ks e = elim (Bool-cases (stale s c.scope)) [
  | inl g ↦ drop_stale-live s cs k ks (rw g at e)
  | inr g ↦ sym (ap (head_stale s) (rw g at e)) ∙ g
]

none_level :
    (gone : Scope → Bool) (l : ℕ) (c : Symbol) (cs : List Symbol)
    → gone c.scope ≡ false
    → meaning gone l (c ∷ cs) ≡ none
    → c.scope.level ≢ l
unfolding meaning
none_level gone l c cs e m = ground arith

module _ {W : Type 0} (t : ℕ) (x : Symbol) (s : Symbols W) (h : IsTable t s)
    (here : x.scope.level ≡ s.level) (now : x.scope.version ≡ s.current_version s.level)
    (fresh : meaning (stale s) s.level (row_at t s x.name) ≡ none) where
  -- nothing is shadowed
  alone :
      (rs : List Row)
      → Put t x.name (x ∷ []) s (with_rows t x.name rs s)
      → ((l : ℕ) → meaning (stale s) l [] ≡ meaning (stale s) l (row_at t s x.name))
      → find x.name (env t s) ≡ none
      → Defined t x.name x.var s (with_rows t x.name rs s)
  unfolding with_rows
  alone rs p e f =
      subst (λ w. Defined t x.name x.var s (record (with_rows t x.name rs s) { world = w }))
        (ap (λ o. shadowed (s.tables t).shadow x.var o s.world) f
          ∙ shadowed-none (s.tables t).shadow x.var s.world)
        (defined t x s h here now [] rs p tt tt e)

  module _ (c : Symbol) (cs ks : List Symbol) (q : row_at t s x.name ≡ c ∷ cs)
      (d : drop_stale s (c ∷ cs) ≡ ks) where
    pub left-IsRow : IsRow s.current_version x.name ks
    left-IsRow = subst (IsRow s.current_version x.name) d (
        drop_stale-IsRow s s.current_version x.name (c ∷ cs)
          (subst (IsRow s.current_version x.name) q (h.rows x.name)))

    pub left_meaning : (l : ℕ) → meaning (stale s) l ks ≡ meaning (stale s) l (row_at t s x.name)
    left_meaning l =
        ap (meaning (stale s) l) (sym d)
        ∙ meaning-drop_stale s l (c ∷ cs)
        ∙ ap (meaning (stale s) l) (sym q)

    left_find : find x.name (env t s) ≡ head_var ks
    left_find = find-env t x.name s h ∙ ap (λ r. head_var (drop_stale s r)) q ∙ ap head_var d

  over_none :
      (conflict : Option (ℕ → ℕ → W → W)) (c : Symbol) (cs : List Symbol)
      → row_at t s x.name ≡ c ∷ cs
      → drop_stale s (c ∷ cs) ≡ []
      → Returns
          (insert_over t x conflict (rows_for t x.name s) [] s)
          (λ r s'. (r ≡ x.var) × Defined t x.name x.var s s')
  unfolding insert_over rows_for row_at
  over_none conflict c cs q d =
      let rs = replace_row x.name ((x, []) ∷ []) (rows_for t x.name s) in
      rw (set_rows_lem t x.name s h rs) (
        refl,
        alone rs
            (Put-with_rows t x.name (x ∷ []) rs s h.distinct
              (put_row x.name (x, []) c cs (rows_for t x.name s) refl (h.distinct _) q))
            (left_meaning c cs [] q d) (left_find c cs [] q d),
      )

  over_some :
      (conflict : Option (ℕ → ℕ → W → W)) (c k : Symbol) (cs ks : List Symbol)
      → row_at t s x.name ≡ c ∷ cs
      → drop_stale s (c ∷ cs) ≡ k ∷ ks
      → Returns
          (insert_over t x conflict (rows_for t x.name s) (k ∷ ks) s)
          (λ r s'. (r ≡ x.var) × Defined t x.name x.var s s')
  unfolding insert_over rows_for row_at
  over_some conflict c k cs ks q d =
      let rs = replace_row x.name ((x, k ∷ ks) ∷ []) (rows_for t x.name s) in
      let live = drop_stale-live s (c ∷ cs) k ks d in
      let row = left-IsRow c cs (k ∷ ks) q d in
      let ne =
        none_level (stale s) s.level k ks live (left_meaning c cs (k ∷ ks) q d s.level ∙ fresh) in
      let le = stale-level s k.scope live in
      let lt : k.scope.level < s.level = ground (arith, ne) in
      rw (==_ne (λ (z : k.scope.level ≡ x.scope.level). ne (z ∙ here))) (
        rw (lt→ltb (subst (λ l. k.scope.level < l) (sym here) lt), set_rows_lem t x.name s h rs)
          (rw (call_shadow_lem t x.name x.var k.var rs s) (
            refl,
            subst
                (λ o. Defined t x.name x.var s (record (with_rows t x.name rs s) {
                  world = shadowed (s.tables t).shadow x.var o s.world;
                }))
                (left_find c cs (k ∷ ks) q d)
                (defined t x s h here now (k ∷ ks) rs
                  (Put-with_rows t x.name (x ∷ k ∷ ks) rs s h.distinct
                    (put_row x.name (x, k ∷ ks) c cs (rows_for t x.name s) refl (h.distinct _) q))
                  row (lt, Below-le k.scope.level s.level ks le row.2)
                  (left_meaning c cs (k ∷ ks) q d)),
          )))

  over_lem :
      (conflict : Option (ℕ → ℕ → W → W)) (c : Symbol) (cs ks : List Symbol)
      → row_at t s x.name ≡ c ∷ cs
      → drop_stale s (c ∷ cs) ≡ ks
      → Returns
          (insert_over t x conflict (rows_for t x.name s) ks s)
          (λ r s'. (r ≡ x.var) × Defined t x.name x.var s s')
  over_lem conflict c cs [] q d = over_none conflict c cs q d
  over_lem conflict c cs (k ∷ ks) q d = over_some conflict c k cs ks q d

  pub row_lem :
      (conflict : Option (ℕ → ℕ → W → W)) (cs : List Symbol)
      → row_at t s x.name ≡ cs
      → Returns
          (insert_row t x conflict (rows_for t x.name s) cs s)
          (λ r s'. (r ≡ x.var) × Defined t x.name x.var s s')
  unfolding insert_row rows_for row_at
  row_lem conflict [] q =
      let rs = (x, []) ∷ rows_for t x.name s in
      rw (set_rows_lem t x.name s h rs) (
        refl,
        alone rs
            (Put-with_rows t x.name (x ∷ []) rs s h.distinct
              (put_front x.name (x, []) (rows_for t x.name s) refl (h.distinct _) q))
            (λ l. ap (meaning (stale s) l) (sym q))
            (find-env t x.name s h
              ∙ ap (λ r. head_var (drop_stale s r)) q
              ∙ (unfold drop_stale in refl)),
      )
  row_lem conflict (c ∷ cs) q = over_lem conflict c cs (drop_stale s (c ∷ cs)) q refl
