-- ===== src/Cilk2c/Symbol/Iterate.antt =====
-- IterateSymbolTable and NextInSymbolTable of cilk2c/symbol.c.
use cilk.Common.{
  ℕ, zero, suc, ◌+◌, ◌-◌, ◌≡◌, ◌≤◌, ◌<◌, ◌⊎◌, subst, refl, sym, ◌∙◌, ap, Option, none, some, List,
  [], ◌∷◌, ◌++◌, map, length, arith, inl, inr, ==_eq, ==_ne,
}
use cilk.Cilk2c.Symbol.{table_size, Row, SymbolTable}
use cilk.Cilk2c.Symbol.Marker.{
  or_later, SymbolTableMarker, scan, rest, move_on, iterate_symbol_table, current,
  next_in_symbol_table,
}

-- the rows of the `k` buckets from `i` on
unfoldable pub rows_from : ℕ → ℕ → (ℕ → List Row) → List Row
rows_from zero i table = []
rows_from (suc k) i table = table i ++ rows_from k (i + 1) table

-- one call's result, before those of the later calls
abbrev pub before : Option (ℕ × ℕ) → Option (List (ℕ × ℕ)) → Option (List (ℕ × ℕ))
before none later = some []
before (some e) none = none
before (some e) (some es) = some (e ∷ es)

-- the loop of a client: `while (NextInSymbolTable(&marker, &name, &var)) ...`
pub collect : ℕ → SymbolTableMarker → Option (List (ℕ × ℕ))
collect zero m = none
collect (suc fuel) m =
    let n = next_in_symbol_table m in let later = collect fuel n.1 in before n.0 later

abbrev pub entry : Row → ℕ × ℕ
entry r = (r.0.name, r.0.var)

-- what the iteration has still to give
unfoldable remaining : SymbolTableMarker → List Row
remaining m = rest m.chain ++ rows_from (table_size - m.started) m.started m.table

-- A place: within the table at a row, or past its end.
abbrev IsPlace : ℕ × List Row → Type 0
IsPlace (i, []) = i ≡ table_size + 1
IsPlace (i, r ∷ rs) = i ≤ table_size

abbrev to_come : (ℕ → List Row) → ℕ × List Row → List Row
to_come table n = n.1 ++ rows_from (table_size - n.0) n.0 table

or_later_lem :
    (table : ℕ → List Row) (k i : ℕ) (xs : List Row) (later : ℕ × List Row)
    → i + suc k ≡ table_size
    → (to_come table later ≡ rows_from k (i + 1) table) × IsPlace later
    → (to_come table (or_later xs i later) ≡ xs ++ rows_from k (i + 1) table)
      × IsPlace (or_later xs i later)
or_later_lem table k i [] later e h = h
or_later_lem table k i (r ∷ rs) later e h =
    let q : table_size - (i + 1) ≡ k = omega arith in
    (ap (λ n. (r ∷ rs) ++ rows_from n (i + 1) table) q, omega arith)

scan_lem :
    (k i : ℕ) (table : ℕ → List Row)
    → i + k ≡ table_size
    → (to_come table (scan k i table) ≡ rows_from k i table) × IsPlace (scan k i table)
unfolding scan rows_from
scan_lem zero i table e = (refl, refl)
scan_lem (suc k) i table e =
    or_later_lem table k i (table i) (scan k (i + 1) table) e
      (scan_lem k (i + 1) table (omega arith))

place : SymbolTableMarker → ℕ × List Row
place m = (m.started, m.chain)

move_on_lem :
    (m : SymbolTableMarker) (xs : List Row)
    → m.started ≤ table_size
    → let n = place (move_on m xs) in
      (to_come m.table n ≡ xs ++ rows_from (table_size - m.started) m.started m.table) × IsPlace n
unfolding move_on place
move_on_lem m [] h = scan_lem (table_size - m.started) m.started m.table (omega arith)
move_on_lem m (r ∷ rs) h = (refl, h)

move_on-table : (m : SymbolTableMarker) (xs : List Row) → (move_on m xs).table ≡ m.table
unfolding move_on
move_on-table m [] = refl
move_on-table m (r ∷ rs) = refl

-- A marker in use: before its first row, at a row or past the end.
abbrev IsValid : SymbolTableMarker → Type 0
IsValid m = (m.started ≤ table_size) ⊎ ((m.started ≡ table_size + 1) × (m.chain ≡ []))

place-IsValid :
    (m : SymbolTableMarker) (xs : List Row) → xs ≡ m.chain → IsPlace (m.started, xs) → IsValid m
place-IsValid m [] e h = inr (h, sym e)
place-IsValid m (r ∷ rs) e h = inl h

-- what a call says, and what is left then
Given : SymbolTableMarker → Type 0
Given m =
    (((next_in_symbol_table m).0 ≡ none) × (remaining m ≡ []))
    ⊎ ((r : Row) × ((next_in_symbol_table m).0 ≡ some (entry r))
        × (remaining m ≡ r ∷ remaining (next_in_symbol_table m).1)
        × IsValid (next_in_symbol_table m).1)

Given-at :
    (m m' : SymbolTableMarker) (xs : List Row)
    → next_in_symbol_table m ≡ (current xs, m')
    → xs ≡ m'.chain
    → m'.table ≡ m.table
    → to_come m.table (m'.started, xs) ≡ remaining m
    → IsPlace (m'.started, xs)
    → Given m
unfolding Given current remaining rest
Given-at m m' [] n e g q h = inl (
  ap (λ p. p.0) n,
  sym q ∙ ap (λ i. rows_from (table_size - i) i m.table) h ∙ (unfold rows_from in refl),
)
Given-at m m' (r ∷ rs) n e g q h = inr (
  r,
  ap (λ p. p.0) n,
  sym q
      ∙ (λ i. r ∷ (rest (e i) ++ rows_from (table_size - m'.started) m'.started (sym g i)))
      ∙ ap (λ x. r ∷ remaining x) (sym (ap (λ p. p.1) n)),
  subst IsValid (sym (ap (λ p. p.1) n)) (place-IsValid m' (r ∷ rs) e h),
)

next_inside :
    (m : SymbolTableMarker)
    → m.started ≤ table_size
    → let m' = move_on m (rest m.chain) in next_in_symbol_table m ≡ (current m'.chain, m')
unfolding next_in_symbol_table
next_inside m h = rw (==_ne {a = m.started} {b = 17} (omega arith)) refl

next_outside : (m : SymbolTableMarker) → m.started ≡ table_size + 1 → m.chain ≡ [] → Given m
unfolding Given next_in_symbol_table remaining
next_outside m h e = inl (
  rw (==_eq h) refl,
  (λ i. rest (e i) ++ rows_from (table_size - h i) (h i) m.table) ∙ (unfold rest rows_from in refl),
)

given : (m : SymbolTableMarker) → IsValid m → Given m
given m (inl h) =
    let m' = move_on m (rest m.chain) in
    let l = move_on_lem m (rest m.chain) h in
    Given-at m m' m'.chain (next_inside m h) refl (move_on-table m (rest m.chain))
      (unfold place remaining in l.0) (unfold place in l.1)
given m (inr h) = next_outside m h.0 h.1

collect_lem :
    (fuel : ℕ) (m : SymbolTableMarker)
    → IsValid m
    → length (remaining m) < fuel
    → collect fuel m ≡ some (map entry (remaining m))
unfolding collect Given
collect_lem zero m v h = absurd (omega arith)
collect_lem (suc fuel) m v h = elim (given m v) [
  | inl (e, q) ↦ rw (e, q) refl
  | inr (r, e, q, v') ↦
      let l = ap length q in
      let ih = collect_lem fuel (next_in_symbol_table m).1 v' (omega arith) in
      rw e (rw (ih, q) refl)
]

-- NextInSymbolTable from the start gives the name and the object at the top of every row, bucket by
-- bucket, each once, and then FALSE: the loop of a client ends, after one call more than there are rows.
pub collect-iterate :
    {W : Type 0} (t : SymbolTable W) (fuel : ℕ)
    → length (rows_from table_size 0 t.table) < fuel
    → collect fuel (iterate_symbol_table t) ≡ some (map entry (rows_from table_size 0 t.table))
unfolding iterate_symbol_table
collect-iterate t fuel h =
    let m = iterate_symbol_table t in
    let e : remaining m ≡ rows_from table_size 0 t.table = unfold remaining rest in refl in
    let l = ap length e in
    collect_lem fuel m (inl (omega arith)) (omega arith) ∙ ap (λ rs. some (map entry rs)) e
