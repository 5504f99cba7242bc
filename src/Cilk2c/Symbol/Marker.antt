-- ===== src/Cilk2c/Symbol/Marker.antt =====
-- The iteration over a symbol table (cilk2c/symbol.c): IterateSymbolTable and NextInSymbolTable.
use cilk.Common.{ℕ, zero, suc, ◌+◌, ◌-◌, ◌==◌, Option, none, some, List, [], ◌∷◌, if◌then◌else◌}
use cilk.Cilk2c.Symbol.{table_size, Row, SymbolTable}

-- The place of an iteration: `started` buckets have been begun, one more than the counter of the code,
-- and `chain` starts with the row that was given last.
pub record SymbolTableMarker : Type 0 where
  pub table : ℕ → List Row
  pub started : ℕ
  pub chain : List Row

-- the bucket `i`, unless it has no row
abbrev pub or_later : List Row → ℕ → ℕ × List Row → ℕ × List Row
or_later [] i later = later
or_later (r ∷ rs) i later = (i + 1, r ∷ rs)

-- the first bucket with a row, among the `k` ones from `i` on
unfoldable pub scan : ℕ → ℕ → (ℕ → List Row) → ℕ × List Row
scan zero i table = (table_size + 1, [])
scan (suc k) i table = or_later (table i) i (scan k (i + 1) table)

unfoldable pub rest : List Row → List Row
rest [] = []
rest (r ∷ rs) = rs

unfoldable pub move_on : SymbolTableMarker → List Row → SymbolTableMarker
move_on m (r ∷ rs) = record m { chain = r ∷ rs }
move_on m [] =
    let n = scan (table_size - m.started) m.started m.table in
    record m { started = n.0; chain = n.1 }

unfoldable pub iterate_symbol_table : {W : Type 0} → SymbolTable W → SymbolTableMarker
iterate_symbol_table t = record { table = t.table; started = 0; chain = [] }

-- the name and the object of the row, `none` for FALSE
unfoldable pub current : List Row → Option (ℕ × ℕ)
current [] = none
current (r ∷ rs) = some (r.0.name, r.0.var)

unfoldable pub next_in_symbol_table : SymbolTableMarker → Option (ℕ × ℕ) × SymbolTableMarker
next_in_symbol_table m =
    let m' = move_on m (rest m.chain) in
    if m.started == table_size + 1 then (none, m) else (current m'.chain, m')
