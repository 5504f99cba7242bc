-- ===== src/Cilk2c/Symbol/Tests.antt =====
-- The symbol tables of cilk2c/symbol.c at concrete inputs: in the scope of level 1 the name 100 stands
-- for the object 8, which shadows 7. The world is the list of the calls of the conflict procedure.
use cilk.Common.{
  ℕ, ◌≡◌, refl, none, some, List, [], ◌∷◌, ◌==◌, if◌then◌else◌, Returns, Bool-cases, inl, inr,
  arith, map, subst, ==_true, length,
}
use cilk.Cilk2c.Symbol.{
  TableType, Symbol, Row, Symbols, hash, row_of, rows_for, stale, short_lt, enter_scope,
  insert_symbol, table_size,
}
use cilk.Cilk2c.Symbol.Marker.{iterate_symbol_table}
use cilk.Cilk2c.Symbol.Scopes.{IsRow, row_at, env, find, scopes_from, scope_at, meaning}
use cilk.Cilk2c.Symbol.Lookup.{IsTable}
use cilk.Cilk2c.Symbol.Define.{innermost, define, Defined}
use cilk.Cilk2c.Symbol.Declare.{insert_symbol-defines}
use cilk.Cilk2c.Symbol.Wrap.{enter_scope-wraps}
use cilk.Cilk2c.Symbol.Trace.{
  Op, Room, perform_all, answer, after, close, declared, answers, perform_all-answers,
}
use cilk.Cilk2c.Symbol.Iterate.{rows_from, collect, entry, collect-iterate}

abbrev symbol_at : ℕ → ℕ → ℕ → ℕ → Symbol
symbol_at n v l k = record { name = n; var = v; scope = record { level = l; version = k } }

abbrev World : Type 0
World = List (ℕ × ℕ)

abbrev clash : ℕ → ℕ → World → World
clash old v w = (old, v) ∷ w

-- the table with the rows `rs` in the bucket of 100
abbrev state : List Row → ℕ → ℕ → Symbols World
state rs level version = record {
  level = level;
  current_version = λ l. if l == 0 then 0 else version;
  tables = λ t. record {
    kind = TableType.nested;
    table = λ b. if b == 9 then rs else [];
    scopes = λ l. [];
    shadow = none;
    exitscope = none;
  };
  table_list = 0 ∷ [];
  syntax_errors = 0;
  world = [];
}

abbrev inner : List Row
inner = (symbol_at 100 8 1 3, symbol_at 100 7 0 0 ∷ []) ∷ []

abbrev nested_state : Symbols World
nested_state = state inner 1 3

one-IsRow :
    (x : Symbol) (xs : List Symbol) (version : ℕ → ℕ) (n : ℕ)
    → IsRow version x.name (x ∷ xs)
    → IsRow version n (row_of n ((x, xs) ∷ []))
unfolding row_of
one-IsRow x xs version n h = elim (Bool-cases (x.name == n)) [
  | inl e ↦ rw e (subst (λ m. IsRow version m (x ∷ xs)) (==_true e) h)
  | inr e ↦ rw e tt
]

state-IsTable :
    (x : Symbol) (xs : List Symbol) (level version : ℕ)
    → IsRow (state [] level version).current_version x.name (x ∷ xs)
    → IsTable 0 (state ((x, xs) ∷ []) level version)
unfolding row_at rows_for
state-IsTable x xs level version h = record {
  rows = λ n. elim (Bool-cases (hash n == 9)) [
    | inl e ↦ rw e (one-IsRow x xs (state [] level version).current_version n h)
    | inr e ↦ rw e (unfold row_of in tt)
  ];
  distinct = λ b. elim (Bool-cases (b == 9)) [
    | inl e ↦ rw e (unfold row_of in (refl, tt))
    | inr e ↦ rw e tt
  ];
}

nested_state-IsTable : IsTable 0 nested_state
nested_state-IsTable =
    state-IsTable (symbol_at 100 8 1 3) (symbol_at 100 7 0 0 ∷ []) 1 3
      (refl, omega arith, (omega arith, tt), (refl, omega arith, tt, tt))

insert_symbol-defines_example :
    Returns
      (insert_symbol 0 200 9 (some clash) nested_state)
      (λ r s'. (r ≡ 9) × Defined 0 200 9 nested_state s')
unfolding innermost env scopes_from scope_at meaning row_at row_of rows_for hash
insert_symbol-defines_example =
    insert_symbol-defines 0 nested_state nested_state-IsTable 200 9 (some clash) refl refl

-- the last of 32767 scopes of level 1 has been left
abbrev full : Symbols World
full = state ((symbol_at 100 8 1 32767, []) ∷ []) 0 32767

full-IsTable : IsTable 0 full
full-IsTable = state-IsTable (symbol_at 100 8 1 32767) [] 0 32767 (refl, omega arith, tt, tt)

enter_scope-wraps_example : Returns (enter_scope full) (λ u s'. find 100 (env 0 s') ≡ some 8)
unfolding row_at row_of rows_for hash
enter_scope-wraps_example =
    enter_scope-wraps 0 100 full (symbol_at 100 8 1 32767) [] refl refl (omega arith) refl
      full-IsTable (omega arith)

-- a scope is left, another one opened, and both names are declared anew
abbrev script : List Op
script =
    Op.look 100
    ∷ Op.exit
    ∷ Op.enter
    ∷ Op.look 100
    ∷ Op.declare 100 9
    ∷ Op.declare 100 10
    ∷ Op.look 100
    ∷ []

script-Room : Room 0 (length script) nested_state
script-Room = record {
  table = nested_state-IsTable;
  kind = refl;
  depth = omega arith;
  versions = λ l. ground arith;
}

perform_all-answers_example :
    Returns
      (perform_all 0 clash script nested_state)
      (λ rs s'. rs ≡ answers script (env 0 nested_state))
perform_all-answers_example = perform_all-answers 0 clash script nested_state script-Room

answers-script :
    answers script (env 0 nested_state)
    ≡ some 8 ∷ none ∷ none ∷ some 7 ∷ some 9 ∷ some 9 ∷ some 9 ∷ []
unfolding answers answer after close declared define innermost find env scopes_from scope_at meaning
    row_at row_of rows_for hash stale short_lt
answers-script = refl

collect-iterate_example :
    collect 5 (iterate_symbol_table (nested_state.tables 0))
    ≡ some (map entry (rows_from table_size 0 (nested_state.tables 0).table))
unfolding rows_from
collect-iterate_example = collect-iterate (nested_state.tables 0) 5 (omega arith)
