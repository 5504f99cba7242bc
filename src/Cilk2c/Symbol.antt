-- ===== src/Cilk2c/Symbol.antt =====
-- The symbol tables of cilk2c/symbol.c: hashed chains of names with shadowing and lazy removal.
pub mod Scopes
pub mod Rows
pub mod Lookup
pub mod Define
pub mod Insert
pub mod Declare
pub mod Clash
pub mod Nesting
pub mod Leaving
pub mod Wrap
pub mod Trace
pub mod Marker
pub mod Iterate
pub mod Tests
use cilk.Common.{
  ℕ, zero, suc, ◌+◌, ◌-◌, ◌/◌, ◌%◌, ◌^◌, Bool, true, false, not, ◌&&◌, ◌||◌, Option, none, some,
  List, [], ◌∷◌, ◌++◌, ◌==◌, ltb, if◌then◌else◌, update, Cmd, ok, fail, assertion, check, pure,
  ◌>>=◌, ◌>>◌,
}

pub data TableType : Type 0 where
  nested flat : TableType

abbrev pub max_scope_depth : ℕ
max_scope_depth = 100

abbrev pub table_size : ℕ
table_size = 16

-- `version` is the bit pattern of a short; a level is at most `max_scope_depth`
pub record Scope : Type 0 where
  pub level : ℕ
  pub version : ℕ

-- A name is the address of its only copy, and `var` that of the object it stands for.
pub record Symbol : Type 0 where
  pub name : ℕ
  pub var : ℕ
  pub scope : Scope

-- A symbol of a chain, with the symbols that it shadows, the innermost first.
abbrev pub Row : Type 0
Row = Symbol × List Symbol

-- `W` is the state that the callbacks change. `scopes` lists the objects of each level.
pub record SymbolTable (W : Type 0) : Type 0 where
  pub kind : TableType
  pub table : ℕ → List Row
  pub scopes : ℕ → List ℕ
  pub shadow : Option (ℕ → ℕ → W → W)
  pub exitscope : Option (ℕ → W → W)

-- The variables of the file, the tables behind their pointers, and the errors that were reported.
pub record Symbols (W : Type 0) : Type 0 where
  pub level : ℕ
  pub current_version : ℕ → ℕ
  pub tables : ℕ → SymbolTable W
  pub table_list : List ℕ
  pub syntax_errors : ℕ
  pub world : W

pub hash : ℕ → ℕ
hash name = name / 4 % table_size

-- `a < b` on shorts, by their bit patterns
pub short_lt : ℕ → ℕ → Bool
short_lt a b = ltb ((a + 2 ^ 15) % 2 ^ 16) ((b + 2 ^ 15) % 2 ^ 16)

-- The symbols of the first row for the name.
pub row_of : ℕ → List Row → List Symbol
row_of name [] = []
row_of name (r ∷ rs) = if r.0.name == name then r.0 ∷ r.1 else row_of name rs

-- The first row for the name is replaced.
pub replace_row : ℕ → List Row → List Row → List Row
replace_row name new [] = []
replace_row name new (r ∷ rs) = if r.0.name == name then new ++ rs else r ∷ replace_row name new rs

-- the objects of the symbols at the head of each row
heads : List Row → List ℕ
heads [] = []
heads (r ∷ rs) = r.0.var ∷ heads rs

module _ {W : Type 0} where
  pub stale : Symbols W → Scope → Bool
  stale s c = ltb s.level c.level || short_lt c.version (s.current_version c.level)

  new_symbol_table : TableType → Option (ℕ → ℕ → W → W) → Option (ℕ → W → W) → SymbolTable W
  new_symbol_table kind shadow exitscope = record {
    kind = kind;
    table = λ b. [];
    scopes = λ l. [];
    shadow = shadow;
    exitscope = exitscope;
  }

  -- the exit procedure of a table, for each object of a list
  pub notify : Option (ℕ → W → W) → List ℕ → W → W
  notify none vars w = w
  notify (some f) [] w = w
  notify (some f) (v ∷ vars) w = notify (some f) vars (f v w)

  pub set_table : ℕ → SymbolTable W → Cmd (Symbols W) (Unit {0})
  set_table t x s = ok tt (record s { tables = update s.tables t x })

  pub set_world : W → Cmd (Symbols W) (Unit {0})
  set_world w s = ok tt (record s { world = w })

  pub enter_scope : Cmd (Symbols W) (Unit {0})
  enter_scope s =
      let l = s.level + 1 in
      if l == max_scope_depth
      then fail assertion s
      else ok tt (record s {
        level = l;
        current_version = update s.current_version l ((s.current_version l + 1) % 2 ^ 16);
      })

  -- One table: its objects of this level are dead.
  pub leave_table : ℕ → ℕ → Symbols W → Symbols W
  leave_table level t s =
      let x = s.tables t in
      elim x.exitscope [
        | none ↦ s
        | some f ↦ record s {
          tables = update s.tables t (record x { scopes = update x.scopes level [] });
          world = notify (some f) (x.scopes level) s.world;
        }
      ]

  pub leave_tables : ℕ → List ℕ → Symbols W → Symbols W
  leave_tables level [] s = s
  leave_tables level (t ∷ ts) s = leave_tables level ts (leave_table level t s)

  pub exit_scope : Cmd (Symbols W) (Unit {0})
  exit_scope s =
      if s.level == 0
      then ok tt (record s { syntax_errors = s.syntax_errors + 1 })
      else ok tt (record (leave_tables s.level s.table_list s) { level = s.level - 1 })

  -- the stale symbols at the top of a row are freed
  pub drop_stale : Symbols W → List Symbol → List Symbol
  drop_stale s [] = []
  drop_stale s (c ∷ cs) = if stale s c.scope then drop_stale s cs else c ∷ cs

  -- where the table keeps a symbol that is inserted now
  pub scope_of : TableType → Symbols W → Scope
  scope_of TableType.nested s = record { level = s.level; version = s.current_version s.level }
  scope_of TableType.flat s = record { level = 0; version = 0 }

  pub rows_for : ℕ → ℕ → Symbols W → List Row
  rows_for t name s = (s.tables t).table (hash name)

  pub set_rows : ℕ → ℕ → List Row → Cmd (Symbols W) (Unit {0})
  set_rows t name rows s =
      let x = s.tables t in set_table t (record x { table = update x.table (hash name) rows }) s

  -- the list of the objects of a level, which only a table with an exit procedure keeps
  pub list_in_scope : ℕ → ℕ → ℕ → Cmd (Symbols W) (Unit {0})
  list_in_scope t level var s =
      let x = s.tables t in
      elim x.exitscope [
        | none ↦ ok tt s
        | some f ↦
            set_table t (record x { scopes = update x.scopes level (var ∷ x.scopes level) }) s
      ]

  pub call_conflict : Option (ℕ → ℕ → W → W) → ℕ → ℕ → Cmd (Symbols W) (Unit {0})
  call_conflict none orig create s = fail assertion s
  call_conflict (some f) orig create s = set_world (f orig create s.world) s

  pub call_shadow : ℕ → ℕ → ℕ → Cmd (Symbols W) (Unit {0})
  call_shadow t create shadowed s = elim (s.tables t).shadow [
    | none ↦ ok tt s
    | some f ↦ set_world (f create shadowed s.world) s
  ]

  -- The name has a row, of which the symbols `live` are left.
  pub insert_over : ℕ → Symbol → Option (ℕ → ℕ → W → W) → List Row → List Symbol → Cmd (Symbols W) ℕ
  insert_over t sym conflict rows [] = do
    set_rows t sym.name (replace_row sym.name ((sym, []) ∷ []) rows)
    pure sym.var
  insert_over t sym conflict rows (c ∷ cs) =
      if c.scope.level == sym.scope.level
      then (do
        set_rows t sym.name (replace_row sym.name ((c, cs) ∷ []) rows)
        call_conflict conflict c.var sym.var
        pure c.var)
      else (do
        check (ltb c.scope.level sym.scope.level)
        set_rows t sym.name (replace_row sym.name ((sym, c ∷ cs) ∷ []) rows)
        call_shadow t sym.var c.var
        pure sym.var)

  pub insert_row : ℕ → Symbol → Option (ℕ → ℕ → W → W) → List Row → List Symbol → Cmd (Symbols W) ℕ
  insert_row t sym conflict rows [] s = (do set_rows t sym.name ((sym, []) ∷ rows); pure sym.var) s
  insert_row t sym conflict rows (c ∷ cs) s =
      insert_over t sym conflict rows (drop_stale s (c ∷ cs)) s

  pub insert_symbol : ℕ → ℕ → ℕ → Option (ℕ → ℕ → W → W) → Cmd (Symbols W) ℕ
  insert_symbol t name var conflict s =
      let c = scope_of (s.tables t).kind s in
      let rows = rows_for t name s in
      (do
        list_in_scope t c.level var
        insert_row t (record { name = name; var = var; scope = c }) conflict rows
            (row_of name rows))
        s

  -- what is left of the row is put back
  pub put_back : ℕ → ℕ → List Row → List Symbol → Cmd (Symbols W) (Option ℕ)
  put_back t name rows [] = do set_rows t name (replace_row name [] rows); pure none
  put_back t name rows (c ∷ cs) = do
    set_rows t name (replace_row name ((c, cs) ∷ []) rows)
    pure (some c.var)

  pub lookup_row : ℕ → ℕ → List Row → List Symbol → Cmd (Symbols W) (Option ℕ)
  lookup_row t name rows [] s = ok none s
  lookup_row t name rows (c ∷ cs) s = put_back t name rows (drop_stale s (c ∷ cs)) s

  -- `none` for FALSE
  pub lookup_symbol : ℕ → ℕ → Cmd (Symbols W) (Option ℕ)
  lookup_symbol t name s =
      let rows = rows_for t name s in lookup_row t name rows (row_of name rows) s

  -- The symbol at the top of the row goes one level up.
  move_row : ℕ → ℕ → List Row → List Symbol → Cmd (Symbols W) (Unit {0})
  move_row t name rows [] s = fail assertion s
  move_row t name rows (c ∷ cs) s =
      let up : Scope = record { level = s.level - 1; version = s.current_version (s.level - 1) } in
      (do
        check (c.scope.level == s.level)
        check (c.scope.version == s.current_version s.level)
        set_rows t name (replace_row name ((record c { scope = up }, cs) ∷ []) rows))
        s

  move_to_outer_scope : ℕ → ℕ → Cmd (Symbols W) (Unit {0})
  move_to_outer_scope t name s =
      let rows = rows_for t name s in
      (do check (ltb 0 s.level); move_row t name rows (row_of name rows)) s

  -- the buckets below `n`, from the first one
  reset_buckets : Option (ℕ → W → W) → (ℕ → List Row) → ℕ → W → W
  reset_buckets f table zero w = w
  reset_buckets f table (suc n) w = notify f (heads (table n)) (reset_buckets f table n w)

  reset_symbol_table : ℕ → Cmd (Symbols W) (Unit {0})
  reset_symbol_table t s =
      let x = s.tables t in
      (do
        set_table t (record x { table = λ b. if ltb b table_size then [] else x.table b })
        set_world (reset_buckets x.exitscope x.table table_size s.world))
        s
