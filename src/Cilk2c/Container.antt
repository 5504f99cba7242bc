-- ===== src/Cilk2c/Container.antt =====
-- The loops and switches that are open while a function is parsed: cilk2c/container.c. A node is a number
-- with a type; the lists of nodes are sequences.
pub mod Containees
pub mod Attach
pub mod Pop
pub mod Tests
use cilk.Common.{
  ℕ, zero, suc, ◌+◌, Bool, true, false, not, Option, some, none, List, [], ◌∷◌, ◌++◌, length, ◌==◌,
  if◌then◌else◌, update, Cmd, Run, ok, pure, fail, fault, null_deref, assertion, check, ◌>>=◌, ◌>>◌,
}

pub data NodeType : Type 0 where
  switch_node while_node do_node for_node : NodeType
  break_node continue_node case_node default_node other_node : NodeType

pub record Container : Type 0 where
  pub typ : NodeType
  pub cases : List ℕ
  pub exits : List ℕ

-- The stack, its top first, and the fields of the nodes that are set.
pub record Containers : Type 0 where
  pub stack : List Container
  pub container : ℕ → ℕ
  pub has_default : ℕ → Bool
  pub switch_cases : ℕ → List ℕ
  pub syntax_errors : ℕ

abbrev pub is_switch : NodeType → Bool
is_switch switch_node = true
is_switch while_node = false
is_switch do_node = false
is_switch for_node = false
is_switch break_node = false
is_switch continue_node = false
is_switch case_node = false
is_switch default_node = false
is_switch other_node = false

abbrev pub type_code : NodeType → ℕ
type_code switch_node = 0
type_code while_node = 1
type_code do_node = 2
type_code for_node = 3
type_code break_node = 4
type_code continue_node = 5
type_code case_node = 6
type_code default_node = 7
type_code other_node = 8

-- `depth` is MAX_SCOPE_DEPTH: a push beyond it writes outside of the array
pub push_container : ℕ → NodeType → Cmd Containers (Unit {0})
push_container depth typ s =
    if length s.stack == depth
    then fault null_deref
    else ok tt (record s { stack = record { typ = typ; cases = []; exits = [] } ∷ s.stack })

abbrev pub set_container : ℕ → ℕ → Containers → Containers
set_container c n s = record s { container = update s.container c n }

abbrev pub option_map : {A B : Type 0} → (A → B) → Option A → Option B
option_map f none = none
option_map f (some a) = some (f a)

module _ (type_of : ℕ → NodeType) where
  pub exit_one : NodeType → NodeType → ℕ → ℕ → Cmd Containers (Unit {0})
  exit_one t break_node n c s = ok tt (set_container c n s)
  exit_one t continue_node n c s =
      if is_switch t then fault assertion else ok tt (set_container c n s)
  exit_one t u n c s = fault assertion

  pub exit_all : NodeType → ℕ → List ℕ → Cmd Containers (Unit {0})
  exit_all t n [] = pure tt
  exit_all t n (c ∷ cs) = exit_one t (type_of c) n c >> exit_all t n cs

  pub case_one : NodeType → NodeType → ℕ → ℕ → Cmd Containers (Unit {0})
  case_one t case_node n c s = if is_switch t then ok tt (set_container c n s) else fault assertion
  case_one t default_node n c s =
      if is_switch t
      then ok tt (record (set_container c n s) { has_default = update s.has_default n true })
      else fault assertion
  case_one t u n c s = fault assertion

  pub case_all : NodeType → ℕ → List ℕ → Cmd Containers (Unit {0})
  case_all t n [] = pure tt
  case_all t n (c ∷ cs) = case_one t (type_of c) n c >> case_all t n cs

  pub store_cases : NodeType → ℕ → List ℕ → Cmd Containers (Unit {0})
  store_cases t n cs s =
      ok tt (if is_switch t then record s { switch_cases = update s.switch_cases n cs } else s)

  abbrev drop_top : List Container → Cmd Containers (Unit {0})
  drop_top rest s = ok tt (record s { stack = rest })

  pub pop_top : Container → List Container → ℕ → Cmd Containers ℕ
  pop_top top rest n = do
    check (type_code (type_of n) == type_code top.typ)
    exit_all (type_of n) n top.exits
    case_all (type_of n) n top.cases
    store_cases (type_of n) n top.cases
    drop_top rest
    pure n

  -- with no container open `top` is NULL
  abbrev pop_of : List Container → ℕ → Cmd Containers ℕ
  pop_of [] n s = fault null_deref
  pop_of (top ∷ rest) n s = pop_top top rest n s

  pub pop_container : ℕ → Cmd Containers ℕ
  pop_container n s = pop_of s.stack n s

  abbrev syntax_error : Containers → Containers
  syntax_error s = record s { syntax_errors = s.syntax_errors + 1 }

  -- the innermost switch takes the case
  pub add_case : ℕ → List Container → Option (List Container)
  add_case c [] = none
  add_case c (top ∷ rest) =
      let later = add_case c rest in
      if is_switch top.typ
      then some (record top { cases = top.cases ++ (c ∷ []) } ∷ rest)
      else option_map (λ l. top ∷ l) later

  -- the innermost container that is no switch takes the exit
  pub add_exit : ℕ → List Container → Option (List Container)
  add_exit c [] = none
  add_exit c (top ∷ rest) =
      let later = add_exit c rest in
      if is_switch top.typ
      then option_map (λ l. top ∷ l) later
      else some (record top { exits = top.exits ++ (c ∷ []) } ∷ rest)

  pub add_break : ℕ → List Container → Option (List Container)
  add_break c [] = none
  add_break c (top ∷ rest) = some (record top { exits = top.exits ++ (c ∷ []) } ∷ rest)

  -- with the new stack, or with a syntax error
  pub or_error : Option (List Container) → Containers → Containers
  or_error (some l) s = record s { stack = l }
  or_error none s = syntax_error s

  pub add_typed : NodeType → ℕ → Cmd Containers ℕ
  add_typed case_node c s = ok c (or_error (add_case c s.stack) s)
  add_typed default_node c s = ok c (or_error (add_case c s.stack) s)
  add_typed break_node c s = ok c (or_error (add_break c s.stack) s)
  add_typed continue_node c s = ok c (or_error (add_exit c s.stack) s)
  add_typed t c s = fault assertion

  pub add_containee : ℕ → Cmd Containers ℕ
  add_containee c = add_typed (type_of c) c
