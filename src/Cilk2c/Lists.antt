-- ===== src/Cilk2c/Lists.antt =====
-- The lists of cilk2c/list.c on an explicit heap. A pointer is a number and NULL is 0; the fields of the
-- cells are kept apart. `NextOnList` and its kin get a marker and give it back; the item that they find
-- is `some`. Each loop runs on fuel. The functions that a client passes to Mapc and DeleteIf are parameters.
pub mod Seg
pub mod Walk
pub mod Chunk
pub mod Pieces
pub mod Delete
pub mod Remove
pub mod Join
pub mod Store
pub mod Copy
pub mod Find
pub mod Tests
use cilk.Common.{
  ℕ, zero, suc, ◌+◌, Bool, true, false, not, Option, none, some, ◌==◌, leb, if◌then◌else◌, update,
  Cmd, pure, fail, out_of_fuel, null_deref, assertion, check, ◌>>=◌, ◌>>◌,
}

-- `fresh` is the address that the next HeapNew gives
pub record Heap : Type 0 where
  pub element : ℕ → ℕ
  pub next : ℕ → ℕ
  pub fresh : ℕ

pub record ListMarker : Type 0 where
  pub first : ℕ
  pub current : ℕ
  pub tail : ℕ

abbrev pub get_element : ℕ → Cmd Heap ℕ
get_element p = λ h. if p == 0 then fail null_deref h else pure (h.element p) h

abbrev pub get_next : ℕ → Cmd Heap ℕ
get_next p = λ h. if p == 0 then fail null_deref h else pure (h.next p) h

abbrev pub set_element : ℕ → ℕ → Cmd Heap (Unit {0})
set_element p x =
    λ h. if p == 0 then fail null_deref h else pure tt (record h { element = update h.element p x })

abbrev pub set_next : ℕ → ℕ → Cmd Heap (Unit {0})
set_next p q =
    λ h. if p == 0 then fail null_deref h else pure tt (record h { next = update h.next p q })

pub heap_new : Cmd Heap ℕ
heap_new h = pure h.fresh (record h { fresh = h.fresh + 1 })

pub first_item : ℕ → Cmd Heap ℕ
first_item list = check (not (list == 0)) >> get_element list

pub rest : ℕ → Cmd Heap ℕ
rest list = check (not (list == 0)) >> get_next list

pub set_item : ℕ → ℕ → Cmd Heap ℕ
set_item list x = do check (not (list == 0)); set_element list x; pure x

pub last_loop : ℕ → ℕ → Cmd Heap ℕ
last_loop zero list = λ _. out_of_fuel
last_loop (suc fuel) list = do n ← get_next list; if n == 0 then pure list else last_loop fuel n

pub last : ℕ → ℕ → Cmd Heap ℕ
last fuel list = if list == 0 then pure list else last_loop fuel list

pub make_new_list : ℕ → Cmd Heap ℕ
make_new_list item = do create ← heap_new; set_element create item; set_next create 0; pure create

pub cons_item : ℕ → ℕ → Cmd Heap ℕ
cons_item item list = do el ← make_new_list item; set_next el list; pure el

pub join_lists : ℕ → ℕ → ℕ → Cmd Heap ℕ
join_lists fuel list1 list2 = do
  l ← last fuel list1
  if l == 0 then pure list2 else (do set_next l list2; pure list1)

pub append_item : ℕ → ℕ → ℕ → Cmd Heap ℕ
append_item fuel list item = do
  tail ← make_new_list item
  if list == 0 then pure tail else join_lists fuel list tail

-- `*plast = p`: `none` is the address of `new`, `some q` that of the next field of `q`
pub store_last : Option ℕ → ℕ → ℕ → Cmd Heap ℕ
store_last none p new = pure p
store_last (some q) p new = do set_next q p; pure new

pub copy_loop : ℕ → ℕ → Option ℕ → ℕ → Cmd Heap ℕ
copy_loop zero list plast new = λ _. out_of_fuel
copy_loop (suc fuel) list plast new = if list == 0 then store_last plast 0 new else do
  tmp ← heap_new
  x ← get_element list
  set_element tmp x
  new' ← store_last plast tmp new
  n ← get_next list
  copy_loop fuel n (some tmp) new'

-- `new` has no value at first
pub list_copy : ℕ → ℕ → Cmd Heap ℕ
list_copy fuel list = copy_loop fuel list none 0

pub iterate_list : ℕ → ListMarker
iterate_list list = record { first = list; current = 0; tail = 0 }

-- the marker moves to `p`
pub arrive : ListMarker → ℕ → Cmd Heap (Option ℕ × ListMarker)
arrive m p = do x ← get_element p; pure (some x, record m { current = p })

-- the temporary split by NextChunkOnList is undone
pub reconnect : ListMarker → Cmd Heap (Option ℕ × ListMarker)
reconnect m = do set_next m.current m.tail; p ← get_next m.current; arrive (record m { tail = 0 }) p

pub next_on_list : ListMarker → Cmd Heap (Option ℕ × ListMarker)
next_on_list m =
    if m.current == 0 then (if m.first == 0 then pure (none, m) else arrive m m.first) else do
      n ← get_next m.current
      if not (n == 0) then arrive m n else if not (m.tail == 0) then reconnect m else pure (none, m)

pub length_loop : ℕ → ℕ → ListMarker → Cmd Heap ℕ
length_loop zero n m = λ _. out_of_fuel
length_loop (suc fuel) n m = do
  (found, m') ← next_on_list m
  elim found [ none ↦ pure n | some x ↦ length_loop fuel (n + 1) m' ]

pub list_length : ℕ → ℕ → Cmd Heap ℕ
list_length fuel list = length_loop fuel 0 (iterate_list list)

-- the item of the last call that found one
pub last_item_loop : ℕ → ℕ → ListMarker → Cmd Heap ℕ
last_item_loop zero item m = λ _. out_of_fuel
last_item_loop (suc fuel) item m = do
  (found, m') ← next_on_list m
  elim found [ none ↦ pure item | some x ↦ last_item_loop fuel x m' ]

pub last_item : ℕ → ℕ → Cmd Heap ℕ
last_item fuel list = check (not (list == 0)) >> last_item_loop fuel 0 (iterate_list list)

pub end_of_list : ListMarker → Cmd Heap Bool
end_of_list m =
    if m.current == 0
    then pure (m.first == 0)
    else do n ← get_next m.current; pure (if not (n == 0) then false else m.tail == 0)

pub set_current_on_list : ListMarker → ℕ → Cmd Heap (Unit {0})
set_current_on_list m x = check (not (m.current == 0)) >> set_element m.current x

pub split_list : ListMarker → Cmd Heap ℕ
split_list m = do
  check (not (m.current == 0))
  tail ← get_next m.current
  set_next m.current 0
  pure tail

-- the cell before `current`, or NULL
pub find_prev : ℕ → ℕ → ℕ → Cmd Heap ℕ
find_prev zero prev current = λ _. out_of_fuel
find_prev (suc fuel) prev current =
    if prev == 0
    then pure 0
    else do n ← get_next prev; if n == current then pure prev else find_prev fuel n current

pub join_first : ℕ → ListMarker → ℕ → Cmd Heap ListMarker
join_first fuel m sublist = do
  first ← join_lists fuel sublist m.first
  pure (record m { first = first })

pub join_after : ℕ → ListMarker → ℕ → ℕ → Cmd Heap ListMarker
join_after fuel m p sublist = do n ← get_next p; l ← join_lists fuel sublist n; set_next p l; pure m

pub insert_list : ℕ → ListMarker → ℕ → Cmd Heap ListMarker
insert_list fuel m sublist =
    if m.current == 0
    then (do current ← last fuel sublist; join_first fuel (record m { current = current }) sublist)
    else do
      prev ← find_prev fuel m.first m.current
      if prev == 0 then join_first fuel m sublist else join_after fuel m prev sublist

pub splice_list : ℕ → ListMarker → ℕ → Cmd Heap ListMarker
splice_list fuel m sublist =
    if m.current == 0 then join_first fuel m sublist else join_after fuel m m.current sublist

pub find_item : ℕ → ℕ → ℕ → Cmd Heap ℕ
find_item zero list item = λ _. out_of_fuel
find_item (suc fuel) list item = if list == 0 then pure 0 else do
  x ← get_element list
  n ← get_next list
  if item == x then pure list else find_item fuel n item

-- `*prev = n` in the list, whose first cell is `list`
pub unlink : ℕ → ℕ → ℕ → Cmd Heap ℕ
unlink prev n list = if prev == 0 then pure n else do set_next prev n; pure list

pub remove_loop : ℕ → ℕ → ℕ → ℕ → ℕ → Cmd Heap ℕ
remove_loop zero prev curr list item = λ _. out_of_fuel
remove_loop (suc fuel) prev curr list item = if curr == 0 then pure list else do
  x ← get_element curr
  n ← get_next curr
  if item == x then unlink prev n list else remove_loop fuel curr n list item

pub remove_item : ℕ → ℕ → ℕ → Cmd Heap ℕ
remove_item fuel list item = remove_loop fuel 0 list list item

pub chunk_loop : ℕ → ListMarker → Cmd Heap ListMarker
chunk_loop zero m = pure m
chunk_loop (suc k) m = do
  (found, m') ← next_on_list m
  elim found [ none ↦ pure m' | some x ↦ chunk_loop k m' ]

-- the list ends after the point
pub terminate : ListMarker → Cmd Heap ListMarker
terminate m =
    if m.current == 0
    then pure m
    else do n ← get_next m.current; set_next m.current 0; pure (record m { tail = n })

pub next_chunk_on_list : ℕ → ListMarker → ℕ → Cmd Heap (ℕ × ListMarker)
next_chunk_on_list fuel m chunksize =
    let chunk_begin = if m.current == 0 then m.first else m.tail in
    if chunksize == 0 then pure (0, m) else do
      m1 ← chunk_loop chunksize m
      m2 ← terminate m1
      l ← list_length fuel chunk_begin
      check (leb l chunksize)
      pure (chunk_begin, m2)

pub mapc_loop : ℕ → ListMarker → (ℕ → Cmd Heap (Unit {0})) → Cmd Heap (Unit {0})
mapc_loop zero m f = λ _. out_of_fuel
mapc_loop (suc fuel) m f = do
  (found, m') ← next_on_list m
  elim found [ none ↦ pure tt | some x ↦ f x >> mapc_loop fuel m' f ]

pub mapc : ℕ → ℕ → (ℕ → Cmd Heap (Unit {0})) → Cmd Heap ℕ
mapc fuel l f = mapc_loop fuel (iterate_list l) f >> pure l

-- the link or the removal of one cell, with the rest of the list done
pub delete_here : ℕ → Bool → ℕ → Cmd Heap ℕ
delete_here l gone r = if gone then pure r else do set_next l r; pure l

pub delete_if : ℕ → ℕ → (ℕ → Bool) → Cmd Heap ℕ
delete_if zero l f = λ _. out_of_fuel
delete_if (suc fuel) l f =
    if l == 0
    then pure l
    else do x ← get_element l; n ← get_next l; r ← delete_if fuel n f; delete_here l (f x) r
