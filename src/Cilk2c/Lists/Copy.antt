-- ===== src/Cilk2c/Lists/Copy.antt =====
-- ListCopy of cilk2c/list.c.
use cilk.Common.{
  ℕ, zero, suc, ◌+◌, ◌<◌, ◌≡◌, ◌≢◌, refl, sym, ◌∙◌, ap, subst, arith, Option, some, none, List, [],
  ◌∷◌, length, map, update, update_self, update_ne, ==_eq, ok, Returns,
}
use cilk.Cilk2c.Lists.{Heap, copy_loop, list_copy}
use cilk.Cilk2c.Lists.Seg.{Seg, head_or}
use cilk.Cilk2c.Lists.Store.{
  new_cells, AllBelow, Misses, MissesAll, InUse, Stored, stored_next, stored_new, store_last_lem,
  stored_next-miss, Seg-stored_next, fresh-MissesAll, AllBelow-more, copy_step,
}

pub record Copied (h : Heap) (plast : Option ℕ) (new : ℕ) (ps : List ℕ) (r : ℕ) (h' : Heap)
    : Type 0 where
  pub chain : let cs = new_cells h.fresh (length ps) in Seg h'.next (head_or cs 0) cs 0
  pub items : map h'.element (new_cells h.fresh (length ps)) ≡ map h.element ps
  pub stored : Stored plast (head_or (new_cells h.fresh (length ps)) 0) new r h'.next
  pub old_next : (c : ℕ) → c < h.fresh → Misses plast c → h'.next c ≡ h.next c
  pub old_element : (c : ℕ) → c < h.fresh → h'.element c ≡ h.element c

map_below :
    (e f : ℕ → ℕ) (k : ℕ) (ps : List ℕ)
    → AllBelow k ps
    → ((c : ℕ) → c < k → e c ≡ f c)
    → map e ps ≡ map f ps
map_below e f k [] b h = refl
map_below e f k (a ∷ ps) (l, b) h = λ i. h a l i ∷ map_below e f k ps b h i

copy_end :
    (plast : Option ℕ) (new : ℕ) (h : Heap)
    → InUse plast h.fresh
    → Copied h plast new []
        (stored_new plast 0 new)
        (record h { next = stored_next plast 0 h.next })
copy_end none new h u = record {
  chain = refl;
  items = refl;
  stored = refl;
  old_next = λ c l m. refl;
  old_element = λ c l. refl;
}
copy_end (some q) new h u = record {
  chain = refl;
  items = refl;
  stored = (refl, update_self h.next q 0);
  old_next = λ c l m. update_ne h.next 0 m;
  old_element = λ c l. refl;
}

below_ne : {a b : ℕ} → a < b → b ≢ a
below_ne l = omega arith

InUse-more : (plast : Option ℕ) (k : ℕ) → InUse plast k → InUse plast (k + 1)
InUse-more none k u = tt
InUse-more (some q) k (n, l) = (n, omega (arith, l))

Stored-back :
    (plast : Option ℕ) (new r p : ℕ) (nx nx' : ℕ → ℕ) (k : ℕ)
    → InUse plast k
    → r ≡ stored_new plast p new
    → ((c : ℕ) → c < k → nx' c ≡ stored_next plast p nx c)
    → Stored plast p new r nx'
Stored-back none new r p nx nx' k u e h = e
Stored-back (some q) new r p nx nx' k (n, l) e h = (e, h q l ∙ update_self nx q p)

none-MissesAll : (ps : List ℕ) → MissesAll none ps
none-MissesAll [] = tt
none-MissesAll (a ∷ ps) = (tt, none-MissesAll ps)

copy_loop_lem :
    (fuel list : ℕ) (plast : Option ℕ) (new : ℕ) (h : Heap) (ps : List ℕ)
    → Seg h.next list ps 0
    → AllBelow h.fresh ps
    → MissesAll plast ps
    → InUse plast h.fresh
    → h.fresh ≢ 0
    → length ps < fuel
    → (r : ℕ) × (h' : Heap) × (copy_loop fuel list plast new h ≡ ok r h')
      × Copied h plast new ps r h'
unfolding copy_loop
copy_loop_lem zero list plast new h ps s b m u k l = absurd (omega arith)
copy_loop_lem (suc fuel) list plast new h [] s b m u k l =
    (_, _, rw (==_eq s) (store_last_lem plast 0 new h u), copy_end plast new h u)
copy_loop_lem (suc fuel) list plast new h (a ∷ ps) (e, n, s) (al, b) (ma, m) u k l =
    let nx = stored_next plast h.fresh h.next in
    let h2 : Heap = record {
      element = update h.element h.fresh (h.element a);
      next = nx;
      fresh = h.fresh + 1;
    } in
    let new2 = stored_new plast h.fresh new in
    let s2 =
      subst (λ x. Seg nx x ps 0) (sym (stored_next-miss plast h.fresh h.next a ma))
        (Seg-stored_next plast h.fresh h.next (h.next a) ps m s) in
    let (r, h', e', c) =
      copy_loop_lem fuel (nx a) (some h.fresh) new2 h2 ps s2 (AllBelow-more h.fresh ps b)
        (fresh-MissesAll h.fresh ps b) (k, omega arith) (omega arith) (omega (arith, l)) in
    let old : (x : ℕ) → x < h.fresh → h'.next x ≡ nx x =
      λ x lx. c.old_next x (omega (arith, lx)) (below_ne lx) in
    let olde : (x : ℕ) → x < h.fresh → h'.element x ≡ h.element x = λ x lx.
      c.old_element x (omega (arith, lx)) ∙ update_ne h.element (h.element a) (below_ne lx) in
    (
      r,
      h',
      ap (λ x. copy_loop (suc fuel) x plast new h) e
          ∙ copy_step fuel a plast new h n k (InUse-more plast h.fresh u)
          ∙ e',
      record {
        chain = (
          refl,
          k,
          subst (λ x. Seg h'.next x (new_cells (h.fresh + 1) (length ps)) 0) (sym c.stored.1)
              c.chain,
        );
        items = λ i.
            (c.old_element h.fresh (omega arith) ∙ update_self h.element h.fresh (h.element a)) i
            ∷ (c.items
                  ∙ map_below h2.element h.element h.fresh ps b
                      (λ x lx. update_ne h.element (h.element a) (below_ne lx)))
                i;
        stored = Stored-back plast new r h.fresh h.next h'.next h.fresh u c.stored.0 old;
        old_next = λ x lx mx. old x lx ∙ stored_next-miss plast h.fresh h.next x mx;
        old_element = olde;
      },
    )

-- For a list of cells below the next address, which is not 0, and more rounds than cells, ListCopy
-- returns a list of as many new cells, in order, with the same items. The cells below keep their items
-- and links.
pub list_copy-copies :
    (fuel list : ℕ) (h : Heap) (ps : List ℕ)
    → Seg h.next list ps 0
    → AllBelow h.fresh ps
    → h.fresh ≢ 0
    → length ps < fuel
    → Returns (list_copy fuel list h) (λ r h'.
      Seg h'.next r (new_cells h.fresh (length ps)) 0
      × (map h'.element (new_cells h.fresh (length ps)) ≡ map h.element ps)
      × ((c : ℕ) → c < h.fresh → (h'.next c ≡ h.next c) × (h'.element c ≡ h.element c)))
unfolding list_copy
list_copy-copies fuel list h ps s b k l =
    let (r, h', e, c) = copy_loop_lem fuel list none 0 h ps s b (none-MissesAll ps) tt k l in
    rw e (
      subst (λ x. Seg h'.next x (new_cells h.fresh (length ps)) 0) (sym c.stored) c.chain,
      c.items,
      λ x lx. (c.old_next x lx tt, c.old_element x lx),
    )
