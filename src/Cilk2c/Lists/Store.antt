-- ===== src/Cilk2c/Lists/Store.antt =====
-- One round of ListCopy of cilk2c/list.c, and the write through `plast`.
use cilk.Common.{
  ℕ, zero, suc, ◌+◌, ◌<◌, ◌≡◌, ◌≢◌, refl, sym, subst, arith, Option, some, none, List, [], ◌∷◌,
  update, update_ne, ==_ne, ok,
}
use cilk.Cilk2c.Lists.{Heap, heap_new, store_last, copy_loop}
use cilk.Cilk2c.Lists.Seg.{Seg}

-- the cells that `n` calls of HeapNew give
abbrev pub new_cells : ℕ → ℕ → List ℕ
new_cells fresh zero = []
new_cells fresh (suc n) = fresh ∷ new_cells (fresh + 1) n

abbrev pub AllBelow : ℕ → List ℕ → Type 0
AllBelow k [] = Unit
AllBelow k (a ∷ ps) = (a < k) × AllBelow k ps

-- whether the write through `plast` misses `c`
abbrev pub Misses : Option ℕ → ℕ → Type 0
Misses none c = Unit
Misses (some q) c = q ≢ c

abbrev pub MissesAll : Option ℕ → List ℕ → Type 0
MissesAll plast [] = Unit
MissesAll plast (a ∷ ps) = Misses plast a × MissesAll plast ps

-- `plast` is a cell in use
abbrev pub InUse : Option ℕ → ℕ → Type 0
InUse none k = Unit
InUse (some q) k = (q ≢ 0) × (q < k)

-- what the write through `plast` leaves
abbrev pub Stored : Option ℕ → ℕ → ℕ → ℕ → (ℕ → ℕ) → Type 0
Stored none p new new' nx = new' ≡ p
Stored (some q) p new new' nx = (new' ≡ new) × (nx q ≡ p)

abbrev pub stored_next : Option ℕ → ℕ → (ℕ → ℕ) → ℕ → ℕ
stored_next none p nx = nx
stored_next (some q) p nx = update nx q p

abbrev pub stored_new : Option ℕ → ℕ → ℕ → ℕ
stored_new none p new = p
stored_new (some q) p new = new

pub store_last_lem :
    (plast : Option ℕ) (p new : ℕ) (h : Heap)
    → InUse plast h.fresh
    → store_last plast p new h
      ≡ ok (stored_new plast p new) (record h { next = stored_next plast p h.next })
unfolding store_last
store_last_lem none p new h u = refl
store_last_lem (some q) p new h u = rw (==_ne u.0) refl

pub stored_next-miss :
    (plast : Option ℕ) (p : ℕ) (nx : ℕ → ℕ) (c : ℕ)
    → Misses plast c
    → stored_next plast p nx c ≡ nx c
stored_next-miss none p nx c m = refl
stored_next-miss (some q) p nx c m = update_ne nx p m

pub Seg-stored_next :
    (plast : Option ℕ) (v : ℕ) (nx : ℕ → ℕ) (p : ℕ) (ps : List ℕ)
    → MissesAll plast ps
    → Seg nx p ps 0
    → Seg (stored_next plast v nx) p ps 0
Seg-stored_next plast v nx p [] m s = s
Seg-stored_next plast v nx p (a ∷ ps) (m, ms) (e, n, s) = (
  e,
  n,
  subst (λ x. Seg (stored_next plast v nx) x ps 0) (sym (stored_next-miss plast v nx a m))
      (Seg-stored_next plast v nx (nx a) ps ms s),
)

pub fresh-MissesAll : (k : ℕ) (ps : List ℕ) → AllBelow k ps → MissesAll (some k) ps
fresh-MissesAll k [] b = tt
fresh-MissesAll k (a ∷ ps) (l, b) = (omega (arith, l), fresh-MissesAll k ps b)

pub AllBelow-more : (k : ℕ) (ps : List ℕ) → AllBelow k ps → AllBelow (k + 1) ps
AllBelow-more k [] b = tt
AllBelow-more k (a ∷ ps) (l, b) = (omega (arith, l), AllBelow-more k ps b)

pub copy_step :
    (fuel list : ℕ) (plast : Option ℕ) (new : ℕ) (h : Heap)
    → list ≢ 0
    → h.fresh ≢ 0
    → InUse plast (h.fresh + 1)
    → let nx = stored_next plast h.fresh h.next in
      copy_loop (suc fuel) list plast new h
      ≡ copy_loop fuel (nx list) (some h.fresh) (stored_new plast h.fresh new) (record {
        element = update h.element h.fresh (h.element list);
        next = nx;
        fresh = h.fresh + 1;
      })
unfolding copy_loop heap_new
copy_step fuel list plast new h n k u = rw (==_ne n) (
    rw (==_ne n) (
      rw (==_ne k) (
        rw
          (store_last_lem plast h.fresh new
            (record h { element = update h.element h.fresh (h.element list); fresh = h.fresh + 1 })
            u)
          (rw (==_ne n) refl))))
