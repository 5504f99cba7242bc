-- ===== src/Runtime/Malloc/Critical.antt =====
-- The sections of runtime/internal-malloc.c that run under `global_im_lock`, and the single steps on
-- a worker's list.
use cilk.Common.{
  ℕ, ◌≡◌, refl, sym, ap, Bool, true, false, List, ◌∷◌, length, Cmd, Returns, Returns-bind, ◌>>◌,
}
use cilk.Common.Int.{pos, ◌≤ℤ◌, int_laws}
use cilk.Runtime.Malloc.State.{Allocator, Stats, IsConsistent}
use cilk.Runtime.Malloc.Local.{lock, unlock}
use cilk.Runtime.Malloc.Batch.{Kept, update-IsBalanced, update-room, free_push}
use cilk.Runtime.Malloc.Release.{taken}

-- A body that runs between lock and unlock, for a worker that does not hold the lock.
pub critical_section :
    (body : Cmd Allocator (Unit {0})) (Q : Allocator → Type 0) (s : Allocator)
    → s.locked ≡ false
    → Returns (body (record s { locked = true })) (λ _ t. Q (record t { locked = false }))
    → Returns ((lock >> (body >> unlock)) s) (λ _ t. Q t)
unfolding lock unlock
critical_section body Q s free h = rw (free) (
    Returns-bind (body (record s { locked = true })) (λ _. unlock)
      (λ _ t. Q (record t { locked = false })) _ h (λ _ t q. q))

pub IsConsistent-locked :
    {batch : ℕ} (s : Allocator) (b : Bool)
    → IsConsistent batch s
    → IsConsistent batch (record s { locked = b })
IsConsistent-locked s b c = record {
  local_balanced = c.local_balanced;
  local_room = c.local_room;
  shared_balanced = c.shared_balanced;
}

pub Kept-unlocked :
    {batch : ℕ} (s t : Allocator)
    → s.locked ≡ false
    → Kept batch (record s { locked = true }) t
    → Kept batch s (record t { locked = false })
Kept-unlocked s t free k = record {
  consistent = IsConsistent-locked t false k.consistent;
  locked = sym free;
  used = k.used;
  nmalloc = k.nmalloc;
}

-- Charging the worker's counters touches no list.
pub IsConsistent-charged :
    {batch : ℕ} (s : Allocator) (i : Stats) (n : ℕ)
    → IsConsistent batch s
    → IsConsistent batch (record s { local_info = i; calls = n })
IsConsistent-charged s i n c = record {
  local_balanced = c.local_balanced;
  local_room = c.local_room;
  shared_balanced = c.shared_balanced;
}

-- Putting a block on a list that has room keeps its bucket balanced.
pub pushed-Kept :
    {batch : ℕ} (b p : ℕ) (s : Allocator)
    → IsConsistent batch s
    → pos 1 ≤ℤ (s.local b).count
    → Kept batch s (free_push b p s)
pushed-Kept {batch} b p s h room = record {
  consistent = record {
    local_balanced =
        update-IsBalanced batch s.local b _ h.local_balanced (omega (int_laws, h.local_balanced b));
    local_room = update-room s.local b _ h.local_room (omega int_laws);
    shared_balanced = h.shared_balanced;
  };
  locked = refl;
  used = refl;
  nmalloc = refl;
}

-- Taking a block off a list keeps its bucket balanced.
pub taken-Kept :
    {batch mem : ℕ} {rest : List ℕ} (b : ℕ) (s : Allocator)
    → IsConsistent batch s
    → (s.local b).free_list ≡ mem ∷ rest
    → Kept batch s (taken b rest s)
taken-Kept {batch} b s h e = record {
  consistent = record {
    local_balanced =
        update-IsBalanced batch s.local b _ h.local_balanced
          (omega (int_laws, h.local_balanced b, ap length e));
    local_room = update-room s.local b _ h.local_room (omega (int_laws, h.local_room b));
    shared_balanced = h.shared_balanced;
  };
  locked = refl;
  used = refl;
  nmalloc = refl;
}
