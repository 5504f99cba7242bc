-- ===== src/Runtime/Malloc/Batch.antt =====
-- The steps and the batches of runtime/internal-malloc.c keep the lists consistent.
use cilk.Common.{
  ◌∙◌, le→not-ltb, le→leb, lt→ltb, ap, length, ℕ, zero, suc, ◌+◌, ◌≤◌, ◌<◌, ◌≡◌, refl, ◌≢◌, some,
  List, [], ◌∷◌, update, arith, ok, Returns, Returns-bind, Returns-mono, ◌>>=◌,
}
use cilk.Common.Int.{pos, ◌-ℤ◌, ◌≤ℤ◌, not-le-zero, int_laws}
use cilk.Common.Words.{add32, add32_out}
use cilk.Runtime.Malloc.Sizes.{threshold, buckets, size_to_bucket}
use cilk.Runtime.Malloc.State.{Descriptor, Allocator, charge, IsBalanced, IsConsistent}
use cilk.Runtime.Malloc.Global.{global_im_alloc, from_list, from_pool}
use cilk.Runtime.Malloc.Local.{repeat, charge_free, free_sized, free_loop}

-- the sums of the counters of bytes and of blocks, over the worker and the shared pool
abbrev pub total_used : Allocator → ℕ
total_used s = add32 s.local_info.used s.shared_info.used

abbrev pub total_nmalloc : Allocator → ℕ
total_nmalloc s = add32 s.local_info.nmalloc s.shared_info.nmalloc

-- A descriptor that is replaced by a balanced one leaves all buckets balanced.
pub update-IsBalanced :
    (batch : ℕ) (f : ℕ → Descriptor) (b : ℕ) (d : Descriptor)
    → ((i : ℕ) → IsBalanced batch (f i))
    → IsBalanced batch d
    → (i : ℕ) → IsBalanced batch (update f b d i)
update-IsBalanced batch f b d h hd i = ground (arith, h i)

pub update-room :
    (f : ℕ → Descriptor) (b : ℕ) (d : Descriptor)
    → ((i : ℕ) → pos 0 ≤ℤ (f i).count)
    → pos 0 ≤ℤ d.count
    → (i : ℕ) → pos 0 ≤ℤ (update f b d i).count
update-room f b d h hd i = ground (arith, h i)

-- The pool is extended without a change to lists and counters.
record SameLists (s s' : Allocator) : Type 0 where
  local : s'.local ≡ s.local
  local_info : s'.local_info ≡ s.local_info
  locked : s'.locked ≡ s.locked
  shared : s'.shared ≡ s.shared
  shared_info : s'.shared_info ≡ s.shared_info

abbrev pub free_push : ℕ → ℕ → Allocator → Allocator
free_push b p s = record s {
  local = update s.local b (record (s.local b) {
    free_list = p ∷ (s.local b).free_list;
    count = (s.local b).count -ℤ pos 1;
  });
}

-- What one round of a batch, and a whole batch, keeps.
pub record Kept (batch : ℕ) (s s' : Allocator) : Type 0 where
  pub consistent : IsConsistent batch s'
  pub locked : s'.locked ≡ s.locked
  pub used : total_used s' ≡ total_used s
  pub nmalloc : total_nmalloc s' ≡ total_nmalloc s

pub Kept-refl : {batch : ℕ} {s : Allocator} → IsConsistent batch s → Kept batch s s
Kept-refl c = record { consistent = c; locked = refl; used = refl; nmalloc = refl }

pub Kept-trans : {batch : ℕ} {s t u : Allocator} → Kept batch s t → Kept batch t u → Kept batch s u
Kept-trans p q = record {
  consistent = q.consistent;
  locked = q.locked ∙ p.locked;
  used = q.used ∙ p.used;
  nmalloc = q.nmalloc ∙ p.nmalloc;
}

-- What global_im_alloc does to the state, whichever way it finds a block.
pub record Obtained (batch size : ℕ) (s s' : Allocator) : Type 0 where
  pub local : s'.local ≡ s.local
  pub local_info : s'.local_info ≡ s.local_info
  pub locked : s'.locked ≡ s.locked
  pub shared_info : s'.shared_info ≡ charge s.shared_info size
  pub balanced : (b : ℕ) → IsBalanced batch (s'.shared b)

module _ (batch : ℕ) (malloc : ℕ → ℕ) where
  pub free_loop-room :
      (line size b f p : ℕ) (s : Allocator)
      → pos 1 ≤ℤ (s.local b).count
      → free_loop line batch malloc (suc f) p size b s ≡ ok tt (free_push b p s)
  unfolding free_loop
  free_loop-room line size b f p s room = rw (not-le-zero (s.local b).count room, free_loop)

  -- A block that is freed where there is room goes straight to the worker's list.
  pub free_sized-room :
      (line size b f p : ℕ) (s : Allocator)
      → size ≤ threshold
      → size_to_bucket line size ≡ some b
      → pos 1 ≤ℤ (s.local b).count
      → free_sized line batch malloc (suc (suc f)) p size s
        ≡ ok tt (free_push b p (charge_free size s))
  unfolding free_sized
  free_sized-room line size b f p s hs hb room =
      rw (le→not-ltb hs, hb) (free_loop-room line size b f p (charge_free size s) room)

module _ (batch : ℕ) (malloc : ℕ → ℕ) (never_null : (i : ℕ) → malloc i ≢ 0) where
  from_pool-SameLists :
      (size : ℕ) (s : Allocator) → Returns (from_pool malloc size s) (λ p s'. SameLists s s')
  unfolding from_pool
  from_pool-SameLists size s = ground (arith, never_null s.calls, never_null (s.calls + 1))

  from_list-Obtained :
      (size b : ℕ) (l : List ℕ) (s : Allocator)
      → (s.shared b).free_list ≡ l
      → ((i : ℕ) → IsBalanced batch (s.shared i))
      → Returns
          (from_list malloc size b l (record s { shared_info = charge s.shared_info size }))
          (λ p s'. Obtained batch size s s')
  unfolding from_list
  from_list-Obtained size b [] s e h =
      Returns-mono (from_pool malloc size charged) _ _ (from_pool-SameLists size charged) (λ p s' q.
        record {
          local = q.local;
          local_info = q.local_info;
          locked = q.locked;
          shared_info = q.shared_info;
          balanced = λ i. rw q.shared (h i);
        })
    where
      charged : Allocator
      charged = record s { shared_info = charge s.shared_info size }
  from_list-Obtained size b (mem ∷ rest) s e h = record {
    local = refl;
    local_info = refl;
    locked = refl;
    shared_info = refl;
    balanced = update-IsBalanced batch s.shared b _ h (omega (int_laws, h b, ap length e));
  }

  global_im_alloc-Obtained :
      (size b : ℕ) (s : Allocator)
      → size ≤ threshold
      → b < buckets
      → ((i : ℕ) → IsBalanced batch (s.shared i))
      → Returns (global_im_alloc malloc size b s) (λ p s'. Obtained batch size s s')
  unfolding global_im_alloc
  global_im_alloc-Obtained size b s hs hb h =
      rw (le→leb hs, lt→ltb hb) (from_list-Obtained size b (s.shared b).free_list s refl h)

  alloc_round-Kept :
      (size b p : ℕ) (s t : Allocator)
      → Obtained batch size s t
      → IsConsistent batch s
      → pos 1 ≤ℤ (s.local b).count
      → Kept batch s (free_push b p (charge_free size t))
        × (((free_push b p (charge_free size t)).local b).count ≡ (s.local b).count -ℤ pos 1)
  alloc_round-Kept size b p s t o c room = (
    record {
      consistent = record {
        local_balanced = rw o.local (
            update-IsBalanced batch s.local b _ c.local_balanced
              (omega (int_laws, c.local_balanced b)));
        local_room = rw o.local (update-room s.local b _ c.local_room (omega int_laws));
        shared_balanced = o.balanced;
      };
      locked = o.locked;
      used = rw (o.local_info, o.shared_info) (add32_out s.local_info.used _ _);
      nmalloc = rw (o.local_info, o.shared_info) (add32_out s.local_info.nmalloc _ _);
    },
    rw o.local (ground arith),
  )

  -- A round of im_allocate_batch moves one block to a list that has room for it.
  alloc_round :
      (line size b f : ℕ) (s : Allocator)
      → size ≤ threshold
      → b < buckets
      → size_to_bucket line size ≡ some b
      → IsConsistent batch s
      → pos 1 ≤ℤ (s.local b).count
      → Returns
          ((global_im_alloc malloc size b >>= λ p.
              free_sized line batch malloc (suc (suc f)) p size)
            s)
          (λ _ s'. Kept batch s s' × ((s'.local b).count ≡ (s.local b).count -ℤ pos 1))
  alloc_round line size b f s hs lt hb c room =
      Returns-bind (global_im_alloc malloc size b s) _ _ _
        (global_im_alloc-Obtained size b s hs lt c.shared_balanced)
        (λ p t o.
          rw (free_sized-room batch malloc line size b f p t hs hb (rw o.local room))
            (alloc_round-Kept size b p s t o c room))

  -- im_allocate_batch's loop: n rounds move n blocks, if the list has room for them.
  pub alloc_rounds :
      (line size b f n : ℕ) (s : Allocator)
      → size ≤ threshold
      → b < buckets
      → size_to_bucket line size ≡ some b
      → IsConsistent batch s
      → pos n ≤ℤ (s.local b).count
      → Returns
          (repeat n
            (global_im_alloc malloc size b >>= λ p.
              free_sized line batch malloc (suc (suc f)) p size)
            s)
          (λ _ s'. Kept batch s s' × ((s'.local b).count ≡ (s.local b).count -ℤ pos n))
  unfolding repeat
  alloc_rounds line size b f zero s hs lt hb c room = (Kept-refl c, omega int_laws)
  alloc_rounds line size b f (suc n) s hs lt hb c room =
      Returns-bind
        ((global_im_alloc malloc size b >>= λ p. free_sized line batch malloc (suc (suc f)) p size)
          s)
        _ _ _ (alloc_round line size b f s hs lt hb c (omega arith))
        (λ _ t q.
          Returns-mono (repeat n _ t) _ _
            (alloc_rounds line size b f n t hs lt hb q.0.consistent (rw q.1 (omega int_laws)))
            (λ _ u r. (Kept-trans q.0 r.0, r.1 ∙ rw q.1 (omega int_laws))))
