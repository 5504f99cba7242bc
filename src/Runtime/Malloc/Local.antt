-- ===== src/Runtime/Malloc/Local.antt =====
-- A worker's allocator: Cilk_internal_malloc, Cilk_internal_free, and the batches that move blocks
-- between the worker's lists and the shared pool (runtime/internal-malloc.c). The functions call one
-- another; each takes the depth of calls that is left.
use cilk.Common.{
  ℕ, zero, suc, ◌+◌, ◌/◌, true, false, Option, none, some, List, [], ◌∷◌, update, ltb,
  if◌then◌else◌, Cmd, ok, fault, out_of_fuel, assertion, deadlock, ◌>>=◌, ◌>>◌, fail,
}
use cilk.Common.Int.{pos, ◌+ℤ◌, ◌-ℤ◌, leb_ℤ}
use cilk.Runtime.Malloc.Sizes.{threshold, canonicalize, size_to_bucket}
use cilk.Runtime.Malloc.State.{Allocator, charge, discharge}
use cilk.Runtime.Malloc.Global.{global_im_alloc, global_im_free}

-- Cilk_mutex_wait on `global_im_lock`: a worker that holds the lock waits for itself.
unfoldable pub lock : Cmd Allocator (Unit {0})
lock s = if s.locked then fault deadlock else ok tt (record s { locked = true })

-- Cilk_mutex_signal
unfoldable pub unlock : Cmd Allocator (Unit {0})
unlock s = ok tt (record s { locked = false })

-- `for (i = 0; i < n; ++i) body`
unfoldable pub repeat : ℕ → Cmd Allocator (Unit {0}) → Cmd Allocator (Unit {0})
repeat zero body = ok tt
repeat (suc n) body = body >> repeat n body

-- An index that is -1 stands outside the descriptors.
abbrev pub known : {S : Type 0} → Option ℕ → Cmd S ℕ
known none = fail assertion
known (some n) = ok n

-- `mem = d->free_list; d->free_list = ((void **) mem)[0]; d->count++`
pop_local : ℕ → ℕ → List ℕ → Cmd Allocator ℕ
pop_local bucket mem rest s = ok mem (record s {
  local =
      update s.local bucket
        (record (s.local bucket) { free_list = rest; count = (s.local bucket).count +ℤ pos 1 });
})

-- `((void **)p)[0] = d->free_list; d->free_list = p; d->count--`
unfoldable pub push_local : ℕ → ℕ → Cmd Allocator (Unit {0})
push_local bucket p s = ok tt (record s {
  local = update s.local bucket (record (s.local bucket) {
    free_list = p ∷ (s.local bucket).free_list;
    count = (s.local bucket).count -ℤ pos 1;
  });
})

abbrev pub charge_malloc : ℕ → Allocator → Allocator
charge_malloc size s = record s { local_info = charge s.local_info size }

abbrev pub charge_free : ℕ → Allocator → Allocator
charge_free size s = record s { local_info = discharge s.local_info size }

module _ (line batch : ℕ) (malloc : ℕ → ℕ) where
  unfoldable pub allocate_batch : (ℕ → Cmd Allocator (Unit {0})) → ℕ → ℕ → Cmd Allocator (Unit {0})
  unfolding lock unlock repeat
  allocate_batch free size bucket = do
    lock
    repeat (batch / 2) (global_im_alloc malloc size bucket >>= free)
    unlock

  unfoldable pub free_batch : Cmd Allocator ℕ → ℕ → ℕ → Cmd Allocator (Unit {0})
  unfolding lock unlock repeat
  free_batch alloc size bucket = do
    lock
    repeat (batch / 2) (alloc >>= λ p. global_im_free p size bucket)
    unlock

  -- `while (!(mem = d->free_list)) im_allocate_batch(ws, size, bucket)`
  refill : Cmd Allocator (Unit {0}) → Cmd Allocator ℕ → ℕ → List ℕ → Cmd Allocator ℕ
  unfolding pop_local
  refill more again bucket [] = more >> again
  refill more again bucket (mem ∷ rest) = pop_local bucket mem rest

  unfoldable mutual
    unfolding refill allocate_batch free_batch push_local

    -- the loop of Cilk_internal_malloc, for a canonical size
    pub malloc_loop : ℕ → ℕ → ℕ → Cmd Allocator ℕ
    malloc_loop zero size bucket s = out_of_fuel
    malloc_loop (suc fuel) size bucket s =
        refill (allocate_batch (λ p. free_sized fuel p size) size bucket)
          (malloc_loop fuel size bucket) bucket (s.local bucket).free_list s

    pub malloc_sized : ℕ → ℕ → Cmd Allocator ℕ
    malloc_sized zero size s = out_of_fuel
    malloc_sized (suc fuel) size s =
        (if ltb threshold size
            then (λ s'. ok (malloc s'.calls) (record s' { calls = s'.calls + 1 }))
            else (do
              size' ← known (canonicalize line size)
              bucket ← known (size_to_bucket line size')
              malloc_loop fuel size' bucket))
          (charge_malloc size s)

    -- `while (d->count <= 0) im_free_batch(ws, size, bucket)`
    pub free_loop : ℕ → ℕ → ℕ → ℕ → Cmd Allocator (Unit {0})
    free_loop zero p size bucket s = out_of_fuel
    free_loop (suc fuel) p size bucket s = elim (leb_ℤ (s.local bucket).count (pos 0)) [
      | true ↦ (free_batch (malloc_sized fuel size) size bucket >> free_loop fuel p size bucket) s
      | false ↦ push_local bucket p s
    ]

    pub free_sized : ℕ → ℕ → ℕ → Cmd Allocator (Unit {0})
    free_sized zero p size s = out_of_fuel
    free_sized (suc fuel) p size s =
        (if ltb threshold size
            then ok tt
            else (do bucket ← known (size_to_bucket line size); free_loop fuel p size bucket))
          (charge_free size s)
