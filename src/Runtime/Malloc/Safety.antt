-- ===== src/Runtime/Malloc/Safety.antt =====
-- Cilk_internal_malloc and Cilk_internal_free always return, never wait for the lock that they hold,
-- and keep the lists and the counters of runtime/internal-malloc.c consistent.
use cilk.Common.{
  ℕ, suc, ◌≤◌, ◌≡◌, refl, ◌∙◌, ◌≢◌, false, arith, Returns, Returns-mono, le→not-ltb, ltb,
  Bool-cases, inl, inr,
}
use cilk.Common.Words.{add32, sub32, add32-add32, add32-sub32}
use cilk.Runtime.Malloc.Sizes.{threshold, IsClass, size-IsClass}
use cilk.Runtime.Malloc.State.{Allocator, IsConsistent}
use cilk.Runtime.Malloc.Local.{charge_malloc, charge_free, malloc_sized, malloc_loop, free_sized}
use cilk.Runtime.Malloc.Batch.{Kept, total_used, total_nmalloc}
use cilk.Runtime.Malloc.Critical.{IsConsistent-charged}
use cilk.Runtime.Malloc.Loops.{malloc_loop-Returns, free_loop-Returns}

module _ (line batch : ℕ) (malloc : ℕ → ℕ) (fits : line ≤ threshold) (two : 2 ≤ batch)
    (never_null : (i : ℕ) → malloc i ≢ 0) where
  -- The tests before the loop. The fuel is a variable, so the loop stays shut.
  malloc_sized-loop :
      {size c b : ℕ} (f : ℕ) (s : Allocator)
      → size ≤ threshold
      → IsClass line size c b
      → malloc_sized line batch malloc (suc f) size s
        ≡ malloc_loop line batch malloc f c b (charge_malloc size s)
  unfolding malloc_sized
  malloc_sized-loop f s hs k = rw (le→not-ltb hs, k.canonical) (rw k.bucket_of_class)

  malloc_sized-small :
      {c b : ℕ} (size f : ℕ) (s : Allocator)
      → size ≤ threshold
      → IsClass line size c b
      → IsConsistent batch s
      → s.locked ≡ false
      → Returns
          (malloc_sized line batch malloc (suc (suc (suc (suc f)))) size s)
          (λ _ s'. Kept batch (charge_malloc size s) s')
  malloc_sized-small {b} size f s hs k h free = rw (malloc_sized-loop (suc (suc (suc f))) s hs k) (
      malloc_loop-Returns line batch malloc fits two never_null f (s.local b).free_list
        (charge_malloc size s) k (IsConsistent-charged s _ s.calls h) free refl)

  free_sized-small :
      {c b : ℕ} (size p f : ℕ) (s : Allocator)
      → size ≤ threshold
      → IsClass line size c b
      → IsConsistent batch s
      → s.locked ≡ false
      → Returns
          (free_sized line batch malloc (suc (suc (suc (suc f)))) p size s)
          (λ _ s'. Kept batch (charge_free size s) s')
  unfolding free_sized
  free_sized-small {b} size p f s hs k h free =
      rw (le→not-ltb hs, k.bucket)
        (free_loop-Returns line batch malloc fits two never_null f p (charge_free size s) hs k
          (IsConsistent-charged s _ s.calls h) free)

  -- Let a cache line have at most 4096 bytes, a batch at least 2 blocks, and the C library never run
  -- out of memory. Called with the lists consistent and the lock free, Cilk_internal_malloc returns
  -- for every size, whatever fuel of at least 4 it has. It leaves the lists consistent and the lock
  -- free. The sums over the worker and the pool of the `int` counters of bytes and of blocks go up by
  -- the size and by 1, modulo 2^32.
  pub malloc_sized_lem :
      (size f : ℕ) (s : Allocator)
      → IsConsistent batch s
      → s.locked ≡ false
      → Returns (malloc_sized line batch malloc (suc (suc (suc (suc f)))) size s) (λ p s'.
        IsConsistent batch s'
        × (s'.locked ≡ false)
        × (total_used s' ≡ add32 (total_used s) size)
        × (total_nmalloc s' ≡ add32 (total_nmalloc s) 1))
  unfolding malloc_sized
  malloc_sized_lem size f s h free = elim (Bool-cases (ltb threshold size)) [
    | inl large ↦ rw large (
      IsConsistent-charged s _ _ h,
      free,
      add32-add32 s.local_info.used _ _,
      add32-add32 s.local_info.nmalloc _ _,
    )
    | inr small ↦
        Returns-mono (malloc_sized line batch malloc (suc (suc (suc (suc f)))) size s) _ _
          (malloc_sized-small size f s (ground arith) (size-IsClass line size fits (ground arith)).2
            h free)
          (λ p t q. (
            q.consistent,
            q.locked ∙ free,
            q.used ∙ add32-add32 s.local_info.used _ _,
            q.nmalloc ∙ add32-add32 s.local_info.nmalloc _ _,
          ))
  ]

  -- Under the same conditions Cilk_internal_free returns, leaves the lists consistent and the lock
  -- free. The sums of the `int` counters of bytes and of blocks go down by the size and by 1, modulo
  -- 2^32.
  pub free_sized_lem :
      (size p f : ℕ) (s : Allocator)
      → IsConsistent batch s
      → s.locked ≡ false
      → Returns (free_sized line batch malloc (suc (suc (suc (suc f)))) p size s) (λ _ s'.
        IsConsistent batch s'
        × (s'.locked ≡ false)
        × (total_used s' ≡ sub32 (total_used s) size)
        × (total_nmalloc s' ≡ sub32 (total_nmalloc s) 1))
  unfolding free_sized
  free_sized_lem size p f s h free = elim (Bool-cases (ltb threshold size)) [
    | inl large ↦ rw large (
      IsConsistent-charged s _ s.calls h,
      free,
      add32-sub32 s.local_info.used _ _,
      add32-sub32 s.local_info.nmalloc _ _,
    )
    | inr small ↦
        Returns-mono (free_sized line batch malloc (suc (suc (suc (suc f)))) p size s) _ _
          (free_sized-small size p f s (ground arith) (size-IsClass line size fits (ground arith)).2
            h free)
          (λ _ t q. (
            q.consistent,
            q.locked ∙ free,
            q.used ∙ add32-sub32 s.local_info.used _ _,
            q.nmalloc ∙ add32-sub32 s.local_info.nmalloc _ _,
          ))
  ]
