-- ===== src/Runtime/Malloc/Tests.antt =====
-- The block allocator of runtime/internal-malloc.c at concrete inputs: lines of 32 bytes, batches of
-- 8 blocks.
use cilk.Common.{
  ℕ, ◌+◌, ◌*◌, ◌≡◌, ◌≢◌, refl, false, List, [], ◌∷◌, arith, fault, assertion, Returns, ◌>>◌, update,
  ◌^◌, ◌⊎◌,
}
use cilk.Common.Int.{pos, ◌+ℤ◌, ◌-ℤ◌}
use cilk.Common.Words.{add32, sub32, wrap32}
use cilk.Runtime.Malloc.Sizes.{canonicalize, size_to_bucket, IsClass, size-IsClass}
use cilk.Runtime.Malloc.State.{Allocator, IsConsistent}
use cilk.Runtime.Malloc.Global.{global_im_alloc}
use cilk.Runtime.Malloc.Local.{malloc_sized, free_sized}
use cilk.Runtime.Malloc.Batch.{total_used, total_nmalloc}
use cilk.Runtime.Malloc.Safety.{malloc_sized_lem, free_sized_lem}
use cilk.Runtime.Malloc.Fast.{
  malloc_fast, free_fast, malloc_fast-eq-malloc_sized, free_fast-eq-free_sized,
}
use cilk.Runtime.Malloc.Cleanup.{
  init, init-IsConsistent, per_worker_cleanup, global_cleanup, local_pool,
}
use cilk.Runtime.Malloc.Cleanup.Counted.{Balanced, Unbalanced}
use cilk.Runtime.Malloc.Cleanup.Complaints.{Cleaned, per_worker_cleanup_cases}
use cilk.Runtime.Malloc.Script.{
  Request, alloc, release, run, net_used, net_blocks, BytesNoted, no_false_leak,
  wrapped_leak_is_missed,
}

-- the C library's allocator, in steps of 64 KB
abbrev libc : ℕ → ℕ
libc i = 65536 * (i + 1)

libc_never_null : (i : ℕ) → libc i ≢ 0
libc_never_null i = omega arith

abbrev start : Allocator
start = init 8 10 0

abbrev calls : List Request
calls = alloc 100 ∷ alloc 5000 ∷ release 65536 100 ∷ release 131072 5000 ∷ []

-- The first block of 100 bytes is the last of a batch of four blocks of 128 bytes.
first_block :
    Returns
      (malloc_sized 32 8 libc 4 100 start)
      (λ p s. (p ≡ 65536 + 384) × (s.im_allocated ≡ 32768) × (s.pool_begin ≡ 65536 + 512))
unfolding malloc_sized init ◌+ℤ◌ ◌-ℤ◌ canonicalize size_to_bucket global_im_alloc
first_block = (refl, refl, refl)

size-IsClass_example : (c : ℕ) × (b : ℕ) × IsClass 32 100 c b
size-IsClass_example = size-IsClass 32 100 (omega arith) (omega arith)

malloc_sized_lem_example : Returns (malloc_sized 32 8 libc 4 100 start) (λ p s'.
    IsConsistent 8 s'
    × (s'.locked ≡ false)
    × (total_used s' ≡ add32 (total_used start) 100)
    × (total_nmalloc s' ≡ add32 (total_nmalloc start) 1))
unfolding init
malloc_sized_lem_example =
    malloc_sized_lem 32 8 libc (omega arith) (omega arith) libc_never_null 100 0 start
      (init-IsConsistent 8 10 0) refl

free_sized_lem_example : Returns (free_sized 32 8 libc 4 64 200 start) (λ _ s'.
    IsConsistent 8 s'
    × (s'.locked ≡ false)
    × (total_used s' ≡ sub32 (total_used start) 200)
    × (total_nmalloc s' ≡ sub32 (total_nmalloc start) 1))
unfolding init
free_sized_lem_example =
    free_sized_lem 32 8 libc (omega arith) (omega arith) libc_never_null 200 64 0 start
      (init-IsConsistent 8 10 0) refl

malloc_fast_example : malloc_fast 32 8 libc 4 100 start ≡ malloc_sized 32 8 libc 4 100 start
malloc_fast_example = malloc_fast-eq-malloc_sized 32 8 libc 100 2 start (omega arith)

free_fast_example : free_fast 32 8 libc 4 64 200 start ≡ free_sized 32 8 libc 4 64 200 start
free_fast_example = free_fast-eq-free_sized 32 8 libc 200 64 2 start (omega arith)

-- two blocks of 128 bytes at hand
abbrev stocked : Allocator
stocked = record start {
  local =
      update start.local 3 (record { free_list = 65664 ∷ 65536 ∷ []; length = 0; count = pos 6 });
}

per_worker_cleanup_cases_example :
    (Balanced 8 9 stocked.local
      × Returns (per_worker_cleanup 8 stocked) (λ u s'.
        Cleaned (local_pool stocked) (local_pool s')
        × (s' ≡ record stocked { local = s'.local; local_info = s'.local_info })))
    ⊎ (Unbalanced 8 9 stocked.local × (per_worker_cleanup 8 stocked ≡ fault assertion))
per_worker_cleanup_cases_example = per_worker_cleanup_cases 8 stocked

no_false_leak_example :
    Returns
      ((run 32 8 libc calls >> (per_worker_cleanup 8 >> global_cleanup 8)) (init 8 10 0))
      (λ u s'. BytesNoted s')
unfolding net_used net_blocks ◌+ℤ◌ ◌-ℤ◌
no_false_leak_example =
    no_false_leak 32 8 libc (omega arith) (omega arith) libc_never_null calls 10 0 refl refl

-- 4 GB and 8 bytes are taken, and 8 bytes are given back.
abbrev big_leak : List Request
big_leak = alloc (2 ^ 32 + 8) ∷ release 65536 8 ∷ []

wrapped_leak_is_missed_example :
    Returns
      ((run 32 8 libc big_leak >> (per_worker_cleanup 8 >> global_cleanup 8)) (init 8 10 0))
      (λ u s'. BytesNoted s')
unfolding net_used net_blocks ◌+ℤ◌ ◌-ℤ◌ wrap32
wrapped_leak_is_missed_example =
    wrapped_leak_is_missed 32 8 libc (omega arith) (omega arith) libc_never_null big_leak 10 0 refl
      refl
