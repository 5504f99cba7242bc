-- ===== src/Runtime/Malloc/Cleanup.antt =====
-- The start and the end of the block allocator: Cilk_internal_malloc_global_init_2,
-- Cilk_internal_malloc_per_worker_init and the two cleanup functions of runtime/internal-malloc.c,
-- which complain of lists that are inconsistent and of blocks that leak.
pub mod Counted
pub mod Complaints
use cilk.Common.{
  ℕ, ◌+◌, ◌*◌, zero, suc, false, List, [], ◌∷◌, ◌&&◌, ◌==◌, update, arith, Cmd, Run, ok, fault,
  out_of_fuel, check, ◌>>=◌, ◌>>◌, pure,
}
use cilk.Common.Int.{pos, ◌+ℤ◌, eq_ℤ}
use cilk.Common.Words.{add32}
use cilk.Runtime.Malloc.Sizes.{buckets, bucket_to_size}
use cilk.Runtime.Malloc.State.{Descriptor, Stats, Allocator, IsConsistent}
use cilk.Runtime.Malloc.Local.{known}

-- free_list_length
unfoldable pub free_list_length : List ℕ → ℕ
free_list_length [] = 0
free_list_length (p ∷ rest) = free_list_length rest + 1

abbrev fresh : ℕ → Descriptor
fresh batch = record { free_list = []; length = 0; count = pos batch }

abbrev no_use : Stats
no_use = record { used = 0; nmalloc = 0; in_free_lists = 0; length = λ i. 0 }

-- Cilk_internal_malloc_global_init_2, and Cilk_internal_malloc_per_worker_init for the worker. The
-- array of chunks is as Cilk_internal_malloc_global_init left it.
unfoldable pub init : ℕ → ℕ → ℕ → Allocator
init batch alloc_list_size calls = record {
  local = λ _. fresh batch;
  local_info = no_use;
  shared = λ _. fresh batch;
  shared_info = no_use;
  locked = false;
  pool_begin = 0;
  pool_end = 0;
  im_allocated = 0;
  im_wasted = 0;
  alloc_list = [];
  alloc_list_size = alloc_list_size;
  calls = calls;
}

-- The descriptors and the counters that a cleanup function goes through.
pub record Pool : Type 0 where
  pub lists : ℕ → Descriptor
  pub info : Stats

-- One round of the loops of the cleanup functions: the complaint, the lengths, and the bytes.
unfoldable pub cleanup_bucket : ℕ → ℕ → ℕ → Cmd Pool ℕ
unfolding free_list_length
cleanup_bucket batch in_free_lists i p =
    let d = p.lists i in
    let k = free_list_length d.free_list in
    (do
      check (eq_ℤ (d.count +ℤ pos k) (pos batch))
      size ← known (bucket_to_size i)
      λ q. ok (add32 in_free_lists (size * k)) (record q {
        lists = update q.lists i (record d { length = k });
        info = record q.info { length = update q.info.length i k };
      }))
      p

-- The loop over the buckets below `n`, with the value of `in_free_lists`.
unfoldable pub cleanup_buckets : ℕ → ℕ → Cmd Pool ℕ
unfolding cleanup_bucket
cleanup_buckets batch zero = pure 0
cleanup_buckets batch (suc n) =
    cleanup_buckets batch n >>= λ in_free_lists. cleanup_bucket batch in_free_lists n

unfoldable pub cleanup_pool : ℕ → Cmd Pool (Unit {0})
unfolding cleanup_buckets
cleanup_pool batch = do
  in_free_lists ← cleanup_buckets batch buckets
  λ p. ok tt (record p { info = record p.info { in_free_lists = in_free_lists } })

-- `ws->im_descriptor` and `im_info[ws->self]`
abbrev pub local_pool : Allocator → Pool
local_pool s = record { lists = s.local; info = s.local_info }

-- `global_im_descriptor` and `global_im_info`
abbrev pub shared_pool : Allocator → Pool
shared_pool s = record { lists = s.shared; info = s.shared_info }

abbrev pub put_local : Allocator → Run Pool (Unit {0}) → Run Allocator (Unit {0})
put_local s (ok u p) = ok u (record s { local = p.lists; local_info = p.info })
put_local s (fault e) = fault e
put_local s out_of_fuel = out_of_fuel

-- Cilk_internal_malloc_per_worker_cleanup
unfoldable pub per_worker_cleanup : ℕ → Cmd Allocator (Unit {0})
unfolding cleanup_pool
per_worker_cleanup batch s = put_local s (cleanup_pool batch (local_pool s))

abbrev pub put_shared : Allocator → Run Pool (Unit {0}) → Run Allocator (Unit {0})
put_shared s (ok u p) = ok u (record s { shared = p.lists; shared_info = p.info })
put_shared s (fault e) = fault e
put_shared s out_of_fuel = out_of_fuel

-- the end of Cilk_internal_malloc_global_cleanup
unfoldable pub shared_cleanup : ℕ → Cmd Allocator (Unit {0})
unfolding cleanup_pool
shared_cleanup batch s = put_shared s (cleanup_pool batch (shared_pool s))

-- Cilk_internal_malloc_global_cleanup, with one worker
unfoldable pub global_cleanup : ℕ → Cmd Allocator (Unit {0})
unfolding shared_cleanup
global_cleanup batch s =
    let total = add32 s.shared_info.used s.local_info.used in
    let tm = add32 s.shared_info.nmalloc s.local_info.nmalloc in
    (check (total == 0 && tm == 0) >> shared_cleanup batch) s

-- The allocator starts consistent, unlocked, with nothing in use.
pub init-IsConsistent : (batch size calls : ℕ) → IsConsistent batch (init batch size calls)
unfolding init
init-IsConsistent batch size calls = record {
  local_balanced = λ b. omega arith;
  local_room = λ b. omega arith;
  shared_balanced = λ b. omega arith;
}
