-- ===== src/Runtime/Malloc/Cleanup/Complaints.antt =====
-- The cleanup functions of runtime/internal-malloc.c as a whole: what they note down, and when they
-- complain.
use cilk.Common.{
  ==_ne, ℕ, ◌^◌, ◌%◌, ◌≡◌, refl, Bool, false, ◌&&◌, arith, Run, ok, fault, out_of_fuel, assertion,
  ◌≢◌, ◌⊎◌, inl, inr, Returns, Returns-bind,
}
use cilk.Common.Words.{add32_comm}
use cilk.Runtime.Malloc.Sizes.{buckets}
use cilk.Runtime.Malloc.State.{Allocator, IsConsistent}
use cilk.Runtime.Malloc.Batch.{total_used, total_nmalloc}
use cilk.Runtime.Malloc.Cleanup.{
  Pool, cleanup_buckets, cleanup_pool, local_pool, shared_pool, put_local, put_shared,
  per_worker_cleanup, shared_cleanup, global_cleanup,
}
use cilk.Runtime.Malloc.Cleanup.Counted.{
  bytes_in, Counted, Balanced, Unbalanced, cleanup_buckets_cases,
}

-- The bytes and the lengths of all lists are noted, and the rest of the pool is the same.
pub record Cleaned (p q : Pool) : Type 0 where
  pub bytes : q.info.in_free_lists ≡ bytes_in buckets p.lists % 2 ^ 32
  pub counted : Counted buckets p q

cleanup_pool_cases :
    (batch : ℕ) (p : Pool)
    → (Balanced batch buckets p.lists × Returns (cleanup_pool batch p) (λ u q. Cleaned p q))
      ⊎ (Unbalanced batch buckets p.lists × (cleanup_pool batch p ≡ fault assertion))
unfolding cleanup_pool
cleanup_pool_cases batch p = elim (cleanup_buckets_cases batch p buckets (omega arith)) [
  | inr u ↦ inr (u.0, rw u.1)
  | inl w ↦ inl (
    w.0,
    Returns-bind (cleanup_buckets batch buckets p) _ _ _ w.1 (λ bytes q t. record {
      bytes = t.0;
      counted = record {
        free_list = t.1.free_list;
        count = t.1.count;
        noted = t.1.noted;
        info_noted = t.1.info_noted;
        used = t.1.used;
        nmalloc = t.1.nmalloc;
      };
    }),
  )
]

put_local-Cleaned :
    (s : Allocator) (r : Run Pool (Unit {0}))
    → Returns r (λ u q. Cleaned (local_pool s) q)
    → Returns (put_local s r) (λ u s'.
      Cleaned (local_pool s) (local_pool s')
      × (s' ≡ record s { local = s'.local; local_info = s'.local_info }))
put_local-Cleaned s (ok u q) h = (h, refl)
put_local-Cleaned s (fault e) h = absurd h
put_local-Cleaned s out_of_fuel h = absurd h

put_shared-Cleaned :
    (s : Allocator) (r : Run Pool (Unit {0}))
    → Returns r (λ u q. Cleaned (shared_pool s) q)
    → Returns (put_shared s r) (λ u s'.
      Cleaned (shared_pool s) (shared_pool s')
      × (s' ≡ record s { shared = s'.shared; shared_info = s'.shared_info }))
put_shared-Cleaned s (ok u q) h = (h, refl)
put_shared-Cleaned s (fault e) h = absurd h
put_shared-Cleaned s out_of_fuel h = absurd h

-- The cleanup of a worker either ends well or fails with a complaint. It ends well only when in every
-- bucket the free blocks and `count` make up a batch. It has then noted the length of each free list
-- in the descriptor and in the worker's statistics, and the bytes in all lists, modulo 2^32, and changed
-- nothing else. It fails only when some bucket is out of balance.
pub per_worker_cleanup_cases :
    (batch : ℕ) (s : Allocator)
    → (Balanced batch buckets s.local
        × Returns (per_worker_cleanup batch s) (λ u s'.
          Cleaned (local_pool s) (local_pool s')
          × (s' ≡ record s { local = s'.local; local_info = s'.local_info })))
      ⊎ (Unbalanced batch buckets s.local × (per_worker_cleanup batch s ≡ fault assertion))
unfolding per_worker_cleanup
per_worker_cleanup_cases batch s = elim (cleanup_pool_cases batch (local_pool s)) [
  | inr u ↦ inr (u.0, rw u.1)
  | inl w ↦ inl (w.0, put_local-Cleaned s (cleanup_pool batch (local_pool s)) w.1)
]

shared_cleanup-Cleaned :
    (batch : ℕ) (s : Allocator)
    → Balanced batch buckets s.shared
    → Returns (shared_cleanup batch s) (λ u s'.
      Cleaned (shared_pool s) (shared_pool s')
      × (s' ≡ record s { shared = s'.shared; shared_info = s'.shared_info }))
unfolding shared_cleanup
shared_cleanup-Cleaned batch s h = elim (cleanup_pool_cases batch (shared_pool s)) [
  | inr u ↦ absurd (u.0.2 (h u.0.0 u.0.1))
  | inl w ↦ put_shared-Cleaned s (cleanup_pool batch (shared_pool s)) w.1
]

-- From consistent lists the cleanup of a worker is well.
pub per_worker_cleanup-Cleaned :
    (batch : ℕ) (s : Allocator)
    → IsConsistent batch s
    → Returns (per_worker_cleanup batch s) (λ u s'.
      Cleaned (local_pool s) (local_pool s')
      × (s' ≡ record s { local = s'.local; local_info = s'.local_info }))
per_worker_cleanup-Cleaned batch s c = elim (per_worker_cleanup_cases batch s) [
  | inl w ↦ w.1
  | inr u ↦ absurd (u.0.2 (c.local_balanced u.0.0))
]

-- The global cleanup accepts balanced lists when the sums of the counters are 0.
pub global_cleanup-Cleaned :
    (batch : ℕ) (s : Allocator)
    → Balanced batch buckets s.shared
    → total_used s ≡ 0
    → total_nmalloc s ≡ 0
    → Returns (global_cleanup batch s) (λ u s'.
      Cleaned (shared_pool s) (shared_pool s')
      × (s' ≡ record s { shared = s'.shared; shared_info = s'.shared_info }))
unfolding global_cleanup
global_cleanup-Cleaned batch s h used nmalloc =
    rw
      (
        add32_comm s.shared_info.used s.local_info.used,
        add32_comm s.shared_info.nmalloc s.local_info.nmalloc,
        used,
        nmalloc,
      )
      (shared_cleanup-Cleaned batch s h)

and-false : (b : Bool) → (b && false) ≡ false
and-false b = ground arith

-- It reports a leak: it fails when the sum of a counter is not 0.
pub global_cleanup_leak :
    (batch : ℕ) (s : Allocator)
    → (total_used s ≢ 0) ⊎ (total_nmalloc s ≢ 0)
    → global_cleanup batch s ≡ fault assertion
unfolding global_cleanup
global_cleanup_leak batch s (inl h) = rw (add32_comm s.shared_info.used s.local_info.used, ==_ne h)
global_cleanup_leak batch s (inr h) =
    rw (add32_comm s.shared_info.nmalloc s.local_info.nmalloc, ==_ne h, and-false _)
