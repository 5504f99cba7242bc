-- ===== src/Runtime/Malloc/Script.antt =====
-- A worker's calls of runtime/internal-malloc.c in sequence, from the start to the cleanup.
use cilk.Common.{
  ℕ, ◌≤◌, ◌≡◌, ◌∙◌, ◌≢◌, refl, sym, ap, false, ◌%◌, ◌^◌, List, [], ◌∷◌, Cmd, ok, Returns,
  Returns-bind, Returns-mono, ◌>>=◌, ◌>>◌,
}
use cilk.Common.Int.{ℤ, pos, ◌+ℤ◌, ◌-ℤ◌}
use cilk.Common.Words.{
  add32, wrap32, add32-wrap32-zero, add32-wrap32-add, add32-wrap32-sub, add32-zero-wrap32,
  wrap32-zero,
}
use cilk.Runtime.Malloc.Sizes.{threshold, buckets}
use cilk.Runtime.Malloc.State.{Allocator, IsConsistent}
use cilk.Runtime.Malloc.Local.{malloc_sized, free_sized}
use cilk.Runtime.Malloc.Batch.{total_used, total_nmalloc}
use cilk.Runtime.Malloc.Safety.{malloc_sized_lem, free_sized_lem}
use cilk.Runtime.Malloc.Cleanup.{init, init-IsConsistent, per_worker_cleanup, global_cleanup}
use cilk.Runtime.Malloc.Cleanup.Counted.{bytes_in, bytes_in_eq}
use cilk.Runtime.Malloc.Cleanup.Complaints.{per_worker_cleanup-Cleaned, global_cleanup-Cleaned}

-- A call of Cilk_internal_malloc or Cilk_internal_free.
pub data Request : Type 0 where
  alloc : (size : ℕ) → Request
  release : (p size : ℕ) → Request

-- The bytes and the blocks that a sequence of calls leaves in use.
unfoldable pub net_used : List Request → ℤ
net_used [] = pos 0
net_used (alloc size ∷ rs) = pos size +ℤ net_used rs
net_used (release p size ∷ rs) = net_used rs -ℤ pos size

unfoldable pub net_blocks : List Request → ℤ
net_blocks [] = pos 0
net_blocks (alloc size ∷ rs) = pos 1 +ℤ net_blocks rs
net_blocks (release p size ∷ rs) = net_blocks rs -ℤ pos 1

pub run : (line batch : ℕ) (malloc : ℕ → ℕ) → List Request → Cmd Allocator (Unit {0})
run line batch malloc [] = ok tt
run line batch malloc (alloc size ∷ rs) =
    malloc_sized line batch malloc 4 size >>= λ p. run line batch malloc rs
run line batch malloc (release p size ∷ rs) =
    free_sized line batch malloc 4 p size >>= λ _. run line batch malloc rs

-- What the cleanup functions note down of the bytes in the free lists.
pub record BytesNoted (s : Allocator) : Type 0 where
  pub local_bytes : s.local_info.in_free_lists ≡ bytes_in buckets s.local % 2 ^ 32
  pub shared_bytes : s.shared_info.in_free_lists ≡ bytes_in buckets s.shared % 2 ^ 32

cleanup-BytesNoted :
    (batch : ℕ) (s : Allocator)
    → IsConsistent batch s
    → total_used s ≡ 0
    → total_nmalloc s ≡ 0
    → Returns ((per_worker_cleanup batch >> global_cleanup batch) s) (λ u s'. BytesNoted s')
cleanup-BytesNoted batch s c used nmalloc =
    Returns-bind (per_worker_cleanup batch s) _ _ _ (per_worker_cleanup-Cleaned batch s c) (λ u t p.
      Returns-mono (global_cleanup batch t) _ _
        (global_cleanup-Cleaned batch t
          (λ b h. rw (ap (λ (x : Allocator). x.shared) p.1) (c.shared_balanced b))
          (rw (ap (λ (x : Allocator). x.shared_info) p.1, p.0.counted.used) used)
          (rw (ap (λ (x : Allocator). x.shared_info) p.1, p.0.counted.nmalloc) nmalloc))
        (λ v s' q. record {
          local_bytes =
              ap (λ (x : Allocator). x.local_info.in_free_lists) q.1
              ∙ p.0.bytes
              ∙ ap (λ n. n % 2 ^ 32)
                  (bytes_in_eq buckets s.local s'.local (λ b.
                    sym (
                      ap (λ (x : Allocator). (x.local b).free_list) q.1
                      ∙ p.0.counted.free_list b)));
          shared_bytes =
              q.0.bytes
              ∙ ap (λ n. n % 2 ^ 32)
                  (bytes_in_eq buckets t.shared s'.shared (λ b. sym (q.0.counted.free_list b)));
        }))

module _ (line batch : ℕ) (malloc : ℕ → ℕ) (fits : line ≤ threshold) (two : 2 ≤ batch)
    (never_null : (i : ℕ) → malloc i ≢ 0) where
  -- What a sequence of calls does from a consistent state.
  pub run_lem :
      (rs : List Request) (s : Allocator)
      → IsConsistent batch s
      → s.locked ≡ false
      → Returns (run line batch malloc rs s) (λ _ s'.
        IsConsistent batch s'
        × (total_used s' ≡ add32 (total_used s) (wrap32 (net_used rs)))
        × (total_nmalloc s' ≡ add32 (total_nmalloc s) (wrap32 (net_blocks rs))))
  unfolding run net_used net_blocks
  run_lem [] s c free = (
    c,
    sym (add32-wrap32-zero s.local_info.used _),
    sym (add32-wrap32-zero s.local_info.nmalloc _),
  )
  run_lem (alloc size ∷ rs) s c free =
      Returns-bind (malloc_sized line batch malloc 4 size s) _ _ _
        (malloc_sized_lem line batch malloc fits two never_null size 0 s c free)
        (λ p t q. Returns-mono (run line batch malloc rs t) _ _ (run_lem rs t q.0 q.1) (λ _ u r. (
          r.0,
          r.1 ∙ rw q.2 (add32-wrap32-add (total_used s) _ _),
          r.2 ∙ rw q.3 (add32-wrap32-add (total_nmalloc s) _ _),
        )))
  run_lem (release p size ∷ rs) s c free =
      Returns-bind (free_sized line batch malloc 4 p size s) _ _ _
        (free_sized_lem line batch malloc fits two never_null size p 0 s c free)
        (λ _ t q. Returns-mono (run line batch malloc rs t) _ _ (run_lem rs t q.0 q.1) (λ _ u r. (
          r.0,
          r.1 ∙ rw q.2 (add32-wrap32-sub (total_used s) _ _),
          r.2 ∙ rw q.3 (add32-wrap32-sub (total_nmalloc s) _ _),
        )))

  -- From the start, a sequence of calls whose net use of bytes and of blocks is a multiple of 2^32 ends
  -- well, and neither cleanup function complains afterwards, though bytes may still be in use: the
  -- counters have wrapped around. Both have then noted the bytes in the free lists modulo 2^32. The
  -- conditions: a cache line has at most 4096 bytes, a batch at least 2 blocks, and the C library never
  -- runs out of memory.
  pub wrapped_leak_is_missed :
      (rs : List Request) (size calls : ℕ)
      → wrap32 (net_used rs) ≡ 0
      → wrap32 (net_blocks rs) ≡ 0
      → Returns
          ((run line batch malloc rs >> (per_worker_cleanup batch >> global_cleanup batch))
            (init batch size calls))
          (λ u s'. BytesNoted s')
  unfolding init
  wrapped_leak_is_missed rs size calls used blocks =
      Returns-bind (run line batch malloc rs (init batch size calls)) _ _ _
        (run_lem rs (init batch size calls) (init-IsConsistent batch size calls) refl)
        (λ _ t q.
          cleanup-BytesNoted batch t q.0 (q.1 ∙ add32-zero-wrap32 _ ∙ used)
            (q.2 ∙ add32-zero-wrap32 _ ∙ blocks))

  -- From the start, any sequence of calls that gives back the bytes and the blocks that it takes
  -- ends well, and neither cleanup function complains afterwards. Both have then noted the bytes in the
  -- free lists modulo 2^32. The conditions: a cache line has at most 4096 bytes, a batch at least 2
  -- blocks, and the C library never runs out of memory.
  pub no_false_leak :
      (rs : List Request) (size calls : ℕ)
      → net_used rs ≡ pos 0
      → net_blocks rs ≡ pos 0
      → Returns
          ((run line batch malloc rs >> (per_worker_cleanup batch >> global_cleanup batch))
            (init batch size calls))
          (λ u s'. BytesNoted s')
  no_false_leak rs size calls used blocks =
      wrapped_leak_is_missed rs size calls (ap wrap32 used ∙ wrap32-zero)
        (ap wrap32 blocks ∙ wrap32-zero)
