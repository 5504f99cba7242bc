-- ===== src/Runtime/Malloc/State.antt =====
-- The state of the block allocator: the `Cilk_im_descriptor`s and `Cilk_im_stats` of one worker and
-- of the shared pool (runtime/cilk.h, runtime/cilk-internal.h). The free list that runs through the
-- first words of the free blocks is the list of their addresses.
use cilk.Common.{ℕ, ◌+◌, ◌≡◌, Bool, List, length}
use cilk.Common.Int.{ℤ, pos, pos_part, neg_part, ◌≤ℤ◌}
use cilk.Common.Words.{add32, sub32}

-- struct Cilk_im_descriptor. `length` is only written, by the cleanup functions.
pub record Descriptor : Type 0 where
  pub free_list : List ℕ
  pub length : ℕ
  pub count : ℤ

-- struct Cilk_im_stats. The `int`s that sums are kept in, `used`, `nmalloc` and `in_free_lists`, are bit
-- patterns of 32 bits, which wrap around.
pub record Stats : Type 0 where
  pub used : ℕ
  pub nmalloc : ℕ
  pub in_free_lists : ℕ
  pub length : ℕ → ℕ

-- What the worker `ws` sees: its own descriptors and counters, and the shared ones. `locked` is
-- `global_im_lock`, taken by this worker. `calls` counts the calls of the C library's allocator.
pub record Allocator : Type 0 where
  pub local : ℕ → Descriptor
  pub local_info : Stats
  pub shared : ℕ → Descriptor
  pub shared_info : Stats
  pub locked : Bool
  pub pool_begin : ℕ
  pub pool_end : ℕ
  pub im_allocated : ℕ
  pub im_wasted : ℕ
  pub alloc_list : List ℕ
  pub alloc_list_size : ℕ
  pub calls : ℕ

-- `WHEN_CILK_DEBUG(info.used += size; info.nmalloc += 1)`
abbrev pub charge : Stats → ℕ → Stats
charge i size = record i { used = add32 i.used size; nmalloc = add32 i.nmalloc 1 }

-- `WHEN_CILK_DEBUG(info.used -= size; info.nmalloc -= 1)`
abbrev pub discharge : Stats → ℕ → Stats
discharge i size = record i { used = sub32 i.used size; nmalloc = sub32 i.nmalloc 1 }

-- The consistency that the two `cleanup` functions complain about: the free blocks and the room for
-- more make up a batch.
abbrev pub IsBalanced : ℕ → Descriptor → Type 0
IsBalanced batch d = pos_part d.count + length d.free_list ≡ batch + neg_part d.count

-- Every bucket is balanced, and no worker's own list has grown past a batch.
pub record IsConsistent (batch : ℕ) (s : Allocator) : Type 0 where
  pub local_balanced : (b : ℕ) → IsBalanced batch (s.local b)
  pub local_room : (b : ℕ) → pos 0 ≤ℤ (s.local b).count
  pub shared_balanced : (b : ℕ) → IsBalanced batch (s.shared b)
