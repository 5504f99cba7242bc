-- ===== src/Runtime/Malloc/Global.antt =====
-- The shared pool: extend_global_pool, global_im_alloc and global_im_free of
-- runtime/internal-malloc.c. `malloc i` is what the i-th call of the C library's allocator returns,
-- NULL (0) when it is out of memory.
use cilk.Common.{
  ℕ, ◌+◌, ◌-◌, ◌*◌, List, [], ◌∷◌, ◌++◌, not, length, update, leb, ltb, ◌==◌, if◌then◌else◌, Cmd,
  ok, check, ◌>>=◌, ◌>>◌,
}
use cilk.Common.Int.{pos, ◌+ℤ◌, ◌-ℤ◌}
use cilk.Runtime.Malloc.Sizes.{threshold, buckets}
use cilk.Runtime.Malloc.State.{Allocator, charge, discharge}

-- CILK_INTERNAL_MALLOC_CHUNK
abbrev pub chunk : ℕ
chunk = 32 * 1024

-- DEFAULT_ALLOC_LIST_SIZE
abbrev pub default_alloc_list_size : ℕ
default_alloc_list_size = 10

module _ (malloc : ℕ → ℕ) where
  -- `Cilk_malloc(size)`
  abbrev libc_malloc : Cmd Allocator ℕ
  libc_malloc s = ok (malloc s.calls) (record s { calls = s.calls + 1 })

  -- The array of chunks grows when `alloc_list_index` reaches its size.
  grow_alloc_list : Cmd Allocator (Unit {0})
  grow_alloc_list s =
      if leb s.alloc_list_size (length s.alloc_list)
      then (do
        p ← libc_malloc
        check (not (p == 0))
        λ s'. ok tt (record s' { alloc_list_size = s'.alloc_list_size + default_alloc_list_size }))
          s
      else ok tt s

  extend_global_pool : Cmd Allocator (Unit {0})
  unfolding grow_alloc_list
  extend_global_pool = do
    p ← libc_malloc
    check (not (p == 0))
    (λ s.
        ok tt (record s {
          pool_begin = p;
          pool_end = p + chunk;
          im_allocated = s.im_allocated + chunk;
        }))
    grow_alloc_list
    λ s. ok tt (record s { alloc_list = s.alloc_list ++ (s.pool_begin ∷ []) })

  -- `mem = global_pool_begin; global_pool_begin += size`
  abbrev carve : ℕ → Cmd Allocator ℕ
  carve size s = ok s.pool_begin (record s { pool_begin = s.pool_begin + size })

  -- allocate from the pool; what is left of a chunk that is too short is wasted
  unfoldable pub from_pool : ℕ → Cmd Allocator ℕ
  unfolding extend_global_pool
  from_pool size s =
      if ltb s.pool_end (s.pool_begin + size)
      then (extend_global_pool >> carve size)
          (record s { im_wasted = s.im_wasted + (s.pool_end - s.pool_begin) })
      else carve size s

  -- `d->free_list = ((void **) mem)[0]; d->count++`, or else the pool
  unfoldable pub from_list : ℕ → ℕ → List ℕ → Cmd Allocator ℕ
  unfolding from_pool
  from_list size bucket [] s = from_pool size s
  from_list size bucket (mem ∷ rest) s = ok mem (record s {
    shared =
        update s.shared bucket
          (record (s.shared bucket) { free_list = rest; count = (s.shared bucket).count +ℤ pos 1 });
  })

  unfoldable pub global_im_alloc : ℕ → ℕ → Cmd Allocator ℕ
  unfolding from_list
  global_im_alloc size bucket = do
    check (leb size threshold)
    check (ltb bucket buckets)
    (λ s. ok tt (record s { shared_info = charge s.shared_info size }))
    λ s. from_list size bucket (s.shared bucket).free_list s

unfoldable pub global_im_free : ℕ → ℕ → ℕ → Cmd Allocator (Unit {0})
global_im_free p size bucket = do
  check (leb size threshold)
  check (ltb bucket buckets)
  λ s. ok tt (record s {
    shared_info = discharge s.shared_info size;
    shared = update s.shared bucket (record (s.shared bucket) {
      free_list = p ∷ (s.shared bucket).free_list;
      count = (s.shared bucket).count -ℤ pos 1;
    });
  })
