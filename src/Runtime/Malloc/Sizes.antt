-- ===== src/Runtime/Malloc/Sizes.antt =====
-- The size classes of the block allocator: runtime/cilk.h, the functions
-- Cilk_internal_malloc_canonicalize, _size_to_bucket and _bucket_to_size. `line` is the
-- machine's CILK_CACHE_LINE. The `none` is the -1 that "keeps gcc happy".
use cilk.Common.{
  ℕ, ◌*◌, ◌≤◌, ◌<◌, ◌≡◌, ◌⊎◌, Bool, ◌&&◌, Option, none, some, leb, ◌==◌, if◌then◌else◌, arith,
  Bool-cases, inl, inr,
}

-- CILK_INTERNAL_MALLOC_THRESHOLD
abbrev pub threshold : ℕ
threshold = 4096

-- CILK_INTERNAL_MALLOC_BUCKETS
abbrev pub buckets : ℕ
buckets = 9

module _ (line : ℕ) where
  -- `if (size <= n && n >= CILK_CACHE_LINE)`, the test of the two macros
  abbrev fits : ℕ → ℕ → Bool
  fits size n = leb size n && leb line n

  unfoldable pub canonicalize : ℕ → Option ℕ
  canonicalize size =
      if fits size 16
      then some 16
      else if fits size 32
      then some 32
      else if fits size 64
      then some 64
      else if fits size 128
      then some 128
      else if fits size 256
      then some 256
      else if fits size 512
      then some 512
      else if fits size 1024
      then some 1024
      else if fits size 2048
      then some 2048
      else if fits size 4096
      then some 4096
      else none

  unfoldable pub size_to_bucket : ℕ → Option ℕ
  size_to_bucket size =
      if fits size 16
      then some 0
      else if fits size 32
      then some 1
      else if fits size 64
      then some 2
      else if fits size 128
      then some 3
      else if fits size 256
      then some 4
      else if fits size 512
      then some 5
      else if fits size 1024
      then some 6
      else if fits size 2048
      then some 7
      else if fits size 4096
      then some 8
      else none

unfoldable pub bucket_to_size : ℕ → Option ℕ
bucket_to_size b =
    if 0 == b
    then some 16
    else if 1 == b
    then some 32
    else if 2 == b
    then some 64
    else if 3 == b
    then some 128
    else if 4 == b
    then some 256
    else if 5 == b
    then some 512
    else if 6 == b
    then some 1024
    else if 7 == b
    then some 2048
    else if 8 == b
    then some 4096
    else none

-- What the three functions say of one size: a class `c` that holds the size, its bucket `b`, which
-- the class also has, and which names the class.
pub record IsClass (line size c b : ℕ) : Type 0 where
  pub canonical : canonicalize line size ≡ some c
  pub bucket : size_to_bucket line size ≡ some b
  pub bucket_of_class : size_to_bucket line c ≡ some b
  pub size_of_bucket : bucket_to_size b ≡ some c
  pub bucket_in : b < buckets
  pub holds : size ≤ c
  pub in_threshold : c ≤ threshold
  pub line_holds : line ≤ c

-- Every size up to the threshold has a class, if a cache line has at most 4096 bytes. The class
-- holds the size and a line; its bucket is the size's own bucket and maps back to the class.
pub size-IsClass :
    (line size : ℕ)
    → line ≤ threshold
    → size ≤ threshold
    → (c : ℕ) × (b : ℕ) × IsClass line size c b
unfolding canonicalize size_to_bucket bucket_to_size
size-IsClass line size hl hs = elim (Bool-cases (fits line size 16)) [
  | inl at0 ↦ (16, 0, ground arith)
  | inr not0 ↦ elim (Bool-cases (fits line size 32)) [
    | inl at1 ↦ (32, 1, ground arith)
    | inr not1 ↦ elim (Bool-cases (fits line size 64)) [
      | inl at2 ↦ (64, 2, ground arith)
      | inr not2 ↦ elim (Bool-cases (fits line size 128)) [
        | inl at3 ↦ (128, 3, ground arith)
        | inr not3 ↦ elim (Bool-cases (fits line size 256)) [
          | inl at4 ↦ (256, 4, ground arith)
          | inr not4 ↦ elim (Bool-cases (fits line size 512)) [
            | inl at5 ↦ (512, 5, ground arith)
            | inr not5 ↦ elim (Bool-cases (fits line size 1024)) [
              | inl at6 ↦ (1024, 6, ground arith)
              | inr not6 ↦ elim (Bool-cases (fits line size 2048)) [
                | inl at7 ↦ (2048, 7, ground arith)
                | inr not7 ↦ elim (Bool-cases (fits line size 4096)) [
                  | inl at8 ↦ (4096, 8, ground arith)
                  | inr not8 ↦ absurd (ground arith)
                ]
              ]
            ]
          ]
        ]
      ]
    ]
  ]
]

-- A class wastes little: it is the smallest, 16 bytes or a line's, or less than twice the size.
pub canonicalize_tight :
    (line size c : ℕ) → canonicalize line size ≡ some c → (c ≤ 16) ⊎ (c < 2 * line) ⊎ (c < 2 * size)
unfolding canonicalize
canonicalize_tight line size c h = ground arith
