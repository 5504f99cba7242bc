-- ===== src/Runtime/Malloc/Fast.antt =====
-- The inline fast paths Cilk_internal_malloc_fast and Cilk_internal_free_fast of
-- runtime/cilk-cilk2c-pre.h, and that they do what the allocator's own functions do.
use cilk.Common.{
  ℕ, suc, ◌≤◌, ◌≡◌, refl, List, [], ◌∷◌, arith, ltb, if◌then◌else◌, Cmd, ok, ◌>>=◌, sym, le→not-ltb,
  Bool-cases, inl, inr,
}
use cilk.Common.Int.{pos, leb_ℤ, lt_of_leb_ℤ}
use cilk.Runtime.Malloc.Sizes.{threshold, size_to_bucket, IsClass, size-IsClass}
use cilk.Runtime.Malloc.State.{Allocator}
use cilk.Runtime.Malloc.Local.{
  known, charge_malloc, charge_free, malloc_sized, free_sized, push_local,
}
use cilk.Runtime.Malloc.Batch.{free_push, free_sized-room}
use cilk.Runtime.Malloc.Release.{taken, malloc_sized-hit}

module _ (line batch : ℕ) (malloc : ℕ → ℕ) (fuel : ℕ) where
  -- look at the free list
  fast_take : ℕ → ℕ → List ℕ → Cmd Allocator ℕ
  fast_take size bucket [] s = malloc_sized line batch malloc fuel size s
  fast_take size bucket (mem ∷ rest) s = ok mem (charge_malloc size (taken bucket rest s))

  pub malloc_fast : ℕ → Cmd Allocator ℕ
  unfolding fast_take
  malloc_fast size s =
      if ltb threshold size
      then malloc_sized line batch malloc fuel size s
      else (do
        bucket ← known (size_to_bucket line size)
        λ s'. fast_take size bucket (s'.local bucket).free_list s')
          s

  pub free_fast : ℕ → ℕ → Cmd Allocator (Unit {0})
  unfolding push_local
  free_fast p size s =
      if ltb threshold size
      then free_sized line batch malloc fuel p size s
      else (do
        bucket ← known (size_to_bucket line size)
        λ s'.
            if leb_ℤ (s'.local bucket).count (pos 0)
            then free_sized line batch malloc fuel p size s'
            else ok tt (charge_free size (free_push bucket p s')))
          s

module _ (line batch : ℕ) (malloc : ℕ → ℕ) where
  fast_take-eq :
      {size c b : ℕ} (f : ℕ) (l : List ℕ) (s : Allocator)
      → size ≤ threshold
      → IsClass line size c b
      → (s.local b).free_list ≡ l
      → fast_take line batch malloc (suc (suc f)) size b l s
        ≡ malloc_sized line batch malloc (suc (suc f)) size s
  unfolding fast_take
  fast_take-eq f [] s hs k e = refl
  fast_take-eq f (mem ∷ rest) s hs k e = sym (malloc_sized-hit batch malloc f mem rest s hs k e)

  -- The fast path of an allocation has the result and the effect of Cilk_internal_malloc, from every
  -- state and at every size, if a cache line has at most 4096 bytes; also where that function fails.
  pub malloc_fast-eq-malloc_sized :
      (size f : ℕ) (s : Allocator)
      → line ≤ threshold
      → malloc_fast line batch malloc (suc (suc f)) size s
        ≡ malloc_sized line batch malloc (suc (suc f)) size s
  unfolding malloc_fast
  malloc_fast-eq-malloc_sized size f s fits = elim (Bool-cases (ltb threshold size)) [
    | inl large ↦ rw large
    | inr small ↦ small_case (ground arith) (size-IsClass line size fits (ground arith)).2
  ]
    where
      small_case :
          {c b : ℕ}
          → size ≤ threshold
          → IsClass line size c b
          → malloc_fast line batch malloc (suc (suc f)) size s
            ≡ malloc_sized line batch malloc (suc (suc f)) size s
      small_case {b} hs k =
          rw (le→not-ltb hs, k.bucket) (fast_take-eq f (s.local b).free_list s hs k refl)

  -- The fast path of a release has the effect of Cilk_internal_free, from every state and at every
  -- size, if a cache line has at most 4096 bytes; also where that function fails.
  pub free_fast-eq-free_sized :
      (size p f : ℕ) (s : Allocator)
      → line ≤ threshold
      → free_fast line batch malloc (suc (suc f)) p size s
        ≡ free_sized line batch malloc (suc (suc f)) p size s
  unfolding free_fast
  free_fast-eq-free_sized size p f s fits = elim (Bool-cases (ltb threshold size)) [
    | inl large ↦ rw large
    | inr small ↦ small_case (ground arith) (size-IsClass line size fits (ground arith)).2
  ]
    where
      small_case :
          {c b : ℕ}
          → size ≤ threshold
          → IsClass line size c b
          → free_fast line batch malloc (suc (suc f)) p size s
            ≡ free_sized line batch malloc (suc (suc f)) p size s
      small_case {b} hs k = elim (Bool-cases (leb_ℤ (s.local b).count (pos 0))) [
        | inl full ↦ rw (le→not-ltb hs, k.bucket) (rw full)
        | inr room ↦
            rw (le→not-ltb hs, k.bucket)
              (rw room (
                sym (
                  free_sized-room batch malloc line size b f p s hs k.bucket
                    (lt_of_leb_ℤ (s.local b).count room))))
      ]
