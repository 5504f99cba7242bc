-- ===== src/Runtime/Malloc/Loops.antt =====
-- The loops of Cilk_internal_malloc and Cilk_internal_free (runtime/internal-malloc.c): one batch is
-- enough for each.
use cilk.Common.{
  ℕ, suc, ◌/◌, ◌≤◌, ◌≡◌, refl, ap, ◌≢◌, true, false, List, [], ◌∷◌, length, arith, Returns,
  Returns-bind, Returns-mono, ◌>>=◌, Bool-cases, inl, inr,
}
use cilk.Common.Int.{pos, ◌+ℤ◌, ◌-ℤ◌, ◌≤ℤ◌, int_laws, parts_of_eq, leb_ℤ, le_of_leb_ℤ, lt_of_leb_ℤ}
use cilk.Runtime.Malloc.Sizes.{threshold, IsClass}
use cilk.Runtime.Malloc.State.{Allocator, IsConsistent}
use cilk.Runtime.Malloc.Global.{global_im_alloc, global_im_free}
use cilk.Runtime.Malloc.Local.{
  malloc_sized, malloc_loop, free_sized, free_loop, allocate_batch, free_batch, repeat,
}
use cilk.Runtime.Malloc.Batch.{Kept, Kept-trans, alloc_rounds, free_loop-room}
use cilk.Runtime.Malloc.Release.{free_rounds, malloc_loop-hit}
use cilk.Runtime.Malloc.Critical.{
  critical_section, IsConsistent-locked, Kept-unlocked, pushed-Kept, taken-Kept,
}

module _ (line batch : ℕ) (malloc : ℕ → ℕ) (fits : line ≤ threshold) (two : 2 ≤ batch)
    (never_null : (i : ℕ) → malloc i ≢ 0) where
  allocate_batch-Kept :
      {size c b : ℕ} (f : ℕ) (s : Allocator)
      → IsClass line size c b
      → IsConsistent batch s
      → s.locked ≡ false
      → (s.local b).free_list ≡ []
      → Returns
          (allocate_batch line batch malloc
            (λ p. free_sized line batch malloc (suc (suc f)) p c)
            c
            b
            s)
          (λ _ s'. Kept batch s s' × ((s'.local b).count ≡ (s.local b).count -ℤ pos (batch / 2)))
  unfolding allocate_batch
  allocate_batch-Kept {c} {b} f s k h free e =
      critical_section
        (repeat (batch / 2)
          (global_im_alloc malloc c b >>= λ p. free_sized line batch malloc (suc (suc f)) p c))
        (λ s'. Kept batch s s' × ((s'.local b).count ≡ (s.local b).count -ℤ pos (batch / 2))) s free
        (Returns-mono
          (repeat (batch / 2)
            (global_im_alloc malloc c b >>= λ p. free_sized line batch malloc (suc (suc f)) p c)
            (record s { locked = true }))
          _ _
          (alloc_rounds batch malloc never_null line c b f (batch / 2) (record s { locked = true })
            k.in_threshold k.bucket_in k.bucket_of_class (IsConsistent-locked s true h)
            (omega (int_laws, h.local_balanced b, h.local_room b, ap length e)))
          (λ _ t q. (Kept-unlocked s t free q.0, q.1)))

  free_batch-Kept :
      {size c b : ℕ} (f : ℕ) (s : Allocator)
      → size ≤ threshold
      → IsClass line size c b
      → IsConsistent batch s
      → s.locked ≡ false
      → batch / 2 ≤ length (s.local b).free_list
      → Returns
          (free_batch line batch malloc
            (malloc_sized line batch malloc (suc (suc f)) size)
            size
            b
            s)
          (λ _ s'. Kept batch s s' × ((s'.local b).count ≡ (s.local b).count +ℤ pos (batch / 2)))
  unfolding free_batch
  free_batch-Kept {size} {c} {b} f s hs k h free e =
      critical_section
        (repeat (batch / 2)
          (malloc_sized line batch malloc (suc (suc f)) size >>= λ p. global_im_free p size b))
        (λ s'. Kept batch s s' × ((s'.local b).count ≡ (s.local b).count +ℤ pos (batch / 2))) s free
        (Returns-mono
          (repeat (batch / 2)
            (malloc_sized line batch malloc (suc (suc f)) size >>= λ p. global_im_free p size b)
            (record s { locked = true }))
          _ _
          (free_rounds batch malloc f (batch / 2) (record s { locked = true }) hs k
            (IsConsistent-locked s true h) e)
          (λ _ t q. (Kept-unlocked s t free q.0, q.1)))

  malloc_loop-nonempty :
      (c b f : ℕ) (l : List ℕ) (s : Allocator)
      → IsConsistent batch s
      → (s.local b).free_list ≡ l
      → 1 ≤ length l
      → Returns (malloc_loop line batch malloc (suc f) c b s) (λ _ s'. Kept batch s s')
  malloc_loop-nonempty c b f [] s h e p = absurd (omega arith)
  malloc_loop-nonempty c b f (mem ∷ rest) s h e p =
      rw (malloc_loop-hit batch malloc line c b f mem rest s e) (taken-Kept b s h e)

  -- A list that is empty has room for a batch, so after one batch the loop finds a block.
  pub malloc_loop-Returns :
      {size c b : ℕ} (f : ℕ) (l : List ℕ) (s : Allocator)
      → IsClass line size c b
      → IsConsistent batch s
      → s.locked ≡ false
      → (s.local b).free_list ≡ l
      → Returns (malloc_loop line batch malloc (suc (suc (suc f))) c b s) (λ _ s'. Kept batch s s')
  unfolding malloc_loop
  malloc_loop-Returns {c} {b} f (mem ∷ rest) s k h free e =
      malloc_loop-nonempty c b (suc (suc f)) (mem ∷ rest) s h e (omega arith)
  malloc_loop-Returns {c} {b} f [] s k h free e =
      rw (e, malloc_loop)
        (Returns-bind
          (allocate_batch line batch malloc (λ p. free_sized line batch malloc (suc (suc f)) p c) c
            b s)
          (λ _. malloc_loop line batch malloc (suc (suc f)) c b) _ _
          (allocate_batch-Kept f s k h free e)
          (λ _ t q.
            Returns-mono (malloc_loop line batch malloc (suc (suc f)) c b t) _ _
              (malloc_loop-nonempty c b (suc f) (t.local b).free_list t q.0.consistent refl (
                omega (
                  int_laws,
                  h.local_balanced b,
                  q.0.consistent.local_balanced b,
                  parts_of_eq q.1,
                  ap length e,
                )))
              (λ _ u r. Kept-trans q.0 r)))

  -- A list with no room holds a batch, so after one batch the loop finds room.
  pub free_loop-Returns :
      {size c b : ℕ} (f p : ℕ) (s : Allocator)
      → size ≤ threshold
      → IsClass line size c b
      → IsConsistent batch s
      → s.locked ≡ false
      → Returns
          (free_loop line batch malloc (suc (suc (suc f))) p size b s)
          (λ _ s'. Kept batch s s')
  unfolding free_loop
  free_loop-Returns {size} {c} {b} f p s hs k h free =
      elim (Bool-cases (leb_ℤ (s.local b).count (pos 0))) [
        | inl full ↦
            rw (full, free_loop)
              (Returns-bind
                (free_batch line batch malloc (malloc_sized line batch malloc (suc (suc f)) size)
                  size b s)
                (λ _. free_loop line batch malloc (suc (suc f)) p size b) _ _
                (free_batch-Kept f s hs k h free (
                  omega (int_laws, h.local_balanced b, le_of_leb_ℤ (s.local b).count (pos 0) full)))
                (λ _ t q.
                  let room : pos 1 ≤ℤ (t.local b).count =
                    omega (int_laws, h.local_room b, parts_of_eq q.1) in
                  rw (free_loop-room batch malloc line size b (suc f) p t room)
                    (Kept-trans q.0 (pushed-Kept b p t q.0.consistent room))))
        | inr room ↦ rw (room, free_loop) (pushed-Kept b p s h (lt_of_leb_ℤ (s.local b).count room))
      ]
