-- ===== src/Runtime/Malloc/Release.antt =====
-- im_free_batch of runtime/internal-malloc.c: blocks go from a full list back to the shared pool.
use cilk.Common.{
  ℕ, zero, suc, ◌≤◌, ◌≡◌, refl, ◌∙◌, ap, List, [], ◌∷◌, update, length, arith, ok, Returns,
  Returns-bind, Returns-mono, ◌>>=◌, le→leb, lt→ltb, le→not-ltb,
}
use cilk.Common.Int.{pos, ◌+ℤ◌, parts_of_eq, int_laws}
use cilk.Common.Words.{add32_in}
use cilk.Runtime.Malloc.Sizes.{threshold, IsClass}
use cilk.Runtime.Malloc.State.{Allocator, IsConsistent}
use cilk.Runtime.Malloc.Global.{global_im_free}
use cilk.Runtime.Malloc.Local.{repeat, charge_malloc, malloc_sized, malloc_loop}
use cilk.Runtime.Malloc.Batch.{Kept, Kept-refl, Kept-trans, update-IsBalanced, update-room}

abbrev pub taken : ℕ → List ℕ → Allocator → Allocator
taken b rest s = record s {
  local =
      update s.local b
        (record (s.local b) { free_list = rest; count = (s.local b).count +ℤ pos 1 });
}

module _ (batch : ℕ) (malloc : ℕ → ℕ) where
  pub malloc_loop-hit :
      (line c b f mem : ℕ) (rest : List ℕ) (s : Allocator)
      → (s.local b).free_list ≡ mem ∷ rest
      → malloc_loop line batch malloc (suc f) c b s ≡ ok mem (taken b rest s)
  unfolding malloc_loop
  malloc_loop-hit line c b f mem rest s e = rw (e, malloc_loop)

  -- A block that is at hand in the worker's list is taken from it.
  pub malloc_sized-hit :
      {line size c b : ℕ} (f mem : ℕ) (rest : List ℕ) (s : Allocator)
      → size ≤ threshold
      → IsClass line size c b
      → (s.local b).free_list ≡ mem ∷ rest
      → malloc_sized line batch malloc (suc (suc f)) size s
        ≡ ok mem (taken b rest (charge_malloc size s))
  unfolding malloc_sized
  malloc_sized-hit {line} {size} {c} {b} f mem rest s hs k e =
      rw (le→not-ltb hs, k.canonical)
        (rw k.bucket_of_class (malloc_loop-hit line c b f mem rest (charge_malloc size s) e))

  free_round :
      {line size c b : ℕ} (f : ℕ) (l : List ℕ) (s : Allocator)
      → size ≤ threshold
      → IsClass line size c b
      → IsConsistent batch s
      → (s.local b).free_list ≡ l
      → 1 ≤ length l
      → Returns
          ((malloc_sized line batch malloc (suc (suc f)) size >>= λ p. global_im_free p size b) s)
          (λ _ s'. Kept batch s s' × ((s'.local b).count ≡ (s.local b).count +ℤ pos 1))
  unfolding global_im_free
  free_round f [] s hs k c e h = absurd (omega arith)
  free_round {b} f (mem ∷ rest) s hs k c e h =
      rw (malloc_sized-hit f mem rest s hs k e, le→leb hs, lt→ltb k.bucket_in)
        (
          record {
            consistent = record {
              local_balanced =
                  update-IsBalanced batch s.local b _ c.local_balanced
                    (omega (int_laws, c.local_balanced b, ap length e));
              local_room = update-room s.local b _ c.local_room (omega (int_laws, c.local_room b));
              shared_balanced =
                  update-IsBalanced batch s.shared b _ c.shared_balanced
                    (omega (int_laws, c.shared_balanced b));
            };
            locked = refl;
            used = add32_in s.local_info.used s.shared_info.used _;
            nmalloc = add32_in s.local_info.nmalloc s.shared_info.nmalloc _;
          },
          ground arith,
        )

  pub free_rounds :
      {line size c b : ℕ} (f n : ℕ) (s : Allocator)
      → size ≤ threshold
      → IsClass line size c b
      → IsConsistent batch s
      → n ≤ length (s.local b).free_list
      → Returns
          (repeat n
            (malloc_sized line batch malloc (suc (suc f)) size >>= λ p. global_im_free p size b)
            s)
          (λ _ s'. Kept batch s s' × ((s'.local b).count ≡ (s.local b).count +ℤ pos n))
  unfolding repeat
  free_rounds f zero s hs k c h = (Kept-refl c, omega int_laws)
  free_rounds {line} {size} {b} f (suc n) s hs k c h =
      Returns-bind
        ((malloc_sized line batch malloc (suc (suc f)) size >>= λ p. global_im_free p size b) s) _ _
        _ (free_round f (s.local b).free_list s hs k c refl (omega arith))
        (λ _ t q.
          Returns-mono (repeat n _ t) _ _
            (free_rounds f n t hs k q.0.consistent (
              omega
                (int_laws, q.0.consistent.local_balanced b, c.local_balanced b, parts_of_eq q.1)))
            (λ _ u r. (Kept-trans q.0 r.0, r.1 ∙ rw q.1 (omega int_laws))))
