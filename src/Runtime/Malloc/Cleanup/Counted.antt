-- ===== src/Runtime/Malloc/Cleanup/Counted.antt =====
-- What the cleanup functions of runtime/internal-malloc.c count, and when they complain.
use cilk.Common.{
  ℕ, zero, suc, ◌+◌, ◌*◌, ◌^◌, ◌%◌, ◌<◌, ◌≤◌, ◌≡◌, refl, Bool, true, false, some, List, [], ◌∷◌,
  ◌==◌, update, length, arith, ok, fault, assertion, ◌⊎◌, inl, inr, Returns, Returns-bind,
  Returns-then, Bool-cases, sym, subst, ==_true, ==_eq,
}
use cilk.Common.Int.{pos, pos_part, neg_part, ◌+ℤ◌, int_laws, eq_ℤ_lem, eq_ℤ_ne, parts_of_eq}
use cilk.Common.Words.{add32, add32_mod}
use cilk.Runtime.Malloc.Sizes.{buckets, bucket_to_size}
use cilk.Runtime.Malloc.State.{Descriptor, IsBalanced}
use cilk.Runtime.Malloc.Cleanup.{free_list_length, Pool, cleanup_bucket, cleanup_buckets}

free_list_length_lem : (l : List ℕ) → free_list_length l ≡ length l
unfolding free_list_length
free_list_length_lem [] = refl
free_list_length_lem (x ∷ l) = omega (arith, free_list_length_lem l)

-- The bytes in the lists of the buckets below `n`.
pub bytes_in : ℕ → (ℕ → Descriptor) → ℕ
bytes_in zero lists = 0
bytes_in (suc n) lists = bytes_in n lists + (16 * 2 ^ n) * length (lists n).free_list

pub bytes_in_eq :
    (n : ℕ) (f g : ℕ → Descriptor)
    → ((b : ℕ) → (f b).free_list ≡ (g b).free_list)
    → bytes_in n f ≡ bytes_in n g
unfolding bytes_in
bytes_in_eq zero f g h = refl
bytes_in_eq (suc n) f g h = rw (bytes_in_eq n f g h, h n)

bucket_to_size_lem : (i : ℕ) → i < buckets → bucket_to_size i ≡ some (16 * 2 ^ i)
unfolding bucket_to_size
bucket_to_size_lem zero h = refl
bucket_to_size_lem (suc zero) h = refl
bucket_to_size_lem (suc (suc zero)) h = refl
bucket_to_size_lem (suc (suc (suc zero))) h = refl
bucket_to_size_lem (suc (suc (suc (suc zero)))) h = refl
bucket_to_size_lem (suc (suc (suc (suc (suc zero))))) h = refl
bucket_to_size_lem (suc (suc (suc (suc (suc (suc zero)))))) h = refl
bucket_to_size_lem (suc (suc (suc (suc (suc (suc (suc zero))))))) h = refl
bucket_to_size_lem (suc (suc (suc (suc (suc (suc (suc (suc zero)))))))) h = refl
bucket_to_size_lem (suc (suc (suc (suc (suc (suc (suc (suc (suc i))))))))) h = absurd (omega arith)

-- The lengths of the buckets below `n` are noted in both places, and the rest is the same.
pub record Counted (n : ℕ) (p q : Pool) : Type 0 where
  pub free_list : (b : ℕ) → (q.lists b).free_list ≡ (p.lists b).free_list
  pub count : (b : ℕ) → (q.lists b).count ≡ (p.lists b).count
  pub noted : (b : ℕ) → b < n → (q.lists b).length ≡ length (p.lists b).free_list
  pub info_noted : (b : ℕ) → b < n → q.info.length b ≡ length (p.lists b).free_list
  pub used : q.info.used ≡ p.info.used
  pub nmalloc : q.info.nmalloc ≡ p.info.nmalloc

Counted-zero : (p : Pool) → Counted 0 p p
Counted-zero p = record {
  free_list = λ b. refl;
  count = λ b. refl;
  noted = λ b h. absurd (omega arith);
  info_noted = λ b h. absurd (omega arith);
  used = refl;
  nmalloc = refl;
}

-- the state after a round
abbrev noted_at : ℕ → Pool → Pool
noted_at i q =
    let d = q.lists i in
    let k = length d.free_list in
    record {
      lists = update q.lists i (record d { length = k });
      info = record q.info { length = update q.info.length i k };
    }

Counted-suc : (n : ℕ) (p q : Pool) → Counted n p q → Counted (suc n) p (noted_at n q)
Counted-suc n p q c = record {
  free_list = λ b. ground (arith, c.free_list b);
  count = λ b. ground (arith, c.count b);
  noted = λ b h. ground (arith, c.free_list b, c.noted b);
  info_noted = λ b h. ground (arith, c.free_list b, c.info_noted b);
  used = c.used;
  nmalloc = c.nmalloc;
}

-- the balance of a bucket, decided
abbrev is_balanced : ℕ → Descriptor → Bool
is_balanced batch d = pos_part d.count + length d.free_list == batch + neg_part d.count

IsBalanced-true : (batch : ℕ) (d : Descriptor) → is_balanced batch d ≡ true → IsBalanced batch d
IsBalanced-true batch d e = ==_true e

IsBalanced-false :
    (batch : ℕ) (d : Descriptor) → is_balanced batch d ≡ false → IsBalanced batch d → ⊥
IsBalanced-false batch d e h = cc (e, ==_eq h)

-- Some bucket below `n` is out of balance.
abbrev pub Unbalanced : ℕ → ℕ → (ℕ → Descriptor) → Type 0
Unbalanced batch n lists = (b : ℕ) × (b < n) × (IsBalanced batch (lists b) → ⊥)

abbrev pub Balanced : ℕ → ℕ → (ℕ → Descriptor) → Type 0
Balanced batch n lists = (b : ℕ) → b < n → IsBalanced batch (lists b)

Balanced-suc :
    (batch n : ℕ) (lists : ℕ → Descriptor)
    → Balanced batch n lists
    → IsBalanced batch (lists n)
    → Balanced batch (suc n) lists
Balanced-suc batch n lists h k b lt = elim (Bool-cases (b == n)) [
  | inl e ↦ subst (λ i. IsBalanced batch (lists i)) (sym (==_true e)) k
  | inr e ↦ h b (ground (arith))
]

module _ (batch n : ℕ) (p : Pool) (lt : n < buckets) where
  cleanup_bucket-well :
      (bytes : ℕ) (q : Pool)
      → Counted n p q
      → IsBalanced batch (p.lists n)
      → cleanup_bucket batch bytes n q
        ≡ ok (add32 bytes ((16 * 2 ^ n) * length (p.lists n).free_list)) (noted_at n q)
  unfolding cleanup_bucket
  cleanup_bucket-well bytes q c h =
      rw
        (
          free_list_length_lem,
          c.free_list n,
          c.count n,
          eq_ℤ_lem ((p.lists n).count +ℤ pos (length (p.lists n).free_list)) (pos batch)
              (omega (int_laws, h)),
        )
        (rw (bucket_to_size_lem n lt) refl)

  cleanup_bucket-bad :
      (bytes : ℕ) (q : Pool)
      → Counted n p q
      → (IsBalanced batch (p.lists n) → ⊥)
      → cleanup_bucket batch bytes n q ≡ fault assertion
  unfolding cleanup_bucket
  cleanup_bucket-bad bytes q c h = rw (
    free_list_length_lem,
    c.free_list n,
    c.count n,
    eq_ℤ_ne ((p.lists n).count +ℤ pos (length (p.lists n).free_list)) (pos batch)
        (λ e. h (omega (int_laws, parts_of_eq e))),
  )

-- the value and the state of the loop over the buckets below `n`
abbrev pub Totalled : ℕ → Pool → ℕ → Pool → Type 0
Totalled n p bytes q = (bytes ≡ bytes_in n p.lists % 2 ^ 32) × Counted n p q

module _ (batch : ℕ) (p : Pool) where
  cleanup_buckets-round :
      (n bytes : ℕ) (q : Pool)
      → n < buckets
      → IsBalanced batch (p.lists n)
      → Totalled n p bytes q
      → Returns (cleanup_bucket batch bytes n q) (Totalled (suc n) p)
  unfolding bytes_in
  cleanup_buckets-round n bytes q lt h t =
      rw (cleanup_bucket-well batch n p lt bytes q t.1 h)
        (rw t.0 (add32_mod (bytes_in n p.lists) _), Counted-suc n p q t.1)

  -- The loop is well where all its buckets are balanced, and fails where one is not.
  pub cleanup_buckets_cases :
      (n : ℕ)
      → n ≤ buckets
      → (Balanced batch n p.lists × Returns (cleanup_buckets batch n p) (Totalled n p))
        ⊎ (Unbalanced batch n p.lists × (cleanup_buckets batch n p ≡ fault assertion))
  unfolding cleanup_buckets bytes_in
  cleanup_buckets_cases zero le = inl (λ b h. absurd (omega arith), (refl, Counted-zero p))
  cleanup_buckets_cases (suc n) le = elim (cleanup_buckets_cases n (omega arith)) [
    | inr u ↦ inr ((u.0.0, ground arith, u.0.2), rw u.1)
    | inl w ↦ elim (Bool-cases (is_balanced batch (p.lists n))) [
      | inl e ↦
          let h = IsBalanced-true batch (p.lists n) e in
          inl (
            Balanced-suc batch n p.lists w.0 h,
            Returns-bind (cleanup_buckets batch n p) _ _ _ w.1
                (λ bytes q t. cleanup_buckets-round n bytes q (omega arith) h t),
          )
      | inr e ↦
          let h = IsBalanced-false batch (p.lists n) e in
          inr (
            (n, omega arith, h),
            Returns-then (cleanup_buckets batch n p) _ _ _ w.1
                (λ bytes q t. cleanup_bucket-bad batch n p (omega arith) bytes q t.1 h),
          )
    ]
  ]
