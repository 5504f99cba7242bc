-- ===== src/Common/Words.antt =====
-- Words of 32 bits: an `int` that wraps around is kept as its bit pattern.
use Prim.Native.Nat.{ℕ, ◌+◌, ◌-◌, ◌%◌, ◌^◌}
use mathlib.Core.Path.{◌≡◌, refl}
use native.Mathlib.Omega.{arith}
use cilk.Common.Int.{ℤ, pos, pos_part, neg_part, ◌+ℤ◌, ◌-ℤ◌, +ℤ_parts, -ℤ_parts}

-- `a += n`, for an `n` of any width
unfoldable pub add32 : ℕ → ℕ → ℕ
add32 a n = (a + n) % 2 ^ 32

-- `a -= n`; subtraction on ℕ stops at 0, so the modulus is added first
unfoldable pub sub32 : ℕ → ℕ → ℕ
sub32 a n = (a + (2 ^ 32 - n % 2 ^ 32)) % 2 ^ 32

-- the bit pattern of an integer
unfoldable pub wrap32 : ℤ → ℕ
wrap32 a = (pos_part a + (2 ^ 32 - neg_part a % 2 ^ 32)) % 2 ^ 32

pub wrap32-pos : (n : ℕ) → wrap32 (pos n) ≡ n % 2 ^ 32
unfolding wrap32
wrap32-pos n = omega arith

pub add32_mod : (a n : ℕ) → add32 (a % 2 ^ 32) n ≡ (a + n) % 2 ^ 32
unfolding add32
add32_mod a n = omega arith

pub add32_comm : (a b : ℕ) → add32 a b ≡ add32 b a
unfolding add32
add32_comm a b = omega arith

-- Sums of two words, one of which changes.
pub add32-add32 : (a b n : ℕ) → add32 (add32 a n) b ≡ add32 (add32 a b) n
unfolding add32
add32-add32 a b n = omega arith

pub add32-sub32 : (a b n : ℕ) → add32 (sub32 a n) b ≡ sub32 (add32 a b) n
unfolding add32 sub32
add32-sub32 a b n = omega arith

-- What goes from one word to another leaves the sum as it is.
pub add32_out : (a b n : ℕ) → add32 (sub32 a n) (add32 b n) ≡ add32 a b
unfolding add32 sub32
add32_out a b n = omega arith

pub add32_in : (a b n : ℕ) → add32 (add32 a n) (sub32 b n) ≡ add32 a b
unfolding add32 sub32
add32_in a b n = omega arith

-- The words follow the integers.
pub add32-wrap32-add :
    (a n : ℕ) (z : ℤ) → add32 (add32 a n) (wrap32 z) ≡ add32 a (wrap32 (pos n +ℤ z))
unfolding add32 wrap32
add32-wrap32-add a n z = omega (arith, +ℤ_parts (pos n) z)

pub add32-wrap32-sub :
    (a n : ℕ) (z : ℤ) → add32 (sub32 a n) (wrap32 z) ≡ add32 a (wrap32 (z -ℤ pos n))
unfolding add32 sub32 wrap32
add32-wrap32-sub a n z = omega (arith, -ℤ_parts z (pos n))

pub wrap32-zero : wrap32 (pos 0) ≡ 0
unfolding wrap32
wrap32-zero = refl

pub add32-wrap32-zero : (a b : ℕ) → add32 (add32 a b) (wrap32 (pos 0)) ≡ add32 a b
unfolding add32 wrap32
add32-wrap32-zero a b = omega arith

pub add32-zero-wrap32 : (z : ℤ) → add32 (add32 0 0) (wrap32 z) ≡ wrap32 z
unfolding add32 wrap32
add32-zero-wrap32 z = omega arith
