-- ===== src/Cilk2c/TypeQual/Bits.antt =====
-- Laws of the bit operations, and what they mean for the qualifiers of cilk2c/typequal.c.
use Prim.Native.Nat.{bit_and, digits, bit_and-bitwise, min}
use cilk.Common.{ℕ, zero, suc, ◌+◌, ◌*◌, ◌/◌, ◌%◌, ◌≤◌, ◌≡◌, refl, ◌∙◌, ap, arith, not, ◌==◌}
use cilk.Cilk2c.TypeQual.Base.{TypeQual, tq_clear_bit}
use cilk.Cilk2c.TypeQual.Flags.{t_cilk_where_am_i_decl_quals}
use cilk.Cilk2c.TypeQual.Sets.{
  tq_has_cilk_where_am_i_decl_quals, tq_remove_cilk_where_am_i_decl_quals,
}

-- The native operation by its digits; the first argument bounds how many there are.
abbrev meet : ℕ → ℕ → ℕ → ℕ
meet n a b = digits (λ b. zero) min n a b

from_zero : (n m b : ℕ) → meet n 0 b ≡ meet m 0 b
from_zero zero zero b = refl
from_zero zero (suc m) b = refl
from_zero (suc n) zero b = refl
from_zero (suc n) (suc m) b = refl

meet_more : (n m a b : ℕ) → a ≤ n → a ≤ m → meet n a b ≡ meet m a b
meet_more n m zero b p q = from_zero n m b
meet_more zero m (suc a) b p q = absurd (omega arith)
meet_more (suc n) zero (suc a) b p q = absurd (omega arith)
meet_more (suc n) (suc m) (suc a) b p q =
    omega (arith, meet_more n m (suc a / 2) (b / 2) (omega arith) (omega arith))

zero_meets : (b : ℕ) → bit_and 0 b ≡ 0
zero_meets b = bit_and-bitwise 0 b

last_bit : (a b : ℕ) → bit_and a b ≡ bit_and (a / 2) (b / 2) * 2 + min (a % 2) (b % 2)
last_bit zero b = omega (arith, zero_meets b, zero_meets (b / 2))
last_bit (suc a) b = omega (
  arith,
  bit_and-bitwise (suc a) b,
  bit_and-bitwise (suc a / 2) (b / 2),
  meet_more a (suc a / 2) (suc a / 2) (b / 2) (omega arith) (omega arith),
)

-- a mask that was applied changes nothing more
mask_again : (n a b : ℕ) → a ≤ n → bit_and (bit_and a b) b ≡ bit_and a b
mask_again n zero b h = ap (λ x. bit_and x b) (zero_meets b)
mask_again zero (suc a) b h = absurd (omega arith)
mask_again (suc n) (suc a) b h =
    let x = bit_and (suc a) b in
    let e = last_bit (suc a) b in
    let half : x / 2 ≡ bit_and (suc a / 2) (b / 2) = omega (arith, e) in
    let low : x % 2 ≡ min (suc a % 2) (b % 2) = omega (arith, e) in
    let ih = mask_again n (suc a / 2) (b / 2) (omega arith) in
    last_bit x b
    ∙ ap (λ y. bit_and y (b / 2) * 2 + min (x % 2) (b % 2)) half
    ∙ omega (arith, ih, e, low)

-- The removal of the where-am-i qualifiers takes away none of them: qualifiers have one after the call if
-- and only if they had one before. What is left has no other flag.
pub tq_remove_cilk_where_am_i_decl_quals-keeps :
    (q : TypeQual)
    → (tq_has_cilk_where_am_i_decl_quals (tq_remove_cilk_where_am_i_decl_quals q)
        ≡ tq_has_cilk_where_am_i_decl_quals q)
      × ((tq_remove_cilk_where_am_i_decl_quals q).tq ≡ bit_and q.tq t_cilk_where_am_i_decl_quals)
unfolding tq_has_cilk_where_am_i_decl_quals tq_remove_cilk_where_am_i_decl_quals tq_clear_bit
tq_remove_cilk_where_am_i_decl_quals-keeps q =
    (ap (λ x. not (x == 0)) (mask_again q.tq q.tq t_cilk_where_am_i_decl_quals (omega arith)), refl)
