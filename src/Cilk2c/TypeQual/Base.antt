-- ===== src/Cilk2c/TypeQual/Base.antt =====
-- Type qualifiers of cilk2c/typequal.c: the record and the operations on its bits.
use Prim.Native.Nat.{bit_and, bit_or, bit_xor}
use cilk.Common.{ℕ, Bool, ◌==◌}
use cilk.Cilk2c.TypeQual.Flags.{t_storage_classes, t_decl_locations}

pub record TypeQual : Type 0 where
  pub tq : ℕ
  pub attributes : ℕ

-- `a & ~b` of unsigned int
abbrev pub and_not : ℕ → ℕ → ℕ
and_not a b = bit_and a (bit_xor 0xffffffff b)

abbrev pub tq_of : ℕ → TypeQual
tq_of e = record { tq = e; attributes = 0 }

abbrev pub empty_tq : TypeQual
empty_tq = tq_of 0

pub bit_is_set : TypeQual → ℕ → Bool
bit_is_set q bit = bit_and q.tq bit == bit

pub tq_attribute : ℕ → TypeQual
tq_attribute attrib = record { tq = 0; attributes = attrib }

pub tq_set_bit : TypeQual → ℕ → TypeQual
tq_set_bit q bits = record q { tq = bit_or q.tq bits }

unfoldable pub tq_clear_bit : TypeQual → ℕ → TypeQual
tq_clear_bit q bits = record q { tq = and_not q.tq bits }

pub has_class : ℕ → TypeQual → Bool
has_class c q = bit_and q.tq t_storage_classes == c

pub has_location : ℕ → TypeQual → Bool
has_location c q = bit_and q.tq t_decl_locations == c

pub add_location : ℕ → TypeQual → TypeQual
add_location c q = record q { tq = bit_or (and_not q.tq t_decl_locations) c }
