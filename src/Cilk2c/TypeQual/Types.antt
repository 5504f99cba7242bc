-- ===== src/Cilk2c/TypeQual/Types.antt =====
-- The tests and changes of single type qualifiers in cilk2c/typequal.c.
use cilk.Common.{Bool}
use cilk.Cilk2c.TypeQual.Flags.{
  t_restrict, t_complex, t_const, t_volatile, t_inline, t_sue_elaborated, t_procedure, t_inlet,
  t_extension, tq_compatible,
}
use cilk.Cilk2c.TypeQual.Base.{TypeQual, bit_is_set, tq_set_bit, tq_clear_bit}

pub tq_has_restrict : TypeQual → Bool
tq_has_restrict q = bit_is_set q t_restrict

pub tq_has_complex : TypeQual → Bool
tq_has_complex q = bit_is_set q t_complex

pub tq_has_const : TypeQual → Bool
tq_has_const q = bit_is_set q t_const

pub tq_has_volatile : TypeQual → Bool
tq_has_volatile q = bit_is_set q t_volatile

pub tq_has_inline : TypeQual → Bool
tq_has_inline q = bit_is_set q t_inline

pub tq_has_sue_elaborated : TypeQual → Bool
tq_has_sue_elaborated q = bit_is_set q t_sue_elaborated

pub tq_has_procedure : TypeQual → Bool
tq_has_procedure q = bit_is_set q t_procedure

pub tq_has_inlet : TypeQual → Bool
tq_has_inlet q = bit_is_set q t_inlet

pub tq_has_extension : TypeQual → Bool
tq_has_extension q = bit_is_set q t_extension

pub tq_add_restrict : TypeQual → TypeQual
tq_add_restrict q = tq_set_bit q t_restrict

pub tq_add_complex : TypeQual → TypeQual
tq_add_complex q = tq_set_bit q t_complex

pub tq_add_const : TypeQual → TypeQual
tq_add_const q = tq_set_bit q t_const

pub tq_add_volatile : TypeQual → TypeQual
tq_add_volatile q = tq_set_bit q t_volatile

pub tq_add_inline : TypeQual → TypeQual
tq_add_inline q = tq_set_bit q t_inline

pub tq_add_sue_elaborated : TypeQual → TypeQual
tq_add_sue_elaborated q = tq_set_bit q t_sue_elaborated

pub tq_add_procedure : TypeQual → TypeQual
tq_add_procedure q = tq_set_bit q t_procedure

pub tq_add_inlet : TypeQual → TypeQual
tq_add_inlet q = tq_set_bit q t_inlet

pub tq_add_extension : TypeQual → TypeQual
tq_add_extension q = tq_set_bit q t_extension

pub tq_remove_complex : TypeQual → TypeQual
tq_remove_complex q = tq_clear_bit q t_complex

pub tq_remove_const : TypeQual → TypeQual
tq_remove_const q = tq_clear_bit q t_const

pub tq_remove_inline : TypeQual → TypeQual
tq_remove_inline q = tq_clear_bit q t_inline

pub tq_remove_sue_elaborated : TypeQual → TypeQual
tq_remove_sue_elaborated q = tq_clear_bit q t_sue_elaborated

pub tq_remove_procedure : TypeQual → TypeQual
tq_remove_procedure q = tq_clear_bit q t_procedure

pub tq_remove_inlet : TypeQual → TypeQual
tq_remove_inlet q = tq_clear_bit q t_inlet

pub tq_remove_compatible : TypeQual → TypeQual
tq_remove_compatible q = tq_clear_bit q tq_compatible
