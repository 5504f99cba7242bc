-- ===== src/Cilk2c/TypeQual/Decls.antt =====
-- The tests and changes of single declaration qualifiers: storage classes, places and flags in cilk2c/typequal.c.
use cilk.Common.{Bool}
use cilk.Cilk2c.TypeQual.Flags.{
  t_auto, t_extern, t_register, t_static, t_typedef, t_top_decl, t_block_decl, t_formal_decl,
  t_su_decl, t_enum_decl, t_redundant_external_decl, t_shared, t_private, t_nooutput, t_cilkonly,
  t_cilksafe, t_fast_procedure, t_slow_procedure, t_fast_inlet, t_slow_inlet, t_standalone_inlet,
  t_c_code,
}
use cilk.Cilk2c.TypeQual.Base.{
  TypeQual, bit_is_set, tq_set_bit, tq_clear_bit, has_class, has_location, add_location,
}

pub tq_has_auto : TypeQual → Bool
tq_has_auto q = has_class t_auto q

pub tq_has_extern : TypeQual → Bool
tq_has_extern q = has_class t_extern q

pub tq_has_register : TypeQual → Bool
tq_has_register q = has_class t_register q

pub tq_has_static : TypeQual → Bool
tq_has_static q = has_class t_static q

pub tq_has_typedef : TypeQual → Bool
tq_has_typedef q = has_class t_typedef q

pub tq_add_auto : TypeQual → TypeQual
tq_add_auto q = tq_set_bit q t_auto

pub tq_add_extern : TypeQual → TypeQual
tq_add_extern q = tq_set_bit q t_extern

pub tq_add_register : TypeQual → TypeQual
tq_add_register q = tq_set_bit q t_register

pub tq_add_static : TypeQual → TypeQual
tq_add_static q = tq_set_bit q t_static

pub tq_add_typedef : TypeQual → TypeQual
tq_add_typedef q = tq_set_bit q t_typedef

pub tq_has_top_decl : TypeQual → Bool
tq_has_top_decl q = has_location t_top_decl q

pub tq_has_block_decl : TypeQual → Bool
tq_has_block_decl q = has_location t_block_decl q

pub tq_has_formal_decl : TypeQual → Bool
tq_has_formal_decl q = has_location t_formal_decl q

pub tq_has_su_decl : TypeQual → Bool
tq_has_su_decl q = has_location t_su_decl q

pub tq_has_enum_decl : TypeQual → Bool
tq_has_enum_decl q = has_location t_enum_decl q

pub tq_add_top_decl : TypeQual → TypeQual
tq_add_top_decl q = add_location t_top_decl q

pub tq_add_block_decl : TypeQual → TypeQual
tq_add_block_decl q = add_location t_block_decl q

pub tq_add_formal_decl : TypeQual → TypeQual
tq_add_formal_decl q = add_location t_formal_decl q

pub tq_add_su_decl : TypeQual → TypeQual
tq_add_su_decl q = add_location t_su_decl q

pub tq_add_enum_decl : TypeQual → TypeQual
tq_add_enum_decl q = add_location t_enum_decl q

pub tq_has_redundant_external_decl : TypeQual → Bool
tq_has_redundant_external_decl q = bit_is_set q t_redundant_external_decl

pub tq_add_redundant_external_decl : TypeQual → TypeQual
tq_add_redundant_external_decl q = tq_set_bit q t_redundant_external_decl

pub tq_remove_redundant_external_decl : TypeQual → TypeQual
tq_remove_redundant_external_decl q = tq_clear_bit q t_redundant_external_decl

pub tq_has_shared : TypeQual → Bool
tq_has_shared q = bit_is_set q t_shared

pub tq_has_private : TypeQual → Bool
tq_has_private q = bit_is_set q t_private

pub tq_has_nooutput : TypeQual → Bool
tq_has_nooutput q = bit_is_set q t_nooutput

pub tq_has_cilkonly : TypeQual → Bool
tq_has_cilkonly q = bit_is_set q t_cilkonly

pub tq_has_cilksafe : TypeQual → Bool
tq_has_cilksafe q = bit_is_set q t_cilksafe

pub tq_add_shared : TypeQual → TypeQual
tq_add_shared q = tq_set_bit q t_shared

pub tq_add_private : TypeQual → TypeQual
tq_add_private q = tq_set_bit q t_private

pub tq_add_nooutput : TypeQual → TypeQual
tq_add_nooutput q = tq_set_bit q t_nooutput

pub tq_add_cilkonly : TypeQual → TypeQual
tq_add_cilkonly q = tq_set_bit q t_cilkonly

pub tq_add_cilksafe : TypeQual → TypeQual
tq_add_cilksafe q = tq_set_bit q t_cilksafe

pub tq_has_fast_procedure : TypeQual → Bool
tq_has_fast_procedure q = bit_is_set q t_fast_procedure

pub tq_has_slow_procedure : TypeQual → Bool
tq_has_slow_procedure q = bit_is_set q t_slow_procedure

pub tq_has_fast_inlet : TypeQual → Bool
tq_has_fast_inlet q = bit_is_set q t_fast_inlet

pub tq_has_slow_inlet : TypeQual → Bool
tq_has_slow_inlet q = bit_is_set q t_slow_inlet

pub tq_has_standalone_inlet : TypeQual → Bool
tq_has_standalone_inlet q = bit_is_set q t_standalone_inlet

pub tq_has_c_code : TypeQual → Bool
tq_has_c_code q = bit_is_set q t_c_code

pub tq_add_fast_procedure : TypeQual → TypeQual
tq_add_fast_procedure q = tq_set_bit q t_fast_procedure

pub tq_add_slow_procedure : TypeQual → TypeQual
tq_add_slow_procedure q = tq_set_bit q t_slow_procedure

pub tq_add_fast_inlet : TypeQual → TypeQual
tq_add_fast_inlet q = tq_set_bit q t_fast_inlet

pub tq_add_slow_inlet : TypeQual → TypeQual
tq_add_slow_inlet q = tq_set_bit q t_slow_inlet

pub tq_add_standalone_inlet : TypeQual → TypeQual
tq_add_standalone_inlet q = tq_set_bit q t_standalone_inlet

pub tq_add_c_code : TypeQual → TypeQual
tq_add_c_code q = tq_set_bit q t_c_code
