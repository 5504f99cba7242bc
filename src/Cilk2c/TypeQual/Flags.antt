-- ===== src/Cilk2c/TypeQual/Flags.antt =====
-- The flags of cilk2c/typequal.c, and the sets of them.
use Prim.Native.Nat.{ℕ, bit_or}

abbrev pub t_auto : ℕ
t_auto = 0x00001

abbrev pub t_extern : ℕ
t_extern = 0x00002

abbrev pub t_register : ℕ
t_register = 0x00003

abbrev pub t_static : ℕ
t_static = 0x00004

abbrev pub t_typedef : ℕ
t_typedef = 0x00005

abbrev pub t_top_decl : ℕ
t_top_decl = 0x00010

abbrev pub t_block_decl : ℕ
t_block_decl = 0x00020

abbrev pub t_formal_decl : ℕ
t_formal_decl = 0x00030

abbrev pub t_su_decl : ℕ
t_su_decl = 0x00040

abbrev pub t_enum_decl : ℕ
t_enum_decl = 0x00050

abbrev pub t_redundant_external_decl : ℕ
t_redundant_external_decl = 0x00100

abbrev pub t_shared : ℕ
t_shared = 0x00200

abbrev pub t_private : ℕ
t_private = 0x00400

abbrev pub t_nooutput : ℕ
t_nooutput = 0x00800

abbrev pub t_cilkonly : ℕ
t_cilkonly = 0x01000

abbrev pub t_cilksafe : ℕ
t_cilksafe = 0x02000

abbrev pub t_fast_procedure : ℕ
t_fast_procedure = 0x04000

abbrev pub t_slow_procedure : ℕ
t_slow_procedure = 0x08000

abbrev pub t_fast_inlet : ℕ
t_fast_inlet = 0x10000

abbrev pub t_slow_inlet : ℕ
t_slow_inlet = 0x20000

abbrev pub t_standalone_inlet : ℕ
t_standalone_inlet = 0x40000

abbrev pub t_c_code : ℕ
t_c_code = 0x80000

abbrev pub t_restrict : ℕ
t_restrict = 0x100000

abbrev pub t_complex : ℕ
t_complex = 0x200000

abbrev pub t_const : ℕ
t_const = 0x400000

abbrev pub t_volatile : ℕ
t_volatile = 0x800000

abbrev pub t_inline : ℕ
t_inline = 0x1000000

abbrev pub t_sue_elaborated : ℕ
t_sue_elaborated = 0x2000000

abbrev pub t_procedure : ℕ
t_procedure = 0x4000000

abbrev pub t_inlet : ℕ
t_inlet = 0x8000000

abbrev pub t_extension : ℕ
t_extension = 0x10000000

abbrev pub t_storage_classes : ℕ
t_storage_classes = bit_or t_auto (bit_or t_extern (bit_or t_register (bit_or t_static t_typedef)))

abbrev pub t_decl_locations : ℕ
t_decl_locations =
    bit_or t_top_decl (bit_or t_block_decl (bit_or t_formal_decl (bit_or t_su_decl t_enum_decl)))

abbrev pub t_cilk_where_am_i_decl_quals : ℕ
t_cilk_where_am_i_decl_quals = bit_or t_fast_procedure (
    bit_or t_slow_procedure
      (bit_or t_fast_inlet (bit_or t_slow_inlet (bit_or t_standalone_inlet t_c_code))))

abbrev pub t_decl_quals : ℕ
t_decl_quals = bit_or t_storage_classes (
    bit_or t_decl_locations (
      bit_or t_redundant_external_decl (
        bit_or t_shared (
          bit_or t_private (
            bit_or t_nooutput
              (bit_or t_cilkonly (bit_or t_cilksafe t_cilk_where_am_i_decl_quals)))))))

abbrev pub t_type_quals : ℕ
t_type_quals = bit_or t_restrict (
    bit_or t_complex (
      bit_or t_const (
        bit_or t_volatile
          (bit_or t_inline (bit_or t_sue_elaborated (bit_or t_procedure t_inlet))))))

abbrev pub tq_compatible : ℕ
tq_compatible =
    bit_or t_const (
      bit_or t_volatile (bit_or t_inline (bit_or t_sue_elaborated (bit_or t_restrict t_extension))))
