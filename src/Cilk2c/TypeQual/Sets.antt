-- ===== src/Cilk2c/TypeQual/Sets.antt =====
-- The operations on sets of qualifiers, and their union, of cilk2c/typequal.c.
use Prim.Native.Nat.{bit_and, bit_or, bit_xor}
use cilk.Common.{ℕ, zero, suc, Bool, not, ◌==◌, if◌then◌else◌, Cmd, pure, out_of_fuel, ◌>>=◌}
use cilk.Cilk2c.Lists.{Heap, first_item, rest, find_item, cons_item}
use cilk.Cilk2c.TypeQual.Flags.{
  t_storage_classes, t_decl_locations, t_cilk_where_am_i_decl_quals, t_decl_quals, t_type_quals,
}
use cilk.Cilk2c.TypeQual.Base.{
  TypeQual, and_not, tq_of, empty_tq, tq_clear_bit, has_class, add_location,
}

pub tq_has_some_storageclass : TypeQual → Bool
tq_has_some_storageclass q = not (has_class 0 q)

pub tq_storage_class : TypeQual → TypeQual
tq_storage_class q = tq_of (bit_and q.tq t_storage_classes)

pub tq_remove_all_storage_classes : TypeQual → TypeQual
tq_remove_all_storage_classes q = tq_of (and_not q.tq t_storage_classes)

pub tq_decl_location : TypeQual → TypeQual
tq_decl_location q = tq_of (bit_and q.tq t_decl_locations)

pub tq_set_decl_location_from : TypeQual → TypeQual → TypeQual
tq_set_decl_location_from q source = add_location (bit_and source.tq t_decl_locations) q

pub tq_remove_all_decl_quals : TypeQual → TypeQual
tq_remove_all_decl_quals q = record { tq = and_not q.tq t_decl_quals; attributes = 0 }

unfoldable pub tq_has_cilk_where_am_i_decl_quals : TypeQual → Bool
tq_has_cilk_where_am_i_decl_quals q = not (bit_and q.tq t_cilk_where_am_i_decl_quals == 0)

unfoldable pub tq_remove_cilk_where_am_i_decl_quals : TypeQual → TypeQual
tq_remove_cilk_where_am_i_decl_quals q =
    tq_clear_bit q (bit_xor 0xffffffff t_cilk_where_am_i_decl_quals)

pub tq_decl_quals : TypeQual → TypeQual
tq_decl_quals q = record q { tq = bit_and q.tq t_decl_quals }

pub tq_type_quals : TypeQual → TypeQual
tq_type_quals q = tq_of (bit_and q.tq t_type_quals)

pub tq_intersection : TypeQual → TypeQual → TypeQual
tq_intersection a b = tq_of (bit_and a.tq b.tq)

pub tq_subtract : TypeQual → TypeQual → TypeQual
tq_subtract a b = record a { tq = and_not a.tq b.tq }

pub tq_has_anything : TypeQual → Bool
tq_has_anything q = not (q.tq == 0)

pub tq_remove_everything : TypeQual → TypeQual
tq_remove_everything q = empty_tq

pub tq_equal : TypeQual → TypeQual → Bool
tq_equal a b = a.tq == b.tq

-- UnionLists: the items of `a` that `b` has not, each in a new cell, then `b` itself
unfoldable pub union_lists : ℕ → ℕ → ℕ → Cmd Heap ℕ
union_lists zero a b = λ _. out_of_fuel
union_lists (suc fuel) a b =
    if a == 0 then pure b else if b == 0 then pure a else if a == b then pure a else do
      x ← first_item a
      found ← find_item fuel b x
      r ← rest a
      l ← union_lists fuel r b
      if not (found == 0) then pure l else cons_item x l

pub tq_union : ℕ → TypeQual → TypeQual → Cmd Heap TypeQual
tq_union fuel a b = do
  l ← union_lists fuel a.attributes b.attributes
  pure (record { tq = bit_or a.tq b.tq; attributes = l })

pub tq_set_storage_class_from : ℕ → TypeQual → TypeQual → Cmd Heap TypeQual
tq_set_storage_class_from fuel dest source =
    tq_union fuel (tq_remove_all_storage_classes dest) (tq_storage_class source)
