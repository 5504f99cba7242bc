-- ===== src/Cilk2c/TypeQual/Tests.antt =====
-- The qualifiers of cilk2c/typequal.c on concrete values.
use Prim.Native.Nat.{bit_and}
use cilk.Common.{ℕ, ◌≡◌, arith, List, [], ◌∷◌, update, Returns}
use cilk.Cilk2c.Lists.{Heap}
use cilk.Cilk2c.TypeQual.Base.{tq_of}
use cilk.Cilk2c.TypeQual.Flags.{t_cilk_where_am_i_decl_quals}
use cilk.Cilk2c.TypeQual.Sets.{
  tq_has_cilk_where_am_i_decl_quals, tq_remove_cilk_where_am_i_decl_quals, union_lists,
}
use cilk.Cilk2c.TypeQual.Attributes.{IsUnion}
use cilk.Cilk2c.TypeQual.Union.{union_lists-IsUnion}
use cilk.Cilk2c.TypeQual.Bits.{tq_remove_cilk_where_am_i_decl_quals-keeps}

-- the lists 1, 2 with 10 and 20, and 3, 4 with 20 and 30
abbrev attributes : Heap
attributes = record {
  element = update (update (update (update (λ p. 0) 1 10) 2 20) 3 20) 4 30;
  next = update (update (λ p. 0) 1 2) 3 4;
  fresh = 5;
}

union_lists-IsUnion_example :
    Returns
      (union_lists 5 1 3 attributes)
      (λ r h'. (cs : List ℕ) × IsUnion attributes (1 ∷ 2 ∷ []) (3 ∷ 4 ∷ []) r h' cs)
union_lists-IsUnion_example =
    union_lists-IsUnion 5 1 3 attributes (1 ∷ 2 ∷ []) (3 ∷ 4 ∷ []) (omega arith) (omega arith)
      (omega arith) (omega arith) (omega arith) (omega arith)

tq_remove_cilk_where_am_i_decl_quals-keeps_example :
    (tq_has_cilk_where_am_i_decl_quals (tq_remove_cilk_where_am_i_decl_quals (tq_of 0x420000))
      ≡ tq_has_cilk_where_am_i_decl_quals (tq_of 0x420000))
    × ((tq_remove_cilk_where_am_i_decl_quals (tq_of 0x420000)).tq
        ≡ bit_and 0x420000 t_cilk_where_am_i_decl_quals)
tq_remove_cilk_where_am_i_decl_quals-keeps_example =
    tq_remove_cilk_where_am_i_decl_quals-keeps (tq_of 0x420000)
