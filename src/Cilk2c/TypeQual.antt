-- ===== src/Cilk2c/TypeQual.antt =====
-- Type qualifiers of cilk2c/typequal.c: an unsigned int of flags, and a list of attributes on the heap of
-- cilk2c/list.c.
pub mod Flags
pub mod Base
pub mod Decls
pub mod Types
pub mod Sets
pub mod Attributes
pub mod Union
pub mod Bits
pub mod Tests
