-- ===== src/Lib.antt =====
-- Cilk 5.4, the multithreaded extension of C: its runtime system and parts of its compiler.
--
-- A Cilk program runs on workers. Each works at the tail of its own stack of frames; the oldest frames
-- of a worker belong to a closure in its ready deque. A worker without work steals the closure at the
-- top of another worker's deque: the child frame becomes a closure of its own, and the thief goes on
-- with the parent. A closure counts its outstanding children and waits for them at a sync; a child
-- that returns leaves an inlet, which is run on the parent's frame. All of this memory comes from an
-- allocator with size classes, a free list for each worker and shared lists for all.
--
-- Runtime/Sched models runtime/sched.c, built with CILK_DEBUG and CILK_TIMING.
--   State: struct Closure_s, InletClosure and ReadyDeque of runtime/cilk-internal.h, and
--     CilkClosureCache, CilkProcInfo and CilkStackFrame of runtime/cilk.h. A pointer is a number, NULL
--     is 0, and the links of the deques are kept apart from the other fields. The stack of a worker is
--     indexed from 0. An object in memory is one number at its address, with its first byte lowest; code
--     that copies a part of an object changes the lowest bytes of the number. A block that is freed keeps
--     its last contents, with the magic number spoilt.
--   Deque: deque_lock to deque_add_bottom. Deque/Repr relates the pointers to the list of closures.
--   Closure, Abort, Steal, Inlets, Return, Execute: the functions of sched.c under their own names, in
--     the order of the file. A failed CILK_ASSERT or Cilk_die_internal is a fault, and so is a wait for
--     a lock that is taken: a handler is run where the locks that it wants are free, and other workers
--     act between the handlers. User code comes in as InletCode, the effect of an inlet on the memory,
--     and as the step compiled of Joined/Trace.
--   Joined: what every handler keeps of the closure tree; Steal/Theft: what a steal does;
--     Return/Proceed and Return/Suspend: what a sync does; Return/Result: what is
--     left in the closure after a return or a sync; Return/Resume: an exception that
--     changes nothing;
--     Closure/Children: the list of the children that are still to return.
--   The fuel of recursively_signal_abort bounds the depth of the closure tree: more than the height of
--   the closure's subtree is enough (Abort/Walk; Abort/Whole has what the walk does). The loop of poll_inlets has its own bound, the inlets
--   that wait and one round more.
--   Memory for closures and inlets is not taken from the allocator: a new closure has the next address.
--   Left out: priorities, events, statistics, and the creation of deques and stacks.
--
-- Runtime/Protocol models single accesses to head, tail and exception, of do_dekker_on,
-- Cilk_exception_handler (runtime/sched.c) and Cilk_cilk2c_pop_check (runtime/cilk-cilk2c-pre.h).
--
-- Runtime/Barrier models runtime/barrier.c: a step relation for the workers below n, each step one access
-- to the shared state, with the increment under the lock as one step. The counts of calls and returns
-- of each worker, entered and passed, are added. Inv: the round that is gathered, and where the workers
-- stand in it; Rank bounds the steps that are left.
--
-- Runtime/Options models runtime/cmdline.c: the table of options, the loop over the arguments with its
-- checks, and what is left of the command line. An argument is the list of its characters, the array argv
-- a list without its final NULL. The fuel is more than the number of arguments. Messages are left out.
--
-- Runtime/Malloc models runtime/internal-malloc.c, its size classes in runtime/cilk.h and its fast paths
-- in runtime/cilk-cilk2c-pre.h: State, Sizes, then Global (the shared lists and the pool), Local (one
-- worker), Cleanup (the checks at the end and what they note down) and Script (sequences of requests). The
-- counters that sums are kept in, used, nmalloc, in_free_lists, total and tm, are ints: they are bit patterns
-- of 32 bits with their wrap-around written out (Common/Words), and a size is a number of any width. The
-- count of a list and its length are integers without a bound. The loops run on fuel;
-- Loops and Safety give the rounds that are enough. The C library's allocator is a parameter that never
-- gives NULL. Addresses are numbers, and the blocks' contents are not modelled.
--
-- Cilk2c/Lists models cilk2c/list.c on a heap whose cells are numbers: Seg says what a list is, Walk where
-- a marker stands, Chunk and Pieces what NextChunkOnList does, Delete, Remove, Join, Store and Copy the
-- functions that change or copy a list. HeapNew gives the next address. A loop runs on fuel, one round
-- more than the list has cells. The functions passed to DeleteIf are tests of the item alone. Lengths and
-- chunk sizes are numbers without a bound, and no marker is NULL.
--
-- Cilk2c/Chunks models ApplyInChunks of cilk2c/analyze.c on these lists. The analysis is a function of the
-- items of a chunk on a state of its own; the bits of an unsigned integer are a parameter.
--
-- Cilk2c/Container models cilk2c/container.c: Containees says which nodes wait in which container, Attach
-- and Pop what PopContainer gives them. The lists of nodes are sequences, and syntax errors are counted.
--
-- Cilk2c/TypeQual models cilk2c/typequal.c: Flags has the constants, Base the operations on the unsigned
-- int of flags, Decls and Types the tests and changes of single qualifiers, Sets those of several. The
-- attributes are a list on the heap of Cilk2c/Lists; the fuel of UnionLists is more than the cells of both.
--
-- Cilk2c/Symbol models cilk2c/symbol.c of the compiler: hashed chains of names, each with the symbols that
-- it shadows, the counters of levels and versions by which symbols of closed scopes are told, and the
-- iteration over a table. A chain is a list of rows, a row the symbol at its head and what it shadows,
-- instead of the pointers next and shadow; the callbacks of a table are functions on a state of the
-- client's. Scopes has the stack of scopes that a table stands for; Rows, Define, Lookup, Insert, Declare,
-- Clash, Nesting and Leaving relate the operations to it, and Trace sequences of them. Not modelled of it:
-- InsertUniqueSymbol, printing and the free list of symbols.
--
-- Not modelled: the rest of the compiler (scanner, parser, types, transformation and printing, and the
-- fixpoint of the data flow), the creation of threads, statistics, the glue to the operating system, and
-- the examples.
pub mod Cilk2c
pub mod Common
pub mod Runtime
