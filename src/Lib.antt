-- ===== src/Lib.antt =====
-- A model of rb-forest: red-black trees that share one arena of nodes, with cumulants.
--
-- The parts of the program, and the files about each:
--   * src/arena/mod.rs: a vector of slots with a free list threaded through the vacant ones. Arena
--     has its operations, one for each function of the source. Memory that the source accesses
--     without a check is `undefined` where the check fails. Arena/Access is about reads after writes,
--     Arena/FreeList about the free list. The new capacity of a vector that grows is chosen by the
--     standard library: `Growth` is a function with the documented bound, and `Allocation` is one for
--     the capacity of a new vector.
--   * src/arena/port.rs: the guards. Guard has the state of a locked port, the shared arena and the
--     metadata of one tree, and the monad of commands on it: `node` is `tree[ptr]`, `modify` is an
--     assignment through it, `meta` and `modify_meta` are the metadata, `alloc_insert` and
--     `alloc_remove` are `PortAllocGuard`'s. Guard/Laws says how they change what is read.
--   * src/tree/node.rs: Node has nodes, colours, and the trait `Value` as an interface with both of
--     its implementations.
--   * src/tree/mod.rs: Tree has `replace`, `rotate` and the cumulants; Tree/Search, Tree/Insert,
--     Tree/Remove and Tree/Join have the searches, insertion, removal and joining. The const
--     parameters `I` and `J` are sides, arguments of type `Side`.
--   * src/tree/interface.rs: Interface has the operations on one tree through its guards,
--     Interface/Access the mutable access by key, with the references as values,
--     and Interface/Clear is about `clear`.
--   * src/tree/iter.rs: Build has `from_sorted_slice_unchecked`, and its children are about the tree
--     that it builds, from the writes at one node (Build/Rewire, Build/Link) to the whole
--     (Build/Sorted); Iter has `Iter`, `IterMut` and `IntoIter`; Iter/Walk and Iter/InOrder are about
--     loops over `Iter`, Iter/Loop, Iter/Drop and Iter/Change about loops over `IterMut`, Iter/Drain
--     about loops over `IntoIter`; Filter has
--     `SearchAction`, `Filter` and `FilterMut`, Filter/Pruned and Filter/Find are about loops over a
--     filter.
--   * src/tree/cursor.rs: Cursor has the moves, reads, peeks and removals; Cursor/Walk is about a walk
--     through a tree, Cursor/Dangling about removals.
--   * src/lib.rs: `discard!` is `modify_ref`. A forest is the shared arena: Forest has commands on
--     it, in which a tree is the metadata of its port, `on` opens a guard of it and `reading` a read
--     guard. Forest/Join, Forest/Split and Forest/Union have `join` of src/tree/mod.rs and the splits
--     and `union_disjoint` of src/tree/interface.rs.
--
-- An operation returns an `Outcome`: a value, a panic, undefined behaviour, or that the fuel of a
-- loop ran out. Loops of the source that follow links are recursions on fuel, with one more round
-- than the arena has slots, since no path of a tree visits a slot twice. Integers are natural
-- numbers, the black height (`u8`) with its wrap-around written out.
--
-- The proofs about trees read the arena as a tree: a `Shape` is a tree of cells, a `Context` a
-- tree with a hole, and a `Focus` says that the nodes of a guard are the context with the tree in
-- its hole, each link included (Shape, with Shape/Zipper to move and edit it). Shape/Balance
-- states the red-black conditions, Shape/Entries what a tree holds in order, Insertion and its
-- children `insert_at` with the repair after an insertion, Lookup and its children the search,
-- Propagation `propagate_cumulant`, with `update_cumulants` in Propagation/Below. Sequence is
-- about lists of entries threaded by order links. Dictionary states what a well-formed tree is and
-- which sorted map it holds, and its children are about the operations of Interface on it,
-- Dictionary/Cost about the length of a search, Dictionary/Fill about a sequence of insertions
-- into a new tree, Dictionary/Run about any sequence of insertions and removals. Removal and its
-- children are about `remove_at` with the repair after a removal, from one round (Removal/Step) to
-- the loop (Removal/Loop), the links (Removal/Unlink) and the exchange with the successor
-- (Removal/Swap); Dictionary/Remove is about `remove`. Shape/Rounds is about the fuel. Base has
-- the helpers that all share, Order the interface of ordered keys, Tests the tests and the
-- theorems at concrete inputs.
--
-- What is written through a reference that a mutable iterator hands out is an argument of the loop.
--
-- Values have no drop glue: `from_sorted_iter_unchecked` stands for such keys and data only, since the
-- source drops its box of items after it has moved them out.
--
-- Not modelled: the lock protocol of the ports with the drop of `ValueMut`, and `union_merge`, which
-- writes through a `ValueMut` under a guard of the same port.
pub mod Base
pub mod Order
pub mod Arena
pub mod Node
pub mod Guard
pub mod Tree
pub mod Interface
pub mod Shape
pub mod Removal
pub mod Sequence
pub mod Dictionary
pub mod Insertion
pub mod Propagation
pub mod Build
pub mod Lookup
pub mod Iter
pub mod Cursor
pub mod Filter
pub mod Forest
pub mod Tests
