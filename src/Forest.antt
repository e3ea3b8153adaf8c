-- ===== src/Forest.antt =====
-- src/lib.rs and the operations of src/tree/interface.rs on several trees of a forest: the trees share
-- one arena, and a tree that no guard holds is the metadata of its port.
pub mod Join
pub mod Split
pub mod Union
use rb_forest.Base.{Outcome, done, and_then, unwrap, List, ℕ}
use rb_forest.Arena.{Arena, Growth, Allocation, new, with_capacity}
use rb_forest.Node.{NodeIndex, Node, Value}
use rb_forest.Guard.{Guard, Bounds, default_bounds, Query, Cmd, node_at}
use rb_forest.Build.{from_sorted_slice, from_sorted_iter_unchecked, from_sorted_iter}

-- A call that changes the shared arena.
abbrev pub Forest : Type 0 → Type 0 → Type 0 → Type 0
Forest K V A = Arena (Node K V) → Outcome (A × Arena (Node K V))

module _ {K V : Type 0} where
  module _ {A : Type 0} where
    abbrev pub pure : A → Forest K V A
    pure x a = done (x, a)

    abbrev pub outcome : Outcome A → Forest K V A
    outcome r a = and_then r λ x. done (x, a)

    -- A call through a guard of the tree, which is released afterwards.
    abbrev pub on : Bounds → Cmd K V A → Forest K V (A × Bounds)
    on tree c a =
        and_then (c (record { arena = a; meta = tree })) λ (x, s). done ((x, s.meta), s.arena)

    abbrev pub reading : Bounds → Query K V A → Forest K V A
    reading tree q a = and_then (q (record { arena = a; meta = tree })) λ x. done (x, a)

  module _ {A B : Type 0} where
    infixl 5 ◌>>=◌ ◌>>◌
    abbrev pub ◌>>=◌ : Forest K V A → (A → Forest K V B) → Forest K V B
    ◌>>=◌ m f a = and_then (m a) λ (x, a'). f x a'

    abbrev pub ◌>>◌ : Forest K V A → Forest K V B → Forest K V B
    m >> k = m >>= λ _. k

-- `WeakForest::new` and `with_capacity`: the arena; the port that they make holds no tree.
abbrev pub new_forest : (K V : Type 0) → Arena (Node K V)
new_forest K V = new

abbrev pub new_forest_with : (K V : Type 0) → Allocation → (capacity : ℕ) → Arena (Node K V)
new_forest_with K V v capacity = with_capacity v capacity

-- `WeakForest::insert`: a new tree.
abbrev pub new_tree : Bounds
new_tree = default_bounds

module _ {K V : Type 0} ⦃val : Value V⦄ where
  -- `WeakForest::insert_sorted_slice_unchecked`
  unfoldable pub insert_sorted_slice : Growth → List (K × val.Local) → Forest K V Bounds
  insert_sorted_slice g items = on new_tree (from_sorted_slice g items) >>= λ (_, tree). pure tree

  -- The iterator as the list of its items, which have no drop glue.
  unfoldable pub insert_sorted_iter_unchecked : Growth → List (K × val.Local) → Forest K V Bounds
  insert_sorted_iter_unchecked g items =
      on new_tree (from_sorted_iter_unchecked g items) >>= λ (_, tree). pure tree

  unfoldable pub insert_sorted_iter : Growth → List (K × val.Local) → Forest K V Bounds
  insert_sorted_iter g items = on new_tree (from_sorted_iter g items) >>= λ (_, tree). pure tree
