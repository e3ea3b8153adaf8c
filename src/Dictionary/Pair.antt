-- ===== src/Dictionary/Pair.antt =====
-- `get_pair_mut` of src/tree/interface.rs on a tree.
use rb_forest.Base.{◌≡◌, ◌≤◌, Option, none, some, ◌⊎◌}
use rb_forest.Order.{Ord}
use rb_forest.Node.{NodeIndex, NodeRef, Node, Value}
use rb_forest.Guard.{Guard}
use rb_forest.Guard.Laws.{view}
use rb_forest.Interface.Access.{ValueMut}
use rb_forest.Shape.{Shape, count}
use rb_forest.Dictionary.{contents, lookup}

module _ {K V : Type 0} ⦃o : Ord K⦄ ⦃val : Value V⦄ where
  -- A node with the key, or that there is none.
  record Sought (s : Guard K V) (t : Shape K V) (key : K) (r : NodeRef) : Type 0 where
    pub what :
        ((r ≡ none) × (lookup key (contents t) ≡ none))
        ⊎ ((p : NodeIndex) × (n : Node K V) × (r ≡ some p)
            × (1 ≤ count p t)
            × (view s p ≡ some n)
            × (n.key ≡ key)
            × (lookup key (contents t) ≡ some (val.into n.value)))

  -- What is handed out for a key: a reference to the node of the tree that has the key, with that
  -- node's value, whose local data the contents bind to the key; or none, if they do not bind it.
  abbrev pub IsFound : Guard K V → Shape K V → K → Option (ValueMut V) → Type 0
  IsFound s t key x =
      ((x ≡ none) × (lookup key (contents t) ≡ none))
      ⊎ ((m : ValueMut V) × (n : Node K V) × (x ≡ some m)
          × (1 ≤ count m.ptr t)
          × (view s m.ptr ≡ some n)
          × (n.key ≡ key)
          × (n.value ≡ m.value)
          × (lookup key (contents t) ≡ some (val.into m.value)))
