-- ===== src/Forest/Join.antt =====
-- `join` of src/tree/mod.rs: two trees with a node between them.
use rb_forest.Base.{
  Bool, false, not, Result, ok, err, unwrap, if◌then◌else◌, Side, left, right, other, leb, is_some,
}
use rb_forest.Order.{Ord, is_lt}
use rb_forest.Node.{NodeIndex, Value}
use rb_forest.Guard.{Bounds, node_at}
use rb_forest.Interface.{TreeError, overlapping, insert_node, min_key, max_key}
use rb_forest.Tree.Join.{join_unchecked}
use rb_forest.Forest.{Forest, pure, outcome, on, reading, ◌>>=◌}

module _ {K V : Type 0} ⦃o : Ord K⦄ where
  -- `lower.max() < center && center < upper.min()`
  unfoldable pub is_between : (lower : Bounds) → (center : K) → (upper : Bounds) → Forest K V Bool
  is_between lower center upper = do
    m ← reading lower max_key
    highest ← outcome (unwrap m)
    if not (is_lt (o.cmp highest center)) then pure false else do
      n ← reading upper min_key
      lowest ← outcome (unwrap n)
      pure (is_lt (o.cmp center lowest))

module _ {K V : Type 0} ⦃o : Ord K⦄ ⦃val : Value V⦄ where
  -- The node moves into one tree, where the other one is empty.
  abbrev into_other :
      (empty tree : Bounds)
      → (keep : Bounds → Bounds × Bounds) → NodeIndex
      → Forest K V (Result Bounds ((Bounds × Bounds) × TreeError))
  into_other empty tree keep pivot = on tree (insert_node pivot) >>= λ (r, tree'). elim r [
    | ok _ ↦ pure (ok tree')
    | err e ↦ pure (err (keep tree', e))
  ]

  -- The lower tree takes in the higher one: `this` is on side `1 - I` of the pivot.
  abbrev join_onto :
      Side → (this : Bounds) → (pivot : NodeIndex) → (that : Bounds) → Forest K V Bounds
  join_onto i this pivot that =
      if leb that.black_height this.black_height
      then (on this (join_unchecked i pivot that) >>= λ (_, tree). pure tree)
      else on that (join_unchecked (other i) pivot this) >>= λ (_, tree). pure tree

  unfoldable pub join :
      (this : Bounds)
      → (pivot : NodeIndex) → (that : Bounds)
      → Forest K V (Result Bounds ((Bounds × Bounds) × TreeError))
  join this pivot that =
      if not (is_some this.root)
      then into_other this that (λ t. (this, t)) pivot
      else if not (is_some that.root)
      then into_other that this (λ t. (t, that)) pivot
      else do
        n ← reading this (node_at pivot)
        ordered ← is_between this n.key that
        if ordered then (join_onto left this pivot that >>= λ tree. pure (ok tree)) else do
          reversed ← is_between that n.key this
          if reversed
              then (join_onto right this pivot that >>= λ tree. pure (ok tree))
              else pure (err ((this, that), overlapping))
