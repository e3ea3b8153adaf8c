-- ===== src/Forest/Split.antt =====
-- The splits of src/tree/interface.rs.
use Prim.Native.Nat.Ordering.{lt, eq, gt}
use rb_forest.Base.{
  ℕ, zero, suc, Option, none, some, if◌then◌else◌, pair, left, right, unwrap, unwrap_unchecked, ok,
  err, undefined, out_of_fuel, done, is_some, not, length,
}
use rb_forest.Order.{Ord}
use rb_forest.Node.{NodeIndex, NodeRef, Value}
use rb_forest.Guard.{Bounds, default_bounds, modify, node_at, alloc_remove}
use rb_forest.Interface.{min_key, max_key, is_single}
use rb_forest.Tree.Remove.{remove_at}
use rb_forest.Tree.Split.{split_half}
use rb_forest.Forest.{Forest, pure, outcome, on, reading, ◌>>=◌}
use rb_forest.Forest.Join.{join}

module _ {K V : Type 0} where
  -- `split_at_root`: the left tree, the root, the right tree.
  unfoldable pub split_at_root : Bounds → Forest K V (Bounds × NodeRef × Bounds)
  split_at_root tree = elim tree.root [
    | none ↦ pure (tree, none, default_bounds)
    | some index ↦ do
      n ← reading tree (node_at index)
      (_, b) ←
          on tree (modify index λ m. record m { children = pair none none; order = pair none none })
      (l, _) ← on b (split_half left n.children.at0 n.order.at0 b)
      (r, _) ← on b (split_half right n.children.at1 n.order.at1 b)
      pure (l, some index, r)
  ]

module _ {K V : Type 0} ⦃o : Ord K⦄ ⦃val : Value V⦄ where
  -- `join` of two trees that are disjoint by construction, `unwrap_unchecked`.
  unfoldable pub join_disjoint : Bounds → NodeIndex → Bounds → Forest K V Bounds
  join_disjoint l pivot r =
      join l pivot r >>= elim [ ok tree ↦ pure tree | err _ ↦ outcome undefined ]

  -- `split_node`, below its tests of the range.
  unfoldable pub split_below :
      (split : K → Bounds → Forest K V (Bounds × NodeRef × Bounds))
      → K
      → Bounds
      → Forest K V (Bounds × NodeRef × Bounds)
  split_below split key tree = do
    index ← outcome (unwrap tree.root)
    n ← reading tree (node_at index)
    elim (o.cmp n.key key) [
      | eq ↦ split_at_root tree
      | lt ↦ reading tree (λ s. done (is_single s)) >>= λ single.
          if single then pure (tree, none, default_bounds) else do
            (l, r, rest) ← split_at_root tree
            root ← outcome (unwrap r)
            (center, child, high) ← split key rest
            low ← join_disjoint l root center
            pure (low, child, high)
      | gt ↦ reading tree (λ s. done (is_single s)) >>= λ single.
          if single then pure (default_bounds, none, tree) else do
            (rest, r, h) ← split_at_root tree
            root ← outcome (unwrap r)
            (low, child, center) ← split key rest
            high ← join_disjoint center root h
            pure (low, child, high)
    ]

  -- The fuel is for the path from the root to the place of the key.
  unfoldable pub split_node : ℕ → K → Bounds → Forest K V (Bounds × NodeRef × Bounds)
  split_node zero key tree = outcome out_of_fuel
  split_node (suc fuel) key tree =
      if not (is_some tree.root) then pure (tree, none, default_bounds) else do
        lo ← reading tree min_key
        lowest ← outcome (unwrap lo)
        elim (o.cmp lowest key) [
          | gt ↦ pure (default_bounds, none, tree)
          | eq ↦ do
            p ← outcome (unwrap tree.range.at0)
            (p', rest) ← on tree (remove_at p)
            pure (default_bounds, some p', rest)
          | lt ↦ do
            hi ← reading tree max_key
            highest ← outcome (unwrap hi)
            elim (o.cmp highest key) [
              | lt ↦ pure (tree, none, default_bounds)
              | eq ↦ do
                p ← outcome (unwrap tree.range.at1)
                (p', rest) ← on tree (remove_at p)
                pure (rest, some p', default_bounds)
              | gt ↦ split_below (split_node fuel) key tree
            ]
        ]

  unfoldable pub split : K → Bounds → Forest K V (Bounds × Option val.Local × Bounds)
  split key tree a =
      (do
        (l, pivot, r) ← split_node (suc (length a.items)) key tree
        elim pivot [
          | none ↦ pure (l, none, r)
          | some index ↦ do
            (found, l') ← on l (alloc_remove index)
            n ← outcome (unwrap_unchecked found)
            pure (l', some (val.into n.value), r)
        ])
        a
