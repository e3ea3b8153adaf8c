-- ===== src/Tree/Remove.antt =====
-- Removal in src/tree/mod.rs: `remove_at` and `fix_remove`.
use rb_forest.Base.{
  ℕ, zero, suc, ◌+◌, ◌%◌, ◌^◌, none, some, if◌then◌else◌, done, panic, out_of_fuel, and_then,
  unwrap, Pair, at, put_at, Side, left, right, other, points_to, ◌||◌,
}
use rb_forest.Arena.{get_pair_mut}
use rb_forest.Node.{NodeIndex, NodeRef, Node, Color, red, black, is_red, Value, color_is_red}
use rb_forest.Guard.{
  Bounds, default_bounds, Cmd, pure, outcome, ◌>>=◌, ◌>>◌, node, modify, modify_meta, rounds,
  unwrap_ok,
}
use rb_forest.Tree.{replace, rotate, propagate_cumulant}
use rb_forest.Tree.Insert.{paint, is_red_ref}

-- `black_height -= 1` on a `u8`
abbrev pub lower_height : Bounds → Bounds
lower_height b = record b { black_height = (b.black_height + 255) % 2 ^ 8 }

-- `if let [Some(_), Some(_)] = children`
abbrev if_both {ℓ} : {A : Type ℓ} → Pair NodeRef → A → A → A
if_both c x y = elim c.at0 [ none ↦ y | some _ ↦ elim c.at1 [ none ↦ y | some _ ↦ x ] ]

module _ {K V : Type 0} where
  -- `let [Some(a), Some(b)] = tree.get_pair_mut(p, q).unwrap() else { panic!() }`
  unfoldable pub both_nodes : (p q : NodeIndex) → Cmd K V (Node K V × Node K V)
  both_nodes p q s = and_then (get_pair_mut s.arena p q) λ r.
      and_then (unwrap_ok r)
        λ found. and_then (unwrap found.at0) λ a. and_then (unwrap found.at1) λ b. done ((a, b), s)

  -- The end of a node whose order links are `prev` and `next`.
  unfoldable pub unlink_order : (prev next : NodeRef) → Cmd K V (Unit {0})
  unlink_order prev next = do
    elim prev [
      | some p ↦ modify p λ m. record m { order = put_at m.order right next }
      | none ↦ modify_meta λ b. record b { range = put_at b.range left next }
    ]
    elim next [
      | some n ↦ modify n λ m. record m { order = put_at m.order left prev }
      | none ↦ modify_meta λ b. record b { range = put_at b.range right prev }
    ]

  -- A node with two children swaps key and value with its successor, which is removed instead.
  unfoldable pub swap_with_next : NodeIndex → Cmd K V NodeIndex
  swap_with_next ptr = do
    n ← node ptr
    if_both n.children
        (do
          next ← outcome (unwrap n.order.at1)
          (a, b) ← both_nodes ptr next
          modify ptr (λ m. record m { key = b.key; value = b.value })
          modify next (λ m. record m { key = a.key; value = a.value })
          pure next)
        (pure ptr)

module _ {K V : Type 0} ⦃val : Value V⦄ where
  -- A red nephew on the near side is rotated to the far side, and the sibling with it.
  unfoldable pub near_to_far :
      (i : Side) → (sibling : NodeIndex) → (near : NodeRef) → Cmd K V NodeIndex
  near_to_far i sibling near = do
    close ← outcome (unwrap near)
    paint close black
    paint sibling red
    rotate (other i) sibling
    pure close

  -- With the red nephew on the far side the rotation at `parent` ends the repair.
  unfoldable pub far_rotation : (i : Side) → (parent sibling : NodeIndex) → Cmd K V NodeRef
  far_rotation i parent sibling = do
    (sibling_node, parent_node) ← both_nodes sibling parent
    paint sibling parent_node.color
    paint parent black
    far ← outcome (unwrap (at sibling_node.children (other i)))
    paint far black
    rotate i parent
    pure none

  -- With two black nephews the sibling turns red.
  unfoldable pub redden_sibling : (parent sibling : NodeIndex) → Cmd K V NodeRef
  redden_sibling parent sibling = do
    paint sibling red
    p ← node parent
    if is_red p then paint parent black >> pure none else pure (some parent)

  -- The second half of the helper of `fix_remove`, from the black sibling on: `none` is the end of
  -- the repair, `some parent` that it goes on one level up.
  unfoldable pub fix_remove_sibling : (i : Side) → (parent sibling : NodeIndex) → Cmd K V NodeRef
  fix_remove_sibling i parent sibling = do
    s ← node sibling
    close_red ← is_red_ref (at s.children i)
    far_red ← is_red_ref (at s.children (other i))
    if far_red || close_red
        then (do
          sibling' ← if close_red then near_to_far i sibling (at s.children i) else pure sibling
          far_rotation i parent sibling')
        else redden_sibling parent sibling

  -- A red sibling is rotated above the parent, which gives a black one.
  unfoldable pub red_sibling :
      (i : Side) → (parent sibling : NodeIndex) → NodeRef → Cmd K V NodeIndex
  red_sibling i parent sibling nephew = do
    paint sibling black
    paint parent red
    rotate i parent
    outcome (unwrap nephew)

  -- The helper of `fix_remove`: `i` is the side below `parent` that lacks a black node.
  unfoldable pub fix_remove_step : Side → NodeIndex → Cmd K V NodeRef
  fix_remove_step i parent = do
    p ← node parent
    sibling ← outcome (unwrap (at p.children (other i)))
    s ← node sibling
    sibling' ← if is_red s then red_sibling i parent sibling (at s.children i) else pure sibling
    fix_remove_sibling i parent sibling'

  -- The end of a round: the loop goes `again` at the node above, unless that is the root.
  unfoldable pub go_on : NodeRef → (Side → NodeIndex → Cmd K V (Unit {0})) → Cmd K V (Unit {0})
  go_on none again = pure tt
  go_on (some ptr) again = do
    n ← node ptr
    elim n.parent [
      | none ↦ modify_meta lower_height
      | some par ↦ do p ← node par; again (if points_to p.children.at1 ptr then right else left) par
    ]

  unfoldable pub fix_remove_loop : ℕ → Side → NodeIndex → Cmd K V (Unit {0})
  fix_remove_loop zero i parent = λ _. out_of_fuel
  fix_remove_loop (suc fuel) i parent = do
    next ← fix_remove_step i parent
    go_on next (fix_remove_loop fuel)

  -- `ptr` is a black leaf and not the root.
  unfoldable pub fix_remove : NodeIndex → Cmd K V (Unit {0})
  fix_remove ptr s =
      (do
        n ← node ptr
        parent ← outcome (unwrap n.parent)
        p ← node parent
        let i = if points_to p.children.at1 ptr then right else left
        modify parent (λ m. record m { children = put_at m.children i none })
        fix_remove_loop (rounds s) i parent)
        s

  -- A node with one child gives its place to it, which turns black.
  unfoldable pub splice : (ptr child : NodeIndex) → Cmd K V (Unit {0})
  splice ptr child = replace ptr (some child) >> paint child black

  -- A leaf that is not the root leaves its parent.
  unfoldable pub detach_leaf : (ptr parent : NodeIndex) → Color → Cmd K V (Unit {0})
  detach_leaf ptr parent color =
      if color_is_red color
      then (modify parent λ m. record m {
        children = put_at m.children (if points_to m.children.at0 ptr then left else right) none;
      })
      else fix_remove ptr

  -- The end of `remove_at`: the order links, and the cumulants above.
  unfoldable pub finish_remove :
      (ptr : NodeIndex) → (parent : NodeRef) → Pair NodeRef → Cmd K V NodeIndex
  finish_remove ptr parent order = do
    unlink_order order.at0 order.at1
    elim parent [
      | none ↦ pure ptr
      | some p ↦ (if val.has_cumulant then propagate_cumulant p else pure tt) >> pure ptr
    ]

  -- `remove_at` from where the node has one child at most.
  unfoldable pub remove_low : NodeIndex → Cmd K V NodeIndex
  remove_low ptr = do
    n ← node ptr
    elim n.children.at0 [
      | some l ↦ elim n.children.at1 [
        | none ↦ splice ptr l >> finish_remove ptr n.parent n.order
        | some _ ↦ λ _. panic
      ]
      | none ↦ elim n.children.at1 [
        | some r ↦ splice ptr r >> finish_remove ptr n.parent n.order
        | none ↦ elim n.parent [
          | none ↦ modify_meta (λ _. default_bounds) >> pure ptr
          | some parent ↦ detach_leaf ptr parent n.color >> finish_remove ptr n.parent n.order
        ]
      ]
    ]

  unfoldable pub remove_at : NodeIndex → Cmd K V NodeIndex
  remove_at ptr = swap_with_next ptr >>= remove_low
