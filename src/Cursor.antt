-- ===== src/Cursor.antt =====
-- The cursors of src/tree/cursor.rs: a cursor is the reference to its current node.
pub mod Dangling
pub mod Walk
use rb_forest.Base.{
  ℕ, zero, suc, List, [], ◌∷◌, out_of_fuel, Bool, true, false, Option, none, some, done, and_then,
  Side, left, right, other, at,
}
use rb_forest.Order.{Ord}
use rb_forest.Node.{NodeRef, Node}
use rb_forest.Guard.{Query, Cmd, pure, lift, ◌>>=◌, node_at, modify, alloc_remove}
use rb_forest.Tree.Search.{search, empty, here, left_of, right_of, limit}

abbrev moved : NodeRef → NodeRef → Option Bool × NodeRef
moved current none = (some false, current)
moved current (some next) = (some true, some next)

module _ {K V : Type 0} where
  abbrev contents : Node K V → K × V
  contents n = (n.key, n.value)

  -- A field of the current node, if there is a current node and the field is not `None`.
  abbrev field : (Node K V → NodeRef) → NodeRef → Query K V NodeRef
  field f none s = done none
  field f (some p) s = and_then (node_at p s) λ n. done (f n)

  abbrev pub cursor : Query K V NodeRef
  cursor s = done s.meta.root

  abbrev pub cursor_mut : Query K V NodeRef
  cursor_mut s = done s.meta.root

  abbrev pub cursor_alloc : Query K V NodeRef
  cursor_alloc s = done s.meta.root

  -- The next node on side `i`; from no node, the first one of the tree.
  unfoldable pub move_order : Side → NodeRef → Query K V NodeRef
  move_order i none s = done (at s.meta.range (other i))
  move_order i (some index) s = field (λ n. at n.order i) (some index) s

  -- The returned flag and the new current node.
  unfoldable pub move_parent : NodeRef → Query K V (Option Bool × NodeRef)
  move_parent none s = done (none, none)
  move_parent (some p) s = and_then (node_at p s) λ n. done (moved (some p) n.parent)

  unfoldable pub move_child : Side → NodeRef → Query K V (Option Bool × NodeRef)
  move_child i none s = done (none, none)
  move_child i (some p) s = and_then (node_at p s) λ n. done (moved (some p) (at n.children i))

  unfoldable pub move_prev : NodeRef → Query K V NodeRef
  unfolding move_order
  move_prev = move_order left

  unfoldable pub move_next : NodeRef → Query K V NodeRef
  unfolding move_order
  move_next = move_order right

  unfoldable pub move_left : NodeRef → Query K V (Option Bool × NodeRef)
  unfolding move_child
  move_left = move_child left

  unfoldable pub move_right : NodeRef → Query K V (Option Bool × NodeRef)
  unfolding move_child
  move_right = move_child right

  unfoldable pub key : NodeRef → Query K V (Option K)
  key none s = done none
  key (some p) s = and_then (node_at p s) λ n. done (some n.key)

  unfoldable pub value : NodeRef → Query K V (Option V)
  value none s = done none
  value (some p) s = and_then (node_at p s) λ n. done (some n.value)

  unfoldable pub key_value : NodeRef → Query K V (Option (K × V))
  key_value none s = done none
  key_value (some p) s = and_then (node_at p s) λ n. done (some (contents n))

  unfoldable pub peek_order : Side → NodeRef → Query K V (Option (K × V))
  unfolding move_order key_value
  peek_order i current s = and_then (move_order i current s) λ r. key_value r s

  unfoldable pub peek_parent : NodeRef → Query K V (Option (K × V))
  unfolding key_value
  peek_parent current s = and_then (field (λ n. n.parent) current s) λ r. key_value r s

  unfoldable pub peek_child : Side → NodeRef → Query K V (Option (K × V))
  unfolding key_value
  peek_child i current s = and_then (field (λ n. at n.children i) current s) λ r. key_value r s

  unfoldable pub peek_prev : NodeRef → Query K V (Option (K × V))
  unfolding peek_order
  peek_prev = peek_order left

  unfoldable pub peek_next : NodeRef → Query K V (Option (K × V))
  unfolding peek_order
  peek_next = peek_order right

  unfoldable pub peek_left : NodeRef → Query K V (Option (K × V))
  unfolding peek_child
  peek_left = peek_child left

  unfoldable pub peek_right : NodeRef → Query K V (Option (K × V))
  unfolding peek_child
  peek_right = peek_child right

  -- `value_mut`, and what is written through the reference if there is one.
  unfoldable pub value_mut : (V → V) → NodeRef → Cmd K V (Option (Unit {0}))
  value_mut f none = pure none
  value_mut f (some p) = modify p (λ m. record m { value = f m.value }) >>= λ x. pure (some x)

  -- `self.tree.remove(p?)?`: the arena's removal.
  abbrev remove_slot : NodeRef → Cmd K V (Option (K × V))
  remove_slot none = pure none
  remove_slot (some p) = do
    found ← alloc_remove p
    pure (elim found [ none ↦ none | some n ↦ some (contents n) ])

  unfoldable pub remove_order : Side → NodeRef → Cmd K V (Option (K × V))
  unfolding move_order
  remove_order i current = lift (move_order i current) >>= remove_slot

  unfoldable pub remove_parent : NodeRef → Cmd K V (Option (K × V))
  remove_parent current = lift (field (λ n. n.parent) current) >>= remove_slot

  unfoldable pub remove_child : Side → NodeRef → Cmd K V (Option (K × V))
  remove_child i current = lift (field (λ n. at n.children i) current) >>= remove_slot

  unfoldable pub remove_prev : NodeRef → Cmd K V (Option (K × V))
  unfolding remove_order
  remove_prev = remove_order left

  unfoldable pub remove_next : NodeRef → Cmd K V (Option (K × V))
  unfolding remove_order
  remove_next = remove_order right

  unfoldable pub remove_left : NodeRef → Cmd K V (Option (K × V))
  unfolding remove_child
  remove_left = remove_child left

  unfoldable pub remove_right : NodeRef → Cmd K V (Option (K × V))
  unfolding remove_child
  remove_right = remove_child right

  -- A walk with `move_order` that reads each node, from the given position until there is none.
  unfoldable pub walk : Side → ℕ → NodeRef → Query K V (List (K × V))
  walk i zero current s = out_of_fuel
  walk i (suc fuel) current s = and_then (move_order i current s) λ next.
      and_then (key_value next s)
        λ x. elim x [ none ↦ done [] | some y ↦ and_then (walk i fuel next s) λ ys. done (y ∷ ys) ]

  -- The ends of `iter_below`.
  unfoldable pub iter_below : NodeRef → Query K V (NodeRef × NodeRef)
  iter_below none s = done (none, none)
  iter_below (some p) s =
      and_then (limit left p s) λ a. and_then (limit right p s) λ b. done (some a, some b)

  unfoldable pub iter_below_mut : NodeRef → Query K V (NodeRef × NodeRef)
  unfolding iter_below
  iter_below_mut = iter_below

module _ {K V : Type 0} ⦃o : Ord K⦄ where
  unfoldable pub cursor_at : K → Query K V NodeRef
  cursor_at key s = and_then (search s.meta.root key s) λ r. elim r [
    | here p ↦ done (some p)
    | left_of p ↦ and_then (node_at p s) λ n. done (at n.order left)
    | right_of p ↦ done (some p)
    | empty ↦ done none
  ]

  unfoldable pub cursor_mut_at : K → Query K V NodeRef
  unfolding cursor_at
  cursor_mut_at = cursor_at

  unfoldable pub cursor_alloc_at : K → Query K V NodeRef
  unfolding cursor_at
  cursor_alloc_at = cursor_at
