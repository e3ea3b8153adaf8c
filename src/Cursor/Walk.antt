-- ===== src/Cursor/Walk.antt =====
-- Moving a cursor of src/tree/cursor.rs along a whole tree, and down and up again.
use rb_forest.Base.{
  ℕ, zero, suc, ◌<◌, ◌≡◌, refl, none, some, List, [], ◌∷◌, map, length, done, at, Side, left, right,
  other, arith, ap, ◌∙◌,
}
use rb_forest.Order.{Ord}
use rb_forest.Node.{NodeIndex, NodeRef, Node, Value}
use rb_forest.Guard.{Guard}
use rb_forest.Guard.Laws.{view, node_at-done}
use rb_forest.Shape.{Cell, Shape}
use rb_forest.Lookup.{cells}
use rb_forest.Dictionary.{IsTree, contents}
use rb_forest.Iter.Walk.{head_ref, IsStrung}
use rb_forest.Iter.InOrder.{in_order, IsStrung-in_order, ends_in_order, length-in_order}
use rb_forest.Cursor.{move_order, key_value, walk}

module _ {K V : Type 0} where
  abbrev pub pair_of : Cell K V → K × V
  pair_of c = (c.key, c.value)

  move_order-step :
      (i : Side) (s : Guard K V) (p : NodeIndex) (n : Node K V)
      → view s p ≡ some n
      → move_order i (some p) s ≡ done (at n.order i)
  unfolding move_order
  move_order-step i s p n e = rw (node_at-done s p e) refl

  key_value-some :
      (s : Guard K V) (p : NodeIndex) (n : Node K V)
      → view s p ≡ some n
      → key_value (some p) s ≡ done (some (n.key, n.value))
  unfolding key_value
  key_value-some s p n e = rw (node_at-done s p e) refl

  key_value-none : (s : Guard K V) → key_value none s ≡ done none
  unfolding key_value
  key_value-none s = refl

  walk-cells :
      (i : Side) (fuel : ℕ) (s : Guard K V) (current : NodeRef) (cs : List (Cell K V))
      → move_order (other i) current s ≡ done (head_ref cs)
      → IsStrung i s cs
      → length cs < fuel
      → walk (other i) fuel current s ≡ done (map pair_of cs)
  unfolding walk
  walk-cells i zero s current cs moved strung le = absurd (omega arith)
  walk-cells i (suc fuel) s current [] moved strung le = rw (moved, key_value-none s) refl
  walk-cells i (suc fuel) s current (c ∷ cs) moved ((n, e, k, v, o), apart, rest) le =
      let next = move_order-step (other i) s c.here n e ∙ ap (λ r. done r) o in
      let later = walk-cells i fuel s (some c.here) cs next rest (omega arith) in
      rw (moved, key_value-some s c.here n e, later) (λ j. done ((k j, v j) ∷ map pair_of cs))

module _ {K V : Type 0} ⦃o : Ord K⦄ ⦃val : Value V⦄ where
  move_order-none :
      (i : Side) {s : Guard K V} (t : Shape K V)
      → IsTree s t
      → move_order (other i) none s ≡ done (head_ref (in_order i (cells t)))
  unfolding move_order
  move_order-none left t h = ap (λ r. done (at r left)) (ends_in_order left t h)
  move_order-none right t h = ap (λ r. done (at r right)) (ends_in_order right t h)

  -- A cursor on a well-formed tree that starts at no node and moves with `move_next`, or with
  -- `move_prev`, until it is at no node again, given more rounds than the tree has bindings: it does not
  -- fail, and reads with `key_value` the key and the value of each node once, in order, or in reverse.
  pub walk-in_order :
      {s : Guard K V} (i : Side) (fuel : ℕ) (t : Shape K V)
      → IsTree s t
      → length (contents t) < fuel
      → walk (other i) fuel none s ≡ done (map pair_of (in_order i (cells t)))
  walk-in_order {s} i fuel t h le =
      walk-cells i fuel s none (in_order i (cells t)) (move_order-none i t h)
        (IsStrung-in_order i t h) (omega (arith, length-in_order i t))
