-- ===== src/Removal/Valid.antt =====
-- `remove_at` of src/tree/mod.rs keeps the arena's free list valid.
use rb_forest.Base.{
  ℕ, zero, suc, none, some, unwrap, Side, left, right, other, at, Pair, ◌||◌, points_to,
  if◌then◌else◌,
}
use rb_forest.Arena.{get_pair_mut}
use rb_forest.Arena.FreeList.{IsValid}
use rb_forest.Node.{NodeIndex, NodeRef, Color, Value, is_red, color_is_red}
use rb_forest.Guard.{Guard, Cmd, unwrap_ok, node_at, rounds}
use rb_forest.Guard.Valid.{
  IsValidAfter, and_then-IsValidAfter, reads-IsValidAfter, modify-IsValidAfter, if-IsValidAfter,
  option-IsValidAfter, outcome-IsValidAfter,
}
use rb_forest.Tree.Remove.{
  both_nodes, unlink_order, swap_with_next, near_to_far, far_rotation, redden_sibling,
  fix_remove_sibling, red_sibling, fix_remove_step, go_on, fix_remove_loop, fix_remove, splice,
  detach_leaf, finish_remove, remove_low, remove_at,
}
use rb_forest.Insertion.Valid.{
  replace-IsValidAfter, rotate-IsValidAfter, is_red_ref-IsValidAfter,
  propagate_cumulant-IsValidAfter,
}

module _ {K V : Type 0} where
  both_nodes-IsValidAfter :
      (p q : NodeIndex) (s : Guard K V) → IsValid s.arena → IsValidAfter (both_nodes p q s)
  unfolding both_nodes
  both_nodes-IsValidAfter p q s h = outcome-IsValidAfter (get_pair_mut s.arena p q) _ λ r.
      outcome-IsValidAfter (unwrap_ok r) _ λ found.
        outcome-IsValidAfter (unwrap found.at0) _
          λ a. outcome-IsValidAfter (unwrap found.at1) _ λ b. h

  unlink_order-IsValidAfter :
      (prev next : NodeRef) (s : Guard K V)
      → IsValid s.arena
      → IsValidAfter (unlink_order prev next s)
  unfolding unlink_order
  unlink_order-IsValidAfter prev next s h =
      and_then-IsValidAfter _ _ (option-IsValidAfter prev _ _ s h λ p. modify-IsValidAfter p _ s h)
        λ x s1 h1. option-IsValidAfter next _ _ s1 h1 λ p. modify-IsValidAfter p _ s1 h1

  swap_with_next-IsValidAfter :
      (p : NodeIndex) (s : Guard K V) → IsValid s.arena → IsValidAfter (swap_with_next p s)
  unfolding swap_with_next
  swap_with_next-IsValidAfter p s h = reads-IsValidAfter s (node_at p s) _ λ n.
      option-IsValidAfter n.children.at0 _ _ s h λ a.
        option-IsValidAfter n.children.at1 _ _ s h λ b.
          reads-IsValidAfter s (unwrap n.order.at1) _ λ next.
            and_then-IsValidAfter _ _ (both_nodes-IsValidAfter p next s h) λ x s1 h1.
              and_then-IsValidAfter _ _ (modify-IsValidAfter p _ s1 h1) λ x2 s2 h2.
                and_then-IsValidAfter _ _ (modify-IsValidAfter next _ s2 h2) λ x3 s3 h3. h3

module _ {K V : Type 0} ⦃val : Value V⦄ where
  near_to_far-IsValidAfter :
      (i : Side) (p : NodeIndex) (r : NodeRef) (s : Guard K V)
      → IsValid s.arena
      → IsValidAfter (near_to_far i p r s)
  unfolding near_to_far
  near_to_far-IsValidAfter i p r s h = reads-IsValidAfter s (unwrap r) _ λ q.
      and_then-IsValidAfter _ _ (modify-IsValidAfter q _ s h) λ x1 s1 h1.
        and_then-IsValidAfter _ _ (modify-IsValidAfter p _ s1 h1) λ x2 s2 h2.
          and_then-IsValidAfter _ _ (rotate-IsValidAfter (other i) p s2 h2) λ x3 s3 h3. h3

  far_rotation-IsValidAfter :
      (i : Side) (p q : NodeIndex) (s : Guard K V)
      → IsValid s.arena
      → IsValidAfter (far_rotation i p q s)
  unfolding far_rotation
  far_rotation-IsValidAfter i p q s h =
      and_then-IsValidAfter _ _ (both_nodes-IsValidAfter q p s h) λ x s0 h0.
        and_then-IsValidAfter _ _ (modify-IsValidAfter q _ s0 h0) λ x1 s1 h1.
          and_then-IsValidAfter _ _ (modify-IsValidAfter p _ s1 h1) λ x2 s2 h2.
            reads-IsValidAfter s2 (unwrap (at x.0.children (other i))) _ λ f.
              and_then-IsValidAfter _ _ (modify-IsValidAfter f _ s2 h2)
                λ x3 s3 h3. and_then-IsValidAfter _ _ (rotate-IsValidAfter i p s3 h3) λ x4 s4 h4. h4

  redden_sibling-IsValidAfter :
      (p q : NodeIndex) (s : Guard K V) → IsValid s.arena → IsValidAfter (redden_sibling p q s)
  unfolding redden_sibling
  redden_sibling-IsValidAfter p q s h =
      and_then-IsValidAfter _ _ (modify-IsValidAfter q _ s h) λ x1 s1 h1.
        reads-IsValidAfter s1 (node_at p s1) _ λ n.
          if-IsValidAfter (is_red n) _ _ s1
            (and_then-IsValidAfter _ _ (modify-IsValidAfter p _ s1 h1) λ x2 s2 h2. h2) h1

  fix_remove_sibling-IsValidAfter :
      (i : Side) (p q : NodeIndex) (s : Guard K V)
      → IsValid s.arena
      → IsValidAfter (fix_remove_sibling i p q s)
  unfolding fix_remove_sibling
  fix_remove_sibling-IsValidAfter i p q s h = reads-IsValidAfter s (node_at q s) _ λ n.
      and_then-IsValidAfter _ _ (is_red_ref-IsValidAfter (at n.children i) s h) λ close s1 h1.
        and_then-IsValidAfter _ _ (is_red_ref-IsValidAfter (at n.children (other i)) s1 h1)
          λ far s2 h2.
            if-IsValidAfter (far || close) _ _ s2
              (and_then-IsValidAfter _ _
                (if-IsValidAfter close _ _ s2 (near_to_far-IsValidAfter i q (at n.children i) s2 h2)
                  h2)
                λ q' s3 h3. far_rotation-IsValidAfter i p q' s3 h3)
              (redden_sibling-IsValidAfter p q s2 h2)

  red_sibling-IsValidAfter :
      (i : Side) (p q : NodeIndex) (r : NodeRef) (s : Guard K V)
      → IsValid s.arena
      → IsValidAfter (red_sibling i p q r s)
  unfolding red_sibling
  red_sibling-IsValidAfter i p q r s h =
      and_then-IsValidAfter _ _ (modify-IsValidAfter q _ s h) λ x1 s1 h1.
        and_then-IsValidAfter _ _ (modify-IsValidAfter p _ s1 h1) λ x2 s2 h2.
          and_then-IsValidAfter _ _ (rotate-IsValidAfter i p s2 h2)
            λ x3 s3 h3. outcome-IsValidAfter (unwrap r) _ λ y. h3

  fix_remove_step-IsValidAfter :
      (i : Side) (p : NodeIndex) (s : Guard K V)
      → IsValid s.arena
      → IsValidAfter (fix_remove_step i p s)
  unfolding fix_remove_step
  fix_remove_step-IsValidAfter i p s h = reads-IsValidAfter s (node_at p s) _ λ n.
      reads-IsValidAfter s (unwrap (at n.children (other i))) _ λ q.
        reads-IsValidAfter s (node_at q s) _ λ m.
          and_then-IsValidAfter _ _
            (if-IsValidAfter (is_red m) _ _ s (red_sibling-IsValidAfter i p q (at m.children i) s h)
              h)
            λ q' s1 h1. fix_remove_sibling-IsValidAfter i p q' s1 h1

  go_on-IsValidAfter :
      (r : NodeRef) (again : Side → NodeIndex → Cmd K V (Unit {0}))
      → ((i : Side) (p : NodeIndex) (s : Guard K V) → IsValid s.arena → IsValidAfter (again i p s))
      → (s : Guard K V) → IsValid s.arena
      → IsValidAfter (go_on r again s)
  unfolding go_on
  go_on-IsValidAfter none again k s h = h
  go_on-IsValidAfter (some p) again k s h = reads-IsValidAfter s (node_at p s) _ λ n.
      option-IsValidAfter n.parent _ _ s h λ q.
        reads-IsValidAfter s (node_at q s) _
          λ m. k (if points_to m.children.at1 p then right else left) q s h

  fix_remove_loop-IsValidAfter :
      (fuel : ℕ) (i : Side) (p : NodeIndex) (s : Guard K V)
      → IsValid s.arena
      → IsValidAfter (fix_remove_loop fuel i p s)
  unfolding fix_remove_loop
  fix_remove_loop-IsValidAfter zero i p s h = tt
  fix_remove_loop-IsValidAfter (suc fuel) i p s h =
      and_then-IsValidAfter _ _ (fix_remove_step-IsValidAfter i p s h) λ r s1 h1.
        go_on-IsValidAfter r (fix_remove_loop fuel) (fix_remove_loop-IsValidAfter fuel) s1 h1

  fix_remove-IsValidAfter :
      (p : NodeIndex) (s : Guard K V) → IsValid s.arena → IsValidAfter (fix_remove p s)
  unfolding fix_remove
  fix_remove-IsValidAfter p s h = reads-IsValidAfter s (node_at p s) _ λ n.
      reads-IsValidAfter s (unwrap n.parent) _ λ q. reads-IsValidAfter s (node_at q s) _ λ m.
        and_then-IsValidAfter _ _ (modify-IsValidAfter q _ s h)
          λ x s1 h1. fix_remove_loop-IsValidAfter (rounds s) _ q s1 h1

  splice-IsValidAfter :
      (p q : NodeIndex) (s : Guard K V) → IsValid s.arena → IsValidAfter (splice p q s)
  unfolding splice
  splice-IsValidAfter p q s h =
      and_then-IsValidAfter _ _ (replace-IsValidAfter p (some q) s h)
        λ x s1 h1. modify-IsValidAfter q _ s1 h1

  detach_leaf-IsValidAfter :
      (p q : NodeIndex) (c : Color) (s : Guard K V)
      → IsValid s.arena
      → IsValidAfter (detach_leaf p q c s)
  unfolding detach_leaf
  detach_leaf-IsValidAfter p q c s h =
      if-IsValidAfter (color_is_red c) _ _ s (modify-IsValidAfter q _ s h)
        (fix_remove-IsValidAfter p s h)

  finish_remove-IsValidAfter :
      (p : NodeIndex) (parent : NodeRef) (order : Pair NodeRef) (s : Guard K V)
      → IsValid s.arena
      → IsValidAfter (finish_remove p parent order s)
  unfolding finish_remove
  finish_remove-IsValidAfter p parent order s h =
      and_then-IsValidAfter _ _ (unlink_order-IsValidAfter order.at0 order.at1 s h) λ x s1 h1.
        option-IsValidAfter parent _ _ s1 h1 λ q.
          and_then-IsValidAfter _ _
            (if-IsValidAfter val.has_cumulant _ _ s1 (propagate_cumulant-IsValidAfter q s1 h1) h1)
            λ x2 s2 h2. h2

  remove_low-IsValidAfter :
      (p : NodeIndex) (s : Guard K V) → IsValid s.arena → IsValidAfter (remove_low p s)
  unfolding remove_low
  remove_low-IsValidAfter p s h = reads-IsValidAfter s (node_at p s) _ λ n.
      let end = λ (s1 : Guard K V) (h1 : IsValid s1.arena).
        finish_remove-IsValidAfter p n.parent n.order s1 h1 in
      option-IsValidAfter n.children.at0 _ _ s
        (option-IsValidAfter n.children.at1 _ _ s
          (option-IsValidAfter n.parent _ _ s h λ q.
            and_then-IsValidAfter _ _ (detach_leaf-IsValidAfter p q n.color s h)
              λ x s1 h1. end s1 h1)
          λ r. and_then-IsValidAfter _ _ (splice-IsValidAfter p r s h) λ x s1 h1. end s1 h1)
        λ l.
          option-IsValidAfter n.children.at1 _ _ s
            (and_then-IsValidAfter _ _ (splice-IsValidAfter p l s h) λ x s1 h1. end s1 h1) λ r. tt

  pub remove_at-IsValidAfter :
      (p : NodeIndex) (s : Guard K V) → IsValid s.arena → IsValidAfter (remove_at p s)
  unfolding remove_at
  remove_at-IsValidAfter p s h =
      and_then-IsValidAfter _ _ (swap_with_next-IsValidAfter p s h)
        λ q s1 h1. remove_low-IsValidAfter q s1 h1
