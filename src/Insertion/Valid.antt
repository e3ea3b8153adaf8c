-- ===== src/Insertion/Valid.antt =====
-- `insert_at` of src/tree/mod.rs keeps the arena's free list valid.
use rb_forest.Base.{
  ℕ, zero, suc, none, some, [], ◌∷◌, unwrap, Side, other, at, same_side, is_some, ref_eq,
}
use rb_forest.Arena.{get_mut_with}
use rb_forest.Arena.FreeList.{IsValid}
use rb_forest.Node.{NodeIndex, NodeRef, Node, Value, is_red, is_black}
use rb_forest.Guard.{Guard, unwrap_ok, node_at, rounds}
use rb_forest.Guard.Valid.{
  IsValidAfter, and_then-IsValidAfter, reads-IsValidAfter, modify-IsValidAfter,
  modify_ref-IsValidAfter, if-IsValidAfter, option-IsValidAfter, outcome-IsValidAfter,
}
use rb_forest.Tree.{replace, rotate, update_cumulant, propagate_loop, propagate_cumulant}
use rb_forest.Tree.Insert.{
  attach, link_far, is_red_ref, blacken_root, recolor, raise_parent, rotate_up, fix_insert_step,
  fix_insert_round, fix_insert_loop, fix_insert, insert_at,
}

module _ {K V : Type 0} where
  pub replace-IsValidAfter :
      (old : NodeIndex) (new : NodeRef) (s : Guard K V)
      → IsValid s.arena
      → IsValidAfter (replace old new s)
  unfolding replace
  replace-IsValidAfter old new s h = reads-IsValidAfter s (node_at old s) _ λ n.
      and_then-IsValidAfter _ _ (modify_ref-IsValidAfter new _ s h)
        λ x s1 h1. option-IsValidAfter n.parent _ _ s1 h1 λ q. modify-IsValidAfter q _ s1 h1

  link_far-IsValidAfter :
      (i : Side) (far : NodeRef) (p : NodeIndex) (s : Guard K V)
      → IsValid s.arena
      → IsValidAfter (link_far i far p s)
  unfolding link_far
  link_far-IsValidAfter i none p s h = h
  link_far-IsValidAfter i (some q) p s h = modify-IsValidAfter q _ s h

  attach-IsValidAfter :
      (i : Side) (p q : NodeIndex) (s : Guard K V) → IsValid s.arena → IsValidAfter (attach i p q s)
  unfolding attach
  attach-IsValidAfter i p q s h = reads-IsValidAfter s (node_at q s) _ λ n.
      and_then-IsValidAfter _ _ (modify-IsValidAfter p _ s h) λ x s1 h1.
        and_then-IsValidAfter _ _ (link_far-IsValidAfter i _ p s1 h1)
          λ x2 s2 h2. modify-IsValidAfter q _ s2 h2

  blacken_root-IsValidAfter : (s : Guard K V) → IsValid s.arena → IsValidAfter (blacken_root s)
  unfolding blacken_root
  blacken_root-IsValidAfter s h = reads-IsValidAfter s (unwrap s.meta.root) _ λ root.
      reads-IsValidAfter s (node_at root s) _ λ n.
        if-IsValidAfter (is_red n) _ _ s
          (and_then-IsValidAfter _ _ (modify-IsValidAfter root _ s h) λ x s1 h1. h1) h

module _ {K V : Type 0} ⦃val : Value V⦄ where
  pub update_cumulant-IsValidAfter :
      (p : NodeIndex) (s : Guard K V) → IsValid s.arena → IsValidAfter (update_cumulant p s)
  unfolding update_cumulant
  update_cumulant-IsValidAfter p s h = reads-IsValidAfter s (node_at p s) _ λ n.
      and_then-IsValidAfter _ _
        (outcome-IsValidAfter (get_mut_with s.arena p (n.children.at0 ∷ n.children.at1 ∷ [])) _
          λ r. outcome-IsValidAfter (unwrap_ok r) _ λ y. h)
        λ x s1 h1. reads-IsValidAfter s1 (unwrap x.0) _ λ y. modify-IsValidAfter p _ s1 h1

  pub rotate-IsValidAfter :
      (i : Side) (p : NodeIndex) (s : Guard K V) → IsValid s.arena → IsValidAfter (rotate i p s)
  unfolding rotate
  rotate-IsValidAfter i p s h = reads-IsValidAfter s (node_at p s) _ λ n.
      and_then-IsValidAfter _ _ (replace-IsValidAfter p _ s h) λ x s1 h1.
        reads-IsValidAfter s1 (unwrap (at n.children (other i))) _ λ q.
          reads-IsValidAfter s1 (node_at q s1) _ λ m.
            and_then-IsValidAfter _ _ (modify-IsValidAfter q _ s1 h1) λ x2 s2 h2.
              and_then-IsValidAfter _ _ (modify-IsValidAfter p _ s2 h2) λ x3 s3 h3.
                and_then-IsValidAfter _ _ (modify_ref-IsValidAfter (at m.children i) _ s3 h3)
                  λ x4 s4 h4.
                    if-IsValidAfter val.has_cumulant _ _ s4 (update_cumulant-IsValidAfter p s4 h4)
                      h4

  recolor-IsValidAfter :
      (u : NodeRef) (p g : NodeIndex) (s : Guard K V)
      → IsValid s.arena
      → IsValidAfter (recolor u p g s)
  unfolding recolor
  recolor-IsValidAfter u p g s h = reads-IsValidAfter s (unwrap u) _ λ q.
      and_then-IsValidAfter _ _ (modify-IsValidAfter q _ s h) λ x s1 h1.
        and_then-IsValidAfter _ _ (modify-IsValidAfter p _ s1 h1)
          λ x2 s2 h2. and_then-IsValidAfter _ _ (modify-IsValidAfter g _ s2 h2) λ x3 s3 h3. h3

  raise_parent-IsValidAfter :
      (i : Side) (p : NodeIndex) (s : Guard K V)
      → IsValid s.arena
      → IsValidAfter (raise_parent i p s)
  unfolding raise_parent
  raise_parent-IsValidAfter i p s h = reads-IsValidAfter s (node_at p s) _ λ n.
      reads-IsValidAfter s (unwrap n.parent) _ λ q.
        and_then-IsValidAfter _ _ (modify-IsValidAfter q _ s h) λ x s1 h1.
          reads-IsValidAfter s1 (node_at q s1) _ λ m. reads-IsValidAfter s1 (unwrap m.parent) _ λ g.
            and_then-IsValidAfter _ _ (modify-IsValidAfter g _ s1 h1)
              λ x2 s2 h2. and_then-IsValidAfter _ _ (rotate-IsValidAfter i g s2 h2) λ x3 s3 h3. h3

  rotate_up-IsValidAfter :
      (i j : Side) (p q : NodeIndex) (s : Guard K V)
      → IsValid s.arena
      → IsValidAfter (rotate_up i j p q s)
  unfolding rotate_up
  rotate_up-IsValidAfter i j p q s h =
      if-IsValidAfter (same_side i j) _ _ s
        (and_then-IsValidAfter _ _ (rotate-IsValidAfter (other i) q s h)
          λ x s1 h1. raise_parent-IsValidAfter i q s1 h1)
        (raise_parent-IsValidAfter i p s h)

  pub is_red_ref-IsValidAfter :
      (r : NodeRef) (s : Guard K V) → IsValid s.arena → IsValidAfter (is_red_ref r s)
  is_red_ref-IsValidAfter none s h = h
  is_red_ref-IsValidAfter (some p) s h = reads-IsValidAfter s (node_at p s) _ λ n. h

  fix_insert_step-IsValidAfter :
      (i j : Side) (p q g : NodeIndex) (s : Guard K V)
      → IsValid s.arena
      → IsValidAfter (fix_insert_step i j p q g s)
  unfolding fix_insert_step
  fix_insert_step-IsValidAfter i j p q g s h = reads-IsValidAfter s (node_at g s) _ λ n.
      and_then-IsValidAfter _ _ (is_red_ref-IsValidAfter (at n.children i) s h) λ x s1 h1.
        if-IsValidAfter x _ _ s1 (recolor-IsValidAfter _ q g s1 h1)
          (rotate_up-IsValidAfter i j p q s1 h1)

  fix_insert_round-IsValidAfter :
      (p q : NodeIndex) (n : Node K V) (s : Guard K V)
      → IsValid s.arena
      → IsValidAfter (fix_insert_round p q n s)
  unfolding fix_insert_round
  fix_insert_round-IsValidAfter p q n s h =
      reads-IsValidAfter s (unwrap n.parent) _
        λ g. reads-IsValidAfter s (node_at g s) _ λ m. fix_insert_step-IsValidAfter _ _ p q g s h

  fix_insert_loop-IsValidAfter :
      (fuel : ℕ) (p : NodeIndex) (s : Guard K V)
      → IsValid s.arena
      → IsValidAfter (fix_insert_loop fuel p s)
  unfolding fix_insert_loop
  fix_insert_loop-IsValidAfter zero p s h = tt
  fix_insert_loop-IsValidAfter (suc fuel) p s h = reads-IsValidAfter s (node_at p s) _ λ n.
      reads-IsValidAfter s (unwrap n.parent) _ λ q. reads-IsValidAfter s (node_at q s) _ λ m.
        if-IsValidAfter (is_black m) _ _ s h (
          and_then-IsValidAfter _ _ (fix_insert_round-IsValidAfter p q m s h) λ p' s1 h1.
            if-IsValidAfter (ref_eq (some p') s1.meta.root) _ _ s1 h1
              (fix_insert_loop-IsValidAfter fuel p' s1 h1))

  fix_insert-IsValidAfter :
      (p : NodeIndex) (s : Guard K V) → IsValid s.arena → IsValidAfter (fix_insert p s)
  unfolding fix_insert
  fix_insert-IsValidAfter p s h =
      and_then-IsValidAfter _ _ (fix_insert_loop-IsValidAfter (rounds s) p s h)
        λ x s1 h1. blacken_root-IsValidAfter s1 h1

  propagate_loop-IsValidAfter :
      (fuel : ℕ) (r : NodeRef) (s : Guard K V)
      → IsValid s.arena
      → IsValidAfter (propagate_loop fuel r s)
  unfolding propagate_loop
  propagate_loop-IsValidAfter fuel none s h = h
  propagate_loop-IsValidAfter zero (some p) s h = tt
  propagate_loop-IsValidAfter (suc fuel) (some p) s h = reads-IsValidAfter s (node_at p s) _ λ n.
      and_then-IsValidAfter _ _ (update_cumulant-IsValidAfter p s h)
        λ x s1 h1. propagate_loop-IsValidAfter fuel n.parent s1 h1

  pub propagate_cumulant-IsValidAfter :
      (p : NodeIndex) (s : Guard K V) → IsValid s.arena → IsValidAfter (propagate_cumulant p s)
  unfolding propagate_cumulant
  propagate_cumulant-IsValidAfter p s h = propagate_loop-IsValidAfter (rounds s) (some p) s h

  pub insert_at-IsValidAfter :
      (i : Side) (p q : NodeIndex) (s : Guard K V)
      → IsValid s.arena
      → IsValidAfter (insert_at i p q s)
  unfolding insert_at propagate_cumulant
  insert_at-IsValidAfter i p q s h =
      and_then-IsValidAfter _ _ (attach-IsValidAfter i p q s h) λ x s1 h1.
        reads-IsValidAfter s1 (node_at q s1) _ λ n.
          and_then-IsValidAfter _ _
            (if-IsValidAfter (is_some n.parent) _ _ s1 (fix_insert-IsValidAfter p s1 h1) h1)
            λ x2 s2 h2.
              if-IsValidAfter val.has_cumulant _ _ s2
                (propagate_loop-IsValidAfter (rounds s2) (some p) s2 h2) h2
