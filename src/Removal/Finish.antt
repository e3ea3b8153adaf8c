-- ===== src/Removal/Finish.antt =====
-- The end of `remove_at` of src/tree/mod.rs: the links, the range and the cumulants.
use rb_forest.Base.{
  ◌≤◌, ◌≡◌, ◌⊎◌, inl, inr, none, some, List, ◌∷◌, ◌++◌, Pair, pair, left, right, Outcome, done,
  refl, ap, sym, ◌∙◌, arith, if◌then◌else◌,
}
use rb_forest.Node.{NodeIndex, NodeRef, Value}
use rb_forest.Guard.{Guard, pure}
use rb_forest.Guard.Laws.{view}
use rb_forest.Tree.{propagate_cumulant}
use rb_forest.Tree.Remove.{unlink_order, finish_remove}
use rb_forest.Shape.{Shape, top, Focus, count}
use rb_forest.Shape.Balance.{height, top_weight, IsBalanced}
use rb_forest.Shape.Entries.{Entry, entries}
use rb_forest.Shape.Form.{count-same}
use rb_forest.Sequence.{first_or, last_or}
use rb_forest.Insertion.At.{settle-Fixed}
use rb_forest.Removal.{Trimmed}
use rb_forest.Removal.Frame.{settle_outside}
use rb_forest.Removal.Gap.{gap}
use rb_forest.Removal.Unlink.{Closed, narrow, unlink_order-Closed, narrow-range}

module _ {K V : Type 0} ⦃val : Value V⦄ where
  -- A red-black tree with the entries `xs` and `ys` around the removed one, linked, and the removed
  -- node as it was.
  pub record Removed (s : Guard K V) (ptr : NodeIndex) (xs ys : List (Entry K val.Local))
      (r : Outcome (NodeIndex × Guard K V)) : Type 0 where
    pub after : Guard K V
    pub tree : Shape K V
    pub returns : r ≡ done (ptr, after)
    pub focus : Focus after top tree
    pub balanced : IsBalanced tree
    pub dark : top_weight tree ≡ 1
    pub entries_are : entries tree ≡ gap none none xs ys
    pub range : after.meta.range ≡ pair (first_or none (xs ++ ys)) (last_or none (xs ++ ys))
    pub black_height : after.meta.black_height ≡ height tree
    pub node_kept : view after ptr ≡ view s ptr
    pub apart : count ptr tree ≡ 0

  finish_root :
      (ptr : NodeIndex) (order : Pair NodeRef) (s s1 : Guard K V) {parent : NodeRef}
      → parent ≡ none
      → unlink_order order.at0 order.at1 s ≡ done (tt, s1)
      → finish_remove ptr parent order s ≡ done (ptr, s1)
  unfolding finish_remove
  finish_root ptr order s s1 up first = rw (first, up) refl

  finish_below :
      (ptr p : NodeIndex) (order : Pair NodeRef) (s s1 s2 : Guard K V) {parent : NodeRef}
      → parent ≡ some p
      → unlink_order order.at0 order.at1 s ≡ done (tt, s1)
      → (if val.has_cumulant then propagate_cumulant p else pure tt) s1 ≡ done (tt, s2)
      → finish_remove ptr parent order s ≡ done (ptr, s2)
  unfolding finish_remove
  finish_below ptr p order s s1 s2 up first second = rw (first, up, second) refl

  module _ {s : Guard K V} (ptr : NodeIndex) (order : Pair NodeRef) (w : Shape K V)
      {xs ys : List (Entry K val.Local)} {r o : Outcome (Unit {0} × Guard K V)} (x : Trimmed s w r)
      (c : Closed x.fixed.after x.fixed.tree xs ys o)
      (first : unlink_order order.at0 order.at1 x.fixed.after ≡ done (tt, c.after))
      (out : count ptr w ≡ 0) where
    away : count ptr x.fixed.tree ≡ 0
    away = count-same ptr w x.fixed.tree x.fixed.same ∙ out

    node_kept : view c.after ptr ≡ view s ptr
    node_kept = c.reads_out ptr away ∙ x.reads_out ptr out

    dark : top_weight c.tree ≡ 1
    dark = c.top_kept ∙ x.fixed.dark

    recorded : c.after.meta.black_height ≡ height c.tree
    recorded = c.black_height ∙ x.fixed.black_height ∙ sym c.height_kept

    -- Nothing is above the removed node,
    root-Removed :
        {parent : NodeRef}
        → parent ≡ none
        → Removed s ptr xs ys (finish_remove ptr parent order x.fixed.after)
    root-Removed up = record {
      after = c.after;
      tree = c.tree;
      returns = finish_root ptr order x.fixed.after c.after up first;
      focus = c.focus;
      balanced = c.balanced x.fixed.balanced;
      dark = dark;
      entries_are = c.entries_are;
      range = c.range;
      black_height = recorded;
      node_kept = node_kept;
      apart = c.count_kept ptr ∙ away;
    }

    -- or a parent, from which the cumulants are updated.
    below-Removed :
        {parent : NodeRef} (p : NodeIndex)
        → parent ≡ some p
        → 1 ≤ count p w
        → Removed s ptr xs ys (finish_remove ptr parent order x.fixed.after)
    below-Removed p up inside =
        let there : 1 ≤ count p c.tree =
          omega (arith, inside, c.count_kept p, count-same p w x.fixed.tree x.fixed.same) in
        let g =
          settle-Fixed p c.tree c.focus there (c.balanced x.fixed.balanced) dark recorded
            val.has_cumulant in
        record {
          after = g.after;
          tree = g.tree;
          returns = finish_below ptr p order x.fixed.after c.after g.after up first g.returns;
          focus = g.focus;
          balanced = g.balanced;
          dark = g.dark;
          entries_are = g.same ∙ c.entries_are;
          range = g.range ∙ c.range;
          black_height = g.black_height;
          node_kept =
              settle_outside val.has_cumulant p c.tree ptr c.focus there g.returns
                (c.count_kept ptr ∙ away)
              ∙ node_kept;
          apart = count-same ptr c.tree g.tree g.same ∙ c.count_kept ptr ∙ away;
        }

  pub finish_remove-Removed :
      {s : Guard K V} (ptr : NodeIndex) (parent : NodeRef) (order : Pair NodeRef) (w : Shape K V)
      (xs : List (Entry K val.Local)) (e : Entry K val.Local) (ys : List (Entry K val.Local))
      {r : Outcome (Unit {0} × Guard K V)} (x : Trimmed s w r)
      → entries w ≡ xs ++ ys
      → s.meta.range ≡ pair (first_or none (xs ++ e ∷ ys)) (last_or none (xs ++ e ∷ ys))
      → order ≡ pair (last_or none xs) (first_or none ys)
      → (parent ≡ none) ⊎ ((p : NodeIndex) × (parent ≡ some p) × (1 ≤ count p w))
      → count ptr w ≡ 0
      → Removed s ptr xs ys (finish_remove ptr parent order x.fixed.after)
  finish_remove-Removed {s} ptr parent order w xs e ys x es range linked up out =
      let c = unlink_order-Closed x.fixed.tree xs ys x.fixed.focus (x.fixed.same ∙ es) (
        ap
          (λ g.
            narrow left (first_or none ys) (last_or none xs)
              (narrow right (last_or none xs) (first_or none ys) g))
          (x.fixed.range ∙ range)
        ∙ narrow-range xs e ys) in
      let first : unlink_order order.at0 order.at1 x.fixed.after ≡ done (tt, c.after) =
        ap (λ o. unlink_order o.at0 o.at1 x.fixed.after) linked ∙ c.returns in
      elim up [
        | inl root ↦ root-Removed ptr order w x c first out root
        | inr (p, below_p, inside) ↦ below-Removed ptr order w x c first out p below_p inside
      ]
