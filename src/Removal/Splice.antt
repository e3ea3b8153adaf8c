-- ===== src/Removal/Splice.antt =====
-- A node with one child leaves the tree: the child takes its place and turns black.
use rb_forest.Base.{
  pair, pair_at, ◌+◌, ◌≤◌, ◌≡◌, none, some, Side, left, refl, ap, sym, subst, ◌∙◌, arith, ==_refl,
  ≢→==,
}
use rb_forest.Node.{NodeIndex, black, Value}
use rb_forest.Guard.{Guard, Bounds}
use rb_forest.Guard.Laws.{view}
use rb_forest.Tree.{replace}
use rb_forest.Tree.Remove.{splice}
use rb_forest.Tree.Insert.{paint}
use rb_forest.Shape.{
  Cell, Shape, leaf, fork, Context, root, parent_of, plug, fork_at, Focus, node_of, Holds, count,
  count_above, once, Holds-frame, ne_of_once, once_self,
}
use rb_forest.Shape.Replace.{Replaced, replace-Replaced}
use rb_forest.Shape.Zipper.{
  Holds-fork_at, count-fork_at, root-fork_at, recolor_cell, Edited, paint-Edited,
}
use rb_forest.Shape.Balance.{
  height, top_weight, IsBalanced, IsBalancedAbove, height_above, plug-IsBalanced, top_weight_le,
  height-fork_at, of_IsBalanced-fork_at, color_weight_le,
}
use rb_forest.Shape.Unplug.{of_IsBalanced-plug, count-plug}
use rb_forest.Shape.Entries.{entries-fork_at, entries-plug}
use rb_forest.Insertion.{Focus-top}
use rb_forest.Removal.{Trimmed}

module _ {K V : Type 0} ⦃val : Value V⦄ where
  module _ {s : Guard K V} (i : Side) (a : Shape K V) (x : Cell K V) (b : Shape K V) (c : Cell K V)
      (ctx : Context K V) (foc : Focus s ctx (fork_at i (fork a x b) c leaf)) where
    held :
        (view s c.here ≡ some (node_of (parent_of ctx) (pair_at i (some x.here) none) c))
        × Holds (view s) (some c.here) (fork a x b)
        × Unit {0}
    held = (Holds-fork_at (view s) i (parent_of ctx) (fork a x b) c leaf).0 foc.inside

    few : (q : NodeIndex) → count q (fork a x b) + count_above q ctx + once q c.here ≤ 1
    few q = omega (arith, foc.distinct q, count-fork_at i (fork a x b) c leaf q)

    replaced :
        Replaced s ctx x.here
          (node_of (some c.here) (pair (root a) (root b)) x)
          (replace c.here (some x.here) s)
    replaced =
        replace-Replaced s ctx c.here x.here held.0 refl held.1.0 (rw root-fork_at at foc.above)
          (λ q. omega (arith, few q)) (omega (arith, few c.here, once_self c.here))
          (omega (arith, few x.here, once_self x.here)) (rw root-fork_at at foc.rooted)

    elsewhere :
        (q : NodeIndex)
        → count_above q ctx ≡ 0
        → once q x.here ≡ 0
        → view replaced.after q ≡ view s q
    elsewhere q out ne = replaced.reads q out ∙ rw (≢→== q x.here (ne_of_once q x.here ne)) refl

    raised : Focus replaced.after ctx (fork a x b)
    raised = record {
      inside = (
        replaced.reads x.here (omega (arith, few x.here, once_self x.here))
            ∙ rw (==_refl x.here) refl,
        Holds-frame (some x.here) a held.1.1
            (λ q m. elsewhere q (omega (arith, few q)) (omega (arith, few q))),
        Holds-frame (some x.here) b held.1.2
            (λ q m. elsewhere q (omega (arith, few q)) (omega (arith, few q))),
      );
      above = replaced.above;
      distinct = λ q. omega (arith, few q);
      rooted = ap (λ (m : Bounds). m.root) replaced.meta_lem;
    }

    painted :
        Edited replaced.after ctx
          (fork a x b)
          (fork a (recolor_cell x black) b)
          (paint x.here black replaced.after)
    painted = paint-Edited left a x b black raised

    -- The only child is red, and black in its parent's place it has the parent's height.
    pub splice-Trimmed :
        IsBalanced (plug ctx (fork_at i (fork a x b) c leaf))
        → top_weight (plug ctx (fork_at i (fork a x b) c leaf)) ≡ 1
        → s.meta.black_height ≡ height (plug ctx (fork_at i (fork a x b) c leaf))
        → Trimmed s (plug ctx (fork a x b)) (splice c.here x.here s)
    unfolding splice
    splice-Trimmed bal dark bh =
        let parts =
          of_IsBalanced-plug ctx (fork_at i (fork a x b) c leaf) bal (omega (arith, dark)) in
        let here = of_IsBalanced-fork_at i (fork a x b) c leaf parts.0 in
        let h = height-fork_at i (fork a x b) c leaf here.0 in
        let new = fork a (recolor_cell x black) b in
        let level : height (fork_at i (fork a x b) c leaf) ≡ height new =
          omega (arith, h, here.0, here.1, color_weight_le c.color) in
        let sub = here.3 in
        let whole =
          plug-IsBalanced ctx new (sub.0, omega arith, omega arith, sub.3, sub.4)
            (subst (λ n. IsBalancedAbove n ctx) level parts.1) (omega arith) in
        rw (replaced.returns) record {
          fixed = record {
            after = painted.after;
            tree = plug ctx new;
            returns = painted.returns;
            focus = Focus-top ctx painted.focus;
            balanced = whole.0;
            dark = omega (arith, whole.2, top_weight_le (plug ctx new));
            same =
                entries-plug ctx new (fork a x b)
                  (entries-fork_at left a a (recolor_cell x black) x b b refl refl refl);
            range =
                ap (λ (m : Bounds). m.range) painted.meta_kept
                ∙ ap (λ (m : Bounds). m.range) replaced.meta_lem;
            black_height =
                ap (λ (m : Bounds). m.black_height) painted.meta_kept
                ∙ ap (λ (m : Bounds). m.black_height) replaced.meta_lem
                ∙ bh
                ∙ parts.3
                ∙ ap (λ n. height_above n ctx) level
                ∙ sym whole.1;
          };
          reads_out = λ q out.
              painted.reads_out q (omega (arith, out, count-plug q ctx (fork a x b)))
              ∙ elsewhere q (omega (arith, out, count-plug q ctx (fork a x b)))
                  (omega (arith, out, count-plug q ctx (fork a x b)));
        }
