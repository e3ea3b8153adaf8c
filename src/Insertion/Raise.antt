-- ===== src/Insertion/Raise.antt =====
-- The branch of the helper of `fix_insert` where the uncle is black.
use rb_forest.Base.{
  pair_at, ◌+◌, ◌≡◌, some, Side, left, right, other, refl, ap, sym, subst, ◌∙◌, arith,
}
use rb_forest.Node.{NodeIndex, Node, red, black, color_weight, Value}
use rb_forest.Guard.{Guard}
use rb_forest.Guard.Laws.{view, node_at-done}
use rb_forest.Tree.{rotate}
use rb_forest.Tree.Insert.{raise_parent, paint}
use rb_forest.Shape.{Cell, Shape, Context, below, root, fork_at, plug, Focus, node_of}
use rb_forest.Shape.Rotate.{settle}
use rb_forest.Shape.Zipper.{
  fork_at-other, Holds-fork_at, Focus-up, Focus-down, recolor_cell, Edited, paint-Edited, Turned,
  rotate-Turned,
}
use rb_forest.Shape.Balance.{
  height, top_weight, weight, IsBalanced, IsBalancedAbove, height_above, IsBalanced-fork_at,
  height-fork_at,
}
use rb_forest.Shape.Entries.{entries, entry-settle, entries-fork_at, entries-rotate, entries-plug}
use rb_forest.Insertion.{top_node, Climbed, SameLimits-rooted, SameLimits-kept, SameLimits-refl}

module _ {K V : Type 0} ⦃val : Value V⦄ where
  -- A tree and its mirror image about the root, twice.
  two_sides :
      (k : Side) (t : Shape K V) (p : Cell K V) (u : Shape K V) (g : Cell K V) (w : Shape K V)
      → fork_at k (fork_at k t p u) g w ≡ fork_at (other k) w g (fork_at (other k) u p t)
  two_sides left t p u g w = refl
  two_sides right t p u g w = refl

  module _ {s : Guard K V} (k : Side) {p : Cell K V} {u : Shape K V} {g : Cell K V} {w : Shape K V}
      {ctx : Context K V} {t : Shape K V} {ptr : NodeIndex}
      (foc : Focus s (below k p u (below k g w ctx)) t) (rooted : root t ≡ some ptr) where
    child :
        (n : Node K V) × (view s ptr ≡ some n)
        × (n.parent ≡ some p.here)
        × (color_weight n.color ≡ top_weight t)
    child = top_node (view s) (some p.here) t ptr foc.inside rooted

    -- The parent turns black,
    darkened :
        Edited s
          (below k g w ctx)
          (fork_at k t p u)
          (fork_at k t (recolor_cell p black) u)
          (paint p.here black s)
    darkened = paint-Edited k t p u black (Focus-up k foc)

    parent_seen :
        view darkened.after p.here
        ≡ some (node_of (some g.here) (pair_at k (root t) (root u)) (recolor_cell p black))
    parent_seen =
        ((Holds-fork_at (view darkened.after) k (some g.here) t (recolor_cell p black) u).0
          darkened.focus.inside).0

    -- the grandparent red,
    reddened :
        Edited darkened.after ctx
          (fork_at k (fork_at k t (recolor_cell p black) u) g w)
          (fork_at k (fork_at k t (recolor_cell p black) u) (recolor_cell g red) w)
          (paint g.here red darkened.after)
    reddened =
        paint-Edited k (fork_at k t (recolor_cell p black) u) g w red (Focus-up k darkened.focus)

    -- and the parent rises above it.
    turned :
        Turned reddened.after
          (other k)
          ctx
          w
          (recolor_cell g red)
          u
          (recolor_cell p black)
          t
          (rotate (other k) g.here reddened.after)
    turned = rotate-Turned (other k) (
        subst (Focus reddened.after ctx)
          (two_sides k t (recolor_cell p black) u (recolor_cell g red) w) reddened.focus)

    lowered : Shape K V
    lowered = fork_at (other k) w (settle (other k) w (recolor_cell g red) u) u

    same_entries :
        entries (plug (below k (recolor_cell p black) lowered ctx) t)
        ≡ entries (plug (below k p u (below k g w ctx)) t)
    unfolding lowered
    same_entries =
        entries-plug ctx (fork_at k t (recolor_cell p black) lowered)
          (fork_at k (fork_at k t p u) g w)
          (ap entries (sym (fork_at-other k lowered (recolor_cell p black) t))
            ∙ entries-fork_at (other k) lowered (fork_at (other k) w g u) (recolor_cell p black) p t
                t
                (entries-fork_at (other k) w w _ g u u refl
                  (entry-settle (other k) w (recolor_cell g red) u) refl)
                refl refl
            ∙ entries-rotate (other k) w g u p t
            ∙ ap entries (sym (two_sides k t p u g w)))

    module _ (bt : IsBalanced t) (rt : top_weight t ≡ 0) (bu : IsBalanced u) (bw : IsBalanced w)
        (hu : height u ≡ height t) (hw : height w ≡ height t) (ku : top_weight u ≡ 1)
        (kw : top_weight w ≡ 1) (pr : weight p ≡ 0) (gb : weight g ≡ 1)
        (above : IsBalancedAbove (1 + height t) ctx) where
      lowered-height : height lowered ≡ height w
      unfolding lowered
      lowered-height =
          height-fork_at (other k) w (settle (other k) w (recolor_cell g red) u) u (hw ∙ sym hu)
          ∙ omega arith

      lowered-IsBalanced : IsBalanced lowered
      unfolding lowered
      lowered-IsBalanced =
          IsBalanced-fork_at (other k) w (settle (other k) w (recolor_cell g red) u) u (hw ∙ sym hu)
            (omega arith) (omega arith) bw bu

      -- The repair is done: the node has a black parent.
      pub raise_parent-Climbed :
          Climbed s (below k p u (below k g w ctx)) t (raise_parent (other k) ptr s)
      unfolding raise_parent lowered
      raise_parent-Climbed = record {
        after = turned.after;
        ptr = ptr;
        context = below k (recolor_cell p black) lowered ctx;
        tree = t;
        returns = rw (
          node_at-done s ptr child.1,
          child.2,
          darkened.returns,
          node_at-done darkened.after p.here parent_seen,
          reddened.returns,
          turned.returns,
        );
        rooted = rooted;
        focus = Focus-down k (
            subst (Focus turned.after ctx) (fork_at-other k lowered (recolor_cell p black) t)
              turned.focus);
        balanced = bt;
        is_red = rt;
        above = (lowered-height ∙ hw, omega arith, omega arith, lowered-IsBalanced, above);
        nearer = omega arith;
        same = same_entries;
        high = ap (λ n. height_above n ctx) (omega arith);
        limits = SameLimits-rooted turned.meta_lem (
            SameLimits-kept reddened.meta_kept
              (SameLimits-kept darkened.meta_kept (SameLimits-refl s.meta)));
      }
