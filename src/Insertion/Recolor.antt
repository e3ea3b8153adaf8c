-- ===== src/Insertion/Recolor.antt =====
-- The branch of the helper of `fix_insert` where the uncle is red.
use rb_forest.Base.{◌+◌, ◌≡◌, some, Side, left, other, refl, ap, sym, subst, ◌∙◌, arith}
use rb_forest.Node.{red, black, Value}
use rb_forest.Guard.{Guard}
use rb_forest.Tree.Insert.{recolor, paint}
use rb_forest.Shape.{Cell, Shape, fork, Context, below, fork_at, plug, Focus}
use rb_forest.Shape.Zipper.{
  fork_at-other, root-fork_at, Focus-up, Focus-down, recolor_cell, Edited, paint-Edited,
}
use rb_forest.Shape.Balance.{
  height, top_weight, weight, IsBalanced, IsBalancedAbove, height_above, IsBalanced-fork_at,
  height-fork_at, top_weight-fork_at,
}
use rb_forest.Shape.Entries.{entries, entries-fork_at, entries-plug}
use rb_forest.Insertion.{Climbed, SameLimits-kept, SameLimits-refl}

module _ {K V : Type 0} ⦃val : Value V⦄ where
  module _ {s : Guard K V} (j k : Side) {p : Cell K V} {u : Shape K V} {g : Cell K V}
      {a : Shape K V} {c : Cell K V} {b : Shape K V} {ctx : Context K V} {t : Shape K V}
      (foc : Focus s (below j p u (below k g (fork a c b) ctx)) t) where
    uncle_black :
        Edited s
          (below (other k) g (fork_at j t p u) ctx)
          (fork a c b)
          (fork a (recolor_cell c black) b)
          (paint c.here black s)
    uncle_black = paint-Edited left a c b black (
        Focus-down (other k) (
          subst (Focus s ctx) (sym (fork_at-other k (fork a c b) g (fork_at j t p u)))
            (Focus-up k (Focus-up j foc))))

    parent_black :
        Edited uncle_black.after
          (below k g (fork a (recolor_cell c black) b) ctx)
          (fork_at j t p u)
          (fork_at j t (recolor_cell p black) u)
          (paint p.here black uncle_black.after)
    parent_black = paint-Edited j t p u black (
        Focus-down k (
          subst (Focus uncle_black.after ctx)
            (fork_at-other k (fork a (recolor_cell c black) b) g (fork_at j t p u))
            (Focus-up (other k) uncle_black.focus)))

    grandparent_red :
        Edited parent_black.after ctx
          (fork_at k (fork_at j t (recolor_cell p black) u) g (fork a (recolor_cell c black) b))
          (fork_at k
            (fork_at j t (recolor_cell p black) u)
            (recolor_cell g red)
            (fork a (recolor_cell c black) b))
          (paint g.here red parent_black.after)
    grandparent_red =
        paint-Edited k (fork_at j t (recolor_cell p black) u) g (fork a (recolor_cell c black) b)
          red (Focus-up k parent_black.focus)

    same_entries :
        entries (
          plug ctx (
            fork_at k
              (fork_at j t (recolor_cell p black) u)
              (recolor_cell g red)
              (fork a (recolor_cell c black) b)))
        ≡ entries (plug (below j p u (below k g (fork a c b) ctx)) t)
    same_entries =
        entries-plug ctx
          (fork_at k (fork_at j t (recolor_cell p black) u) (recolor_cell g red)
            (fork a (recolor_cell c black) b))
          (fork_at k (fork_at j t p u) g (fork a c b))
          (entries-fork_at k (fork_at j t (recolor_cell p black) u) (fork_at j t p u)
            (recolor_cell g red) g (fork a (recolor_cell c black) b) (fork a c b)
            (entries-fork_at j t t (recolor_cell p black) p u u refl refl refl) refl refl)

    -- The red node is now the grandparent.
    module _ (bt : IsBalanced t) (rt : top_weight t ≡ 0) (bu : IsBalanced u)
        (bw : IsBalanced (fork a c b)) (hu : height u ≡ height t)
        (hw : height (fork a c b) ≡ height t) (ku : top_weight u ≡ 1) (kw : weight c ≡ 0)
        (pr : weight p ≡ 0) (gb : weight g ≡ 1) (above : IsBalancedAbove (1 + height t) ctx) where
      level :
          height (fork_at j t (recolor_cell p black) u) ≡ height (fork a (recolor_cell c black) b)
      level = height-fork_at j t (recolor_cell p black) u (sym hu) ∙ omega arith

      pub recolor-Climbed :
          Climbed s
            (below j p u (below k g (fork a c b) ctx))
            t
            (recolor (some c.here) p.here g.here s)
      unfolding recolor
      recolor-Climbed =
          let up = height-fork_at j t (recolor_cell p black) u (sym hu) in
          let whole =
            height-fork_at k (fork_at j t (recolor_cell p black) u) (recolor_cell g red)
              (fork a (recolor_cell c black) b) level in
          record {
            after = grandparent_red.after;
            ptr = g.here;
            context = ctx;
            tree =
                fork_at k (fork_at j t (recolor_cell p black) u) (recolor_cell g red)
                  (fork a (recolor_cell c black) b);
            returns = rw (uncle_black.returns, parent_black.returns, grandparent_red.returns);
            rooted =
                root-fork_at k (fork_at j t (recolor_cell p black) u) (recolor_cell g red)
                  (fork a (recolor_cell c black) b);
            focus = grandparent_red.focus;
            balanced =
                IsBalanced-fork_at k (fork_at j t (recolor_cell p black) u) (recolor_cell g red)
                  (fork a (recolor_cell c black) b) level
                  (omega (arith, top_weight-fork_at j t (recolor_cell p black) u)) (omega arith)
                  (IsBalanced-fork_at j t (recolor_cell p black) u (sym hu) (omega arith)
                    (omega arith) bt bu)
                  (bw.0, omega arith, omega arith, bw.3, bw.4);
            is_red =
                top_weight-fork_at k (fork_at j t (recolor_cell p black) u) (recolor_cell g red)
                  (fork a (recolor_cell c black) b);
            above = subst (λ n. IsBalancedAbove n ctx) (omega (arith, whole, up)) above;
            nearer = omega arith;
            same = same_entries;
            high = ap (λ n. height_above n ctx) (omega (arith, whole, up));
            limits = SameLimits-kept grandparent_red.meta_kept (
                SameLimits-kept parent_black.meta_kept
                  (SameLimits-kept uncle_black.meta_kept (SameLimits-refl s.meta)));
          }
