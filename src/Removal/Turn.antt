-- ===== src/Removal/Turn.antt =====
-- The branches of the helper of `fix_remove` that rotate and end the repair: a red far nephew, and a
-- red near one that is rotated to the far side first.
use rb_forest.Base.{
  at-pair_at-other, ◌+◌, ◌≡◌, ◌≢◌, inl, none, some, Side, left, other, refl, ap, sym, subst, ◌∙◌,
  arith, done,
}
use rb_forest.Node.{NodeIndex, black, Value}
use rb_forest.Guard.{Guard}
use rb_forest.Guard.Laws.{view}
use rb_forest.Tree.{rotate}
use rb_forest.Tree.Insert.{paint}
use rb_forest.Tree.Remove.{far_rotation}
use rb_forest.Shape.{
  Cell, Shape, fork, Context, root, below, fork_at, Focus, once_self, ne_of_once, count,
  count_above,
}
use rb_forest.Shape.Rotate.{settle}
use rb_forest.Shape.Zipper.{
  fork_at-other, count-fork_at, Holds-fork_at, Focus-up, Focus-down, recolor_cell, Edited,
  paint-Edited, Turned, rotate-Turned,
}
use rb_forest.Shape.Balance.{
  height, top_weight, IsBalanced, IsBalanced-fork_at, height-fork_at, top_weight-fork_at,
}
use rb_forest.Shape.Entries.{entries, entries-fork_at, entries-rotate, entry-settle}
use rb_forest.Insertion.{SameLimits-kept, SameLimits-rooted, SameLimits-refl}
use rb_forest.Removal.Frame.{rotate_outside}
use rb_forest.Removal.{Resolved, both_nodes-done}

module _ {K V : Type 0} ⦃val : Value V⦄ where
  -- The sibling `c` has near child `a` and far child `f`, between `x` and `y`.
  module _ {s : Guard K V} (i : Side) {p : Cell K V} (a : Shape K V) (c : Cell K V) (x : Shape K V)
      (f : Cell K V) (y : Shape K V) {ctx : Context K V} {t : Shape K V}
      (foc : Focus s (below i p (fork_at i a c (fork x f y)) ctx) t) where
    far_side : Focus s (below (other i) p t ctx) (fork_at i a c (fork x f y))
    far_side = Focus-down (other i) (
        subst (Focus s ctx) (sym (fork_at-other i (fork_at i a c (fork x f y)) p t))
          (Focus-up i foc))

    -- The sibling takes the parent's colour,
    colored :
        Edited s
          (below (other i) p t ctx)
          (fork_at i a c (fork x f y))
          (fork_at i a (recolor_cell c p.color) (fork x f y))
          (paint c.here p.color s)
    colored = paint-Edited i a c (fork x f y) p.color far_side

    -- the parent turns black,
    darkened :
        Edited colored.after ctx
          (fork_at (other i) (fork_at i a (recolor_cell c p.color) (fork x f y)) p t)
          (fork_at
            (other i)
            (fork_at i a (recolor_cell c p.color) (fork x f y))
            (recolor_cell p black)
            t)
          (paint p.here black colored.after)
    darkened =
        paint-Edited (other i) (fork_at i a (recolor_cell c p.color) (fork x f y)) p t black
          (Focus-up (other i) colored.focus)

    -- and so does the far nephew.
    lit :
        Edited darkened.after
          (below
            (other i)
            (recolor_cell c p.color)
            a
            (below (other i) (recolor_cell p black) t ctx))
          (fork x f y)
          (fork x (recolor_cell f black) y)
          (paint f.here black darkened.after)
    lit = paint-Edited left x f y black (
        Focus-down (other i) (
          subst (Focus darkened.after (below (other i) (recolor_cell p black) t ctx))
            (sym (fork_at-other i (fork x f y) (recolor_cell c p.color) a))
            (Focus-down (other i) darkened.focus)))

    leaning : Focus lit.after ctx (
        fork_at i t
          (recolor_cell p black)
          (fork_at i a (recolor_cell c p.color) (fork x (recolor_cell f black) y)))
    leaning =
        subst (Focus lit.after ctx)
          (fork_at-other i
              (fork_at (other i) (fork x (recolor_cell f black) y) (recolor_cell c p.color) a)
              (recolor_cell p black) t
            ∙ ap (fork_at i t (recolor_cell p black))
                (fork_at-other i (fork x (recolor_cell f black) y) (recolor_cell c p.color) a))
          (Focus-up (other i) (Focus-up (other i) lit.focus))

    turned :
        Turned lit.after i ctx t
          (recolor_cell p black)
          a
          (recolor_cell c p.color)
          (fork x (recolor_cell f black) y)
          (rotate i p.here lit.after)
    turned = rotate-Turned i leaning

    apart : c.here ≢ p.here
    apart = ne_of_once c.here p.here (
        omega
          (arith, foc.distinct c.here, once_self c.here, count-fork_at i a c (fork x f y) c.here))

    low : Shape K V
    low = fork_at i t (settle i t (recolor_cell p black) a) a

    far : Shape K V
    far = fork x (recolor_cell f black) y

    steps : far_rotation i p.here c.here s ≡ done (none, turned.after)
    unfolding far_rotation
    steps =
        let seen =
          ((Holds-fork_at (view s) i (some p.here) a c (fork x f y)).0 far_side.inside).0 in
        rw (
          both_nodes-done s c.here p.here seen foc.above.0 apart,
          colored.returns,
          darkened.returns,
          at-pair_at-other i (root a) (some f.here),
          lit.returns,
          turned.returns,
        )

    same_entries :
        entries (fork_at i low (recolor_cell c p.color) far)
        ≡ entries (fork_at i t p (fork_at i a c (fork x f y)))
    unfolding low far
    same_entries =
        entries-fork_at i low (fork_at i t p a) (recolor_cell c p.color) c far (fork x f y)
          (entries-fork_at i t t (settle i t (recolor_cell p black) a) p a a refl
            (entry-settle i t (recolor_cell p black) a) refl)
          refl refl
        ∙ entries-rotate i t p a c (fork x f y)

    untouched :
        (q : NodeIndex)
        → count q (fork_at i t p (fork_at i a c (fork x f y))) + count_above q ctx ≡ 0
        → view turned.after q ≡ view s q
    unfolding far
    untouched q out =
        let all = count-fork_at i t p (fork_at i a c (fork x f y)) q in
        let sib = count-fork_at i a c (fork x f y) q in
        let mid = count-fork_at i a (recolor_cell c p.color) (fork x f y) q in
        let more = count-fork_at i a (recolor_cell c p.color) far q in
        rotate_outside i t (recolor_cell p black) a (recolor_cell c p.color) far q leaning
          turned.returns
          (omega (
            arith,
            out,
            all,
            sib,
            more,
            count-fork_at i t (recolor_cell p black) (fork_at i a (recolor_cell c p.color) far) q,
          ))
        ∙ lit.reads_out q (omega (arith, out, all, sib))
        ∙ darkened.reads_out q (
            omega (
              arith,
              out,
              all,
              sib,
              mid,
              count-fork_at (other i) (fork_at i a (recolor_cell c p.color) (fork x f y)) p t q,
            ))
        ∙ colored.reads_out q (omega (arith, out, all, sib))

    -- The tree below the parent has its height again, with the colour of the parent at its root.
    pub far_rotation-Resolved :
        IsBalanced t
        → top_weight t ≡ 1
        → IsBalanced a
        → height a ≡ height t
        → IsBalanced x
        → height x ≡ height t
        → IsBalanced y
        → height y ≡ height t
        → Resolved s i p (fork_at i a c (fork x f y)) ctx t (far_rotation i p.here c.here s)
    unfolding low far
    far_rotation-Resolved bt kt ba ha bx hx by hy =
        let lowh = height-fork_at i t (settle i t (recolor_cell p black) a) a (sym ha) in
        record {
          after = turned.after;
          next = none;
          tree = fork_at i low (recolor_cell c p.color) far;
          returns = steps;
          focus = turned.focus;
          balanced =
              IsBalanced-fork_at i low (recolor_cell c p.color) far
                (height-fork_at i t (settle i t (recolor_cell p black) a) a (sym ha) ∙ omega arith)
                (omega (arith, top_weight-fork_at i t (settle i t (recolor_cell p black) a) a))
                (omega arith)
                (IsBalanced-fork_at i t (settle i t (recolor_cell p black) a) a (sym ha)
                  (omega arith) (omega arith) bt ba)
                (hx ∙ sym hy, omega arith, omega arith, bx, by);
          same = same_entries;
          limits = SameLimits-rooted turned.meta_lem (
              SameLimits-kept lit.meta_kept (
                SameLimits-kept darkened.meta_kept
                  (SameLimits-kept colored.meta_kept (SameLimits-refl s.meta))));
          reads_out = untouched;
          outcome = inl (
            refl,
            height-fork_at i low (recolor_cell c p.color) far (omega (arith, lowh))
                ∙ omega (arith, lowh),
            omega (arith, top_weight-fork_at i low (recolor_cell c p.color) far),
          );
        }
