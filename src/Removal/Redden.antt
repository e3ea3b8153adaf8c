-- ===== src/Removal/Redden.antt =====
-- The branch of the helper of `fix_remove` where both nephews are black.
use rb_forest.Base.{
  pair_at, ◌+◌, ◌≡◌, inl, inr, none, some, Side, left, other, refl, ap, sym, subst, ◌∙◌, arith,
}
use rb_forest.Node.{NodeIndex, red, black, color_is_red, color_weight, Value}
use rb_forest.Guard.{Guard}
use rb_forest.Guard.Laws.{view, node_at-done}
use rb_forest.Tree.Insert.{paint}
use rb_forest.Tree.Remove.{redden_sibling}
use rb_forest.Shape.{
  Cell, Shape, fork, Context, parent_of, root, node_of, below, fork_at, Focus, count, count_above,
}
use rb_forest.Shape.Zipper.{
  fork_at-other, root-fork_at, count-fork_at, Holds-fork_at, Focus-up, Focus-down, recolor_cell,
  Edited, paint-Edited,
}
use rb_forest.Shape.Balance.{
  height, top_weight, weight, IsBalanced, IsBalanced-fork_at, height-fork_at, top_weight-fork_at,
}
use rb_forest.Shape.Entries.{entries-fork_at}
use rb_forest.Insertion.{SameLimits-kept, SameLimits-refl}
use rb_forest.Insertion.Loop.{color_cases}
use rb_forest.Removal.{Resolved}

module _ {K V : Type 0} ⦃val : Value V⦄ where
  module _ {s : Guard K V} (i : Side) {p : Cell K V} {a : Shape K V} {c : Cell K V} {b : Shape K V}
      {ctx : Context K V} {t : Shape K V} (foc : Focus s (below i p (fork a c b) ctx) t) where
    reddened :
        Edited s
          (below (other i) p t ctx)
          (fork a c b)
          (fork a (recolor_cell c red) b)
          (paint c.here red s)
    reddened = paint-Edited left a c b red (
        Focus-down (other i)
          (subst (Focus s ctx) (sym (fork_at-other i (fork a c b) p t)) (Focus-up i foc)))

    whole : Focus reddened.after ctx (fork_at i t p (fork a (recolor_cell c red) b))
    whole =
        subst (Focus reddened.after ctx) (fork_at-other i (fork a (recolor_cell c red) b) p t)
          (Focus-up (other i) reddened.focus)

    sibling_outside :
        (q : NodeIndex)
        → count q (fork_at i t p (fork a c b)) + count_above q ctx ≡ 0
        → view reddened.after q ≡ view s q
    sibling_outside q out =
        reddened.reads_out q (omega (arith, out, count-fork_at i t p (fork a c b) q))

    parent_seen :
        view reddened.after p.here
        ≡ some
            (node_of (parent_of ctx) (pair_at i (root t) (root (fork a (recolor_cell c red) b))) p)
    parent_seen =
        ((Holds-fork_at (view reddened.after) i (parent_of ctx) t p
            (fork a (recolor_cell c red) b)).0
          whole.inside).0

    module _ (bt : IsBalanced t) (kt : top_weight t ≡ 1) (bu : IsBalanced (fork a c b))
        (level : height (fork a c b) ≡ 1 + height t) (black_c : weight c ≡ 1)
        (black_a : top_weight a ≡ 1) (black_b : top_weight b ≡ 1) where
      red_sibling-IsBalanced : IsBalanced (fork a (recolor_cell c red) b)
      red_sibling-IsBalanced = (bu.0, omega arith, omega arith, bu.3, bu.4)

      -- A black parent, with both its sub-trees short of a black node, is the next to mend.
      passed_on :
          p.color ≡ black → Resolved s i p (fork a c b) ctx t (redden_sibling p.here c.here s)
      unfolding redden_sibling
      passed_on pb =
          let u' = fork a (recolor_cell c red) b in
          let w = ap color_weight pb in
          rw (reddened.returns, node_at-done reddened.after p.here parent_seen, ap color_is_red pb)
            record {
              after = reddened.after;
              next = some p.here;
              tree = fork_at i t p u';
              returns = refl;
              focus = whole;
              balanced =
                  IsBalanced-fork_at i t p u' (omega arith) (omega arith) (omega arith) bt
                    red_sibling-IsBalanced;
              same = entries-fork_at i t t p p u' (fork a c b) refl refl refl;
              limits = SameLimits-kept reddened.meta_kept (SameLimits-refl s.meta);
              reads_out = sibling_outside;
              outcome = inr (
                p.here,
                refl,
                root-fork_at i t p u',
                height-fork_at i t p u' (omega arith) ∙ omega arith,
                top_weight-fork_at i t p u' ∙ w,
                w,
              );
            }

      darkened :
          Edited reddened.after ctx
            (fork_at i t p (fork a (recolor_cell c red) b))
            (fork_at i t (recolor_cell p black) (fork a (recolor_cell c red) b))
            (paint p.here black reddened.after)
      darkened = paint-Edited i t p (fork a (recolor_cell c red) b) black whole

      -- A red parent turns black, which makes up for the black node.
      made_up : p.color ≡ red → Resolved s i p (fork a c b) ctx t (redden_sibling p.here c.here s)
      unfolding redden_sibling
      made_up pr =
          let u' = fork a (recolor_cell c red) b in
          let w = ap color_weight pr in
          let p' = recolor_cell p black in
          rw
            (
              reddened.returns,
              node_at-done reddened.after p.here parent_seen,
              ap color_is_red pr,
              darkened.returns,
            )
            record {
              after = darkened.after;
              next = none;
              tree = fork_at i t p' u';
              returns = refl;
              focus = darkened.focus;
              balanced =
                  IsBalanced-fork_at i t p' u' (omega arith) (omega arith) (omega arith) bt
                    red_sibling-IsBalanced;
              same = entries-fork_at i t t p' p u' (fork a c b) refl refl refl;
              limits =
                  SameLimits-kept darkened.meta_kept
                    (SameLimits-kept reddened.meta_kept (SameLimits-refl s.meta));
              reads_out = λ q out.
                  let before = count-fork_at i t p (fork a c b) q in
                  darkened.reads_out q (omega (arith, out, before, count-fork_at i t p u' q))
                  ∙ sibling_outside q out;
              outcome = inl (
                refl,
                height-fork_at i t p' u' (omega arith) ∙ omega arith,
                omega (arith, top_weight-fork_at i t p' u'),
              );
            }

      -- The sibling turns red; if the parent is red, it turns black, which ends the repair.
      pub redden_sibling-Resolved :
          Resolved s i p (fork a c b) ctx t (redden_sibling p.here c.here s)
      redden_sibling-Resolved = elim (color_cases p.color) [
        | inl pb ↦ passed_on pb
        | inr pr ↦ made_up pr
      ]
