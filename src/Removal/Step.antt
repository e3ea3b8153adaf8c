-- ===== src/Removal/Step.antt =====
-- The helper of `fix_remove` as a whole: a red sibling is rotated above the parent first.
use rb_forest.Base.{
  at-pair_at, at-pair_at-other, ◌+◌, ◌≤◌, ◌≡◌, inl, inr, some, Side, left, right, other, Outcome,
  refl, ap, sym, subst, ◌∙◌, arith, done,
}
use rb_forest.Node.{NodeIndex, NodeRef, red, black, color_is_red, color_weight, Value}
use rb_forest.Guard.{Guard, ◌>>=◌}
use rb_forest.Guard.Laws.{view, node_at-done}
use rb_forest.Tree.{rotate}
use rb_forest.Tree.Insert.{paint}
use rb_forest.Tree.Remove.{red_sibling, fix_remove_sibling, fix_remove_step}
use rb_forest.Shape.{
  Cell, Shape, leaf, fork, Context, root, below, fork_at, Focus, count, count_above,
}
use rb_forest.Shape.Rotate.{settle}
use rb_forest.Shape.Zipper.{
  fork_at-other, root-fork_at, count-fork_at, Holds-fork_at, Focus-up, Focus-down, recolor_cell,
  Edited, paint-Edited, Turned, rotate-Turned,
}
use rb_forest.Shape.Balance.{
  height, top_weight, weight, IsBalanced, of_IsBalanced-fork_at, IsBalanced-fork_at, height-fork_at,
  top_weight-fork_at, color_weight_le,
}
use rb_forest.Shape.Entries.{entries, entries-fork_at, entries-rotate, entry-settle}
use rb_forest.Insertion.{
  SameLimits, SameLimits-kept, SameLimits-rooted, SameLimits-refl, SameLimits-trans,
}
use rb_forest.Insertion.Loop.{color_cases}
use rb_forest.Removal.Frame.{rotate_outside}
use rb_forest.Removal.{Resolved}
use rb_forest.Removal.Sibling.{fix_remove_sibling-Resolved}

module _ {K V : Type 0} ⦃val : Value V⦄ where
  module _ {s : Guard K V} (i : Side) {p : Cell K V} (a : Shape K V) (c : Cell K V) (b : Shape K V)
      {ctx : Context K V} {t : Shape K V} (foc : Focus s (below i p (fork_at i a c b) ctx) t) where
    far_side : Focus s (below (other i) p t ctx) (fork_at i a c b)
    far_side =
        Focus-down (other i)
          (subst (Focus s ctx) (sym (fork_at-other i (fork_at i a c b) p t)) (Focus-up i foc))

    -- The sibling turns black,
    darkened :
        Edited s
          (below (other i) p t ctx)
          (fork_at i a c b)
          (fork_at i a (recolor_cell c black) b)
          (paint c.here black s)
    darkened = paint-Edited i a c b black far_side

    -- the parent red,
    reddened :
        Edited darkened.after ctx
          (fork_at i t p (fork_at i a (recolor_cell c black) b))
          (fork_at i t (recolor_cell p red) (fork_at i a (recolor_cell c black) b))
          (paint p.here red darkened.after)
    reddened = paint-Edited i t p (fork_at i a (recolor_cell c black) b) red (
        subst (Focus darkened.after ctx)
          (fork_at-other i (fork_at i a (recolor_cell c black) b) p t)
          (Focus-up (other i) darkened.focus))

    -- and the sibling rises above it.
    turned :
        Turned reddened.after i ctx t
          (recolor_cell p red)
          a
          (recolor_cell c black)
          b
          (rotate i p.here reddened.after)
    turned = rotate-Turned i reddened.focus

    low : Cell K V
    low = settle i t (recolor_cell p red) a

    inner : Focus turned.after (below i low a (below i (recolor_cell c black) b ctx)) t
    unfolding low
    inner = Focus-down i (Focus-down i turned.focus)

    limits : SameLimits turned.after.meta s.meta
    limits = SameLimits-rooted turned.meta_lem (
        SameLimits-kept reddened.meta_kept
          (SameLimits-kept darkened.meta_kept (SameLimits-refl s.meta)))

    same_entries :
        (x : Shape K V)
        → entries x ≡ entries (fork_at i t low a)
        → entries (fork_at i x (recolor_cell c black) b) ≡ entries (fork_at i t p (fork_at i a c b))
    unfolding low
    same_entries x e =
        entries-fork_at i x (fork_at i t p a) (recolor_cell c black) c b b
          (e ∙ entries-fork_at i t t low p a a refl (entry-settle i t (recolor_cell p red) a) refl)
          refl refl
        ∙ entries-rotate i t p a c b

    untouched :
        (q : NodeIndex)
        → count q (fork_at i t p (fork_at i a c b)) + count_above q ctx ≡ 0
        → view turned.after q ≡ view s q
    untouched q out =
        let whole = count-fork_at i t p (fork_at i a c b) q in
        let sib = count-fork_at i a c b q in
        let sib' = count-fork_at i a (recolor_cell c black) b q in
        rotate_outside i t (recolor_cell p red) a (recolor_cell c black) b q reddened.focus
          turned.returns
          (omega (
            arith,
            out,
            whole,
            sib,
            sib',
            count-fork_at i t (recolor_cell p red) (fork_at i a (recolor_cell c black) b) q,
          ))
        ∙ reddened.reads_out q (
            omega (
              arith,
              out,
              whole,
              sib,
              sib',
              count-fork_at i t p (fork_at i a (recolor_cell c black) b) q,
            ))
        ∙ darkened.reads_out q (omega (arith, out, whole, sib))

    -- What the second half does to the red parent, it does for the whole.
    raised :
        {r : Outcome (NodeRef × Guard K V)}
        → Resolved turned.after i low a (below i (recolor_cell c black) b ctx) t r
        → weight p ≡ 1
        → IsBalanced b
        → height b ≡ 1 + height t
        → Resolved s i p (fork_at i a c b) ctx t r
    unfolding low
    raised x pb bb hb = elim x.outcome [
      | inl (e, h, _) ↦ record {
        after = x.after;
        next = x.next;
        tree = fork_at i x.tree (recolor_cell c black) b;
        returns = x.returns;
        focus = Focus-up i x.focus;
        balanced =
            IsBalanced-fork_at i x.tree (recolor_cell c black) b (omega (arith, h, hb))
              (omega arith) (omega arith) x.balanced bb;
        same = same_entries x.tree x.same;
        limits = SameLimits-trans x.limits limits;
        reads_out = λ q out.
            x.reads_out q (
              omega (
                arith,
                out,
                count-fork_at i t p (fork_at i a c b) q,
                count-fork_at i a c b q,
                count-fork_at i t low a q,
              ))
            ∙ untouched q out;
        outcome = inl (
          e,
          height-fork_at i x.tree (recolor_cell c black) b (omega (arith, h, hb))
              ∙ omega (arith, h, pb),
          omega (arith, top_weight-fork_at i x.tree (recolor_cell c black) b, pb),
        );
      }
      | inr (_, _, _, _, _, w) ↦ absurd (omega (arith, w))
    ]

    -- The near nephew is the new sibling, and black.
    red_steps :
        (l : Shape K V) (d : Cell K V) (r : Shape K V)
        → a ≡ fork l d r
        → red_sibling i p.here c.here (root a) s ≡ done (d.here, turned.after)
    unfolding red_sibling
    red_steps l d r e = rw (darkened.returns, reddened.returns, turned.returns, e)

  red_step :
      {s : Guard K V} (i : Side) {p : Cell K V} (a : Shape K V) (c : Cell K V) (b : Shape K V)
      {ctx : Context K V} {t : Shape K V}
      → Focus s (below i p (fork_at i a c b) ctx) t
      → IsBalanced t
      → top_weight t ≡ 1
      → IsBalanced (fork_at i a c b)
      → height (fork_at i a c b) ≡ 1 + height t
      → weight p ≡ 1
      → weight c ≡ 0
      → Resolved s i p
          (fork_at i a c b)
          ctx
          t
          ((red_sibling i p.here c.here (root a) >>= fix_remove_sibling i p.here) s)
  unfolding low
  red_step i leaf c b foc bt kt bu hu kp kc =
      let parts = of_IsBalanced-fork_at i leaf c b bu in
      absurd (omega (arith, height-fork_at i leaf c b parts.0))
  red_step i (fork l d r) c b {ctx} {t} foc bt kt bu hu kp kc =
      let (level, near_black, _, ba, bb) = of_IsBalanced-fork_at i (fork l d r) c b bu in
      let ha : height (fork l d r) ≡ 1 + height t =
        omega (arith, height-fork_at i (fork l d r) c b level) in
      let x =
        fix_remove_sibling-Resolved i l d r (inner i (fork l d r) c b foc) bt kt ba ha
          (omega (arith, near_black, color_weight_le d.color)) in
      rw (red_steps i (fork l d r) c b foc l d r refl)
        (raised i (fork l d r) c b foc x kp bb (omega (arith, level)))

  at_side :
      {s : Guard K V} (i : Side) {p : Cell K V} (a : Shape K V) (c : Cell K V) (b : Shape K V)
      {ctx : Context K V} {t : Shape K V}
      → Focus s (below i p (fork_at i a c b) ctx) t
      → ((weight c ≡ 0)
          → Resolved s i p
              (fork_at i a c b)
              ctx
              t
              ((red_sibling i p.here c.here (root a) >>= fix_remove_sibling i p.here) s))
      → ((weight c ≡ 1)
          → Resolved s i p (fork_at i a c b) ctx t (fix_remove_sibling i p.here c.here s))
      → Resolved s i p (fork_at i a c b) ctx t (fix_remove_step i p.here s)
  unfolding fix_remove_step
  at_side {s} i {p} a c b {ctx} {t} foc on_red on_black =
      let held = (Holds-fork_at (view s) i (some p.here) a c b).0 (far_side i a c b foc).inside in
      rw
        (
          node_at-done s p.here foc.above.0,
          at-pair_at-other i (root t) (root (fork_at i a c b)),
          root-fork_at i a c b,
          node_at-done s c.here held.0,
          at-pair_at i (root a) (root b),
        )
        (elim (color_cases c.color) [
          | inl cb ↦ rw (ap color_is_red cb) (on_black (ap color_weight cb))
          | inr cr ↦ rw (ap color_is_red cr) (on_red (ap color_weight cr))
        ])

  -- A round of the repair below `p`, whose child `t` on side `i` lacks a black node: it does not
  -- fail.
  pub fix_remove_step-Resolved :
      {s : Guard K V} (i : Side) {p : Cell K V} (u : Shape K V) {ctx : Context K V} {t : Shape K V}
      → Focus s (below i p u ctx) t
      → IsBalanced t
      → top_weight t ≡ 1
      → IsBalanced u
      → height u ≡ 1 + height t
      → 1 ≤ weight p + top_weight u
      → Resolved s i p u ctx t (fix_remove_step i p.here s)
  fix_remove_step-Resolved i leaf foc bt kt bu hu ok = absurd (omega arith)
  fix_remove_step-Resolved left {p} (fork a c b) foc bt kt bu hu ok =
      at_side left a c b foc
        (λ kc.
          red_step left a c b foc bt kt bu hu (omega (arith, ok, kc, color_weight_le p.color)) kc)
        (λ kc. fix_remove_sibling-Resolved left a c b foc bt kt bu hu kc)
  fix_remove_step-Resolved right {p} (fork a c b) foc bt kt bu hu ok =
      at_side right b c a foc
        (λ kc.
          red_step right b c a foc bt kt bu hu (omega (arith, ok, kc, color_weight_le p.color)) kc)
        (λ kc. fix_remove_sibling-Resolved right a c b foc bt kt bu hu kc)
