-- ===== src/Removal/Near.antt =====
-- The branch of the helper of `fix_remove` where the near nephew is red: it is rotated to the far side.
use rb_forest.Base.{
  ◌+◌, ◌≡◌, some, Side, left, right, other, refl, ap, sym, subst, ◌∙◌, arith, done, Outcome,
}
use rb_forest.Node.{NodeIndex, NodeRef, red, black, Value}
use rb_forest.Guard.{Guard, ◌>>=◌}
use rb_forest.Guard.Laws.{view}
use rb_forest.Tree.{rotate}
use rb_forest.Tree.Insert.{paint}
use rb_forest.Tree.Remove.{near_to_far, far_rotation}
use rb_forest.Shape.{Cell, Shape, Context, below, fork_at, Focus, count, count_above}
use rb_forest.Shape.Rotate.{settle}
use rb_forest.Shape.Zipper.{
  fork_at-other, count-fork_at, Focus-up, Focus-down, recolor_cell, Edited, paint-Edited, Turned,
  rotate-Turned,
}
use rb_forest.Shape.Balance.{height, top_weight, IsBalanced}
use rb_forest.Shape.Entries.{entries, entries-fork_at, entries-rotate, entry-settle}
use rb_forest.Insertion.{
  SameLimits, SameLimits-kept, SameLimits-rooted, SameLimits-refl, SameLimits-trans,
}
use rb_forest.Shape.Form.{count-same}
use rb_forest.Removal.Frame.{rotate_outside}
use rb_forest.Removal.{Resolved}
use rb_forest.Removal.Turn.{far_rotation-Resolved}

module _ {K V : Type 0} ⦃val : Value V⦄ where
  -- A round from another start, with the same tree but for the sibling's shape.
  Resolved-from :
      {s s' : Guard K V} {i : Side} {p : Cell K V} {u u' : Shape K V} {ctx : Context K V}
      {t : Shape K V} {r r' : Outcome (NodeRef × Guard K V)}
      → Resolved s' i p u' ctx t r'
      → r ≡ r'
      → entries (fork_at i t p u') ≡ entries (fork_at i t p u)
      → SameLimits s'.meta s.meta
      → ((q : NodeIndex) → count q (fork_at i t p u) + count_above q ctx ≡ 0 → view s' q ≡ view s q)
      → Resolved s i p u ctx t r
  Resolved-from {s} {s'} {i} {p} {u} {u'} {ctx} {t} x er ee l kept = record {
    after = x.after;
    next = x.next;
    tree = x.tree;
    returns = er ∙ x.returns;
    focus = x.focus;
    balanced = x.balanced;
    same = x.same ∙ ee;
    limits = SameLimits-trans x.limits l;
    reads_out = λ q out.
        x.reads_out q (omega (arith, out, count-same q (fork_at i t p u) (fork_at i t p u') ee))
        ∙ kept q out;
    outcome = x.outcome;
  }

  far_at :
      {s : Guard K V} (i : Side) {p : Cell K V} (a : Shape K V) (c : Cell K V) (x : Shape K V)
      (f : Cell K V) (y : Shape K V) {ctx : Context K V} {t : Shape K V}
      → Focus s (below i p (fork_at i a c (fork_at i x f y)) ctx) t
      → IsBalanced t
      → top_weight t ≡ 1
      → IsBalanced a
      → height a ≡ height t
      → IsBalanced x
      → height x ≡ height t
      → IsBalanced y
      → height y ≡ height t
      → Resolved s i p (fork_at i a c (fork_at i x f y)) ctx t (far_rotation i p.here c.here s)
  far_at left a c x f y foc bt kt ba ha bx hx by hy =
      far_rotation-Resolved left a c x f y foc bt kt ba ha bx hx by hy
  far_at right a c x f y foc bt kt ba ha bx hx by hy =
      far_rotation-Resolved right a c y f x foc bt kt ba ha by hy bx hx

  -- The sibling `c` has the near child `d`, between `a` and `b`, and the far child `y`.
  module _ {s : Guard K V} (i : Side) {p : Cell K V} (a : Shape K V) (d : Cell K V) (b : Shape K V)
      (c : Cell K V) (y : Shape K V) {ctx : Context K V} {t : Shape K V}
      (foc : Focus s (below i p (fork_at i (fork_at i a d b) c y) ctx) t) where
    whole : Focus s (below i c y (below (other i) p t ctx)) (fork_at i a d b)
    whole = Focus-down i (
        Focus-down (other i) (
          subst (Focus s ctx) (sym (fork_at-other i (fork_at i (fork_at i a d b) c y) p t))
            (Focus-up i foc)))

    -- The nephew turns black,
    darkened :
        Edited s
          (below i c y (below (other i) p t ctx))
          (fork_at i a d b)
          (fork_at i a (recolor_cell d black) b)
          (paint d.here black s)
    darkened = paint-Edited i a d b black whole

    -- the sibling red,
    reddened :
        Edited darkened.after
          (below (other i) p t ctx)
          (fork_at i (fork_at i a (recolor_cell d black) b) c y)
          (fork_at i (fork_at i a (recolor_cell d black) b) (recolor_cell c red) y)
          (paint c.here red darkened.after)
    reddened =
        paint-Edited i (fork_at i a (recolor_cell d black) b) c y red (Focus-up i darkened.focus)

    leaning :
        Focus reddened.after
          (below (other i) p t ctx)
          (fork_at (other i) y (recolor_cell c red) (fork_at (other i) b (recolor_cell d black) a))
    leaning =
        subst (Focus reddened.after (below (other i) p t ctx))
          (sym (fork_at-other i y (recolor_cell c red) (fork_at i a (recolor_cell d black) b))
            ∙ ap (fork_at (other i) y (recolor_cell c red))
                (sym (fork_at-other i b (recolor_cell d black) a)))
          reddened.focus

    -- and the nephew rises above it.
    turned :
        Turned reddened.after
          (other i)
          (below (other i) p t ctx)
          y
          (recolor_cell c red)
          b
          (recolor_cell d black)
          a
          (rotate (other i) c.here reddened.after)
    turned = rotate-Turned (other i) leaning

    low : Cell K V
    low = settle (other i) y (recolor_cell c red) b

    risen : Shape K V
    risen = fork_at i a (recolor_cell d black) (fork_at i b low y)

    moved : Focus turned.after (below i p risen ctx) t
    unfolding low risen
    moved = Focus-down i (
        subst (Focus turned.after ctx) (fork_at-other i risen p t) (
          Focus-up (other i) (
            subst (Focus turned.after (below (other i) p t ctx))
              (fork_at-other i (fork_at (other i) y low b) (recolor_cell d black) a
                ∙ ap (fork_at i a (recolor_cell d black)) (fork_at-other i y low b))
              turned.focus)))

    steps : near_to_far i c.here (some d.here) s ≡ done (d.here, turned.after)
    unfolding near_to_far
    steps = rw (darkened.returns, reddened.returns, turned.returns)

    same_entries :
        entries (fork_at i t p risen) ≡ entries (fork_at i t p (fork_at i (fork_at i a d b) c y))
    unfolding low risen
    same_entries = entries-fork_at i t t p p risen (fork_at i (fork_at i a d b) c y) refl refl (
        entries-fork_at i a a (recolor_cell d black) d (fork_at i b low y) (fork_at i b c y) refl
          refl
          (entries-fork_at i b b low c y y refl (entry-settle (other i) y (recolor_cell c red) b)
            refl)
        ∙ sym (entries-rotate i a d b c y))

    limits : SameLimits turned.after.meta s.meta
    limits = SameLimits-rooted turned.meta_lem (
        SameLimits-kept reddened.meta_kept
          (SameLimits-kept darkened.meta_kept (SameLimits-refl s.meta)))

    untouched :
        (q : NodeIndex)
        → count q (fork_at i t p (fork_at i (fork_at i a d b) c y)) + count_above q ctx ≡ 0
        → view turned.after q ≡ view s q
    untouched q out =
        let whole = count-fork_at i t p (fork_at i (fork_at i a d b) c y) q in
        let sib = count-fork_at i (fork_at i a d b) c y q in
        let deep = count-fork_at i a d b q in
        let deep' = count-fork_at i a (recolor_cell d black) b q in
        rotate_outside (other i) y (recolor_cell c red) b (recolor_cell d black) a q leaning
          turned.returns
          (omega (
            arith,
            out,
            whole,
            sib,
            deep,
            count-fork_at (other i) b (recolor_cell d black) a q,
            count-fork_at (other i) y (recolor_cell c red)
                (fork_at (other i) b (recolor_cell d black) a) q,
          ))
        ∙ reddened.reads_out q (
            omega (
              arith,
              out,
              whole,
              sib,
              deep,
              deep',
              count-fork_at i (fork_at i a (recolor_cell d black) b) c y q,
            ))
        ∙ darkened.reads_out q (omega (arith, out, whole, sib, deep))

    -- The red nephew, rotated, and its parent now red make the other branch.
    pub near-Resolved :
        IsBalanced t
        → top_weight t ≡ 1
        → IsBalanced a
        → height a ≡ height t
        → IsBalanced b
        → height b ≡ height t
        → IsBalanced y
        → height y ≡ height t
        → Resolved s i p
            (fork_at i (fork_at i a d b) c y)
            ctx
            t
            ((near_to_far i c.here (some d.here) >>= far_rotation i p.here) s)
    unfolding low risen
    near-Resolved bt kt ba ha bb hb by hy =
        Resolved-from (far_at i a (recolor_cell d black) b low y moved bt kt ba ha bb hb by hy)
          (rw steps refl) same_entries limits untouched
