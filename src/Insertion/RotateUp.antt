-- ===== src/Insertion/RotateUp.antt =====
-- The branch of the helper of `fix_insert` where the uncle is black: `ptr` may be an inner grandchild.
use rb_forest.Base.{◌+◌, ◌≡◌, Side, other, Outcome, refl, ap, sym, subst, ◌∙◌, arith}
use rb_forest.Node.{NodeIndex, Value}
use rb_forest.Guard.{Guard, ◌>>◌}
use rb_forest.Tree.{rotate}
use rb_forest.Tree.Insert.{raise_parent}
use rb_forest.Shape.{Cell, Shape, Context, below, fork_at, plug, Focus}
use rb_forest.Shape.Rotate.{settle}
use rb_forest.Shape.Zipper.{
  fork_at-other, root-fork_at, Focus-up, Focus-down, Turned, rotate-Turned,
}
use rb_forest.Shape.Balance.{
  height, top_weight, weight, IsBalanced, IsBalancedAbove, height_above, depth, IsBalanced-fork_at,
  of_IsBalanced-fork_at, height-fork_at, top_weight-fork_at, top_weight_le,
}
use rb_forest.Shape.Entries.{entries, entry-settle, entries-fork_at, entries-rotate, entries-plug}
use rb_forest.Insertion.{Climbed, SameLimits, SameLimits-rooted, SameLimits-trans, SameLimits-refl}
use rb_forest.Insertion.Raise.{raise_parent-Climbed}

module _ {K V : Type 0} ⦃val : Value V⦄ where
  -- A round from another start, with the same tree but for its shape.
  pub Climbed-from :
      {s s' : Guard K V} {ctx ctx' : Context K V} {t t' : Shape K V}
      {r r' : Outcome (NodeIndex × Guard K V)}
      → Climbed s' ctx' t' r'
      → r ≡ r'
      → depth ctx' ≡ depth ctx
      → entries (plug ctx' t') ≡ entries (plug ctx t)
      → height_above (height t') ctx' ≡ height_above (height t) ctx
      → SameLimits s'.meta s.meta
      → Climbed s ctx t r
  Climbed-from c er ed ee eh l = record {
    after = c.after;
    ptr = c.ptr;
    context = c.context;
    tree = c.tree;
    returns = er ∙ c.returns;
    rooted = c.rooted;
    focus = c.focus;
    balanced = c.balanced;
    is_red = c.is_red;
    above = c.above;
    nearer = omega (arith, c.nearer, ed);
    same = c.same ∙ ee;
    high = c.high ∙ eh;
    limits = SameLimits-trans c.limits l;
  }

  -- The node is the inner grandchild: it rises above its parent first.
  module _ {s : Guard K V} (k : Side) (b : Shape K V) (x : Cell K V) (e : Shape K V) (p : Cell K V)
      (u : Shape K V) (g : Cell K V) (w : Shape K V) (ctx : Context K V)
      (foc : Focus s (below (other k) p u (below k g w ctx)) (fork_at k b x e)) where
    straightened : Turned s k (below k g w ctx) u p b x e (rotate k p.here s)
    straightened = rotate-Turned k (
        subst (Focus s (below k g w ctx)) (fork_at-other k (fork_at k b x e) p u)
          (Focus-up (other k) foc))

    straight :
        Focus straightened.after (below k x e (below k g w ctx)) (fork_at k u (settle k u p b) b)
    straight = Focus-down k straightened.focus

    same_entries :
        entries (plug (below k x e (below k g w ctx)) (fork_at k u (settle k u p b) b))
        ≡ entries (plug (below (other k) p u (below k g w ctx)) (fork_at k b x e))
    same_entries =
        entries-plug ctx (fork_at k (fork_at k (fork_at k u (settle k u p b) b) x e) g w)
          (fork_at k (fork_at (other k) (fork_at k b x e) p u) g w)
          (entries-fork_at k (fork_at k (fork_at k u (settle k u p b) b) x e)
            (fork_at (other k) (fork_at k b x e) p u) g g w w
            (entries-fork_at k (fork_at k u (settle k u p b) b) (fork_at k u p b) x x e e
                (entries-fork_at k u u _ p b b refl (entry-settle k u p b) refl) refl refl
              ∙ entries-rotate k u p b x e
              ∙ ap entries (sym (fork_at-other k (fork_at k b x e) p u)))
            refl refl)

    module _ (bt : IsBalanced (fork_at k b x e)) (rt : weight x ≡ 0) (bu : IsBalanced u)
        (bw : IsBalanced w) (hu : height u ≡ height b) (hw : height w ≡ height b)
        (ku : top_weight u ≡ 1) (kw : top_weight w ≡ 1) (pr : weight p ≡ 0) (gb : weight g ≡ 1)
        (above : IsBalancedAbove (1 + height b) ctx) where
      pub raise_inner-Climbed :
          Climbed s
            (below (other k) p u (below k g w ctx))
            (fork_at k b x e)
            ((rotate k p.here >> raise_parent (other k) p.here) s)
      raise_inner-Climbed =
          let parts = of_IsBalanced-fork_at k b x e bt in
          let low = height-fork_at k u (settle k u p b) b hu in
          let mid = height-fork_at k b x e parts.0 in
          let dark = top_weight_le e in
          let dark' = top_weight_le b in
          Climbed-from
            (raise_parent-Climbed k {p = x} {u = e} straight (root-fork_at k u (settle k u p b) b)
              (IsBalanced-fork_at k u (settle k u p b) b hu (omega arith) (omega arith) bu parts.3)
              (top_weight-fork_at k u (settle k u p b) b ∙ pr) parts.4 bw (omega arith)
              (omega arith) (omega arith) kw rt gb
              (subst (λ n. IsBalancedAbove (1 + n) ctx) (omega (arith, low)) above))
            (rw (straightened.returns) refl) refl same_entries
            (ap (λ n. height_above n ctx) (omega (arith, low, mid)))
            (SameLimits-rooted straightened.meta_lem (SameLimits-refl s.meta))
