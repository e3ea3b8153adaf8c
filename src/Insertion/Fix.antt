-- ===== src/Insertion/Fix.antt =====
-- `fix_insert` of src/tree/mod.rs as a whole: the loop and the root turned black.
use rb_forest.Base.{◌<◌, ◌≡◌, inl, inr, some, Side, left, Outcome, done, refl, ap, sym, ◌∙◌, arith}
use rb_forest.Node.{NodeIndex, black, color_is_red, color_weight, Value}
use rb_forest.Guard.{Guard, Bounds, rounds}
use rb_forest.Guard.Laws.{node_at-done}
use rb_forest.Tree.Insert.{fix_insert, blacken_root, raise_height}
use rb_forest.Shape.{Cell, Shape, leaf, fork, Context, top, below, root, plug, Focus}
use rb_forest.Shape.Zipper.{recolor_cell, paint-Edited}
use rb_forest.Shape.Balance.{height, top_weight, IsBalanced, IsBalancedAbove, height_above}
use rb_forest.Shape.Entries.{entries}
use rb_forest.Insertion.Loop.{fix_insert_loop-Mended, color_cases}
use rb_forest.Shape.Rounds.{depth-rounds}

module _ {K V : Type 0} ⦃val : Value V⦄ where
  -- A red-black tree with a black root, that holds the same entries in order, and a `black_height`
  -- that is the tree's.
  pub record Fixed (s : Guard K V) (whole : Shape K V) (r : Outcome (Unit {0} × Guard K V))
      : Type 0 where
    pub after : Guard K V
    pub tree : Shape K V
    pub returns : r ≡ done (tt, after)
    pub focus : Focus after top tree
    pub balanced : IsBalanced tree
    pub dark : top_weight tree ≡ 1
    pub same : entries tree ≡ entries whole
    pub range : after.meta.range ≡ s.meta.range
    pub black_height : after.meta.black_height ≡ height tree

  raised :
      (s : Guard K V) (t : Shape K V)
      → Focus s top t
      → Focus (record s { meta = raise_height s.meta }) top t
  raised s t f = record {
    inside = f.inside;
    above = f.above;
    distinct = f.distinct;
    rooted = f.rooted;
  }

  blacken_root-Fixed :
      {s : Guard K V} (t : Shape K V) (q : NodeIndex)
      → root t ≡ some q
      → Focus s top t
      → IsBalanced t
      → s.meta.black_height ≡ height t
      → height t < 255
      → Fixed s t (blacken_root s)
  unfolding blacken_root
  blacken_root-Fixed leaf q e foc b bh small = absurd (cc)
  blacken_root-Fixed {s} (fork l c r) q e foc b bh small =
      let e' : s.meta.root ≡ some c.here = foc.rooted in
      elim (color_cases c.color) [
        | inl cb ↦ simp e' (
            rw (node_at-done s c.here foc.inside.0, ap color_is_red cb)
              record {
                after = s;
                tree = fork l c r;
                returns = refl;
                focus = foc;
                balanced = b;
                dark = ap color_weight cb;
                same = refl;
                range = refl;
                black_height = bh;
              })
        | inr cr ↦
            let painted = paint-Edited left l c r black foc in
            simp e' (
              rw (node_at-done s c.here foc.inside.0, ap color_is_red cr, painted.returns)
                record {
                  after = record painted.after { meta = raise_height painted.after.meta };
                  tree = fork l (recolor_cell c black) r;
                  returns = refl;
                  focus = raised painted.after (fork l (recolor_cell c black) r) painted.focus;
                  balanced = (b.0, omega arith, omega arith, b.3, b.4);
                  dark = refl;
                  same = refl;
                  range = ap (λ (m : Bounds). m.range) painted.meta_kept;
                  black_height = rw painted.meta_kept (omega (arith, ap color_weight cr));
                })
      ]

  -- `fix_insert` at the red root of a balanced tree `t` that has a parent, where all else of the whole
  -- tree is in balance and its black height is recorded and below 255: it does not panic and does
  -- not run out of rounds, and leaves a balanced red-black tree with a black root that holds the same
  -- indices, keys, local data and order links in order, the same range, and its black height recorded.
  pub fix_insert-Fixed :
      {s : Guard K V} (ptr : NodeIndex) (t : Shape K V) (i : Side) (p : Cell K V) (u : Shape K V)
      (ctx : Context K V)
      → Focus s (below i p u ctx) t
      → root t ≡ some ptr
      → IsBalanced t
      → top_weight t ≡ 0
      → IsBalancedAbove (height t) (below i p u ctx)
      → s.meta.black_height ≡ height_above (height t) (below i p u ctx)
      → s.meta.black_height < 255
      → Fixed s (plug (below i p u ctx) t) (fix_insert ptr s)
  unfolding fix_insert
  fix_insert-Fixed {s} ptr t i p u ctx foc rooted bt rt above bh small =
      let le = depth-rounds (below i p u ctx) foc in
      let m =
        fix_insert_loop-Mended (rounds s) (below i p u ctx) t ptr i p u ctx refl (omega (arith, le))
          foc rooted bt rt above in
      let f =
        blacken_root-Fixed m.tree m.nonempty.0 m.nonempty.1 m.focus m.balanced
          (m.limits.black_height ∙ bh ∙ sym m.high) (omega (arith, m.high, bh)) in
      rw (m.returns) record {
        after = f.after;
        tree = f.tree;
        returns = f.returns;
        focus = f.focus;
        balanced = f.balanced;
        dark = f.dark;
        same = f.same ∙ m.same;
        range = f.range ∙ m.limits.range;
        black_height = f.black_height;
      }
