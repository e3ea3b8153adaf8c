-- ===== src/Insertion/Loop.antt =====
-- The loop of `fix_insert`: it mends a tree that is in balance save for its red node's parent.
use rb_forest.Base.{
  pair_at, ◌⊎◌, inl, inr, ℕ, zero, suc, ◌≤◌, ◌≡◌, some, ref_eq, ==_refl, ≢→==, Side, true, false,
  Outcome, done, refl, ap, sym, subst, ◌∙◌, arith,
}
use rb_forest.Node.{NodeIndex, Color, red, black, color_weight, color_is_black, Value}
use rb_forest.Guard.{Guard}
use rb_forest.Guard.Laws.{view, node_at-done}
use rb_forest.Tree.Insert.{fix_insert_round, fix_insert_loop}
use rb_forest.Shape.{
  Cell, Shape, Context, top, below, root, parent_of, fork_at, plug, Focus, node_of, count_above,
  top_of, once, ne_of_once,
}
use rb_forest.Shape.Zipper.{root-fork_at}
use rb_forest.Shape.Balance.{height, top_weight, IsBalanced, IsBalancedAbove, height_above, depth}
use rb_forest.Shape.Entries.{entries}
use rb_forest.Insertion.{
  Climbed, SameLimits, SameLimits-trans, SameLimits-refl, Focus-top, top_node,
}
use rb_forest.Insertion.Round.{fix_insert_round-Climbed, count_root}
use rb_forest.Shape.Balance.{plug-IsBalanced}

pub color_cases : (c : Color) → (c ≡ black) ⊎ (c ≡ red)
color_cases red = inr refl
color_cases black = inl refl

module _ {K V : Type 0} ⦃val : Value V⦄ where
  other_top :
      (ctx : Context K V) (q ptr : NodeIndex)
      → once ptr q ≡ 0
      → count_above ptr ctx ≡ 0
      → ref_eq (some ptr) (top_of ctx (some q)) ≡ false
  other_top top q ptr e out = ≢→== ptr q (ne_of_once ptr q e)
  other_top (below i c u ctx) q ptr e out = other_top ctx c.here ptr (omega arith) (omega arith)

  -- The loop's outcome: a tree in balance, save that its root may be red, with the same entries in
  -- order and the same height.
  pub record Mended (s : Guard K V) (ctx : Context K V) (t : Shape K V)
      (r : Outcome (Unit {0} × Guard K V)) : Type 0 where
    pub after : Guard K V
    pub tree : Shape K V
    pub returns : r ≡ done (tt, after)
    pub focus : Focus after top tree
    pub nonempty : (q : NodeIndex) × (root tree ≡ some q)
    pub balanced : IsBalanced tree
    pub same : entries tree ≡ entries (plug ctx t)
    pub high : height tree ≡ height_above (height t) ctx
    pub limits : SameLimits after.meta s.meta

  root_elsewhere :
      {s : Guard K V} (ctx : Context K V) (t : Shape K V) (ptr : NodeIndex)
      → root t ≡ some ptr
      → Focus s ctx t
      → ((ctx ≡ top) × (ref_eq (some ptr) s.meta.root ≡ true))
        ⊎ ((ref_eq (some ptr) s.meta.root ≡ false)
            × (i : Side) × (c : Cell K V) × (u : Shape K V) × (ctx' : Context K V) × (ctx
                ≡ below i c u ctx'))
  root_elsewhere top t ptr e f = inl (refl, rw (f.rooted, e) (==_refl ptr))
  root_elsewhere (below i c u ctx) t ptr e f = inr (
    rw f.rooted (
        other_top ctx c.here ptr (omega (arith, f.distinct ptr, count_root t ptr e))
          (omega (arith, f.distinct ptr, count_root t ptr e))),
    i,
    c,
    u,
    ctx,
    refl,
  )

  Mended-from :
      {s s' : Guard K V} {ctx ctx' : Context K V} {t t' : Shape K V}
      {r r' : Outcome (Unit {0} × Guard K V)}
      → Mended s' ctx' t' r'
      → r ≡ r'
      → entries (plug ctx' t') ≡ entries (plug ctx t)
      → height_above (height t') ctx' ≡ height_above (height t) ctx
      → SameLimits s'.meta s.meta
      → Mended s ctx t r
  Mended-from m er ee eh l = record {
    after = m.after;
    tree = m.tree;
    returns = er ∙ m.returns;
    focus = m.focus;
    nonempty = m.nonempty;
    balanced = m.balanced;
    same = m.same ∙ ee;
    high = m.high ∙ eh;
    limits = SameLimits-trans m.limits l;
  }

  plug-root :
      (ctx : Context K V) (t : Shape K V) (p : NodeIndex)
      → root t ≡ some p
      → (q : NodeIndex) × (root (plug ctx t) ≡ some q)
  plug-root top t p e = (p, e)
  plug-root (below i c u ctx) t p e = plug-root ctx (fork_at i t c u) c.here (root-fork_at i t c u)

  -- Where the node's parent is black or there is none, nothing is left to mend.
  settled :
      {s : Guard K V} (ctx : Context K V) (t : Shape K V) (ptr : NodeIndex)
      → root t ≡ some ptr
      → Focus s ctx t
      → IsBalanced (plug ctx t)
      → height (plug ctx t) ≡ height_above (height t) ctx
      → Mended s ctx t (done (tt, s))
  settled {s} ctx t ptr rooted foc b e = record {
    after = s;
    tree = plug ctx t;
    returns = refl;
    focus = Focus-top ctx foc;
    nonempty = plug-root ctx t ptr rooted;
    balanced = b;
    same = refl;
    high = e;
    limits = SameLimits-refl s.meta;
  }

  stopped :
      {s : Guard K V} {ctx : Context K V} {t : Shape K V} {r : Outcome (NodeIndex × Guard K V)}
      (c : Climbed s ctx t r)
      → c.context ≡ top
      → Mended s ctx t (done (tt, c.after))
  stopped c e = record {
    after = c.after;
    tree = c.tree;
    returns = refl;
    focus = subst (λ x. Focus c.after x c.tree) e c.focus;
    nonempty = (c.ptr, c.rooted);
    balanced = c.balanced;
    same = ap (λ x. entries (plug x c.tree)) (sym e) ∙ c.same;
    high = ap (λ x. height_above (height c.tree) x) (sym e) ∙ c.high;
    limits = c.limits;
  }

  module _ {s : Guard K V} (fuel : ℕ) (j : Side) (p : Cell K V) (u : Shape K V) (ctx : Context K V)
      (t : Shape K V) (ptr : NodeIndex) (foc : Focus s (below j p u ctx) t)
      (rooted : root t ≡ some ptr) where
    parent_held : view s p.here ≡ some (node_of (parent_of ctx) (pair_at j (some ptr) (root u)) p)
    parent_held = rw rooted at foc.above.0

    loop_black :
        p.color ≡ black
        → IsBalanced t
        → IsBalancedAbove (height t) (below j p u ctx)
        → Mended s (below j p u ctx) t (fix_insert_loop (suc fuel) ptr s)
    unfolding fix_insert_loop
    loop_black pb bt above =
        let n = top_node (view s) (some p.here) t ptr foc.inside rooted in
        let b = plug-IsBalanced (below j p u ctx) t bt above (omega (arith, ap color_weight pb)) in
        rw (node_at-done s ptr n.1, n.2, node_at-done s p.here parent_held, ap color_is_black pb)
          (settled (below j p u ctx) t ptr rooted foc b.0 b.1)

    -- One round more, whatever the rest of the loop does.
    loop_red :
        p.color ≡ red
        → (c : Climbed s (below j p u ctx) t (
            fix_insert_round ptr p.here
              (node_of (parent_of ctx) (pair_at j (some ptr) (root u)) p)
              s))
        → ((i : Side) (x : Cell K V) (y : Shape K V) (z : Context K V)
            → c.context ≡ below i x y z
            → Mended c.after c.context c.tree (fix_insert_loop fuel c.ptr c.after))
        → Mended s (below j p u ctx) t (fix_insert_loop (suc fuel) ptr s)
    unfolding fix_insert_loop
    loop_red pr c rest =
        let n = top_node (view s) (some p.here) t ptr foc.inside rooted in
        elim (root_elsewhere c.context c.tree c.ptr c.rooted c.focus) [
          | inl (e, here) ↦
              rw
                (
                  node_at-done s ptr n.1,
                  n.2,
                  node_at-done s p.here parent_held,
                  ap color_is_black pr,
                  c.returns,
                  here,
                )
                (stopped c e)
          | inr (away, i, x, y, z, e) ↦
              rw
                (
                  node_at-done s ptr n.1,
                  n.2,
                  node_at-done s p.here parent_held,
                  ap color_is_black pr,
                  c.returns,
                  away,
                )
                (Mended-from (rest i x y z e) refl c.same c.high c.limits)
        ]

  pub fix_insert_loop-Mended :
      (fuel : ℕ) {s : Guard K V} (ctx : Context K V) (t : Shape K V) (ptr : NodeIndex) (i : Side)
      (c : Cell K V) (u : Shape K V) (ctx' : Context K V)
      → ctx ≡ below i c u ctx'
      → depth ctx ≤ fuel
      → Focus s ctx t
      → root t ≡ some ptr
      → IsBalanced t
      → top_weight t ≡ 0
      → IsBalancedAbove (height t) ctx
      → Mended s ctx t (fix_insert_loop fuel ptr s)
  unfolding fix_insert_loop
  fix_insert_loop-Mended fuel top t ptr i c u ctx' e le foc rooted bt rt above = absurd (cc)
  fix_insert_loop-Mended zero (below j p u ctx) t ptr i c u' ctx' e le foc rooted bt rt above =
      absurd (omega arith)
  fix_insert_loop-Mended (suc fuel) {s} (below j p u top) t ptr i c u' ctx' e le foc rooted bt rt
        above =
      elim (color_cases p.color) [
        | inl pb ↦ loop_black fuel j p u top t ptr foc rooted pb bt above
        | inr pr ↦ absurd omega (arith, ap color_weight pr, above.2)
      ]
  fix_insert_loop-Mended (suc fuel) {s} (below j p u (below k g w ctx)) t ptr i c u' ctx' e le foc
        rooted bt rt above =
      elim (color_cases p.color) [
        | inl pb ↦ loop_black fuel j p u (below k g w ctx) t ptr foc rooted pb bt above
        | inr pr ↦
            let c = fix_insert_round-Climbed j k w foc rooted bt rt above (ap color_weight pr) in
            loop_red fuel j p u (below k g w ctx) t ptr foc rooted pr c (λ i x y z e.
              fix_insert_loop-Mended fuel c.context c.tree c.ptr i x y z e (omega (arith, c.nearer))
                c.focus c.rooted c.balanced c.is_red c.above)
      ]
