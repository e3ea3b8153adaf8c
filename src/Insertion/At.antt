-- ===== src/Insertion/At.antt =====
-- `insert_at` of src/tree/mod.rs as a whole: the links, the repair and the cumulants.
use rb_forest.Base.{
  ◌+◌, ◌≤◌, ◌<◌, ◌≡◌, refl, Bool, true, false, none, some, pair, Side, left, at, Outcome, done,
  arith, ap, sym, subst, ◌∙◌, if◌then◌else◌, is_some,
}
use rb_forest.Node.{NodeIndex, NodeRef, Node, Value, red, color_weight}
use rb_forest.Guard.{Guard, Bounds, pure}
use rb_forest.Guard.Laws.{view, node_at-done}
use rb_forest.Tree.{propagate_cumulant}
use rb_forest.Tree.Insert.{attach, insert_at, fix_insert}
use rb_forest.Shape.{
  Cell, Shape, leaf, fork, Context, top, below, root, parent_of, fork_at, plug, Focus, count,
  count_above, node_of, once_self,
}
use rb_forest.Shape.Zipper.{Focus-up, Focus-down}
use rb_forest.Shape.Parts.{near, relink, link_to}
use rb_forest.Shape.Balance.{
  height, top_weight, IsBalanced, IsBalancedAbove, height_above, plug-IsBalanced, top_weight_le,
  weight,
}
use rb_forest.Shape.Unplug.{
  of_IsBalanced-plug, IsBalancedAbove-link, count-plug, height_above-relink, Focus-plug, locate,
}
use rb_forest.Shape.Form.{SameForm, refreshed-SameForm, count-same}
use rb_forest.Shape.Entries.{entries}
use rb_forest.Propagation.{propagate_cumulant-Propagated, refreshed}
use rb_forest.Insertion.Attach.{attach-Attached, linked, widen}
use rb_forest.Insertion.Fix.{Fixed, fix_insert-Fixed}

module _ {K V : Type 0} ⦃val : Value V⦄ where
  -- A red root below a black one needs no repair.
  below_root-Fixed :
      {s : Guard K V} (t : Shape K V) (i : Side) (p : Cell K V) (u : Shape K V)
      → Focus s (below i p u top) t
      → IsBalanced t
      → IsBalancedAbove (height t) (below i p u top)
      → s.meta.black_height ≡ height_above (height t) (below i p u top)
      → Fixed s (plug (below i p u top) t) (done (tt, s))
  below_root-Fixed {s} t i p u foc b above bh =
      let whole = plug-IsBalanced (below i p u top) t b above (omega (arith, above.2)) in
      record {
        after = s;
        tree = plug (below i p u top) t;
        returns = refl;
        focus = Focus-up i foc;
        balanced = whole.0;
        dark = omega (arith, whole.2, top_weight_le (plug (below i p u top) t));
        same = refl;
        range = refl;
        black_height = bh ∙ sym whole.1;
      }

  -- The repair, that `insert_at` leaves out below a root.
  mend-Fixed :
      {s : Guard K V} (ptr : NodeIndex) (t : Shape K V) (i : Side) (p : Cell K V) (u : Shape K V)
      (ctx : Context K V)
      → Focus s (below i p u ctx) t
      → root t ≡ some ptr
      → IsBalanced t
      → top_weight t ≡ 0
      → IsBalancedAbove (height t) (below i p u ctx)
      → s.meta.black_height ≡ height_above (height t) (below i p u ctx)
      → s.meta.black_height < 255
      → Fixed s
          (plug (below i p u ctx) t)
          ((if is_some (parent_of ctx) then fix_insert ptr else pure tt) s)
  mend-Fixed ptr t i p u top foc rooted bt rt above bh small =
      below_root-Fixed t i p u foc bt above bh
  mend-Fixed ptr t i p u (below j q v ctx) foc rooted bt rt above bh small =
      fix_insert-Fixed ptr t i p u (below j q v ctx) foc rooted bt rt above bh small

  -- The cumulants are updated from a node of the tree up.
  propagate-Fixed :
      {s : Guard K V} (p : NodeIndex) (t : Shape K V)
      → Focus s top t
      → 1 ≤ count p t
      → IsBalanced t
      → top_weight t ≡ 1
      → s.meta.black_height ≡ height t
      → Fixed s t (propagate_cumulant p s)
  propagate-Fixed {s} p t foc inside b dark bh =
      let x = locate p top t inside in
      let at_p =
        Focus-plug x.context (fork x.low x.cell x.high) (subst (Focus s top) (sym x.plugged) foc) in
      let u =
        propagate_cumulant-Propagated left x.cell x.high x.context x.low (Focus-down left at_p) in
      let form =
        subst (λ y. SameForm y (refreshed (below left x.cell x.high x.context) x.low)) x.plugged
          (refreshed-SameForm (below left x.cell x.high x.context) x.low) in
      record {
        after = u.after;
        tree = refreshed (below left x.cell x.high x.context) x.low;
        returns = ap (λ q. propagate_cumulant q s) (sym x.found) ∙ u.returns;
        focus = u.focus;
        balanced = form.balance_kept b;
        dark = form.top_kept ∙ dark;
        same = form.entries_kept;
        range = ap (λ (m : Bounds). m.range) u.meta_kept;
        black_height = ap (λ (m : Bounds). m.black_height) u.meta_kept ∙ bh ∙ sym form.height_kept;
      }

  pub settle-Fixed :
      {s : Guard K V} (p : NodeIndex) (t : Shape K V)
      → Focus s top t
      → 1 ≤ count p t
      → IsBalanced t
      → top_weight t ≡ 1
      → s.meta.black_height ≡ height t
      → (has : Bool) → Fixed s t ((if has then propagate_cumulant p else pure tt) s)
  settle-Fixed p t foc inside b dark bh true = propagate-Fixed p t foc inside b dark bh
  settle-Fixed {s} p t foc inside b dark bh false = record {
    after = s;
    tree = t;
    returns = refl;
    focus = foc;
    balanced = b;
    dark = dark;
    same = refl;
    range = refl;
    black_height = bh;
  }

  insert_at_steps :
      (i : Side) (p q : NodeIndex) (s s1 s2 : Guard K V) {m : Node K V} {x : NodeRef}
      {o : Outcome (Unit {0} × Guard K V)}
      → attach i p q s ≡ done (tt, s1)
      → view s1 q ≡ some m
      → m.parent ≡ x
      → (if is_some x then fix_insert p else pure tt) s1 ≡ done (tt, s2)
      → (if val.has_cumulant then propagate_cumulant p else pure tt) s2 ≡ o
      → insert_at i p q s ≡ o
  unfolding insert_at
  insert_at_steps i p q s s1 s2 first seen up second third =
      rw (first, node_at-done s1 q seen, up, second) third

  -- A red-black tree with a new leaf.
  pub record Placed (s : Guard K V) (i : Side) (c : Cell K V) (u : Shape K V) (ctx : Context K V)
      (n : Cell K V) (o : Outcome (Unit {0} × Guard K V)) : Type 0 where
    pub after : Guard K V
    pub tree : Shape K V
    pub returns : o ≡ done (tt, after)
    pub focus : Focus after top tree
    pub balanced : IsBalanced tree
    pub dark : top_weight tree ≡ 1
    pub same :
        entries tree
        ≡ entries (
            plug
              (below i (link_to i (some n.here) c) u (relink i (some n.here) ctx))
              (fork leaf (linked i c ctx n) leaf))
    pub range : after.meta.range ≡ widen i (near i ctx) n.here s.meta.range
    pub black_height : after.meta.black_height ≡ height tree

  -- `insert_at` of a new red node at a vacant side of a node `c`, in a red-black tree with a black root
  -- whose black height is recorded and below 255, where `c` links to its neighbour on that side: it does
  -- not panic and does not run out of rounds, and leaves such a tree, whose entries in order are those
  -- of the tree with the node as a new leaf there, linked with its two neighbours; where it has no
  -- neighbour on that side, it becomes that end of the range.
  pub insert_at-Placed :
      {s : Guard K V} (i : Side) (c : Cell K V) (u : Shape K V) (ctx : Context K V) (n : Cell K V)
      (parent : NodeRef)
      → Focus s ctx (fork_at i leaf c u)
      → view s n.here ≡ some (node_of parent (pair none none) n)
      → count n.here (fork_at i leaf c u) + count_above n.here ctx ≡ 0
      → at c.order i ≡ near i ctx
      → n.color ≡ red
      → IsBalanced (plug ctx (fork_at i leaf c u))
      → top_weight (plug ctx (fork_at i leaf c u)) ≡ 1
      → s.meta.black_height ≡ height (plug ctx (fork_at i leaf c u))
      → s.meta.black_height < 255
      → Placed s i c u ctx n (insert_at i n.here c.here s)
  insert_at-Placed {s} i c u ctx n parent foc new out far col b dark bh small =
      let a = attach-Attached i c u ctx n parent foc new out far in
      let p = n.here in
      let c' = link_to i (some p) c in
      let ctx' = relink i (some p) ctx in
      let t = fork leaf (linked i c ctx n) leaf in
      let w0 : color_weight n.color ≡ 0 = ap color_weight col in
      let parts = of_IsBalanced-plug (below i c u ctx) leaf b (omega (arith, dark)) in
      let flat : 0 ≡ height t = omega (arith, w0) in
      let above =
        subst (λ k. IsBalancedAbove k (below i c' u ctx')) flat
          (IsBalancedAbove-link 0 i (some p) c u ctx parts.1) in
      let f =
        mend-Fixed p t i c' u ctx' a.focus refl (refl, omega arith, omega arith, tt, tt) w0 above
          (a.black_height
            ∙ bh
            ∙ parts.3
            ∙ sym (height_above-relink (weight c + 0) i (some p) ctx)
            ∙ ap (λ k. height_above k (below i c' u ctx')) flat)
          (subst (λ k. k < 255) (sym a.black_height) small) in
      let there =
        count-same p (plug (below i c' u ctx') t) f.tree f.same
        ∙ count-plug p (below i c' u ctx') t in
      let g =
        settle-Fixed p f.tree f.focus (omega (arith, there, once_self p)) f.balanced f.dark
          f.black_height val.has_cumulant in
      record {
        after = g.after;
        tree = g.tree;
        returns =
            insert_at_steps i p c.here s a.after f.after a.returns a.focus.above.0 refl f.returns
              g.returns;
        focus = g.focus;
        balanced = g.balanced;
        dark = g.dark;
        same = g.same ∙ f.same;
        range = g.range ∙ f.range ∙ a.range;
        black_height = g.black_height;
      }
