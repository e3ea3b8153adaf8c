-- ===== src/Shape/Replace.antt =====
-- `replace` of src/tree/mod.rs: another node takes the hole of a context.
use rb_forest.Base.{
  pair_at, ◌≤◌, ◌<◌, ◌≡◌, ◌==◌, some, if◌then◌else◌, Side, left, right, put_at, points_to, arith,
  ◌∙◌, sym, ap, Outcome, done,
}
use rb_forest.Node.{NodeIndex, NodeRef, Node}
use rb_forest.Guard.{Guard, Bounds}
use rb_forest.Guard.Laws.{view, modify-Written, node_at-done, reads_ne, reads_self}
use rb_forest.Tree.{replace}
use rb_forest.Shape.{
  Cell, Shape, Context, top, below, root, parent_of, top_of, node_of, count, count_above,
  HoldsAbove, Holds-frame, HoldsAbove-frame, not-root, ne_of_once, ne_of_count, ne_of_count_above,
}

same_root : {a b : Bounds} {r : NodeRef} → a ≡ b → b.root ≡ r → a ≡ record b { root = r }
same_root e h = ground arith

module _ {K V : Type 0} where
  -- The node `p`, that was `m`, hangs below the context; beside the context no other node changes.
  pub record Replaced (s : Guard K V) (ctx : Context K V) (p : NodeIndex) (m : Node K V)
      (r : Outcome (Unit {0} × Guard K V)) : Type 0 where
    pub after : Guard K V
    pub returns : r ≡ done (tt, after)
    pub reads :
        (q : NodeIndex)
        → count_above q ctx ≡ 0
        → view after q ≡ (if q == p then some (record m { parent = parent_of ctx }) else view s q)
    pub above : HoldsAbove (view after) ctx (some p)
    pub meta_lem : after.meta ≡ record s.meta { root = top_of ctx (some p) }

  -- The child reference that is overwritten is the one to `old`.
  hooked :
      (j : Side) (u : Shape K V) (old p : NodeIndex) (g : Cell K V) (parent : NodeRef)
      → count old u ≡ 0
      → let refs = pair_at j (some old) (root u) in
        some
          (node_of parent (put_at refs (if points_to refs.at0 old then left else right) (some p)) g)
        ≡ some (node_of parent (pair_at j (some p) (root u)) g)
  hooked left u old p g parent e = ground arith
  hooked right u old p g parent e = ground (arith, not-root u old)

  -- `replace old (some p)` for two nodes outside of the context that `old` hangs in, whose nodes are
  -- all different: it does not fail; `p` hangs in the context instead, or is the root, its parent
  -- link is that of `old`, and no other node outside of the context changes.
  pub replace-Replaced :
      (s : Guard K V) (ctx : Context K V) (old p : NodeIndex) {n m : Node K V}
      → view s old ≡ some n
      → n.parent ≡ parent_of ctx
      → view s p ≡ some m
      → HoldsAbove (view s) ctx (some old)
      → ((q : NodeIndex) → count_above q ctx ≤ 1)
      → count_above old ctx ≡ 0
      → count_above p ctx ≡ 0
      → s.meta.root ≡ top_of ctx (some old)
      → Replaced s ctx p m (replace old (some p) s)
  unfolding replace
  replace-Replaced s top old p {n} {m} e up em above apart fo fp rooted =
      let w = modify-Written s p (λ x. record x { parent = n.parent }) em in
      record {
        after = record w.after { meta = record w.after.meta { root = some p } };
        returns = rw (node_at-done s old e, w.returns, up);
        reads = λ q far. ground (arith, w.reads q);
        above = tt;
        meta_lem = ap (λ (b : Bounds). record b { root = some p }) w.meta_kept;
      }
  replace-Replaced s (below j g u ctx) old p {n} {m} e up em above apart fo fp rooted =
      let w = modify-Written s p (λ x. record x { parent = some g.here }) em in
      let gp = ne_of_once p g.here (omega arith) in
      let seen = reads_ne w g.here (λ e. gp (sym e)) ∙ above.0 in
      let x =
        modify-Written w.after g.here
          (λ x. record x {
            children =
                put_at x.children (if points_to x.children.at0 old then left else right) (some p);
          })
          seen in
      let inner = λ (q : NodeIndex) (i : 0 < count q u).
        reads_ne x q (ne_of_once q g.here (omega (arith, apart q)))
        ∙ reads_ne w q (ne_of_count u p q (omega arith) i) in
      let outer = λ (q : NodeIndex) (i : 0 < count_above q ctx).
        reads_ne x q (ne_of_once q g.here (omega (arith, apart q)))
        ∙ reads_ne w q (ne_of_count_above ctx p q (omega arith) i) in
      record {
        after = x.after;
        returns = rw (node_at-done s old e, up, w.returns) x.returns;
        reads = λ q far. reads_ne x q (ne_of_once q g.here (omega arith)) ∙ w.reads q;
        above = (
          reads_self x ∙ hooked j u old p g (parent_of ctx) (omega arith),
          Holds-frame (some g.here) u above.1 inner,
          HoldsAbove-frame (some g.here) ctx above.2 outer,
        );
        meta_lem = same_root (x.meta_kept ∙ w.meta_kept) rooted;
      }
