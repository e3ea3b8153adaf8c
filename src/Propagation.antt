-- ===== src/Propagation.antt =====
-- `propagate_cumulant` of src/tree/mod.rs on the nodes of a tree.
pub mod Below
use rb_forest.Base.{ℕ, zero, suc, ◌+◌, ◌≤◌, ◌≡◌, refl, Side, Outcome, done, arith, ◌∙◌}
use rb_forest.Node.{NodeIndex, Value}
use rb_forest.Guard.{Guard, rounds}
use rb_forest.Guard.Laws.{view, node_at-done}
use rb_forest.Tree.{update_cumulant, propagate_loop, propagate_cumulant}
use rb_forest.Shape.{
  Cell, Shape, Context, top, below, parent_of, fork_at, Focus, once_self, count, count_above,
}
use rb_forest.Shape.Cumulant.{refresh, update_cumulant-Written}
use rb_forest.Shape.Zipper.{Focus-up, Holds-fork_at, count-fork_at, Edited, Written-Edited}
use rb_forest.Shape.Rounds.{depth-rounds}
use rb_forest.Shape.Balance.{depth}

module _ {K V : Type 0} ⦃val : Value V⦄ where
  -- The whole tree, where the cell of the hole's parent and then each cell above has its value updated
  -- from its two children.
  abbrev pub refreshed : Context K V → Shape K V → Shape K V
  refreshed top t = t
  refreshed (below i c u ctx) t = refreshed ctx (fork_at i t (refresh i t c u) u)

  pub update_cumulant-Edited :
      {s : Guard K V} {ctx : Context K V} (i : Side) (x : Shape K V) (c : Cell K V) (y : Shape K V)
      → Focus s ctx (fork_at i x c y)
      → Edited s ctx (fork_at i x c y) (fork_at i x (refresh i x c y) y) (update_cumulant c.here s)
  update_cumulant-Edited {s} {ctx} i x c y foc =
      let parts = (Holds-fork_at (view s) i (parent_of ctx) x c y).0 foc.inside in
      let few = foc.distinct c.here in
      let here = once_self c.here in
      let split = count-fork_at i x c y c.here in
      Written-Edited i x c y c.key (refresh i x c y).value c.color c.order foc (
        update_cumulant-Written s i (parent_of ctx) x c y parts.0 parts.1 parts.2 (omega arith)
          (omega arith))

  -- The tree is the one with the cells updated above the hole; the metadata and the nodes outside of
  -- the tree are unchanged.
  pub record Propagated (s : Guard K V) (ctx : Context K V) (t : Shape K V)
      (r : Outcome (Unit {0} × Guard K V)) : Type 0 where
    pub after : Guard K V
    pub returns : r ≡ done (tt, after)
    pub focus : Focus after top (refreshed ctx t)
    pub meta_kept : after.meta ≡ s.meta
    pub reads_out : (q : NodeIndex) → count q t + count_above q ctx ≡ 0 → view after q ≡ view s q

  propagate_loop-Propagated :
      (fuel : ℕ) {s : Guard K V} (ctx : Context K V) (t : Shape K V)
      → Focus s ctx t
      → depth ctx ≤ fuel
      → Propagated s ctx t (propagate_loop fuel (parent_of ctx) s)
  unfolding propagate_loop
  propagate_loop-Propagated fuel {s} top t foc le = record {
    after = s;
    returns = refl;
    focus = foc;
    meta_kept = refl;
    reads_out = λ q out. refl;
  }
  propagate_loop-Propagated zero (below i c u ctx) t foc le = absurd (omega arith)
  propagate_loop-Propagated (suc fuel) {s} (below i c u ctx) t foc le =
      let e = update_cumulant-Edited i t c u (Focus-up i foc) in
      let rest =
        propagate_loop-Propagated fuel ctx (fork_at i t (refresh i t c u) u) e.focus
          (omega arith) in
      record {
        after = rest.after;
        returns = rw (node_at-done s c.here foc.above.0, e.returns) rest.returns;
        focus = rest.focus;
        meta_kept = rest.meta_kept ∙ e.meta_kept;
        reads_out = λ q out.
            rest.reads_out q (omega (arith, out, count-fork_at i t (refresh i t c u) u q))
            ∙ e.reads_out q (omega (arith, out, count-fork_at i t c u q));
      }

  -- `propagate_cumulant` at a node of the guard's tree: it does not fail and does not run out of
  -- rounds, and leaves the tree in which that node and then each of its ancestors, from below, has its
  -- value updated from the cumulants of its two children; the metadata and all nodes of the arena that
  -- are not in the tree are unchanged.
  pub propagate_cumulant-Propagated :
      {s : Guard K V} (i : Side) (c : Cell K V) (u : Shape K V) (ctx : Context K V) (t : Shape K V)
      → Focus s (below i c u ctx) t
      → Propagated s (below i c u ctx) t (propagate_cumulant c.here s)
  unfolding propagate_cumulant
  propagate_cumulant-Propagated {s} i c u ctx t foc =
      propagate_loop-Propagated (rounds s) (below i c u ctx) t foc
        (omega (arith, depth-rounds (below i c u ctx) foc))
