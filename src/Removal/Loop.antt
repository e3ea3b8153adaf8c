-- ===== src/Removal/Loop.antt =====
-- The loop of `fix_remove`: it mends a tree one of whose sub-trees lacks a black node.
use rb_forest.Base.{
  pair_at, ℕ, zero, suc, ◌+◌, ◌≤◌, ◌<◌, ◌≡◌, inl, inr, none, some, points_to, if◌then◌else◌, Side,
  left, right, Outcome, done, refl, ap, sym, subst, ◌∙◌, arith,
}
use rb_forest.Node.{NodeIndex, NodeRef, Node, Value}
use rb_forest.Guard.{Guard, Cmd}
use rb_forest.Guard.Laws.{view, node_at-done}
use rb_forest.Tree.Remove.{fix_remove_step, fix_remove_loop, go_on, lower_height}
use rb_forest.Shape.{
  Cell, Shape, Context, top, below, root, parent_of, plug, fork_at, Focus, count, not-root, node_of,
}
use rb_forest.Shape.Balance.{
  height, top_weight, weight, IsBalanced, IsBalancedAbove, height_above, depth, plug-IsBalanced,
  top_weight_le,
}
use rb_forest.Shape.Entries.{entries-plug}
use rb_forest.Shape.Unplug.{count-plug}
use rb_forest.Insertion.{Focus-top, top_node}
use rb_forest.Insertion.Round.{count_root, points_to_self}
use rb_forest.Removal.{Resolved, Trimmed, Trimmed-from}
use rb_forest.Removal.Step.{fix_remove_step-Resolved}

module _ {K V : Type 0} where
  -- The side of a child, as the code finds it.
  pub side_lem :
      (j : Side) (q : NodeIndex) (v : Shape K V)
      → count q v ≡ 0
      → (if points_to (pair_at j (some q) (root v)).at1 q then right else left) ≡ j
  side_lem left q v e = rw (not-root v q e) refl
  side_lem right q v e = rw (points_to_self q) refl

  lowered :
      (s : Guard K V) (t : Shape K V)
      → Focus s top t
      → Focus (record s { meta = lower_height s.meta }) top t
  lowered s t f = record {
    inside = f.inside;
    above = f.above;
    distinct = f.distinct;
    rooted = f.rooted;
  }

module _ {K V : Type 0} ⦃val : Value V⦄ where
  -- The round is the last one.
  ended :
      {s : Guard K V} (i : Side) (p : Cell K V) (u : Shape K V) (ctx : Context K V) (t : Shape K V)
      {r : Outcome (NodeRef × Guard K V)} (x : Resolved s i p u ctx t r)
      → height x.tree ≡ weight p + (1 + height t)
      → weight p ≤ top_weight x.tree
      → IsBalancedAbove (1 + height t) (below i p u ctx)
      → s.meta.black_height ≡ height_above (1 + height t) (below i p u ctx)
      → Trimmed s (plug (below i p u ctx) t) (done (tt, x.after))
  ended i p u ctx t x h w above bh =
      let whole =
        plug-IsBalanced ctx x.tree x.balanced (subst (λ n. IsBalancedAbove n ctx) (sym h) above.4)
          (omega (arith, above.2)) in
      record {
        reads_out = λ q out. x.reads_out q (omega (arith, out, count-plug q ctx (fork_at i t p u)));
        fixed = record {
          after = x.after;
          tree = plug ctx x.tree;
          returns = refl;
          focus = Focus-top ctx x.focus;
          balanced = whole.0;
          dark = omega (arith, whole.2, top_weight_le (plug ctx x.tree));
          same = entries-plug ctx x.tree _ x.same;
          range = x.limits.range;
          black_height =
              x.limits.black_height ∙ bh ∙ ap (λ n. height_above n ctx) (sym h) ∙ sym whole.1;
        };
      }

  -- The whole tree lacks a black node: its black height is one less.
  ended_top :
      {s : Guard K V} (i : Side) (p : Cell K V) (u : Shape K V) (t : Shape K V)
      {r : Outcome (NodeRef × Guard K V)} (x : Resolved s i p u top t r)
      → height x.tree ≡ 1 + height t
      → top_weight x.tree ≡ 1
      → weight p ≡ 1
      → s.meta.black_height ≡ weight p + (1 + height t)
      → s.meta.black_height < 256
      → Trimmed s
          (plug (below i p u top) t)
          (done (tt, record x.after { meta = lower_height x.after.meta }))
  ended_top i p u t x h k w bh small = record {
    reads_out = λ q out. x.reads_out q (omega (arith, out));
    fixed = record {
      after = record x.after { meta = lower_height x.after.meta };
      tree = x.tree;
      returns = refl;
      focus = lowered x.after x.tree x.focus;
      balanced = x.balanced;
      dark = k;
      same = x.same;
      range = x.limits.range;
      black_height = omega (arith, x.limits.black_height, h, w, bh, small);
    };
  }

  go_on_below :
      (s : Guard K V) (q p : NodeIndex) (j : Side) (again : Side → NodeIndex → Cmd K V (Unit {0}))
      {n m : Node K V}
      → view s q ≡ some n
      → n.parent ≡ some p
      → view s p ≡ some m
      → (if points_to m.children.at1 q then right else left) ≡ j
      → go_on (some q) again s ≡ again j p s
  unfolding go_on
  go_on_below s q p j again en ep em side =
      rw (node_at-done s q en, ep, node_at-done s p em, side) refl

  go_on_root :
      (s : Guard K V) (q : NodeIndex) (again : Side → NodeIndex → Cmd K V (Unit {0})) {n : Node K V}
      → view s q ≡ some n
      → n.parent ≡ none
      → go_on (some q) again s ≡ done (tt, record s { meta = lower_height s.meta })
  unfolding go_on
  go_on_root s q again en ep = rw (node_at-done s q en, ep) refl

  go_on_steps :
      (s : Guard K V) (q : NodeIndex) (j : Side) (p : Cell K V) (v : Shape K V) (ctx : Context K V)
      (t : Shape K V) (again : Side → NodeIndex → Cmd K V (Unit {0}))
      → root t ≡ some q
      → Focus s (below j p v ctx) t
      → go_on (some q) again s ≡ again j p.here s
  go_on_steps s q j p v ctx t again e f =
      let n = top_node (view s) (some p.here) t q f.inside e in
      let held : view s p.here ≡ some (node_of (parent_of ctx) (pair_at j (some q) (root v)) p) =
        rw e at f.above.0 in
      go_on_below s q p.here j again n.1 n.2 held
        (side_lem j q v (omega (arith, f.distinct q, count_root t q e)))

  go_on_top :
      (s : Guard K V) (q : NodeIndex) (t : Shape K V)
      (again : Side → NodeIndex → Cmd K V (Unit {0}))
      → root t ≡ some q
      → Focus s top t
      → go_on (some q) again s ≡ done (tt, record s { meta = lower_height s.meta })
  go_on_top s q t again e f =
      let n = top_node (view s) none t q f.inside e in go_on_root s q again n.1 n.2

  loop_steps :
      (fuel : ℕ) (i : Side) (p q : NodeIndex) (s s1 : Guard K V) {next : NodeRef}
      {o : Outcome (Unit {0} × Guard K V)}
      → fix_remove_step i p s ≡ done (next, s1)
      → next ≡ some q
      → go_on (some q) (fix_remove_loop fuel) s1 ≡ o
      → fix_remove_loop (suc fuel) i p s ≡ o
  unfolding fix_remove_loop
  loop_steps fuel i p q s s1 first e rest = rw (first, e) rest

  loop_ends :
      (fuel : ℕ) (i : Side) (p : NodeIndex) (s s1 : Guard K V) {next : NodeRef}
      → fix_remove_step i p s ≡ done (next, s1)
      → next ≡ none
      → fix_remove_loop (suc fuel) i p s ≡ done (tt, s1)
  unfolding fix_remove_loop go_on
  loop_ends fuel i p s s1 first e = rw (first, e) refl

  -- The loop, of enough rounds, below a node one of whose sub-trees lacks a black node.
  pub fix_remove_loop-Trimmed :
      (fuel : ℕ) {s : Guard K V} (i : Side) (p : Cell K V) (u : Shape K V) (ctx : Context K V)
      (t : Shape K V)
      → suc (depth ctx) ≤ fuel
      → Focus s (below i p u ctx) t
      → IsBalanced t
      → top_weight t ≡ 1
      → IsBalancedAbove (1 + height t) (below i p u ctx)
      → s.meta.black_height ≡ height_above (1 + height t) (below i p u ctx)
      → s.meta.black_height < 256
      → Trimmed s (plug (below i p u ctx) t) (fix_remove_loop fuel i p.here s)
  fix_remove_loop-Trimmed zero i p u ctx t le foc bt kt above bh small = absurd (omega arith)
  fix_remove_loop-Trimmed (suc fuel) {s} i p u top t le foc bt kt above bh small =
      let x = fix_remove_step-Resolved i u foc bt kt above.3 above.0 above.1 in
      elim x.outcome [
        | inl (e, h, w) ↦
            Trimmed-from _ _ (ended i p u top t x h w above bh)
              (loop_ends fuel i p.here s x.after x.returns e) refl refl (λ q out. refl)
        | inr (q, e, r, h, k, w) ↦
            Trimmed-from _ _ (ended_top i p u t x h k w bh small)
              (loop_steps fuel i p.here q s x.after x.returns e
                (go_on_top x.after q x.tree (fix_remove_loop fuel) r x.focus))
              refl refl (λ q out. refl)
      ]
  fix_remove_loop-Trimmed (suc fuel) {s} i p u (below j c v ctx) t le foc bt kt above bh small =
      let x = fix_remove_step-Resolved i u foc bt kt above.3 above.0 above.1 in
      elim x.outcome [
        | inl (e, h, w) ↦
            Trimmed-from _ _ (ended i p u (below j c v ctx) t x h w above bh)
              (loop_ends fuel i p.here s x.after x.returns e) refl refl (λ q out. refl)
        | inr (q, e, r, h, k, w) ↦
            let level : weight p + (1 + height t) ≡ 1 + height x.tree = omega (arith, h, w) in
            Trimmed-from _ _
              (fix_remove_loop-Trimmed fuel j c v ctx x.tree (omega (arith, le)) x.focus x.balanced
                k (subst (λ n. IsBalancedAbove n (below j c v ctx)) level above.4)
                (x.limits.black_height ∙ bh ∙ ap (λ n. height_above n (below j c v ctx)) level)
                (omega (arith, x.limits.black_height, small)))
              (loop_steps fuel i p.here q s x.after x.returns e
                (go_on_steps x.after q j c v ctx x.tree (fix_remove_loop fuel) r x.focus))
              (entries-plug (below j c v ctx) x.tree _ x.same) x.limits.range
              (λ q out.
                x.reads_out q
                  (omega (arith, out, count-plug q (below j c v ctx) (fork_at i t p u))))
      ]
