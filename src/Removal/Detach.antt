-- ===== src/Removal/Detach.antt =====
-- A leaf leaves the tree: the first write of `fix_remove` of src/tree/mod.rs, and the repair after it.
use rb_forest.Base.{
  pair_at, put_at, put_at-pair_at, ◌+◌, ◌<◌, ◌≡◌, none, some, points_to, if◌then◌else◌, Side, left,
  right, Outcome, done, inl, inr, refl, ap, sym, subst, ◌∙◌, arith,
}
use rb_forest.Node.{NodeIndex, Node, red, black, color_is_red, color_weight, Value}
use rb_forest.Guard.{Guard, Bounds, modify, rounds}
use rb_forest.Guard.Laws.{view, Written, modify-Written, node_at-done, reads_ne, reads_self}
use rb_forest.Tree.Remove.{detach_leaf, fix_remove, fix_remove_loop}
use rb_forest.Shape.{
  Cell, Shape, leaf, fork, Context, below, root, parent_of, plug, Focus, node_of, count,
  Holds-frame, HoldsAbove-frame, ne_of_once, once_self,
}
use rb_forest.Shape.Balance.{
  height, top_weight, weight, IsBalanced, IsBalancedAbove, height_above, plug-IsBalanced,
  top_weight_le,
}
use rb_forest.Shape.Unplug.{of_IsBalanced-plug, count-plug}
use rb_forest.Shape.Rounds.{depth-rounds}
use rb_forest.Insertion.{Focus-top}
use rb_forest.Insertion.Loop.{color_cases}
use rb_forest.Insertion.Fix.{Fixed}
use rb_forest.Insertion.Round.{side0, side0_lem}
use rb_forest.Removal.{Trimmed, Trimmed-from}
use rb_forest.Removal.Loop.{side_lem, fix_remove_loop-Trimmed}

module _ {K V : Type 0} where
  -- The parent's node without its child on side `i`.
  abbrev cut : Side → Node K V → Node K V
  cut i m = record m { children = put_at m.children i none }

  module _ {s : Guard K V} (i : Side) {p : Cell K V} {u : Shape K V} {ctx : Context K V}
      {c : Cell K V} (foc : Focus s (below i p u ctx) (fork leaf c leaf)) where
    shorn :
        (f : Node K V → Node K V)
        → f (node_of (parent_of ctx) (pair_at i (some c.here) (root u)) p)
          ≡ node_of (parent_of ctx) (pair_at i none (root u)) p
        → Written s p.here (node_of (parent_of ctx) (pair_at i none (root u)) p) (modify p.here f s)
    shorn f e =
        subst (λ n. Written s p.here n (modify p.here f s)) e
          (modify-Written s p.here f foc.above.0)

    shorn-Focus :
        {r : Outcome (Unit {0} × Guard K V)}
        (w : Written s p.here (node_of (parent_of ctx) (pair_at i none (root u)) p) r)
        → Focus w.after (below i p u ctx) leaf
    shorn-Focus w = record {
      inside = tt;
      above = (
        reads_self w,
        Holds-frame (some p.here) u foc.above.1
            (λ q m. reads_ne w q (ne_of_once q p.here (omega (arith, foc.distinct q)))),
        HoldsAbove-frame (some p.here) ctx foc.above.2
            (λ q m. reads_ne w q (ne_of_once q p.here (omega (arith, foc.distinct q)))),
      );
      distinct = λ q. omega (arith, foc.distinct q);
      rooted = ap (λ (b : Bounds). b.root) w.meta_kept ∙ foc.rooted;
    }

    shorn-outside :
        {r : Outcome (Unit {0} × Guard K V)}
        (w : Written s p.here (node_of (parent_of ctx) (pair_at i none (root u)) p) r)
        (q : NodeIndex)
        → count q (plug (below i p u ctx) leaf) ≡ 0
        → view w.after q ≡ view s q
    shorn-outside w q out =
        reads_ne w q (ne_of_once q p.here (omega (arith, out, count-plug q (below i p u ctx) leaf)))

    out_u : count c.here u ≡ 0
    out_u = omega (arith, foc.distinct c.here, once_self c.here)

module _ {K V : Type 0} ⦃val : Value V⦄ where
  fix_remove_steps :
      (s s1 : Guard K V) (ptr p : NodeIndex) (i : Side) {n m : Node K V}
      {o : Outcome (Unit {0} × Guard K V)}
      → view s ptr ≡ some n
      → n.parent ≡ some p
      → view s p ≡ some m
      → (if points_to m.children.at1 ptr then right else left) ≡ i
      → modify p (λ x. record x { children = put_at x.children i none }) s ≡ done (tt, s1)
      → fix_remove_loop (rounds s) i p s1 ≡ o
      → fix_remove ptr s ≡ o
  unfolding fix_remove
  fix_remove_steps s s1 ptr p i en up em side first rest =
      rw (node_at-done s ptr en, up, node_at-done s p em, side, first) rest

  module _ {s : Guard K V} (i : Side) (p : Cell K V) (u : Shape K V) (ctx : Context K V)
      (c : Cell K V) (foc : Focus s (below i p u ctx) (fork leaf c leaf))
      (b : IsBalanced (plug (below i p u ctx) (fork leaf c leaf)))
      (dark : top_weight (plug (below i p u ctx) (fork leaf c leaf)) ≡ 1)
      (bh : s.meta.black_height ≡ height (plug (below i p u ctx) (fork leaf c leaf)))
      (small : s.meta.black_height < 256) where
    -- A red leaf is cut off.
    detach_red :
        c.color ≡ red
        → Trimmed s (plug (below i p u ctx) leaf) (detach_leaf c.here p.here c.color s)
    unfolding detach_leaf
    detach_red cr =
        let f : Node K V → Node K V =
          λ m. record m { children = put_at m.children (side0 m.children c.here) none } in
        let w = shorn i foc f (
          ap (λ j. node_of (parent_of ctx) (put_at (pair_at i (some c.here) (root u)) j none) p)
            (side0_lem i c.here u (out_u i foc))
          ∙ ap (λ x. node_of (parent_of ctx) x p) (put_at-pair_at i (some c.here) (root u) none)) in
        let parts =
          of_IsBalanced-plug (below i p u ctx) (fork leaf c leaf) b (omega (arith, dark)) in
        let flat : weight c + 0 ≡ 0 = omega (arith, ap color_weight cr) in
        let whole =
          plug-IsBalanced (below i p u ctx) leaf tt
            (subst (λ n. IsBalancedAbove n (below i p u ctx)) flat parts.1) (omega arith) in
        let here = shorn-Focus i foc w in
        rw (ap color_is_red cr) record {
          fixed = record {
            after = w.after;
            tree = plug (below i p u ctx) leaf;
            returns = w.returns;
            focus = Focus-top (below i p u ctx) here;
            balanced = whole.0;
            dark = omega (arith, whole.2, top_weight_le (plug (below i p u ctx) leaf));
            same = refl;
            range = ap (λ (m : Bounds). m.range) w.meta_kept;
            black_height =
                ap (λ (m : Bounds). m.black_height) w.meta_kept
                ∙ bh
                ∙ parts.3
                ∙ ap (λ n. height_above n (below i p u ctx)) flat
                ∙ sym whole.1;
          };
          reads_out = shorn-outside i foc w;
        }

    -- A black leaf leaves its parent, whose tree is mended.
    fix_remove-Trimmed :
        c.color ≡ black → Trimmed s (plug (below i p u ctx) leaf) (fix_remove c.here s)
    fix_remove-Trimmed cb =
        let w =
          shorn i foc (cut i) (
            ap (λ x. node_of (parent_of ctx) x p) (put_at-pair_at i (some c.here) (root u) none)) in
        let parts =
          of_IsBalanced-plug (below i p u ctx) (fork leaf c leaf) b (omega (arith, dark)) in
        let here = shorn-Focus i foc w in
        let flat : weight c + 0 ≡ 1 = omega (arith, ap color_weight cb) in
        let mended =
          fix_remove_loop-Trimmed (rounds s) i p u ctx leaf
            (omega (arith, depth-rounds (below i p u ctx) foc)) here tt refl
            (subst (λ n. IsBalancedAbove n (below i p u ctx)) flat parts.1)
            (ap (λ (m : Bounds). m.black_height) w.meta_kept
              ∙ bh
              ∙ parts.3
              ∙ ap (λ n. height_above n (below i p u ctx)) flat)
            (omega (arith, small, ap (λ (m : Bounds). m.black_height) w.meta_kept)) in
        Trimmed-from _ _ mended
          (fix_remove_steps s w.after c.here p.here i foc.inside.0 refl foc.above.0
            (side_lem i c.here u (out_u i foc)) w.returns refl)
          refl (ap (λ (m : Bounds). m.range) w.meta_kept) (shorn-outside i foc w)

    pub detach_leaf-Trimmed :
        Trimmed s (plug (below i p u ctx) leaf) (detach_leaf c.here p.here c.color s)
    unfolding detach_leaf
    detach_leaf-Trimmed = elim (color_cases c.color) [
      | inl cb ↦ rw (ap color_is_red cb) (fix_remove-Trimmed cb)
      | inr cr ↦ detach_red cr
    ]

module _ {K V : Type 0} ⦃val : Value V⦄ where
  -- `fix_remove` at a black leaf with a parent, in a red-black tree with a black root whose black height
  -- is recorded and a `u8`: it does not panic and does not run out of rounds, and leaves a balanced
  -- red-black tree with a black root that holds the same indices, keys, local data and order links in
  -- order less the leaf's, the same range, and its black height recorded.
  pub fix_remove-Fixed :
      {s : Guard K V} (i : Side) (p : Cell K V) (u : Shape K V) (ctx : Context K V) (c : Cell K V)
      → Focus s (below i p u ctx) (fork leaf c leaf)
      → c.color ≡ black
      → IsBalanced (plug (below i p u ctx) (fork leaf c leaf))
      → top_weight (plug (below i p u ctx) (fork leaf c leaf)) ≡ 1
      → s.meta.black_height ≡ height (plug (below i p u ctx) (fork leaf c leaf))
      → s.meta.black_height < 256
      → Fixed s (plug (below i p u ctx) leaf) (fix_remove c.here s)
  fix_remove-Fixed i p u ctx c foc cb b dark bh small =
      (fix_remove-Trimmed i p u ctx c foc b dark bh small cb).fixed
