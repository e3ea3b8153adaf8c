-- ===== src/Insertion/Round.antt =====
-- The body of the loop of `fix_insert`.
use rb_forest.Base.{
  pair_at, at-pair_at-other, Pair, ◌⊎◌, inl, inr, ◌≤◌, ◌≡◌, some, none, points_to, if◌then◌else◌,
  Side, left, right, other, true, false, refl, subst, arith,
}
use rb_forest.Node.{NodeIndex, NodeRef, Color, red, black, color_weight, color_is_red, Value}
use rb_forest.Guard.{Guard, ◌>>◌}
use rb_forest.Guard.Laws.{node_at-done}
use rb_forest.Tree.{rotate}
use rb_forest.Tree.Insert.{fix_insert_round, fix_insert_step, rotate_up, raise_parent}
use rb_forest.Shape.{
  Cell, Shape, leaf, fork, Context, below, root, Focus, node_of, count, once_self, not-root,
}
use rb_forest.Shape.Balance.{
  height, top_weight, weight, IsBalanced, IsBalancedAbove, top_weight_le, color_weight_le,
}
use rb_forest.Insertion.{Climbed}
use rb_forest.Insertion.Raise.{raise_parent-Climbed}
use rb_forest.Insertion.RotateUp.{raise_inner-Climbed}
use rb_forest.Insertion.Recolor.{recolor-Climbed}

-- The source tells the side of a child by comparing one of the two references.
abbrev pub side0 : Pair NodeRef → NodeIndex → Side
side0 c p = if points_to c.at0 p then left else right

abbrev side1 : Pair NodeRef → NodeIndex → Side
side1 c p = if points_to c.at1 p then left else right

pub points_to_self : (p : NodeIndex) → points_to (some p) p ≡ true
points_to_self p = ground arith

color_cases :
    (c : Color)
    → ((color_is_red c ≡ true) × (color_weight c ≡ 0))
      ⊎ ((color_is_red c ≡ false) × (color_weight c ≡ 1))
color_cases red = inl (refl, refl)
color_cases black = inr (refl, refl)

module _ {K V : Type 0} where
  pub side0_lem :
      (j : Side) (p : NodeIndex) (u : Shape K V)
      → count p u ≡ 0
      → side0 (pair_at j (some p) (root u)) p ≡ j
  side0_lem left p u e = rw points_to_self
  side0_lem right p u e = rw (not-root u p e)

  side1_lem :
      (k : Side) (p : NodeIndex) (w : Shape K V)
      → count p w ≡ 0
      → side1 (pair_at k (some p) (root w)) p ≡ other k
  side1_lem left p w e = rw (not-root w p e)
  side1_lem right p w e = rw points_to_self

  pub count_root : (t : Shape K V) (p : NodeIndex) → root t ≡ some p → 1 ≤ count p t
  count_root leaf p e = absurd (cc)
  count_root (fork l c r) p e = ground (arith, once_self p)

module _ {K V : Type 0} ⦃val : Value V⦄ where
  module _ {s : Guard K V} {p : Cell K V} {u : Shape K V} {g : Cell K V} {ctx : Context K V} where
    outer-Climbed :
        (k : Side) {ptr : NodeIndex} {w : Shape K V} {t : Shape K V}
        → Focus s (below k p u (below k g w ctx)) t
        → root t ≡ some ptr
        → IsBalanced t
        → top_weight t ≡ 0
        → IsBalancedAbove (height t) (below k p u (below k g w ctx))
        → weight p ≡ 0
        → top_weight w ≡ 1
        → Climbed s (below k p u (below k g w ctx)) t (raise_parent (other k) ptr s)
    outer-Climbed k {ptr} {w} {t} foc rooted bt rt above pr kw =
        let du = top_weight_le u in
        let dg = color_weight_le g.color in
        raise_parent-Climbed k foc rooted bt rt above.3 above.4.3 above.0 (omega arith)
          (omega arith) kw pr (omega arith)
          (subst (λ n. IsBalancedAbove n ctx) (omega arith) above.4.4)

    inner-Climbed :
        (k : Side) {w : Shape K V} (t : Shape K V)
        → Focus s (below (other k) p u (below k g w ctx)) t
        → IsBalanced t
        → top_weight t ≡ 0
        → IsBalancedAbove (height t) (below (other k) p u (below k g w ctx))
        → weight p ≡ 0
        → top_weight w ≡ 1
        → Climbed s
            (below (other k) p u (below k g w ctx))
            t
            ((rotate k p.here >> raise_parent (other k) p.here) s)
    inner-Climbed k leaf foc bt rt above pr kw = absurd (omega arith)
    inner-Climbed left {w} (fork l x r) foc bt rt above pr kw =
        let du = top_weight_le u in
        let dg = color_weight_le g.color in
        raise_inner-Climbed left l x r p u g w ctx foc bt rt above.3 above.4.3 (omega arith)
          (omega arith) (omega arith) kw pr (omega arith)
          (subst (λ n. IsBalancedAbove n ctx) (omega arith) above.4.4)
    inner-Climbed right {w} (fork l x r) foc bt rt above pr kw =
        let du = top_weight_le u in
        let dg = color_weight_le g.color in
        raise_inner-Climbed right r x l p u g w ctx foc bt rt above.3 above.4.3 (omega arith)
          (omega arith) (omega arith) kw pr (omega arith)
          (subst (λ n. IsBalancedAbove n ctx) (omega arith) above.4.4)

    rotate_up-Climbed :
        (j k : Side) {ptr : NodeIndex} {w : Shape K V} (t : Shape K V)
        → Focus s (below j p u (below k g w ctx)) t
        → root t ≡ some ptr
        → IsBalanced t
        → top_weight t ≡ 0
        → IsBalancedAbove (height t) (below j p u (below k g w ctx))
        → weight p ≡ 0
        → top_weight w ≡ 1
        → Climbed s (below j p u (below k g w ctx)) t (rotate_up (other k) j ptr p.here s)
    unfolding rotate_up
    rotate_up-Climbed left left t foc rooted bt rt above pr kw =
        outer-Climbed left foc rooted bt rt above pr kw
    rotate_up-Climbed right right t foc rooted bt rt above pr kw =
        outer-Climbed right foc rooted bt rt above pr kw
    rotate_up-Climbed right left t foc rooted bt rt above pr kw =
        inner-Climbed left t foc bt rt above pr kw
    rotate_up-Climbed left right t foc rooted bt rt above pr kw =
        inner-Climbed right t foc bt rt above pr kw

  -- The helper of the loop's body, for any sides of the node and its parent.
  fix_insert_step-Climbed :
      {s : Guard K V} (j k : Side) {p : Cell K V} {u : Shape K V} {g : Cell K V} (w : Shape K V)
      {ctx : Context K V} {t : Shape K V} {ptr : NodeIndex}
      → Focus s (below j p u (below k g w ctx)) t
      → root t ≡ some ptr
      → IsBalanced t
      → top_weight t ≡ 0
      → IsBalancedAbove (height t) (below j p u (below k g w ctx))
      → weight p ≡ 0
      → Climbed s
          (below j p u (below k g w ctx))
          t
          (fix_insert_step (other k) j ptr p.here g.here s)
  unfolding fix_insert_step
  fix_insert_step-Climbed {s} j k {p} {u} {g} leaf foc rooted bt rt above pr =
      rw (node_at-done s g.here foc.above.2.0, at-pair_at-other k (some p.here) none)
        (rotate_up-Climbed j k _ foc rooted bt rt above pr refl)
  fix_insert_step-Climbed {s} j k {p} {u} {g} (fork a c b) {ctx} foc rooted bt rt above pr =
      rw
        (
          node_at-done s g.here foc.above.2.0,
          at-pair_at-other k (some p.here) (some c.here),
          node_at-done s c.here foc.above.2.1.0,
        )
        (elim (color_cases c.color) [
          | inl (e, weight0) ↦
              let du = top_weight_le u in
              let dg = color_weight_le g.color in
              rw e (
                recolor-Climbed j k foc bt rt above.3 above.4.3 above.0 (omega arith) (omega arith)
                  weight0 pr (omega arith)
                  (subst (λ n. IsBalancedAbove n ctx) (omega arith) above.4.4))
          | inr (e, weight1) ↦ rw e (rotate_up-Climbed j k _ foc rooted bt rt above pr weight1)
        ])

  -- A round of the loop of `fix_insert` at the red root of a balanced tree, below a red parent in a
  -- context that is in balance: it does not fail, and leaves a red node at least one level higher
  -- that is the root of a balanced tree in a balanced context; the whole holds the same entries in
  -- order, and its height, the range and the recorded black height are unchanged.
  pub fix_insert_round-Climbed :
      {s : Guard K V} (j k : Side) {p : Cell K V} {u : Shape K V} {g : Cell K V} (w : Shape K V)
      {ctx : Context K V} {t : Shape K V} {ptr : NodeIndex}
      → Focus s (below j p u (below k g w ctx)) t
      → root t ≡ some ptr
      → IsBalanced t
      → top_weight t ≡ 0
      → IsBalancedAbove (height t) (below j p u (below k g w ctx))
      → weight p ≡ 0
      → Climbed s
          (below j p u (below k g w ctx))
          t
          (fix_insert_round ptr p.here (node_of (some g.here) (pair_at j (some ptr) (root u)) p) s)
  unfolding fix_insert_round
  fix_insert_round-Climbed {s} j k {p} {u} {g} w {ctx} {t} {ptr} foc rooted bt rt above pr =
      let out_u : count ptr u ≡ 0 = omega (arith, foc.distinct ptr, count_root t ptr rooted) in
      let out_w : count p.here w ≡ 0 = omega (arith, foc.distinct p.here, once_self p.here) in
      rw (node_at-done s g.here foc.above.2.0, side1_lem k p.here w out_w, side0_lem j ptr u out_u)
        (fix_insert_step-Climbed j k w foc rooted bt rt above pr)
