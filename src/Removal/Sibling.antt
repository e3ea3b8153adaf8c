-- ===== src/Removal/Sibling.antt =====
-- The second half of the helper of `fix_remove`: the sibling is black.
use rb_forest.Base.{
  at-pair_at, at-pair_at-other, ◌+◌, ◌≡◌, ◌⊎◌, inl, inr, true, false, Side, left, right, other,
  refl, sym, subst, arith,
}
use rb_forest.Node.{Value}
use rb_forest.Guard.{Guard, ◌>>=◌}
use rb_forest.Guard.Laws.{view, node_at-done}
use rb_forest.Tree.Remove.{near_to_far, far_rotation, redden_sibling, fix_remove_sibling}
use rb_forest.Shape.{Cell, Shape, leaf, fork, Context, root, below, fork_at, Focus}
use rb_forest.Shape.Zipper.{fork_at-other, Holds-fork_at, Focus-up, Focus-down}
use rb_forest.Shape.Balance.{
  height, top_weight, weight, IsBalanced, of_IsBalanced-fork_at, height-fork_at,
}
use rb_forest.Insertion.{red_top, is_red_ref-red_top}
use rb_forest.Insertion.Loop.{color_cases}
use rb_forest.Removal.{Resolved}
use rb_forest.Removal.Redden.{redden_sibling-Resolved}
use rb_forest.Removal.Turn.{far_rotation-Resolved}
use rb_forest.Removal.Near.{near-Resolved}

module _ {K V : Type 0} where
  red_top_cases :
      (t : Shape K V)
      → ((red_top t ≡ true) × (top_weight t ≡ 0)) ⊎ ((red_top t ≡ false) × (top_weight t ≡ 1))
  red_top_cases leaf = inr (refl, refl)
  red_top_cases (fork l c r) = elim (color_cases c.color) [
    | inl b ↦ inr (rw b refl, rw b refl)
    | inr e ↦ inl (rw e refl, rw e refl)
  ]

module _ {K V : Type 0} ⦃val : Value V⦄ where
  module _ {s : Guard K V} {p : Cell K V} {ctx : Context K V} {t : Shape K V} where
    red_near :
        (i : Side) (a : Shape K V) (c : Cell K V) (y : Shape K V)
        → Focus s (below i p (fork_at i a c y) ctx) t
        → IsBalanced t
        → top_weight t ≡ 1
        → top_weight a ≡ 0
        → IsBalanced a
        → height a ≡ height t
        → IsBalanced y
        → height y ≡ height t
        → Resolved s i p
            (fork_at i a c y)
            ctx
            t
            ((near_to_far i c.here (root a) >>= far_rotation i p.here) s)
    red_near i leaf c y foc bt kt ra ba ha by hy = absurd (omega arith)
    red_near left (fork l d r) c y foc bt kt ra ba ha by hy =
        near-Resolved left l d r c y foc bt kt ba.3 (omega (arith, ba.0)) ba.4 (omega (arith, ba.0))
          by hy
    red_near right (fork l d r) c y foc bt kt ra ba ha by hy =
        near-Resolved right r d l c y foc bt kt ba.4 (omega (arith, ba.0)) ba.3
          (omega (arith, ba.0)) by hy

    red_far :
        (i : Side) (a : Shape K V) (c : Cell K V) (b : Shape K V)
        → Focus s (below i p (fork_at i a c b) ctx) t
        → IsBalanced t
        → top_weight t ≡ 1
        → IsBalanced a
        → height a ≡ height t
        → top_weight b ≡ 0
        → IsBalanced b
        → height b ≡ height t
        → Resolved s i p (fork_at i a c b) ctx t (far_rotation i p.here c.here s)
    red_far i a c leaf foc bt kt ba ha rb bb hb = absurd (omega arith)
    red_far i a c (fork x f y) foc bt kt ba ha rb bb hb =
        far_rotation-Resolved i a c x f y foc bt kt ba ha bb.3 (omega (arith, bb.0)) bb.4
          (omega (arith, bb.0))

    two_black :
        (i : Side) (a : Shape K V) (c : Cell K V) (b : Shape K V)
        → Focus s (below i p (fork_at i a c b) ctx) t
        → IsBalanced t
        → top_weight t ≡ 1
        → IsBalanced (fork_at i a c b)
        → height (fork_at i a c b) ≡ 1 + height t
        → weight c ≡ 1
        → top_weight a ≡ 1
        → top_weight b ≡ 1
        → Resolved s i p (fork_at i a c b) ctx t (redden_sibling p.here c.here s)
    two_black left a c b foc bt kt bu hu kc ka kb =
        redden_sibling-Resolved left foc bt kt bu hu kc ka kb
    two_black right a c b foc bt kt bu hu kc ka kb =
        redden_sibling-Resolved right foc bt kt bu hu kc kb ka

    at_side :
        (i : Side) (a : Shape K V) (c : Cell K V) (b : Shape K V)
        → Focus s (below i p (fork_at i a c b) ctx) t
        → IsBalanced t
        → top_weight t ≡ 1
        → IsBalanced (fork_at i a c b)
        → height (fork_at i a c b) ≡ 1 + height t
        → weight c ≡ 1
        → Resolved s i p (fork_at i a c b) ctx t (fix_remove_sibling i p.here c.here s)
    unfolding fix_remove_sibling
    at_side i a c b foc bt kt bu hu kc =
        let far_side =
          Focus-down (other i)
            (subst (Focus s ctx) (sym (fork_at-other i (fork_at i a c b) p t)) (Focus-up i foc)) in
        let held = (Holds-fork_at (view s) i _ a c b).0 far_side.inside in
        let (level, _, _, ba, bb) = of_IsBalanced-fork_at i a c b bu in
        let ha : height a ≡ height t = omega (arith, height-fork_at i a c b level) in
        let hb : height b ≡ height t = omega (arith, level) in
        rw
          (
            node_at-done s c.here held.0,
            at-pair_at i (root a) (root b),
            is_red_ref-red_top s _ a held.1,
            at-pair_at-other i (root a) (root b),
            is_red_ref-red_top s _ b held.2,
          )
          (elim (red_top_cases a) [
            | inl (ea, ra) ↦ elim (red_top_cases b) [
              | inl (eb, rb) ↦ rw (ea, eb) (red_near i a c b foc bt kt ra ba ha bb hb)
              | inr (eb, rb) ↦ rw (ea, eb) (red_near i a c b foc bt kt ra ba ha bb hb)
            ]
            | inr (ea, ka) ↦ elim (red_top_cases b) [
              | inl (eb, rb) ↦ rw (ea, eb) (red_far i a c b foc bt kt ba ha rb bb hb)
              | inr (eb, kb) ↦ rw (ea, eb) (two_black i a c b foc bt kt bu hu kc ka kb)
            ]
          ])

    -- With a black sibling, one of the three branches repairs the tree or passes its lack on.
    pub fix_remove_sibling-Resolved :
        (i : Side) (a : Shape K V) (c : Cell K V) (b : Shape K V)
        → Focus s (below i p (fork a c b) ctx) t
        → IsBalanced t
        → top_weight t ≡ 1
        → IsBalanced (fork a c b)
        → height (fork a c b) ≡ 1 + height t
        → weight c ≡ 1
        → Resolved s i p (fork a c b) ctx t (fix_remove_sibling i p.here c.here s)
    fix_remove_sibling-Resolved left a c b foc bt kt bu hu kc =
        at_side left a c b foc bt kt bu hu kc
    fix_remove_sibling-Resolved right a c b foc bt kt bu hu kc =
        at_side right b c a foc bt kt bu hu kc
