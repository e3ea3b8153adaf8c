-- ===== src/Removal/Frame.antt =====
-- What `rotate` and `propagate_cumulant` of src/tree/mod.rs leave alone: the nodes outside of the tree.
use rb_forest.Base.{
  ℕ, zero, suc, ◌+◌, ◌≤◌, ◌≡◌, Side, Bool, true, false, left, Outcome, done, arith, ap, sym, subst,
  ◌∙◌, if◌then◌else◌,
}
use rb_forest.Node.{NodeIndex, Value}
use rb_forest.Guard.{Guard, rounds, pure}
use rb_forest.Guard.Laws.{view, node_at-done}
use rb_forest.Tree.{rotate, propagate_loop, propagate_cumulant}
use rb_forest.Shape.{
  Cell, Shape, fork, Context, top, below, parent_of, fork_at, Focus, count, count_above,
}
use rb_forest.Shape.Cumulant.{refresh}
use rb_forest.Shape.Rotate.{rotate-Rotated}
use rb_forest.Shape.Zipper.{Focus-up, Focus-down, count-fork_at, Leaning-Focus}
use rb_forest.Shape.Unplug.{locate, Focus-plug, count-plug}
use rb_forest.Propagation.{update_cumulant-Edited}

returned :
    {A : Type 0} (a b : A) → Path (Outcome (Unit {0} × A)) (done (tt, a)) (done (tt, b)) → a ≡ b
returned a b e = ap (λ o. elim o [ done x ↦ x.1 | _ ↦ a ]) e

module _ {K V : Type 0} ⦃val : Value V⦄ where
  pub rotate_outside :
      {s : Guard K V} (i : Side) {ctx : Context K V} (a : Shape K V) (c : Cell K V) (b : Shape K V)
      (d : Cell K V) (e : Shape K V) {after : Guard K V} (q : NodeIndex)
      → Focus s ctx (fork_at i a c (fork_at i b d e))
      → rotate i c.here s ≡ done (tt, after)
      → count q (fork_at i a c (fork_at i b d e)) + count_above q ctx ≡ 0
      → view after q ≡ view s q
  rotate_outside i {ctx} a c b d e {after} q f returns out =
      let t = rotate-Rotated ((Leaning-Focus i).1 f) in
      ap (λ x. view x q) (sym (returned t.after after (sym t.returns ∙ returns)))
      ∙ t.reads_out q
          (omega (arith, out, count-fork_at i a c (fork_at i b d e) q, count-fork_at i b d e q))

  loop_outside :
      (fuel : ℕ) {s after : Guard K V} (ctx : Context K V) (t : Shape K V) (q : NodeIndex)
      → Focus s ctx t
      → propagate_loop fuel (parent_of ctx) s ≡ done (tt, after)
      → count q t + count_above q ctx ≡ 0
      → view after q ≡ view s q
  unfolding propagate_loop
  loop_outside fuel {s} {after} top t q foc e out = ap (λ x. view x q) (sym (returned s after e))
  loop_outside zero (below i c u ctx) t q foc e out = absurd (cc)
  loop_outside (suc fuel) {s} {after} (below i c u ctx) t q foc e out =
      let w = update_cumulant-Edited i t c u (Focus-up i foc) in
      let rest : propagate_loop fuel (parent_of ctx) w.after ≡ done (tt, after) =
        rw (node_at-done s c.here foc.above.0, w.returns) at e in
      loop_outside fuel ctx (fork_at i t (refresh i t c u) u) q w.focus rest
        (omega (arith, out, count-fork_at i t (refresh i t c u) u q))
      ∙ w.reads_out q (omega (arith, out, count-fork_at i t c u q))

  propagate_outside :
      {s after : Guard K V} (p : NodeIndex) (t : Shape K V) (q : NodeIndex)
      → Focus s top t
      → 1 ≤ count p t
      → propagate_cumulant p s ≡ done (tt, after)
      → count q t ≡ 0
      → view after q ≡ view s q
  unfolding propagate_cumulant
  propagate_outside {s} {after} p t q foc inside e out =
      let x = locate p top t inside in
      let at_p =
        Focus-plug x.context (fork x.low x.cell x.high) (subst (Focus s top) (sym x.plugged) foc) in
      loop_outside (rounds s) (below left x.cell x.high x.context) x.low q (Focus-down left at_p)
        (ap (λ y. propagate_cumulant y s) x.found ∙ e)
        (omega
          (arith, out, count-plug q x.context (fork x.low x.cell x.high), ap (count q) x.plugged))

  pub settle_outside :
      {s after : Guard K V} (has : Bool) (p : NodeIndex) (t : Shape K V) (q : NodeIndex)
      → Focus s top t
      → 1 ≤ count p t
      → (if has then propagate_cumulant p else pure tt) s ≡ done (tt, after)
      → count q t ≡ 0
      → view after q ≡ view s q
  settle_outside true p t q foc inside e out = propagate_outside p t q foc inside e out
  settle_outside {s} {after} false p t q foc inside e out =
      ap (λ x. view x q) (sym (returned s after e))
