-- ===== src/Propagation/Below.antt =====
-- `update_cumulants` of src/tree/mod.rs: all cumulants of a tree, children first.
use rb_forest.Base.{
  ℕ, zero, suc, ◌+◌, ◌≤◌, ◌<◌, ◌≡◌, refl, Option, none, some, pair, left, Outcome, done, length,
  arith, sym, subst, ◌∙◌,
}
use rb_forest.Arena.FreeList.{IsValid}
use rb_forest.Node.{NodeIndex, NodeRef, Node, Value}
use rb_forest.Guard.{Guard, rounds, modify}
use rb_forest.Guard.Laws.{view, modify-Written, node_at-done, reads_ne, reads_self}
use rb_forest.Guard.Valid.{IsValidAfter, modify-IsValidAfter}
use rb_forest.Tree.{visit, update_below, update_cumulants, set_cumulant}
use rb_forest.Shape.{
  Cell, Shape, leaf, fork, root, node_of, count, Holds, Holds-frame, ne_of_once, top, Focus,
}
use rb_forest.Shape.Cumulant.{cumulant_of, refresh}
use rb_forest.Shape.Rounds.{size, size-rounds}

module _ {K V : Type 0} ⦃val : Value V⦄ where
  -- The tree with the value of each cell updated from the cumulants of its children, which are updated
  -- first.
  abbrev pub summed : Shape K V → Shape K V
  summed leaf = leaf
  summed (fork l c r) = fork (summed l) (refresh left (summed l) c (summed r)) (summed r)

  pub root-summed : (t : Shape K V) → root (summed t) ≡ root t
  root-summed leaf = refl
  root-summed (fork l c r) = refl

  pub count-summed : (q : NodeIndex) (t : Shape K V) → count q (summed t) ≡ count q t
  count-summed q leaf = refl
  count-summed q (fork l c r) = omega (arith, count-summed q l, count-summed q r)

  -- The tree below a parent is summed, nothing outside of it changes, and `x` is returned.
  pub record Summed {A : Type 0} (s : Guard K V) (parent : NodeRef) (t : Shape K V) (x : A)
      (o : Outcome (A × Guard K V)) : Type 0 where
    pub after : Guard K V
    pub returns : o ≡ done (x, after)
    pub holds : Holds (view after) parent (summed t)
    pub valid : IsValid s.arena → IsValid after.arena
    pub reads_out : (q : NodeIndex) → count q t ≡ 0 → view after q ≡ view s q
    pub meta_kept : after.meta ≡ s.meta

  update_below_steps :
      (fuel : ℕ) (s : Guard K V) (p : NodeIndex) {n m : Node K V} {s1 s2 s3 : Guard K V}
      {x y : Option val.Cumulant}
      → view s p ≡ some n
      → visit (update_below fuel) n.children.at0 s ≡ done (x, s1)
      → visit (update_below fuel) n.children.at1 s1 ≡ done (y, s2)
      → modify p (set_cumulant (pair x y)) s2 ≡ done (tt, s3)
      → view s3 p ≡ some m
      → update_below (suc fuel) p s ≡ done (val.cumulant m.value, s3)
  unfolding update_below
  update_below_steps fuel s p {s3 = s3} e1 e2 e3 e4 e5 =
      rw (node_at-done s p e1, e2, e3, e4, node_at-done s3 p e5) refl

  update_cumulants_steps :
      (s : Guard K V) (p : NodeIndex) {s1 : Guard K V} {x : val.Cumulant}
      → update_below (rounds s) p s ≡ done (x, s1)
      → update_cumulants p s ≡ done (tt, s1)
  unfolding update_cumulants
  update_cumulants_steps s p e = rw e refl

  fork-Summed :
      (fuel : ℕ) (l : Shape K V) (c : Cell K V) (r : Shape K V) (s : Guard K V) (parent : NodeRef)
      → view s c.here ≡ some (node_of parent (pair (root l) (root r)) c)
      → ((q : NodeIndex) → count q (fork l c r) ≤ 1)
      → (a : Summed s
          (some c.here)
          l
          (cumulant_of (summed l))
          (visit (update_below fuel) (root l) s))
      → (b : Summed a.after
          (some c.here)
          r
          (cumulant_of (summed r))
          (visit (update_below fuel) (root r) a.after))
      → Summed s parent
          (fork l c r)
          (val.cumulant (refresh left (summed l) c (summed r)).value)
          (update_below (suc fuel) c.here s)
  fork-Summed fuel l c r s parent held few a b =
      let own = few c.here in
      let low : count c.here l ≡ 0 = ground arith in
      let high : count c.here r ≡ 0 = ground arith in
      let found = b.reads_out c.here high ∙ a.reads_out c.here low ∙ held in
      let change : Node K V → Node K V =
        set_cumulant (pair (cumulant_of (summed l)) (cumulant_of (summed r))) in
      let w = modify-Written b.after c.here change found in
      let c' = refresh left (summed l) c (summed r) in
      let kept = λ (q : NodeIndex) (m : 0 < count q l + count q r).
        reads_ne w q (ne_of_once q c.here (omega (arith, few q))) in
      let low_stays =
        Holds-frame (some c.here) (summed l) a.holds
          (λ q m. b.reads_out q (omega (arith, few q, count-summed q l))) in
      record {
        after = w.after;
        returns =
            update_below_steps fuel s c.here held a.returns b.returns w.returns (reads_self w);
        holds = (
          reads_self w ∙ (λ j.
              some (node_of parent (pair (sym (root-summed l) j) (sym (root-summed r) j)) c')),
          Holds-frame (some c.here) (summed l) low_stays
              (λ q m. kept q (omega (arith, count-summed q l))),
          Holds-frame (some c.here) (summed r) b.holds
              (λ q m. kept q (omega (arith, count-summed q r))),
        );
        valid = λ v.
            subst IsValidAfter w.returns
              (modify-IsValidAfter c.here change b.after (b.valid (a.valid v)));
        reads_out = λ q out.
            reads_ne w q (ne_of_once q c.here (omega (arith, out)))
            ∙ b.reads_out q (omega (arith, out))
            ∙ a.reads_out q (omega (arith, out));
        meta_kept = w.meta_kept ∙ b.meta_kept ∙ a.meta_kept;
      }

  visited-Summed :
      (fuel : ℕ) (s : Guard K V) (parent : NodeRef) (t : Shape K V) (p : NodeIndex)
      {x : val.Cumulant}
      → Summed s parent t x (update_below fuel p s)
      → Summed s parent t (some x) (visit (update_below fuel) (some p) s)
  visited-Summed fuel s parent t p a = record {
    after = a.after;
    returns = rw a.returns refl;
    holds = a.holds;
    valid = a.valid;
    reads_out = a.reads_out;
    meta_kept = a.meta_kept;
  }

  visit-Summed :
      (fuel : ℕ) (t : Shape K V) (s : Guard K V) (parent : NodeRef)
      → size t ≤ fuel
      → Holds (view s) parent t
      → ((q : NodeIndex) → count q t ≤ 1)
      → Summed s parent t (cumulant_of (summed t)) (visit (update_below fuel) (root t) s)
  visit-Summed fuel leaf s parent le held few = record {
    after = s;
    returns = refl;
    holds = tt;
    valid = λ v. v;
    reads_out = λ q out. refl;
    meta_kept = refl;
  }
  visit-Summed zero (fork l c r) s parent le held few = absurd (omega arith)
  visit-Summed (suc fuel) (fork l c r) s parent le held few =
      let a =
        visit-Summed fuel l s (some c.here) (omega arith) held.1 (λ q. omega (arith, few q)) in
      let held2 =
        Holds-frame (some c.here) r held.2 (λ q m. a.reads_out q (omega (arith, few q))) in
      let b =
        visit-Summed fuel r a.after (some c.here) (omega arith) held2 (λ q. omega (arith, few q)) in
      visited-Summed (suc fuel) s parent (fork l c r) c.here
        (fork-Summed fuel l c r s parent held.0 few a b)

  below-Summed :
      (fuel : ℕ) (l : Shape K V) (c : Cell K V) (r : Shape K V) (s : Guard K V) (parent : NodeRef)
      → size l + size r ≤ fuel
      → Holds (view s) parent (fork l c r)
      → ((q : NodeIndex) → count q (fork l c r) ≤ 1)
      → Summed s parent
          (fork l c r)
          (val.cumulant (refresh left (summed l) c (summed r)).value)
          (update_below (suc fuel) c.here s)
  below-Summed fuel l c r s parent le held few =
      let a =
        visit-Summed fuel l s (some c.here) (omega arith) held.1 (λ q. omega (arith, few q)) in
      let held2 =
        Holds-frame (some c.here) r held.2 (λ q m. a.reads_out q (omega (arith, few q))) in
      let b =
        visit-Summed fuel r a.after (some c.here) (omega arith) held2 (λ q. omega (arith, few q)) in
      fork-Summed fuel l c r s parent held.0 few a b

  -- `update_cumulants` at the root of a tree without repetitions: it returns within its rounds, the
  -- value of each node is updated from the cumulants of its children, after theirs, and nothing else
  -- changes: no link, and no node outside of the tree.
  pub update_cumulants-Summed :
      {s : Guard K V} (t : Shape K V) (p : NodeIndex)
      → Focus s top t
      → root t ≡ some p
      → Summed s none t tt (update_cumulants p s)
  update_cumulants-Summed {s} leaf p foc e = absurd (cc)
  update_cumulants-Summed {s} (fork l c r) p foc e =
      let enough = size-rounds (fork l c r) foc in
      let a =
        below-Summed (length s.arena.items) l c r s none (omega arith) foc.inside
          (λ q. omega (arith, foc.distinct q)) in
      let same : c.here ≡ p = cc in
      subst (λ j. Summed s none (fork l c r) tt (update_cumulants j s)) same
        record {
          after = a.after;
          returns = update_cumulants_steps s c.here a.returns;
          holds = a.holds;
          valid = a.valid;
          reads_out = a.reads_out;
          meta_kept = a.meta_kept;
        }
