-- ===== src/Shape/Cumulant.antt =====
-- `update_cumulant` of src/tree/mod.rs on the root of a tree, and moving a sub-tree to a new parent.
use rb_forest.Base.{
  pair_at, ◌+◌, ◌≤◌, ◌<◌, ◌≡◌, refl, false, Option, none, some, pair, Side, left, right, arith,
  Outcome, done, [], ◌∷◌, points_to,
}
use rb_forest.Arena.Access.{get_mut_with_lem}
use rb_forest.Node.{NodeIndex, NodeRef, Node, Value}
use rb_forest.Guard.{Guard, modify, modify_ref}
use rb_forest.Guard.Laws.{view, Written, modify-Written, node_at-done, reads_ne, reads_self}
use rb_forest.Tree.{update_cumulant, map_option, set_cumulant}
use rb_forest.Shape.{
  Heap, Cell, Shape, leaf, fork, root, node_of, count, Holds, Holds-frame, not-root, ne_of_once,
}

module _ {K V : Type 0} where
  -- A sub-tree below a new parent: its root is written, and no node outside of it changes.
  pub record Moved (s : Guard K V) (parent : NodeRef) (t : Shape K V)
      (r : Outcome (Unit {0} × Guard K V)) : Type 0 where
    pub after : Guard K V
    pub returns : r ≡ done (tt, after)
    pub holds : Holds (view after) parent t
    pub reads_out : (q : NodeIndex) → count q t ≡ 0 → view after q ≡ view s q
    pub meta_kept : after.meta ≡ s.meta

  pub modify_ref-Moved :
      (s : Guard K V) (old new : NodeRef) (t : Shape K V)
      → Holds (view s) old t
      → ((q : NodeIndex) → count q t ≤ 1)
      → Moved s new t (modify_ref (root t) (λ m. record m { parent = new }) s)
  modify_ref-Moved s old new leaf held apart = record {
    after = s;
    returns = refl;
    holds = tt;
    reads_out = λ q e. refl;
    meta_kept = refl;
  }
  modify_ref-Moved s old new (fork l c r) held apart =
      let w = modify-Written s c.here (λ m. record m { parent = new }) held.0 in
      let kept = λ (q : NodeIndex) (i : 0 < count q l + count q r).
        reads_ne w q (ne_of_once q c.here (omega (arith, apart q))) in
      record {
        after = w.after;
        returns = w.returns;
        holds = (
          reads_self w,
          Holds-frame (some c.here) l held.1 (λ q i. kept q (omega arith)),
          Holds-frame (some c.here) r held.2 (λ q i. kept q (omega arith)),
        );
        reads_out = λ q e. reads_ne w q (ne_of_once q c.here (omega arith));
        meta_kept = w.meta_kept;
      }

module _ {K V : Type 0} ⦃val : Value V⦄ where
  -- The cumulant of a sub-tree, as its root holds it.
  abbrev pub cumulant_of : Shape K V → Option val.Cumulant
  cumulant_of leaf = none
  cumulant_of (fork l c r) = some (val.cumulant c.value)

  -- A cell whose cumulant is brought up to date with those of its children.
  abbrev pub refresh : Side → Shape K V → Cell K V → Shape K V → Cell K V
  refresh i near c far = record c {
    value = val.update_cumulant (pair_at i (cumulant_of near) (cumulant_of far)) c.value;
  }

  -- What stands behind a reference, as `update_cumulant` reads it.
  abbrev behind : Heap K V → NodeRef → Option val.Cumulant
  behind h r = map_option (λ m. val.cumulant m.value) (elim r [ none ↦ none | some j ↦ h j ])

  behind-root :
      (h : Heap K V) (parent : NodeRef) (t : Shape K V)
      → Holds h parent t
      → behind h (root t) ≡ cumulant_of t
  behind-root h parent leaf held = refl
  behind-root h parent (fork l c r) held = rw held.0

  read-update :
      (s : Guard K V) (p : NodeIndex) (n : Node K V)
      → view s p ≡ some n
      → points_to n.children.at0 p ≡ false
      → points_to n.children.at1 p ≡ false
      → update_cumulant p s
        ≡ modify p
            (set_cumulant (pair (behind (view s) n.children.at0) (behind (view s) n.children.at1)))
            s
  unfolding update_cumulant
  read-update s p n e x y = rw (
    node_at-done s p e,
    get_mut_with_lem s.arena p (n.children.at0 ∷ n.children.at1 ∷ []) n e (ground arith),
  )

  -- `update_cumulant` at a node whose children are the roots of two trees without it: it does not
  -- fail, and is one write of that node, whose value is updated from the cumulants of its children.
  pub update_cumulant-Written :
      (s : Guard K V) (i : Side) (parent : NodeRef) (near : Shape K V) (c : Cell K V)
      (far : Shape K V)
      → view s c.here ≡ some (node_of parent (pair_at i (root near) (root far)) c)
      → Holds (view s) (some c.here) near
      → Holds (view s) (some c.here) far
      → count c.here near ≡ 0
      → count c.here far ≡ 0
      → Written s c.here
          (node_of parent (pair_at i (root near) (root far)) (refresh i near c far))
          (update_cumulant c.here s)
  update_cumulant-Written s left parent near c far held hn hf on of =
      rw
        (
          read-update s c.here _ held (not-root near c.here on) (not-root far c.here of),
          behind-root (view s) (some c.here) near hn,
          behind-root (view s) (some c.here) far hf,
        )
        (modify-Written s c.here (set_cumulant (pair (cumulant_of near) (cumulant_of far))) held)
  update_cumulant-Written s right parent near c far held hn hf on of =
      rw
        (
          read-update s c.here _ held (not-root far c.here of) (not-root near c.here on),
          behind-root (view s) (some c.here) near hn,
          behind-root (view s) (some c.here) far hf,
        )
        (modify-Written s c.here (set_cumulant (pair (cumulant_of far) (cumulant_of near))) held)
