-- ===== src/Iter/Loop.antt =====
-- What a loop over the mutable iterator of src/tree/iter.rs writes before the iterator is dropped.
use rb_forest.Base.{
  ℕ, zero, suc, ◌<◌, ◌≡◌, ◌==◌, refl, false, none, some, List, [], ◌∷◌, length, done, pair, pair_at,
  Side, left, right, if◌then◌else◌, Outcome, arith, ap, subst, ◌∙◌, Bool-cases, inl, inr, ==→≡,
  ==_refl,
}
use rb_forest.Arena.FreeList.{IsValid}
use rb_forest.Node.{NodeIndex, Node, Value}
use rb_forest.Guard.{Guard, modify}
use rb_forest.Guard.Laws.{view, Written, modify-Written, node_at-done}
use rb_forest.Guard.Valid.{IsValidAfter, modify-IsValidAfter}
use rb_forest.Tree.{map_option}
use rb_forest.Shape.{Cell}
use rb_forest.Iter.{Ends, advance_mut, change_node, change_all, drop_mut}
use rb_forest.Iter.Walk.{head_ref, last_ref, among, IsStrung, ref_eq_comm, not-last}

module _ {K V : Type 0} ⦃val : Value V⦄ where
  advance_mut-none :
      (i : Side) (s : Guard K V)
      → advance_mut i (pair_at i none none) s ≡ done (none, pair none none)
  unfolding advance_mut
  advance_mut-none left s = refl
  advance_mut-none right s = refl

  advance_mut-one :
      (i : Side) (s : Guard K V) (c : Cell K V)
      → IsStrung i s (c ∷ [])
      → advance_mut i (pair_at i (some c.here) (some c.here)) s
        ≡ done (some c.here, pair_at i none none)
  unfolding advance_mut
  advance_mut-one left s c h = rw (node_at-done s c.here h.0.1, ==_refl) refl
  advance_mut-one right s c h = rw (node_at-done s c.here h.0.1, ==_refl) refl

  advance_mut-more :
      (i : Side) (s : Guard K V) (c d : Cell K V) (cs : List (Cell K V))
      → IsStrung i s (c ∷ d ∷ cs)
      → advance_mut i (pair_at i (some c.here) (last_ref (d ∷ cs))) s
        ≡ done (some c.here, pair_at i (some d.here) (last_ref (d ∷ cs)))
  unfolding advance_mut
  advance_mut-more left s c d cs h =
      rw (node_at-done s c.here h.0.1, not-last c.here d cs h.1, h.0.4) refl
  advance_mut-more right s c d cs h =
      rw
        (
          node_at-done s c.here h.0.1,
          ref_eq_comm (last_ref (d ∷ cs)) (some c.here),
          not-last c.here d cs h.1,
          h.0.4,
        )
        refl

  -- One step of the loop, and the next ends.
  advance_mut-next :
      (i : Side) (s : Guard K V) (c : Cell K V) (cs : List (Cell K V))
      → IsStrung i s (c ∷ cs)
      → (ends : Ends) × (advance_mut i (pair_at i (some c.here) (last_ref (c ∷ cs))) s
          ≡ done (some c.here, ends))
        × (ends ≡ pair_at i (head_ref cs) (last_ref cs))
  advance_mut-next i s c [] h = (pair_at i none none, advance_mut-one i s c h, refl)
  advance_mut-next i s c (d ∷ cs) h =
      (pair_at i (some d.here) (last_ref (d ∷ cs)), advance_mut-more i s c d cs h, refl)

  -- A write of a node that is not among the rest.
  Written-IsStrung :
      (i : Side) {s : Guard K V} {p : NodeIndex} {n : Node K V} {o : Outcome (Unit {0} × Guard K V)}
      (w : Written s p n o) (cs : List (Cell K V))
      → among p cs ≡ false
      → IsStrung i s cs
      → IsStrung i w.after cs
  Written-IsStrung i w [] out h = tt
  Written-IsStrung i {s} {p} w (c ∷ cs) out ((n, e, k, v, o), apart, rest) =
      let ne : (c.here == p) ≡ false = ground arith in
      ((n, w.reads c.here ∙ rw ne e, k, v, o), apart, Written-IsStrung i w cs (ground arith) rest)

  -- The loop has changed the nodes of the cells, and is left with the drop of the iterator.
  pub record Changed (f : K → val.Local → val.Local) (s : Guard K V) (cs : List (Cell K V))
      (o : Outcome (Unit {0} × Guard K V)) : Type 0 where
    pub before_drop : Guard K V
    pub continues : o ≡ drop_mut before_drop
    pub reads :
        (q : NodeIndex)
        → view before_drop q
          ≡ (if among q cs then map_option (change_node f) (view s q) else view s q)
    pub meta_kept : before_drop.meta ≡ s.meta
    pub valid : IsValid s.arena → IsValid before_drop.arena

  change_all-end :
      (i : Side) (f : K → val.Local → val.Local) (fuel : ℕ) (s : Guard K V)
      → change_all i f (suc fuel) (pair_at i none none) s ≡ drop_mut s
  unfolding change_all
  change_all-end i f fuel s = rw (advance_mut-none i s) refl

  change_all-next :
      (i : Side) (f : K → val.Local → val.Local) (fuel : ℕ) (s s1 : Guard K V) (ends ends' : Ends)
      (p : NodeIndex)
      → advance_mut i ends s ≡ done (some p, ends')
      → modify p (change_node f) s ≡ done (tt, s1)
      → change_all i f (suc fuel) ends s ≡ change_all i f fuel ends' s1
  unfolding change_all
  change_all-next i f fuel s s1 ends ends' p e1 e2 = rw (e1, e2) refl

  pub change_all-Changed :
      (i : Side) (f : K → val.Local → val.Local) (fuel : ℕ) (cs : List (Cell K V)) (s : Guard K V)
      → IsStrung i s cs
      → length cs < fuel
      → Changed f s cs (change_all i f fuel (pair_at i (head_ref cs) (last_ref cs)) s)
  change_all-Changed i f zero cs s h le = absurd (omega arith)
  change_all-Changed i f (suc fuel) [] s h le = record {
    before_drop = s;
    continues = change_all-end i f fuel s;
    reads = λ q. refl;
    meta_kept = refl;
    valid = λ v. v;
  }
  change_all-Changed i f (suc fuel) (c ∷ cs) s h le =
      let (n, e, k, v, o) = h.0 in
      let (ends, step, next) = advance_mut-next i s c cs h in
      let w = modify-Written s c.here (change_node f) e in
      let rest =
        change_all-Changed i f fuel cs w.after (Written-IsStrung i w cs h.1 h.2) (omega arith) in
      record {
        before_drop = rest.before_drop;
        continues =
            change_all-next i f fuel s w.after _ ends c.here step w.returns
            ∙ ap (λ x. change_all i f fuel x w.after) next
            ∙ rest.continues;
        reads = λ q. rest.reads q ∙ elim (Bool-cases (q == c.here)) [
          | inl same ↦
              let out = ap (λ z. among z cs) (==→≡ q c.here same) ∙ h.1 in
              let now : view w.after q ≡ some (change_node f n) = rw same at (w.reads q) in
              let then_ = ap (view s) (==→≡ q c.here same) ∙ e in rw (out, same, now, then_) refl
          | inr apart ↦
              let now : view w.after q ≡ view s q = rw apart at (w.reads q) in rw (apart, now) refl
        ];
        meta_kept = rest.meta_kept ∙ w.meta_kept;
        valid = λ x.
            rest.valid
              (subst IsValidAfter w.returns (modify-IsValidAfter c.here (change_node f) s x));
      }
