-- ===== src/Interface/Clear.antt =====
-- `TreeAllocGuard::clear` of src/tree/interface.rs on a well-formed tree.
use rb_forest.Base.{
  ℕ, zero, suc, ◌<◌, ◌≡◌, ◌==◌, refl, false, none, some, List, [], ◌∷◌, length, length-append, done,
  pair, left, if◌then◌else◌, Outcome, arith, ap, ◌∙◌, Bool-cases, inl, inr,
}
use rb_forest.Order.{Ord}
use rb_forest.Arena.{remove}
use rb_forest.Arena.Access.{remove_lem}
use rb_forest.Arena.FreeList.{IsValid, remove-IsValid}
use rb_forest.Node.{NodeIndex, NodeRef, Node, Value}
use rb_forest.Guard.{Guard, Bounds, rounds}
use rb_forest.Guard.Laws.{view, node_at-done}
use rb_forest.Interface.{clear, clear_loop}
use rb_forest.Shape.{Cell, Shape, leaf, fork}
use rb_forest.Shape.Rounds.{size, size-rounds}
use rb_forest.Lookup.{cells}
use rb_forest.Dictionary.{IsTree}
use rb_forest.Iter.Walk.{head_ref, among, IsStrung}
use rb_forest.Iter.InOrder.{IsStrung-in_order, ends_in_order}
use rb_forest.Iter.Drain.{IsStrung-kept, among_apart, vacant_both}

module _ {K V : Type 0} where
  -- The guard with a slot freed.
  abbrev freed : NodeIndex → Guard K V → Guard K V
  freed p s = record s { arena = (remove s.arena p).1 }

  clear_loop-next :
      (fuel : ℕ) (p : NodeIndex) (next : NodeRef) (s : Guard K V) {n : Node K V}
      {o : Outcome (Unit {0} × Guard K V)}
      → view s p ≡ some n
      → n.order.at1 ≡ next
      → clear_loop fuel next (freed p s) ≡ o
      → clear_loop (suc fuel) (some p) s ≡ o
  unfolding clear_loop
  clear_loop-next fuel p next s seen link rest = rw (node_at-done s p seen, link) rest

  -- The loop frees the slots of the cells, and no other.
  record Freed (s : Guard K V) (cs : List (Cell K V)) (o : Outcome (Unit {0} × Guard K V))
      : Type 0 where
    pub after : Guard K V
    pub returns : o ≡ done (tt, after)
    pub reads : (q : NodeIndex) → view after q ≡ (if among q cs then none else view s q)
    pub meta_kept : after.meta ≡ s.meta
    pub valid : IsValid s.arena → IsValid after.arena

  clear_loop-Freed :
      (fuel : ℕ) (cs : List (Cell K V)) (s : Guard K V)
      → IsStrung left s cs
      → length cs < fuel
      → Freed s cs (clear_loop fuel (head_ref cs) s)
  unfolding clear_loop
  clear_loop-Freed fuel [] s strung le = record {
    after = s;
    returns = refl;
    reads = λ q. refl;
    meta_kept = refl;
    valid = λ v. v;
  }
  clear_loop-Freed zero (c ∷ cs) s strung le = absurd (omega arith)
  clear_loop-Freed (suc fuel) (c ∷ cs) s ((n, e, k, v, o), apart, strung) le =
      let reads1 = (remove_lem s.arena c.here).1 in
      let kept =
        IsStrung-kept left s (freed c.here s) cs
          (λ q m.
            let away : (q == c.here) ≡ false = among_apart q c.here cs m apart in
            rw away at (reads1 q))
          strung in
      let rest = clear_loop-Freed fuel cs (freed c.here s) kept (omega arith) in
      record {
        after = rest.after;
        returns = clear_loop-next fuel c.here (head_ref cs) s e o rest.returns;
        reads = λ q. rest.reads q ∙ elim (Bool-cases (q == c.here)) [
          | inl same ↦
              let now : view (freed c.here s) q ≡ none = rw same at (reads1 q) in
              rw (same, now) (vacant_both (among q cs))
          | inr away ↦
              let now : view (freed c.here s) q ≡ view s q = rw away at (reads1 q) in
              rw (away, now) refl
        ];
        meta_kept = rest.meta_kept;
        valid = λ v. rest.valid (remove-IsValid s.arena c.here v);
      }

  length-cells : (t : Shape K V) → length (cells t) ≡ size t
  length-cells leaf = refl
  length-cells (fork l c r) =
      omega (arith, length-append {0} (cells l) (c ∷ cells r), length-cells l, length-cells r)

  clear_steps :
      (s s1 : Guard K V)
      → clear_loop (rounds s) s.meta.range.at0 s ≡ done (tt, s1)
      → clear s
        ≡ done (tt, record s1 { meta = record s1.meta { root = none; range = pair none none } })
  unfolding clear
  clear_steps s s1 first = rw first refl

module _ {K V : Type 0} ⦃o : Ord K⦄ ⦃val : Value V⦄ where
  -- `clear` of a well-formed tree: it does not fail and does not run out of rounds. Afterwards each slot
  -- that held a node of the tree is vacant, every other slot reads as before, a valid free list is valid
  -- still, and the tree has no root and no ends; the recorded black height is left as it was.
  pub clear_lem :
      {s : Guard K V} (t : Shape K V)
      → IsTree s t
      → (after : Guard K V) × (clear s ≡ done (tt, after))
        × ((q : NodeIndex) → view after q ≡ (if among q (cells t) then none else view s q))
        × (IsValid s.arena → IsValid after.arena)
        × (after.meta
            ≡ record { root = none; range = pair none none; black_height = s.meta.black_height })
  clear_lem {s} t h =
      let f =
        clear_loop-Freed (rounds s) (cells t) s (IsStrung-in_order left t h)
          (omega (arith, size-rounds t h.focus, length-cells t)) in
      (
        record f.after { meta = record f.after.meta { root = none; range = pair none none } },
        clear_steps s f.after
            (ap (λ r. clear_loop (rounds s) r.at0 s) (ends_in_order left t h) ∙ f.returns),
        f.reads,
        f.valid,
        ap (λ (m : Bounds). record m { root = none; range = pair none none }) f.meta_kept,
      )
