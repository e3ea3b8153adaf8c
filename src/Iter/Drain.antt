-- ===== src/Iter/Drain.antt =====
-- That the owning iterator of src/tree/iter.rs yields a whole tree and frees its nodes.
use rb_forest.Base.{
  ℕ, zero, suc, ◌<◌, ◌≡◌, ◌==◌, refl, Bool, true, false, Option, none, some, List, [], ◌∷◌, length,
  done, pair, pair_at, at, Side, left, right, other, if◌then◌else◌, Outcome, arith, ap, sym, ◌∙◌,
  Bool-cases, inl, inr, ==_refl, ==→≡,
}
use rb_forest.Order.{Ord}
use rb_forest.Arena.{Arena, get, remove}
use rb_forest.Arena.Access.{remove_lem}
use rb_forest.Arena.FreeList.{IsValid, remove-IsValid}
use rb_forest.Node.{NodeIndex, NodeRef, Node, Value}
use rb_forest.Guard.{Guard}
use rb_forest.Guard.Laws.{view}
use rb_forest.Shape.{Cell, Shape}
use rb_forest.Lookup.{cells}
use rb_forest.Dictionary.{IsTree, contents}
use rb_forest.Iter.{Ends, item, advance_into, collect_into}
use rb_forest.Iter.Walk.{head_ref, last_ref, among, IsStrung, items, ref_eq_comm, not-last}
use rb_forest.Iter.InOrder.{
  in_order, IsStrung-in_order, ends_in_order, length-in_order, seen_in_order,
}

module _ {K V : Type 0} where
  -- The guard of an arena with some ends, root and black height.
  abbrev guard_at : NodeRef → ℕ → Arena (Node K V) → Ends → Guard K V
  guard_at r h a ends = record {
    arena = a;
    meta = record { root = r; range = ends; black_height = h };
  }

  removed_node :
      (a : Arena (Node K V)) (p : NodeIndex) (n : Node K V)
      → get a p ≡ some n
      → (remove a p).0 ≡ some n
  removed_node a p n e = (remove_lem a p).0 ∙ e

module _ {K V : Type 0} ⦃val : Value V⦄ (r : NodeRef) (h : ℕ) where
  advance_into-none :
      (i : Side) (a : Arena (Node K V))
      → advance_into i (guard_at r h a (pair_at i none none))
        ≡ done (none, guard_at r h a (pair none none))
  unfolding advance_into
  advance_into-none left a = refl
  advance_into-none right a = refl

  advance_into-one :
      (i : Side) (a : Arena (Node K V)) (p : NodeIndex) (n : Node K V)
      → get a p ≡ some n
      → advance_into i (guard_at r h a (pair_at i (some p) (some p)))
        ≡ done (some (item n), guard_at r h (remove a p).1 (pair_at i none none))
  unfolding advance_into
  advance_into-one left a p n e = rw (removed_node a p n e, ==_refl) refl
  advance_into-one right a p n e = rw (removed_node a p n e, ==_refl) refl

  advance_into-more :
      (i : Side) (a : Arena (Node K V)) (p q : NodeIndex) (n : Node K V)
      → get a p ≡ some n
      → (q == p) ≡ false
      → advance_into i (guard_at r h a (pair_at i (some p) (some q)))
        ≡ done
            (some (item n), guard_at r h (remove a p).1 (pair_at i (at n.order (other i)) (some q)))
  unfolding advance_into
  advance_into-more left a p q n e apart = rw (removed_node a p n e, apart) refl
  advance_into-more right a p q n e apart = rw (removed_node a p n e, apart) refl

pub vacant_both : {A : Type 0} (b : Bool) → ◌≡◌ {A = Option A} (if b then none else none) none
vacant_both true = refl
vacant_both false = refl

module _ {K V : Type 0} where
  last_some : (c : Cell K V) (cs : List (Cell K V)) → (q : NodeIndex) × (last_ref (c ∷ cs) ≡ some q)
  last_some c [] = (c.here, refl)
  last_some c (d ∷ cs) = last_some d cs

  pub among_apart :
      (q p : NodeIndex) (cs : List (Cell K V))
      → among q cs ≡ true
      → among p cs ≡ false
      → (q == p) ≡ false
  among_apart q p cs m out = elim (Bool-cases (q == p)) [
    | inl same ↦ absurd (cc (sym m, ap (λ z. among z cs) (==→≡ q p same), out))
    | inr apart ↦ apart
  ]

  -- The list stays strung where its nodes stay.
  pub IsStrung-kept :
      (i : Side) (s s' : Guard K V) (cs : List (Cell K V))
      → ((q : NodeIndex) → among q cs ≡ true → view s' q ≡ view s q)
      → IsStrung i s cs
      → IsStrung i s' cs
  IsStrung-kept i s s' [] same strung = tt
  IsStrung-kept i s s' (c ∷ cs) same ((n, e, k, v, o), apart, rest) = (
    (n, same c.here (rw ==_refl refl) ∙ e, k, v, o),
    apart,
    IsStrung-kept i s s' cs (λ q m. same q (ground (arith, m))) rest,
  )

module _ {K V : Type 0} ⦃val : Value V⦄ (r : NodeRef) (h : ℕ) where
  advance_into-next :
      (i : Side) (a : Arena (Node K V)) (c : Cell K V) (cs : List (Cell K V)) (ends : Ends)
      → IsStrung i (guard_at r h a ends) (c ∷ cs)
      → advance_into i (guard_at r h a (pair_at i (some c.here) (last_ref (c ∷ cs))))
        ≡ done (
          some (c.key, val.into c.value),
          guard_at r h (remove a c.here).1 (pair_at i (head_ref cs) (last_ref cs)),
        )
  advance_into-next i a c [] ends ((n, e, k, v, o), apart, rest) =
      advance_into-one r h i a c.here n e ∙ (λ j.
        done (some (k j, val.into (v j)), guard_at r h (remove a c.here).1 (pair_at i none none)))
  advance_into-next i a c (d ∷ cs) ends ((n, e, k, v, o), apart, rest) =
      let (q, last) = last_some d cs in
      let other_end : (q == c.here) ≡ false =
        rw last at (ref_eq_comm (last_ref (d ∷ cs)) (some c.here) ∙ not-last c.here d cs apart) in
      rw last (
        advance_into-more r h i a c.here q n e other_end ∙ (λ j. done (
          some (k j, val.into (v j)),
          guard_at r h (remove a c.here).1 (pair_at i (o j) (some q)),
        )))

  -- The loop yields the items of the cells and frees their slots, and no other.
  pub record Drained (a : Arena (Node K V)) (cs : List (Cell K V))
      (o : Outcome (List (K × val.Local) × Guard K V)) : Type 0 where
    pub arena : Arena (Node K V)
    pub returns : o ≡ done (items cs, guard_at r h arena (pair none none))
    pub reads : (q : NodeIndex) → get arena q ≡ (if among q cs then none else get a q)
    pub valid : IsValid a → IsValid arena

  collect_into-end :
      (i : Side) (fuel : ℕ) (a : Arena (Node K V))
      → collect_into i (suc fuel) (guard_at r h a (pair_at i none none))
        ≡ done ([], guard_at r h a (pair none none))
  unfolding collect_into
  collect_into-end i fuel a = rw (advance_into-none r h i a) refl

  collect_into-next :
      (i : Side) (fuel : ℕ) (s s1 s2 : Guard K V) (y : K × val.Local) (ys : List (K × val.Local))
      → advance_into i s ≡ done (some y, s1)
      → collect_into i fuel s1 ≡ done (ys, s2)
      → collect_into i (suc fuel) s ≡ done (y ∷ ys, s2)
  unfolding collect_into
  collect_into-next i fuel s s1 s2 y ys e1 e2 = rw (e1, e2) refl

  collect_into-Drained :
      (i : Side) (fuel : ℕ) (cs : List (Cell K V)) (a : Arena (Node K V)) (ends : Ends)
      → IsStrung i (guard_at r h a ends) cs
      → length cs < fuel
      → Drained a cs (collect_into i fuel (guard_at r h a (pair_at i (head_ref cs) (last_ref cs))))
  collect_into-Drained i zero cs a ends strung le = absurd (omega arith)
  collect_into-Drained i (suc fuel) [] a ends strung le = record {
    arena = a;
    returns = collect_into-end i fuel a;
    reads = λ q. refl;
    valid = λ v. v;
  }
  collect_into-Drained i (suc fuel) (c ∷ cs) a ends strung le =
      let next = (remove a c.here).1 in
      let reads1 = (remove_lem a c.here).1 in
      let kept =
        IsStrung-kept i (guard_at r h a ends) (guard_at r h next ends) cs
          (λ q m.
            let apart : (q == c.here) ≡ false = among_apart q c.here cs m strung.1 in
            rw apart at (reads1 q))
          strung.2 in
      let rest = collect_into-Drained i fuel cs next ends kept (omega arith) in
      record {
        arena = rest.arena;
        returns =
            collect_into-next i fuel _ _ _ _ _ (advance_into-next i a c cs ends strung)
              rest.returns;
        reads = λ q. rest.reads q ∙ elim (Bool-cases (q == c.here)) [
          | inl same ↦
              let now : get next q ≡ none = rw same at (reads1 q) in
              rw (same, now) (vacant_both (among q cs))
          | inr apart ↦
              let now : get next q ≡ get a q = rw apart at (reads1 q) in rw (apart, now) refl
        ];
        valid = λ v. rest.valid (remove-IsValid a c.here v);
      }

module _ {K V : Type 0} ⦃o : Ord K⦄ ⦃val : Value V⦄ where
  -- A loop over `into_iter` of a well-formed tree, forward for the left side and backward for the right,
  -- given more rounds than the tree has bindings: it does not fail, and yields exactly the contents of
  -- the tree, in order or reversed. Afterwards each slot that held a node of the tree is vacant, every
  -- other slot reads as before, the range is empty, and a valid free list is valid still.
  pub collect_into-contents :
      {s : Guard K V} (i : Side) (fuel : ℕ) (t : Shape K V)
      → IsTree s t
      → length (contents t) < fuel
      → (after : Guard K V) × (collect_into i fuel s ≡ done (in_order i (contents t), after))
        × ((q : NodeIndex)
            → view after q ≡ (if among q (in_order i (cells t)) then none else view s q))
        × (after.meta.range ≡ pair none none)
        × (IsValid s.arena → IsValid after.arena)
  collect_into-contents {s} i fuel t h le =
      let cs = in_order i (cells t) in
      let a =
        collect_into-Drained s.meta.root s.meta.black_height i fuel cs s.arena s.meta.range
          (IsStrung-in_order i t h) (omega (arith, length-in_order i t)) in
      (
        guard_at s.meta.root s.meta.black_height a.arena (pair none none),
        (λ j.
              collect_into i fuel
                (guard_at s.meta.root s.meta.black_height s.arena (ends_in_order i t h j)))
            ∙ a.returns
            ∙ (λ j. done (
              seen_in_order i t j,
              guard_at s.meta.root s.meta.black_height a.arena (pair none none),
            )),
        a.reads,
        refl,
        a.valid,
      )
