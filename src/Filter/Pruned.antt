-- ===== src/Filter/Pruned.antt =====
-- That the filters of src/tree/iter.rs visit a tree from the root down, right before left, without the
-- sub-trees that the action leaves out.
use rb_forest.Base.{
  ℕ, zero, suc, ◌+◌, ◌≤◌, ◌<◌, ◌≡◌, refl, Bool, true, false, Option, none, some, List, [], ◌∷◌,
  ◌++◌, if◌then◌else◌, Outcome, done, arith, ap, sym, ◌∙◌, pair, Bool-cases, inl, inr, ◌⊎◌,
}
use mathlib.Core.List.{append_assoc, append-nil}
use rb_forest.Node.{NodeIndex, NodeRef, Node, Value}
use rb_forest.Guard.{Guard}
use rb_forest.Guard.Laws.{view, node_at-done}
use rb_forest.Iter.{item}
use rb_forest.Filter.{
  SearchAction, search_left, search_right, is_match, push_if, filter_step, filter_next, filter,
  collect_filter,
}
use rb_forest.Shape.{Cell, Shape, leaf, fork, root, node_of, Heap, Holds, top, Focus}
use rb_forest.Shape.Rounds.{size}

-- The trees that are still to be visited, none empty.
pub record Branch (K V : Type 0) : Type 0 where
  pub low : Shape K V
  pub cell : Cell K V
  pub high : Shape K V

module _ {K V : Type 0} where
  abbrev tree_of : Branch K V → Shape K V
  tree_of b = fork b.low b.cell b.high

  abbrev push_tree : Bool → Shape K V → List (Branch K V) → List (Branch K V)
  push_tree true (fork l c r) bs = record { low = l; cell = c; high = r } ∷ bs
  push_tree true leaf bs = bs
  push_tree false t bs = bs

  abbrev roots : List (Branch K V) → List NodeIndex
  roots [] = []
  roots (b ∷ bs) = b.cell.here ∷ roots bs

  abbrev total : List (Branch K V) → ℕ
  total [] = 0
  total (b ∷ bs) = size (tree_of b) + total bs

  abbrev HoldsAll : Heap K V → List (Branch K V) → Type 0
  HoldsAll h [] = Unit
  HoldsAll h (b ∷ bs) = ((parent : NodeRef) × Holds h parent (tree_of b)) × HoldsAll h bs

  roots-push_tree :
      (b : Bool) (t : Shape K V) (bs : List (Branch K V))
      → push_if b (root t) (roots bs) ≡ roots (push_tree b t bs)
  roots-push_tree true leaf bs = refl
  roots-push_tree true (fork l c r) bs = refl
  roots-push_tree false t bs = refl

  total-push_tree :
      (b : Bool) (t : Shape K V) (bs : List (Branch K V))
      → total (push_tree b t bs) ≤ size t + total bs
  total-push_tree true leaf bs = omega arith
  total-push_tree true (fork l c r) bs = omega arith
  total-push_tree false t bs = omega arith

  HoldsAll-push_tree :
      (h : Heap K V) (b : Bool) (parent : NodeRef) (t : Shape K V) (bs : List (Branch K V))
      → Holds h parent t
      → HoldsAll h bs
      → HoldsAll h (push_tree b t bs)
  HoldsAll-push_tree h true parent leaf bs held all = all
  HoldsAll-push_tree h true parent (fork l c r) bs held all = ((parent, held), all)
  HoldsAll-push_tree h false parent t bs held all = all

module _ {K V : Type 0} ⦃val : Value V⦄ (action : K → val.Local → SearchAction) where
  abbrev pub action_of : Cell K V → SearchAction
  action_of c = action c.key (val.into c.value)

  -- The matches, a node before its sub-trees and the right one before the left one.
  abbrev pub pruned : Shape K V → List (K × val.Local)
  pruned leaf = []
  pruned (fork l c r) =
      (if is_match (action_of c) then (c.key, val.into c.value) ∷ [] else [])
      ++ (if search_right (action_of c) then pruned r else [])
      ++ (if search_left (action_of c) then pruned l else [])

  abbrev pruned_all : List (Branch K V) → List (K × val.Local)
  pruned_all [] = []
  pruned_all (b ∷ bs) = pruned (tree_of b) ++ pruned_all bs

  pruned_all-push_tree :
      (b : Bool) (t : Shape K V) (bs : List (Branch K V))
      → pruned_all (push_tree b t bs) ≡ (if b then pruned t else []) ++ pruned_all bs
  pruned_all-push_tree true leaf bs = refl
  pruned_all-push_tree true (fork l c r) bs = refl
  pruned_all-push_tree false t bs = refl

  -- The stack after the visit of its first tree.
  abbrev rest_of : Branch K V → List (Branch K V) → List (Branch K V)
  rest_of b bs =
      push_tree (search_right (action_of b.cell)) b.high
        (push_tree (search_left (action_of b.cell)) b.low bs)

  pruned_all-rest_of :
      (b : Branch K V) (bs : List (Branch K V))
      → pruned_all (b ∷ bs)
        ≡ (if is_match (action_of b.cell) then (b.cell.key, val.into b.cell.value) ∷ [] else [])
          ++ pruned_all (rest_of b bs)
  pruned_all-rest_of b bs =
      let a = action_of b.cell in
      let here = if is_match a then (b.cell.key, val.into b.cell.value) ∷ [] else [] in
      let high = if search_right a then pruned b.high else [] in
      let low = if search_left a then pruned b.low else [] in
      let inner = pruned_all-push_tree (search_left a) b.low bs in
      let outer =
        pruned_all-push_tree (search_right a) b.high (push_tree (search_left a) b.low bs) in
      append_assoc (here ++ high) low (pruned_all bs)
      ∙ append_assoc here high (low ++ pruned_all bs)
      ∙ ap (λ xs. here ++ xs) (sym (outer ∙ ap (λ xs. high ++ xs) inner))

  filter_step-rest_of :
      (s : Guard K V) (b : Branch K V) (bs : List (Branch K V)) (parent : NodeRef)
      → Holds (view s) parent (tree_of b)
      → filter_step action (roots (b ∷ bs)) s
        ≡ done (
          some (
              if is_match (action_of b.cell)
              then some (b.cell.here, node_of parent (pair (root b.low) (root b.high)) b.cell)
              else none),
          roots (rest_of b bs),
        )
  unfolding filter_step
  filter_step-rest_of s b bs parent held =
      let a = action_of b.cell in
      rw
        (
          node_at-done s b.cell.here held.0,
          roots-push_tree (search_left a) b.low bs,
          roots-push_tree (search_right a) b.high (push_tree (search_left a) b.low bs),
        )
        refl

  filter_step-nil : (s : Guard K V) → filter_step action [] s ≡ done (none, [])
  unfolding filter_step
  filter_step-nil s = refl

  -- What `next` does on the roots of some trees.
  record Stepped (s : Guard K V) (bs : List (Branch K V))
      (o : Outcome (Option (NodeIndex × Node K V) × List NodeIndex)) : Type 0 where
    pub cases :
        ((o ≡ done (none, [])) × (pruned_all bs ≡ []))
        ⊎ ((p : NodeIndex) × (n : Node K V) × (rest : List (Branch K V)) × (o
              ≡ done (some (p, n), roots rest))
            × (pruned_all bs ≡ item n ∷ pruned_all rest)
            × HoldsAll (view s) rest
            × (suc (total rest) ≤ total bs))

  filter_next-Stepped :
      (fuel : ℕ) (s : Guard K V) (bs : List (Branch K V))
      → HoldsAll (view s) bs
      → total bs < fuel
      → Stepped s bs (filter_next action fuel (roots bs) s)
  unfolding filter_next
  filter_next-Stepped zero s bs held le = absurd (omega arith)
  filter_next-Stepped (suc fuel) s [] held le = record {
    cases = inl (rw (filter_step-nil s) refl, refl);
  }
  filter_next-Stepped (suc fuel) s (b ∷ bs) ((parent, held), all) le =
      let a = action_of b.cell in
      let here = filter_step-rest_of s b bs parent held in
      let same = pruned_all-rest_of b bs in
      let low = total-push_tree (search_left a) b.low bs in
      let high = total-push_tree (search_right a) b.high (push_tree (search_left a) b.low bs) in
      let kept =
        HoldsAll-push_tree (view s) (search_right a) (some b.cell.here) b.high _ held.2
          (HoldsAll-push_tree (view s) (search_left a) (some b.cell.here) b.low bs held.1 all) in
      elim (Bool-cases (is_match a)) [
        | inl matched ↦ record {
          cases = inr (
            b.cell.here,
            node_of parent (pair (root b.low) (root b.high)) b.cell,
            rest_of b bs,
            rw (here, matched) refl,
            same ∙ rw matched refl,
            kept,
            omega arith,
          );
        }
        | inr missed ↦
            let later = filter_next-Stepped fuel s (rest_of b bs) kept (omega arith) in
            let now : filter_next action (suc fuel) (roots (b ∷ bs)) s
                ≡ filter_next action fuel (roots (rest_of b bs)) s =
              rw (here, missed) refl in
            let there : pruned_all (b ∷ bs) ≡ pruned_all (rest_of b bs) = same ∙ rw missed refl in
            elim later.cases [
              | inl (o, e) ↦ record { cases = inl (now ∙ o, there ∙ e) }
              | inr (p, n, rest, o, e, h, less) ↦ record {
                cases = inr (p, n, rest, now ∙ o, there ∙ e, h, omega arith);
              }
            ]
      ]

  collect_filter-pruned_all :
      (fuel more : ℕ) (s : Guard K V) (bs : List (Branch K V))
      → HoldsAll (view s) bs
      → total bs < fuel
      → total bs < more
      → collect_filter action fuel more (roots bs) s ≡ done (pruned_all bs)
  unfolding collect_filter
  collect_filter-pruned_all fuel zero s bs held le le' = absurd (omega arith)
  collect_filter-pruned_all fuel (suc more) s bs held le le' =
      elim (filter_next-Stepped fuel s bs held le).cases [
        | inl (o, e) ↦ rw (o, e) refl
        | inr (p, n, rest, o, e, h, less) ↦
            rw (o, e, collect_filter-pruned_all fuel more s rest h (omega arith) (omega arith)) refl
      ]

  -- A loop over `filter` on a tree without repetitions: given
  -- more rounds than the tree has nodes, for the steps of one `next` and for the calls of it, it does not
  -- fail, and it sees the keys and the local data of exactly the nodes that the action matches, among
  -- those that the actions of the nodes above lead to. A node comes before those below it, and its right
  -- sub-tree before its left one.
  pub collect_filter-pruned :
      (fuel more : ℕ) (s : Guard K V) (t : Shape K V)
      → Focus s top t
      → size t < fuel
      → size t < more
      → (stack : List NodeIndex) × (filter s ≡ done stack)
        × (collect_filter action fuel more stack s ≡ done (pruned t))
  unfolding filter
  collect_filter-pruned fuel more s leaf f le le' = (
    [],
    rw f.rooted refl,
    collect_filter-pruned_all fuel more s [] tt (omega arith) (omega arith),
  )
  collect_filter-pruned fuel more s (fork l c r) f le le' = (
    c.here ∷ [],
    rw f.rooted refl,
    collect_filter-pruned_all fuel more s (record { low = l; cell = c; high = r } ∷ [])
          ((none, f.inside), tt) (omega arith) (omega arith)
        ∙ ap done (append-nil (pruned (fork l c r))),
  )
