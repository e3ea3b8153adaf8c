-- ===== src/Iter/Change.antt =====
-- That a loop over the mutable iterator of src/tree/iter.rs changes what a well-formed tree holds.
use rb_forest.Base.{
  ℕ, ◌+◌, ◌<◌, ◌≡◌, ◌==◌, refl, true, none, List, [], ◌∷◌, Side, left, right, map, length, done,
  pair, pair_at, arith, ap, sym, subst, ◌∙◌, Bool-cases, inl, inr,
}
use mathlib.Core.List.{reverse, reverse_aux}
use rb_forest.Order.{Ord}
use rb_forest.Arena.FreeList.{IsValid}
use rb_forest.Node.{NodeIndex, Value}
use rb_forest.Guard.{Guard, Bounds}
use rb_forest.Guard.Laws.{view}
use rb_forest.Shape.{Cell, Shape, count, once, Holds}
use rb_forest.Shape.Entries.{entries}
use rb_forest.Sequence.{first_or, last_or, IsThreaded, IsSorted}
use rb_forest.Lookup.{cells}
use rb_forest.Dictionary.{IsTree, contents, binding}
use rb_forest.Iter.{Ends, iter_mut, change_all}
use rb_forest.Iter.Walk.{head_ref, last_ref, among}
use rb_forest.Iter.InOrder.{
  in_order, amount, amount-cells, IsStrung-in_order, ends_in_order, length-in_order,
}
use rb_forest.Iter.Loop.{change_all-Changed}
use rb_forest.Iter.Revalue.{
  revalued, entries-revalued, first_or-relocal_by, last_or-relocal_by, IsThreaded-relocal_by,
  IsSorted-relocal_by, binding-relocal_by, count-revalued, root-revalued, height-revalued,
  top_weight-revalued, IsBalanced-revalued, Holds-revalued,
}
use rb_forest.Iter.Drop.{settled, drop_mut-Dropped}

module _ {K V : Type 0} where
  among-amount : (q : NodeIndex) (cs : List (Cell K V)) → 0 < amount q cs → among q cs ≡ true
  among-amount q [] m = absurd (omega arith)
  among-amount q (c ∷ cs) m = elim (Bool-cases (q == c.here)) [
    | inl same ↦ rw same refl
    | inr apart ↦
        let none_here : once q c.here ≡ 0 = rw apart refl in
        rw apart (among-amount q cs (omega (arith, m, none_here)))
  ]

  amount-reverse_aux :
      (q : NodeIndex) (cs acc : List (Cell K V))
      → amount q (reverse_aux cs acc) ≡ amount q cs + amount q acc
  amount-reverse_aux q [] acc = omega arith
  amount-reverse_aux q (c ∷ cs) acc = amount-reverse_aux q cs (c ∷ acc) ∙ omega arith

  among-in_order :
      (i : Side) (q : NodeIndex) (t : Shape K V)
      → 0 < count q t
      → among q (in_order i (cells t)) ≡ true
  among-in_order left q t m = among-amount q (cells t) (omega (arith, m, amount-cells q t))
  among-in_order right q t m =
      among-amount q (reverse (cells t))
        (omega (arith, m, amount-cells q t, amount-reverse_aux q (cells t) []))

module _ {K V : Type 0} ⦃o : Ord K⦄ ⦃val : Value V⦄ where
  IsTree-revalued :
      {s s' : Guard K V} (f : K → val.Local → val.Local) (t : Shape K V)
      → IsTree s t
      → Holds (view s') none (revalued f t)
      → s'.meta ≡ s.meta
      → IsTree s' (revalued f t)
  IsTree-revalued f t h held same = record {
    focus = record {
      inside = held;
      above = tt;
      distinct = λ q. omega (arith, count-revalued f q t, h.focus.distinct q);
      rooted = ap (λ (b : Bounds). b.root) same ∙ h.focus.rooted ∙ sym (root-revalued f t);
    };
    balanced = IsBalanced-revalued f t h.balanced;
    dark = top_weight-revalued f t ∙ h.dark;
    black_height =
        ap (λ (b : Bounds). b.black_height) same ∙ h.black_height ∙ sym (height-revalued f t);
    sorted =
        subst IsSorted (sym (entries-revalued f t)) (IsSorted-relocal_by f (entries t) h.sorted);
    threaded =
        subst (λ es. IsThreaded none es none) (sym (entries-revalued f t))
          (IsThreaded-relocal_by f none none (entries t) h.threaded);
    range =
        ap (λ (b : Bounds). b.range) same
        ∙ h.range
        ∙ (λ j.
            pair (sym (first_or-relocal_by f none (entries t)) j)
              (sym (last_or-relocal_by f none (entries t)) j))
        ∙ ap (λ es. pair (first_or none es) (last_or none es)) (sym (entries-revalued f t));
  }

  -- A loop over `iter_mut` of a well-formed tree, forward for the left side and backward for the right,
  -- that replaces each local data by a function of it and of the key, and the drop of the iterator,
  -- given more rounds than the tree has bindings: they do not fail, and leave a well-formed tree whose
  -- contents are the keys of before with the new data. The tree is the one of before with the data
  -- changed and then, if the values have cumulants, with the value of each node updated from the
  -- cumulants of its children, after theirs. A valid free list stays valid.
  pub change_all-settled :
      {s : Guard K V} (i : Side) (f : K → val.Local → val.Local) (fuel : ℕ) (t : Shape K V)
      → IsTree s t
      → length (contents t) < fuel
      → (after : Guard K V) × (ends : Ends) × (iter_mut s ≡ done ends)
        × (change_all i f fuel ends s ≡ done (tt, after))
        × IsTree after (settled (revalued f t))
        × (contents (settled (revalued f t)) ≡ map (λ b. (b.0, f b.0 b.1)) (contents t))
        × (IsValid s.arena → IsValid after.arena)
  unfolding iter_mut
  change_all-settled {s} i f fuel t h le =
      let cs = in_order i (cells t) in
      let a =
        change_all-Changed i f fuel cs s (IsStrung-in_order i t h)
          (omega (arith, length-in_order i t)) in
      let held =
        Holds-revalued f (view s) (view a.before_drop) none t h.focus.inside
          (λ q m. let inside = among-in_order i q t m in rw inside at (a.reads q)) in
      let b =
        drop_mut-Dropped a.before_drop (revalued f t) (IsTree-revalued f t h held a.meta_kept) in
      (
        b.after,
        pair_at i (head_ref cs) (last_ref cs),
        ap done (ends_in_order i t h),
        a.continues ∙ b.returns,
        b.is_tree,
        b.contents_kept
            ∙ ap (map binding) (entries-revalued f t)
            ∙ binding-relocal_by f (entries t),
        λ v. b.valid (a.valid v),
      )
