-- ===== src/Build/Recall.antt =====
-- The iterator of src/tree/iter.rs over a tree that was built from a sorted slice.
use rb_forest.Base.{ℕ, ◌≤◌, ◌<◌, ◌≡◌, Side, List, [], ◌∷◌, refl, length, map, done, arith, ap, ◌∙◌}
use rb_forest.Order.{Ord}
use rb_forest.Arena.{Growth}
use rb_forest.Arena.FreeList.{IsValid}
use rb_forest.Node.{Value}
use rb_forest.Guard.{Guard, default_bounds}
use rb_forest.Iter.{Ends, iter, collect}
use rb_forest.Iter.InOrder.{in_order, collect-in_order}
use rb_forest.Build.{bit_length, from_sorted_slice}
use rb_forest.Build.Raise.{stored}
use rb_forest.Build.Sorted.{IsIncreasing, from_sorted_slice-Sorted}

length-map : {A B : Type 0} (f : A → B) (xs : List A) → length (map f xs) ≡ length xs
length-map f [] = refl
length-map f (x ∷ xs) = omega (arith, length-map f xs)

module _ {K V : Type 0} ⦃o : Ord K⦄ ⦃val : Value V⦄ where
  -- A tree is built by `from_sorted_slice_unchecked` under the conditions of
  -- `from_sorted_slice-Sorted`, and then a loop over `iter`, forward or backward, is given more rounds
  -- than there are items. Neither fails, and the loop sees the items again, in order or reversed, each
  -- with the local data of the value made of it.
  pub collect-from_sorted_slice :
      (g : Growth) (items : List (K × val.Local)) (s : Guard K V) (i : Side) (fuel : ℕ)
      → IsValid s.arena
      → s.meta ≡ default_bounds
      → IsIncreasing items
      → bit_length (length items) (length items) ≤ 509
      → length items < fuel
      → (after : Guard K V) × (ends : Ends) × (from_sorted_slice g items s ≡ done (tt, after))
        × (iter after ≡ done ends)
        × (collect i fuel ends after ≡ done (in_order i (stored V items)))
  collect-from_sorted_slice g items s i fuel valid blank up digits le =
      let b = from_sorted_slice-Sorted g items s valid blank up digits in
      let few =
        ap length b.holds_items
        ∙ length-map (λ (x : K × val.Local). (x.0, val.into (val.new x.1))) items in
      let (ends, start, seen) = collect-in_order i fuel b.tree b.is_tree (omega (arith, few)) in
      (b.after, ends, b.returns, start, seen ∙ ap (λ xs. done (in_order i xs)) b.holds_items)
