-- ===== src/Tests/Visits.antt =====
-- The theorems on iterators, filters and cursors at a tree of three keys.
use rb_forest.Base.{
  none, ℕ, ◌≡◌, ◌==◌, if◌then◌else◌, pair, not, refl, true, false, Option, List, [], ◌∷◌, done,
  right, arith, map, left,
}
use rb_forest.Order.{nat_ord}
use rb_forest.Arena.{get}
use rb_forest.Node.{NodeIndex, NoCumulant, no_cumulant}
use rb_forest.Arena.FreeList.{IsValid}
use rb_forest.Guard.{Guard, node_at}
use rb_forest.Guard.Laws.{view}
use rb_forest.Lookup.{cells}
use rb_forest.Iter.Walk.{among}
use rb_forest.Cursor.{walk}
use rb_forest.Cursor.Walk.{pair_of, walk-in_order}
use rb_forest.Iter.Drain.{collect_into-contents}
use rb_forest.Interface
use rb_forest.Tree.{map_option}
use rb_forest.Iter.{Ends, iter, collect, collect_into}
use rb_forest.Iter.InOrder.{in_order, collect-in_order}
use rb_forest.Filter.{
  SearchAction, new_action, search_left, search_right, is_match, from_bool, filter, collect_filter,
  filter_step, filter_next,
}
use rb_forest.Filter.Action.{new_action-flags}
use rb_forest.Filter.Pruned.{pruned, collect_filter-pruned}
use rb_forest.Filter.Find.{by_key, as_list, filter-get}
use rb_forest.Dictionary.{contents}
use rb_forest.Tests.Maps.{three, three_shape, three-IsTree}

new_action-flags_example :
    (a : SearchAction) × (new_action true false true ≡ done a)
    × (search_left a ≡ true)
    × (search_right a ≡ false)
    × (is_match a ≡ true)
new_action-flags_example = new_action-flags true false true

-- The keys 10 and 30 of the three, in the order in which the filter visits them.
abbrev tens : ℕ → ℕ → SearchAction
tens k v = from_bool (not (k == 20))

filter-order : collect_filter tens 4 4 (1 ∷ []) three ≡ done ((30, 30) ∷ (10, 10) ∷ [])
unfolding collect_filter filter_next filter_step get node_at
filter-order = refl

collect_filter-pruned_example :
    (stack : List NodeIndex) × (filter three ≡ done stack)
    × (collect_filter tens 4 4 stack three ≡ done (pruned tens three_shape))
collect_filter-pruned_example =
    collect_filter-pruned tens 4 4 three three_shape three-IsTree.focus (omega arith) (omega arith)

filter-get_example :
    (v : Option (NoCumulant ℕ)) × (stack : List NodeIndex) × (Interface.get 30 three ≡ done v)
    × (filter three ≡ done stack)
    × (collect_filter (by_key 30) 4 4 stack three
        ≡ done (as_list 30 (map_option (λ (x : NoCumulant ℕ). x.local) v)))
filter-get_example = filter-get 4 4 three 30 three_shape three-IsTree (omega arith) (omega arith)

collect-in_order_example :
    (ends : Ends) × (iter three ≡ done ends)
    × (collect right 4 ends three ≡ done (in_order right (contents three_shape)))
collect-in_order_example = collect-in_order right 4 three_shape three-IsTree (omega arith)

collect_into-contents_example :
    (after : Guard ℕ (NoCumulant ℕ)) × (collect_into right 4 three
      ≡ done (in_order right (contents three_shape), after))
    × ((q : NodeIndex)
        → view after q
          ≡ (if among q (in_order right (cells three_shape)) then none else view three q))
    × (after.meta.range ≡ pair none none)
    × (IsValid three.arena → IsValid after.arena)
collect_into-contents_example = collect_into-contents right 4 three_shape three-IsTree (omega arith)

walk-in_order_example :
    walk right 4 none three ≡ done (map pair_of (in_order left (cells three_shape)))
walk-in_order_example = walk-in_order left 4 three_shape three-IsTree (omega arith)
