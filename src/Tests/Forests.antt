-- ===== src/Tests/Forests.antt =====
-- Trees of one forest, joined and split, after src/test/simple.rs.
use rb_forest.Base.{ℕ, ◌≡◌, refl, Outcome, done, none, some, List, [], ◌∷◌, Option, map}
use rb_forest.Order.{nat_ord}
use rb_forest.Arena.{Arena}
use rb_forest.Node.{Node, Color, red, black, NoCumulant, no_cumulant}
use rb_forest.Forest.{Forest, outcome, ◌>>=◌}
use rb_forest.Forest.Union.{assume_ok}
use rb_forest.Build.{
  bit_length, link_node, build_node, build_leaf, build_tree, blacken_built, from_sorted_slice,
}
use rb_forest.Arena
use rb_forest.Arena.{
  new, insert_within_capacity, reserve, is_full, put, get_mut_with_unchecked, get_mut_with,
}
use rb_forest.Guard.{node_at, modify}
use rb_forest.Tree.{replace, update_cumulant, rotate}
use rb_forest.Tree.Search.{
  into_here, is_here, map_result, search_loop, search_between, search_by, limit_loop, limit, search,
  closest,
}
use rb_forest.Tree.Insert.{
  blacken_root, recolor, raise_parent, rotate_up, fix_insert_step, fix_insert_round,
  fix_insert_loop, fix_insert, link_far, attach, insert_at,
}
use rb_forest.Tree.Remove.{
  both_nodes, unlink_order, swap_with_next, near_to_far, far_rotation, redden_sibling,
  fix_remove_sibling, red_sibling, fix_remove_step, go_on, fix_remove_loop, fix_remove, splice,
  detach_leaf, finish_remove, remove_at, remove_low,
}
use rb_forest.Tree.Join.{join_point, join_at, join_unchecked}
use rb_forest.Tree.Split.{split_half}
use rb_forest.Interface.{is_single, len_estimate, min_key, max_key, insert_node}
use rb_forest.Node.{new_node}
use rb_forest.Forest.{insert_sorted_slice}
use rb_forest.Forest.Join.{is_between, join}
use rb_forest.Forest.Split.{split_at_root, join_disjoint, split_below, split_node, split}
use rb_forest.Forest.Union.{union_many, union_disjoint}
use rb_forest.Tests.{by_one, walk}

abbrev twice : List ℕ → List (ℕ × ℕ)
twice = map λ k. (k, k)

abbrev run : {A : Type 0} → Forest ℕ (NoCumulant ℕ) A → Outcome (A × Arena (Node ℕ (NoCumulant ℕ)))
run c = c new

abbrev united : List ℕ → List ℕ → Outcome (List (ℕ × Color))
united xs ys =
    elim (run (do
      lower ← insert_sorted_slice by_one (twice xs)
      upper ← insert_sorted_slice by_one (twice ys)
      r ← union_disjoint upper lower
      outcome (assume_ok r))) [ done (tree, a) ↦ done (walk 8 a tree.root) | _ ↦ done [] ]

abbrev parted : ℕ → List ℕ → Outcome (List (ℕ × Color) × Option ℕ × List (ℕ × Color))
parted key xs = elim (run (do tree ← insert_sorted_slice by_one (twice xs); split key tree)) [
  | done ((l, found, r), a) ↦ done (walk 8 a l.root, found, walk 8 a r.root)
  | _ ↦ done ([], none, [])
]

united-joins :
    united (0 ∷ 1 ∷ []) (2 ∷ 3 ∷ 4 ∷ [])
    ≡ done ((0, red) ∷ (1, black) ∷ (2, black) ∷ (3, black) ∷ (4, red) ∷ [])
unfolding bit_length link_node build_node build_leaf build_tree blacken_built from_sorted_slice new
    insert_within_capacity reserve is_full put get_mut_with_unchecked get_mut_with node_at modify
    replace update_cumulant rotate into_here is_here map_result search_loop search_between search_by
    limit_loop limit search closest blacken_root recolor raise_parent rotate_up fix_insert_step
    fix_insert_round fix_insert_loop fix_insert link_far attach insert_at both_nodes unlink_order
    swap_with_next near_to_far far_rotation redden_sibling fix_remove_sibling red_sibling
    fix_remove_step go_on fix_remove_loop fix_remove splice detach_leaf finish_remove remove_at
    remove_low join_point join_at join_unchecked split_half is_single len_estimate min_key max_key
    insert_node new_node insert_sorted_slice is_between join split_at_root join_disjoint split_below
    split_node split union_many union_disjoint Arena.insert Arena.get Arena.remove nat_ord
united-joins = refl

parted-splits :
    parted 2 (0 ∷ 1 ∷ 2 ∷ 3 ∷ 4 ∷ [])
    ≡ done ((0, red) ∷ (1, black) ∷ [], some 2, (3, red) ∷ (4, black) ∷ [])
unfolding bit_length link_node build_node build_leaf build_tree blacken_built from_sorted_slice new
    insert_within_capacity reserve is_full put get_mut_with_unchecked get_mut_with node_at modify
    replace update_cumulant rotate into_here is_here map_result search_loop search_between search_by
    limit_loop limit search closest blacken_root recolor raise_parent rotate_up fix_insert_step
    fix_insert_round fix_insert_loop fix_insert link_far attach insert_at both_nodes unlink_order
    swap_with_next near_to_far far_rotation redden_sibling fix_remove_sibling red_sibling
    fix_remove_step go_on fix_remove_loop fix_remove splice detach_leaf finish_remove remove_at
    remove_low join_point join_at join_unchecked split_half is_single len_estimate min_key max_key
    insert_node new_node insert_sorted_slice is_between join split_at_root join_disjoint split_below
    split_node split union_many union_disjoint Arena.insert Arena.get Arena.remove nat_ord
parted-splits = refl
