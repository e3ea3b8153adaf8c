-- ===== src/Tests/Changes.antt =====
-- The theorems on the mutable iterators at a tree of two keys whose values are summed.
use rb_forest.Base.{
  ℕ, ◌+◌, ◌*◌, ◌≡◌, refl, true, Option, none, some, [], ◌∷◌, map, done, pair, right, arith,
}
use rb_forest.Order.{nat_ord}
use rb_forest.Arena.{occupied, get, put}
use rb_forest.Arena.FreeList.{IsValid}
use rb_forest.Node.{red, black, WithCumulant}
use rb_forest.Guard.{Guard, node_at, modify}
use rb_forest.Tree.{update_below, update_cumulants}
use rb_forest.Shape.{Cell, Shape, leaf, fork, node_of}
use rb_forest.Dictionary.{IsTree, contents}
use rb_forest.Iter.{Ends, iter_mut, change_all, drop_mut, advance_mut}
use rb_forest.Iter.Revalue.{revalued}
use rb_forest.Iter.Drop.{Dropped, settled, drop_mut-Dropped}
use rb_forest.Iter.Change.{change_all-settled}
use rb_forest.Propagation.Below.{Summed, update_cumulants-Summed}
use rb_forest.Tests.{sums}

abbrev upper : Cell ℕ (WithCumulant ℕ ℕ)
upper = record {
  here = 0;
  key = 4;
  value = record { local = 40; sub_tree = 0 };
  color = black;
  order = pair (some 1) none;
}

abbrev lower : Cell ℕ (WithCumulant ℕ ℕ)
lower = record {
  here = 1;
  key = 3;
  value = record { local = 30; sub_tree = 0 };
  color = red;
  order = pair none (some 0);
}

abbrev two : Guard ℕ (WithCumulant ℕ ℕ)
two = record {
  arena = record {
    items =
        occupied (node_of none (pair (some 1) none) upper)
        ∷ occupied (node_of (some 0) (pair none none) lower)
        ∷ [];
    capacity = 2;
    head = none;
    len = 2;
  };
  meta = record { root = some 0; range = pair (some 1) (some 0); black_height = 1 };
}

abbrev two_shape : Shape ℕ (WithCumulant ℕ ℕ)
two_shape = fork (fork leaf lower leaf) upper leaf

two-IsTree : IsTree two two_shape
unfolding get nat_ord
two-IsTree = record {
  focus = record {
    inside = (refl, (refl, tt, tt), tt);
    above = tt;
    distinct = λ p. ground arith;
    rooted = refl;
  };
  balanced = (refl, omega arith, omega arith, (refl, omega arith, omega arith, tt, tt), tt);
  dark = refl;
  black_height = refl;
  sorted = ((refl, tt), (tt, tt));
  threaded = (refl, (refl, tt));
  range = refl;
}

-- Each value becomes its double and the key.
abbrev doubled : ℕ → ℕ → ℕ
doubled k v = 2 * v + k

update_cumulants-Summed_example : Summed two none two_shape tt (update_cumulants 0 two)
update_cumulants-Summed_example = update_cumulants-Summed two_shape 0 two-IsTree.focus refl

drop_mut-Dropped_example : Dropped true two two_shape (drop_mut two)
drop_mut-Dropped_example = drop_mut-Dropped two two_shape two-IsTree

change_all-settled_example :
    (after : Guard ℕ (WithCumulant ℕ ℕ)) × (ends : Ends) × (iter_mut two ≡ done ends)
    × (change_all right doubled 3 ends two ≡ done (tt, after))
    × IsTree after (settled (revalued doubled two_shape))
    × (contents (settled (revalued doubled two_shape))
        ≡ map (λ (b : ℕ × ℕ). (b.0, doubled b.0 b.1)) (contents two_shape))
    × (IsValid two.arena → IsValid after.arena)
change_all-settled_example = change_all-settled right doubled 3 two_shape two-IsTree (omega arith)

-- The cumulant of the root afterwards.
abbrev total_after : Option ℕ
total_after = elim (change_all right doubled 3 (pair (some 1) (some 0)) two) [
  | done (_, s) ↦ elim (get s.arena 0) [ none ↦ none | some n ↦ some n.value.sub_tree ]
  | _ ↦ none
]

total_after-sum : total_after ≡ some 147
unfolding change_all advance_mut drop_mut update_cumulants update_below node_at modify get put
total_after-sum = refl
