-- ===== src/Tests/Removals.antt =====
-- The theorems on removal and on `clear`, at a tree of three keys and at one whose leaves are black.
use rb_forest.Base.{
  ℕ, ◌≡◌, refl, List, true, Option, none, some, [], ◌∷◌, if◌then◌else◌, done, pair, left, arith,
}
use rb_forest.Order.{nat_ord}
use rb_forest.Arena.{occupied, get}
use rb_forest.Node.{NodeIndex, black, NoCumulant, no_cumulant}
use rb_forest.Guard.{Guard}
use rb_forest.Tree.{map_option}
use rb_forest.Tree.Remove.{fix_remove}
use rb_forest.Interface
use rb_forest.Interface.Clear.{clear_lem}
use rb_forest.Guard.Laws.{view}
use rb_forest.Arena.FreeList.{IsValid}
use rb_forest.Iter.Walk.{among}
use rb_forest.Lookup.{cells}
use rb_forest.Shape.{Cell, Shape, leaf, fork, top, below, plug, Focus}
use rb_forest.Insertion.Fix.{Fixed}
use rb_forest.Removal.Detach.{fix_remove-Fixed}
use rb_forest.Lookup.{is_eq}
use rb_forest.Dictionary.{IsTree, contents, lookup}
use rb_forest.Dictionary.Recall.{get-remove, remove-insert}
use rb_forest.Dictionary.Remove.{Deleted}
use rb_forest.Dictionary.Remove.Whole.{remove-Deleted}
use rb_forest.Dictionary.Run.{
  Call, inserting, removing, Ran, answers, final, made, call_all, call_all-Ran,
}
use rb_forest.Tests.{sample_node, cell, by_one, empty_guard}
use rb_forest.Tests.Maps.{three, three_shape, three-IsTree, three-IsValid}

-- The root has two children.
remove-Deleted_example : Deleted three_shape 20 (Interface.remove 20 three)
remove-Deleted_example = remove-Deleted 20 three_shape three-IsTree three-IsValid (omega arith)

get-remove_example :
    (after : Guard ℕ (NoCumulant ℕ)) × (v : Option (NoCumulant ℕ)) × (Interface.remove 20 three
      ≡ done (lookup 20 (contents three_shape), after))
    × (Interface.get 30 after ≡ done v)
    × (map_option no_cumulant.into v
        ≡ (if is_eq (nat_ord.cmp 20 30) then none else lookup 30 (contents three_shape)))
get-remove_example = get-remove 20 30 three_shape three-IsTree three-IsValid (omega arith)

remove-insert_example :
    (between after : Guard ℕ (NoCumulant ℕ)) × (u : Shape ℕ (NoCumulant ℕ)) × (Interface.insert
        by_one 25 7 three
      ≡ done (true, between))
    × (Interface.remove 25 between ≡ done (some 7, after))
    × IsTree after u
    × (contents u ≡ contents three_shape)
unfolding nat_ord
remove-insert_example =
    remove-insert by_one 3 25 7 three_shape three-IsTree three-IsValid (omega arith) (omega arith)
      refl

clear_lem_example :
    (after : Guard ℕ (NoCumulant ℕ)) × (Interface.clear three ≡ done (tt, after))
    × ((q : NodeIndex)
        → view after q ≡ (if among q (cells three_shape) then none else view three q))
    × (IsValid three.arena → IsValid after.arena)
    × (after.meta
        ≡ record { root = none; range = pair none none; black_height = three.meta.black_height })
clear_lem_example = clear_lem three_shape three-IsTree

-- An ascending run of keys, with removals of a root and of leaves between.
abbrev calls : List (Call ℕ ℕ)
calls =
    inserting 1 10
    ∷ inserting 2 20
    ∷ inserting 3 30
    ∷ inserting 4 40
    ∷ removing 2
    ∷ inserting 2 21
    ∷ removing 5
    ∷ []

call_all-Ran_example :
    Ran
      (answers (made no_cumulant) calls [])
      (final (made no_cumulant) calls [])
      (call_all by_one calls empty_guard)
call_all-Ran_example = call_all-Ran by_one 3 calls (omega arith) (omega arith)

abbrev blacks : Guard ℕ (NoCumulant ℕ)
blacks = record {
  arena = record {
    items =
        occupied (sample_node 10 black (some 1) none none none (some 1))
        ∷ occupied (sample_node 20 black none (some 0) (some 2) (some 0) (some 2))
        ∷ occupied (sample_node 30 black (some 1) none none (some 1) none)
        ∷ [];
    capacity = 3;
    head = none;
    len = 3;
  };
  meta = record { root = some 1; range = pair (some 0) (some 2); black_height = 2 };
}

abbrev root_cell : Cell ℕ (NoCumulant ℕ)
root_cell = cell 1 20 black (some 0) (some 2)

abbrev first_leaf : Cell ℕ (NoCumulant ℕ)
first_leaf = cell 0 10 black none (some 1)

abbrev last_leaf : Shape ℕ (NoCumulant ℕ)
last_leaf = fork leaf (cell 2 30 black (some 1) none) leaf

blacks-Focus : Focus blacks (below left root_cell last_leaf top) (fork leaf first_leaf leaf)
unfolding get
blacks-Focus = record {
  inside = (refl, tt, tt);
  above = (refl, (refl, tt, tt), tt);
  distinct = λ p. ground arith;
  rooted = refl;
}

-- The repair reaches the root, whose black height is one less afterwards.
fix_remove-Fixed_example :
    Fixed blacks (plug (below left root_cell last_leaf top) leaf) (fix_remove 0 blacks)
fix_remove-Fixed_example =
    fix_remove-Fixed left root_cell last_leaf top first_leaf blacks-Focus refl
      (
        refl,
        omega arith,
        omega arith,
        (refl, omega arith, omega arith, tt, tt),
        (refl, omega arith, omega arith, tt, tt),
      )
      refl refl (omega arith)
