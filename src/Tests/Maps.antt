-- ===== src/Tests/Maps.antt =====
-- The theorems on trees as sorted maps, and on the parts of an insertion, at a tree of three keys.
use rb_forest.Base.{
  ◌+◌, length, ℕ, zero, suc, ◌≡◌, refl, Bool, if◌then◌else◌, get_elem?, true, false, Option, none,
  some, [], ◌∷◌, done, pair, left, right, arith,
}
use rb_forest.Order.{nat_ord}
use rb_forest.Arena.{Index, occupied, free, get}
use rb_forest.Arena.FreeList.{IsValid, has, end}
use rb_forest.Node.{red, black, NoCumulant, no_cumulant}
use rb_forest.Guard.{Guard}
use rb_forest.Tree.{map_option}
use rb_forest.Tree.Search.{SearchResult, search, search_loop}
use rb_forest.Tree.Insert.{attach, insert_at}
use rb_forest.Interface
use rb_forest.Shape.{Cell, Shape, Context, leaf, fork, top, below, Focus}
use rb_forest.Shape.Zipper.{Focus-down}
use rb_forest.Insertion.Attach.{Attached, attach-Attached}
use rb_forest.Insertion.At.{Placed, insert_at-Placed}
use rb_forest.Dictionary.{IsTree, Stored, contents, lookup, has_key}
use rb_forest.Dictionary.Insert.{insert-Stored}
use rb_forest.Dictionary.Read.{get-lookup, contains-has_key}
use rb_forest.Dictionary.Cost.{search_loop-quick}
use rb_forest.Dictionary.Estimate.{IsEstimate, len_estimate-IsEstimate}
use rb_forest.Dictionary.Ends.{first_key, last_key, min_key-first_key}
use rb_forest.Interface.Access
use rb_forest.Dictionary.Recall.{get-insert}
use rb_forest.Lookup.{is_eq}
use rb_forest.Tests.{sample_node, cell, by_one}

abbrev pub three : Guard ℕ (NoCumulant ℕ)
three = record {
  arena = record {
    items =
        occupied (sample_node 10 red (some 1) none none none (some 1))
        ∷ occupied (sample_node 20 black none (some 0) (some 2) (some 0) (some 2))
        ∷ occupied (sample_node 30 red (some 1) none none (some 1) none)
        ∷ occupied (sample_node 25 red none none none none none)
        ∷ [];
    capacity = 4;
    head = none;
    len = 4;
  };
  meta = record { root = some 1; range = pair (some 0) (some 2); black_height = 1 };
}

abbrev low : Shape ℕ (NoCumulant ℕ)
low = fork leaf (cell 0 10 red none (some 1)) leaf

abbrev high : Cell ℕ (NoCumulant ℕ)
high = cell 2 30 red (some 1) none

abbrev pub three_shape : Shape ℕ (NoCumulant ℕ)
three_shape = fork low (cell 1 20 black (some 0) (some 2)) (fork leaf high leaf)

pub three-IsTree : IsTree three three_shape
unfolding get nat_ord
three-IsTree = record {
  focus = record {
    inside = (refl, (refl, tt, tt), (refl, tt, tt));
    above = tt;
    distinct = λ p. ground arith;
    rooted = refl;
  };
  balanced = (
    refl,
    omega arith,
    omega arith,
    (refl, omega arith, omega arith, tt, tt),
    (refl, omega arith, omega arith, tt, tt),
  );
  dark = refl;
  black_height = refl;
  sorted = ((refl, (refl, tt)), ((refl, tt), (tt, tt)));
  threaded = (refl, (refl, (refl, tt)));
  range = refl;
}

pub three-IsValid : IsValid three.arena
three-IsValid = record { order = []; chain = end; complete = vacant; room = omega arith }
  where
    vacant :
        (i : Index) (r : Option Index)
        → get_elem? three.arena.items i ≡ some (free r)
        → has i [] ≡ true
    vacant zero r e = absurd (cc)
    vacant (suc zero) r e = absurd (cc)
    vacant (suc (suc zero)) r e = absurd (cc)
    vacant (suc (suc (suc zero))) r e = absurd (cc)
    vacant (suc (suc (suc (suc i)))) r e = absurd (cc)

insert-Stored_example : Stored three_shape 25 7 (Interface.insert by_one 25 7 three)
insert-Stored_example =
    insert-Stored by_one 25 7 three_shape three-IsTree three-IsValid (omega arith)

get-insert_example :
    (is_new : Bool) × (after : Guard ℕ (NoCumulant ℕ)) × (v : Option (NoCumulant ℕ))
    × (Interface.insert by_one 25 7 three ≡ done (is_new, after))
    × (Interface.get 30 after ≡ done v)
    × (map_option no_cumulant.into v
        ≡ (if is_eq (nat_ord.cmp 25 30) then some 7 else lookup 30 (contents three_shape)))
get-insert_example = get-insert by_one 25 30 7 three_shape three-IsTree three-IsValid (omega arith)

get-lookup_example :
    (v : Option (NoCumulant ℕ)) × (Interface.get 30 three ≡ done v)
    × (map_option no_cumulant.into v ≡ lookup 30 (contents three_shape))
get-lookup_example = get-lookup 30 three_shape three-IsTree

contains-has_key_example : Interface.contains 25 three ≡ done (has_key 25 (contents three_shape))
contains-has_key_example = contains-has_key 25 three_shape three-IsTree

abbrev above_high : Context ℕ (NoCumulant ℕ)
above_high = below right (cell 1 20 black (some 0) (some 2)) low top

high-Focus : Focus three above_high (fork leaf high leaf)
high-Focus = Focus-down right three-IsTree.focus

attach-Attached_example :
    Attached three left high leaf above_high (cell 3 25 red none none) (attach left 3 2 three)
unfolding get
attach-Attached_example =
    attach-Attached left high leaf above_high (cell 3 25 red none none) none high-Focus refl refl
      refl

insert_at-Placed_example :
    Placed three left high leaf above_high (cell 3 25 red none none) (insert_at left 3 2 three)
unfolding get
insert_at-Placed_example =
    insert_at-Placed left high leaf above_high (cell 3 25 red none none) none high-Focus refl refl
      refl refl three-IsTree.balanced refl refl (omega arith)

search_loop-quick_example :
    (found : SearchResult Index) × (search_loop
        (λ n. nat_ord.cmp n.key 25)
        (2 + 2)
        three.meta.root
        none
        false
        three
      ≡ done found)
    × (search three.meta.root 25 three ≡ done found)
search_loop-quick_example =
    search_loop-quick 25 low (cell 1 20 black (some 0) (some 2)) (fork leaf high leaf) 2
      three-IsTree (omega arith)

len_estimate-IsEstimate_example :
    IsEstimate (Interface.len_estimate three) (length (contents three_shape))
len_estimate-IsEstimate_example = len_estimate-IsEstimate three_shape three-IsTree (omega arith)

min_key-first_key_example :
    (Interface.min_key three ≡ done (first_key none (contents three_shape)))
    × (Interface.max_key three ≡ done (last_key none (contents three_shape)))
min_key-first_key_example = min_key-first_key three_shape three-IsTree
