-- ===== src/Tests.antt =====
-- Runs of the model on concrete trees, after src/test/simple.rs, and the theorems at concrete inputs.
pub mod Maps
pub mod Forests
pub mod Visits
pub mod Builds
pub mod Changes
pub mod Removals
use rb_forest.Base.{
  ℕ, zero, suc, ◌+◌, ◌≤◌, ◌≡◌, ◌==◌, refl, if◌then◌else◌, map, ok, err, get_elem?, true, Option,
  none, some, List, [], ◌∷◌, ◌++◌, done, undefined, pair, left, right, arith,
}
use rb_forest.Order.{nat_ord}
use rb_forest.Arena.{
  Arena, Growth, occupied, free, new, Index, get, put, remove, insert, contains, index_alias,
  get_pair_mut, get_mut_with, insert_within_capacity, is_full, reserve,
}
use rb_forest.Arena.FreeList.{
  has, IsValid, end, link, Inserted, insert-Inserted, remove-IsValid, insert-remove,
}
use rb_forest.Node.{
  Node, Color, red, black, NoCumulant, no_cumulant, Value, WithCumulant, with_cumulant, new_node,
}
use rb_forest.Arena.Access.{remove_lem, get-put, get_pair_mut_lem, get_mut_with_lem}
use rb_forest.Guard.Laws.{view, Written}
use rb_forest.Cursor.{remove_child}
use rb_forest.Cursor.Dangling.{remove_child-dangling}
use rb_forest.Guard.{rounds, Guard, default_bounds, Cmd, pure, ◌>>=◌, node_at, modify}
use rb_forest.Interface
use rb_forest.Tree.{rotate, replace, update_cumulant, propagate_cumulant}
use rb_forest.Propagation.{Propagated, propagate_cumulant-Propagated}
use rb_forest.Tree.Insert.{
  fix_insert, fix_insert_round, fix_insert_loop, fix_insert_step, recolor, rotate_up, raise_parent,
  blacken_root, insert_at, attach, link_far,
}
use rb_forest.Shape.{Cell, Shape, leaf, fork, Context, top, below, plug, Focus, node_of}
use rb_forest.Shape.Balance.{depth}
use rb_forest.Shape.Cumulant.{update_cumulant-Written}
use rb_forest.Shape.Rounds.{depth-rounds}
use rb_forest.Shape.Zipper.{Turned, rotate-Turned, Focus-up}
use rb_forest.Tree.Search.{search, search_by, search_between, search_loop, empty, into_here}
use rb_forest.Lookup.{descend, scan, cells}
use rb_forest.Iter.{collect}
use rb_forest.Iter.Walk.{IsStrung, collect-items}
use rb_forest.Lookup.Find.{search-scan}
use rb_forest.Shape.Replace.{Replaced, replace-Replaced}
use rb_forest.Insertion.{Climbed}
use rb_forest.Insertion.Round.{fix_insert_round-Climbed}
use rb_forest.Insertion.Fix.{Fixed, fix_insert-Fixed}

-- The vector grows by one.
abbrev by_one : Growth
by_one = record { grow = λ c n. suc n; grow-le = λ c n. omega arith }

abbrev empty_guard : Guard ℕ (NoCumulant ℕ)
empty_guard = record { arena = new; meta = default_bounds }

abbrev inserts : List ℕ → Cmd ℕ (NoCumulant ℕ) (Unit {0})
inserts [] = pure tt
inserts (x ∷ xs) = Interface.insert by_one x x >>= λ _. inserts xs

-- Three ascending keys, before the repair: a black root, a red child and its red child.
abbrev sample_node :
    ℕ → Color → Option ℕ → Option ℕ → Option ℕ → Option ℕ → Option ℕ → Node ℕ (NoCumulant ℕ)
sample_node k c p l r b a = record {
  key = k;
  value = record { local = k };
  color = c;
  parent = p;
  children = pair l r;
  order = pair b a;
}

abbrev cell : ℕ → ℕ → Color → Option ℕ → Option ℕ → Cell ℕ (NoCumulant ℕ)
cell p k c b a = record {
  here = p;
  key = k;
  value = record { local = k };
  color = c;
  order = pair b a;
}

abbrev line : Guard ℕ (NoCumulant ℕ)
line = record {
  arena = record {
    items =
        occupied (sample_node 10 black none none (some 1) none (some 1))
        ∷ occupied (sample_node 20 red (some 0) none (some 2) (some 0) (some 2))
        ∷ occupied (sample_node 30 red (some 1) none none (some 1) none)
        ∷ [];
    capacity = 3;
    head = none;
    len = 3;
  };
  meta = record { root = some 0; range = pair (some 0) (some 2); black_height = 1 };
}

abbrev lower : Shape ℕ (NoCumulant ℕ)
lower = fork leaf (cell 2 30 red (some 1) none) leaf

abbrev around : Context ℕ (NoCumulant ℕ)
around =
    below right (cell 1 20 red (some 0) (some 2)) leaf
      (below right (cell 0 10 black none (some 1)) leaf top)

line-Focus : Focus line around lower
unfolding get
line-Focus = record {
  inside = (refl, tt, tt);
  above = (refl, tt, (refl, tt, tt));
  distinct = λ p. ground arith;
  rooted = refl;
}

fix_insert-Fixed_example : Fixed line (plug around lower) (fix_insert 2 line)
fix_insert-Fixed_example =
    fix_insert-Fixed 2 lower right (cell 1 20 red (some 0) (some 2)) leaf
      (below right (cell 0 10 black none (some 1)) leaf top) line-Focus refl
      (refl, omega arith, omega arith, tt, tt) refl
      (refl, omega arith, omega arith, tt, (refl, omega arith, omega arith, tt, tt)) refl
      (omega arith)

fix_insert_round-Climbed_example :
    Climbed line around lower
      (fix_insert_round 2 1 (sample_node 20 red (some 0) none (some 2) (some 0) (some 2)) line)
fix_insert_round-Climbed_example =
    fix_insert_round-Climbed right right leaf line-Focus refl
      (refl, omega arith, omega arith, tt, tt) refl
      (refl, omega arith, omega arith, tt, (refl, omega arith, omega arith, tt, tt)) refl

rotate-Turned_example :
    Turned line left top leaf
      (cell 0 10 black none (some 1))
      leaf
      (cell 1 20 red (some 0) (some 2))
      lower
      (rotate left 0 line)
rotate-Turned_example = rotate-Turned left (Focus-up right (Focus-up right line-Focus))

replace-Replaced_example :
    Replaced line
      (below right (cell 0 10 black none (some 1)) leaf top)
      2
      (sample_node 30 red (some 1) none none (some 1) none)
      (replace 1 (some 2) line)
unfolding get
replace-Replaced_example =
    replace-Replaced line (below right (cell 0 10 black none (some 1)) leaf top) 1 2 refl refl refl
      (refl, tt, tt) (λ q. ground arith) refl refl refl

-- A node with the sum of its sub-tree, whose sum is not yet known, and its left child.
instance abbrev pub sums : Value (WithCumulant ℕ ℕ)
sums = with_cumulant 0 (λ v c. v + c.at0 + c.at1)

abbrev weighed : ℕ → ℕ → ℕ → Cell ℕ (WithCumulant ℕ ℕ)
weighed p v total = record {
  here = p;
  key = v;
  value = record { local = v; sub_tree = total };
  color = black;
  order = pair none none;
}

abbrev pair_of_nodes : Guard ℕ (WithCumulant ℕ ℕ)
pair_of_nodes = record {
  arena = record {
    items =
        occupied (node_of none (pair (some 1) none) (weighed 0 4 0))
        ∷ occupied (node_of (some 0) (pair none none) (weighed 1 3 3))
        ∷ [];
    capacity = 2;
    head = none;
    len = 2;
  };
  meta = record { root = some 0; range = pair (some 1) (some 0); black_height = 1 };
}

-- An arena with an occupied and a vacant slot.
abbrev slots : Arena ℕ
slots = record { items = occupied 5 ∷ free none ∷ []; capacity = 2; head = some 1; len = 1 }

slots-IsValid : IsValid slots
slots-IsValid = record {
  order = 1 ∷ [];
  chain = link refl refl end;
  complete = vacant;
  room = omega arith;
}
  where
    vacant :
        (i : Index) (r : Option Index)
        → get_elem? slots.items i ≡ some (free r)
        → has i (1 ∷ []) ≡ true
    vacant zero r e = absurd (cc)
    vacant (suc zero) r e = refl
    vacant (suc (suc i)) r e = absurd (cc)

insert-Inserted_example : Inserted slots 8 (insert by_one slots 8)
insert-Inserted_example = insert-Inserted by_one slots 8 slots-IsValid

remove-IsValid_example : IsValid (remove slots 0).1
remove-IsValid_example = remove-IsValid slots 0 slots-IsValid

insert-remove_example :
    insert by_one (remove slots 0).1 9 ≡ done (0, record (put slots 0 9) { len = 2 })
unfolding get
insert-remove_example = insert-remove by_one slots 0 5 9 refl

remove_lem_example :
    ((remove slots 0).0 ≡ get slots 0)
    × ((j : Index) → get (remove slots 0).1 j ≡ (if j == 0 then none else get slots j))
remove_lem_example = remove_lem slots 0

get_pair_mut_lem_example :
    get_pair_mut slots 0 1
    ≡ (if 0 == 1 then done (err index_alias) else done (ok (pair (get slots 0) (get slots 1))))
get_pair_mut_lem_example = get_pair_mut_lem slots 0 1

-- An index beyond the vector, which is not among the others, is not refused.
get_mut_with-slots : get_mut_with slots 2 (some 0 ∷ []) ≡ undefined
unfolding get get_mut_with
get_mut_with-slots = refl

abbrev line_shape : Shape ℕ (NoCumulant ℕ)
line_shape =
    fork leaf (cell 0 10 black none (some 1)) (fork leaf (cell 1 20 red (some 0) (some 2)) lower)

search-scan_example :
    (search (some 0) 20 line ≡ done (descend 20 line_shape empty))
    × (into_here (descend 20 line_shape empty) ≡ scan 20 (cells line_shape))
unfolding nat_ord
search-scan_example =
    search-scan 20 line_shape (Focus-up right (Focus-up right line-Focus)) refl
      (tt, (refl, tt, (refl, tt, tt)), tt, (tt, (refl, tt, tt), tt, (tt, tt, tt, tt)))

-- The keys of a tree with their colours, in order.
abbrev walk : ℕ → Arena (Node ℕ (NoCumulant ℕ)) → Option ℕ → List (ℕ × Color)
walk zero a r = []
walk (suc fuel) a none = []
walk (suc fuel) a (some p) = elim (get a p) [
  | none ↦ []
  | some n ↦ walk fuel a n.children.at0 ++ (n.key, n.color) ∷ walk fuel a n.children.at1
]

-- The sequence of `insert` in src/test/simple.rs, in part.
abbrev keys_after : Cmd ℕ (NoCumulant ℕ) (Unit {0}) → List (ℕ × Color)
keys_after c = elim (c empty_guard) [ done (_, s) ↦ walk 8 s.arena s.meta.root | _ ↦ [] ]

keys_after-inserts :
    keys_after (inserts (1 ∷ 7 ∷ 8 ∷ 9 ∷ [])) ≡ (1, black) ∷ (7, black) ∷ (8, black) ∷ (9, red) ∷ []
unfolding Interface.insert search search_by search_between search_loop get put insert
    insert_within_capacity is_full reserve new new_node node_at modify insert_at fix_insert
    fix_insert_loop fix_insert_round fix_insert_step recolor rotate_up raise_parent blacken_root
    rotate replace nat_ord attach link_far
keys_after-inserts = refl

line-IsStrung : IsStrung left line (cells line_shape)
unfolding get
line-IsStrung = (
  (sample_node 10 black none none (some 1) none (some 1), refl, refl, refl, refl),
  refl,
  (
    (sample_node 20 red (some 0) none (some 2) (some 0) (some 2), refl, refl, refl, refl),
    refl,
    ((sample_node 30 red (some 1) none none (some 1) none, refl, refl, refl, refl), refl, tt),
  ),
)

remove_child-dangling_example :
    (s : Guard ℕ (NoCumulant ℕ)) × (remove_child right (some 1) line
      ≡ done (some (30, record { local = 30 }), s))
    × (view s 2 ≡ none)
    × (view s 1 ≡ some (sample_node 20 red (some 0) none (some 2) (some 0) (some 2)))
unfolding get
remove_child-dangling_example =
    remove_child-dangling line right 1 2
      (sample_node 20 red (some 0) none (some 2) (some 0) (some 2))
      (sample_node 30 red (some 1) none none (some 1) none) refl refl refl refl

-- The left child's parent is the node whose sum is to be updated.
pair_of_nodes-Focus :
    Focus pair_of_nodes (below left (weighed 0 4 0) leaf top) (fork leaf (weighed 1 3 3) leaf)
unfolding get
pair_of_nodes-Focus = record {
  inside = (refl, tt, tt);
  above = (refl, tt, tt);
  distinct = λ p. ground arith;
  rooted = refl;
}

propagate_cumulant-Propagated_example :
    Propagated pair_of_nodes
      (below left (weighed 0 4 0) leaf top)
      (fork leaf (weighed 1 3 3) leaf)
      (propagate_cumulant 0 pair_of_nodes)
propagate_cumulant-Propagated_example =
    propagate_cumulant-Propagated left (weighed 0 4 0) leaf top (fork leaf (weighed 1 3 3) leaf)
      pair_of_nodes-Focus
