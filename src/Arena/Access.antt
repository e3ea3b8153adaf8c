-- ===== src/Arena/Access.antt =====
-- How the reads of src/arena/mod.rs see a write, a removal and two indices at once.
use rb_forest.Base.{
  ◌≡◌, false, ◌==◌, none, some, List, map, if◌then◌else◌, get_elem?-set, get_elem?_ge,
  le_of_get_elem?, arith, done, ok, err, pair, any_points_to, is_some,
}
use rb_forest.Arena.{
  Arena, occupied, free, Index, Ref, index_alias, get, contains, put, remove, get_pair_mut,
  get_pair_mut_unchecked, get_mut_with,
}

module _ {T : Type 0} where
  -- After a write at `i`, that slot reads as the value if `i` was occupied, else as vacant still, and
  -- every other slot reads as before.
  pub get-put :
      (a : Arena T) (i j : Index) (v : T)
      → get (put a i v) j ≡ (if j == i then (if contains a i then some v else none) else get a j)
  unfolding get put contains
  get-put a i j v = ground (arith, get_elem?-set a.items i j (occupied v), get_elem?_ge a.items i)

  pub contains-is_some : (a : Arena T) (i : Index) → contains a i ≡ is_some (get a i)
  unfolding get contains
  contains-is_some a i = ground arith

  -- `remove` returns the value of the slot, and afterwards the slot reads as vacant, every other as
  -- before.
  pub remove_lem :
      (a : Arena T) (i : Index)
      → ((remove a i).0 ≡ get a i)
        × ((j : Index) → get (remove a i).1 j ≡ (if j == i then none else get a j))
  unfolding get remove
  remove_lem a i = (
    ground arith,
    λ j. ground (arith, get_elem?-set a.items i j (free a.head), get_elem?_ge a.items i),
  )

  -- For two different indices, in bounds or not, `get_pair_mut` is two independent reads and never
  -- undefined; for equal ones it is the alias error.
  pub get_pair_mut_lem :
      (a : Arena T) (i j : Index)
      → get_pair_mut a i j
        ≡ (if i == j then done (err index_alias) else done (ok (pair (get a i) (get a j))))
  unfolding get get_pair_mut get_pair_mut_unchecked
  get_pair_mut_lem a i j = ground (
    arith,
    get_elem?_ge a.items i,
    get_elem?_ge a.items j,
    le_of_get_elem? a.items i,
    le_of_get_elem? a.items j,
  )

  -- `get_mut_with` at an occupied index that is not among the others is defined and reads that slot
  -- and, of the others, each that is given.
  pub get_mut_with_lem :
      (a : Arena T) (i : Index) (others : List Ref) (v : T)
      → get a i ≡ some v
      → any_points_to others i ≡ false
      → get_mut_with a i others
        ≡ done (ok (some v, map (λ r. elim r [ none ↦ none | some j ↦ get a j ]) others))
  unfolding get get_mut_with
  get_mut_with_lem a i others v e apart = ground arith
