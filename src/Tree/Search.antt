-- ===== src/Tree/Search.antt =====
-- Searching in src/tree/mod.rs: `SearchResult`, `search_by`, `search`, `limit`, `closest`.
use Prim.Native.Nat.{Ordering}
use Prim.Native.Nat.Ordering.{lt, eq, gt}
use rb_forest.Base.{
  ℕ, zero, suc, Bool, true, false, Option, none, some, if◌then◌else◌, done, out_of_fuel, and_then,
  unwrap_unchecked, Side, left, right, at,
}
use rb_forest.Order.{Ord}
use rb_forest.Node.{NodeIndex, NodeRef, Node}
use rb_forest.Guard.{Query, node_at, rounds}
use rb_forest.Guard.Query.{pure, ◌>>=◌}

pub data SearchResult (T : Type 0) : Type 0 where
  empty : SearchResult T
  left_of : T → SearchResult T
  here : T → SearchResult T
  right_of : T → SearchResult T

module _ {T : Type 0} where
  unfoldable pub into_here : SearchResult T → Option T
  into_here (here v) = some v
  into_here _ = none

  unfoldable pub is_here : SearchResult T → Bool
  is_here (here v) = true
  is_here _ = false

  unfoldable pub map_result : {R : Type 0} → (T → R) → SearchResult T → SearchResult R
  map_result f empty = empty
  map_result f (left_of v) = left_of (f v)
  map_result f (here v) = here (f v)
  map_result f (right_of v) = right_of (f v)

module _ {K V : Type 0} where
  -- The descent of `search_by`: the current node, the last one, and on which side of it we are.
  unfoldable pub search_loop :
      (Node K V → Ordering)
      → ℕ
      → (ptr parent : NodeRef) → (is_left : Bool) → Query K V (SearchResult NodeIndex)
  search_loop compare fuel none parent is_left s =
      and_then (unwrap_unchecked parent) λ p. done (if is_left then left_of p else right_of p)
  search_loop compare zero (some index) parent is_left s = out_of_fuel
  search_loop compare (suc fuel) (some index) parent is_left s = and_then (node_at index s) λ n.
      elim (compare n) [
        | gt ↦ search_loop compare fuel n.children.at0 (some index) true s
        | eq ↦ done (here index)
        | lt ↦ search_loop compare fuel n.children.at1 (some index) false s
      ]

  unfoldable pub search_between :
      NodeRef → (Node K V → Ordering) → (min max : NodeIndex) → Query K V (SearchResult NodeIndex)
  search_between ptr compare min max s = and_then (node_at min s) λ m. elim (compare m) [
    | gt ↦ done (left_of min)
    | eq ↦ done (here min)
    | lt ↦ and_then (node_at max s) λ n. elim (compare n) [
      | lt ↦ done (right_of max)
      | eq ↦ done (here max)
      | gt ↦ search_loop compare (rounds s) ptr none false s
    ]
  ]

  unfoldable pub search_by : NodeRef → (Node K V → Ordering) → Query K V (SearchResult NodeIndex)
  unfolding search_between search_loop
  search_by ptr compare s = elim s.meta.range.at0 [
    | none ↦ done empty
    | some min ↦ elim s.meta.range.at1 [
      | none ↦ done empty
      | some max ↦ search_between ptr compare min max s
    ]
  ]

  unfoldable pub limit_loop : Side → ℕ → NodeIndex → Query K V NodeIndex
  limit_loop i zero ptr s = out_of_fuel
  limit_loop i (suc fuel) ptr s =
      and_then (node_at ptr s)
        λ n. elim (at n.children i) [ none ↦ done ptr | some next ↦ limit_loop i fuel next s ]

  -- The lowest or the highest node below `ptr`.
  unfoldable pub limit : Side → NodeIndex → Query K V NodeIndex
  unfolding limit_loop
  limit i ptr s = limit_loop i (rounds s) ptr s

module _ {K V : Type 0} ⦃o : Ord K⦄ where
  unfoldable pub search : NodeRef → K → Query K V (SearchResult NodeIndex)
  unfolding search_by
  search ptr key = search_by ptr λ n. o.cmp n.key key

  abbrev order_at : NodeIndex → Side → Query K V NodeRef
  order_at p i = do n ← node_at p; pure (at n.order i)

  unfoldable pub closest : Side → (inclusive : Bool) → NodeRef → K → Query K V NodeRef
  unfolding search
  closest i inclusive ptr key = search ptr key >>= elim [
    | empty ↦ pure none
    | here n ↦ if inclusive then order_at n i else pure (some n)
    | left_of n ↦ elim i [ left ↦ pure (some n) | right ↦ order_at n right ]
    | right_of n ↦ elim i [ right ↦ pure (some n) | left ↦ order_at n left ]
  ]
