-- ===== src/Tests/Builds.antt =====
-- The theorems on building a tree from a sorted slice, in an arena that holds another tree already.
use rb_forest.Base.{ℕ, ◌≡◌, refl, List, [], ◌∷◌, done, right, arith}
use rb_forest.Order.{nat_ord}
use rb_forest.Node.{NoCumulant, no_cumulant}
use rb_forest.Guard.{Guard, default_bounds}
use rb_forest.Iter.{Ends, iter, collect}
use rb_forest.Iter.InOrder.{in_order}
use rb_forest.Build.{bit_length, from_sorted_slice}
use rb_forest.Build.Raise.{stored}
use rb_forest.Build.Sorted.{IsIncreasing, Sorted, from_sorted_slice-Sorted}
use rb_forest.Build.Recall.{collect-from_sorted_slice}
use rb_forest.Tests.{by_one}
use rb_forest.Tests.Maps.{three, three-IsValid}

abbrev beside : Guard ℕ (NoCumulant ℕ)
beside = record three { meta = default_bounds }

abbrev squares : List (ℕ × ℕ)
squares = (1, 1) ∷ (2, 4) ∷ (3, 9) ∷ (4, 16) ∷ (5, 25) ∷ []

squares-IsIncreasing : IsIncreasing squares
unfolding nat_ord
squares-IsIncreasing = (
  (refl, (refl, (refl, (refl, tt)))),
  ((refl, (refl, (refl, tt))), ((refl, (refl, tt)), ((refl, tt), (tt, tt)))),
)

bit_length-five : bit_length 5 5 ≡ 3
unfolding bit_length
bit_length-five = refl

from_sorted_slice-Sorted_example : Sorted beside squares (from_sorted_slice by_one squares beside)
from_sorted_slice-Sorted_example =
    from_sorted_slice-Sorted by_one squares beside three-IsValid refl squares-IsIncreasing
      (omega (arith, bit_length-five))

collect-from_sorted_slice_example :
    (after : Guard ℕ (NoCumulant ℕ)) × (ends : Ends) × (from_sorted_slice by_one squares beside
      ≡ done (tt, after))
    × (iter after ≡ done ends)
    × (collect right 6 ends after ≡ done (in_order right (stored (NoCumulant ℕ) squares)))
collect-from_sorted_slice_example =
    collect-from_sorted_slice by_one squares beside right 6 three-IsValid refl squares-IsIncreasing
      (omega (arith, bit_length-five)) (omega arith)
