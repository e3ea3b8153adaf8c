-- ===== src/Forest/Union.antt =====
-- `union_disjoint` of src/tree/interface.rs.
use rb_forest.Base.{
  Bool, true, false, Option, none, some, Result, ok, err, Outcome, done, unwrap, unwrap_unchecked,
  undefined, if◌then◌else◌,
}
use rb_forest.Order.{Ord, is_lt}
use rb_forest.Node.{NodeIndex, Value}
use rb_forest.Guard.{Bounds}
use rb_forest.Interface.{
  TreeError, overlapping, LenEstimate, no_node, one_node, more, len_estimate, insert_node, min_key,
  max_key,
}
use rb_forest.Tree.Remove.{remove_at}
use rb_forest.Forest.{Forest, pure, outcome, on, reading, ◌>>=◌}
use rb_forest.Forest.Join.{join}

-- One tree, or the two with an error.
abbrev pub Union : Type 0 → Type 0 → Type 0
Union K V = Forest K V (Result Bounds ((Bounds × Bounds) × TreeError))

-- `Result::unwrap_unchecked`
abbrev pub assume_ok {ℓ κ} : {A : Type ℓ} {E : Type κ} → Result A E → Outcome A
assume_ok (ok x) = done x
assume_ok (err e) = undefined

module _ {K : Type 0} ⦃o : Ord K⦄ where
  -- `a < b` on `Option<&K>`
  abbrev less : Option K → Option K → Bool
  less none none = false
  less none (some b) = true
  less (some a) none = false
  less (some a) (some b) = is_lt (o.cmp a b)

module _ {K V : Type 0} ⦃o : Ord K⦄ ⦃val : Value V⦄ where
  -- A tree with one node is moved into the other.
  abbrev absorb : (single tree : Bounds) → Union K V
  absorb single tree = do
    root ← outcome (unwrap single.root)
    (r, tree') ← on tree (insert_node root)
    _ ← outcome (assume_ok r)
    pure (ok tree')

  -- The node of the first tree that is next to the second.
  abbrev pivot_of : (this that : Bounds) → Forest K V (Option NodeIndex)
  pivot_of this that = do
    this_min ← reading this min_key
    that_min ← reading that min_key
    if less this_min that_min
        then (do
          this_max ← reading this max_key
          if less this_max that_min
              then (outcome (unwrap_unchecked this.range.at1) >>= λ p. pure (some p))
              else pure none)
        else do
          that_max ← reading that max_key
          if less that_max this_min
              then (outcome (unwrap_unchecked this.range.at0) >>= λ p. pure (some p))
              else pure none

  unfoldable pub union_many : (this that : Bounds) → Union K V
  union_many this that = pivot_of this that >>= elim [
    | none ↦ pure (err ((this, that), overlapping))
    | some p ↦ do
      (pivot, this') ← on this (remove_at p)
      r ← join this' pivot that
      tree ← outcome (assume_ok r)
      pure (ok tree)
  ]

  abbrev estimate : Bounds → Forest K V LenEstimate
  estimate tree = reading tree (λ s. done (len_estimate s))

  unfoldable pub union_disjoint : (this that : Bounds) → Union K V
  union_disjoint this that = estimate this >>= elim [
    | no_node ↦ pure (ok that)
    | one_node ↦ absorb this that
    | more _ ↦ estimate that >>= elim [
      | no_node ↦ pure (ok this)
      | one_node ↦ absorb that this
      | more _ ↦ union_many this that
    ]
  ]
