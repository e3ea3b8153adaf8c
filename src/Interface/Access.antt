-- ===== src/Interface/Access.antt =====
-- The mutable access by key of src/tree/interface.rs: which nodes the references that it returns are to,
-- and their values then. What dropping a `ValueMut` does is left out.
use rb_forest.Base.{
  Bool, false, ◌||◌, Option, none, some, List, [], ◌∷◌, map, Result, ok, err, Pair, pair, done,
  and_then, if◌then◌else◌,
}
use rb_forest.Arena
use rb_forest.Order.{Ord, is_eq}
use rb_forest.Node.{NodeIndex, NodeRef, Node, Value}
use rb_forest.Guard.{Query, node_at, unwrap_ok}
use rb_forest.Guard.Query.{pure, ◌>>=◌}
use rb_forest.Tree.{map_option}
use rb_forest.Tree.Search.{search, into_here}
use rb_forest.Interface.{TreeError, key_alias, get}

-- `ValueMut`: the value that it refers to, and its node.
pub record ValueMut (V : Type 0) : Type 0 where
  pub value : V
  pub ptr : NodeIndex

module _ {K V : Type 0} where
  abbrev pub value_get_mut : Node K V → NodeIndex → ValueMut V
  value_get_mut n p = record { value = n.value; ptr = p }

  abbrev at_index : NodeIndex → Query K V (ValueMut V)
  at_index p = node_at p >>= λ n. pure (value_get_mut n p)

  -- The values at the results of two searches.
  unfoldable pub get_pair_at : (a b : NodeRef) → Query K V (Pair (Option (ValueMut V)))
  get_pair_at (some a) (some b) s = and_then (Arena.get_pair_mut s.arena a b) λ r.
      and_then (unwrap_ok r) λ nodes. done (
        pair (map_option (λ n. value_get_mut n a) nodes.at0)
          (map_option (λ n. value_get_mut n b) nodes.at1))
  get_pair_at (some a) none s = and_then (at_index a s) λ x. done (pair (some x) none)
  get_pair_at none (some b) s = and_then (at_index b s) λ x. done (pair none (some x))
  get_pair_at none none s = done (pair none none)

module _ {K : Type 0} ⦃o : Ord K⦄ where
  abbrev has_alias : K → List (Option K) → Bool
  has_alias key [] = false
  has_alias key (none ∷ others) = has_alias key others
  has_alias key (some k ∷ others) = is_eq (o.cmp k key) || has_alias key others

module _ {K V : Type 0} ⦃o : Ord K⦄ where
  abbrev pub find_ref : K → Query K V NodeRef
  find_ref key s = and_then (search s.meta.root key s) λ r. done (into_here r)

  unfoldable pub get_mut : K → Query K V (Option (ValueMut V))
  get_mut key =
      find_ref key >>= λ r. elim r [ none ↦ pure none | some p ↦ at_index p >>= λ x. pure (some x) ]

  unfoldable pub get_pair_mut :
      (a b : K) → Query K V (Result (Pair (Option (ValueMut V))) TreeError)
  get_pair_mut a b =
      if is_eq (o.cmp a b)
      then pure (err key_alias)
      else do x ← find_ref a; y ← find_ref b; values ← get_pair_at x y; pure (ok values)

  abbrev find_refs : List (Option K) → Query K V (List NodeRef)
  find_refs [] = pure []
  find_refs (none ∷ others) = find_refs others >>= λ rest. pure (none ∷ rest)
  find_refs (some k ∷ others) = do r ← find_ref k; rest ← find_refs others; pure (r ∷ rest)

module _ {K V : Type 0} ⦃o : Ord K⦄ ⦃val : Value V⦄ where
  abbrev get_all : List (Option K) → Query K V (List (Option V))
  get_all [] = pure []
  get_all (none ∷ others) = get_all others >>= λ rest. pure (none ∷ rest)
  get_all (some k ∷ others) = do v ← get k; rest ← get_all others; pure (v ∷ rest)

  unfoldable pub get_mut_with :
      K
      → (others : List (Option K))
      → Query K V (Result (Option (ValueMut V) × List (Option V)) TreeError)
  get_mut_with key others = if has_alias key others then pure (err key_alias) else do
    r ← find_ref key
    elim r [
      | some x ↦ do
        refs ← find_refs others
        nodes ← λ s. and_then (Arena.get_mut_with s.arena x refs) unwrap_ok
        pure (
            ok (
              map_option (λ n. value_get_mut n x) nodes.0,
              map (map_option (λ (n : Node K V). n.value)) nodes.1,
            ))
      | none ↦ get_all others >>= λ values. pure (ok (none, values))
    ]
