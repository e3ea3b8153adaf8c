-- ===== src/Interface.antt =====
-- The operations of src/tree/interface.rs on one tree through its guards.
pub mod Access
pub mod Clear
use Prim.Native.Nat.{Ordering}
use rb_forest.Base.{
  ℕ, zero, suc, ◌+◌, ◌-◌, ◌*◌, ◌^◌, ◌%◌, Bool, true, false, ◌&&◌, Option, none, some, if◌then◌else◌,
  done, out_of_fuel, and_then, unwrap, Result, ok, err, pair, left, right, ref_eq, is_some, not,
}
use rb_forest.Order.{Ord}
use rb_forest.Arena.{Growth}
use rb_forest.Node.{NodeIndex, NodeRef, red, black, new_node, clear_node, Value}
use rb_forest.Guard.{
  Guard, Bounds, Query, Cmd, pure, lift, outcome, ◌>>=◌, ◌>>◌, node, node_at, modify, modify_meta,
  alloc_insert, alloc_remove, rounds,
}
use rb_forest.Tree.Search.{
  SearchResult, empty, left_of, here, right_of, search, search_by, is_here, into_here,
}
use rb_forest.Tree.Insert.{insert_at}
use rb_forest.Tree.Remove.{remove_at}

-- `Error` of src/tree/mod.rs
pub data TreeError : Type 0 where
  duplicate_key key_alias overlapping : TreeError

pub data LenEstimate : Type 0 where
  no_node one_node : LenEstimate
  more : ℕ → LenEstimate

-- `(1 << (h + 1)) - 1` on a 64-bit `usize`: the shift takes its distance modulo 64.
abbrev pub upper_bound : ℕ → ℕ
upper_bound bh = 2 ^ ((bh * 2 ^ 2 + 1) % 64) - 1

-- The metadata of a tree whose only node is `p`.
abbrev pub only : NodeIndex → Bounds → Bounds
only p b = record b { root = some p; range = pair (some p) (some p); black_height = 1 }

module _ {K V : Type 0} where
  unfoldable pub is_empty : Guard K V → Bool
  is_empty s = not (is_some s.meta.root)

  unfoldable pub is_single : Guard K V → Bool
  is_single s = is_some s.meta.range.at0 && ref_eq s.meta.range.at0 s.meta.range.at1

  unfoldable pub len_estimate : Guard K V → LenEstimate
  len_estimate s = elim s.meta.range.at0 [
    | none ↦ elim s.meta.range.at1 [
      | none ↦ no_node
      | some _ ↦ more (upper_bound s.meta.black_height)
    ]
    | some min ↦
        if ref_eq (some min) s.meta.range.at1
        then one_node
        else more (upper_bound s.meta.black_height)
  ]

  abbrev key_of : NodeRef → Query K V (Option K)
  key_of none s = done none
  key_of (some p) s = and_then (node_at p s) λ n. done (some n.key)

  unfoldable pub min_key : Query K V (Option K)
  min_key s = key_of s.meta.range.at0 s

  unfoldable pub max_key : Query K V (Option K)
  max_key s = key_of s.meta.range.at1 s

  -- Frees the nodes from `ptr` on, in order.
  unfoldable pub clear_loop : ℕ → NodeRef → Cmd K V (Unit {0})
  clear_loop fuel none = pure tt
  clear_loop zero (some index) = λ _. out_of_fuel
  clear_loop (suc fuel) (some index) = do
    n ← node index
    alloc_remove index
    clear_loop fuel n.order.at1

  -- The black height is left as it was.
  unfoldable pub clear : Cmd K V (Unit {0})
  clear s =
      (clear_loop (rounds s) s.meta.range.at0
          >> modify_meta (λ b. record b { root = none; range = pair none none }))
        s

module _ {K V : Type 0} ⦃o : Ord K⦄ ⦃val : Value V⦄ where
  abbrev find : K → Cmd K V (SearchResult NodeIndex)
  find key s = lift (search s.meta.root key) s

  unfoldable pub get : K → Query K V (Option V)
  get key s = and_then (search s.meta.root key s) λ r. elim (into_here r) [
    | none ↦ done none
    | some p ↦ and_then (node_at p s) λ n. done (some n.value)
  ]

  unfoldable pub contains : K → Query K V Bool
  contains key s = and_then (search s.meta.root key s) λ r. done (is_here r)

  unfoldable pub search_keys : (K → V → Ordering) → Query K V (SearchResult NodeIndex)
  search_keys compare s = search_by s.meta.root (λ n. compare n.key n.value) s

  unfoldable pub cumulant : Query K V (Option val.Cumulant)
  cumulant s = elim s.meta.root [
    | none ↦ done none
    | some root ↦ and_then (node_at root s) λ n. done (some (val.cumulant n.value))
  ]

  abbrev pub refresh_leaf : NodeIndex → Cmd K V (Unit {0})
  refresh_leaf p =
      if val.has_cumulant
      then modify p (λ m. record m { value = val.update_cumulant (pair none none) m.value })
      else pure tt

  -- `TreeAllocGuard::insert`: true if the key is new; the value of a present key is replaced.
  unfoldable pub insert : Growth → K → val.Local → Cmd K V Bool
  insert g key local = find key >>= elim [
    | here p ↦ modify p (λ m. record m { value = val.new local }) >> pure false
    | empty ↦ do
      p ← alloc_insert g (new_node key (val.new local) black)
      modify_meta (only p)
      refresh_leaf p
      pure true
    | left_of parent ↦ do
      p ← alloc_insert g (new_node key (val.new local) red)
      insert_at left p parent
      pure true
    | right_of parent ↦ do
      p ← alloc_insert g (new_node key (val.new local) red)
      insert_at right p parent
      pure true
  ]

  -- `TreeAllocGuard::remove`
  unfoldable pub remove : K → Cmd K V (Option val.Local)
  remove key = find key >>= elim [
    | here p ↦ do
      p' ← remove_at p
      found ← alloc_remove p'
      n ← outcome (unwrap found)
      pure (some (val.into n.value))
    | _ ↦ pure none
  ]

  -- A node that is in no tree moves into this one.
  unfoldable pub insert_node : NodeIndex → Cmd K V (Result (Unit {0}) TreeError)
  insert_node p = node p >>= λ n. find n.key >>= elim [
    | here _ ↦ pure (err duplicate_key)
    | empty ↦ do modify_meta (only p); modify p (clear_node black); refresh_leaf p; pure (ok tt)
    | left_of parent ↦ do modify p (clear_node red); insert_at left p parent; pure (ok tt)
    | right_of parent ↦ do modify p (clear_node red); insert_at right p parent; pure (ok tt)
  ]
