-- ===== src/Iter.antt =====
-- The iterators of src/tree/iter.rs that follow the order links.
pub mod Walk
pub mod InOrder
pub mod Loop
pub mod Revalue
pub mod Drop
pub mod Change
pub mod Drain
use rb_forest.Tree.{update_cumulants}
use rb_forest.Base.{
  ℕ, zero, suc, Option, none, some, List, [], ◌∷◌, if◌then◌else◌, Bool, true, false, done,
  out_of_fuel, and_then, unwrap, Pair, pair, at, put_at, Side, left, right, other, ref_eq,
}
use rb_forest.Order.{Ord}
use rb_forest.Tree.Search.{closest}
use rb_forest.Node.{NodeIndex, NodeRef, Node, Value}
use rb_forest.Guard.{
  Query, Cmd, pure, outcome, ◌>>=◌, ◌>>◌, node_at, meta, lift, modify, modify_meta, alloc_remove,
}

-- The ends `front` and `back` of `Iter` and of `IterMut`.
abbrev pub Ends : Type 0
Ends = Pair NodeRef

module _ {K V : Type 0} ⦃val : Value V⦄ where
  -- The pair of the key and the local data, which is what the references read.
  abbrev pub item : Node K V → K × val.Local
  item n = (n.key, val.into n.value)

  -- `next` for the left side, `next_back` for the right.
  unfoldable pub advance : Side → Ends → Query K V (Option (K × val.Local) × Ends)
  advance i ends s = elim (at ends i) [
    | none ↦ done (none, ends)
    | some current ↦ and_then (node_at current s) λ n. done (
      some (item n),
      if ref_eq (at ends left) (at ends right)
          then pair none none
          else put_at ends i (at n.order (other i)),
    )
  ]

  -- `iter`, and `into_iter` of a reference to a guard
  unfoldable pub iter : Query K V Ends
  iter s = done s.meta.range

  unfoldable pub iter_mut : Query K V Ends
  iter_mut s = done s.meta.range

  -- What a loop over the iterator, or over its reverse, sees.
  unfoldable pub collect : Side → ℕ → Ends → Query K V (List (K × val.Local))
  collect i zero ends s = out_of_fuel
  collect i (suc fuel) ends s = and_then (advance i ends s) λ (x, ends'). elim x [
    | none ↦ done []
    | some y ↦ and_then (collect i fuel ends' s) λ ys. done (y ∷ ys)
  ]

  -- `IntoIter`: each step frees the node.
  unfoldable pub advance_into : Side → Cmd K V (Option (K × val.Local))
  advance_into i = meta >>= λ m. elim (at m.range i) [
    | none ↦ pure none
    | some index ↦ do
      found ← alloc_remove index
      n ← outcome (unwrap found)
      far ← outcome (unwrap (at m.range (other i)))
      modify_meta (λ b. record b {
        range =
            if ref_eq (some far) (some index)
            then pair none none
            else put_at b.range i (at n.order (other i));
      })
      pure (some (item n))
  ]

  -- What a loop over `IntoIter`, or over its reverse, sees.
  unfoldable pub collect_into : Side → ℕ → Cmd K V (List (K × val.Local))
  collect_into i zero = λ _. out_of_fuel
  collect_into i (suc fuel) = advance_into i >>= λ x. elim x [
    | none ↦ pure []
    | some y ↦ collect_into i fuel >>= λ ys. pure (y ∷ ys)
  ]

  abbrev pub update_root : NodeRef → Cmd K V (Unit {0})
  update_root none = pure tt
  update_root (some root) = update_cumulants root

  -- The drop of `IterMut` and of `FilterMut`.
  unfoldable pub drop_mut : Cmd K V (Unit {0})
  drop_mut = if val.has_cumulant then (meta >>= λ m. update_root m.root) else pure tt

  -- `next` and `next_back` of `IterMut`: the node that the reference is into.
  unfoldable pub advance_mut : Side → Ends → Query K V (Option NodeIndex × Ends)
  advance_mut i ends s = elim (at ends i) [
    | none ↦ done (none, ends)
    | some current ↦ and_then (node_at current s) λ n. done (
      some current,
      if ref_eq (at ends left) (at ends right)
          then pair none none
          else put_at ends i (at n.order (other i)),
    )
  ]

  -- What is written through the reference: a change of the local data, which may depend on the key.
  abbrev pub change_node : (K → val.Local → val.Local) → Node K V → Node K V
  change_node f m = record m { value = val.change (f m.key) m.value }

  -- A loop over `iter_mut`, or over its reverse, that changes what each reference is to, and then
  -- drops the iterator.
  unfoldable pub change_all : Side → (K → val.Local → val.Local) → ℕ → Ends → Cmd K V (Unit {0})
  change_all i f zero ends = λ _. out_of_fuel
  change_all i f (suc fuel) ends = lift (advance_mut i ends) >>= λ (x, ends'). elim x [
    | none ↦ drop_mut
    | some p ↦ modify p (change_node f) >> change_all i f fuel ends'
  ]

abbrev or_else : NodeRef → NodeRef → NodeRef
or_else none d = d
or_else (some p) d = some p

module _ {K V : Type 0} ⦃o : Ord K⦄ where
  unfoldable pub iter_range : (li ri : Bool) → (min max : K) → Query K V Ends
  iter_range li ri min max s = and_then (closest left li s.meta.root min s) λ front.
      and_then (closest right ri s.meta.root max s)
        λ back. done (pair (or_else front s.meta.range.at0) (or_else back s.meta.range.at1))

  unfoldable pub iter_range_mut : (li ri : Bool) → (min max : K) → Query K V Ends
  unfolding iter_range
  iter_range_mut = iter_range
