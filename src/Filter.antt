-- ===== src/Filter.antt =====
-- `SearchAction`, `Filter` and `FilterMut` of src/tree/iter.rs.
pub mod Action
pub mod Pruned
pub mod Find
use Prim.Native.Nat.{Ordering}
use Prim.Native.Nat.Ordering.{lt, eq, gt}
use rb_forest.Base.{
  ℕ, zero, suc, ◌+◌, ◌*◌, ◌/◌, ◌%◌, ◌==◌, Bool, true, false, not, Option, none, some, List, [], ◌∷◌,
  if◌then◌else◌, Outcome, done, undefined, out_of_fuel, and_then,
}
use rb_forest.Node.{NodeIndex, NodeRef, Node, Value}
use rb_forest.Guard.{Guard, Query, Cmd, pure, lift, ◌>>=◌, ◌>>◌, node_at, meta, modify}
use rb_forest.Tree.{update_cumulants}
use rb_forest.Iter.{item, change_node, drop_mut}

pub data SearchAction : Type 0 where
  neither only_left only_right both : SearchAction
  match_and_neither match_and_left match_and_right match_and_both : SearchAction

-- The discriminant, and the action that has it: `transmute` from a `u8`.
abbrev pub code : SearchAction → ℕ
code neither = 0
code only_left = 1
code only_right = 2
code both = 3
code match_and_neither = 4
code match_and_left = 5
code match_and_right = 6
code match_and_both = 7

abbrev pub of_code : ℕ → Outcome SearchAction
of_code n =
    if n == 0
    then done neither
    else if n == 1
    then done only_left
    else if n == 2
    then done only_right
    else if n == 3
    then done both
    else if n == 4
    then done match_and_neither
    else if n == 5
    then done match_and_left
    else if n == 6
    then done match_and_right
    else if n == 7
    then done match_and_both
    else undefined

-- `b as u8`
abbrev pub bit : Bool → ℕ
bit false = 0
bit true = 1

-- `SearchAction::new`
unfoldable pub new_action : (search_left search_right is_match : Bool) → Outcome SearchAction
new_action l r m = of_code (bit l + bit r * 2 + bit m * 4)

-- `& 0x01`, `& 0x02`, `& 0x04`
abbrev pub search_left : SearchAction → Bool
search_left a = not (code a % 2 == 0)

abbrev pub search_right : SearchAction → Bool
search_right a = not (code a / 2 % 2 == 0)

abbrev pub is_match : SearchAction → Bool
is_match a = not (code a / 4 % 2 == 0)

abbrev pub from_bool : Bool → SearchAction
from_bool true = match_and_both
from_bool false = both

abbrev pub from_ordering : Ordering → SearchAction
from_ordering lt = only_right
from_ordering eq = match_and_both
from_ordering gt = only_left

-- The stack of a filter: its head is the back of the deque.
abbrev pub push_if : Bool → NodeRef → List NodeIndex → List NodeIndex
push_if true (some p) stack = p ∷ stack
push_if true none stack = stack
push_if false r stack = stack

module _ {K V : Type 0} ⦃val : Value V⦄ where
  -- `Filter::step`: none at the end, and else the node if it matches.
  unfoldable pub filter_step :
      (K → val.Local → SearchAction)
      → List NodeIndex
      → Query K V (Option (Option (NodeIndex × Node K V)) × List NodeIndex)
  filter_step action [] s = done (none, [])
  filter_step action (p ∷ stack) s = and_then (node_at p s) λ n.
      let a = action n.key (val.into n.value) in
      done (
        some (if is_match a then some (p, n) else none),
        push_if (search_right a) n.children.at1 (push_if (search_left a) n.children.at0 stack),
      )

  -- `next`: steps until a match.
  unfoldable pub filter_next :
      (K → val.Local → SearchAction)
      → ℕ
      → List NodeIndex
      → Query K V (Option (NodeIndex × Node K V) × List NodeIndex)
  filter_next action zero stack s = out_of_fuel
  filter_next action (suc fuel) stack s = and_then (filter_step action stack s) λ (x, rest).
      elim x [
        | none ↦ done (none, rest)
        | some found ↦ elim found [
          | some y ↦ done (some y, rest)
          | none ↦ filter_next action fuel rest s
        ]
      ]

  -- The stack that the filter starts with.
  unfoldable pub filter : Query K V (List NodeIndex)
  filter s = done (elim s.meta.root [ none ↦ [] | some root ↦ root ∷ [] ])

  -- What a loop over the iterator sees.
  unfoldable pub collect_filter :
      (K → val.Local → SearchAction) → ℕ → ℕ → List NodeIndex → Query K V (List (K × val.Local))
  collect_filter action fuel zero stack s = out_of_fuel
  collect_filter action fuel (suc more) stack s =
      and_then (filter_next action fuel stack s) λ (x, rest). elim x [
        | none ↦ done []
        | some (p, n) ↦ and_then (collect_filter action fuel more rest s) λ ys. done (item n ∷ ys)
      ]

  -- The same of `FilterMut`, with the node that the reference is into.
  unfoldable pub filter_mut_step :
      (K → val.Local → SearchAction)
      → List NodeIndex
      → Query K V (Option (Option (NodeIndex × Node K V)) × List NodeIndex)
  unfolding filter_step
  filter_mut_step = filter_step

  unfoldable pub filter_mut_next :
      (K → val.Local → SearchAction)
      → ℕ
      → List NodeIndex
      → Query K V (Option (NodeIndex × Node K V) × List NodeIndex)
  unfolding filter_next
  filter_mut_next = filter_next

  unfoldable pub filter_mut : Query K V (List NodeIndex)
  unfolding filter
  filter_mut = filter

  -- A loop over `filter_mut` that changes what each reference is to.
  unfoldable pub filter_mut_loop :
      (K → val.Local → SearchAction)
      → (K → val.Local → val.Local)
      → ℕ
      → ℕ
      → List NodeIndex
      → Cmd K V (Unit {0})
  filter_mut_loop action f fuel zero stack = λ _. out_of_fuel
  filter_mut_loop action f fuel (suc more) stack =
      lift (filter_mut_next action fuel stack) >>= λ (x, rest). elim x [
        | none ↦ drop_mut
        | some (p, n) ↦ do modify p (change_node f); filter_mut_loop action f fuel more rest
      ]
