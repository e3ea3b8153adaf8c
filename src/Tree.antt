-- ===== src/Tree.antt =====
-- src/tree/mod.rs: the cumulants, the two pointer updates that every operation is made of, and the
-- children for searching, insertion, removal and joining.
pub mod Search
pub mod Insert
pub mod Remove
pub mod Join
pub mod Split
use rb_forest.Base.{
  ℕ, zero, suc, Bool, true, false, Option, none, some, List, [], ◌∷◌, if◌then◌else◌, out_of_fuel,
  and_then, unwrap, panic, Pair, pair, at, put_at, Side, left, right, other, points_to,
}
use rb_forest.Arena.{get_mut_with}
use rb_forest.Node.{NodeIndex, NodeRef, Node, Value}
use rb_forest.Guard.{
  Guard, Bounds, Cmd, pure, outcome, ◌>>=◌, ◌>>◌, node, modify, modify_ref, meta, modify_meta,
  unwrap_ok, rounds,
}

abbrev pub as_pair {ℓ} : {A : Type ℓ} → List (Option A) → Pair (Option A)
as_pair (l ∷ r ∷ []) = pair l r
as_pair _ = pair none none

abbrev pub map_option {ℓ κ} : {A : Type ℓ} {B : Type κ} → (A → B) → Option A → Option B
map_option f none = none
map_option f (some a) = some (f a)

module _ {K V : Type 0} where
  unfoldable pub replace : NodeIndex → NodeRef → Cmd K V (Unit {0})
  replace old new = do
    n ← node old
    modify_ref new (λ m. record m { parent = n.parent })
    elim n.parent [
      | some parent ↦ modify parent λ m. record m {
        children = put_at m.children (if points_to m.children.at0 old then left else right) new;
      }
      | none ↦ modify_meta λ b. record b { root = new }
    ]

module _ {K V : Type 0} ⦃val : Value V⦄ where
  abbrev pub set_cumulant : Pair (Option val.Cumulant) → Node K V → Node K V
  set_cumulant children m = record m { value = val.update_cumulant children m.value }

  unfoldable pub update_cumulant : NodeIndex → Cmd K V (Unit {0})
  update_cumulant ptr = do
    n ← node ptr
    (x, others) ← λ s.
        and_then (get_mut_with s.arena ptr (n.children.at0 ∷ n.children.at1 ∷ []))
          λ r. outcome (unwrap_ok r) s
    outcome (unwrap x)
    let children = as_pair others
    let cumulant_of = map_option λ (m : Node K V). val.cumulant m.value
    modify ptr (set_cumulant (pair (cumulant_of children.at0) (cumulant_of children.at1)))

  -- The loop of `propagate_cumulant`, from a node up to the root.
  unfoldable pub propagate_loop : ℕ → NodeRef → Cmd K V (Unit {0})
  propagate_loop fuel none = pure tt
  propagate_loop zero (some index) = λ _. out_of_fuel
  propagate_loop (suc fuel) (some index) = do
    n ← node index
    update_cumulant index
    propagate_loop fuel n.parent

  unfoldable pub propagate_cumulant : NodeIndex → Cmd K V (Unit {0})
  propagate_cumulant ptr s = propagate_loop (rounds s) (some ptr) s

  abbrev pub visit : (NodeIndex → Cmd K V val.Cumulant) → NodeRef → Cmd K V (Option val.Cumulant)
  visit f none = pure none
  visit f (some c) = do x ← f c; pure (some x)

  -- The helper of `update_cumulants`: the cumulants of a sub-tree, children first.
  unfoldable pub update_below : ℕ → NodeIndex → Cmd K V val.Cumulant
  update_below zero ptr = λ _. out_of_fuel
  update_below (suc fuel) ptr = do
    n ← node ptr
    l ← visit (update_below fuel) n.children.at0
    r ← visit (update_below fuel) n.children.at1
    modify ptr (set_cumulant (pair l r))
    m ← node ptr
    pure (val.cumulant m.value)

  unfoldable pub update_cumulants : NodeIndex → Cmd K V (Unit {0})
  update_cumulants ptr s = (update_below (rounds s) ptr >>= λ _. pure tt) s

  unfoldable pub rotate : Side → NodeIndex → Cmd K V (Unit {0})
  rotate i ptr = do
    n ← node ptr
    let pivot = at n.children (other i)
    replace ptr pivot
    p ← outcome (unwrap pivot)
    pivot_node ← node p
    let child = at pivot_node.children i
    modify p (λ m. record m { children = put_at m.children i (some ptr) })
    modify ptr (λ m. record m { parent = pivot; children = put_at m.children (other i) child })
    modify_ref child (λ m. record m { parent = some ptr })
    if val.has_cumulant then update_cumulant ptr else pure tt
