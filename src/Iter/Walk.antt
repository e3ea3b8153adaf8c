-- ===== src/Iter/Walk.antt =====
-- That a loop over an iterator of src/tree/iter.rs sees each node once, in order.
use rb_forest.Base.{
  ℕ, zero, suc, ◌<◌, ◌≡◌, ◌==◌, ◌||◌, refl, Bool, false, none, some, List, [], ◌∷◌, length, map,
  done, pair, pair_at, at, Side, left, right, other, ref_eq, arith, ==_refl,
}
use rb_forest.Node.{NodeIndex, NodeRef, Node, Value}
use rb_forest.Guard.{Guard}
use rb_forest.Guard.Laws.{view, node_at-done}
use rb_forest.Shape.{Cell}
use rb_forest.Iter.{advance, collect}

pub ref_eq_comm : (a b : NodeRef) → ref_eq a b ≡ ref_eq b a
ref_eq_comm none none = refl
ref_eq_comm none (some b) = refl
ref_eq_comm (some a) none = refl
ref_eq_comm (some a) (some b) = ground arith

module _ {K V : Type 0} where
  abbrev pub head_ref : List (Cell K V) → NodeRef
  head_ref [] = none
  head_ref (c ∷ cs) = some c.here

  abbrev pub last_ref : List (Cell K V) → NodeRef
  last_ref [] = none
  last_ref (c ∷ []) = some c.here
  last_ref (c ∷ d ∷ cs) = last_ref (d ∷ cs)

  abbrev pub among : NodeIndex → List (Cell K V) → Bool
  among p [] = false
  among p (c ∷ cs) = (p == c.here) || among p cs

  -- From side `i` on, the order links lead through the nodes of the cells, all different.
  abbrev pub IsStrung : Side → Guard K V → List (Cell K V) → Type 0
  IsStrung i s [] = Unit
  IsStrung i s (c ∷ cs) =
      ((n : Node K V) × (view s c.here ≡ some n)
        × (n.key ≡ c.key)
        × (n.value ≡ c.value)
        × (at n.order (other i) ≡ head_ref cs))
      × (among c.here cs ≡ false)
      × IsStrung i s cs

  pub not-last :
      (p : NodeIndex) (c : Cell K V) (cs : List (Cell K V))
      → among p (c ∷ cs) ≡ false
      → ref_eq (some p) (last_ref (c ∷ cs)) ≡ false
  not-last p c [] out = ground arith
  not-last p c (d ∷ cs) out = not-last p d cs (ground arith)

module _ {K V : Type 0} ⦃val : Value V⦄ where
  abbrev pub items : List (Cell K V) → List (K × val.Local)
  items cs = map (λ c. (c.key, val.into c.value)) cs

  advance-none :
      (i : Side) (s : Guard K V) → advance i (pair_at i none none) s ≡ done (none, pair none none)
  unfolding advance
  advance-none left s = refl
  advance-none right s = refl

  advance-one :
      (i : Side) (s : Guard K V) (c : Cell K V)
      → IsStrung i s (c ∷ [])
      → advance i (pair_at i (some c.here) (some c.here)) s
        ≡ done (some (c.key, val.into c.value), pair none none)
  unfolding advance
  advance-one left s c h = rw (node_at-done s c.here h.0.1, ==_refl, h.0.2, h.0.3) refl
  advance-one right s c h = rw (node_at-done s c.here h.0.1, ==_refl, h.0.2, h.0.3) refl

  advance-more :
      (i : Side) (s : Guard K V) (c d : Cell K V) (cs : List (Cell K V))
      → IsStrung i s (c ∷ d ∷ cs)
      → advance i (pair_at i (some c.here) (last_ref (d ∷ cs))) s
        ≡ done (some (c.key, val.into c.value), pair_at i (some d.here) (last_ref (d ∷ cs)))
  unfolding advance
  advance-more left s c d cs h =
      rw (node_at-done s c.here h.0.1, not-last c.here d cs h.1, h.0.2, h.0.3, h.0.4) refl
  advance-more right s c d cs h =
      rw
        (
          node_at-done s c.here h.0.1,
          ref_eq_comm (last_ref (d ∷ cs)) (some c.here),
          not-last c.here d cs h.1,
          h.0.2,
          h.0.3,
          h.0.4,
        )
        refl

  collect-none :
      (i : Side) (s : Guard K V) (fuel : ℕ) → 0 < fuel → collect i fuel (pair none none) s ≡ done []
  unfolding collect advance
  collect-none i s zero le = absurd (omega arith)
  collect-none left s (suc fuel) le = refl
  collect-none right s (suc fuel) le = refl

  -- A loop over an iterator, forward for the left side and backward for the right, whose ends are the
  -- first and the last node of a list that the order links lead through, all different: with more
  -- rounds than nodes it does not fail, and sees the key and the local data of each node, in order.
  pub collect-items :
      (i : Side) (s : Guard K V) (fuel : ℕ) (cs : List (Cell K V))
      → IsStrung i s cs
      → length cs < fuel
      → collect i fuel (pair_at i (head_ref cs) (last_ref cs)) s ≡ done (items cs)
  unfolding collect
  collect-items i s zero cs h le = absurd (omega arith)
  collect-items i s (suc fuel) [] h le = rw (advance-none i s) refl
  collect-items i s (suc fuel) (c ∷ []) h le =
      rw (advance-one i s c h, collect-none i s fuel (omega arith)) refl
  collect-items i s (suc fuel) (c ∷ d ∷ cs) h le =
      rw (advance-more i s c d cs h, collect-items i s fuel (d ∷ cs) h.2 (omega arith)) refl
