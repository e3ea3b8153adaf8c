-- ===== src/Lookup.antt =====
-- `search` of src/tree/mod.rs on a search tree: the descent as a function of the tree, and what it
-- finds.
pub mod Descent
pub mod Edges
pub mod Find
use Prim.Native.Nat.{Ordering}
use Prim.Native.Nat.Ordering.{lt, eq, gt}
use rb_forest.Base.{
  ℕ, zero, suc, ◌+◌, ◌≤◌, ◌≡◌, refl, Bool, true, false, Option, none, some, List, [], ◌∷◌, ◌++◌,
  if◌then◌else◌, done, pair, arith, ◌∙◌, ap, sym, subst, ◌⊎◌, inl, inr, Side, left, right,
}
use mathlib.Core.List.{append_assoc}
pub use rb_forest.Order.{is_eq}
use rb_forest.Order.{Ord, reverse}
use rb_forest.Node.{NodeIndex, NodeRef}
use rb_forest.Guard.{Guard, rounds}
use rb_forest.Guard.Laws.{view, node_at-done}
use rb_forest.Tree.Search.{
  SearchResult, empty, left_of, here, right_of, into_here, search, search_by, search_between,
  search_loop,
}
use rb_forest.Shape.Rounds.{size, size-rounds}
use rb_forest.Shape.{Cell, Shape, leaf, fork, top, root, Holds, Focus}

pub Ordering-cases : (x : Ordering) → (x ≡ lt) ⊎ (x ≡ eq) ⊎ (x ≡ gt)
Ordering-cases lt = inl refl
Ordering-cases eq = inr (inl refl)
Ordering-cases gt = inr (inr refl)

module _ {K V : Type 0} where
  -- The cells of a tree in order.
  abbrev pub cells : Shape K V → List (Cell K V)
  cells leaf = []
  cells (fork l c r) = cells l ++ c ∷ cells r

  abbrev pub AllOf : (Cell K V → Type 0) → Shape K V → Type 0
  AllOf P leaf = Unit
  AllOf P (fork l c r) = P c × AllOf P l × AllOf P r

  -- The outermost cells.
  abbrev pub first : Shape K V → Option (Cell K V)
  first leaf = none
  first (fork leaf c r) = some c
  first (fork (fork a d b) c r) = first (fork a d b)

  abbrev pub last : Shape K V → Option (Cell K V)
  last leaf = none
  last (fork l c leaf) = some c
  last (fork l c (fork a d b)) = last (fork a d b)

  abbrev pub ref : Option (Cell K V) → NodeRef
  ref none = none
  ref (some c) = some c.here

  pub AllOf-map :
      {P Q : Cell K V → Type 0} (t : Shape K V)
      → ((c : Cell K V) → P c → Q c)
      → AllOf P t
      → AllOf Q t
  AllOf-map leaf f all = tt
  AllOf-map (fork l c r) f all = (f c all.0, AllOf-map l f all.1, AllOf-map r f all.2)

  pub first-AllOf :
      (P : Cell K V → Type 0) (t : Shape K V) (m : Cell K V) → first t ≡ some m → AllOf P t → P m
  first-AllOf P leaf m e all = absurd (cc)
  first-AllOf P (fork leaf c r) m e all = subst P (ground arith) all.0
  first-AllOf P (fork (fork a d b) c r) m e all = first-AllOf P (fork a d b) m e all.1

  pub last-AllOf :
      (P : Cell K V → Type 0) (t : Shape K V) (m : Cell K V) → last t ≡ some m → AllOf P t → P m
  last-AllOf P leaf m e all = absurd (cc)
  last-AllOf P (fork l c leaf) m e all = subst P (ground arith) all.0
  last-AllOf P (fork l c (fork a d b)) m e all = last-AllOf P (fork a d b) m e all.2

module _ {K : Type 0} ⦃o : Ord K⦄ where
  -- What a comparison with one key says of another.
  pub lower : (a b key : K) → o.cmp a b ≡ lt → o.cmp b key ≡ lt → o.cmp a key ≡ lt
  lower a b key = o.between a b key

  pub higher : (a b key : K) → o.cmp b a ≡ lt → o.cmp b key ≡ gt → o.cmp a key ≡ gt
  higher a b key e f =
      sym (o.reverse-cmp key a)
      ∙ ap reverse (o.between key b a (sym (o.reverse-cmp b key) ∙ ap reverse f) e)

module _ {K V : Type 0} ⦃o : Ord K⦄ where
  -- The keys increase from left to right.
  abbrev pub IsOrdered : Shape K V → Type 0
  IsOrdered leaf = Unit
  IsOrdered (fork l c r) =
      AllOf (λ d. o.cmp d.key c.key ≡ lt) l
      × AllOf (λ d. o.cmp c.key d.key ≡ lt) r
      × IsOrdered l
      × IsOrdered r

  -- The descent: below a leaf the result is `d`.
  abbrev pub descend : K → Shape K V → SearchResult NodeIndex → SearchResult NodeIndex
  descend key leaf d = d
  descend key (fork l c r) d = elim (o.cmp c.key key) [
    | gt ↦ descend key l (left_of c.here)
    | eq ↦ here c.here
    | lt ↦ descend key r (right_of c.here)
  ]

  -- The first node in a list whose key is `key`.
  abbrev pub scan : K → List (Cell K V) → NodeRef
  scan key [] = none
  scan key (c ∷ cs) = if is_eq (o.cmp c.key key) then some c.here else scan key cs
