-- ===== src/Shape.antt =====
-- Trees as values, and what it means that the nodes of an arena form one. A cell is a node less its
-- links to parent and children.
pub mod Cumulant
pub mod Replace
pub mod Rotate
pub mod Zipper
pub mod Balance
pub mod Entries
pub mod Rounds
pub mod Parts
pub mod Relink
pub mod Unplug
pub mod Form
use rb_forest.Base.{
  pair_at, ℕ, suc, ◌+◌, ◌≤◌, ◌<◌, ◌≡◌, refl, Bool, true, false, ◌==◌, Option, none, some,
  if◌then◌else◌, Pair, pair, Side, left, right, arith, ◌∙◌, ◌≢◌, ap, points_to,
}
use rb_forest.Node.{NodeIndex, NodeRef, Node, Color}
use rb_forest.Guard.{Guard}
use rb_forest.Guard.Laws.{view}

pub record Cell (K V : Type 0) : Type 0 where
  pub here : NodeIndex
  pub key : K
  pub value : V
  pub color : Color
  pub order : Pair NodeRef

pub data Shape (K V : Type 0) : Type 0 where
  leaf : Shape K V
  fork : Shape K V → Cell K V → Shape K V → Shape K V

-- A tree with a hole, from the hole up: the hole is the child on side `i` of the cell, whose other
-- child is the tree.
pub data Context (K V : Type 0) : Type 0 where
  top : Context K V
  below : Side → Cell K V → Shape K V → Context K V → Context K V

abbrev pub once : NodeIndex → NodeIndex → ℕ
once p q = if p == q then 1 else 0

pub ne_of_once : (p q : NodeIndex) → once p q ≡ 0 → p ≢ q
ne_of_once p q e = ground arith

pub once_self : (p : NodeIndex) → once p p ≡ 1
once_self p = ground arith

-- What stands at each index.
abbrev pub Heap : Type 0 → Type 0 → Type 0
Heap K V = NodeIndex → Option (Node K V)

module _ {K V : Type 0} where
  abbrev pub root : Shape K V → NodeRef
  root leaf = none
  root (fork l c r) = some c.here

  -- A cell with its child on side `i` and the other.
  abbrev pub fork_at : Side → Shape K V → Cell K V → Shape K V → Shape K V
  fork_at left near c far = fork near c far
  fork_at right near c far = fork far c near

  abbrev pub plug : Context K V → Shape K V → Shape K V
  plug top t = t
  plug (below i c u ctx) t = plug ctx (fork_at i t c u)

  abbrev pub parent_of : Context K V → NodeRef
  parent_of top = none
  parent_of (below i c u ctx) = some c.here

  -- The root of the whole tree, when the hole holds a tree with root `r`.
  abbrev pub top_of : Context K V → NodeRef → NodeRef
  top_of top r = r
  top_of (below i c u ctx) r = top_of ctx (some c.here)

  -- The node of a cell.
  abbrev pub node_of : NodeRef → Pair NodeRef → Cell K V → Node K V
  node_of parent children c = record {
    key = c.key;
    value = c.value;
    color = c.color;
    parent = parent;
    children = children;
    order = c.order;
  }

  -- How often an index occurs.
  abbrev pub count : NodeIndex → Shape K V → ℕ
  count p leaf = 0
  count p (fork l c r) = once p c.here + count p l + count p r

  abbrev pub count_above : NodeIndex → Context K V → ℕ
  count_above p top = 0
  count_above p (below i c u ctx) = once p c.here + count p u + count_above p ctx

module _ {K V : Type 0} where
  -- The nodes below `parent` form the tree.
  abbrev pub Holds : Heap K V → NodeRef → Shape K V → Type 0
  Holds h parent leaf = Unit
  Holds h parent (fork l c r) =
      (h c.here ≡ some (node_of parent (pair (root l) (root r)) c))
      × Holds h (some c.here) l
      × Holds h (some c.here) r

  -- The nodes above a hole that holds a tree with root `r` form the context.
  abbrev pub HoldsAbove : Heap K V → Context K V → NodeRef → Type 0
  HoldsAbove h top r = Unit
  HoldsAbove h (below i c u ctx) r =
      (h c.here ≡ some (node_of (parent_of ctx) (pair_at i r (root u)) c))
      × Holds h (some c.here) u
      × HoldsAbove h ctx (some c.here)

  -- The guard's tree is `plug ctx t`, and no node occurs in it twice.
  pub record Focus (s : Guard K V) (ctx : Context K V) (t : Shape K V) : Type 0 where
    pub inside : Holds (view s) (parent_of ctx) t
    pub above : HoldsAbove (view s) ctx (root t)
    pub distinct : (p : NodeIndex) → count p t + count_above p ctx ≤ 1
    pub rooted : s.meta.root ≡ top_of ctx (root t)

  pub not-root : (t : Shape K V) (p : NodeIndex) → count p t ≡ 0 → points_to (root t) p ≡ false
  not-root leaf p e = refl
  not-root (fork l c r) p e = ground arith

  -- Indices are told apart by what they occur in.
  pub ne_of_count : (t : Shape K V) (p q : NodeIndex) → count p t ≡ 0 → 0 < count q t → q ≢ p
  ne_of_count t p q out h e = absurd (omega (arith, ap (λ x. count x t) e))

  pub ne_of_count_above :
      (ctx : Context K V) (p q : NodeIndex) → count_above p ctx ≡ 0 → 0 < count_above q ctx → q ≢ p
  ne_of_count_above ctx p q out h e = absurd (omega (arith, ap (λ x. count_above x ctx) e))

  -- A tree stays where none of its nodes is changed.
  pub Holds-frame :
      {h h' : Heap K V} (parent : NodeRef) (t : Shape K V)
      → Holds h parent t
      → ((p : NodeIndex) → 0 < count p t → h' p ≡ h p)
      → Holds h' parent t
  Holds-frame parent leaf held same = tt
  Holds-frame parent (fork l c r) held same = (
    same c.here (ground arith) ∙ held.0,
    Holds-frame (some c.here) l held.1 (λ p m. same p (omega arith)),
    Holds-frame (some c.here) r held.2 (λ p m. same p (omega arith)),
  )

  pub HoldsAbove-frame :
      {h h' : Heap K V} (r : NodeRef) (ctx : Context K V)
      → HoldsAbove h ctx r
      → ((p : NodeIndex) → 0 < count_above p ctx → h' p ≡ h p)
      → HoldsAbove h' ctx r
  HoldsAbove-frame r top held same = tt
  HoldsAbove-frame r (below i c u ctx) held same = (
    same c.here (ground arith) ∙ held.0,
    Holds-frame (some c.here) u held.1 (λ p m. same p (omega arith)),
    HoldsAbove-frame (some c.here) ctx held.2 (λ p m. same p (omega arith)),
  )
