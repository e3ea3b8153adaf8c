-- ===== src/Insertion.antt =====
-- That `fix_insert` of src/tree/mod.rs mends a tree: what one round of its loop does.
pub mod Raise
pub mod Attach
pub mod At
pub mod Valid
pub mod RotateUp
pub mod Recolor
pub mod Round
pub mod Loop
pub mod Fix
use rb_forest.Base.{
  ℕ, ◌+◌, ◌≤◌, ◌≡◌, Bool, true, false, none, some, Side, left, right, other, Outcome, done, refl,
  ap, sym, ◌∙◌, Pair, pair, arith, List, ◌∷◌, ◌++◌,
}
use rb_forest.Node.{
  NodeIndex, NodeRef, Node, Color, color_weight, color_is_red, is_red, is_black, Value,
}
use rb_forest.Guard.{Guard, Bounds, node_at}
use rb_forest.Guard.Laws.{view, node_at-done}
use rb_forest.Tree.Insert.{is_red_ref}
use rb_forest.Shape.{
  Heap, Cell, Shape, leaf, fork, Context, top, below, root, fork_at, plug, Holds, Focus, node_of,
}
use rb_forest.Shape.Zipper.{Focus-up}
use rb_forest.Shape.Balance.{height, top_weight, IsBalanced, IsBalancedAbove, height_above, depth}
use rb_forest.Shape.Entries.{entries, Entry}

-- The metadata that a repair leaves: the range and the black height.
pub record SameLimits (a b : Bounds) : Type 0 where
  pub range : a.range ≡ b.range
  pub black_height : a.black_height ≡ b.black_height

pub SameLimits-rooted :
    {a b c : Bounds} {r : NodeRef} → a ≡ record b { root = r } → SameLimits b c → SameLimits a c
SameLimits-rooted e h = record {
  range = ap (λ (m : Bounds). m.range) e ∙ h.range;
  black_height = ap (λ (m : Bounds). m.black_height) e ∙ h.black_height;
}

pub SameLimits-kept : {a b c : Bounds} → a ≡ b → SameLimits b c → SameLimits a c
SameLimits-kept e h = record {
  range = ap (λ (m : Bounds). m.range) e ∙ h.range;
  black_height = ap (λ (m : Bounds). m.black_height) e ∙ h.black_height;
}

pub SameLimits-trans : {a b c : Bounds} → SameLimits a b → SameLimits b c → SameLimits a c
SameLimits-trans f g = record {
  range = f.range ∙ g.range;
  black_height = f.black_height ∙ g.black_height;
}

pub SameLimits-refl : (a : Bounds) → SameLimits a a
SameLimits-refl a = record { range = refl; black_height = refl }

module _ {K V : Type 0} where
  -- The node at the root of a tree.
  pub top_node :
      (h : Heap K V) (parent : NodeRef) (t : Shape K V) (p : NodeIndex)
      → Holds h parent t
      → root t ≡ some p
      → (n : Node K V) × (h p ≡ some n)
        × (n.parent ≡ parent)
        × (color_weight n.color ≡ top_weight t)
  top_node h parent leaf p held e = absurd (cc)
  top_node h parent (fork l c r) p held e =
      (node_of parent (pair (root l) (root r)) c, ground arith, refl, refl)

  -- `is_red_ref` asks for the colour of a tree's root.
  abbrev pub red_top : Shape K V → Bool
  red_top leaf = false
  red_top (fork l c r) = color_is_red c.color

  pub is_red_ref-red_top :
      (s : Guard K V) (parent : NodeRef) (t : Shape K V)
      → Holds (view s) parent t
      → is_red_ref (root t) s ≡ done (red_top t, s)
  is_red_ref-red_top s parent leaf held = refl
  is_red_ref-red_top s parent (fork l c r) held = rw (node_at-done s c.here held.0)

  -- The focus at the whole tree.
  pub Focus-top :
      {s : Guard K V} (ctx : Context K V) {t : Shape K V} → Focus s ctx t → Focus s top (plug ctx t)
  Focus-top top f = f
  Focus-top (below i c u ctx) f = Focus-top ctx (Focus-up i f)

module _ {K V : Type 0} ⦃val : Value V⦄ where
  -- A round of the loop: the red node moves up, or the repair is done and it has a black parent.
  -- The tree holds the same entries in order, its height is the same, and all but the pair of the
  -- node and its parent is in balance.
  pub record Climbed (s : Guard K V) (ctx : Context K V) (t : Shape K V)
      (r : Outcome (NodeIndex × Guard K V)) : Type 0 where
    pub after : Guard K V
    pub ptr : NodeIndex
    pub context : Context K V
    pub tree : Shape K V
    pub returns : r ≡ done (ptr, after)
    pub rooted : root tree ≡ some ptr
    pub focus : Focus after context tree
    pub balanced : IsBalanced tree
    pub is_red : top_weight tree ≡ 0
    pub above : IsBalancedAbove (height tree) context
    pub nearer : depth context + 1 ≤ depth ctx
    pub same : entries (plug context tree) ≡ entries (plug ctx t)
    pub high : height_above (height tree) context ≡ height_above (height t) ctx
    pub limits : SameLimits after.meta s.meta
