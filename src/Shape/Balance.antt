-- ===== src/Shape/Balance.antt =====
-- The red-black conditions on trees as values.
use rb_forest.Base.{ℕ, suc, ◌+◌, ◌≤◌, ◌≡◌, refl, Side, left, right, arith, ◌∙◌, sym, ap}
use rb_forest.Node.{Color, red, black, color_weight}
use rb_forest.Shape.{Cell, Shape, leaf, fork, Context, top, below, fork_at, plug}

pub color_weight_le : (c : Color) → color_weight c ≤ 1
color_weight_le red = omega arith
color_weight_le black = omega arith

module _ {K V : Type 0} where
  abbrev pub weight : Cell K V → ℕ
  weight c = color_weight c.color

  -- The black nodes on the path to the leftmost leaf.
  abbrev pub height : Shape K V → ℕ
  height leaf = 0
  height (fork l c r) = weight c + height l

  -- 0 at a red root, 1 at a black one or an empty tree.
  abbrev pub top_weight : Shape K V → ℕ
  top_weight leaf = 1
  top_weight (fork l c r) = weight c

  -- 0 at a red parent, and at none: a root must be black.
  abbrev pub parent_weight : Context K V → ℕ
  parent_weight top = 0
  parent_weight (below i c u ctx) = weight c

  -- All paths have the same number of black nodes, and no red node has a red child.
  abbrev pub IsBalanced : Shape K V → Type 0
  IsBalanced leaf = Unit
  IsBalanced (fork l c r) =
      (height l ≡ height r)
      × (1 ≤ weight c + top_weight l)
      × (1 ≤ weight c + top_weight r)
      × IsBalanced l
      × IsBalanced r

  -- The same of a context whose hole stands for a tree of height `n`, save for the hole's own root.
  abbrev pub IsBalancedAbove : ℕ → Context K V → Type 0
  IsBalancedAbove n top = Unit
  IsBalancedAbove n (below i c u ctx) =
      (height u ≡ n)
      × (1 ≤ weight c + top_weight u)
      × (1 ≤ weight c + parent_weight ctx)
      × IsBalanced u
      × IsBalancedAbove (weight c + n) ctx

  -- The height of the whole, and the length of the path to the hole.
  abbrev pub height_above : ℕ → Context K V → ℕ
  height_above n top = n
  height_above n (below i c u ctx) = height_above (weight c + n) ctx

  abbrev pub depth : Context K V → ℕ
  depth top = 0
  depth (below i c u ctx) = suc (depth ctx)

  pub IsBalanced-fork_at :
      (i : Side) (x : Shape K V) (c : Cell K V) (y : Shape K V)
      → height x ≡ height y
      → 1 ≤ weight c + top_weight x
      → 1 ≤ weight c + top_weight y
      → IsBalanced x
      → IsBalanced y
      → IsBalanced (fork_at i x c y)
  IsBalanced-fork_at left x c y e p q bx by = (e, p, q, bx, by)
  IsBalanced-fork_at right x c y e p q bx by = (sym e, q, p, by, bx)

  pub of_IsBalanced-fork_at :
      (i : Side) (x : Shape K V) (c : Cell K V) (y : Shape K V)
      → IsBalanced (fork_at i x c y)
      → (height x ≡ height y)
        × (1 ≤ weight c + top_weight x)
        × (1 ≤ weight c + top_weight y)
        × IsBalanced x
        × IsBalanced y
  of_IsBalanced-fork_at left x c y b = b
  of_IsBalanced-fork_at right x c y b = (sym b.0, b.2, b.1, b.4, b.3)

  pub height-fork_at :
      (i : Side) (x : Shape K V) (c : Cell K V) (y : Shape K V)
      → height x ≡ height y
      → height (fork_at i x c y) ≡ weight c + height x
  height-fork_at left x c y e = refl
  height-fork_at right x c y e = omega arith

  pub top_weight-fork_at :
      (i : Side) (x : Shape K V) (c : Cell K V) (y : Shape K V)
      → top_weight (fork_at i x c y) ≡ weight c
  top_weight-fork_at left x c y = refl
  top_weight-fork_at right x c y = refl

  pub top_weight_le : (t : Shape K V) → top_weight t ≤ 1
  top_weight_le leaf = omega arith
  top_weight_le (fork l c r) = color_weight_le c.color

  -- A balanced tree in a balanced context, not red below red, makes a balanced tree.
  pub plug-IsBalanced :
      (ctx : Context K V) (t : Shape K V)
      → IsBalanced t
      → IsBalancedAbove (height t) ctx
      → 1 ≤ top_weight t + parent_weight ctx
      → IsBalanced (plug ctx t)
        × (height (plug ctx t) ≡ height_above (height t) ctx)
        × (1 ≤ top_weight (plug ctx t))
  plug-IsBalanced top t b above ok = (b, refl, omega arith)
  plug-IsBalanced (below i c u ctx) t b above ok =
      let e = height-fork_at i t c u (sym above.0) in
      let (done, high, dark) =
        plug-IsBalanced ctx (fork_at i t c u)
          (IsBalanced-fork_at i t c u (sym above.0) (omega arith) above.1 b above.3) (rw e above.4)
          (rw top_weight-fork_at above.2) in
      (done, high ∙ ap (λ n. height_above n ctx) e, dark)
