-- ===== src/Removal/First.antt =====
-- The first cell of a tree: the successor of the cell above it on the left.
use rb_forest.Base.{◌≡◌, refl, ◌∷◌, ◌++◌, left, ◌∙◌}
use mathlib.Core.List.{append_assoc}
use rb_forest.Node.{Value}
use rb_forest.Guard.{Guard}
use rb_forest.Shape.{Cell, Shape, leaf, fork, Context, below, plug, Focus}
use rb_forest.Shape.Zipper.{Focus-down}
use rb_forest.Shape.Entries.{entry, entries}
use rb_forest.Shape.Parts.{before, after}

module _ {K V : Type 0} where
  -- Of the tree `fork l c r`: its first cell, that cell's right child, and the way there.
  abbrev pub first_cell : Shape K V → Cell K V → Cell K V
  first_cell leaf c = c
  first_cell (fork a x b) c = first_cell a x

  abbrev pub first_rest : Shape K V → Shape K V → Shape K V
  first_rest leaf r = r
  first_rest (fork a x b) r = first_rest a b

  abbrev pub first_context : Shape K V → Cell K V → Shape K V → Context K V → Context K V
  first_context leaf c r ctx = ctx
  first_context (fork a x b) c r ctx = first_context a x b (below left c r ctx)

  pub plug-first :
      (l : Shape K V) (c : Cell K V) (r : Shape K V) (ctx : Context K V)
      → plug (first_context l c r ctx) (fork leaf (first_cell l c) (first_rest l r))
        ≡ plug ctx (fork l c r)
  plug-first leaf c r ctx = refl
  plug-first (fork a x b) c r ctx = plug-first a x b (below left c r ctx)

  pub Focus-first :
      {s : Guard K V} (l : Shape K V) (c : Cell K V) (r : Shape K V) (ctx : Context K V)
      → Focus s ctx (fork l c r)
      → Focus s (first_context l c r ctx) (fork leaf (first_cell l c) (first_rest l r))
  Focus-first leaf c r ctx f = f
  Focus-first (fork a x b) c r ctx f = Focus-first a x b (below left c r ctx) (Focus-down left f)

module _ {K V : Type 0} ⦃val : Value V⦄ where
  pub before-first :
      (l : Shape K V) (c : Cell K V) (r : Shape K V) (ctx : Context K V)
      → before (first_context l c r ctx) ≡ before ctx
  before-first leaf c r ctx = refl
  before-first (fork a x b) c r ctx = before-first a x b (below left c r ctx)

  pub after-first :
      (l : Shape K V) (c : Cell K V) (r : Shape K V) (ctx : Context K V)
      → entries (fork l c r) ++ after ctx
        ≡ entry (first_cell l c) ∷ (entries (first_rest l r) ++ after (first_context l c r ctx))
  after-first leaf c r ctx = refl
  after-first (fork a x b) c r ctx =
      append_assoc (entries (fork a x b)) (entry c ∷ entries r) (after ctx)
      ∙ after-first a x b (below left c r ctx)
