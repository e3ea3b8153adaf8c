-- ===== src/Shape/Parts.antt =====
-- What stands before and after the hole of a context, and its neighbours' links to the hole.
use rb_forest.Base.{
  ◌+◌, ◌≡◌, refl, none, some, List, [], ◌∷◌, ◌++◌, Side, left, right, put_at, ◌∙◌, sym, ap,
}
use mathlib.Core.List.{append_assoc, append-nil}
use rb_forest.Node.{NodeIndex, NodeRef, Value}
use rb_forest.Shape.{Cell, Shape, fork, Context, top, below, plug, once, count, count_above}
use rb_forest.Shape.Entries.{Entry, entry, entries}
use rb_forest.Sequence.{
  first_or, last_or, on_first, on_last, order_to, last_or-append, on_last-append,
}

module _ {K V : Type 0} where
  -- The cell with its order link on side `i` changed.
  abbrev pub link_to : Side → NodeRef → Cell K V → Cell K V
  link_to i r c = record c { order = put_at c.order i r }

  -- The cell next to the hole on side `i`, and the context in which its link to the hole is `r`.
  abbrev pub near : Side → Context K V → NodeRef
  near i top = none
  near left (below left c u ctx) = near left ctx
  near left (below right c u ctx) = some c.here
  near right (below left c u ctx) = some c.here
  near right (below right c u ctx) = near right ctx

  abbrev pub relink : Side → NodeRef → Context K V → Context K V
  relink i r top = top
  relink left r (below left c u ctx) = below left c u (relink left r ctx)
  relink left r (below right c u ctx) = below right (link_to right r c) u ctx
  relink right r (below left c u ctx) = below left (link_to left r c) u ctx
  relink right r (below right c u ctx) = below right c u (relink right r ctx)

  -- A changed order link moves no cell.
  pub count_above-relink :
      (q : NodeIndex) (i : Side) (r : NodeRef) (ctx : Context K V)
      → count_above q (relink i r ctx) ≡ count_above q ctx
  count_above-relink q i r top = refl
  count_above-relink q left r (below left c u ctx) =
      ap (λ n. once q c.here + count q u + n) (count_above-relink q left r ctx)
  count_above-relink q left r (below right c u ctx) = refl
  count_above-relink q right r (below left c u ctx) = refl
  count_above-relink q right r (below right c u ctx) =
      ap (λ n. once q c.here + count q u + n) (count_above-relink q right r ctx)

module _ {K V : Type 0} ⦃val : Value V⦄ where
  abbrev pub before : Context K V → List (Entry K val.Local)
  before top = []
  before (below left c u ctx) = before ctx
  before (below right c u ctx) = before ctx ++ entries u ++ entry c ∷ []

  abbrev pub after : Context K V → List (Entry K val.Local)
  after top = []
  after (below left c u ctx) = (entry c ∷ entries u) ++ after ctx
  after (below right c u ctx) = after ctx

  pub entries-plug-parts :
      (ctx : Context K V) (t : Shape K V)
      → entries (plug ctx t) ≡ before ctx ++ entries t ++ after ctx
  entries-plug-parts top t = sym (append-nil (entries t))
  entries-plug-parts (below left c u ctx) t =
      entries-plug-parts ctx (fork t c u) ∙ simp (append_assoc)
  entries-plug-parts (below right c u ctx) t =
      entries-plug-parts ctx (fork u c t) ∙ simp (append_assoc)

  pub near-before : (ctx : Context K V) → near left ctx ≡ last_or none (before ctx)
  near-before top = refl
  near-before (below left c u ctx) = near-before ctx
  near-before (below right c u ctx) =
      sym (last_or-append none (before ctx ++ entries u) (entry c ∷ []))

  pub near-after : (ctx : Context K V) → near right ctx ≡ first_or none (after ctx)
  near-after top = refl
  near-after (below left c u ctx) = refl
  near-after (below right c u ctx) = near-after ctx

  pub before-relink_left :
      (r : NodeRef) (ctx : Context K V)
      → before (relink left r ctx) ≡ on_last (order_to right r) (before ctx)
  before-relink_left r top = refl
  before-relink_left r (below left c u ctx) = before-relink_left r ctx
  before-relink_left r (below right c u ctx) =
      sym (on_last-append (order_to right r) (before ctx ++ entries u) (entry c))

  pub after-relink_left : (r : NodeRef) (ctx : Context K V) → after (relink left r ctx) ≡ after ctx
  after-relink_left r top = refl
  after-relink_left r (below left c u ctx) =
      ap (λ es. (entry c ∷ entries u) ++ es) (after-relink_left r ctx)
  after-relink_left r (below right c u ctx) = refl

  pub before-relink_right :
      (r : NodeRef) (ctx : Context K V) → before (relink right r ctx) ≡ before ctx
  before-relink_right r top = refl
  before-relink_right r (below left c u ctx) = refl
  before-relink_right r (below right c u ctx) =
      ap (λ es. es ++ entries u ++ entry c ∷ []) (before-relink_right r ctx)

  pub after-relink_right :
      (r : NodeRef) (ctx : Context K V)
      → after (relink right r ctx) ≡ on_first (order_to left r) (after ctx)
  after-relink_right r top = refl
  after-relink_right r (below left c u ctx) = refl
  after-relink_right r (below right c u ctx) = after-relink_right r ctx
