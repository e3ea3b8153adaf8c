-- ===== src/Dictionary/Splice.antt =====
-- What `insert_at` of src/tree/mod.rs makes of a tree's entries and of its range.
use rb_forest.Base.{
  ◌≡◌, refl, none, some, List, [], ◌∷◌, ◌++◌, Side, left, right, pair, Pair, pair_at, at, ap, sym,
  subst, ◌∙◌,
}
use mathlib.Core.List.{append_assoc, append-nil}
use rb_forest.Node.{NodeIndex, NodeRef, Value}
use rb_forest.Shape.{Cell, Shape, leaf, fork, Context, below, plug}
use rb_forest.Shape.Entries.{Entry, entry, entries}
use rb_forest.Shape.Parts.{
  near, relink, link_to, before, after, entries-plug-parts, near-before, near-after,
  before-relink_left, after-relink_left, before-relink_right, after-relink_right,
}
use rb_forest.Sequence.{
  first_or, last_or, on_first, on_last, order_to, splice, IsThreaded, IsThreaded-middle,
  last_or-append, first_or-append, on_last-append,
}
use rb_forest.Insertion.Attach.{linked, widen}

module _ {K L : Type 0} where
  first_or-middle :
      (d d' : NodeRef) (xs : List (Entry K L)) (x : Entry K L) (ys ys' : List (Entry K L))
      → first_or d (xs ++ x ∷ ys) ≡ first_or d' (xs ++ x ∷ ys')
  first_or-middle d d' xs x ys ys' =
      first_or-append d xs (x ∷ ys) ∙ sym (first_or-append d' xs (x ∷ ys'))

  pub some-last_or :
      (p : NodeIndex) (xs : List (Entry K L)) → (q : NodeIndex) × (last_or (some p) xs ≡ some q)
  some-last_or p [] = (p, refl)
  some-last_or p (x ∷ xs) = some-last_or x.here xs

  -- A node without a neighbour on one side is the new end of the range there.
  pub widen_left :
      (p : NodeIndex) (xs : List (Entry K L)) (y : Entry K L) (ys : List (Entry K L))
      → widen left
          (last_or none xs)
          p
          (pair (first_or none (xs ++ y ∷ ys)) (last_or none (xs ++ y ∷ ys)))
        ≡ pair (first_or (some p) xs) (last_or (some p) (y ∷ ys))
  widen_left p [] y ys = refl
  widen_left p (x ∷ xs) y ys =
      let (q, e) = some-last_or x.here xs in
      rw e (ap (λ r. pair (some x.here) r) (last_or-append (some x.here) xs (y ∷ ys)))

  pub widen_right :
      (p : NodeIndex) (xs : List (Entry K L)) (x : Entry K L) (ys : List (Entry K L))
      → widen right
          (first_or none ys)
          p
          (pair (first_or none (xs ++ x ∷ ys)) (last_or none (xs ++ x ∷ ys)))
        ≡ pair (first_or (some p) (xs ++ x ∷ [])) (last_or (some p) ys)
  widen_right p xs x [] = ap (λ r. pair r (some p)) (first_or-middle none (some p) xs x [] [])
  widen_right p xs x (y ∷ ys) =
      ap (λ r. pair r (last_or none (xs ++ x ∷ y ∷ ys)))
        (first_or-middle none (some p) xs x (y ∷ ys) [])
      ∙ ap (λ r. pair (first_or (some p) (xs ++ x ∷ [])) r) (last_or-append none xs (x ∷ y ∷ ys))

module _ {K V : Type 0} ⦃val : Value V⦄ where
  -- A tree with a vacancy.
  pub entries-vacant : (ctx : Context K V) → entries (plug ctx leaf) ≡ before ctx ++ after ctx
  entries-vacant ctx =
      entries-plug-parts ctx leaf ∙ ap (λ es. es ++ after ctx) (append-nil (before ctx))

  -- The entries around a cell.
  pub split_entries :
      (ctx : Context K V) (l : Shape K V) (c : Cell K V) (r : Shape K V)
      → entries (plug ctx (fork l c r))
        ≡ (before ctx ++ entries l) ++ entry c ∷ (entries r ++ after ctx)
  split_entries ctx l c r = entries-plug-parts ctx (fork l c r) ∙ simp (append_assoc)

  link_parts :
      (i : Side) (r : NodeRef) (c : Cell K V) (u : Shape K V) (ctx : Context K V)
      → (before (below i (link_to i r c) u (relink i r ctx))
          ≡ on_last (order_to right r) (before (below i c u ctx)))
        × (after (below i (link_to i r c) u (relink i r ctx))
            ≡ on_first (order_to left r) (after (below i c u ctx)))
  link_parts left r c u ctx = (
    before-relink_left r ctx,
    ap (λ es. (entry (link_to left r c) ∷ entries u) ++ es) (after-relink_left r ctx),
  )
  link_parts right r c u ctx = (
    ap (λ es. es ++ entries u ++ entry (link_to right r c) ∷ []) (before-relink_right r ctx)
        ∙ sym (on_last-append (order_to right r) (before ctx ++ entries u) (entry c)),
    after-relink_right r ctx,
  )

  -- The new tree's entries are the old ones with the new one spliced in.
  pub entries-linked :
      (i : Side) (c : Cell K V) (u : Shape K V) (ctx : Context K V) (n : Cell K V)
      → entries (
          plug
            (below i (link_to i (some n.here) c) u (relink i (some n.here) ctx))
            (fork leaf (linked i c ctx n) leaf))
        ≡ splice (before (below i c u ctx)) (entry (linked i c ctx n)) (after (below i c u ctx))
  entries-linked i c u ctx n =
      let r = some n.here in
      let (b, a) = link_parts i r c u ctx in
      entries-plug-parts (below i (link_to i r c) u (relink i r ctx))
        (fork leaf (linked i c ctx n) leaf)
      ∙ ap
          (λ es.
            es
            ++ (entry (linked i c ctx n) ∷ [])
            ++ after (below i (link_to i r c) u (relink i r ctx)))
          b
      ∙ append_assoc (on_last (order_to right r) (before (below i c u ctx)))
          (entry (linked i c ctx n) ∷ []) (after (below i (link_to i r c) u (relink i r ctx)))
      ∙ ap
          (λ es.
            on_last (order_to right r) (before (below i c u ctx)) ++ entry (linked i c ctx n) ∷ es)
          a

  -- The new node's links are the neighbours of its place.
  pub order-linked :
      (i : Side) (c : Cell K V) (u : Shape K V) (ctx : Context K V)
      → pair_at i (near i ctx) (some c.here)
        ≡ pair (last_or none (before (below i c u ctx))) (first_or none (after (below i c u ctx)))
  order-linked left c u ctx = ap (λ r. pair r (some c.here)) (near-before ctx)
  order-linked right c u ctx =
      ap (λ r. pair (some c.here) r) (near-after ctx)
      ∙ ap (λ r. pair r (first_or none (after ctx)))
          (sym (last_or-append none (before ctx ++ entries u) (entry c ∷ [])))

  -- The vacant side of a node in a threaded tree links to its neighbour.
  pub far-near :
      (i : Side) (c : Cell K V) (u : Shape K V) (ctx : Context K V)
      → IsThreaded none (entries (plug (below i c u ctx) leaf)) none
      → at c.order i ≡ near i ctx
  far-near left c u ctx h =
      ap (λ (o : Pair NodeRef). o.at0)
        (IsThreaded-middle none none (before ctx) (entry c) (entries u ++ after ctx)
          (subst (λ es. IsThreaded none es none) (entries-vacant (below left c u ctx)) h))
      ∙ sym (near-before ctx)
  far-near right c u ctx h =
      ap (λ (o : Pair NodeRef). o.at1)
        (IsThreaded-middle none none (before ctx ++ entries u) (entry c) (after ctx) (
          subst (λ es. IsThreaded none es none)
            (entries-vacant (below right c u ctx)
              ∙ append_assoc (before ctx ++ entries u) (entry c ∷ []) (after ctx))
            h))
      ∙ sym (near-after ctx)

  -- The range of the new tree.
  pub widen-range :
      (i : Side) (p : NodeIndex) (c : Cell K V) (u : Shape K V) (ctx : Context K V)
      → widen i (near i ctx) p (
          pair
            (first_or none (entries (plug (below i c u ctx) leaf)))
            (last_or none (entries (plug (below i c u ctx) leaf))))
        ≡ pair
            (first_or (some p) (before (below i c u ctx)))
            (last_or (some p) (after (below i c u ctx)))
  widen-range left p c u ctx =
      rw (near-before ctx, entries-vacant (below left c u ctx))
        (widen_left p (before ctx) (entry c) (entries u ++ after ctx))
  widen-range right p c u ctx =
      rw
        (
          near-after ctx,
          entries-vacant (below right c u ctx),
          append_assoc (before ctx ++ entries u) (entry c ∷ []) (after ctx),
        )
        (widen_right p (before ctx ++ entries u) (entry c) (after ctx))
