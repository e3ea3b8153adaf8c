-- ===== src/Lookup/Find.antt =====
-- `search` of src/tree/mod.rs as a whole.
use Prim.Native.Nat.{Ordering}
use rb_forest.Base.{◌≡◌, refl, true, false, none, some, done, Pair, pair, arith, ◌∙◌, ap, inl, inr}
use rb_forest.Order.{Ord}
use rb_forest.Node.{NodeIndex, NodeRef, Node}
use rb_forest.Guard.{Guard, rounds}
use rb_forest.Guard.Laws.{view, node_at-done}
use rb_forest.Tree.Search.{empty, into_here, search, search_by, search_between, search_loop}
use rb_forest.Shape.Rounds.{size-rounds}
use rb_forest.Shape.{Cell, Shape, leaf, fork, top, root, Holds, Focus, Heap, node_of}
use rb_forest.Lookup.Descent.{search_loop-descend, descend-scan}
use rb_forest.Lookup.Edges.{first-gt, first-eq, last-lt, last-eq}
use rb_forest.Lookup.{
  Ordering-cases, cells, AllOf, first, last, ref, first-AllOf, last-AllOf, IsOrdered, descend, scan,
}

module _ {K V : Type 0} where
  pub first-some :
      (l : Shape K V) (c : Cell K V) (r : Shape K V)
      → (m : Cell K V) × (first (fork l c r) ≡ some m)
  first-some leaf c r = (c, refl)
  first-some (fork a x b) c r = first-some a x b

  pub last-some :
      (l : Shape K V) (c : Cell K V) (r : Shape K V) → (m : Cell K V) × (last (fork l c r) ≡ some m)
  last-some l c leaf = (c, refl)
  last-some l c (fork a x b) = last-some a x b

  -- Each cell of a tree stands in the arena.
  abbrev pub Stands : Heap K V → Cell K V → Type 0
  Stands h c = (n : Node K V) × (h c.here ≡ some n) × (n.key ≡ c.key)

  pub Holds-Stands :
      (h : Heap K V) (parent : NodeRef) (t : Shape K V) → Holds h parent t → AllOf (Stands h) t
  Holds-Stands h parent leaf held = tt
  Holds-Stands h parent (fork l c r) held = (
    (node_of parent (pair (root l) (root r)) c, held.0, refl),
    Holds-Stands h (some c.here) l held.1,
    Holds-Stands h (some c.here) r held.2,
  )

module _ {K V : Type 0} ⦃o : Ord K⦄ where
  -- The descent from a root needs no parent.
  search_loop-root :
      {s : Guard K V} (key : K) (l : Shape K V) (c : Cell K V) (r : Shape K V)
      → Focus s top (fork l c r)
      → search_loop (λ n. o.cmp n.key key) (rounds s) (some c.here) none false s
        ≡ done (descend key (fork l c r) empty)
  unfolding search_loop
  search_loop-root {s} key l c r foc =
      search_loop-descend s key (rounds s) none (fork l c r) 0 true foc.inside
        (omega (arith, size-rounds (fork l c r) foc))

  search_by-range :
      (s : Guard K V) (ptr : NodeRef) (compare : Node K V → Ordering) (a b : NodeIndex)
      → s.meta.range ≡ pair (some a) (some b)
      → search_by ptr compare s ≡ search_between ptr compare a b s
  unfolding search_by
  search_by-range s ptr compare a b e =
      let lower_end : s.meta.range.at0 ≡ some a = ap (λ (y : Pair NodeRef). y.at0) e in
      let upper_end : s.meta.range.at1 ≡ some b = ap (λ (y : Pair NodeRef). y.at1) e in
      simp (search_by, lower_end, upper_end) refl

  search_by-empty :
      (s : Guard K V) (ptr : NodeRef) (compare : Node K V → Ordering)
      → s.meta.range ≡ pair none none
      → search_by ptr compare s ≡ done empty
  unfolding search_by
  search_by-empty s ptr compare e =
      let lower_end : s.meta.range.at0 ≡ none = ap (λ (y : Pair NodeRef). y.at0) e in
      simp (search_by, lower_end) refl

  search_between-descend :
      {s : Guard K V} (key : K) (l : Shape K V) (c : Cell K V) (r : Shape K V) (m x : Cell K V)
      → Focus s top (fork l c r)
      → first (fork l c r) ≡ some m
      → last (fork l c r) ≡ some x
      → IsOrdered (fork l c r)
      → search_between (some c.here) (λ n. o.cmp n.key key) m.here x.here s
        ≡ done (descend key (fork l c r) empty)
  unfolding search_between
  search_between-descend {s} key l c r m x foc em ex ordered =
      let all = Holds-Stands (view s) none (fork l c r) foc.inside in
      let low = first-AllOf (Stands (view s)) (fork l c r) m em all in
      let high = last-AllOf (Stands (view s)) (fork l c r) x ex all in
      elim (Ordering-cases (o.cmp m.key key)) [
        | inr (inr e) ↦
            rw
              (
                node_at-done s m.here low.1,
                low.2,
                e,
                first-gt key (fork l c r) m empty ordered em e,
              )
              refl
        | inr (inl e) ↦
            rw
              (
                node_at-done s m.here low.1,
                low.2,
                e,
                first-eq key (fork l c r) m empty ordered em e,
              )
              refl
        | inl e ↦ elim (Ordering-cases (o.cmp x.key key)) [
          | inl f ↦
              rw
                (
                  node_at-done s m.here low.1,
                  low.2,
                  e,
                  node_at-done s x.here high.1,
                  high.2,
                  f,
                  last-lt key (fork l c r) x empty ordered ex f,
                )
                refl
          | inr (inl f) ↦
              rw
                (
                  node_at-done s m.here low.1,
                  low.2,
                  e,
                  node_at-done s x.here high.1,
                  high.2,
                  f,
                  last-eq key (fork l c r) x empty ordered ex f,
                )
                refl
          | inr (inr f) ↦
              rw (node_at-done s m.here low.1, low.2, e, node_at-done s x.here high.1, high.2, f)
                (search_loop-root key l c r foc)
        ]
      ]

  -- `search` from the root of the guard's tree, where the keys increase from left to right and the
  -- range is that of its first and last node: it does not fail and does not run out of rounds, and
  -- returns what the descent through the tree does; it returns `Here` for the first node in order that
  -- has the key, and only if there is one.
  pub search-scan :
      {s : Guard K V} (key : K) (t : Shape K V)
      → Focus s top t
      → s.meta.range ≡ pair (ref (first t)) (ref (last t))
      → IsOrdered t
      → (search s.meta.root key s ≡ done (descend key t empty))
        × (into_here (descend key t empty) ≡ scan key (cells t))
  unfolding search into_here
  search-scan {s} key leaf foc range ordered =
      (search_by-empty s s.meta.root (λ n. o.cmp n.key key) range, refl)
  search-scan {s} key (fork l c r) foc range ordered =
      let (m, em) = first-some l c r in
      let (x, ex) = last-some l c r in
      (
        search_by-range s s.meta.root (λ n. o.cmp n.key key) m.here x.here
              (range
                ∙ ap (λ y. pair (ref y) (ref (last (fork l c r)))) em
                ∙ ap (λ y. pair (some m.here) (ref y)) ex)
            ∙ ap (λ y. search_between y (λ n. o.cmp n.key key) m.here x.here s) foc.rooted
            ∙ search_between-descend key l c r m x foc em ex ordered,
        descend-scan key (fork l c r) empty ordered refl,
      )
