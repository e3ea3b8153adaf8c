-- ===== src/Lookup/Descent.antt =====
-- The descent of `search_by` in src/tree/mod.rs, and what it finds.
use Prim.Native.Nat.Ordering.{lt}
use rb_forest.Base.{
  ℕ, zero, suc, ◌≤◌, ◌≡◌, refl, Bool, true, false, none, some, List, [], ◌∷◌, ◌++◌, if◌then◌else◌,
  done, arith, ◌∙◌, ap, subst, inl, inr,
}
use mathlib.Core.List.{append_assoc}
use rb_forest.Order.{Ord}
use rb_forest.Node.{NodeIndex, NodeRef}
use rb_forest.Guard.{Guard}
use rb_forest.Guard.Laws.{view, node_at-done}
use rb_forest.Tree.Search.{SearchResult, left_of, right_of, into_here, search_loop}
use rb_forest.Shape.Rounds.{size}
use rb_forest.Shape.{Cell, Shape, leaf, fork, root, Holds}
use rb_forest.Lookup.{
  is_eq, Ordering-cases, cells, AllOf, AllOf-map, lower, higher, IsOrdered, descend, scan,
}

module _ {K V : Type 0} ⦃o : Ord K⦄ where
  pub search_loop-descend :
      (s : Guard K V) (key : K) (fuel : ℕ) (parent : NodeRef) (t : Shape K V) (p : NodeIndex)
      (b : Bool)
      → Holds (view s) parent t
      → size t ≤ fuel
      → search_loop (λ n. o.cmp n.key key) fuel (root t) (some p) b s
        ≡ done (descend key t (if b then left_of p else right_of p))
  unfolding search_loop
  search_loop-descend s key fuel parent leaf p b held le = refl
  search_loop-descend s key zero parent (fork l c r) p b held le = absurd (omega arith)
  search_loop-descend s key (suc fuel) parent (fork l c r) p b held le =
      elim (Ordering-cases (o.cmp c.key key)) [
        | inl e ↦
            rw (node_at-done s c.here held.0, descend, e)
              (search_loop-descend s key fuel (some c.here) r c.here false held.2 (omega arith))
        | inr (inl e) ↦ rw (node_at-done s c.here held.0, descend, e) refl
        | inr (inr e) ↦
            rw (node_at-done s c.here held.0, descend, e)
              (search_loop-descend s key fuel (some c.here) l c.here true held.1 (omega arith))
      ]

  scan-skip :
      (key : K) (t : Shape K V) (rest : List (Cell K V))
      → AllOf (λ d. is_eq (o.cmp d.key key) ≡ false) t
      → scan key (cells t ++ rest) ≡ scan key rest
  scan-skip key leaf rest all = refl
  scan-skip key (fork l c r) rest all =
      ap (scan key) (append_assoc (cells l) (c ∷ cells r) rest)
      ∙ scan-skip key l (c ∷ cells r ++ rest) all.1
      ∙ rw all.0 (scan-skip key r rest all.2)

  scan-short :
      (key : K) (xs rest : List (Cell K V))
      → scan key rest ≡ none
      → scan key (xs ++ rest) ≡ scan key xs
  scan-short key [] rest e = e
  scan-short key (x ∷ xs) rest e = rw (scan-short key xs rest e)

  scan-none :
      (key : K) (t : Shape K V)
      → AllOf (λ d. is_eq (o.cmp d.key key) ≡ false) t
      → scan key (cells t) ≡ none
  scan-none key leaf all = refl
  scan-none key (fork l c r) all =
      scan-skip key l (c ∷ cells r) all.1 ∙ rw all.0 (scan-none key r all.2)

  pub descend-scan :
      (key : K) (t : Shape K V) (d : SearchResult NodeIndex)
      → IsOrdered t
      → into_here d ≡ none
      → into_here (descend key t d) ≡ scan key (cells t)
  unfolding into_here
  descend-scan key leaf d ordered e = e
  descend-scan key (fork l c r) d ordered e = elim (Ordering-cases (o.cmp c.key key)) [
    | inl f ↦
        let skip =
          scan-skip key l (c ∷ cells r)
            (AllOf-map l (λ x g. ap is_eq (lower x.key c.key key g f)) ordered.0) in
        rw (skip, descend, f) (descend-scan key r (right_of c.here) ordered.3 refl)
    | inr (inl f) ↦
        let same = o.same_key c.key key f in
        let skip =
          scan-skip key l (c ∷ cells r)
            (AllOf-map l (λ x g. ap is_eq (subst (λ k. o.cmp x.key k ≡ lt) same g)) ordered.0) in
        rw (skip, descend, f) refl
    | inr (inr f) ↦
        let nothing =
          scan-none key r (AllOf-map r (λ x g. ap is_eq (higher x.key c.key key g f)) ordered.1) in
        let short = scan-short key (cells l) (c ∷ cells r) (rw f nothing) in
        rw (short, descend, f) (descend-scan key l (left_of c.here) ordered.2 refl)
  ]
