-- ===== src/Lookup/Edges.antt =====
-- The tests of `search_by` in src/tree/mod.rs at the ends of the range agree with the descent.
use Prim.Native.Nat.Ordering.{lt, eq, gt}
use rb_forest.Base.{◌≡◌, refl, some, arith, ◌∙◌, ap, sym}
use rb_forest.Order.{Ord, reverse}
use rb_forest.Node.{NodeIndex}
use rb_forest.Tree.Search.{SearchResult, left_of, here, right_of}
use rb_forest.Shape.{Cell, Shape, leaf, fork}
use rb_forest.Lookup.{first, last, first-AllOf, last-AllOf, higher, IsOrdered, descend}

module _ {K V : Type 0} ⦃o : Ord K⦄ where
  descend-gt :
      (key : K) (l : Shape K V) (c : Cell K V) (r : Shape K V) (d : SearchResult NodeIndex)
      → o.cmp c.key key ≡ gt
      → descend key (fork l c r) d ≡ descend key l (left_of c.here)
  descend-gt key l c r d e = rw (descend, e) refl

  descend-lt :
      (key : K) (l : Shape K V) (c : Cell K V) (r : Shape K V) (d : SearchResult NodeIndex)
      → o.cmp c.key key ≡ lt
      → descend key (fork l c r) d ≡ descend key r (right_of c.here)
  descend-lt key l c r d e = rw (descend, e) refl

  descend-eq :
      (key : K) (l : Shape K V) (c : Cell K V) (r : Shape K V) (d : SearchResult NodeIndex)
      → o.cmp c.key key ≡ eq
      → descend key (fork l c r) d ≡ here c.here
  descend-eq key l c r d e = rw (descend, e) refl

  -- A key that is at most the lowest is found at the end of the left edge.
  pub first-gt :
      (key : K) (t : Shape K V) (m : Cell K V) (d : SearchResult NodeIndex)
      → IsOrdered t
      → first t ≡ some m
      → o.cmp m.key key ≡ gt
      → descend key t d ≡ left_of m.here
  first-gt key leaf m d ordered e f = absurd (cc)
  first-gt key (fork leaf c r) m d ordered e f =
      let e' : m ≡ c = ground arith in
      descend-gt key leaf c r d (ap (λ (x : Cell K V). o.cmp x.key key) (sym e') ∙ f)
      ∙ ap (λ (x : Cell K V). left_of x.here) (sym e')
  first-gt key (fork (fork a x b) c r) m d ordered e f =
      let below = first-AllOf (λ y. o.cmp y.key c.key ≡ lt) (fork a x b) m e ordered.0 in
      descend-gt key (fork a x b) c r d (higher c.key m.key key below f)
      ∙ first-gt key (fork a x b) m (left_of c.here) ordered.2 e f

  pub first-eq :
      (key : K) (t : Shape K V) (m : Cell K V) (d : SearchResult NodeIndex)
      → IsOrdered t
      → first t ≡ some m
      → o.cmp m.key key ≡ eq
      → descend key t d ≡ here m.here
  first-eq key leaf m d ordered e f = absurd (cc)
  first-eq key (fork leaf c r) m d ordered e f =
      let e' : m ≡ c = ground arith in
      descend-eq key leaf c r d (ap (λ (x : Cell K V). o.cmp x.key key) (sym e') ∙ f)
      ∙ ap (λ (x : Cell K V). here x.here) (sym e')
  first-eq key (fork (fork a x b) c r) m d ordered e f =
      let below = first-AllOf (λ y. o.cmp y.key c.key ≡ lt) (fork a x b) m e ordered.0 in
      descend-gt key (fork a x b) c r d (
        ap (o.cmp c.key) (sym (o.same_key m.key key f))
        ∙ sym (o.reverse-cmp m.key c.key)
        ∙ ap reverse below)
      ∙ first-eq key (fork a x b) m (left_of c.here) ordered.2 e f

  -- A key that is at least the highest is found at the end of the right edge.
  pub last-lt :
      (key : K) (t : Shape K V) (m : Cell K V) (d : SearchResult NodeIndex)
      → IsOrdered t
      → last t ≡ some m
      → o.cmp m.key key ≡ lt
      → descend key t d ≡ right_of m.here
  last-lt key leaf m d ordered e f = absurd (cc)
  last-lt key (fork l c leaf) m d ordered e f =
      let e' : m ≡ c = ground arith in
      descend-lt key l c leaf d (ap (λ (x : Cell K V). o.cmp x.key key) (sym e') ∙ f)
      ∙ ap (λ (x : Cell K V). right_of x.here) (sym e')
  last-lt key (fork l c (fork a x b)) m d ordered e f =
      let above = last-AllOf (λ y. o.cmp c.key y.key ≡ lt) (fork a x b) m e ordered.1 in
      descend-lt key l c (fork a x b) d (o.between c.key m.key key above f)
      ∙ last-lt key (fork a x b) m (right_of c.here) ordered.3 e f

  pub last-eq :
      (key : K) (t : Shape K V) (m : Cell K V) (d : SearchResult NodeIndex)
      → IsOrdered t
      → last t ≡ some m
      → o.cmp m.key key ≡ eq
      → descend key t d ≡ here m.here
  last-eq key leaf m d ordered e f = absurd (cc)
  last-eq key (fork l c leaf) m d ordered e f =
      let e' : m ≡ c = ground arith in
      descend-eq key l c leaf d (ap (λ (x : Cell K V). o.cmp x.key key) (sym e') ∙ f)
      ∙ ap (λ (x : Cell K V). here x.here) (sym e')
  last-eq key (fork l c (fork a x b)) m d ordered e f =
      let above = last-AllOf (λ y. o.cmp c.key y.key ≡ lt) (fork a x b) m e ordered.1 in
      descend-lt key l c (fork a x b) d (ap (o.cmp c.key) (sym (o.same_key m.key key f)) ∙ above)
      ∙ last-eq key (fork a x b) m (right_of c.here) ordered.3 e f
