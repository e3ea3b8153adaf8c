-- ===== src/Dictionary/Place.antt =====
-- Where the descent of `search_by` in src/tree/mod.rs ends, and what stands on both sides of it.
use Prim.Native.Nat.Ordering.{lt, eq, gt}
use rb_forest.Base.{
  ◌≡◌, refl, none, some, [], ◌∷◌, ◌++◌, left, right, pair, ap, sym, subst, ◌∙◌, ◌⊎◌, inl, inr,
}
use rb_forest.Order.{Ord}
use rb_forest.Node.{NodeIndex, NodeRef, Value}
use rb_forest.Tree.Search.{SearchResult, empty, left_of, here, right_of}
use rb_forest.Shape.{Cell, Shape, leaf, fork, Context, top, below, plug}
use rb_forest.Shape.Entries.{entry, entries}
use rb_forest.Shape.Parts.{before, after}
use rb_forest.Sequence.{
  All, All-append, of_All-append, All-map, first_or, last_or, first_or-append, last_or-append,
  IsSorted, of_IsSorted-append,
}
use rb_forest.Lookup.{Ordering-cases, AllOf, first, last, ref, lower, higher, IsOrdered, descend}

module _ {K V : Type 0} where
  -- The result of a descent to a vacancy.
  abbrev pub vacancy : Context K V → SearchResult NodeIndex
  vacancy top = empty
  vacancy (below left c u ctx) = left_of c.here
  vacancy (below right c u ctx) = right_of c.here

module _ {K V : Type 0} ⦃o : Ord K⦄ ⦃val : Value V⦄ where
  pub record Present (key : K) (whole : Shape K V) (r : SearchResult NodeIndex) : Type 0 where
    pub context : Context K V
    pub low : Shape K V
    pub cell : Cell K V
    pub high : Shape K V
    pub plugged : plug context (fork low cell high) ≡ whole
    pub result : r ≡ here cell.here
    pub equal : o.cmp cell.key key ≡ eq
    pub less : All (λ e. o.cmp e.key key ≡ lt) (before context ++ entries low)

  pub record Vacant (key : K) (whole : Shape K V) (r : SearchResult NodeIndex) : Type 0 where
    pub context : Context K V
    pub plugged : plug context leaf ≡ whole
    pub result : r ≡ vacancy context
    pub less : All (λ e. o.cmp e.key key ≡ lt) (before context)
    pub more : All (λ e. o.cmp e.key key ≡ gt) (after context)

  pub descend-Place :
      (key : K) (t : Shape K V) (ctx : Context K V)
      → IsSorted (entries t)
      → All (λ e. o.cmp e.key key ≡ lt) (before ctx)
      → All (λ e. o.cmp e.key key ≡ gt) (after ctx)
      → Present key (plug ctx t) (descend key t (vacancy ctx))
        ⊎ Vacant key (plug ctx t) (descend key t (vacancy ctx))
  descend-Place key leaf ctx sorted less more =
      inr record { context = ctx; plugged = refl; result = refl; less = less; more = more }
  descend-Place key (fork l c r) ctx sorted less more =
      let parts = of_IsSorted-append (entries l) (entry c ∷ entries r) sorted in
      elim (Ordering-cases (o.cmp c.key key)) [
        | inl f ↦
            let low = All-map (entries l) (λ x g. lower x.key c.key key g.0 f) parts.2 in
            rw (descend, f)
              (descend-Place key r (below right c l ctx) parts.1.1
                (All-append (λ e. o.cmp e.key key ≡ lt) (before ctx ++ entries l) (entry c ∷ [])
                  (All-append (λ e. o.cmp e.key key ≡ lt) (before ctx) (entries l) less low)
                  (f, tt))
                more)
        | inr (inl f) ↦ inl record {
          context = ctx;
          low = l;
          cell = c;
          high = r;
          plugged = refl;
          result = rw (descend, f) refl;
          equal = f;
          less =
              All-append (λ e. o.cmp e.key key ≡ lt) (before ctx) (entries l) less
                (All-map (entries l)
                  (λ x g. subst (λ k. o.cmp x.key k ≡ lt) (o.same_key c.key key f) g.0) parts.2);
        }
        | inr (inr f) ↦
            let high = All-map (entries r) (λ x g. higher x.key c.key key g f) parts.1.0 in
            rw (descend, f)
              (descend-Place key l (below left c r ctx) parts.0 less (
                All-append (λ e. o.cmp e.key key ≡ gt) (entry c ∷ entries r) (after ctx) (f, high)
                  more))
      ]

  AllOf-entries :
      (P : K → Type 0) (t : Shape K V) → All (λ e. P e.key) (entries t) → AllOf (λ c. P c.key) t
  AllOf-entries P leaf all = tt
  AllOf-entries P (fork l c r) all =
      let parts = of_All-append (λ e. P e.key) (entries l) (entry c ∷ entries r) all in
      (parts.1.0, AllOf-entries P l parts.0, AllOf-entries P r parts.1.1)

  pub IsSorted-IsOrdered : (t : Shape K V) → IsSorted (entries t) → IsOrdered t
  IsSorted-IsOrdered leaf sorted = tt
  IsSorted-IsOrdered (fork l c r) sorted =
      let parts = of_IsSorted-append (entries l) (entry c ∷ entries r) sorted in
      (
        AllOf-entries (λ k. o.cmp k c.key ≡ lt) l (All-map (entries l) (λ x g. g.0) parts.2),
        AllOf-entries (λ k. o.cmp c.key k ≡ lt) r parts.1.0,
        IsSorted-IsOrdered l parts.0,
        IsSorted-IsOrdered r parts.1.1,
      )

module _ {K V : Type 0} ⦃val : Value V⦄ where
  first-fork :
      (d : NodeRef) (l : Shape K V) (c : Cell K V) (r : Shape K V)
      → ref (first (fork l c r)) ≡ first_or d (entries (fork l c r))
  first-fork d leaf c r = refl
  first-fork d (fork a x b) c r =
      first-fork (some c.here) a x b
      ∙ sym (first_or-append d (entries (fork a x b)) (entry c ∷ entries r))

  last-fork :
      (d : NodeRef) (l : Shape K V) (c : Cell K V) (r : Shape K V)
      → ref (last (fork l c r)) ≡ last_or d (entries (fork l c r))
  last-fork d l c leaf = sym (last_or-append d (entries l) (entry c ∷ []))
  last-fork d l c (fork a x b) =
      last-fork (some c.here) a x b
      ∙ sym (last_or-append d (entries l) (entry c ∷ entries (fork a x b)))

  -- The ends of a tree.
  pub ends-entries :
      (t : Shape K V)
      → pair (first_or none (entries t)) (last_or none (entries t))
        ≡ pair (ref (first t)) (ref (last t))
  ends-entries leaf = refl
  ends-entries (fork l c r) =
      ap (λ x. pair x (last_or none (entries (fork l c r)))) (sym (first-fork none l c r))
      ∙ ap (λ x. pair (ref (first (fork l c r))) x) (sym (last-fork none l c r))
