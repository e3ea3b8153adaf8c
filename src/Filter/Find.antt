-- ===== src/Filter/Find.antt =====
-- That a filter of src/tree/iter.rs by a comparison of keys finds what `get` of src/tree/interface.rs
-- does.
use Prim.Native.Nat.Ordering.{lt, gt}
use rb_forest.Base.{
  ℕ, ◌<◌, ◌≡◌, refl, Option, none, some, List, [], ◌∷◌, ◌++◌, done, map, ap, sym, subst, ◌∙◌, inl,
  inr, if◌then◌else◌,
}
use mathlib.Core.List.{append-nil}
use rb_forest.Order.{Ord, reverse, is_eq}
use rb_forest.Node.{NodeIndex, Value}
use rb_forest.Guard.{Guard}
use rb_forest.Tree.{map_option}
use rb_forest.Interface.{get}
use rb_forest.Filter.{SearchAction, from_ordering, filter, collect_filter}
use rb_forest.Filter.Pruned.{pruned, collect_filter-pruned}
use rb_forest.Shape.{Shape, leaf, fork}
use rb_forest.Shape.Entries.{Entry, entry, entries}
use rb_forest.Shape.Rounds.{size}
use rb_forest.Sequence.{All, All-map, of_All-append, IsSorted, of_IsSorted-append}
use rb_forest.Lookup.{Ordering-cases, lower, higher}
use rb_forest.Dictionary.{IsTree, contents, binding, lookup}
use rb_forest.Dictionary.Put.{lookup-less, lookup-more}
use rb_forest.Dictionary.Read.{get-lookup}

module _ {K L : Type 0} where
  abbrev pub as_list : K → Option L → List (K × L)
  as_list key none = []
  as_list key (some l) = (key, l) ∷ []

module _ {K L : Type 0} ⦃o : Ord K⦄ where
  -- `|k, _| k.cmp(key).into()`
  abbrev pub by_key : K → K → L → SearchAction
  by_key key k local = from_ordering (o.cmp k key)

  lookup-upto :
      (key : K) (xs ys : List (Entry K L))
      → All (λ d. o.cmp d.key key ≡ gt) ys
      → lookup key (map binding (xs ++ ys)) ≡ lookup key (map binding xs)
  lookup-upto key [] ys more = lookup-more key ys more
  lookup-upto key (x ∷ xs) ys more =
      ap (λ z. if is_eq (o.cmp x.key key) then some x.local else z) (lookup-upto key xs ys more)

module _ {K V : Type 0} ⦃o : Ord K⦄ ⦃val : Value V⦄ where
  pruned-less :
      (key : K) (t : Shape K V)
      → All (λ e. o.cmp e.key key ≡ lt) (entries t)
      → pruned (by_key key) t ≡ []
  pruned-less key leaf less = refl
  pruned-less key (fork l c r) less =
      let parts =
        of_All-append (λ e. o.cmp e.key key ≡ lt) (entries l) (entry c ∷ entries r) less in
      rw (parts.1.0, pruned-less key r parts.1.1) refl

  pruned-more :
      (key : K) (t : Shape K V)
      → All (λ e. o.cmp e.key key ≡ gt) (entries t)
      → pruned (by_key key) t ≡ []
  pruned-more key leaf more = refl
  pruned-more key (fork l c r) more =
      let parts =
        of_All-append (λ e. o.cmp e.key key ≡ gt) (entries l) (entry c ∷ entries r) more in
      rw (parts.1.0, pruned-more key l parts.0) refl

  pruned-lookup :
      (key : K) (t : Shape K V)
      → IsSorted (entries t)
      → pruned (by_key key) t ≡ as_list key (lookup key (contents t))
  pruned-lookup key leaf sorted = refl
  pruned-lookup key (fork l c r) sorted =
      let parts = of_IsSorted-append (entries l) (entry c ∷ entries r) sorted in
      elim (Ordering-cases (o.cmp c.key key)) [
        | inl f ↦
            let low = All-map (entries l) (λ x g. lower x.key c.key key g.0 f) parts.2 in
            rw (lookup-less key (entries l) (entry c ∷ entries r) low, f)
              (append-nil (pruned (by_key key) r) ∙ pruned-lookup key r parts.1.1)
        | inr (inl f) ↦
            let same = o.same_key c.key key f in
            let low =
              All-map (entries l) (λ x g. subst (λ k. o.cmp x.key k ≡ lt) same g.0) parts.2 in
            let high =
              All-map (entries r)
                (λ x g.
                  sym (o.reverse-cmp key x.key)
                  ∙ ap reverse (subst (λ k. o.cmp k x.key ≡ lt) same g))
                parts.1.0 in
            rw
              (
                lookup-less key (entries l) (entry c ∷ entries r) low,
                f,
                pruned-more key r high,
                pruned-less key l low,
              )
              (ap (λ k. (k, val.into c.value) ∷ []) same)
        | inr (inr f) ↦
            let high = All-map (entries r) (λ x g. higher x.key c.key key g f) parts.1.0 in
            rw f (
              pruned-lookup key l parts.0
              ∙ ap (as_list key)
                  (sym (lookup-upto key (entries l) (entry c ∷ entries r) (f, high))))
      ]

  -- On a well-formed tree, a loop over `filter` with the comparison of each key with a given one as the
  -- action, given more rounds than the tree has nodes, does not fail, and sees what `get` returns: the
  -- key with the local data of the value found, or nothing if none is found.
  pub filter-get :
      (fuel more : ℕ) (s : Guard K V) (key : K) (t : Shape K V)
      → IsTree s t
      → size t < fuel
      → size t < more
      → (v : Option V) × (stack : List NodeIndex) × (get key s ≡ done v)
        × (filter s ≡ done stack)
        × (collect_filter (by_key key) fuel more stack s
            ≡ done (as_list key (map_option val.into v)))
  filter-get fuel more s key t h le le' =
      let (v, found, looked) = get-lookup key t h in
      let (stack, start, seen) = collect_filter-pruned (by_key key) fuel more s t h.focus le le' in
      (
        v,
        stack,
        found,
        start,
        seen ∙ ap done (pruned-lookup key t h.sorted ∙ ap (as_list key) (sym looked)),
      )
