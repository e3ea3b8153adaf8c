-- ===== src/Dictionary/Read.antt =====
-- `get` and `contains` of src/tree/interface.rs on a tree, as reads of a sorted map.
use rb_forest.Base.{
  ◌≡◌, refl, false, Option, none, some, left, right, ◌∷◌, ◌++◌, done, ap, sym, subst, ◌∙◌, inl, inr,
  map,
}
use rb_forest.Order.{Ord}
use rb_forest.Node.{NodeIndex, Value}
use rb_forest.Guard.{Guard}
use rb_forest.Guard.Laws.{node_at-done}
use rb_forest.Tree.{map_option}
use rb_forest.Tree.Search.{SearchResult, search, empty, into_here, is_here}
use rb_forest.Interface.{get, contains}
use rb_forest.Shape.{Shape, Context, fork, top, below, Focus}
use rb_forest.Shape.Unplug.{Focus-plug}
use rb_forest.Shape.Entries.{entry, entries}
use rb_forest.Shape.Parts.{before, after}
use rb_forest.Lookup.{descend}
use rb_forest.Lookup.Find.{search-scan}
use rb_forest.Dictionary.{IsTree, contents, binding, lookup, has_key}
use rb_forest.Dictionary.Splice.{entries-vacant, split_entries}
use rb_forest.Dictionary.Place.{descend-Place, vacancy, IsSorted-IsOrdered, ends-entries}
use rb_forest.Dictionary.Put.{has_key-less, has_key-more, lookup-less, lookup-more}

module _ {K V : Type 0} ⦃o : Ord K⦄ ⦃val : Value V⦄ where
  vacancy-not_here : (ctx : Context K V) → is_here (vacancy ctx) ≡ false
  unfolding is_here
  vacancy-not_here top = refl
  vacancy-not_here (below left c u ctx) = refl
  vacancy-not_here (below right c u ctx) = refl

  pub searched :
      {s : Guard K V} (key : K) (t : Shape K V)
      → IsTree s t
      → search s.meta.root key s ≡ done (descend key t empty)
  searched key t h =
      (search-scan key t h.focus (h.range ∙ ends-entries t) (IsSorted-IsOrdered t h.sorted)).0

  get-absent :
      (s : Guard K V) (key : K) (ctx : Context K V)
      → search s.meta.root key s ≡ done (vacancy ctx)
      → get key s ≡ done none
  unfolding get into_here
  get-absent s key top found = rw found refl
  get-absent s key (below left c u ctx) found = rw found refl
  get-absent s key (below right c u ctx) found = rw found refl

  contains-search :
      (s : Guard K V) (key : K) (r : SearchResult NodeIndex)
      → search s.meta.root key s ≡ done r
      → contains key s ≡ done (is_here r)
  unfolding contains
  contains-search s key r found = rw found refl

  -- `get` in a tree: it does not fail, and returns the value whose local data its contents bind to the
  -- key, or none if they do not bind it.
  pub get-lookup :
      {s : Guard K V} (key : K) (t : Shape K V)
      → IsTree s t
      → (v : Option V) × (get key s ≡ done v) × (map_option val.into v ≡ lookup key (contents t))
  unfolding get into_here
  get-lookup {s} key t h = elim (descend-Place key t top h.sorted tt tt) [
    | inl x ↦
        let foc =
          Focus-plug x.context (fork x.low x.cell x.high)
            (subst (Focus s top) (sym x.plugged) h.focus) in
        (
          some x.cell.value,
          rw (searched key t h, x.result, node_at-done s x.cell.here foc.inside.0) refl,
          sym (
              ap (λ y. lookup key (contents y)) (sym x.plugged)
              ∙ ap (λ es. lookup key (map binding es)) (split_entries x.context x.low x.cell x.high)
              ∙ lookup-less key (before x.context ++ entries x.low)
                  (entry x.cell ∷ (entries x.high ++ after x.context)) x.less
              ∙ rw x.equal refl),
        )
    | inr x ↦ (
      none,
      get-absent s key x.context (searched key t h ∙ ap (λ r. done r) x.result),
      sym (
          ap (λ y. lookup key (contents y)) (sym x.plugged)
          ∙ ap (λ es. lookup key (map binding es)) (entries-vacant x.context)
          ∙ lookup-less key (before x.context) (after x.context) x.less
          ∙ lookup-more key (after x.context) x.more),
    )
  ]

  -- `contains` in a tree: it does not fail, and tells whether its contents bind the key.
  pub contains-has_key :
      {s : Guard K V} (key : K) (t : Shape K V)
      → IsTree s t
      → contains key s ≡ done (has_key key (contents t))
  unfolding contains is_here
  contains-has_key {s} key t h = elim (descend-Place key t top h.sorted tt tt) [
    | inl x ↦
        contains-search s key (descend key t empty) (searched key t h)
        ∙ ap (λ b. done b)
            (ap is_here x.result
              ∙ sym (
                  ap (λ y. has_key key (contents y)) (sym x.plugged)
                  ∙ ap (λ es. has_key key (map binding es))
                      (split_entries x.context x.low x.cell x.high)
                  ∙ has_key-less key (before x.context ++ entries x.low)
                      (entry x.cell ∷ (entries x.high ++ after x.context)) x.less
                  ∙ rw x.equal refl))
    | inr x ↦
        contains-search s key (descend key t empty) (searched key t h)
        ∙ ap (λ b. done b)
            (ap is_here x.result
              ∙ vacancy-not_here x.context
              ∙ sym (
                  ap (λ y. has_key key (contents y)) (sym x.plugged)
                  ∙ ap (λ es. has_key key (map binding es)) (entries-vacant x.context)
                  ∙ has_key-less key (before x.context) (after x.context) x.less
                  ∙ has_key-more key (after x.context) x.more))
  ]
