-- ===== src/Dictionary/Ends.antt =====
-- `min`, `max` and `is_empty` of src/tree/interface.rs on a tree.
use rb_forest.Base.{
  ◌≡◌, refl, Option, none, some, List, [], ◌∷◌, ◌++◌, done, ap, sym, ◌∙◌, Pair, map, arith,
}
use rb_forest.Order.{Ord}
use rb_forest.Node.{NodeRef, Value}
use rb_forest.Guard.{Guard}
use rb_forest.Guard.Laws.{view, node_at-done}
use rb_forest.Interface.{min_key, max_key}
use rb_forest.Shape.{Cell, Shape, leaf, fork}
use rb_forest.Shape.Entries.{Entry, entry, entries}
use rb_forest.Lookup.{first, last, ref, first-AllOf, last-AllOf}
use rb_forest.Lookup.Find.{first-some, last-some, Stands, Holds-Stands}
use rb_forest.Dictionary.{IsTree, contents, binding}
use rb_forest.Dictionary.Place.{ends-entries}

module _ {K L : Type 0} where
  -- The first key of a list and its last one, or the default.
  abbrev pub first_key : Option K → List (K × L) → Option K
  first_key d [] = d
  first_key d (b ∷ bs) = some b.0

  abbrev pub last_key : Option K → List (K × L) → Option K
  last_key d [] = d
  last_key d (b ∷ bs) = last_key (some b.0) bs

  first_key-append :
      (d : Option K) (xs ys : List (Entry K L))
      → first_key d (map binding (xs ++ ys))
        ≡ first_key (first_key d (map binding ys)) (map binding xs)
  first_key-append d [] ys = refl
  first_key-append d (x ∷ xs) ys = refl

  last_key-append :
      (d : Option K) (xs ys : List (Entry K L))
      → last_key d (map binding (xs ++ ys))
        ≡ last_key (last_key d (map binding xs)) (map binding ys)
  last_key-append d [] ys = refl
  last_key-append d (x ∷ xs) ys = last_key-append (some x.key) xs ys

module _ {K V : Type 0} ⦃val : Value V⦄ where
  first-key :
      (d : Option K) (l : Shape K V) (c : Cell K V) (r : Shape K V) (m : Cell K V)
      → first (fork l c r) ≡ some m
      → first_key d (map binding (entries (fork l c r))) ≡ some m.key
  first-key d leaf c r m e =
      let same : m ≡ c = ground arith in ap (λ (x : Cell K V). some x.key) (sym same)
  first-key d (fork a x b) c r m e =
      first_key-append d (entries (fork a x b)) (entry c ∷ entries r)
      ∙ first-key (some c.key) a x b m e

  last-key :
      (d : Option K) (l : Shape K V) (c : Cell K V) (r : Shape K V) (m : Cell K V)
      → last (fork l c r) ≡ some m
      → last_key d (map binding (entries (fork l c r))) ≡ some m.key
  last-key d l c leaf m e =
      last_key-append d (entries l) (entry c ∷ [])
      ∙ (let same : m ≡ c = ground arith in ap (λ (x : Cell K V). some x.key) (sym same))
  last-key d l c (fork a x b) m e =
      last_key-append d (entries l) (entry c ∷ entries (fork a x b))
      ∙ last-key (some c.key) a x b m e

  min_key-none : (s : Guard K V) → s.meta.range.at0 ≡ none → min_key s ≡ done none
  unfolding min_key
  min_key-none s e = simp (min_key, e) refl

  max_key-none : (s : Guard K V) → s.meta.range.at1 ≡ none → max_key s ≡ done none
  unfolding max_key
  max_key-none s e = simp (max_key, e) refl

  min_key-some :
      (s : Guard K V) (c : Cell K V)
      → s.meta.range.at0 ≡ some c.here
      → Stands (view s) c
      → min_key s ≡ done (some c.key)
  unfolding min_key
  min_key-some s c e h =
      simp (min_key, e) (rw (node_at-done s c.here h.1) (ap (λ k. done (some k)) h.2))

  max_key-some :
      (s : Guard K V) (c : Cell K V)
      → s.meta.range.at1 ≡ some c.here
      → Stands (view s) c
      → max_key s ≡ done (some c.key)
  unfolding max_key
  max_key-some s c e h =
      simp (max_key, e) (rw (node_at-done s c.here h.1) (ap (λ k. done (some k)) h.2))

module _ {K V : Type 0} ⦃o : Ord K⦄ ⦃val : Value V⦄ where
  -- `min` and `max` of a well-formed tree: they do not fail, and are the first and the last key of its
  -- contents, or none if it is empty.
  pub min_key-first_key :
      {s : Guard K V} (t : Shape K V)
      → IsTree s t
      → (min_key s ≡ done (first_key none (contents t)))
        × (max_key s ≡ done (last_key none (contents t)))
  min_key-first_key {s} leaf h = (
    min_key-none s (ap (λ (r : Pair NodeRef). r.at0) h.range),
    max_key-none s (ap (λ (r : Pair NodeRef). r.at1) h.range),
  )
  min_key-first_key {s} (fork l c r) h =
      let t = fork l c r in
      let all = Holds-Stands (view s) none t h.focus.inside in
      let (m, em) = first-some l c r in
      let (x, ex) = last-some l c r in
      let range = h.range ∙ ends-entries t in
      (
        min_key-some s m (ap (λ (p : Pair NodeRef). p.at0) range ∙ ap ref em)
              (first-AllOf (Stands (view s)) t m em all)
            ∙ ap (λ k. done k) (sym (first-key none l c r m em)),
        max_key-some s x (ap (λ (p : Pair NodeRef). p.at1) range ∙ ap ref ex)
              (last-AllOf (Stands (view s)) t x ex all)
            ∙ ap (λ k. done k) (sym (last-key none l c r x ex)),
      )
