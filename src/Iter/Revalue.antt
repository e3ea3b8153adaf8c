-- ===== src/Iter/Revalue.antt =====
-- A tree with the local data of each cell changed, as a loop over the mutable iterator of
-- src/tree/iter.rs leaves it.
use Prim.Native.Nat.Ordering.{lt}
use rb_forest.Base.{◌<◌, ◌≡◌, refl, some, List, [], ◌∷◌, map, pair, arith, ap, sym, ◌∙◌}
use mathlib.Core.List.{map-append}
use rb_forest.Order.{Ord}
use rb_forest.Node.{NodeIndex, NodeRef, Value}
use rb_forest.Tree.{map_option}
use rb_forest.Iter.{change_node}
use rb_forest.Shape.{Cell, Shape, leaf, fork, Heap, root, node_of, count, Holds}
use rb_forest.Shape.Balance.{height, top_weight, IsBalanced}
use rb_forest.Shape.Entries.{Entry, entry, entries}
use rb_forest.Sequence.{All, first_or, last_or, IsThreaded, IsSorted}
use rb_forest.Dictionary.{binding}

module _ {K L : Type 0} (f : K → L → L) where
  abbrev pub relocal_by : Entry K L → Entry K L
  relocal_by e = record e { local = f e.key e.local }

  pub first_or-relocal_by :
      (d : NodeRef) (es : List (Entry K L)) → first_or d (map relocal_by es) ≡ first_or d es
  first_or-relocal_by d [] = refl
  first_or-relocal_by d (e ∷ es) = refl

  pub last_or-relocal_by :
      (d : NodeRef) (es : List (Entry K L)) → last_or d (map relocal_by es) ≡ last_or d es
  last_or-relocal_by d [] = refl
  last_or-relocal_by d (e ∷ es) = last_or-relocal_by (some e.here) es

  pub IsThreaded-relocal_by :
      (prev next : NodeRef) (es : List (Entry K L))
      → IsThreaded prev es next
      → IsThreaded prev (map relocal_by es) next
  IsThreaded-relocal_by prev next [] h = tt
  IsThreaded-relocal_by prev next (e ∷ es) h = (
    h.0 ∙ ap (λ r. pair prev r) (sym (first_or-relocal_by next es)),
    IsThreaded-relocal_by (some e.here) next es h.1,
  )

  All-relocal_by :
      (P : K → Type 0) (es : List (Entry K L))
      → All (λ e. P e.key) es
      → All (λ e. P e.key) (map relocal_by es)
  All-relocal_by P [] h = tt
  All-relocal_by P (e ∷ es) h = (h.0, All-relocal_by P es h.1)

  pub binding-relocal_by :
      (es : List (Entry K L))
      → map binding (map relocal_by es) ≡ map (λ b. (b.0, f b.0 b.1)) (map binding es)
  binding-relocal_by [] = refl
  binding-relocal_by (e ∷ es) = ap (λ bs. (e.key, f e.key e.local) ∷ bs) (binding-relocal_by es)

module _ {K L : Type 0} ⦃o : Ord K⦄ (f : K → L → L) where
  pub IsSorted-relocal_by : (es : List (Entry K L)) → IsSorted es → IsSorted (map (relocal_by f) es)
  IsSorted-relocal_by [] h = tt
  IsSorted-relocal_by (e ∷ es) h =
      (All-relocal_by f (λ k. o.cmp e.key k ≡ lt) es h.0, IsSorted-relocal_by es h.1)

module _ {K V : Type 0} ⦃val : Value V⦄ (f : K → val.Local → val.Local) where
  abbrev pub revalued : Shape K V → Shape K V
  revalued leaf = leaf
  revalued (fork l c r) =
      fork (revalued l) (record c { value = val.change (f c.key) c.value }) (revalued r)

  pub root-revalued : (t : Shape K V) → root (revalued t) ≡ root t
  root-revalued leaf = refl
  root-revalued (fork l c r) = refl

  pub count-revalued : (q : NodeIndex) (t : Shape K V) → count q (revalued t) ≡ count q t
  count-revalued q leaf = refl
  count-revalued q (fork l c r) = omega (arith, count-revalued q l, count-revalued q r)

  pub height-revalued : (t : Shape K V) → height (revalued t) ≡ height t
  height-revalued leaf = refl
  height-revalued (fork l c r) = omega (arith, height-revalued l)

  pub top_weight-revalued : (t : Shape K V) → top_weight (revalued t) ≡ top_weight t
  top_weight-revalued leaf = refl
  top_weight-revalued (fork l c r) = refl

  pub IsBalanced-revalued : (t : Shape K V) → IsBalanced t → IsBalanced (revalued t)
  IsBalanced-revalued leaf b = tt
  IsBalanced-revalued (fork l c r) (e, x, y, bl, br) = (
    omega (arith, e, height-revalued l, height-revalued r),
    omega (arith, x, top_weight-revalued l),
    omega (arith, y, top_weight-revalued r),
    IsBalanced-revalued l bl,
    IsBalanced-revalued r br,
  )

  pub entries-revalued : (t : Shape K V) → entries (revalued t) ≡ map (relocal_by f) (entries t)
  entries-revalued leaf = refl
  entries-revalued (fork l c r) =
      rw (entries-revalued l, entries-revalued r, val.into-change (f c.key) c.value)
        (sym (map-append (relocal_by f) (entries l) (entry c ∷ entries r)))

  -- Where each node of the tree is changed, the changed tree stands.
  pub Holds-revalued :
      (h h' : Heap K V) (parent : NodeRef) (t : Shape K V)
      → Holds h parent t
      → ((q : NodeIndex) → 0 < count q t → h' q ≡ map_option (change_node f) (h q))
      → Holds h' parent (revalued t)
  Holds-revalued h h' parent leaf held all = tt
  Holds-revalued h h' parent (fork l c r) held all =
      let c' : Cell K V = record c { value = val.change (f c.key) c.value } in
      (
        all c.here (ground arith) ∙ ap (map_option (change_node f)) held.0 ∙ (λ j.
            some (node_of parent (pair (sym (root-revalued l) j) (sym (root-revalued r) j)) c')),
        Holds-revalued h h' (some c.here) l held.1 (λ q m. all q (omega arith)),
        Holds-revalued h h' (some c.here) r held.2 (λ q m. all q (omega arith)),
      )
