-- ===== src/Removal/Rekey.antt =====
-- Entries that trade their keys and data, as `remove_at` of src/tree/mod.rs swaps those of two nodes.
use Prim.Native.Nat.Ordering.{lt}
use rb_forest.Base.{◌≡◌, refl, some, List, [], ◌∷◌, ◌++◌, map, pair, ap, sym, subst, ◌∙◌}
use rb_forest.Order.{Ord}
use rb_forest.Node.{NodeRef}
use rb_forest.Shape.Entries.{Entry}
use rb_forest.Dictionary.{binding}
use rb_forest.Sequence.{All, first_or, last_or, last_or-append, IsThreaded, IsSorted}

module _ {K L : Type 0} where
  -- The entry at its index and between its neighbours, with another key and other data.
  abbrev pub rekey : K → L → Entry K L → Entry K L
  rekey k l e = record e { key = k; local = l }

  pub first_or-rekey :
      (d : NodeRef) (k : K) (l : L) (xs : List (Entry K L)) (e : Entry K L) (ys : List (Entry K L))
      → first_or d (xs ++ rekey k l e ∷ ys) ≡ first_or d (xs ++ e ∷ ys)
  first_or-rekey d k l [] e ys = refl
  first_or-rekey d k l (x ∷ xs) e ys = refl

  pub last_or-rekey :
      (d : NodeRef) (k : K) (l : L) (xs : List (Entry K L)) (e : Entry K L) (ys : List (Entry K L))
      → last_or d (xs ++ rekey k l e ∷ ys) ≡ last_or d (xs ++ e ∷ ys)
  last_or-rekey d k l xs e ys =
      last_or-append d xs (rekey k l e ∷ ys) ∙ sym (last_or-append d xs (e ∷ ys))

  pub rekey-IsThreaded :
      (prev next : NodeRef) (k : K) (l : L) (xs : List (Entry K L)) (e : Entry K L)
      (ys : List (Entry K L))
      → IsThreaded prev (xs ++ e ∷ ys) next
      → IsThreaded prev (xs ++ rekey k l e ∷ ys) next
  rekey-IsThreaded prev next k l [] e ys h = h
  rekey-IsThreaded prev next k l (x ∷ xs) e ys h = (
    h.0 ∙ ap (λ r. pair prev r) (sym (first_or-rekey next k l xs e ys)),
    rekey-IsThreaded (some x.here) next k l xs e ys h.1,
  )

  -- Entries of one binding are alike to a map.
  pub binding-alike :
      (xs : List (Entry K L)) (e e' : Entry K L) (ys : List (Entry K L))
      → binding e ≡ binding e'
      → map binding (xs ++ e ∷ ys) ≡ map binding (xs ++ e' ∷ ys)
  binding-alike [] e e' ys same = ap (λ b. b ∷ map binding ys) same
  binding-alike (x ∷ xs) e e' ys same = ap (λ bs. binding x ∷ bs) (binding-alike xs e e' ys same)

module _ {K L : Type 0} ⦃o : Ord K⦄ where
  -- Two entries of one key are alike in a sorted list.
  All-alike :
      (P : K → Type 0) (xs : List (Entry K L)) (e e' : Entry K L) (ys : List (Entry K L))
      → e.key ≡ e'.key
      → All (λ d. P d.key) (xs ++ e ∷ ys)
      → All (λ d. P d.key) (xs ++ e' ∷ ys)
  All-alike P [] e e' ys same all = (subst P same all.0, all.1)
  All-alike P (x ∷ xs) e e' ys same all = (all.0, All-alike P xs e e' ys same all.1)

  pub IsSorted-alike :
      (xs : List (Entry K L)) (e e' : Entry K L) (ys : List (Entry K L))
      → e.key ≡ e'.key
      → IsSorted (xs ++ e ∷ ys)
      → IsSorted (xs ++ e' ∷ ys)
  IsSorted-alike [] e e' ys same h = (subst (λ k. All (λ d. o.cmp k d.key ≡ lt) ys) same h.0, h.1)
  IsSorted-alike (x ∷ xs) e e' ys same h =
      (All-alike (λ k. o.cmp x.key k ≡ lt) xs e e' ys same h.0, IsSorted-alike xs e e' ys same h.1)
