-- ===== src/Removal/Gap.antt =====
-- A list of entries less one, whose neighbours are linked with each other.
use Prim.Native.Nat.Ordering.{lt}
use rb_forest.Base.{
  ◌+◌, ◌≤◌, ◌≡◌, refl, none, some, List, [], ◌∷◌, ◌++◌, map, pair, put_at, Side, left, right, arith,
  ap, sym, ◌∙◌, ==_refl,
}
use rb_forest.Order.{Ord}
use rb_forest.Node.{NodeIndex, NodeRef}
use rb_forest.Shape.Entries.{Entry}
use rb_forest.Shape.Form.{count_in}
use rb_forest.Sequence.{
  All, All-append, of_All-append, first_or, last_or, IsThreaded, IsSorted, on_first, on_last,
  order_to, on_first-IsThreaded, first_or-on_first, first_or-on_last,
}
use rb_forest.Sequence.Rewire.{
  rewire, rewire-append, rewire-none, rewire-absent, rewire-before, count_in-on_last,
}
use rb_forest.Dictionary.{binding}

module _ {K L : Type 0} where
  -- The entries before and after a gap that `prev` and `next` lie beyond.
  abbrev pub gap : (prev next : NodeRef) (xs ys : List (Entry K L)) → List (Entry K L)
  gap prev next xs ys =
      on_last (order_to right (first_or next ys)) xs
      ++ on_first (order_to left (last_or prev xs)) ys

  pub gap-IsThreaded :
      (prev next : NodeRef) (xs : List (Entry K L)) (e : Entry K L) (ys : List (Entry K L))
      → IsThreaded prev (xs ++ e ∷ ys) next
      → IsThreaded prev (gap prev next xs ys) next
  gap-IsThreaded prev next [] e ys h = on_first-IsThreaded (some e.here) next prev ys h.1
  gap-IsThreaded prev next (x ∷ []) e ys h = (
    ap (λ p. put_at p right (first_or next ys)) h.0
        ∙ ap (λ r. pair prev r) (sym (first_or-on_first next (some x.here) left ys)),
    gap-IsThreaded (some x.here) next [] e ys h.1,
  )
  gap-IsThreaded prev next (x ∷ y ∷ xs) e ys h = (
    h.0
        ∙ ap (λ r. pair prev r)
            (sym (
              first_or-on_last next (first_or next ys) right y xs
                (on_first (order_to left (last_or (some y.here) xs)) ys))),
    gap-IsThreaded (some x.here) next (y ∷ xs) e ys h.1,
  )

  first_or-relink :
      (d : NodeRef) (i j : Side) (r q : NodeRef) (xs ys : List (Entry K L))
      → first_or d (on_last (order_to i r) xs ++ on_first (order_to j q) ys) ≡ first_or d (xs ++ ys)
  first_or-relink d i j r q [] ys = first_or-on_first d q j ys
  first_or-relink d i j r q (x ∷ []) ys = refl
  first_or-relink d i j r q (x ∷ y ∷ xs) ys = refl

  last_or-relink :
      (d : NodeRef) (i j : Side) (r q : NodeRef) (xs ys : List (Entry K L))
      → last_or d (on_last (order_to i r) xs ++ on_first (order_to j q) ys) ≡ last_or d (xs ++ ys)
  last_or-relink d i j r q [] [] = refl
  last_or-relink d i j r q [] (y ∷ ys) = refl
  last_or-relink d i j r q (x ∷ []) ys = last_or-relink (some x.here) i j r q [] ys
  last_or-relink d i j r q (x ∷ y ∷ xs) ys = last_or-relink (some x.here) i j r q (y ∷ xs) ys

  pub first_or-gap :
      (d prev next : NodeRef) (xs ys : List (Entry K L))
      → first_or d (gap prev next xs ys) ≡ first_or d (xs ++ ys)
  first_or-gap d prev next xs ys =
      first_or-relink d right left (first_or next ys) (last_or prev xs) xs ys

  pub last_or-gap :
      (d prev next : NodeRef) (xs ys : List (Entry K L))
      → last_or d (gap prev next xs ys) ≡ last_or d (xs ++ ys)
  last_or-gap d prev next xs ys =
      last_or-relink d right left (first_or next ys) (last_or prev xs) xs ys

  map-relink :
      {B : Type 0} (f : Entry K L → B)
      → ((i : Side) (r : NodeRef) (e : Entry K L) → f (order_to i r e) ≡ f e)
      → (i j : Side) (r q : NodeRef) (xs ys : List (Entry K L))
      → map f (on_last (order_to i r) xs ++ on_first (order_to j q) ys) ≡ map f (xs ++ ys)
  map-relink f same i j r q [] [] = refl
  map-relink f same i j r q [] (y ∷ ys) = ap (λ b. b ∷ map f ys) (same j q y)
  map-relink f same i j r q (x ∷ []) ys =
      ap (λ b. b ∷ map f (on_first (order_to j q) ys)) (same i r x)
      ∙ ap (λ bs. f x ∷ bs) (map-relink f same i j r q [] ys)
  map-relink f same i j r q (x ∷ y ∷ xs) ys =
      ap (λ bs. f x ∷ bs) (map-relink f same i j r q (y ∷ xs) ys)

  pub binding-gap :
      (prev next : NodeRef) (xs ys : List (Entry K L))
      → map binding (gap prev next xs ys) ≡ map binding (xs ++ ys)
  binding-gap prev next xs ys =
      map-relink binding (λ i r e. refl) right left (first_or next ys) (last_or prev xs) xs ys

  rewire-first :
      (r : NodeRef) (xs ys : List (Entry K L))
      → ((q : NodeIndex) → count_in q xs + count_in q ys ≤ 1)
      → rewire (first_or none ys) left r (xs ++ ys) ≡ xs ++ on_first (order_to left r) ys
  rewire-first r xs [] few = rewire-none left r (xs ++ [])
  rewire-first r xs (y ∷ ys) few =
      let one = few y.here in
      let out = rewire-absent y.here left r xs (ground arith) in
      let later = rewire-absent y.here left r ys (ground arith) in
      rewire-append (some y.here) left r xs (y ∷ ys) ∙ rw (out, ==_refl, later) refl

  -- The assignments at the end of a removal, by index.
  pub rewire-gap :
      (xs ys : List (Entry K L))
      → ((q : NodeIndex) → count_in q xs + count_in q ys ≤ 1)
      → rewire
          (first_or none ys)
          left
          (last_or none xs)
          (rewire (last_or none xs) right (first_or none ys) (xs ++ ys))
        ≡ gap none none xs ys
  rewire-gap xs ys few =
      ap (rewire (first_or none ys) left (last_or none xs))
        (rewire-before (first_or none ys) xs ys few)
      ∙ rewire-first (last_or none xs) (on_last (order_to right (first_or none ys)) xs) ys
          (λ q. omega (arith, few q, count_in-on_last q right (first_or none ys) xs))

module _ {K L : Type 0} ⦃o : Ord K⦄ where
  All-relink :
      (P : K → Type 0) (i j : Side) (r q : NodeRef) (xs ys : List (Entry K L))
      → All (λ d. P d.key) (xs ++ ys)
      → All (λ d. P d.key) (on_last (order_to i r) xs ++ on_first (order_to j q) ys)
  All-relink P i j r q [] [] all = tt
  All-relink P i j r q [] (y ∷ ys) all = all
  All-relink P i j r q (x ∷ []) ys all = (all.0, All-relink P i j r q [] ys all.1)
  All-relink P i j r q (x ∷ y ∷ xs) ys all = (all.0, All-relink P i j r q (y ∷ xs) ys all.1)

  IsSorted-relink :
      (i j : Side) (r q : NodeRef) (xs ys : List (Entry K L))
      → IsSorted (xs ++ ys)
      → IsSorted (on_last (order_to i r) xs ++ on_first (order_to j q) ys)
  IsSorted-relink i j r q [] [] h = tt
  IsSorted-relink i j r q [] (y ∷ ys) h = h
  IsSorted-relink i j r q (x ∷ []) ys h =
      (All-relink (λ k. o.cmp x.key k ≡ lt) i j r q [] ys h.0, IsSorted-relink i j r q [] ys h.1)
  IsSorted-relink i j r q (x ∷ y ∷ xs) ys h = (
    All-relink (λ k. o.cmp x.key k ≡ lt) i j r q (y ∷ xs) ys h.0,
    IsSorted-relink i j r q (y ∷ xs) ys h.1,
  )

  pub IsSorted-without :
      (xs : List (Entry K L)) (e : Entry K L) (ys : List (Entry K L))
      → IsSorted (xs ++ e ∷ ys)
      → IsSorted (xs ++ ys)
  IsSorted-without [] e ys h = h.1
  IsSorted-without (x ∷ xs) e ys h =
      let parts = of_All-append (λ d. o.cmp x.key d.key ≡ lt) xs (e ∷ ys) h.0 in
      (
        All-append (λ d. o.cmp x.key d.key ≡ lt) xs ys parts.0 parts.1.1,
        IsSorted-without xs e ys h.1,
      )

  pub gap-IsSorted :
      (prev next : NodeRef) (xs ys : List (Entry K L))
      → IsSorted (xs ++ ys)
      → IsSorted (gap prev next xs ys)
  gap-IsSorted prev next xs ys h =
      IsSorted-relink right left (first_or next ys) (last_or prev xs) xs ys h
