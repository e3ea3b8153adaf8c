-- ===== src/Sequence.antt =====
-- Lists of entries, as the order links of src/tree/mod.rs thread them: the links, and the keys in
-- increasing order.
pub mod Rewire
use Prim.Native.Nat.Ordering.{lt}
use rb_forest.Base.{
  ◌≡◌, refl, some, List, [], ◌∷◌, ◌++◌, pair, put_at, Side, left, right, ap, ◌∙◌, sym,
}
use rb_forest.Order.{Ord}
use rb_forest.Node.{NodeRef}
use rb_forest.Shape.Entries.{Entry}

abbrev pub All {ℓ κ} : {A : Type ℓ} → (A → Type κ) → List A → Type κ
All P [] = Unit
All P (x ∷ xs) = P x × All P xs

module _ {A : Type 0} (P : A → Type 0) where
  pub All-append : (xs ys : List A) → All P xs → All P ys → All P (xs ++ ys)
  All-append [] ys hx hy = hy
  All-append (x ∷ xs) ys hx hy = (hx.0, All-append xs ys hx.1 hy)

  pub of_All-append : (xs ys : List A) → All P (xs ++ ys) → All P xs × All P ys
  of_All-append [] ys h = (tt, h)
  of_All-append (x ∷ xs) ys h = let r = of_All-append xs ys h.1 in ((h.0, r.0), r.1)

pub All-map :
    {A : Type 0} {P Q : A → Type 0} (xs : List A) → ((x : A) → P x → Q x) → All P xs → All Q xs
All-map [] f h = tt
All-map (x ∷ xs) f h = (f x h.0, All-map xs f h.1)

module _ {K L : Type 0} where
  -- The index of the first entry and of the last one, or the default.
  abbrev pub first_or : NodeRef → List (Entry K L) → NodeRef
  first_or d [] = d
  first_or d (e ∷ es) = some e.here

  abbrev pub last_or : NodeRef → List (Entry K L) → NodeRef
  last_or d [] = d
  last_or d (e ∷ es) = last_or (some e.here) es

  -- Each entry's links are its neighbours, between `prev` and `next`.
  abbrev pub IsThreaded : NodeRef → List (Entry K L) → NodeRef → Type 0
  IsThreaded prev [] next = Unit
  IsThreaded prev (e ∷ es) next =
      (e.order ≡ pair prev (first_or next es)) × IsThreaded (some e.here) es next

  abbrev pub on_first : (Entry K L → Entry K L) → List (Entry K L) → List (Entry K L)
  on_first f [] = []
  on_first f (e ∷ es) = f e ∷ es

  abbrev pub on_last : (Entry K L → Entry K L) → List (Entry K L) → List (Entry K L)
  on_last f [] = []
  on_last f (e ∷ []) = f e ∷ []
  on_last f (e ∷ d ∷ es) = e ∷ on_last f (d ∷ es)

  -- The entry with its link on side `i` changed.
  abbrev pub order_to : Side → NodeRef → Entry K L → Entry K L
  order_to i r e = record e { order = put_at e.order i r }

  pub first_or-append :
      (d : NodeRef) (xs ys : List (Entry K L)) → first_or d (xs ++ ys) ≡ first_or (first_or d ys) xs
  first_or-append d [] ys = refl
  first_or-append d (x ∷ xs) ys = refl

  pub last_or-append :
      (d : NodeRef) (xs ys : List (Entry K L)) → last_or d (xs ++ ys) ≡ last_or (last_or d xs) ys
  last_or-append d [] ys = refl
  last_or-append d (x ∷ xs) ys = last_or-append (some x.here) xs ys

  pub on_last-append :
      (f : Entry K L → Entry K L) (xs : List (Entry K L)) (e : Entry K L)
      → on_last f (xs ++ e ∷ []) ≡ xs ++ f e ∷ []
  on_last-append f [] e = refl
  on_last-append f (x ∷ []) e = refl
  on_last-append f (x ∷ y ∷ xs) e = ap (λ ys. x ∷ ys) (on_last-append f (y ∷ xs) e)

  -- The links of an entry in the middle.
  pub IsThreaded-middle :
      (prev next : NodeRef) (xs : List (Entry K L)) (e : Entry K L) (ys : List (Entry K L))
      → IsThreaded prev (xs ++ e ∷ ys) next
      → e.order ≡ pair (last_or prev xs) (first_or next ys)
  IsThreaded-middle prev next [] e ys h = h.0
  IsThreaded-middle prev next (x ∷ xs) e ys h = IsThreaded-middle (some x.here) next xs e ys h.1

  pub first_or-on_first :
      (d r : NodeRef) (i : Side) (ys : List (Entry K L))
      → first_or d (on_first (order_to i r) ys) ≡ first_or d ys
  first_or-on_first d r i [] = refl
  first_or-on_first d r i (y ∷ ys) = refl

  pub first_or-on_last :
      (d r : NodeRef) (i : Side) (x : Entry K L) (xs ys : List (Entry K L))
      → first_or d (on_last (order_to i r) (x ∷ xs) ++ ys) ≡ some x.here
  first_or-on_last d r i x [] ys = refl
  first_or-on_last d r i x (y ∷ xs) ys = refl

  pub on_first-IsThreaded :
      (prev next q : NodeRef) (ys : List (Entry K L))
      → IsThreaded prev ys next
      → IsThreaded q (on_first (order_to left q) ys) next
  on_first-IsThreaded prev next q [] h = tt
  on_first-IsThreaded prev next q (y ∷ ys) h = (ap (λ o. put_at o left q) h.0, h.1)

  -- A new entry between two parts of a list, whose ends are linked to it.
  abbrev pub splice : List (Entry K L) → Entry K L → List (Entry K L) → List (Entry K L)
  splice xs e ys =
      on_last (order_to right (some e.here)) xs ++ e ∷ on_first (order_to left (some e.here)) ys

  pub splice-IsThreaded :
      (prev next : NodeRef) (xs : List (Entry K L)) (e : Entry K L) (ys : List (Entry K L))
      → IsThreaded prev (xs ++ ys) next
      → e.order ≡ pair (last_or prev xs) (first_or next ys)
      → IsThreaded prev (splice xs e ys) next
  splice-IsThreaded prev next [] e ys h o = (
    o ∙ ap (λ r. pair prev r) (sym (first_or-on_first next (some e.here) left ys)),
    on_first-IsThreaded prev next (some e.here) ys h,
  )
  splice-IsThreaded prev next (x ∷ []) e ys h o = (
    ap (λ p. put_at p right (some e.here)) h.0,
    splice-IsThreaded (some x.here) next [] e ys h.1 o,
  )
  splice-IsThreaded prev next (x ∷ y ∷ xs) e ys h o = (
    h.0
        ∙ ap (λ r. pair prev r)
            (sym (
              first_or-on_last next (some e.here) right y xs
                (e ∷ on_first (order_to left (some e.here)) ys))),
    splice-IsThreaded (some x.here) next (y ∷ xs) e ys h.1 o,
  )

  pub first_or-splice :
      (d : NodeRef) (xs : List (Entry K L)) (e : Entry K L) (ys : List (Entry K L))
      → first_or d (splice xs e ys) ≡ first_or (some e.here) xs
  first_or-splice d [] e ys = refl
  first_or-splice d (x ∷ []) e ys = refl
  first_or-splice d (x ∷ y ∷ xs) e ys = refl

  last_or-on_first :
      (d r : NodeRef) (i : Side) (ys : List (Entry K L))
      → last_or d (on_first (order_to i r) ys) ≡ last_or d ys
  last_or-on_first d r i [] = refl
  last_or-on_first d r i (y ∷ ys) = refl

  pub last_or-splice :
      (d : NodeRef) (xs : List (Entry K L)) (e : Entry K L) (ys : List (Entry K L))
      → last_or d (splice xs e ys) ≡ last_or (some e.here) ys
  last_or-splice d xs e ys =
      last_or-append d (on_last (order_to right (some e.here)) xs)
        (e ∷ on_first (order_to left (some e.here)) ys)
      ∙ last_or-on_first (some e.here) (some e.here) left ys

module _ {K L : Type 0} ⦃o : Ord K⦄ where
  -- The keys increase.
  abbrev pub IsSorted : List (Entry K L) → Type 0
  IsSorted [] = Unit
  IsSorted (e ∷ es) = All (λ d. o.cmp e.key d.key ≡ lt) es × IsSorted es

  pub of_IsSorted-append :
      (xs ys : List (Entry K L))
      → IsSorted (xs ++ ys)
      → IsSorted xs × IsSorted ys × All (λ x. All (λ y. o.cmp x.key y.key ≡ lt) ys) xs
  of_IsSorted-append [] ys h = (tt, h, tt)
  of_IsSorted-append (x ∷ xs) ys h =
      let r = of_IsSorted-append xs ys h.1 in
      let a = of_All-append (λ d. o.cmp x.key d.key ≡ lt) xs ys h.0 in ((a.0, r.0), r.1, (a.1, r.2))

  pub IsSorted-append :
      (xs ys : List (Entry K L))
      → IsSorted xs
      → IsSorted ys
      → All (λ x. All (λ y. o.cmp x.key y.key ≡ lt) ys) xs
      → IsSorted (xs ++ ys)
  IsSorted-append [] ys hx hy h = hy
  IsSorted-append (x ∷ xs) ys hx hy h =
      (All-append (λ d. o.cmp x.key d.key ≡ lt) xs ys hx.0 h.0, IsSorted-append xs ys hx.1 hy h.1)
