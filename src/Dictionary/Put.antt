-- ===== src/Dictionary/Put.antt =====
-- A binding put into the sorted entries of a tree: a new entry between two others, or new local data.
use Prim.Native.Nat.{Ordering}
use Prim.Native.Nat.Ordering.{lt, eq, gt}
use rb_forest.Base.{
  ◌≡◌, refl, true, false, inl, inr, if◌then◌else◌, Bool-cases, none, some, List, [], ◌∷◌, ◌++◌,
  Side, left, pair, ap, sym, subst, ◌∙◌, map,
}
use rb_forest.Order.{Ord, reverse}
use rb_forest.Node.{NodeRef}
use rb_forest.Shape.Entries.{Entry}
use rb_forest.Sequence.{
  All, All-map, first_or, last_or, last_or-append, on_first, order_to, splice, IsThreaded, IsSorted,
}
use rb_forest.Lookup.{is_eq, Ordering-cases}
use rb_forest.Dictionary.{binding, put, delete, has_key, lookup}

pub of_is_eq : (x : Ordering) → is_eq x ≡ true → x ≡ eq
of_is_eq eq e = refl
of_is_eq lt e = absurd (cc)
of_is_eq gt e = absurd (cc)

module _ {K L : Type 0} where
  -- A statement of keys does not see changed order links, nor changed local data.
  All-on_first :
      (P : K → Type 0) (i : Side) (r : NodeRef) (ys : List (Entry K L))
      → All (λ d. P d.key) ys
      → All (λ d. P d.key) (on_first (order_to i r) ys)
  All-on_first P i r [] all = tt
  All-on_first P i r (y ∷ ys) all = all

  All-splice :
      (P : K → Type 0) (xs : List (Entry K L)) (e : Entry K L) (ys : List (Entry K L))
      → All (λ d. P d.key) (xs ++ ys)
      → P e.key
      → All (λ d. P d.key) (splice xs e ys)
  All-splice P [] e ys all p = (p, All-on_first P left (some e.here) ys all)
  All-splice P (x ∷ []) e ys all p = (all.0, All-splice P [] e ys all.1 p)
  All-splice P (x ∷ y ∷ xs) e ys all p = (all.0, All-splice P (y ∷ xs) e ys all.1 p)

  -- An entry with other local data.
  abbrev pub relocal : L → Entry K L → Entry K L
  relocal l e = record e { local = l }

  All-relocal :
      (P : K → Type 0) (xs : List (Entry K L)) (e : Entry K L) (l : L) (ys : List (Entry K L))
      → All (λ d. P d.key) (xs ++ e ∷ ys)
      → All (λ d. P d.key) (xs ++ relocal l e ∷ ys)
  All-relocal P [] e l ys all = all
  All-relocal P (x ∷ xs) e l ys all = (all.0, All-relocal P xs e l ys all.1)

  pub first_or-relocal :
      (d : NodeRef) (xs : List (Entry K L)) (e : Entry K L) (l : L) (ys : List (Entry K L))
      → first_or d (xs ++ relocal l e ∷ ys) ≡ first_or d (xs ++ e ∷ ys)
  first_or-relocal d [] e l ys = refl
  first_or-relocal d (x ∷ xs) e l ys = refl

  pub last_or-relocal :
      (d : NodeRef) (xs : List (Entry K L)) (e : Entry K L) (l : L) (ys : List (Entry K L))
      → last_or d (xs ++ relocal l e ∷ ys) ≡ last_or d (xs ++ e ∷ ys)
  last_or-relocal d xs e l ys =
      last_or-append d xs (relocal l e ∷ ys) ∙ sym (last_or-append d xs (e ∷ ys))

  pub relocal-IsThreaded :
      (prev next : NodeRef) (xs : List (Entry K L)) (e : Entry K L) (l : L) (ys : List (Entry K L))
      → IsThreaded prev (xs ++ e ∷ ys) next
      → IsThreaded prev (xs ++ relocal l e ∷ ys) next
  relocal-IsThreaded prev next [] e l ys h = h
  relocal-IsThreaded prev next (x ∷ xs) e l ys h = (
    h.0 ∙ ap (λ r. pair prev r) (sym (first_or-relocal next xs e l ys)),
    relocal-IsThreaded (some x.here) next xs e l ys h.1,
  )

  binding-on_first :
      (i : Side) (r : NodeRef) (ys : List (Entry K L))
      → map binding (on_first (order_to i r) ys) ≡ map binding ys
  binding-on_first i r [] = refl
  binding-on_first i r (y ∷ ys) = refl

module _ {K L : Type 0} ⦃o : Ord K⦄ where
  on_first-IsSorted :
      (i : Side) (r : NodeRef) (ys : List (Entry K L))
      → IsSorted ys
      → IsSorted (on_first (order_to i r) ys)
  on_first-IsSorted i r [] h = tt
  on_first-IsSorted i r (y ∷ ys) h = h

  -- A new key between the lower ones and the higher ones.
  pub splice-IsSorted :
      (xs : List (Entry K L)) (e : Entry K L) (ys : List (Entry K L))
      → IsSorted (xs ++ ys)
      → All (λ d. o.cmp d.key e.key ≡ lt) xs
      → All (λ d. o.cmp d.key e.key ≡ gt) ys
      → IsSorted (splice xs e ys)
  splice-IsSorted [] e ys h less more = (
    All-on_first (λ k. o.cmp e.key k ≡ lt) left (some e.here) ys
        (All-map ys (λ d g. sym (o.reverse-cmp d.key e.key) ∙ ap reverse g) more),
    on_first-IsSorted left (some e.here) ys h,
  )
  splice-IsSorted (x ∷ []) e ys h less more = (
    All-splice (λ k. o.cmp x.key k ≡ lt) [] e ys h.0 less.0,
    splice-IsSorted [] e ys h.1 less.1 more,
  )
  splice-IsSorted (x ∷ y ∷ xs) e ys h less more = (
    All-splice (λ k. o.cmp x.key k ≡ lt) (y ∷ xs) e ys h.0 less.0,
    splice-IsSorted (y ∷ xs) e ys h.1 less.1 more,
  )

  pub relocal-IsSorted :
      (xs : List (Entry K L)) (e : Entry K L) (l : L) (ys : List (Entry K L))
      → IsSorted (xs ++ e ∷ ys)
      → IsSorted (xs ++ relocal l e ∷ ys)
  relocal-IsSorted [] e l ys h = h
  relocal-IsSorted (x ∷ xs) e l ys h =
      (All-relocal (λ k. o.cmp x.key k ≡ lt) xs e l ys h.0, relocal-IsSorted xs e l ys h.1)

  pub put-splice :
      (xs : List (Entry K L)) (e : Entry K L) (ys : List (Entry K L))
      → All (λ d. o.cmp d.key e.key ≡ lt) xs
      → All (λ d. o.cmp d.key e.key ≡ gt) ys
      → map binding (splice xs e ys) ≡ put e.key e.local (map binding (xs ++ ys))
  put-splice [] e [] less more = refl
  put-splice [] e (y ∷ ys) less more = rw more.0 refl
  put-splice (x ∷ []) e ys less more =
      rw less.0 (ap (λ bs. binding x ∷ bs) (put-splice [] e ys tt more))
  put-splice (x ∷ y ∷ xs) e ys less more =
      rw less.0 (ap (λ bs. binding x ∷ bs) (put-splice (y ∷ xs) e ys less.1 more))

  pub put-relocal :
      (key : K) (xs : List (Entry K L)) (e : Entry K L) (l : L) (ys : List (Entry K L))
      → All (λ d. o.cmp d.key key ≡ lt) xs
      → o.cmp e.key key ≡ eq
      → map binding (xs ++ relocal l e ∷ ys) ≡ put key l (map binding (xs ++ e ∷ ys))
  put-relocal key [] e l ys less same = rw same refl
  put-relocal key (x ∷ xs) e l ys less same =
      rw less.0 (ap (λ bs. binding x ∷ bs) (put-relocal key xs e l ys less.1 same))

  -- The keys below and above a key are not equal to it.
  pub has_key-less :
      (key : K) (xs zs : List (Entry K L))
      → All (λ d. o.cmp d.key key ≡ lt) xs
      → has_key key (map binding (xs ++ zs)) ≡ has_key key (map binding zs)
  has_key-less key [] zs less = refl
  has_key-less key (x ∷ xs) zs less = rw less.0 (has_key-less key xs zs less.1)

  pub has_key-more :
      (key : K) (ys : List (Entry K L))
      → All (λ d. o.cmp d.key key ≡ gt) ys
      → has_key key (map binding ys) ≡ false
  has_key-more key [] more = refl
  has_key-more key (y ∷ ys) more = rw more.0 (has_key-more key ys more.1)

  pub lookup-less :
      (key : K) (xs zs : List (Entry K L))
      → All (λ d. o.cmp d.key key ≡ lt) xs
      → lookup key (map binding (xs ++ zs)) ≡ lookup key (map binding zs)
  lookup-less key [] zs less = refl
  lookup-less key (x ∷ xs) zs less = rw less.0 (lookup-less key xs zs less.1)

  pub lookup-more :
      (key : K) (ys : List (Entry K L))
      → All (λ d. o.cmp d.key key ≡ gt) ys
      → lookup key (map binding ys) ≡ none
  lookup-more key [] more = refl
  lookup-more key (y ∷ ys) more = rw more.0 (lookup-more key ys more.1)

  pub delete-here :
      (key : K) (xs : List (Entry K L)) (e : Entry K L) (ys : List (Entry K L))
      → All (λ d. o.cmp d.key key ≡ lt) xs
      → o.cmp e.key key ≡ eq
      → delete key (map binding (xs ++ e ∷ ys)) ≡ map binding (xs ++ ys)
  delete-here key [] e ys less same = rw same refl
  delete-here key (x ∷ xs) e ys less same =
      rw less.0 (ap (λ bs. binding x ∷ bs) (delete-here key xs e ys less.1 same))

  pub delete-absent :
      (key : K) (xs ys : List (Entry K L))
      → All (λ d. o.cmp d.key key ≡ lt) xs
      → All (λ d. o.cmp d.key key ≡ gt) ys
      → delete key (map binding (xs ++ ys)) ≡ map binding (xs ++ ys)
  delete-absent key [] [] less more = refl
  delete-absent key [] (y ∷ ys) less more =
      rw more.0 (ap (λ bs. binding y ∷ bs) (delete-absent key [] ys tt more.1))
  delete-absent key (x ∷ xs) ys less more =
      rw less.0 (ap (λ bs. binding x ∷ bs) (delete-absent key xs ys less.1 more))

module _ {K : Type 0} ⦃o : Ord K⦄ where
  is_eq_turn : (a b : K) → is_eq (o.cmp a b) ≡ false → is_eq (o.cmp b a) ≡ false
  is_eq_turn a b e = elim (Ordering-cases (o.cmp a b)) [
    | inl f ↦ ap is_eq (sym (o.reverse-cmp a b) ∙ ap reverse f)
    | inr (inl f) ↦ absurd (cc (rw f at e))
    | inr (inr f) ↦ ap is_eq (sym (o.reverse-cmp a b) ∙ ap reverse f)
  ]

  pub is_eq_self : (key : K) → is_eq (o.cmp key key) ≡ true
  is_eq_self key = elim (Ordering-cases (o.cmp key key)) [
    | inl e ↦ absurd (cc (o.reverse-cmp key key, e))
    | inr (inl e) ↦ rw e refl
    | inr (inr e) ↦ absurd (cc (o.reverse-cmp key key, e))
  ]

module _ {K L : Type 0} ⦃o : Ord K⦄ where
  -- What `put` binds.
  pub lookup-put :
      (key key' : K) (l : L) (bs : List (K × L))
      → lookup key' (put key l bs) ≡ (if is_eq (o.cmp key key') then some l else lookup key' bs)
  lookup-put key key' l [] = refl
  lookup-put key key' l (b ∷ bs) = elim (Ordering-cases (o.cmp b.0 key)) [
    | inl e ↦ elim (Bool-cases (is_eq (o.cmp key key'))) [
      | inl f ↦
          let other = subst (λ k. o.cmp b.0 k ≡ lt) (o.same_key key key' (of_is_eq _ f)) e in
          rw (e, f, other) (lookup-put key key' l bs ∙ rw f refl)
      | inr f ↦
          rw (e, f)
            (ap (λ z. if is_eq (o.cmp b.0 key') then some b.1 else z)
              (lookup-put key key' l bs ∙ rw f refl))
    ]
    | inr (inl e) ↦
        let same = ap (λ k. o.cmp k key') (o.same_key b.0 key e) in
        elim (Bool-cases (is_eq (o.cmp key key'))) [
          | inl f ↦ rw (e, same, f) refl
          | inr f ↦ rw (e, same, f) refl
        ]
    | inr (inr e) ↦ rw e refl
  ]

  -- A key that is not bound can be put in and left out again.
  pub delete-put :
      (key : K) (l : L) (bs : List (K × L))
      → has_key key bs ≡ false
      → delete key (put key l bs) ≡ bs
  delete-put key l [] out = rw (is_eq_self key) refl
  delete-put key l (b ∷ bs) out = elim (Ordering-cases (o.cmp b.0 key)) [
    | inl e ↦
        let rest : has_key key bs ≡ false = rw e at out in
        rw (e, e) (ap (λ cs. b ∷ cs) (delete-put key l bs rest))
    | inr (inl e) ↦ absurd (cc (rw e at out))
    | inr (inr e) ↦ rw (e, is_eq_self key) refl
  ]

  -- The keys of a sorted list above its first key are not that key.
  first_only :
      (e : Entry K L) (es : List (Entry K L))
      → All (λ d. o.cmp e.key d.key ≡ lt) es
      → lookup e.key (map binding es) ≡ none
  first_only e es above =
      lookup-more e.key es
        (All-map es (λ d g. sym (o.reverse-cmp e.key d.key) ∙ ap reverse g) above)

  -- What `delete` leaves bound.
  pub lookup-delete :
      (key key' : K) (es : List (Entry K L))
      → IsSorted es
      → lookup key' (delete key (map binding es))
        ≡ (if is_eq (o.cmp key key') then none else lookup key' (map binding es))
  lookup-delete key key' [] h = elim (Bool-cases (is_eq (o.cmp key key'))) [
    | inl f ↦ rw f refl
    | inr f ↦ rw f refl
  ]
  lookup-delete key key' (e ∷ es) h = elim (Bool-cases (is_eq (o.cmp e.key key))) [
    | inl f ↦
        let here = o.same_key e.key key (of_is_eq _ f) in
        elim (Bool-cases (is_eq (o.cmp key key'))) [
          | inl g ↦
              let there = o.same_key key key' (of_is_eq _ g) in
              rw (f, g)
                (ap (λ k. lookup k (map binding es)) (sym (here ∙ there)) ∙ first_only e es h.0)
          | inr g ↦
              let apart : is_eq (o.cmp e.key key') ≡ false =
                ap (λ k. is_eq (o.cmp k key')) here ∙ g in
              rw (f, g, apart) refl
        ]
    | inr f ↦
        let rest = lookup-delete key key' es h.1 in
        elim (Bool-cases (is_eq (o.cmp e.key key'))) [
          | inl g ↦
              let there = o.same_key e.key key' (of_is_eq _ g) in
              let apart : is_eq (o.cmp key key') ≡ false =
                ap (λ k. is_eq (o.cmp key k)) (sym there) ∙ is_eq_turn e.key key f in
              rw (f, g, apart) refl
          | inr g ↦ rw (f, g) rest
        ]
  ]
