-- ===== src/Sequence/Rewire.antt =====
-- Order links set by index, as the assignments through `order` in src/tree/iter.rs do.
use rb_forest.Base.{
  ◌+◌, ◌≤◌, ◌<◌, ◌≡◌, refl, false, none, some, List, [], ◌∷◌, ◌++◌, pair, put_at, Side, left, right,
  if◌then◌else◌, arith, ap, sym, ◌∙◌, ==_refl, points_to,
}
use rb_forest.Node.{NodeIndex, NodeRef}
use rb_forest.Shape.Entries.{Entry}
use rb_forest.Shape.Form.{count_in}
use rb_forest.Sequence.{
  first_or, last_or, IsThreaded, on_first, on_last, order_to, on_first-IsThreaded,
  first_or-on_first, first_or-on_last, splice,
}

module _ {K L : Type 0} where
  -- The link on side `i` of the entry at an index is set.
  abbrev pub relinked : NodeRef → Side → NodeRef → Entry K L → Entry K L
  relinked p i r e = if points_to p e.here then order_to i r e else e

  abbrev pub rewire : NodeRef → Side → NodeRef → List (Entry K L) → List (Entry K L)
  rewire p i r [] = []
  rewire p i r (e ∷ es) = relinked p i r e ∷ rewire p i r es

  pub rewire-append :
      (p : NodeRef) (i : Side) (r : NodeRef) (xs ys : List (Entry K L))
      → rewire p i r (xs ++ ys) ≡ rewire p i r xs ++ rewire p i r ys
  rewire-append p i r [] ys = refl
  rewire-append p i r (x ∷ xs) ys = ap (λ zs. relinked p i r x ∷ zs) (rewire-append p i r xs ys)

  pub rewire-none : (i : Side) (r : NodeRef) (xs : List (Entry K L)) → rewire none i r xs ≡ xs
  rewire-none i r [] = refl
  rewire-none i r (x ∷ xs) = ap (λ zs. x ∷ zs) (rewire-none i r xs)

  pub rewire-absent :
      (p : NodeIndex) (i : Side) (r : NodeRef) (xs : List (Entry K L))
      → count_in p xs ≡ 0
      → rewire (some p) i r xs ≡ xs
  rewire-absent p i r [] out = refl
  rewire-absent p i r (x ∷ xs) out =
      let rest = rewire-absent p i r xs (omega arith) in
      let apart : points_to (some p) x.here ≡ false = ground arith in rw (apart, rest) refl

  count_in-rewire :
      (q : NodeIndex) (p : NodeRef) (i : Side) (r : NodeRef) (xs : List (Entry K L))
      → count_in q (rewire p i r xs) ≡ count_in q xs
  count_in-rewire q p i r [] = refl
  count_in-rewire q p i r (x ∷ xs) = let rest = count_in-rewire q p i r xs in ground arith

  -- The last index of a list that is not empty occurs in it.
  pub last_in :
      (d : NodeRef) (x : Entry K L) (xs : List (Entry K L))
      → (p : NodeIndex) × (last_or d (x ∷ xs) ≡ some p) × (0 < count_in p (x ∷ xs))
  last_in d x [] = (x.here, refl, ground arith)
  last_in d x (y ∷ ys) = let (p, e, h) = last_in (some x.here) y ys in (p, e, omega arith)

  rewire-last :
      (d : NodeRef) (i : Side) (r : NodeRef) (x : Entry K L) (xs : List (Entry K L))
      → ((q : NodeIndex) → count_in q (x ∷ xs) ≤ 1)
      → rewire (last_or d (x ∷ xs)) i r (x ∷ xs) ≡ on_last (order_to i r) (x ∷ xs)
  rewire-last d i r x [] few = rw ==_refl refl
  rewire-last d i r x (y ∷ ys) few =
      let (p, e, h) = last_in (some x.here) y ys in
      let rest = rewire-last (some x.here) i r y ys (λ q. omega (arith, few q)) in
      let once_only = few p in
      let apart : points_to (last_or (some x.here) (y ∷ ys)) x.here ≡ false = rw e (ground arith) in
      rw (apart, rest) refl

  -- The links of the neighbours of an entry set to it: of the last one before, and of the first after.
  pub rewire-before :
      (r : NodeRef) (xs : List (Entry K L)) (zs : List (Entry K L))
      → ((q : NodeIndex) → count_in q xs + count_in q zs ≤ 1)
      → rewire (last_or none xs) right r (xs ++ zs) ≡ on_last (order_to right r) xs ++ zs
  rewire-before r [] zs few = rewire-none right r zs
  rewire-before r (x ∷ xs) zs few =
      let (p, e, h) = last_in none x xs in
      let out = rewire-absent p right r zs (omega (arith, few p)) in
      rewire-append (last_or none (x ∷ xs)) right r (x ∷ xs) zs
      ∙ ap (λ us. us ++ rewire (last_or none (x ∷ xs)) right r zs)
          (rewire-last none right r x xs (λ q. omega (arith, few q)))
      ∙ ap (λ us. on_last (order_to right r) (x ∷ xs) ++ us) (ap (λ d. rewire d right r zs) e ∙ out)

  rewire-after :
      (r : NodeRef) (xs : List (Entry K L)) (e : Entry K L) (ys : List (Entry K L))
      → ((q : NodeIndex) → count_in q xs + count_in q (e ∷ ys) ≤ 1)
      → rewire (first_or none ys) left r (xs ++ e ∷ ys) ≡ xs ++ e ∷ on_first (order_to left r) ys
  rewire-after r xs e [] few = rewire-none left r (xs ++ e ∷ [])
  rewire-after r xs e (y ∷ ys) few =
      let one = few y.here in
      let out = rewire-absent y.here left r xs (ground arith) in
      let later = rewire-absent y.here left r ys (ground arith) in
      let apart : points_to (some y.here) e.here ≡ false = ground arith in
      rewire-append (some y.here) left r xs (e ∷ y ∷ ys) ∙ rw (out, apart, ==_refl, later) refl

  pub count_in-on_last :
      (q : NodeIndex) (i : Side) (r : NodeRef) (xs : List (Entry K L))
      → count_in q (on_last (order_to i r) xs) ≡ count_in q xs
  count_in-on_last q i r [] = refl
  count_in-on_last q i r (x ∷ []) = refl
  count_in-on_last q i r (x ∷ y ∷ xs) = omega (arith, count_in-on_last q i r (y ∷ xs))

  pub rewire-splice :
      (xs : List (Entry K L)) (e : Entry K L) (ys : List (Entry K L))
      → ((q : NodeIndex) → count_in q xs + count_in q (e ∷ ys) ≤ 1)
      → rewire
          (first_or none ys)
          left
          (some e.here)
          (rewire (last_or none xs) right (some e.here) (xs ++ e ∷ ys))
        ≡ splice xs e ys
  rewire-splice xs e ys few =
      ap (rewire (first_or none ys) left (some e.here))
        (rewire-before (some e.here) xs (e ∷ ys) few)
      ∙ rewire-after (some e.here) (on_last (order_to right (some e.here)) xs) e ys
          (λ q. omega (arith, few q, count_in-on_last q right (some e.here) xs))

  -- Two threaded lists with an entry between them.
  pub splice_between :
      (prev next : NodeRef) (d d' : NodeRef) (xs : List (Entry K L)) (e : Entry K L)
      (ys : List (Entry K L))
      → IsThreaded prev xs d
      → IsThreaded d' ys next
      → e.order ≡ pair (last_or prev xs) (first_or next ys)
      → IsThreaded prev (splice xs e ys) next
  splice_between prev next d d' [] e ys h h' o = (
    o ∙ ap (λ r. pair prev r) (sym (first_or-on_first next (some e.here) left ys)),
    on_first-IsThreaded d' next (some e.here) ys h',
  )
  splice_between prev next d d' (x ∷ []) e ys h h' o = (
    ap (λ p. put_at p right (some e.here)) h.0,
    splice_between (some x.here) next d d' [] e ys h.1 h' o,
  )
  splice_between prev next d d' (x ∷ y ∷ xs) e ys h h' o = (
    h.0
        ∙ ap (λ r. pair prev r)
            (sym (
              first_or-on_last next (some e.here) right y xs
                (e ∷ on_first (order_to left (some e.here)) ys))),
    splice_between (some x.here) next d d' (y ∷ xs) e ys h.1 h' o,
  )
