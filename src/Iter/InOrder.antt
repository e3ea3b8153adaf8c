-- ===== src/Iter/InOrder.antt =====
-- That a loop over `iter` of src/tree/iter.rs sees what a well-formed tree holds, in order.
use rb_forest.Base.{
  ℕ, ◌+◌, ◌≤◌, ◌<◌, ◌≡◌, refl, false, none, some, List, [], ◌∷◌, ◌++◌, done, pair, pair_at, at,
  Side, left, right, map, length, arith, ap, sym, subst, ◌∙◌,
}
use mathlib.Core.List.{map-append, reverse, reverse_aux}
use rb_forest.Order.{Ord}
use rb_forest.Node.{NodeIndex, NodeRef, Node, Value}
use rb_forest.Guard.{Guard}
use rb_forest.Guard.Laws.{view}
use rb_forest.Shape.{Cell, Shape, leaf, fork, Holds, once, count}
use rb_forest.Shape.Entries.{entry, entries}
use rb_forest.Sequence.{All, All-append, first_or, last_or, IsThreaded}
use rb_forest.Lookup.{cells}
use rb_forest.Dictionary.{IsTree, contents, binding}
use rb_forest.Iter.{Ends, iter, collect}
use rb_forest.Iter.Walk.{head_ref, last_ref, among, IsStrung, items, collect-items}

module _ {K V : Type 0} where
  -- A node with the key, the value and the order links of the cell stands at its index.
  abbrev Stands : Guard K V → Cell K V → Type 0
  Stands s c =
      (n : Node K V) × (view s c.here ≡ some n)
      × (n.key ≡ c.key)
      × (n.value ≡ c.value)
      × (n.order ≡ c.order)

  Holds-Stands :
      (s : Guard K V) (parent : NodeRef) (t : Shape K V)
      → Holds (view s) parent t
      → All (Stands s) (cells t)
  Holds-Stands s parent leaf held = tt
  Holds-Stands s parent (fork l c r) held =
      All-append (Stands s) (cells l) (c ∷ cells r) (Holds-Stands s (some c.here) l held.1)
        ((_, held.0, refl, refl, refl), Holds-Stands s (some c.here) r held.2)

  abbrev pub amount : NodeIndex → List (Cell K V) → ℕ
  amount p [] = 0
  amount p (c ∷ cs) = once p c.here + amount p cs

  amount-append :
      (p : NodeIndex) (xs ys : List (Cell K V)) → amount p (xs ++ ys) ≡ amount p xs + amount p ys
  amount-append p [] ys = omega arith
  amount-append p (x ∷ xs) ys = omega (arith, amount-append p xs ys)

  pub amount-cells : (p : NodeIndex) (t : Shape K V) → amount p (cells t) ≡ count p t
  amount-cells p leaf = refl
  amount-cells p (fork l c r) =
      omega (arith, amount-append p (cells l) (c ∷ cells r), amount-cells p l, amount-cells p r)

  not-among : (p : NodeIndex) (cs : List (Cell K V)) → amount p cs ≤ 0 → among p cs ≡ false
  not-among p [] le = refl
  not-among p (c ∷ cs) le = let rest = not-among p cs (omega arith) in ground arith

-- The order in which a loop sees a list: forward for the left side, backward for the right.
abbrev pub in_order {ℓ} : {A : Type ℓ} → Side → List A → List A
in_order left xs = xs
in_order right xs = reverse xs

module _ {K V : Type 0} ⦃val : Value V⦄ where
  entries-cells : (t : Shape K V) → entries t ≡ map entry (cells t)
  entries-cells leaf = refl
  entries-cells (fork l c r) =
      rw (entries-cells l, entries-cells r) (sym (map-append entry (cells l) (c ∷ cells r)))

  head_ref-first_or : (cs : List (Cell K V)) → head_ref cs ≡ first_or none (map entry cs)
  head_ref-first_or [] = refl
  head_ref-first_or (c ∷ cs) = refl

  last_ref-last_or :
      (d : NodeRef) (c : Cell K V) (cs : List (Cell K V))
      → last_ref (c ∷ cs) ≡ last_or d (map entry (c ∷ cs))
  last_ref-last_or d c [] = refl
  last_ref-last_or d c (e ∷ cs) = last_ref-last_or (some c.here) e cs

  last_ref-reverse_aux :
      (cs acc : List (Cell K V)) (a : Cell K V)
      → last_ref (reverse_aux cs (a ∷ acc)) ≡ last_ref (a ∷ acc)
  last_ref-reverse_aux [] acc a = refl
  last_ref-reverse_aux (c ∷ cs) acc a = last_ref-reverse_aux cs (a ∷ acc) c

  head_ref-reverse_aux :
      (cs acc : List (Cell K V))
      → head_ref (reverse_aux cs acc) ≡ last_or (head_ref acc) (map entry cs)
  head_ref-reverse_aux [] acc = refl
  head_ref-reverse_aux (c ∷ cs) acc = head_ref-reverse_aux cs (c ∷ acc)

  IsStrung-left :
      (s : Guard K V) (cs : List (Cell K V)) (prev : NodeRef)
      → All (Stands s) cs
      → ((p : NodeIndex) → amount p cs ≤ 1)
      → IsThreaded prev (map entry cs) none
      → IsStrung left s cs
  IsStrung-left s [] prev stand few threaded = tt
  IsStrung-left s (c ∷ cs) prev ((n, e, k, v, o), stand) few threaded = (
    (n, e, k, v, ap (λ x. at x right) (o ∙ threaded.0) ∙ sym (head_ref-first_or cs)),
    not-among c.here cs (let h = few c.here in ground arith),
    IsStrung-left s cs (some c.here) stand (λ p. omega (arith, few p)) threaded.1,
  )

  IsStrung-right :
      (s : Guard K V) (cs acc : List (Cell K V))
      → All (Stands s) cs
      → ((p : NodeIndex) → amount p cs + amount p acc ≤ 1)
      → IsThreaded (head_ref acc) (map entry cs) none
      → IsStrung right s acc
      → IsStrung right s (reverse_aux cs acc)
  IsStrung-right s [] acc stand few threaded strung = strung
  IsStrung-right s (c ∷ cs) acc ((n, e, k, v, o), stand) few threaded strung =
      IsStrung-right s cs (c ∷ acc) stand (λ p. omega (arith, few p)) threaded.1
        (
          (n, e, k, v, ap (λ x. at x left) (o ∙ threaded.0)),
          not-among c.here acc (let h = few c.here in ground arith),
          strung,
        )

  items-cells : (cs : List (Cell K V)) → items cs ≡ map binding (map entry cs)
  items-cells [] = refl
  items-cells (c ∷ cs) = ap (λ xs. (c.key, val.into c.value) ∷ xs) (items-cells cs)

  items-reverse_aux :
      (cs acc : List (Cell K V)) → items (reverse_aux cs acc) ≡ reverse_aux (items cs) (items acc)
  items-reverse_aux [] acc = refl
  items-reverse_aux (c ∷ cs) acc = items-reverse_aux cs (c ∷ acc)

  length-reverse_aux :
      (cs acc : List (Cell K V)) → length (reverse_aux cs acc) ≡ length cs + length acc
  length-reverse_aux [] acc = omega arith
  length-reverse_aux (c ∷ cs) acc = length-reverse_aux cs (c ∷ acc) ∙ omega arith

  length-items : (cs : List (Cell K V)) → length (items cs) ≡ length cs
  length-items [] = refl
  length-items (c ∷ cs) = omega (arith, length-items cs)

module _ {K V : Type 0} ⦃o : Ord K⦄ ⦃val : Value V⦄ where
  IsThreaded-cells :
      {s : Guard K V} {t : Shape K V} → IsTree s t → IsThreaded none (map entry (cells t)) none
  IsThreaded-cells {s} {t} h = subst (λ es. IsThreaded none es none) (entries-cells t) h.threaded

  -- The list of cells that the order links lead through from side `i` on.
  pub IsStrung-in_order :
      {s : Guard K V} (i : Side) (t : Shape K V) → IsTree s t → IsStrung i s (in_order i (cells t))
  IsStrung-in_order {s} left t h =
      IsStrung-left s (cells t) none (Holds-Stands s none t h.focus.inside)
        (λ p. omega (arith, amount-cells p t, h.focus.distinct p)) (IsThreaded-cells h)
  IsStrung-in_order {s} right t h =
      IsStrung-right s (cells t) [] (Holds-Stands s none t h.focus.inside)
        (λ p. omega (arith, amount-cells p t, h.focus.distinct p)) (IsThreaded-cells h) tt

  pub ends_in_order :
      {s : Guard K V} (i : Side) (t : Shape K V)
      → IsTree s t
      → s.meta.range ≡ pair_at i (head_ref (in_order i (cells t))) (last_ref (in_order i (cells t)))
  ends_in_order i t h = h.range ∙ rw (entries-cells t) (ends i (cells t))
    where
      ends :
          (i : Side) (cs : List (Cell K V))
          → pair (first_or none (map entry cs)) (last_or none (map entry cs))
            ≡ pair_at i (head_ref (in_order i cs)) (last_ref (in_order i cs))
      ends left [] = refl
      ends right [] = refl
      ends left (c ∷ cs) = ap (λ r. pair (some c.here) r) (sym (last_ref-last_or none c cs))
      ends right (c ∷ cs) = rw (last_ref-reverse_aux cs [] c, head_ref-reverse_aux cs (c ∷ [])) refl

  seen_forward : (t : Shape K V) → items (cells t) ≡ contents t
  seen_forward t = items-cells (cells t) ∙ ap (map binding) (sym (entries-cells t))

  pub seen_in_order :
      (i : Side) (t : Shape K V) → items (in_order i (cells t)) ≡ in_order i (contents t)
  seen_in_order left t = seen_forward t
  seen_in_order right t = items-reverse_aux (cells t) [] ∙ ap reverse (seen_forward t)

  pub length-in_order :
      (i : Side) (t : Shape K V) → length (in_order i (cells t)) ≡ length (contents t)
  length-in_order i t = turned i ∙ sym (length-items (cells t)) ∙ ap length (seen_forward t)
    where
      turned : (i : Side) → length (in_order i (cells t)) ≡ length (cells t)
      turned left = refl
      turned right = length-reverse_aux (cells t) [] ∙ omega arith

  -- On a well-formed tree, a loop over `iter`, forward for the left side and backward for the right,
  -- given more rounds than the tree has bindings, does not fail and sees exactly the tree's contents: the
  -- keys in order with the local data of their values, or the reverse of that.
  pub collect-in_order :
      {s : Guard K V} (i : Side) (fuel : ℕ) (t : Shape K V)
      → IsTree s t
      → length (contents t) < fuel
      → (ends : Ends) × (iter s ≡ done ends)
        × (collect i fuel ends s ≡ done (in_order i (contents t)))
  unfolding iter
  collect-in_order {s} i fuel t h le = (
    pair_at i (head_ref (in_order i (cells t))) (last_ref (in_order i (cells t))),
    ap done (ends_in_order i t h),
    collect-items i s fuel (in_order i (cells t)) (IsStrung-in_order i t h)
          (omega (arith, length-in_order i t))
        ∙ ap done (seen_in_order i t),
  )
