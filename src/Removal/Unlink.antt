-- ===== src/Removal/Unlink.antt =====
-- The order links and the range at the end of `remove_at` of src/tree/mod.rs.
use rb_forest.Base.{
  ◌+◌, ◌<◌, ◌≡◌, ◌⊎◌, inl, inr, none, some, List, [], ◌∷◌, ◌++◌, Pair, pair, put_at, Side, left,
  right, other, Outcome, done, and_then, refl, ap, sym, ◌∙◌, arith,
}
use mathlib.Core.List.{append-nil}
use rb_forest.Node.{NodeIndex, NodeRef, Value}
use rb_forest.Guard.{Guard, Bounds, Cmd, modify, modify_meta, ◌>>◌}
use rb_forest.Guard.Laws.{view, modify-Written, reads_ne}
use rb_forest.Tree.Remove.{unlink_order}
use rb_forest.Shape.{Shape, top, Focus, count, ne_of_count}
use rb_forest.Shape.Relink.{Focus-frame}
use rb_forest.Shape.Balance.{height, top_weight, IsBalanced}
use rb_forest.Shape.Entries.{Entry, entries}
use rb_forest.Shape.Form.{count_in, count_in-append, count-entries}
use rb_forest.Sequence.{first_or, last_or, last_or-append}
use rb_forest.Dictionary.Splice.{some-last_or}
use rb_forest.Sequence.Rewire.{rewire, rewire-none, last_in}
use rb_forest.Build.Rewire.{
  rewire_at, found_in, Written-Holds, root-rewire_at, count-rewire_at, height-rewire_at,
  top_weight-rewire_at, IsBalanced-rewire_at, entries-rewire_at,
}
use rb_forest.Removal.Gap.{gap, rewire-gap}

-- The range without an end: where a removed end had no neighbour on the other side, its neighbour is
-- the end on this one.
abbrev pub narrow : Side → NodeRef → NodeRef → Pair NodeRef → Pair NodeRef
narrow i none r range = put_at range (other i) r
narrow i (some q) r range = range

module _ {K L : Type 0} where
  -- The range of a list less one entry.
  pub narrow-range :
      (xs : List (Entry K L)) (e : Entry K L) (ys : List (Entry K L))
      → narrow left (first_or none ys) (last_or none xs) (
          narrow right
            (last_or none xs)
            (first_or none ys)
            (pair (first_or none (xs ++ e ∷ ys)) (last_or none (xs ++ e ∷ ys))))
        ≡ pair (first_or none (xs ++ ys)) (last_or none (xs ++ ys))
  narrow-range [] e [] = refl
  narrow-range [] e (y ∷ ys) = refl
  narrow-range (x ∷ xs) e [] = let (q, f) = some-last_or x.here xs in rw (f, append-nil xs, f) refl
  narrow-range (x ∷ xs) e (y ∷ ys) =
      let (q, f) = some-last_or x.here xs in
      rw f (
        ap (pair (some x.here)) (
          last_or-append (some x.here) xs (e ∷ y ∷ ys)
          ∙ sym (last_or-append (some x.here) xs (y ∷ ys))))

module _ {K V : Type 0} where
  -- One of the two assignments.
  abbrev rehang : Side → NodeRef → NodeRef → Cmd K V (Unit {0})
  rehang i none r = modify_meta λ b. record b { range = put_at b.range (other i) r }
  rehang i (some q) r = modify q λ m. record m { order = put_at m.order i r }

  two_calls :
      (prev next : NodeRef) (s : Guard K V)
      → unlink_order prev next s ≡ (rehang right prev next >> rehang left next prev) s
  unfolding unlink_order
  two_calls none none s = refl
  two_calls none (some q) s = refl
  two_calls (some p) none s = refl
  two_calls (some p) (some q) s = refl

  unlink_steps :
      (prev next : NodeRef) (s s1 s2 : Guard K V)
      → rehang right prev next s ≡ done (tt, s1)
      → rehang left next prev s1 ≡ done (tt, s2)
      → unlink_order prev next s ≡ done (tt, s2)
  unlink_steps prev next s s1 s2 e f =
      two_calls prev next s ∙ ap (λ o. and_then o λ (x, s'). rehang left next prev s') e ∙ f

module _ {K V : Type 0} ⦃val : Value V⦄ where
  record Rehung (s : Guard K V) (t : Shape K V) (i : Side) (p r : NodeRef)
      (o : Outcome (Unit {0} × Guard K V)) : Type 0 where
    pub after : Guard K V
    pub tree : Shape K V
    pub returns : o ≡ done (tt, after)
    pub focus : Focus after top tree
    pub entries_are : entries tree ≡ rewire p i r (entries t)
    pub height_kept : height tree ≡ height t
    pub top_kept : top_weight tree ≡ top_weight t
    pub balanced : IsBalanced t → IsBalanced tree
    pub count_kept : (q : NodeIndex) → count q tree ≡ count q t
    pub range : after.meta.range ≡ narrow i p r s.meta.range
    pub black_height : after.meta.black_height ≡ s.meta.black_height
    pub reads_out : (q : NodeIndex) → count q t ≡ 0 → view after q ≡ view s q

  rehang-Rehung :
      {s : Guard K V} (t : Shape K V) (i : Side) (p r : NodeRef)
      → Focus s top t
      → (p ≡ none) ⊎ ((q : NodeIndex) × (p ≡ some q) × (0 < count q t))
      → Rehung s t i p r (rehang i p r s)
  rehang-Rehung {s} t i p r f (inl e) = rw e record {
    after = record s { meta = record s.meta { range = put_at s.meta.range (other i) r } };
    tree = t;
    returns = refl;
    focus = Focus-frame top t f refl (λ q m. refl);
    entries_are = sym (rewire-none i r (entries t));
    height_kept = refl;
    top_kept = refl;
    balanced = λ b. b;
    count_kept = λ q. refl;
    range = refl;
    black_height = refl;
    reads_out = λ q out. refl;
  }
  rehang-Rehung {s} t i p r f (inr (q, e, inside)) =
      let (m, found) = found_in (view s) q none t f.inside inside in
      let w = modify-Written s q (λ m. record m { order = put_at m.order i r }) found in
      rw e record {
        after = w.after;
        tree = rewire_at q i r t;
        returns = w.returns;
        focus = record {
          inside = Written-Holds i r w found none t f.inside;
          above = tt;
          distinct = λ x. omega (arith, f.distinct x, count-rewire_at q i r x t);
          rooted =
              ap (λ (b : Bounds). b.root) w.meta_kept ∙ f.rooted ∙ sym (root-rewire_at q i r t);
        };
        entries_are = entries-rewire_at q i r t;
        height_kept = height-rewire_at q i r t;
        top_kept = top_weight-rewire_at q i r t;
        balanced = IsBalanced-rewire_at q i r t;
        count_kept = λ x. count-rewire_at q i r x t;
        range = ap (λ (b : Bounds). b.range) w.meta_kept;
        black_height = ap (λ (b : Bounds). b.black_height) w.meta_kept;
        reads_out = λ x out. reads_ne w x (λ g. ne_of_count t x q out inside (sym g));
      }

  -- The tree without an entry, whose neighbours are linked, and the range of what is left.
  pub record Closed (s : Guard K V) (t : Shape K V) (xs ys : List (Entry K val.Local))
      (o : Outcome (Unit {0} × Guard K V)) : Type 0 where
    pub after : Guard K V
    pub tree : Shape K V
    pub returns : o ≡ done (tt, after)
    pub focus : Focus after top tree
    pub entries_are : entries tree ≡ gap none none xs ys
    pub height_kept : height tree ≡ height t
    pub top_kept : top_weight tree ≡ top_weight t
    pub balanced : IsBalanced t → IsBalanced tree
    pub count_kept : (q : NodeIndex) → count q tree ≡ count q t
    pub range : after.meta.range ≡ pair (first_or none (xs ++ ys)) (last_or none (xs ++ ys))
    pub black_height : after.meta.black_height ≡ s.meta.black_height
    pub reads_out : (q : NodeIndex) → count q t ≡ 0 → view after q ≡ view s q

  in_tree :
      (t : Shape K V) (xs ys : List (Entry K val.Local))
      → entries t ≡ xs ++ ys
      → (q : NodeIndex) → count q t ≡ count_in q xs + count_in q ys
  in_tree t xs ys e q = count-entries q t ∙ ap (count_in q) e ∙ count_in-append q xs ys

  last_there :
      (t : Shape K V) (xs ys : List (Entry K val.Local))
      → ((q : NodeIndex) → count q t ≡ count_in q xs + count_in q ys)
      → (last_or none xs ≡ none) ⊎ ((q : NodeIndex) × (last_or none xs ≡ some q) × (0 < count q t))
  last_there t [] ys e = inl refl
  last_there t (x ∷ xs) ys e =
      let (q, f, m) = last_in none x xs in inr (q, f, omega (arith, m, e q))

  first_there :
      (t : Shape K V) (xs ys : List (Entry K val.Local))
      → ((q : NodeIndex) → count q t ≡ count_in q xs + count_in q ys)
      → (first_or none ys ≡ none)
        ⊎ ((q : NodeIndex) × (first_or none ys ≡ some q) × (0 < count q t))
  first_there t xs [] e = inl refl
  first_there t xs (y ∷ ys) e = let k = e y.here in inr (y.here, refl, ground arith)

  pub unlink_order-Closed :
      {s : Guard K V} (t : Shape K V) (xs ys : List (Entry K val.Local))
      → Focus s top t
      → entries t ≡ xs ++ ys
      → narrow left
          (first_or none ys)
          (last_or none xs)
          (narrow right (last_or none xs) (first_or none ys) s.meta.range)
        ≡ pair (first_or none (xs ++ ys)) (last_or none (xs ++ ys))
      → Closed s t xs ys (unlink_order (last_or none xs) (first_or none ys) s)
  unlink_order-Closed {s} t xs ys f e range =
      let inside = in_tree t xs ys e in
      let a =
        rehang-Rehung t right (last_or none xs) (first_or none ys) f (last_there t xs ys inside) in
      let b =
        rehang-Rehung a.tree left (first_or none ys) (last_or none xs) a.focus
          (first_there a.tree xs ys (λ q. a.count_kept q ∙ inside q)) in
      record {
        after = b.after;
        tree = b.tree;
        returns =
            unlink_steps (last_or none xs) (first_or none ys) s a.after b.after a.returns b.returns;
        focus = b.focus;
        entries_are =
            b.entries_are
            ∙ ap (rewire (first_or none ys) left (last_or none xs))
                (a.entries_are ∙ ap (rewire (last_or none xs) right (first_or none ys)) e)
            ∙ rewire-gap xs ys (λ q. omega (arith, f.distinct q, inside q));
        height_kept = b.height_kept ∙ a.height_kept;
        top_kept = b.top_kept ∙ a.top_kept;
        balanced = λ x. b.balanced (a.balanced x);
        count_kept = λ q. b.count_kept q ∙ a.count_kept q;
        range = b.range ∙ ap (narrow left (first_or none ys) (last_or none xs)) a.range ∙ range;
        black_height = b.black_height ∙ a.black_height;
        reads_out = λ q out. b.reads_out q (a.count_kept q ∙ out) ∙ a.reads_out q out;
      }
