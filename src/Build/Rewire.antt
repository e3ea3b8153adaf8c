-- ===== src/Build/Rewire.antt =====
-- The assignments to order links in `build_tree` of src/tree/iter.rs, on the tree that is built.
use rb_forest.Base.{
  ◌<◌, ◌≡◌, ◌==◌, refl, none, some, ◌∷◌, Pair, pair, put_at, Side, if◌then◌else◌, Outcome, done,
  arith, ap, sym, subst, ◌∙◌, Bool-cases, Option-cases, ◌⊎◌, inl, inr, ==→≡,
}
use rb_forest.Arena.FreeList.{IsValid}
use rb_forest.Node.{NodeIndex, NodeRef, Node, Value}
use rb_forest.Guard.{Guard, modify_ref}
use rb_forest.Guard.Laws.{view, Written, modify-Written, reads_ne, reads_self}
use rb_forest.Guard.Valid.{IsValidAfter, modify-IsValidAfter}
use rb_forest.Shape.{Heap, Cell, Shape, leaf, fork, root, node_of, count, Holds, ne_of_count}
use rb_forest.Shape.Relink.{count_vacant}
use rb_forest.Shape.Balance.{height, top_weight, IsBalanced}
use rb_forest.Shape.Entries.{entry, entries}
use rb_forest.Sequence.Rewire.{relinked, rewire, rewire-append, rewire-none}

some_inj : {A : Type 0} {x y : A} → some x ≡ some y → x ≡ y
some_inj {x = x} e = ap (λ o. elim o [ none ↦ x | some z ↦ z ]) e

module _ {K V : Type 0} where
  -- The cell, and the tree, with the order link on side `i` set where the index is `p`.
  abbrev pub recell_at : NodeIndex → Side → NodeRef → Cell K V → Cell K V
  recell_at p i r c = record c { order = if p == c.here then put_at c.order i r else c.order }

  abbrev pub rewire_at : NodeIndex → Side → NodeRef → Shape K V → Shape K V
  rewire_at p i r leaf = leaf
  rewire_at p i r (fork l c u) = fork (rewire_at p i r l) (recell_at p i r c) (rewire_at p i r u)

  abbrev pub rewire_ref : NodeRef → Side → NodeRef → Shape K V → Shape K V
  rewire_ref none i r t = t
  rewire_ref (some p) i r t = rewire_at p i r t

  pub root-rewire_at :
      (p : NodeIndex) (i : Side) (r : NodeRef) (t : Shape K V) → root (rewire_at p i r t) ≡ root t
  root-rewire_at p i r leaf = refl
  root-rewire_at p i r (fork l c u) = refl

  -- Every index of a tree is occupied.
  pub found_in :
      (h : Heap K V) (q : NodeIndex) (parent : NodeRef) (t : Shape K V)
      → Holds h parent t
      → 0 < count q t
      → (m : Node K V) × (h q ≡ some m)
  found_in h q parent leaf held inside = absurd (omega arith)
  found_in h q parent (fork l c u) held inside = elim (Option-cases (h q)) [
    | inl e ↦ absurd (omega (arith, count_vacant h q parent (fork l c u) e held))
    | inr (m, e) ↦ (m, e)
  ]

  -- One write of a link changes the tree below any parent.
  pub Written-Holds :
      {s : Guard K V} {p : NodeIndex} {m : Node K V} {o : Outcome (Unit {0} × Guard K V)} (i : Side)
      (r : NodeRef) (w : Written s p (record m { order = put_at m.order i r }) o)
      → view s p ≡ some m
      → (parent : NodeRef) (t : Shape K V) → Holds (view s) parent t
      → Holds (view w.after) parent (rewire_at p i r t)
  Written-Holds i r w e parent leaf held = tt
  Written-Holds {s} {p} {m} i r w e parent (fork l c u) held =
      let low = Written-Holds i r w e (some c.here) l held.1 in
      let high = Written-Holds i r w e (some c.here) u held.2 in
      let roots =
        ap (λ x. pair x (root (rewire_at p i r u))) (root-rewire_at p i r l)
        ∙ ap (λ x. pair (root l) x) (root-rewire_at p i r u) in
      let node = λ (ch : Pair NodeRef) (d : Cell K V). node_of parent ch d in
      elim (Bool-cases (p == c.here)) [
        | inl same ↦
            let q = ==→≡ p c.here same in
            let known : m ≡ node (pair (root l) (root u)) c =
              some_inj (sym e ∙ ap (view s) q ∙ held.0) in
            (
              ap (view w.after) (sym q)
                  ∙ reads_self w
                  ∙ ap (λ (x : Node K V). some (record x { order = put_at x.order i r })) known
                  ∙ rw same (
                      ap (λ ch. some (node ch (record c { order = put_at c.order i r })))
                        (sym roots)),
              low,
              high,
            )
        | inr apart ↦ (
          reads_ne w c.here (λ g. absurd (ground (arith, apart, g)))
              ∙ held.0
              ∙ rw apart (ap (λ ch. some (node ch c)) (sym roots)),
          low,
          high,
        )
      ]

  pub count-rewire_at :
      (p : NodeIndex) (i : Side) (r : NodeRef) (q : NodeIndex) (t : Shape K V)
      → count q (rewire_at p i r t) ≡ count q t
  count-rewire_at p i r q leaf = refl
  count-rewire_at p i r q (fork l c u) =
      omega (arith, count-rewire_at p i r q l, count-rewire_at p i r q u)

  pub height-rewire_at :
      (p : NodeIndex) (i : Side) (r : NodeRef) (t : Shape K V)
      → height (rewire_at p i r t) ≡ height t
  height-rewire_at p i r leaf = refl
  height-rewire_at p i r (fork l c u) = omega (arith, height-rewire_at p i r l)

  pub top_weight-rewire_at :
      (p : NodeIndex) (i : Side) (r : NodeRef) (t : Shape K V)
      → top_weight (rewire_at p i r t) ≡ top_weight t
  top_weight-rewire_at p i r leaf = refl
  top_weight-rewire_at p i r (fork l c u) = refl

  pub IsBalanced-rewire_at :
      (p : NodeIndex) (i : Side) (r : NodeRef) (t : Shape K V)
      → IsBalanced t
      → IsBalanced (rewire_at p i r t)
  IsBalanced-rewire_at p i r leaf b = tt
  IsBalanced-rewire_at p i r (fork l c u) (e, x, y, bl, bu) = (
    omega (arith, e, height-rewire_at p i r l, height-rewire_at p i r u),
    omega (arith, x, top_weight-rewire_at p i r l),
    omega (arith, y, top_weight-rewire_at p i r u),
    IsBalanced-rewire_at p i r l bl,
    IsBalanced-rewire_at p i r u bu,
  )

module _ {K V : Type 0} ⦃val : Value V⦄ where
  entry-recell_at :
      (p : NodeIndex) (i : Side) (r : NodeRef) (c : Cell K V)
      → entry (recell_at p i r c) ≡ relinked (some p) i r (entry c)
  entry-recell_at p i r c = elim (Bool-cases (p == c.here)) [
    | inl same ↦ rw same refl
    | inr apart ↦ rw apart refl
  ]

  pub entries-rewire_at :
      (p : NodeIndex) (i : Side) (r : NodeRef) (t : Shape K V)
      → entries (rewire_at p i r t) ≡ rewire (some p) i r (entries t)
  entries-rewire_at p i r leaf = refl
  entries-rewire_at p i r (fork l c u) =
      rw (entries-rewire_at p i r l, entry-recell_at p i r c, entries-rewire_at p i r u)
        (sym (rewire-append (some p) i r (entries l) (entry c ∷ entries u)))

  -- The tree below a parent is rewired; nothing outside of it changes.
  pub record Rewired (s : Guard K V) (parent : NodeRef) (t : Shape K V) (p : NodeRef) (i : Side)
      (r : NodeRef) (o : Outcome (Unit {0} × Guard K V)) : Type 0 where
    pub after : Guard K V
    pub tree : Shape K V
    pub returns : o ≡ done (tt, after)
    pub holds : Holds (view after) parent tree
    pub valid : IsValid after.arena
    pub meta_kept : after.meta ≡ s.meta
    pub entries_are : entries tree ≡ rewire p i r (entries t)
    pub count_kept : (q : NodeIndex) → count q tree ≡ count q t
    pub reads_out : (q : NodeIndex) → count q t ≡ 0 → view after q ≡ view s q
    pub height_kept : height tree ≡ height t
    pub top_kept : top_weight tree ≡ top_weight t
    pub root_kept : root tree ≡ root t
    pub balanced : IsBalanced t → IsBalanced tree

  pub modify_ref-Rewired :
      (s : Guard K V) (parent : NodeRef) (t : Shape K V) (p : NodeRef) (i : Side) (r : NodeRef)
      → Holds (view s) parent t
      → IsValid s.arena
      → (p ≡ none) ⊎ ((q : NodeIndex) × (p ≡ some q) × (0 < count q t))
      → Rewired s parent t p i r (modify_ref p (λ m. record m { order = put_at m.order i r }) s)
  modify_ref-Rewired s parent t p i r held valid (inl e) = rw e record {
    after = s;
    tree = t;
    returns = refl;
    holds = held;
    valid = valid;
    meta_kept = refl;
    entries_are = sym (rewire-none i r (entries t));
    count_kept = λ q. refl;
    reads_out = λ q out. refl;
    height_kept = refl;
    top_kept = refl;
    root_kept = refl;
    balanced = λ b. b;
  }
  modify_ref-Rewired s parent t p i r held valid (inr (q, e, inside)) =
      let (m, found) = found_in (view s) q parent t held inside in
      let w = modify-Written s q (λ m. record m { order = put_at m.order i r }) found in
      rw e record {
        after = w.after;
        tree = rewire_at q i r t;
        returns = w.returns;
        holds = Written-Holds i r w found parent t held;
        valid =
            subst IsValidAfter w.returns
              (modify-IsValidAfter q (λ m. record m { order = put_at m.order i r }) s valid);
        meta_kept = w.meta_kept;
        entries_are = entries-rewire_at q i r t;
        count_kept = λ q'. count-rewire_at q i r q' t;
        reads_out = λ q' out. reads_ne w q' (λ g. ne_of_count t q' q out inside (sym g));
        height_kept = height-rewire_at q i r t;
        top_kept = top_weight-rewire_at q i r t;
        root_kept = root-rewire_at q i r t;
        balanced = IsBalanced-rewire_at q i r t;
      }
