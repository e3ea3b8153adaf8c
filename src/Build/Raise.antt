-- ===== src/Build/Raise.antt =====
-- What `build_tree` of src/tree/iter.rs makes of a part of the slice: at a leaf, and at a pivot from
-- what it makes of the parts on both sides.
use rb_forest.Base.{
  ℕ, ◌/◌, ◌≤◌, ◌≡◌, ◌==◌, refl, false, none, some, List, [], ◌∷◌, map, pair, if◌then◌else◌, Outcome,
  done, arith, ap, sym, ◌∙◌, Bool-cases, inl, inr, ==→≡, ==_refl,
}
use rb_forest.Arena.{Growth}
use rb_forest.Arena.FreeList.{IsValid, insert-Inserted}
use rb_forest.Node.{NodeIndex, NodeRef, Node, Color, color_weight, new_node, Value}
use rb_forest.Guard.{Guard, alloc_insert}
use rb_forest.Guard.Laws.{view}
use rb_forest.Shape.{Cell, Shape, leaf, fork, root, count, once, Holds}
use rb_forest.Shape.Balance.{height, top_weight, IsBalanced, color_weight_le}
use rb_forest.Shape.Entries.{entries}
use rb_forest.Sequence.{first_or, last_or, IsThreaded}
use rb_forest.Dictionary.{binding}
use rb_forest.Build.{Built, built, build_leaf}

module _ {K V : Type 0} where
  -- A node that is put into a vacant slot.
  pub record Allotted (s : Guard K V) (n : Node K V) (o : Outcome (NodeIndex × Guard K V))
      : Type 0 where
    pub index : NodeIndex
    pub after : Guard K V
    pub returns : o ≡ done (index, after)
    pub fresh : view s index ≡ none
    pub reads : (q : NodeIndex) → view after q ≡ (if q == index then some n else view s q)
    pub valid : IsValid after.arena
    pub meta_kept : after.meta ≡ s.meta

  pub alloc_insert-Allotted :
      (g : Growth) (n : Node K V) (s : Guard K V)
      → IsValid s.arena
      → Allotted s n (alloc_insert g n s)
  alloc_insert-Allotted g n s valid =
      let i = insert-Inserted g s.arena n valid in
      record {
        index = i.index;
        after = record s { arena = i.arena };
        returns = rw i.returns refl;
        fresh = i.fresh;
        reads = i.reads;
        valid = i.valid;
        meta_kept = refl;
      }

  module _ {s : Guard K V} {n : Node K V} {o : Outcome (NodeIndex × Guard K V)}
      (a : Allotted s n o) where
    pub allotted : view a.after a.index ≡ some n
    allotted = a.reads a.index ∙ rw ==_refl

    -- What is occupied before stays.
    pub kept_by_allot : (q : NodeIndex) (m : Node K V) → view s q ≡ some m → view a.after q ≡ some m
    kept_by_allot q m e = elim (Bool-cases (q == a.index)) [
      | inl same ↦ absurd (cc (a.fresh, ap (view s) (==→≡ q a.index same)))
      | inr apart ↦ a.reads q ∙ rw apart e
    ]

    pub apart_of_allot : (q : NodeIndex) (m : Node K V) → view s q ≡ some m → once q a.index ≡ 0
    apart_of_allot q m e = elim (Bool-cases (q == a.index)) [
      | inl same ↦ absurd (cc (a.fresh, ap (view s) (==→≡ q a.index same)))
      | inr apart ↦ rw apart refl
    ]

    pub same_by_allot : (q : NodeIndex) → once q a.index ≡ 0 → view a.after q ≡ view s q
    same_by_allot q out =
        let apart : (q == a.index) ≡ false = ground arith in a.reads q ∙ rw apart refl

-- The bindings of the items, as a tree holds them.
abbrev pub stored :
    {K : Type 0} (V : Type 0) ⦃val : Value V⦄ → List (K × val.Local) → List (K × val.Local)
stored V ⦃val⦄ items = map (λ b. (b.0, val.into (val.new b.1))) items

module _ {K V : Type 0} ⦃val : Value V⦄ where
  abbrev pub ends_of : Shape K V → Built
  ends_of t = built (first_or none (entries t)) (root t) (last_or none (entries t))

  -- A call that builds a new tree below a parent out of vacant slots: balanced, at most `d` levels
  -- deep and with a root no brighter than `c`, with the given bindings in order.
  pub record Raised (d : ℕ) (c : Color) (s : Guard K V) (parent : NodeRef)
      (items : List (K × val.Local)) (o : Outcome (Built × Guard K V)) : Type 0 where
    pub after : Guard K V
    pub tree : Shape K V
    pub returns : o ≡ done (ends_of tree, after)
    pub holds : Holds (view after) parent tree
    pub valid : IsValid after.arena
    pub meta_kept : after.meta ≡ s.meta
    pub distinct : (q : NodeIndex) → count q tree ≤ 1
    pub fresh : (q : NodeIndex) (m : Node K V) → view s q ≡ some m → count q tree ≡ 0
    pub reads_out : (q : NodeIndex) → count q tree ≡ 0 → view after q ≡ view s q
    pub bindings : map binding (entries tree) ≡ stored V items
    pub threaded : IsThreaded none (entries tree) none
    pub balanced : IsBalanced tree
    pub height_is : height tree ≡ d / 2
    pub top_le : color_weight c ≤ top_weight tree

  pub empty-Raised :
      (d : ℕ) (c : Color) (s : Guard K V) (parent : NodeRef)
      → IsValid s.arena
      → d / 2 ≡ 0
      → Raised d c s parent [] (done (built none none none, s))
  empty-Raised d c s parent valid flat = record {
    after = s;
    tree = leaf;
    returns = refl;
    holds = tt;
    valid = valid;
    meta_kept = refl;
    distinct = λ q. omega arith;
    fresh = λ q m e. refl;
    reads_out = λ q out. refl;
    bindings = refl;
    threaded = tt;
    balanced = tt;
    height_is = sym flat;
    top_le = color_weight_le c;
  }

  pub build_leaf-Raised :
      (g : Growth) (d : ℕ) (c : Color) (s : Guard K V) (parent : NodeRef) (item : K × val.Local)
      → IsValid s.arena
      → color_weight c ≡ d / 2
      → Raised d c s parent (item ∷ []) (build_leaf g item parent c s)
  unfolding build_leaf new_node
  build_leaf-Raised g d c s parent item valid flat =
      let value = val.update_cumulant (pair none none) (val.new item.1) in
      let n = record (new_node item.0 (val.new item.1) c) { value = value; parent = parent } in
      let a = alloc_insert-Allotted g n s valid in
      let cell : Cell K V = record {
        here = a.index;
        key = item.0;
        value = value;
        color = c;
        order = pair none none;
      } in
      record {
        after = a.after;
        tree = fork leaf cell leaf;
        returns = rw a.returns refl;
        holds = (allotted a, tt, tt);
        valid = a.valid;
        meta_kept = a.meta_kept;
        distinct = λ q. ground arith;
        fresh = λ q m e. omega (arith, apart_of_allot a q m e);
        reads_out = λ q out. same_by_allot a q (omega arith);
        bindings = ap (λ l. (item.0, l) ∷ []) (val.into-update (pair none none) (val.new item.1));
        threaded = (refl, tt);
        balanced = (refl, omega arith, omega arith, tt, tt);
        height_is = omega (arith, flat);
        top_le = omega arith;
      }
