-- ===== src/Build/Sorted.antt =====
-- That `from_sorted_slice_unchecked` of src/tree/iter.rs makes a well-formed tree of a sorted slice.
use Prim.Native.Nat.Ordering.{lt}
use rb_forest.Base.{
  ◌≤◌, ◌≡◌, refl, none, some, List, [], ◌∷◌, map, length, Outcome, done, arith, ap, sym, subst, ◌∙◌,
}
use rb_forest.Order.{Ord}
use rb_forest.Arena.{Growth}
use rb_forest.Arena.FreeList.{IsValid}
use rb_forest.Node.{NodeIndex, Node, Value}
use rb_forest.Guard.{Guard, Bounds, default_bounds}
use rb_forest.Guard.Laws.{view}
use rb_forest.Shape.{Shape, leaf, root}
use rb_forest.Shape.Entries.{Entry, entries}
use rb_forest.Sequence.{All, IsSorted}
use rb_forest.Dictionary.{IsTree, contents, binding}
use rb_forest.Build.{bit_length, build_tree, blacken_built, from_sorted_slice}
use rb_forest.Build.Seat.{seated, blacken_built-Seated}
use rb_forest.Build.Raise.{stored, ends_of}
use rb_forest.Build.Levels.{level_color, Fits-bit_length}
use rb_forest.Build.Whole.{build_tree-Raised}

module _ {K L : Type 0} ⦃o : Ord K⦄ where
  -- The keys increase.
  abbrev pub IsIncreasing : List (K × L) → Type 0
  IsIncreasing [] = Unit
  IsIncreasing (b ∷ bs) = All (λ d. o.cmp b.0 d.0 ≡ lt) bs × IsIncreasing bs

  All-binding :
      (P : K → Type 0) (es : List (Entry K L))
      → All (λ d. P d.0) (map binding es)
      → All (λ e. P e.key) es
  All-binding P [] h = tt
  All-binding P (e ∷ es) h = (h.0, All-binding P es h.1)

  IsIncreasing-IsSorted : (es : List (Entry K L)) → IsIncreasing (map binding es) → IsSorted es
  IsIncreasing-IsSorted [] h = tt
  IsIncreasing-IsSorted (e ∷ es) h =
      (All-binding (λ k. o.cmp e.key k ≡ lt) es h.0, IsIncreasing-IsSorted es h.1)

module _ {K L M : Type 0} ⦃o : Ord K⦄ (f : M → L) where
  abbrev on_value : K × M → K × L
  on_value b = (b.0, f b.1)

  All-map_value :
      (P : K → Type 0) (items : List (K × M))
      → All (λ d. P d.0) items
      → All (λ d. P d.0) (map on_value items)
  All-map_value P [] h = tt
  All-map_value P (b ∷ bs) h = (h.0, All-map_value P bs h.1)

  IsIncreasing-map : (items : List (K × M)) → IsIncreasing items → IsIncreasing (map on_value items)
  IsIncreasing-map [] h = tt
  IsIncreasing-map (b ∷ bs) h =
      (All-map_value (λ k. o.cmp b.0 k ≡ lt) bs h.0, IsIncreasing-map bs h.1)

module _ {K V : Type 0} ⦃o : Ord K⦄ ⦃val : Value V⦄ where
  -- A call that ends in a well-formed tree with the given contents, in a valid arena where all nodes
  -- of before are as they were.
  pub record Sorted (s : Guard K V) (items : List (K × val.Local))
      (r : Outcome (Unit {0} × Guard K V)) : Type 0 where
    pub after : Guard K V
    pub tree : Shape K V
    pub returns : r ≡ done (tt, after)
    pub is_tree : IsTree after tree
    pub holds_items : contents tree ≡ stored V items
    pub valid : IsValid after.arena
    pub others_kept : (q : NodeIndex) (m : Node K V) → view s q ≡ some m → view after q ≡ some m

  from_sorted_slice_steps :
      (g : Growth) (x : K × val.Local) (xs : List (K × val.Local)) (s : Guard K V) (t : Shape K V)
      {s1 s2 : Guard K V}
      → build_tree g
          (length (x ∷ xs))
          (x ∷ xs)
          none
          (level_color (bit_length (length (x ∷ xs)) (length (x ∷ xs))))
          s
        ≡ done (ends_of t, s1)
      → blacken_built (root t) (seated (bit_length (length (x ∷ xs)) (length (x ∷ xs))) t s1)
        ≡ done (tt, s2)
      → from_sorted_slice g (x ∷ xs) s ≡ done (tt, s2)
  unfolding from_sorted_slice
  from_sorted_slice_steps g x xs s t e f = rw (e, f) refl

  -- `from_sorted_slice_unchecked` of a slice whose keys increase and whose length has at most 509
  -- binary digits, on a port with default metadata and an arena with a valid free list, returns without
  -- panic, undefined behaviour or running out of fuel, and leaves a well-formed red-black tree. Its
  -- contents are the items in order, each with the local data of the value made of it; the free list is
  -- valid, and every node that the arena held before is as it was.
  pub from_sorted_slice-Sorted :
      (g : Growth) (items : List (K × val.Local)) (s : Guard K V)
      → IsValid s.arena
      → s.meta ≡ default_bounds
      → IsIncreasing items
      → bit_length (length items) (length items) ≤ 509
      → Sorted s items (from_sorted_slice g items s)
  unfolding from_sorted_slice
  from_sorted_slice-Sorted g [] s valid blank up digits = record {
    after = s;
    tree = leaf;
    returns = refl;
    is_tree = record {
      focus = record {
        inside = tt;
        above = tt;
        distinct = λ q. omega arith;
        rooted = ap (λ (b : Bounds). b.root) blank;
      };
      balanced = tt;
      dark = refl;
      black_height = ap (λ (b : Bounds). b.black_height) blank;
      sorted = tt;
      threaded = tt;
      range = ap (λ (b : Bounds). b.range) blank;
    };
    holds_items = refl;
    valid = valid;
    others_kept = λ q m e. e;
  }
  from_sorted_slice-Sorted g (x ∷ xs) s valid blank up digits =
      let n = length (x ∷ xs) in
      let h = bit_length n n in
      let b = build_tree-Raised g n h (x ∷ xs) none s valid (Fits-bit_length n) (omega arith) in
      let increasing =
        subst IsIncreasing (sym b.bindings)
          (IsIncreasing-map (λ l. val.into (val.new l)) (x ∷ xs) up) in
      let k =
        blacken_built-Seated b.after h b.tree b.holds b.valid b.distinct
          (IsIncreasing-IsSorted (entries b.tree) increasing) b.threaded b.balanced b.height_is
          (omega (arith, digits)) in
      record {
        after = k.after;
        tree = k.tree;
        returns = from_sorted_slice_steps g x xs s b.tree b.returns k.returns;
        is_tree = k.is_tree;
        holds_items = ap (map binding) k.entries_kept ∙ b.bindings;
        valid = k.valid;
        others_kept = λ q m e. let out = b.fresh q m e in k.reads_out q out ∙ b.reads_out q out ∙ e;
      }
