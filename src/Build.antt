-- ===== src/Build.antt =====
-- `from_sorted_slice_unchecked` of src/tree/iter.rs: a balanced tree from a sorted slice.
pub mod Rewire
pub mod Link
pub mod Raise
pub mod Apart
pub mod Pivot
pub mod Levels
pub mod Whole
pub mod Seat
pub mod Sorted
pub mod Recall
use rb_forest.Base.{
  ℕ, zero, suc, ◌/◌, ◌%◌, ◌^◌, ◌==◌, Bool, none, some, List, [], ◌∷◌, if◌then◌else◌, length, take,
  drop, out_of_fuel, panic, pair, put_at, left, right,
}
use rb_forest.Arena.{Growth}
use rb_forest.Node.{NodeIndex, NodeRef, Color, red, black, not_color, new_node, is_red, Value}
use rb_forest.Guard.{Cmd, pure, ◌>>=◌, ◌>>◌, node, modify, modify_ref, modify_meta, alloc_insert}
use rb_forest.Tree.{update_cumulant}
use rb_forest.Tree.Insert.{raise_height}

-- The result `[NodeRef; 3]` of `build_tree`: lowest node, root, highest node.
pub record Built : Type 0 where
  pub lowest : NodeRef
  pub top : NodeRef
  pub highest : NodeRef

abbrev pub built : NodeRef → NodeRef → NodeRef → Built
built l t h = record { lowest = l; top = t; highest = h }

-- `usize::BITS - len.leading_zeros()`: the number of binary digits.
unfoldable pub bit_length : ℕ → ℕ → ℕ
bit_length zero n = 0
bit_length (suc fuel) n = let rest = bit_length fuel (n / 2) in if n == 0 then 0 else suc rest

-- The body at the first element, if there is one.
abbrev first_or {ℓ κ} : {A : Type ℓ} {B : Type κ} → B → (A → B) → List A → B
first_or d f [] = d
first_or d f (x ∷ xs) = f x

module _ {K V : Type 0} ⦃val : Value V⦄ where
  -- The links between a new node and the trees on both sides of it.
  unfoldable pub link_node : NodeIndex → (lower upper : Built) → Cmd K V (Unit {0})
  link_node index l u = do
    modify index (λ m. record m { children = pair l.top u.top; order = pair l.highest u.lowest })
    modify_ref l.highest (λ m. record m { order = put_at m.order right (some index) })
    modify_ref u.lowest (λ m. record m { order = put_at m.order left (some index) })
    update_cumulant index

  -- The body of `build_tree` at a pivot, between the trees of the lower and the upper part.
  unfoldable pub build_node :
      Growth
      → (lower upper : NodeRef → Color → Cmd K V Built)
      → (item : K × val.Local) (is_first is_last : Bool) (parent : NodeRef) (color : Color)
      → Cmd K V Built
  build_node g lower upper item is_first is_last parent color = do
    index ← alloc_insert g (record (new_node item.0 (val.new item.1) color) { parent = parent })
    l ← lower (some index) (not_color color)
    u ← upper (some index) (not_color color)
    link_node index l u
    pure (
        built (if is_first then some index else l.lowest) (some index)
          (if is_last then some index else u.highest))

  unfoldable pub build_leaf : Growth → K × val.Local → NodeRef → Color → Cmd K V Built
  build_leaf g item parent color = do
    let leaf = new_node item.0 (val.new item.1) color
    p ←
        alloc_insert g
          (record leaf { value = val.update_cumulant (pair none none) leaf.value; parent = parent })
    pure (built (some p) (some p) (some p))

  -- The fuel is the length of the slice, which falls with each call.
  unfoldable pub build_tree : Growth → ℕ → List (K × val.Local) → NodeRef → Color → Cmd K V Built
  build_tree g fuel [] parent color = pure (built none none none)
  build_tree g fuel (x ∷ []) parent color = build_leaf g x parent color
  build_tree g zero (x ∷ y ∷ items) parent color = λ _. out_of_fuel
  build_tree g (suc fuel) (x ∷ y ∷ items) parent color =
      let all = x ∷ y ∷ items in
      let pivot = length all / 2 in
      first_or (λ _. panic)
        (λ item.
          build_node g (build_tree g fuel (take pivot all))
            (build_tree g fuel (drop (suc pivot) all)) item (pivot == 0) (suc pivot == length all)
            parent color)
        (drop pivot all)

  unfoldable pub blacken_built : NodeRef → Cmd K V (Unit {0})
  blacken_built none = pure tt
  blacken_built (some root) = do
    n ← node root
    if is_red n
        then modify root (λ m. record m { color = black }) >> modify_meta raise_height
        else pure tt

  -- On a port whose metadata is the default.
  unfoldable pub from_sorted_slice : Growth → List (K × val.Local) → Cmd K V (Unit {0})
  from_sorted_slice g [] = pure tt
  from_sorted_slice g (x ∷ items) = do
    let all = x ∷ items
    let height = bit_length (length all) (length all)
    b ← build_tree g (length all) all none (if height % 2 == 0 then black else red)
    modify_meta (λ m. record m {
      root = b.top;
      range = pair b.lowest b.highest;
      black_height = (height / 2) % 2 ^ 8;
    })
    blacken_built b.top

  -- The iterator as the list of its items, for items without drop glue: the source moves the items out
  -- of the box that it collects them in, and drops that box with the items still in it.
  unfoldable pub from_sorted_iter_unchecked : Growth → List (K × val.Local) → Cmd K V (Unit {0})
  unfolding from_sorted_slice
  from_sorted_iter_unchecked = from_sorted_slice

  unfoldable pub from_sorted_iter : Growth → List (K × val.Local) → Cmd K V (Unit {0})
  unfolding from_sorted_iter_unchecked
  from_sorted_iter = from_sorted_iter_unchecked
