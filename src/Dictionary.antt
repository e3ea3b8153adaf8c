-- ===== src/Dictionary.antt =====
-- The trees of src/tree/interface.rs as sorted maps: what a guard's tree is, and its contents.
pub mod Splice
pub mod Place
pub mod Put
pub mod Read
pub mod Recall
pub mod Fill
pub mod Cost
pub mod Estimate
pub mod Ends
pub mod Pair
pub mod Insert
pub mod Remove
pub mod Run
use Prim.Native.Nat.{Ordering}
use Prim.Native.Nat.Ordering.{lt, eq, gt}
use rb_forest.Base.{
  ◌≡◌, Bool, false, not, ◌||◌, if◌then◌else◌, Option, none, some, Outcome, done, List, [], ◌∷◌,
  pair, map,
}
use rb_forest.Order.{Ord}
use rb_forest.Node.{Value}
use rb_forest.Guard.{Guard}
use rb_forest.Shape.{Shape, top, Focus}
use rb_forest.Shape.Balance.{height, top_weight, IsBalanced}
use rb_forest.Shape.Entries.{Entry, entries}
use rb_forest.Lookup.{is_eq}
use rb_forest.Sequence.{first_or, last_or, IsThreaded, IsSorted}

module _ {K L : Type 0} where
  abbrev pub binding : Entry K L → K × L
  binding e = (e.key, e.local)

module _ {K L : Type 0} ⦃o : Ord K⦄ where
  -- A binding in a list that is sorted by keys: the binding of an equal key is replaced.
  abbrev pub put_by : Ordering → K → L → K × L → (rest put_rest : List (K × L)) → List (K × L)
  put_by lt key l b rest put_rest = b ∷ put_rest
  put_by eq key l b rest put_rest = (b.0, l) ∷ rest
  put_by gt key l b rest put_rest = (key, l) ∷ b ∷ rest

  abbrev pub has_key : K → List (K × L) → Bool
  has_key key [] = false
  has_key key (b ∷ bs) = is_eq (o.cmp b.0 key) || has_key key bs

  abbrev pub lookup : K → List (K × L) → Option L
  lookup key [] = none
  lookup key (b ∷ bs) = if is_eq (o.cmp b.0 key) then some b.1 else lookup key bs

  abbrev pub put : K → L → List (K × L) → List (K × L)
  put key l [] = (key, l) ∷ []
  put key l (b ∷ bs) = put_by (o.cmp b.0 key) key l b bs (put key l bs)

  -- A key in a list that is sorted by keys: its binding is left out.
  abbrev pub delete : K → List (K × L) → List (K × L)
  delete key [] = []
  delete key (b ∷ bs) = if is_eq (o.cmp b.0 key) then bs else b ∷ delete key bs

module _ {K V : Type 0} ⦃o : Ord K⦄ ⦃val : Value V⦄ where
  -- The guard's tree is `t`: a red-black tree with a black root and its black height recorded, whose
  -- keys increase, whose order links thread its nodes, and whose ends the range records.
  pub record IsTree (s : Guard K V) (t : Shape K V) : Type 0 where
    pub focus : Focus s top t
    pub balanced : IsBalanced t
    pub dark : top_weight t ≡ 1
    pub black_height : s.meta.black_height ≡ height t
    pub sorted : IsSorted (entries t)
    pub threaded : IsThreaded none (entries t) none
    pub range : s.meta.range ≡ pair (first_or none (entries t)) (last_or none (entries t))

  -- The keys in order, each with the local data of its value.
  abbrev pub contents : Shape K V → List (K × val.Local)
  contents t = map binding (entries t)

  -- A call that ends in the tree's contents with a binding put into them.
  pub record Stored (t : Shape K V) (key : K) (local : val.Local) (r : Outcome (Bool × Guard K V))
      : Type 0 where
    pub after : Guard K V
    pub is_new : Bool
    pub tree : Shape K V
    pub returns : r ≡ done (is_new, after)
    pub is_tree : IsTree after tree
    pub stored : contents tree ≡ put key (val.into (val.new local)) (contents t)
    pub newness : is_new ≡ not (has_key key (contents t))
