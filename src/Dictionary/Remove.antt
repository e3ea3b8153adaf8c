-- ===== src/Dictionary/Remove.antt =====
-- `TreeAllocGuard::remove` of src/tree/interface.rs on a tree, as a deletion from a sorted map.
pub mod Low
pub mod High
pub mod Whole
use rb_forest.Base.{◌≡◌, List, map, some, Option, Outcome, done}
use rb_forest.Order.{Ord}
use rb_forest.Arena.FreeList.{IsValid}
use rb_forest.Node.{NodeIndex, Node, Value}
use rb_forest.Guard.{Guard}
use rb_forest.Guard.Laws.{view}
use rb_forest.Shape.{Cell, Shape, count}
use rb_forest.Shape.Entries.{Entry}
use rb_forest.Dictionary.{IsTree, contents, binding, lookup, delete}

module _ {K V : Type 0} ⦃o : Ord K⦄ ⦃val : Value V⦄ where
  -- A call that ends in a tree of the entries `es`, with the node `ptr` out of the tree and holding
  -- the local data that the cell `c` had.
  pub record Dropped (c : Cell K V) (es : List (Entry K val.Local))
      (r : Outcome (NodeIndex × Guard K V)) : Type 0 where
    pub after : Guard K V
    pub ptr : NodeIndex
    pub node : Node K V
    pub tree : Shape K V
    pub returns : r ≡ done (ptr, after)
    pub is_tree : IsTree after tree
    pub contents_are : contents tree ≡ map binding es
    pub found : view after ptr ≡ some node
    pub value_kept : val.into node.value ≡ val.into c.value
    pub apart : count ptr tree ≡ 0

  -- A call that ends in the tree's contents less the key's binding, whose local data it returns.
  pub record Deleted (t : Shape K V) (key : K) (r : Outcome (Option val.Local × Guard K V))
      : Type 0 where
    pub after : Guard K V
    pub tree : Shape K V
    pub returns : r ≡ done (lookup key (contents t), after)
    pub is_tree : IsTree after tree
    pub deleted : contents tree ≡ delete key (contents t)
    pub valid : IsValid after.arena
