-- ===== src/Dictionary/Insert/Valid.antt =====
-- `TreeAllocGuard::insert` of src/tree/interface.rs keeps the arena's free list valid.
use rb_forest.Base.{left, right}
use rb_forest.Order.{Ord}
use rb_forest.Arena.{Growth}
use rb_forest.Arena.FreeList.{IsValid, insert-Inserted}
use rb_forest.Node.{NodeIndex, Node, Value, red, black, new_node}
use rb_forest.Guard.{Guard, Cmd, alloc_insert}
use rb_forest.Guard.Valid.{
  IsValidAfter, and_then-IsValidAfter, reads-IsValidAfter, modify-IsValidAfter, if-IsValidAfter,
}
use rb_forest.Tree.Search.{SearchResult, search, empty, left_of, here, right_of}
use rb_forest.Interface.{insert}
use rb_forest.Insertion.Valid.{insert_at-IsValidAfter}

module _ {K V : Type 0} where
  found-IsValidAfter :
      {A : Type 0} (r : SearchResult NodeIndex) (e : Cmd K V A) (l f g : NodeIndex → Cmd K V A)
      (s : Guard K V)
      → IsValidAfter (e s)
      → ((p : NodeIndex) → IsValidAfter (l p s))
      → ((p : NodeIndex) → IsValidAfter (f p s))
      → ((p : NodeIndex) → IsValidAfter (g p s))
      → IsValidAfter (
          (elim r as (λ _. Cmd K V A) [
            | empty ↦ e
            | left_of p ↦ l p
            | here p ↦ f p
            | right_of p ↦ g p
          ])
            s)
  found-IsValidAfter empty e l f g s w x y z = w
  found-IsValidAfter (left_of p) e l f g s w x y z = x p
  found-IsValidAfter (here p) e l f g s w x y z = y p
  found-IsValidAfter (right_of p) e l f g s w x y z = z p

  alloc_insert-IsValidAfter :
      (g : Growth) (n : Node K V) (s : Guard K V)
      → IsValid s.arena
      → IsValidAfter (alloc_insert g n s)
  alloc_insert-IsValidAfter g n s h =
      let a = insert-Inserted g s.arena n h in rw (a.returns) a.valid

module _ {K V : Type 0} ⦃o : Ord K⦄ ⦃val : Value V⦄ where
  pub insert-IsValidAfter :
      (g : Growth) (key : K) (local : val.Local) (s : Guard K V)
      → IsValid s.arena
      → IsValidAfter (insert g key local s)
  unfolding insert
  insert-IsValidAfter g key local s h = reads-IsValidAfter s (search s.meta.root key s) _ λ r.
      found-IsValidAfter r _ _ _ _ s
        (and_then-IsValidAfter _ _
          (alloc_insert-IsValidAfter g (new_node key (val.new local) black) s h)
          λ p s1 h1.
            and_then-IsValidAfter _ _
              (if-IsValidAfter val.has_cumulant _ _ _ (modify-IsValidAfter p _ _ h1) h1)
              λ x s2 h2. h2)
        (λ q.
          and_then-IsValidAfter _ _
            (alloc_insert-IsValidAfter g (new_node key (val.new local) red) s h)
            λ p s1 h1.
              and_then-IsValidAfter _ _ (insert_at-IsValidAfter left p q s1 h1) λ x s2 h2. h2)
        (λ p. and_then-IsValidAfter _ _ (modify-IsValidAfter p _ s h) λ x s1 h1. h1)
        (λ q.
          and_then-IsValidAfter _ _
            (alloc_insert-IsValidAfter g (new_node key (val.new local) red) s h)
            λ p s1 h1.
              and_then-IsValidAfter _ _ (insert_at-IsValidAfter right p q s1 h1) λ x s2 h2. h2)
