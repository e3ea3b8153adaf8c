-- ===== src/Cursor/Dangling.antt =====
-- What the removals of src/tree/cursor.rs leave in the tree.
use rb_forest.Base.{◌≡◌, ◌==◌, false, refl, none, some, done, Side, at, arith, ◌∙◌}
use rb_forest.Arena.{remove}
use rb_forest.Arena.Access.{remove_lem}
use rb_forest.Node.{NodeIndex, Node}
use rb_forest.Guard.{Guard}
use rb_forest.Guard.Laws.{view, node_at-done}
use rb_forest.Cursor.{remove_child}

module _ {K V : Type 0} where
  -- Where the current node `p` has a child `c` on side `i`, another node, `remove_child` returns the
  -- key and the value of `c`, and afterwards its slot is vacant, but `p` is unchanged and so still
  -- refers to it.
  pub remove_child-dangling :
      (s : Guard K V) (i : Side) (p c : NodeIndex) (n m : Node K V)
      → view s p ≡ some n
      → at n.children i ≡ some c
      → view s c ≡ some m
      → (p == c) ≡ false
      → (s' : Guard K V) × (remove_child i (some p) s ≡ done (some (m.key, m.value), s'))
        × (view s' c ≡ none)
        × (view s' p ≡ some n)
  unfolding remove_child
  remove_child-dangling s i p c n m ep ec em ne = (
    record s { arena = (remove s.arena c).1 },
    rw (node_at-done s p ep, ec, (remove_lem s.arena c).0, em) refl,
    (remove_lem s.arena c).1 c ∙ ground arith,
    (remove_lem s.arena c).1 p ∙ rw ne ep,
  )
