-- ===== src/Tree/Split.antt =====
-- One half of `split_at_root` of src/tree/interface.rs.
use rb_forest.Base.{none, some, if◌then◌else◌, put_at, Side, other}
use rb_forest.Node.{NodeRef, black, is_red}
use rb_forest.Guard.{Bounds, default_bounds, Cmd, pure, ◌>>=◌, ◌>>◌, node, modify, modify_ref}
use rb_forest.Tree.Insert.{paint}
use rb_forest.Tree.Join.{sub_u8}

module _ {K V : Type 0} where
  -- The child on side `i` of a root becomes a tree of its own, from the bounds of the whole: the node
  -- `next` to the root is its last one on the other side.
  unfoldable pub split_half : Side → (child next : NodeRef) → Bounds → Cmd K V Bounds
  split_half i none next b = pure default_bounds
  split_half i (some child) next b = do
    let b' = record b { root = some child; range = put_at b.range (other i) next }
    modify_ref next (λ m. record m { order = put_at m.order (other i) none })
    n ← node child
    modify child (λ m. record m { parent = none })
    if is_red n
        then paint child black >> pure b'
        else pure (record b' { black_height = sub_u8 b'.black_height 1 })
