-- ===== src/Dictionary/Insert/Steps.antt =====
-- The branches of `TreeAllocGuard::insert` of src/tree/interface.rs, by the calls that they make.
use rb_forest.Base.{◌≡◌, refl, true, false, Side, left, right, done}
use rb_forest.Order.{Ord}
use rb_forest.Arena.{Arena, Growth}
use rb_forest.Arena
use rb_forest.Node.{NodeIndex, Node, Value, red, black, new_node}
use rb_forest.Guard.{Guard, modify}
use rb_forest.Tree.Search.{empty, here, search}
use rb_forest.Tree.Insert.{insert_at}
use rb_forest.Interface.{insert, refresh_leaf, only}
use rb_forest.Shape.{Cell, Shape, Context, below}
use rb_forest.Dictionary.Place.{vacancy}

module _ {K V : Type 0} ⦃o : Ord K⦄ ⦃val : Value V⦄ where
  pub insert-here :
      (s s' : Guard K V) (g : Growth) (key : K) (local : val.Local) (p : NodeIndex)
      → search s.meta.root key s ≡ done (here p)
      → modify p (λ m. record m { value = val.new local }) s ≡ done (tt, s')
      → insert g key local s ≡ done (false, s')
  unfolding insert
  insert-here s s' g key local p found changed = rw (found, changed) refl

  pub insert-empty :
      (s s' : Guard K V) (g : Growth) (key : K) (local : val.Local) (p : NodeIndex)
      (a : Arena (Node K V))
      → search s.meta.root key s ≡ done empty
      → Arena.insert g s.arena (new_node key (val.new local) black) ≡ done (p, a)
      → refresh_leaf p (record { arena = a; meta = only p s.meta }) ≡ done (tt, s')
      → insert g key local s ≡ done (true, s')
  unfolding insert
  insert-empty s s' g key local p a found taken changed = rw (found, taken, changed) refl

  pub insert-below :
      (s s' : Guard K V) (g : Growth) (key : K) (local : val.Local) (p : NodeIndex)
      (a : Arena (Node K V)) (i : Side) (c : Cell K V) (u : Shape K V) (ctx : Context K V)
      → search s.meta.root key s ≡ done (vacancy (below i c u ctx))
      → Arena.insert g s.arena (new_node key (val.new local) red) ≡ done (p, a)
      → insert_at i p c.here (record s { arena = a }) ≡ done (tt, s')
      → insert g key local s ≡ done (true, s')
  unfolding insert
  insert-below s s' g key local p a left c u ctx found taken changed =
      rw (found, taken, changed) refl
  insert-below s s' g key local p a right c u ctx found taken changed =
      rw (found, taken, changed) refl
