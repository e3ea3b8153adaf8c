-- ===== src/Guard/Laws.antt =====
-- What a guard shows at an index, and how the primitive commands change it.
use rb_forest.Base.{
  ◌≡◌, refl, true, ◌==◌, Option, some, if◌then◌else◌, Outcome, done, arith, is_some, ◌∙◌, ◌≢◌,
  ==_refl, ≢→==,
}
use rb_forest.Arena.{get, put}
use rb_forest.Arena.Access.{get-put, contains-is_some}
use rb_forest.Node.{NodeIndex, Node}
use rb_forest.Guard.{Guard, node_at, modify}

module _ {K V : Type 0} where
  -- The node at an index.
  abbrev pub view : Guard K V → NodeIndex → Option (Node K V)
  view s p = get s.arena p

  pub write : Guard K V → NodeIndex → Node K V → Guard K V
  write s p n = record s { arena = put s.arena p n }

  pub meta-write : (s : Guard K V) (p : NodeIndex) (n : Node K V) → (write s p n).meta ≡ s.meta
  unfolding write
  meta-write s p n = refl

  -- A write at an index that holds a node is read back there, and nowhere else.
  pub view-write :
      (s : Guard K V) (p : NodeIndex) (n : Node K V) (q : NodeIndex)
      → is_some (view s p) ≡ true
      → view (write s p n) q ≡ (if q == p then some n else view s q)
  unfolding write
  view-write s p n q e = ground (arith, get-put s.arena p q n, contains-is_some s.arena p)

  pub node_at-done :
      (s : Guard K V) (p : NodeIndex) {n : Node K V} → view s p ≡ some n → node_at p s ≡ done n
  unfolding node_at
  node_at-done s p e = rw e

  pub modify-done :
      (s : Guard K V) (p : NodeIndex) (f : Node K V → Node K V) {n : Node K V}
      → view s p ≡ some n
      → modify p f s ≡ done (tt, write s p (f n))
  unfolding modify write
  modify-done s p f e = rw e

  -- What a write does: the result `r` is a guard that shows `n` at `p` and is else as before.
  pub record Written (s : Guard K V) (p : NodeIndex) (n : Node K V)
      (r : Outcome (Unit {0} × Guard K V)) : Type 0 where
    pub after : Guard K V
    pub returns : r ≡ done (tt, after)
    pub reads : (q : NodeIndex) → view after q ≡ (if q == p then some n else view s q)
    pub meta_kept : after.meta ≡ s.meta

  pub modify-Written :
      (s : Guard K V) (p : NodeIndex) (f : Node K V → Node K V) {n : Node K V}
      → view s p ≡ some n
      → Written s p (f n) (modify p f s)
  modify-Written s p f {n} e = record {
    after = write s p (f n);
    returns = modify-done s p f e;
    reads = λ q. view-write s p (f n) q (rw e);
    meta_kept = meta-write s p (f n);
  }

  module _ {s : Guard K V} {p : NodeIndex} {n : Node K V} {r : Outcome (Unit {0} × Guard K V)}
      (w : Written s p n r) where
    pub reads_self : view w.after p ≡ some n
    reads_self = w.reads p ∙ rw ==_refl

    pub reads_ne : (q : NodeIndex) → q ≢ p → view w.after q ≡ view s q
    reads_ne q e = w.reads q ∙ rw (≢→== q p e)
