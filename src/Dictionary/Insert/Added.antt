-- ===== src/Dictionary/Insert/Added.antt =====
-- `TreeAllocGuard::insert` of src/tree/interface.rs where the key is new.
use Prim.Native.Nat.Ordering.{lt, gt}
use rb_forest.Base.{
  ◌≡◌, ◌==◌, refl, Bool, true, false, none, some, ◌∷◌, [], Side, left, pair, Outcome, done, arith,
  ap, sym, subst, ◌∙◌, ◌+◌, ◌<◌, inl, inr, map, not, Bool-cases, ==→≡, ==_refl, if◌then◌else◌,
}
use rb_forest.Order.{Ord}
use rb_forest.Arena.{Arena, Growth}
use rb_forest.Arena.FreeList.{IsValid, Inserted, insert-Inserted}
use rb_forest.Node.{NodeIndex, Node, Value, red, black, new_node}
use rb_forest.Guard.{Guard, Bounds, modify, pure}
use rb_forest.Guard.Laws.{view}
use rb_forest.Tree.Search.{empty, search}
use rb_forest.Interface.{insert, only}
use rb_forest.Shape.{
  Cell, Shape, leaf, fork, fork_at, Context, top, below, plug, Focus, count, count_above,
}
use rb_forest.Shape.Zipper.{modify-Edited}
use rb_forest.Shape.Unplug.{Focus-plug, count-plug}
use rb_forest.Shape.Relink.{count_vacant, Focus-frame}
use rb_forest.Shape.Entries.{entry}
use rb_forest.Shape.Parts.{before, after, near}
use rb_forest.Sequence.{
  IsSorted, IsThreaded, first_or, last_or, splice-IsThreaded, first_or-splice, last_or-splice,
  splice, All,
}
use rb_forest.Insertion.Attach.{linked, widen}
use rb_forest.Insertion.At.{insert_at-Placed}
use rb_forest.Dictionary.{IsTree, put, has_key, binding, Stored}
use rb_forest.Dictionary.Splice.{
  entries-vacant, entries-linked, order-linked, far-near, widen-range,
}
use rb_forest.Dictionary.Place.{vacancy}
use rb_forest.Dictionary.Put.{splice-IsSorted, put-splice, has_key-less, has_key-more}
use rb_forest.Dictionary.Insert.Steps.{insert-empty, insert-below}

module _ {K V : Type 0} where
  -- A node taken from the arena is not in the tree, and leaves it.
  taken-Focus :
      {s : Guard K V} (ctx : Context K V) (t : Shape K V) (n : Node K V)
      {r : Outcome (NodeIndex × Arena (Node K V))}
      → Focus s ctx t
      → (a : Inserted s.arena n r) → count a.index t + count_above a.index ctx ≡ 0
      → Focus (record s { arena = a.arena }) ctx t
  taken-Focus ctx t n f a out = Focus-frame ctx t f refl λ q m. elim (Bool-cases (q == a.index)) [
    | inl e ↦
        let same = ==→≡ q a.index e in
        absurd (omega (arith, out, ap (λ x. count x t) same, ap (λ x. count_above x ctx) same))
    | inr e ↦ a.reads q ∙ rw e refl
  ]

module _ {K V : Type 0} ⦃o : Ord K⦄ ⦃val : Value V⦄ where
  -- The node that is taken, as a cell.
  abbrev taken : NodeIndex → K → V → Cell K V
  taken p key v = record { here = p; key = key; value = v; color = red; order = pair none none }

  pub below-Stored :
      {s : Guard K V} (g : Growth) (key : K) (local : val.Local) (i : Side) (c : Cell K V)
      (u : Shape K V) (ctx : Context K V)
      → IsTree s (plug (below i c u ctx) leaf)
      → IsValid s.arena
      → s.meta.black_height < 255
      → search s.meta.root key s ≡ done (vacancy (below i c u ctx))
      → All (λ e. o.cmp e.key key ≡ lt) (before (below i c u ctx))
      → All (λ e. o.cmp e.key key ≡ gt) (after (below i c u ctx))
      → Stored (plug (below i c u ctx) leaf) key local (insert g key local s)
  unfolding new_node
  below-Stored {s} g key local i c u ctx h valid small found less more =
      let v = val.new local in
      let a = insert-Inserted g s.arena (new_node key v red) valid in
      let n = taken a.index key v in
      let foc = Focus-plug ctx (fork_at i leaf c u) h.focus in
      let gone =
        count_vacant (view s) a.index none (plug (below i c u ctx) leaf) a.fresh h.focus.inside in
      let out : count a.index (fork_at i leaf c u) + count_above a.index ctx ≡ 0 =
        omega (arith, gone, count-plug a.index ctx (fork_at i leaf c u)) in
      let foc1 = taken-Focus ctx (fork_at i leaf c u) (new_node key v red) foc a out in
      let new = a.reads a.index ∙ rw ==_refl refl in
      let w =
        insert_at-Placed i c u ctx n none foc1 new out (far-near i c u ctx h.threaded) refl
          h.balanced h.dark h.black_height small in
      let en = entry (linked i c ctx n) in
      let xs = before (below i c u ctx) in
      let ys = after (below i c u ctx) in
      let e = w.same ∙ entries-linked i c u ctx n in
      let old = entries-vacant (below i c u ctx) in
      record {
        after = w.after;
        is_new = true;
        tree = w.tree;
        returns =
            insert-below s w.after g key local a.index a.arena i c u ctx found a.returns w.returns;
        is_tree = record {
          focus = w.focus;
          balanced = w.balanced;
          dark = w.dark;
          black_height = w.black_height;
          sorted =
              subst IsSorted (sym e)
                (splice-IsSorted xs en ys (subst IsSorted old h.sorted) less more);
          threaded =
              subst (λ es. IsThreaded none es none) (sym e)
                (splice-IsThreaded none none xs en ys
                  (subst (λ es. IsThreaded none es none) old h.threaded) (order-linked i c u ctx));
          range =
              w.range
              ∙ ap (widen i (near i ctx) a.index) h.range
              ∙ widen-range i a.index c u ctx
              ∙ ap (λ x. pair x (last_or (some a.index) ys)) (sym (first_or-splice none xs en ys))
              ∙ ap (λ x. pair (first_or none (splice xs en ys)) x)
                  (sym (last_or-splice none xs en ys))
              ∙ ap (λ es. pair (first_or none es) (last_or none es)) (sym e);
        };
        stored =
            ap (map binding) e
            ∙ put-splice xs en ys less more
            ∙ ap (λ es. put key (val.into v) (map binding es)) (sym old);
        newness = ap not (
            sym (
              ap (λ es. has_key key (map binding es)) old
              ∙ has_key-less key xs ys less
              ∙ has_key-more key ys more));
      }

  -- `refresh_leaf`: the only node of a tree has its cumulant set, where the value type has one.
  record Renewed (s : Guard K V) (c : Cell K V) (r : Outcome (Unit {0} × Guard K V)) : Type 0 where
    pub after : Guard K V
    pub value : V
    pub returns : r ≡ done (tt, after)
    pub focus : Focus after top (fork leaf (record c { value = value }) leaf)
    pub meta_kept : after.meta ≡ s.meta
    pub into_kept : val.into value ≡ val.into c.value

  refresh-Renewed :
      {s : Guard K V} (c : Cell K V)
      → Focus s top (fork leaf c leaf)
      → (has : Bool)
      → Renewed s c (
          (if has
              then modify c.here
                  (λ m. record m { value = val.update_cumulant (pair none none) m.value })
              else pure tt)
            s)
  refresh-Renewed c f true =
      let w =
        modify-Edited left leaf c leaf
          (λ m. record m { value = val.update_cumulant (pair none none) m.value }) c.key
          (val.update_cumulant (pair none none) c.value) c.color c.order f refl in
      record {
        after = w.after;
        value = val.update_cumulant (pair none none) c.value;
        returns = w.returns;
        focus = w.focus;
        meta_kept = w.meta_kept;
        into_kept = val.into-update (pair none none) c.value;
      }
  refresh-Renewed {s} c f false = record {
    after = s;
    value = c.value;
    returns = refl;
    focus = f;
    meta_kept = refl;
    into_kept = refl;
  }

  pub empty-Stored :
      (s : Guard K V) (g : Growth) (key : K) (local : val.Local)
      → IsValid s.arena
      → search s.meta.root key s ≡ done empty
      → Stored leaf key local (insert g key local s)
  unfolding new_node
  empty-Stored s g key local valid found =
      let v = val.new local in
      let a = insert-Inserted g s.arena (new_node key v black) valid in
      let p = a.index in
      let n : Cell K V = record {
        here = p;
        key = key;
        value = v;
        color = black;
        order = pair none none;
      } in
      let foc : Focus (record { arena = a.arena; meta = only p s.meta }) top (fork leaf n leaf) =
        record {
          inside = (a.reads p ∙ rw ==_refl refl, tt, tt);
          above = tt;
          distinct = λ q. ground arith;
          rooted = refl;
        } in
      let w = refresh-Renewed n foc val.has_cumulant in
      record {
        after = w.after;
        is_new = true;
        tree = fork leaf (record n { value = w.value }) leaf;
        returns = insert-empty s w.after g key local p a.arena found a.returns w.returns;
        is_tree = record {
          focus = w.focus;
          balanced = (refl, omega arith, omega arith, tt, tt);
          dark = refl;
          black_height = ap (λ (m : Bounds). m.black_height) w.meta_kept;
          sorted = (tt, tt);
          threaded = (refl, tt);
          range = ap (λ (m : Bounds). m.range) w.meta_kept;
        };
        stored = ap (λ l. (key, l) ∷ []) w.into_kept;
        newness = refl;
      }
