-- ===== src/Shape/Zipper.antt =====
-- Moving the focus of a tree, and editing the cell that it is at.
use rb_forest.Base.{
  pair_at, ◌+◌, ◌<◌, ◌≡◌, refl, some, Pair, Side, left, right, other, arith, ◌∙◌, ap, subst, ◌↔◌,
  Outcome, done,
}
use rb_forest.Node.{NodeIndex, NodeRef, Node, Color, Value}
use rb_forest.Guard.{Guard, Bounds, modify}
use rb_forest.Guard.Laws.{view, Written, modify-Written, reads_ne, reads_self}
use rb_forest.Tree.{rotate}
use rb_forest.Tree.Insert.{paint}
use rb_forest.Shape.{
  Heap, Cell, Shape, Context, below, root, parent_of, top_of, node_of, fork_at, count, count_above,
  once, Holds, Holds-frame, HoldsAbove-frame, ne_of_once, Focus,
}
use rb_forest.Shape.Rotate.{Leaning, rotate-Rotated, settle}

module _ {K V : Type 0} where
  pub fork_at-other :
      (i : Side) (x : Shape K V) (c : Cell K V) (y : Shape K V)
      → fork_at (other i) x c y ≡ fork_at i y c x
  fork_at-other left x c y = refl
  fork_at-other right x c y = refl

  pub root-fork_at :
      (i : Side) (x : Shape K V) (c : Cell K V) (y : Shape K V)
      → root (fork_at i x c y) ≡ some c.here
  root-fork_at left x c y = refl
  root-fork_at right x c y = refl

  pub count-fork_at :
      (i : Side) (x : Shape K V) (c : Cell K V) (y : Shape K V) (q : NodeIndex)
      → count q (fork_at i x c y) ≡ once q c.here + count q x + count q y
  count-fork_at left x c y q = refl
  count-fork_at right x c y q = omega arith

  pub Holds-fork_at :
      (h : Heap K V) (i : Side) (parent : NodeRef) (x : Shape K V) (c : Cell K V) (y : Shape K V)
      → Holds h parent (fork_at i x c y) ↔ (
          (h c.here ≡ some (node_of parent (pair_at i (root x) (root y)) c))
          × Holds h (some c.here) x
          × Holds h (some c.here) y)
  Holds-fork_at h left parent x c y = (λ h. h, λ h. h)
  Holds-fork_at h right parent x c y = (λ h. (h.0, h.2, h.1), λ h. (h.0, h.2, h.1))

  pub Focus-up :
      {s : Guard K V} (j : Side) {c : Cell K V} {u : Shape K V} {ctx : Context K V} {t : Shape K V}
      → Focus s (below j c u ctx) t
      → Focus s ctx (fork_at j t c u)
  Focus-up {s} j {c} {u} {ctx} {t} f = record {
    inside = (Holds-fork_at (view s) j (parent_of ctx) t c u).1 (f.above.0, f.inside, f.above.1);
    above = rw root-fork_at f.above.2;
    distinct = λ q. omega (arith, f.distinct q, count-fork_at j t c u q);
    rooted = rw root-fork_at f.rooted;
  }

  pub Focus-down :
      {s : Guard K V} (j : Side) {c : Cell K V} {u : Shape K V} {ctx : Context K V} {t : Shape K V}
      → Focus s ctx (fork_at j t c u)
      → Focus s (below j c u ctx) t
  Focus-down {s} j {c} {u} {ctx} {t} f =
      let parts = (Holds-fork_at (view s) j (parent_of ctx) t c u).0 f.inside in
      record {
        inside = parts.1;
        above = (parts.0, parts.2, rw root-fork_at at f.above);
        distinct = λ q. omega (arith, f.distinct q, count-fork_at j t c u q);
        rooted = rw root-fork_at at f.rooted;
      }

  -- The cell in focus is replaced by another with the same index; outside of the tree, and in the
  -- metadata, nothing changes.
  pub record Edited (s : Guard K V) (ctx : Context K V) (t t' : Shape K V)
      (r : Outcome (Unit {0} × Guard K V)) : Type 0 where
    pub after : Guard K V
    pub returns : r ≡ done (tt, after)
    pub focus : Focus after ctx t'
    pub meta_kept : after.meta ≡ s.meta
    pub reads_out : (q : NodeIndex) → count q t + count_above q ctx ≡ 0 → view after q ≡ view s q

  -- A cell at the same index, with other contents.
  abbrev pub recell : Cell K V → K → V → Color → Pair NodeRef → Cell K V
  recell c k v col o = record c { key = k; value = v; color = col; order = o }

  -- A write of the cell's node, to that of another cell.
  pub Written-Edited :
      {s : Guard K V} {ctx : Context K V} {r : Outcome (Unit {0} × Guard K V)} (i : Side)
      (x : Shape K V) (c : Cell K V) (y : Shape K V) (k : K) (v : V) (col : Color)
      (o : Pair NodeRef)
      → Focus s ctx (fork_at i x c y)
      → Written s c.here
          (node_of (parent_of ctx) (pair_at i (root x) (root y)) (recell c k v col o))
          r
      → Edited s ctx (fork_at i x c y) (fork_at i x (recell c k v col o) y) r
  Written-Edited {s} {ctx} i x c y k v col o foc w =
      let parts = (Holds-fork_at (view s) i (parent_of ctx) x c y).0 foc.inside in
      let same = λ (q : NodeIndex) (m : 0 < count q x + count q y + count_above q ctx).
        reads_ne w q
          (ne_of_once q c.here (omega (arith, foc.distinct q, count-fork_at i x c y q))) in
      let c' = recell c k v col o in
      record {
        after = w.after;
        returns = w.returns;
        focus = record {
          inside = (Holds-fork_at (view w.after) i (parent_of ctx) x c' y).1 (
            reads_self w,
            Holds-frame (some c.here) x parts.1 (λ q m. same q (omega arith)),
            Holds-frame (some c.here) y parts.2 (λ q m. same q (omega arith)),
          );
          above = rw root-fork_at (
              HoldsAbove-frame (some c.here) ctx (rw root-fork_at at foc.above)
                (λ q m. same q (omega arith)));
          distinct =
              λ q. omega (arith, foc.distinct q, count-fork_at i x c y q, count-fork_at i x c' y q);
          rooted =
              rw root-fork_at
                (ap (λ (b : Bounds). b.root) w.meta_kept ∙ (rw root-fork_at at foc.rooted));
        };
        meta_kept = w.meta_kept;
        reads_out = λ q out.
            reads_ne w q (ne_of_once q c.here (omega (arith, out, count-fork_at i x c y q)));
      }

  pub modify-Edited :
      {s : Guard K V} {ctx : Context K V} (i : Side) (x : Shape K V) (c : Cell K V) (y : Shape K V)
      (f : Node K V → Node K V) (k : K) (v : V) (col : Color) (o : Pair NodeRef)
      → Focus s ctx (fork_at i x c y)
      → f (node_of (parent_of ctx) (pair_at i (root x) (root y)) c)
        ≡ node_of (parent_of ctx) (pair_at i (root x) (root y)) (recell c k v col o)
      → Edited s ctx (fork_at i x c y) (fork_at i x (recell c k v col o) y) (modify c.here f s)
  modify-Edited {s} {ctx} i x c y f k v col o foc e =
      let held = ((Holds-fork_at (view s) i (parent_of ctx) x c y).0 foc.inside).0 in
      Written-Edited i x c y k v col o foc
        (subst (λ n. Written s c.here n (modify c.here f s)) e (modify-Written s c.here f held))

  abbrev pub recolor_cell : Cell K V → Color → Cell K V
  recolor_cell c col = record c { color = col }

  pub paint-Edited :
      {s : Guard K V} {ctx : Context K V} (i : Side) (x : Shape K V) (c : Cell K V) (y : Shape K V)
      (col : Color)
      → Focus s ctx (fork_at i x c y)
      → Edited s ctx (fork_at i x c y) (fork_at i x (recolor_cell c col) y) (paint c.here col s)
  paint-Edited i x c y col foc =
      modify-Edited i x c y (λ m. record m { color = col }) c.key c.value col c.order foc refl

module _ {K V : Type 0} ⦃val : Value V⦄ where
  pub Leaning-Focus :
      {s : Guard K V} (i : Side) {ctx : Context K V} {a : Shape K V} {c : Cell K V} {b : Shape K V}
      {d : Cell K V} {e : Shape K V}
      → Leaning s i ctx a c b d e ↔ Focus s ctx (fork_at i a c (fork_at i b d e))
  Leaning-Focus {s} i {ctx} {a} {c} {b} {d} {e} = (
    λ l. record {
      inside = (Holds-fork_at (view s) i (parent_of ctx) a c (fork_at i b d e)).1 (
        rw root-fork_at l.upper,
        l.outer_near,
        (Holds-fork_at (view s) i (some c.here) b d e).1 (l.lower, l.inner, l.outer_far),
      );
      above = rw root-fork_at l.above;
      distinct = λ q.
          omega
            (arith, l.distinct q, count-fork_at i a c (fork_at i b d e) q, count-fork_at i b d e q);
      rooted = rw root-fork_at l.rooted;
    },
    λ f.
        let parts = (Holds-fork_at (view s) i (parent_of ctx) a c (fork_at i b d e)).0 f.inside in
        let deep = (Holds-fork_at (view s) i (some c.here) b d e).0 parts.2 in
        record {
          upper = rw root-fork_at at parts.0;
          lower = deep.0;
          outer_near = parts.1;
          inner = deep.1;
          outer_far = deep.2;
          above = rw root-fork_at at f.above;
          distinct = λ q. omega (
            arith,
            f.distinct q,
            count-fork_at i a c (fork_at i b d e) q,
            count-fork_at i b d e q,
          );
          rooted = rw root-fork_at at f.rooted;
        },
  )

  -- A rotation of the tree in focus, at its root `c`; its other child `d` takes its place.
  pub record Turned (s : Guard K V) (i : Side) (ctx : Context K V) (a : Shape K V) (c : Cell K V)
      (b : Shape K V) (d : Cell K V) (e : Shape K V) (r : Outcome (Unit {0} × Guard K V))
      : Type 0 where
    pub after : Guard K V
    pub returns : r ≡ done (tt, after)
    pub focus : Focus after ctx (fork_at i (fork_at i a (settle i a c b) b) d e)
    pub meta_lem : after.meta ≡ record s.meta { root = top_of ctx (some d.here) }

  -- `rotate` on side `i` at the root `c` of the tree in focus, which has a child `d` on the other side:
  -- it does not fail; `d` is above `c`, their three sub-trees keep their order, all links in the
  -- arena are those of the new tree, `c` has its cumulant updated, and of the metadata only the root
  -- may change, to the new tree's.
  pub rotate-Turned :
      {s : Guard K V} (i : Side) {ctx : Context K V} {a : Shape K V} {c : Cell K V} {b : Shape K V}
      {d : Cell K V} {e : Shape K V}
      → Focus s ctx (fork_at i a c (fork_at i b d e))
      → Turned s i ctx a c b d e (rotate i c.here s)
  rotate-Turned i {ctx} {a} {c} {b} {d} {e} f =
      let t = rotate-Rotated ((Leaning-Focus i).1 f) in
      record {
        after = t.after;
        returns = t.returns;
        focus =
            subst (Focus t.after ctx)
              (ap (λ x. fork_at (other i) e d x) (fork_at-other i b (settle i a c b) a)
                ∙ fork_at-other i e d (fork_at i a (settle i a c b) b))
              ((Leaning-Focus (other i)).0 t.leaning);
        meta_lem = t.meta_lem;
      }
