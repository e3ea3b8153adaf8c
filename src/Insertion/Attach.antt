-- ===== src/Insertion/Attach.antt =====
-- The first part of `insert_at` of src/tree/mod.rs: a new node is linked into a tree.
use rb_forest.Base.{
  pair_at, pair, Pair, ◌+◌, ◌<◌, ◌≡◌, ◌≢◌, ◌==◌, refl, none, some, Side, left, right, other, at,
  put_at, Outcome, done, arith, ap, sym, subst, ◌∙◌, Bool-cases, Option-cases, inl, inr, ==→≡,
  put_at-pair_at,
}
use rb_forest.Node.{NodeIndex, NodeRef, Node}
use rb_forest.Guard.{Guard, Bounds, modify}
use rb_forest.Guard.Laws.{view, Written, modify-Written, reads_ne, reads_self, node_at-done}
use rb_forest.Tree.Insert.{attach, link_far}
use rb_forest.Shape.{
  Cell, Shape, leaf, fork, Context, below, root, parent_of, fork_at, Focus, count, count_above,
  once, node_of, Holds-frame, HoldsAbove-frame, ne_of_once,
}
use rb_forest.Shape.Zipper.{Focus-down, Holds-fork_at, count-fork_at, root-fork_at}
use rb_forest.Shape.Parts.{near, relink, link_to, count_above-relink}
use rb_forest.Shape.Relink.{Written-Focus, Focus-frame, relink-Relinked, relink-none}

-- The range, where a node without a neighbour on side `i` becomes the outermost one.
abbrev pub widen : Side → NodeRef → NodeIndex → Pair NodeRef → Pair NodeRef
widen i none p range = put_at range i (some p)
widen i (some q) p range = range

-- The link that the new node's order is set to, as the code writes it.
abbrev new_order : Side → (far : NodeRef) → NodeIndex → Pair NodeRef
new_order i far q = put_at (put_at (pair none none) i far) (other i) (some q)

linked_order :
    (i : Side) (x y : NodeRef) → put_at (put_at (pair none none) i x) (other i) y ≡ pair_at i x y
linked_order left x y = refl
linked_order right x y = refl

module _ {K V : Type 0} where
  record Joined (s : Guard K V) (i : Side) (p : NodeIndex) (ctx : Context K V) (t : Shape K V)
      (o : Outcome (Unit {0} × Guard K V)) : Type 0 where
    pub after : Guard K V
    pub returns : o ≡ done (tt, after)
    pub focus : Focus after (relink i (some p) ctx) t
    pub range : after.meta.range ≡ widen i (near i ctx) p s.meta.range
    pub root : after.meta.root ≡ s.meta.root
    pub black_height : after.meta.black_height ≡ s.meta.black_height
    pub reads_out : (q : NodeIndex) → count q t + count_above q ctx ≡ 0 → view after q ≡ view s q

  link_far-Joined :
      {s : Guard K V} (i : Side) (p : NodeIndex) (ctx : Context K V) (t : Shape K V)
      → Focus s ctx t
      → Joined s i p ctx t (link_far i (near i ctx) p s)
  unfolding link_far
  link_far-Joined {s} i p ctx t f = elim (Option-cases (near i ctx)) [
    | inl e ↦
        rw (e, link_far)
          record {
            after = record s { meta = record s.meta { range = put_at s.meta.range i (some p) } };
            returns = refl;
            focus =
                subst
                  (λ x.
                    Focus
                      (record s { meta = record s.meta { range = put_at s.meta.range i (some p) } })
                      x t)
                  (sym (relink-none i (some p) ctx e)) (Focus-frame ctx t f refl (λ q m. refl));
            range = rw e refl;
            root = refl;
            black_height = refl;
            reads_out = λ q out. refl;
          }
    | inr (q, e) ↦
        let l = relink-Relinked i (some p) q ctx t e f in
        rw (e, link_far)
          record {
            after = l.after;
            returns = l.returns;
            focus = l.focus;
            range = rw e (ap (λ (b : Bounds). b.range) l.meta_kept);
            root = ap (λ (b : Bounds). b.root) l.meta_kept;
            black_height = ap (λ (b : Bounds). b.black_height) l.meta_kept;
            reads_out = l.reads_out;
          }
  ]

  -- A node outside of the tree becomes the child on side `i`.
  grow :
      {s : Guard K V} (i : Side) (c : Cell K V) (u : Shape K V) (ctx : Context K V) (n : Cell K V)
      {r : Outcome (Unit {0} × Guard K V)}
      → Focus s ctx (fork_at i leaf c u)
      → view s n.here ≡ some (node_of (some c.here) (pair none none) n)
      → count n.here (fork_at i leaf c u) + count_above n.here ctx ≡ 0
      → (w : Written s c.here
          (node_of (parent_of ctx) (pair_at i (some n.here) (root u)) (link_to i (some n.here) c))
          r)
      → Focus w.after ctx (fork_at i (fork leaf n leaf) (link_to i (some n.here) c) u)
  grow {s} i c u ctx n f e out w =
      let c' = link_to i (some n.here) c in
      let parts = (Holds-fork_at (view s) i (parent_of ctx) leaf c u).0 f.inside in
      let kept = λ (q : NodeIndex) (m : 0 < count q u + count_above q ctx).
        reads_ne w q
          (ne_of_once q c.here (omega (arith, f.distinct q, count-fork_at i leaf c u q))) in
      let apart : n.here ≢ c.here =
        ne_of_once n.here c.here (omega (arith, out, count-fork_at i leaf c u n.here)) in
      record {
        inside = (Holds-fork_at (view w.after) i (parent_of ctx) (fork leaf n leaf) c' u).1 (
          reads_self w,
          (reads_ne w n.here apart ∙ e, tt, tt),
          Holds-frame (some c.here) u parts.2 (λ q m. kept q (omega arith)),
        );
        above = rw root-fork_at (
            HoldsAbove-frame (some c.here) ctx (rw root-fork_at at f.above)
              (λ q m. kept q (omega arith)));
        distinct = λ q. elim (Bool-cases (q == n.here)) [
          | inl eq ↦
              let none_here : count q (fork_at i leaf c u) + count_above q ctx ≡ 0 =
                ap (λ x. count x (fork_at i leaf c u) + count_above x ctx) (==→≡ q n.here eq)
                ∙ out in
              let one : once q n.here ≡ 1 = rw eq refl in
              omega (arith, count-fork_at i (fork leaf n leaf) c' u q, count-fork_at i leaf c u q)
          | inr ne ↦
              let no : once q n.here ≡ 0 = rw ne refl in
              omega (
                arith,
                f.distinct q,
                count-fork_at i (fork leaf n leaf) c' u q,
                count-fork_at i leaf c u q,
              )
        ];
        rooted =
            rw root-fork_at
              (ap (λ (b : Bounds). b.root) w.meta_kept ∙ (rw root-fork_at at f.rooted));
      }

  -- The node `n` of a new leaf, linked below `c` on side `i`, between its neighbours.
  abbrev pub linked : Side → Cell K V → Context K V → Cell K V → Cell K V
  linked i c ctx n = record n { order = pair_at i (near i ctx) (some c.here) }

  attach_steps :
      (i : Side) (p q : NodeIndex) (far : NodeRef) (s s1 s2 : Guard K V) {m : Node K V}
      {o : Outcome (Unit {0} × Guard K V)}
      → view s q ≡ some m
      → at m.order i ≡ far
      → modify p (λ x. record x { parent = some q; order = new_order i far q }) s ≡ done (tt, s1)
      → link_far i far p s1 ≡ done (tt, s2)
      → modify q
          (λ x. record x {
            children = put_at x.children i (some p);
            order = put_at x.order i (some p);
          })
          s2
        ≡ o
      → attach i p q s ≡ o
  unfolding attach
  attach_steps i p q far s s1 s2 seen eq first second third =
      rw (node_at-done s q seen, eq, first, second) third

  pub record Attached (s : Guard K V) (i : Side) (c : Cell K V) (u : Shape K V) (ctx : Context K V)
      (n : Cell K V) (o : Outcome (Unit {0} × Guard K V)) : Type 0 where
    pub after : Guard K V
    pub returns : o ≡ done (tt, after)
    pub focus :
        Focus after
          (below i (link_to i (some n.here) c) u (relink i (some n.here) ctx))
          (fork leaf (linked i c ctx n) leaf)
    pub range : after.meta.range ≡ widen i (near i ctx) n.here s.meta.range
    pub root : after.meta.root ≡ s.meta.root
    pub black_height : after.meta.black_height ≡ s.meta.black_height
    pub reads_out :
        (q : NodeIndex)
        → q ≢ n.here
        → count q (fork_at i leaf c u) + count_above q ctx ≡ 0
        → view after q ≡ view s q

  -- The first part of `insert_at`, of a node outside of the tree and a vacant side of a node `c` that
  -- links to its neighbour on that side: it does not fail; the node is a leaf there, linked with `c` and
  -- with the neighbour, which links back to it, or else it is that end of the range; all links of the
  -- tree in the arena are as described. The rest of the metadata and all nodes of the arena that are
  -- neither the new one nor in the tree are unchanged.
  pub attach-Attached :
      {s : Guard K V} (i : Side) (c : Cell K V) (u : Shape K V) (ctx : Context K V) (n : Cell K V)
      (parent : NodeRef)
      → Focus s ctx (fork_at i leaf c u)
      → view s n.here ≡ some (node_of parent (pair none none) n)
      → count n.here (fork_at i leaf c u) + count_above n.here ctx ≡ 0
      → at c.order i ≡ near i ctx
      → Attached s i c u ctx n (attach i n.here c.here s)
  attach-Attached {s} i c u ctx n parent foc e out far =
      let seen = ((Holds-fork_at (view s) i (parent_of ctx) leaf c u).0 foc.inside).0 in
      let w =
        modify-Written s n.here
          (λ m. record m { parent = some c.here; order = new_order i (near i ctx) c.here }) e in
      let foc1 = Written-Focus ctx (fork_at i leaf c u) w foc out in
      let l = link_far-Joined i n.here ctx (fork_at i leaf c u) foc1 in
      let new : view l.after n.here
          ≡ some (node_of (some c.here) (pair none none) (linked i c ctx n)) =
        l.reads_out n.here out
        ∙ reads_self w
        ∙ ap (λ x. some (node_of (some c.here) (pair none none) (record n { order = x })))
            (linked_order i (near i ctx) (some c.here)) in
      let seen' =
        ((Holds-fork_at (view l.after) i (parent_of (relink i (some n.here) ctx)) leaf c u).0
          l.focus.inside).0 in
      let step : Node K V → Node K V = λ m. record m {
        children = put_at m.children i (some n.here);
        order = put_at m.order i (some n.here);
      } in
      let w2 : Written l.after c.here
          (node_of (parent_of (relink i (some n.here) ctx)) (pair_at i (some n.here) (root u))
            (link_to i (some n.here) c))
          (modify c.here step l.after) =
        subst
          (λ x.
            Written l.after c.here
              (node_of (parent_of (relink i (some n.here) ctx)) x (link_to i (some n.here) c))
              (modify c.here step l.after))
          (put_at-pair_at i none (root u) (some n.here))
          (modify-Written l.after c.here step seen') in
      record {
        after = w2.after;
        returns =
            attach_steps i n.here c.here (near i ctx) s w.after l.after seen far w.returns l.returns
              w2.returns;
        focus = Focus-down i (
            grow i c u (relink i (some n.here) ctx) (linked i c ctx n) l.focus new
              (ap (λ k. count n.here (fork_at i leaf c u) + k)
                  (count_above-relink n.here i (some n.here) ctx)
                ∙ out)
              w2);
        range =
            ap (λ (b : Bounds). b.range) w2.meta_kept
            ∙ l.range
            ∙ ap (λ (b : Bounds). widen i (near i ctx) n.here b.range) w.meta_kept;
        root =
            ap (λ (b : Bounds). b.root) w2.meta_kept
            ∙ l.root
            ∙ ap (λ (b : Bounds). b.root) w.meta_kept;
        black_height =
            ap (λ (b : Bounds). b.black_height) w2.meta_kept
            ∙ l.black_height
            ∙ ap (λ (b : Bounds). b.black_height) w.meta_kept;
        reads_out = λ q other_node gone.
            reads_ne w2 q (ne_of_once q c.here (omega (arith, gone, count-fork_at i leaf c u q)))
            ∙ l.reads_out q gone
            ∙ reads_ne w q other_node;
      }
