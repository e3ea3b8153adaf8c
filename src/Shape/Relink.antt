-- ===== src/Shape/Relink.antt =====
-- Writes that leave a tree's shape: outside of it, and of the order link of a hole's neighbour.
use rb_forest.Base.{
  ◌+◌, ◌<◌, ◌≡◌, ◌==◌, refl, none, some, Side, left, right, other, put_at, Outcome, done, arith, ap,
  subst, ◌∙◌, Bool-cases, inl, inr, ==→≡,
}
use rb_forest.Node.{NodeIndex, NodeRef, Node}
use rb_forest.Guard.{Guard, Bounds, modify}
use rb_forest.Guard.Laws.{view, Written, modify-Written, reads_ne}
use rb_forest.Shape.{
  Cell, Shape, leaf, fork, Context, top, below, root, parent_of, fork_at, Focus, count, count_above,
  Heap, Holds, Holds-frame, HoldsAbove-frame,
}
use rb_forest.Shape.Zipper.{Focus-up, Focus-down, count-fork_at, Edited, Written-Edited}
use rb_forest.Shape.Parts.{near, relink, link_to}

module _ {K V : Type 0} where
  -- A tree stays where none of its nodes and not the root reference is changed.
  pub Focus-frame :
      {s s' : Guard K V} (ctx : Context K V) (t : Shape K V)
      → Focus s ctx t
      → s'.meta.root ≡ s.meta.root
      → ((q : NodeIndex) → 0 < count q t + count_above q ctx → view s' q ≡ view s q)
      → Focus s' ctx t
  Focus-frame ctx t f e same = record {
    inside = Holds-frame (parent_of ctx) t f.inside (λ q m. same q (omega arith));
    above = HoldsAbove-frame (root t) ctx f.above (λ q m. same q (omega arith));
    distinct = f.distinct;
    rooted = e ∙ f.rooted;
  }

  -- A write of a node outside of the tree.
  pub Written-Focus :
      {s : Guard K V} {p : NodeIndex} {n : Node K V} {r : Outcome (Unit {0} × Guard K V)}
      (ctx : Context K V) (t : Shape K V) (w : Written s p n r)
      → Focus s ctx t
      → count p t + count_above p ctx ≡ 0
      → Focus w.after ctx t
  Written-Focus {p = p} ctx t w f out =
      Focus-frame ctx t f (ap (λ (b : Bounds). b.root) w.meta_kept) (λ q m.
        reads_ne w q
          (λ e. absurd (omega (arith, ap (λ x. count x t) e, ap (λ x. count_above x ctx) e))))

  -- A vacant slot is not in the tree.
  pub count_vacant :
      (h : Heap K V) (p : NodeIndex) (parent : NodeRef) (t : Shape K V)
      → h p ≡ none
      → Holds h parent t
      → count p t ≡ 0
  count_vacant h p parent leaf e held = refl
  count_vacant h p parent (fork l c r) e held =
      let low = count_vacant h p (some c.here) l e held.1 in
      let high = count_vacant h p (some c.here) r e held.2 in
      elim (Bool-cases (p == c.here)) [
        | inl same ↦ absurd (cc (==→≡ p c.here same))
        | inr apart ↦ rw apart (omega arith)
      ]

  pub record Relinked (s : Guard K V) (i : Side) (r : NodeRef) (ctx : Context K V) (t : Shape K V)
      (o : Outcome (Unit {0} × Guard K V)) : Type 0 where
    pub after : Guard K V
    pub returns : o ≡ done (tt, after)
    pub focus : Focus after (relink i r ctx) t
    pub meta_kept : after.meta ≡ s.meta
    pub reads_out : (q : NodeIndex) → count q t + count_above q ctx ≡ 0 → view after q ≡ view s q

  -- The neighbour is the cell above the hole.
  relink_cell :
      {s : Guard K V} (j : Side) (r : NodeRef) (c : Cell K V) (u : Shape K V) (ctx : Context K V)
      (t : Shape K V)
      → Focus s (below j c u ctx) t
      → Edited s ctx
          (fork_at j t c u)
          (fork_at j t (link_to j r c) u)
          (modify c.here (λ m. record m { order = put_at m.order j r }) s)
  relink_cell {s} j r c u ctx t f =
      Written-Edited j t c u c.key c.value c.color (put_at c.order j r) (Focus-up j f)
        (modify-Written s c.here (λ m. record m { order = put_at m.order j r }) f.above.0)

  relink_same :
      (j : Side) (r : NodeRef) (c : Cell K V) (u : Shape K V) (ctx : Context K V)
      → below j c u (relink j r ctx) ≡ relink j r (below j c u ctx)
  relink_same left r c u ctx = refl
  relink_same right r c u ctx = refl

  relink-other :
      (j : Side) (r : NodeRef) (c : Cell K V) (u : Shape K V) (ctx : Context K V)
      → below j (link_to j r c) u ctx ≡ relink (other j) r (below j c u ctx)
  relink-other left r c u ctx = refl
  relink-other right r c u ctx = refl

  Relinked-below :
      {s : Guard K V} (j : Side) (r : NodeRef) (c : Cell K V) (u : Shape K V) (ctx : Context K V)
      (t : Shape K V) {o : Outcome (Unit {0} × Guard K V)}
      → Relinked s j r ctx (fork_at j t c u) o
      → Relinked s j r (below j c u ctx) t o
  Relinked-below j r c u ctx t l = record {
    after = l.after;
    returns = l.returns;
    focus = subst (λ x. Focus l.after x t) (relink_same j r c u ctx) (Focus-down j l.focus);
    meta_kept = l.meta_kept;
    reads_out = λ q out. l.reads_out q (omega (arith, out, count-fork_at j t c u q));
  }

  Edited-Relinked :
      {s : Guard K V} (j : Side) (r : NodeRef) (c : Cell K V) (u : Shape K V) (ctx : Context K V)
      (t : Shape K V) {o : Outcome (Unit {0} × Guard K V)}
      → Edited s ctx (fork_at j t c u) (fork_at j t (link_to j r c) u) o
      → Relinked s (other j) r (below j c u ctx) t o
  Edited-Relinked j r c u ctx t l = record {
    after = l.after;
    returns = l.returns;
    focus = subst (λ x. Focus l.after x t) (relink-other j r c u ctx) (Focus-down j l.focus);
    meta_kept = l.meta_kept;
    reads_out = λ q out. l.reads_out q (omega (arith, out, count-fork_at j t c u q));
  }

  -- The neighbour on side `i` is given the link `r`.
  pub relink-Relinked :
      {s : Guard K V} (i : Side) (r : NodeRef) (p : NodeIndex) (ctx : Context K V) (t : Shape K V)
      → near i ctx ≡ some p
      → Focus s ctx t
      → Relinked s i r ctx t (modify p (λ m. record m { order = put_at m.order (other i) r }) s)
  relink-Relinked i r p top t e f = absurd (cc)
  relink-Relinked left r p (below left c u ctx) t e f =
      Relinked-below left r c u ctx t
        (relink-Relinked left r p ctx (fork t c u) e (Focus-up left f))
  relink-Relinked {s} left r p (below right c u ctx) t e f =
      let same : c.here ≡ p = cc in
      subst
        (λ q.
          Relinked s left r (below right c u ctx) t
            (modify q (λ m. record m { order = put_at m.order right r }) s))
        same (Edited-Relinked right r c u ctx t (relink_cell right r c u ctx t f))
  relink-Relinked {s} right r p (below left c u ctx) t e f =
      let same : c.here ≡ p = cc in
      subst
        (λ q.
          Relinked s right r (below left c u ctx) t
            (modify q (λ m. record m { order = put_at m.order left r }) s))
        same (Edited-Relinked left r c u ctx t (relink_cell left r c u ctx t f))
  relink-Relinked right r p (below right c u ctx) t e f =
      Relinked-below right r c u ctx t
        (relink-Relinked right r p ctx (fork u c t) e (Focus-up right f))

  -- Where there is no neighbour, there is no link to change.
  pub relink-none :
      (i : Side) (r : NodeRef) (ctx : Context K V) → near i ctx ≡ none → relink i r ctx ≡ ctx
  relink-none i r top e = refl
  relink-none left r (below left c u ctx) e = ap (below left c u) (relink-none left r ctx e)
  relink-none left r (below right c u ctx) e = absurd (cc)
  relink-none right r (below left c u ctx) e = absurd (cc)
  relink-none right r (below right c u ctx) e = ap (below right c u) (relink-none right r ctx e)
