-- ===== src/Shape/Rotate.antt =====
-- `rotate` of src/tree/mod.rs, on the nodes of a tree.
use rb_forest.Base.{
  pair_at, ℕ, ◌+◌, ◌≤◌, ◌<◌, ◌≡◌, ◌≢◌, refl, Bool, true, false, ◌==◌, Option, some, if◌then◌else◌,
  Side, other, put_at, at-pair_at, at-pair_at-other, put_at-pair_at, put_at-pair_at-other,
  pair_at-other, ==_refl, ==→≡, ≢→==, arith, ◌∙◌, sym, ap, Outcome, done, inl, inr, Bool-cases,
}
use rb_forest.Node.{NodeIndex, NodeRef, Value}
use rb_forest.Guard.{Guard, Bounds, modify, modify_ref, pure}
use rb_forest.Guard.Laws.{view, Written, modify-Written, node_at-done, reads_ne, reads_self}
use rb_forest.Tree.{rotate, replace, update_cumulant}
use rb_forest.Shape.{
  Cell, Shape, Context, root, parent_of, top_of, node_of, count, count_above, once, Holds,
  HoldsAbove, Holds-frame, HoldsAbove-frame, ne_of_once, once_self,
}
use rb_forest.Shape.Replace.{Replaced, replace-Replaced}
use rb_forest.Shape.Cumulant.{Moved, modify_ref-Moved, refresh, update_cumulant-Written}

-- A write of what is there already.
reads_same {ℓ} :
    {A : Type ℓ} (h : NodeIndex → Option A) {n : A} (q p : NodeIndex)
    → h p ≡ some n
    → h q ≡ (if q == p then some n else h q)
reads_same h q p e = elim (Bool-cases (q == p)) [
  | inl same ↦ rw same (rw (==→≡ q p same) e)
  | inr differs ↦ rw differs
]

module _ {K V : Type 0} ⦃val : Value V⦄ where
  -- The value with its cumulant recomputed, if the values have one (`has`).
  abbrev pub settle_by : Bool → Side → Shape K V → Cell K V → Shape K V → Cell K V
  settle_by has i near c far = record c {
    value = if has then (refresh i near c far).value else c.value;
  }

  abbrev pub settle : Side → Shape K V → Cell K V → Shape K V → Cell K V
  settle = settle_by val.has_cumulant

  -- Before the rotation: `c` with children `a` and `d`, and `d` with children `b` and `e`, where
  -- `a` and `b` are on side `i`.
  pub record Leaning (s : Guard K V) (i : Side) (ctx : Context K V) (a : Shape K V) (c : Cell K V)
      (b : Shape K V) (d : Cell K V) (e : Shape K V) : Type 0 where
    pub upper : view s c.here ≡ some (node_of (parent_of ctx) (pair_at i (root a) (some d.here)) c)
    pub lower : view s d.here ≡ some (node_of (some c.here) (pair_at i (root b) (root e)) d)
    pub outer_near : Holds (view s) (some c.here) a
    pub inner : Holds (view s) (some d.here) b
    pub outer_far : Holds (view s) (some d.here) e
    pub above : HoldsAbove (view s) ctx (some c.here)
    pub distinct :
        (q : NodeIndex)
        → once q c.here + once q d.here + count q a + count q b + count q e + count_above q ctx ≤ 1
    pub rooted : s.meta.root ≡ top_of ctx (some c.here)

  -- What a rotation does: the mirrored picture, with `d` above `c`; the nodes outside of the tree
  -- stay, and of the metadata only the root may change.
  pub record Rotated (s : Guard K V) (i : Side) (ctx : Context K V) (a : Shape K V) (c : Cell K V)
      (b : Shape K V) (d : Cell K V) (e : Shape K V) (r : Outcome (Unit {0} × Guard K V))
      : Type 0 where
    pub after : Guard K V
    pub returns : r ≡ done (tt, after)
    pub leaning : Leaning after (other i) ctx e d b (settle i a c b) a
    pub meta_lem : after.meta ≡ record s.meta { root = top_of ctx (some d.here) }
    pub reads_out :
        (q : NodeIndex)
        → once q c.here + once q d.here + count q a + count q b + count q e + count_above q ctx ≡ 0
        → view after q ≡ view s q

  settle-Written :
      (has : Bool) (s : Guard K V) (i : Side) (parent : NodeRef) (near : Shape K V) (c : Cell K V)
      (far : Shape K V)
      → view s c.here ≡ some (node_of parent (pair_at i (root near) (root far)) c)
      → Holds (view s) (some c.here) near
      → Holds (view s) (some c.here) far
      → count c.here near ≡ 0
      → count c.here far ≡ 0
      → Written s c.here
          (node_of parent (pair_at i (root near) (root far)) (settle_by has i near c far))
          ((if has then update_cumulant c.here else pure tt) s)
  settle-Written true s i parent near c far held hn hf on of =
      update_cumulant-Written s i parent near c far held hn hf on of
  settle-Written false s i parent near c far held hn hf on of = record {
    after = s;
    returns = refl;
    reads = λ q. reads_same (view s) q c.here held;
    meta_kept = refl;
  }

  module _ {s : Guard K V} {i : Side} {ctx : Context K V} {a : Shape K V} {c : Cell K V}
      {b : Shape K V} {d : Cell K V} {e : Shape K V} (l : Leaning s i ctx a c b d e) where
    open l use {distinct}

    ne_cd : c.here ≢ d.here
    ne_cd = ne_of_once c.here d.here (omega (arith, distinct c.here, once_self c.here))

    hung :
        Replaced s ctx d.here
          (node_of (some c.here) (pair_at i (root b) (root e)) d)
          (replace c.here (some d.here) s)
    hung =
        replace-Replaced s ctx c.here d.here l.upper refl l.lower l.above
          (λ q. omega (arith, distinct q)) (omega (arith, distinct c.here, once_self c.here))
          (omega (arith, distinct d.here, once_self d.here)) l.rooted

    pivot_seen :
        view hung.after d.here ≡ some (node_of (parent_of ctx) (pair_at i (root b) (root e)) d)
    pivot_seen =
        hung.reads d.here (omega (arith, distinct d.here, once_self d.here)) ∙ rw (==_refl d.here)

    -- The pivot takes `c` for its child on side `i`,
    pivoted :
        Written hung.after d.here (node_of (parent_of ctx) (pair_at i (some c.here) (root e)) d) (
          modify d.here (λ m. record m { children = put_at m.children i (some c.here) }) hung.after)
    pivoted = rw (← put_at-pair_at i (root b) (root e) (some c.here)) (
        modify-Written hung.after d.here
          (λ m. record m { children = put_at m.children i (some c.here) }) pivot_seen)

    -- `c` gives up the pivot for the pivot's old child,
    lowered : Written pivoted.after c.here (node_of (some d.here) (pair_at i (root a) (root b)) c) (
        modify c.here
          (λ m. record m { parent = some d.here; children = put_at m.children (other i) (root b) })
          pivoted.after)
    lowered = rw (← put_at-pair_at-other i (root a) (some d.here) (root b)) (
        modify-Written pivoted.after c.here
          (λ m. record m { parent = some d.here; children = put_at m.children (other i) (root b) })
          {n = node_of (parent_of ctx) (pair_at i (root a) (some d.here)) c}
          (reads_ne pivoted c.here ne_cd
            ∙ hung.reads c.here (omega (arith, distinct c.here, once_self c.here))
            ∙ rw (≢→== c.here d.here ne_cd) l.upper))

    -- So far a node elsewhere, and not above, is as it was.
    kept :
        (q : NodeIndex)
        → once q c.here + once q d.here + count_above q ctx ≡ 0
        → view lowered.after q ≡ view s q
    kept q h =
        reads_ne lowered q (ne_of_once q c.here (omega arith))
        ∙ reads_ne pivoted q (ne_of_once q d.here (omega arith))
        ∙ hung.reads q (omega arith)
        ∙ rw (≢→== q d.here (ne_of_once q d.here (omega arith)))

    -- which gets `c` for its parent.
    moved :
        Moved lowered.after
          (some c.here)
          b
          (modify_ref (root b) (λ m. record m { parent = some c.here }) lowered.after)
    moved =
        modify_ref-Moved lowered.after (some d.here) (some c.here) b
          (Holds-frame (some d.here) b l.inner (λ q i. kept q (omega (arith, distinct q))))
          (λ q. omega (arith, distinct q))

    low : NodeIndex → ℕ
    low q = once q c.here + once q d.here + count_above q ctx

    settled :
        Written moved.after c.here
          (node_of (some d.here) (pair_at i (root a) (root b)) (settle i a c b))
          ((if val.has_cumulant then update_cumulant c.here else pure tt) moved.after)
    settled =
        settle-Written val.has_cumulant moved.after i (some d.here) a c b
          (moved.reads_out c.here (omega (arith, distinct c.here, once_self c.here))
            ∙ reads_self lowered)
          (Holds-frame (some c.here) a l.outer_near (λ q i.
            moved.reads_out q (omega (arith, distinct q)) ∙ kept q (omega (arith, distinct q))))
          moved.holds (omega (arith, distinct c.here, once_self c.here))
          (omega (arith, distinct c.here, once_self c.here))

    -- A node that is neither of the two, nor in `b`, nor above, is as it was.
    untouched :
        (q : NodeIndex)
        → once q c.here + once q d.here + count q b + count_above q ctx ≡ 0
        → view settled.after q ≡ view s q
    untouched q h =
        reads_ne settled q (ne_of_once q c.here (omega arith))
        ∙ moved.reads_out q (omega arith)
        ∙ kept q (omega arith)

    -- A node above is as the replacement left it.
    kept_above : (q : NodeIndex) → 0 < count_above q ctx → view settled.after q ≡ view hung.after q
    kept_above q m =
        reads_ne settled q (ne_of_once q c.here (omega (arith, distinct q)))
        ∙ moved.reads_out q (omega (arith, distinct q))
        ∙ reads_ne lowered q (ne_of_once q c.here (omega (arith, distinct q)))
        ∙ reads_ne pivoted q (ne_of_once q d.here (omega (arith, distinct q)))

    metadata : settled.after.meta ≡ record s.meta { root = top_of ctx (some d.here) }
    metadata =
        settled.meta_kept ∙ moved.meta_kept ∙ lowered.meta_kept ∙ pivoted.meta_kept ∙ hung.meta_lem

    rotated : Leaning settled.after (other i) ctx e d b (settle i a c b) a
    rotated = record {
      upper = rw pair_at-other (
          reads_ne settled d.here (λ e. ne_cd (sym e))
          ∙ moved.reads_out d.here (omega (arith, distinct d.here, once_self d.here))
          ∙ reads_ne lowered d.here (λ e. ne_cd (sym e))
          ∙ reads_self pivoted);
      lower = rw pair_at-other (reads_self settled);
      outer_near =
          Holds-frame (some d.here) e l.outer_far (λ q m. untouched q (omega (arith, distinct q)));
      inner =
          Holds-frame (some c.here) b moved.holds
            (λ q m. reads_ne settled q (ne_of_once q c.here (omega (arith, distinct q))));
      outer_far =
          Holds-frame (some c.here) a l.outer_near (λ q m. untouched q (omega (arith, distinct q)));
      above = HoldsAbove-frame (some d.here) ctx hung.above kept_above;
      distinct = λ q. omega (arith, distinct q);
      rooted = ap (λ (m : Bounds). m.root) metadata;
    }

    -- `rotate` neither panics nor is undefined, and turns the picture round.
    pub rotate-Rotated : Rotated s i ctx a c b d e (rotate i c.here s)
    unfolding rotate
    rotate-Rotated = record {
      after = settled.after;
      returns = rw (
        node_at-done s c.here l.upper,
        at-pair_at-other i (root a) (some d.here),
        hung.returns,
        node_at-done hung.after d.here pivot_seen,
        pivoted.returns,
        at-pair_at i (root b) (root e),
        lowered.returns,
        moved.returns,
        settled.returns,
      );
      leaning = rotated;
      meta_lem = metadata;
      reads_out = λ q h. untouched q (omega arith);
    }
