-- ===== src/Build/Link.antt =====
-- What `build_tree` of src/tree/iter.rs does once a new node and the trees on both sides of it exist.
use rb_forest.Base.{
  ◌+◌, ◌≤◌, ◌<◌, ◌≡◌, refl, none, some, List, [], ◌∷◌, ◌++◌, Pair, pair, put_at, left, right,
  Outcome, done, arith, ap, sym, subst, ◌∙◌, ◌⊎◌, inl, inr,
}
use rb_forest.Arena.FreeList.{IsValid}
use rb_forest.Node.{NodeIndex, NodeRef, Node, Value}
use rb_forest.Guard.{Guard, modify, modify_ref}
use rb_forest.Guard.Laws.{view, Written, modify-Written, reads_ne, reads_self}
use rb_forest.Guard.Valid.{IsValidAfter, modify-IsValidAfter}
use rb_forest.Tree.{update_cumulant}
use rb_forest.Shape.{Cell, Shape, leaf, fork, root, node_of, count, Holds, Holds-frame, ne_of_once}
use rb_forest.Shape.Balance.{height, top_weight, weight, IsBalanced}
use rb_forest.Shape.Cumulant.{refresh, update_cumulant-Written}
use rb_forest.Shape.Entries.{Entry, entry, entries}
use rb_forest.Shape.Form.{count-entries, count_in, entry-refresh}
use rb_forest.Insertion.Valid.{update_cumulant-IsValidAfter}
use rb_forest.Sequence.{first_or, last_or, splice}
use rb_forest.Sequence.Rewire.{rewire, rewire-none, rewire-splice, last_in}
use rb_forest.Build.{Built, built, link_node}
use rb_forest.Build.Rewire.{Rewired, modify_ref-Rewired}

module _ {K V : Type 0} ⦃val : Value V⦄ where
  -- The update of the root's cumulant, as a change of the tree that leaves the order links.
  update_cumulant-Rewired :
      (s : Guard K V) (parent : NodeRef) (t : Shape K V) (i : NodeIndex)
      → Holds (view s) parent t
      → IsValid s.arena
      → ((q : NodeIndex) → count q t ≤ 1)
      → root t ≡ some i
      → Rewired s parent t none left none (update_cumulant i s)
  update_cumulant-Rewired s parent leaf i held valid few e = absurd (cc)
  update_cumulant-Rewired s parent (fork l c r) i held valid few e =
      let same : c.here ≡ i = cc in
      let own = few c.here in
      let w =
        update_cumulant-Written s left parent l c r held.0 held.1 held.2 (ground arith)
          (ground arith) in
      let c' = refresh left l c r in
      let kept = λ (q : NodeIndex) (m : 0 < count q l + count q r).
        reads_ne w q (ne_of_once q c.here (omega (arith, few q))) in
      subst (λ j. Rewired s parent (fork l c r) none left none (update_cumulant j s)) same
        record {
          after = w.after;
          tree = fork l c' r;
          returns = w.returns;
          holds = (
            reads_self w,
            Holds-frame (some c.here) l held.1 (λ q m. kept q (omega arith)),
            Holds-frame (some c.here) r held.2 (λ q m. kept q (omega arith)),
          );
          valid = subst IsValidAfter w.returns (update_cumulant-IsValidAfter c.here s valid);
          meta_kept = w.meta_kept;
          entries_are =
              ap (λ x. entries l ++ x ∷ entries r) (entry-refresh left l c r)
              ∙ sym (rewire-none left none (entries (fork l c r)));
          count_kept = λ q. refl;
          reads_out = λ q out. reads_ne w q (ne_of_once q c.here (omega arith));
          height_kept = refl;
          top_kept = refl;
          root_kept = refl;
          balanced = λ b. b;
        }

  last_present :
      (t : Shape K V)
      → (last_or none (entries t) ≡ none)
        ⊎ ((q : NodeIndex) × (last_or none (entries t) ≡ some q) × (0 < count q t))
  last_present t = go (entries t) (λ q. count-entries q t)
    where
      go :
          (es : List (Entry K val.Local))
          → ((q : NodeIndex) → count q t ≡ count_in q es)
          → (last_or none es ≡ none)
            ⊎ ((q : NodeIndex) × (last_or none es ≡ some q) × (0 < count q t))
      go [] same = inl refl
      go (x ∷ xs) same = let (p, e, h) = last_in none x xs in inr (p, e, omega (arith, same p))

  first_present :
      (t : Shape K V)
      → (first_or none (entries t) ≡ none)
        ⊎ ((q : NodeIndex) × (first_or none (entries t) ≡ some q) × (0 < count q t))
  first_present t = go (entries t) (λ q. count-entries q t)
    where
      go :
          (es : List (Entry K val.Local))
          → ((q : NodeIndex) → count q t ≡ count_in q es)
          → (first_or none es ≡ none)
            ⊎ ((q : NodeIndex) × (first_or none es ≡ some q) × (0 < count q t))
      go [] same = inl refl
      go (x ∷ xs) same = let e = same x.here in inr (x.here, refl, ground arith)

  link_node_steps :
      (s : Guard K V) {s1 s2 s3 s4 : Guard K V} (i : NodeIndex) (l u : Built)
      → modify i (λ m. record m { children = pair l.top u.top; order = pair l.highest u.lowest }) s
        ≡ done (tt, s1)
      → modify_ref l.highest (λ m. record m { order = put_at m.order right (some i) }) s1
        ≡ done (tt, s2)
      → modify_ref u.lowest (λ m. record m { order = put_at m.order left (some i) }) s2
        ≡ done (tt, s3)
      → update_cumulant i s3 ≡ done (tt, s4)
      → link_node i l u s ≡ done (tt, s4)
  unfolding link_node
  link_node_steps s i l u e1 e2 e3 e4 = rw (e1, e2, e3, e4) refl

  -- A node of a part is one of the whole.
  present :
      {p : NodeRef} (t u : Shape K V)
      → ((q : NodeIndex) → count q t ≤ count q u)
      → (p ≡ none) ⊎ ((q : NodeIndex) × (p ≡ some q) × (0 < count q t))
      → (p ≡ none) ⊎ ((q : NodeIndex) × (p ≡ some q) × (0 < count q u))
  present t u le (inl e) = inl e
  present t u le (inr (q, e, h)) = inr (q, e, omega (arith, le q))

  -- The node between two trees is linked to them, and the nodes next to it in order to it; nothing
  -- outside changes.
  pub record Linked (s : Guard K V) (parent : NodeRef) (l : Shape K V) (c : Cell K V)
      (r : Shape K V) (o : Outcome (Unit {0} × Guard K V)) : Type 0 where
    pub after : Guard K V
    pub tree : Shape K V
    pub returns : o ≡ done (tt, after)
    pub holds : Holds (view after) parent tree
    pub valid : IsValid after.arena
    pub meta_kept : after.meta ≡ s.meta
    pub entries_are : entries tree ≡ splice (entries l) (entry c) (entries r)
    pub count_kept : (q : NodeIndex) → count q tree ≡ count q (fork l c r)
    pub reads_out : (q : NodeIndex) → count q (fork l c r) ≡ 0 → view after q ≡ view s q
    pub height_kept : height tree ≡ height (fork l c r)
    pub top_kept : top_weight tree ≡ weight c
    pub root_kept : root tree ≡ some c.here
    pub balanced : IsBalanced (fork l c r) → IsBalanced tree

  -- The four writes, one after the other.
  Rewired-Linked :
      (s : Guard K V) (parent : NodeRef) (l : Shape K V) (c : Cell K V) (r : Shape K V)
      (lowest highest : NodeRef) {n : Node K V}
      (w : Written s c.here n (
        modify c.here
          (λ m. record m {
            children = pair (root l) (root r);
            order = pair (last_or none (entries l)) (first_or none (entries r));
          })
          s))
      (a : Rewired w.after parent (fork l c r) (last_or none (entries l)) right (some c.here) (
        modify_ref
          (last_or none (entries l))
          (λ m. record m { order = put_at m.order right (some c.here) })
          w.after))
      (b : Rewired a.after parent a.tree (first_or none (entries r)) left (some c.here) (
        modify_ref
          (first_or none (entries r))
          (λ m. record m { order = put_at m.order left (some c.here) })
          a.after))
      (u : Rewired b.after parent b.tree none left none (update_cumulant c.here b.after))
      → ((q : NodeIndex) → count q (fork l c r) ≤ 1)
      → Linked s parent l c r (
          link_node c.here
            (built lowest (root l) (last_or none (entries l)))
            (built (first_or none (entries r)) (root r) highest)
            s)
  Rewired-Linked s parent l c r lowest highest w a b u few =
      let here = some c.here in
      let last = last_or none (entries l) in
      let first = first_or none (entries r) in
      record {
        after = u.after;
        tree = u.tree;
        returns =
            link_node_steps s c.here (built lowest (root l) last) (built first (root r) highest)
              w.returns a.returns b.returns u.returns;
        holds = u.holds;
        valid = u.valid;
        meta_kept = u.meta_kept ∙ b.meta_kept ∙ a.meta_kept ∙ w.meta_kept;
        entries_are =
            u.entries_are
            ∙ rewire-none left none (entries b.tree)
            ∙ b.entries_are
            ∙ ap (rewire first left here) a.entries_are
            ∙ rewire-splice (entries l) (entry c) (entries r)
                (λ q. omega (arith, few q, count-entries q l, count-entries q r));
        count_kept = λ q. u.count_kept q ∙ b.count_kept q ∙ a.count_kept q;
        reads_out = λ q out.
            u.reads_out q (omega (arith, out, a.count_kept q, b.count_kept q))
            ∙ b.reads_out q (omega (arith, out, a.count_kept q))
            ∙ a.reads_out q out
            ∙ reads_ne w q (ne_of_once q c.here (omega (arith, out)));
        height_kept = u.height_kept ∙ b.height_kept ∙ a.height_kept;
        top_kept = u.top_kept ∙ b.top_kept ∙ a.top_kept;
        root_kept = u.root_kept ∙ b.root_kept ∙ a.root_kept;
        balanced = λ x. u.balanced (b.balanced (a.balanced x));
      }

  pub link_node-Linked :
      (s : Guard K V) (parent : NodeRef) (l : Shape K V) (c : Cell K V) (r : Shape K V)
      (lowest highest : NodeRef) (ch o : Pair NodeRef)
      → c.order ≡ pair (last_or none (entries l)) (first_or none (entries r))
      → view s c.here ≡ some (node_of parent ch (record c { order = o }))
      → Holds (view s) (some c.here) l
      → Holds (view s) (some c.here) r
      → IsValid s.arena
      → ((q : NodeIndex) → count q (fork l c r) ≤ 1)
      → Linked s parent l c r (
          link_node c.here
            (built lowest (root l) (last_or none (entries l)))
            (built (first_or none (entries r)) (root r) highest)
            s)
  link_node-Linked s parent l c r lowest highest ch o order found hl hr valid few =
      let t = fork l c r in
      let here = some c.here in
      let last = last_or none (entries l) in
      let first = first_or none (entries r) in
      let change =
        λ (m : Node K V). record m { children = pair (root l) (root r); order = pair last first } in
      let w = modify-Written s c.here change found in
      let kept = λ (q : NodeIndex) (m : 0 < count q l + count q r).
        reads_ne w q (ne_of_once q c.here (omega (arith, few q))) in
      let held : Holds (view w.after) parent t = (
        reads_self w
            ∙ ap (λ x. some (node_of parent (pair (root l) (root r)) (record c { order = x })))
                (sym order),
        Holds-frame here l hl (λ q m. kept q (omega arith)),
        Holds-frame here r hr (λ q m. kept q (omega arith)),
      ) in
      let valid1 = subst IsValidAfter w.returns (modify-IsValidAfter c.here change s valid) in
      let a =
        modify_ref-Rewired w.after parent t last right here held valid1
          (present l t (λ q. omega arith) (last_present l)) in
      let b =
        modify_ref-Rewired a.after parent a.tree first left here a.holds a.valid
          (present r a.tree (λ q. omega (arith, a.count_kept q)) (first_present r)) in
      let u =
        update_cumulant-Rewired b.after parent b.tree c.here b.holds b.valid
          (λ q. omega (arith, few q, a.count_kept q, b.count_kept q)) (b.root_kept ∙ a.root_kept) in
      Rewired-Linked s parent l c r lowest highest w a b u few
