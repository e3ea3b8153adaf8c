-- ===== src/Removal/Low.antt =====
-- `remove_at` of src/tree/mod.rs from where the node has one child at most.
use rb_forest.Base.{
  ◌<◌, ◌≤◌, ◌≡◌, ◌⊎◌, inl, inr, none, some, List, [], ◌∷◌, ◌++◌, pair, pair_at, Side, left, right,
  Outcome, done, refl, ap, sym, ◌∙◌, arith,
}
use mathlib.Core.List.{append_assoc, append-nil}
use rb_forest.Node.{NodeIndex, NodeRef, Value}
use rb_forest.Guard.{Guard, default_bounds}
use rb_forest.Guard.Laws.{view, node_at-done}
use rb_forest.Tree.Remove.{splice, detach_leaf, finish_remove, remove_low}
use rb_forest.Shape.{
  Cell, Shape, leaf, fork, Context, top, below, parent_of, plug, Focus, count, once_self, node_of,
}
use rb_forest.Shape.Balance.{height, top_weight, IsBalanced}
use rb_forest.Shape.Unplug.{count-plug}
use rb_forest.Shape.Entries.{Entry, entry, entries}
use rb_forest.Shape.Parts.{before, after, entries-plug-parts}
use rb_forest.Sequence.{first_or, last_or}
use rb_forest.Removal.Detach.{detach_leaf-Trimmed}
use rb_forest.Removal.Splice.{splice-Trimmed}
use rb_forest.Removal.Finish.{Removed, finish_remove-Removed}

module _ {K V : Type 0} ⦃val : Value V⦄ where
  low_splice :
      (i : Side) (s s1 : Guard K V) (c : Cell K V) (parent : NodeRef) (child : NodeIndex)
      {o : Outcome (NodeIndex × Guard K V)}
      → view s c.here ≡ some (node_of parent (pair_at i (some child) none) c)
      → splice c.here child s ≡ done (tt, s1)
      → finish_remove c.here parent c.order s1 ≡ o
      → remove_low c.here s ≡ o
  unfolding remove_low
  low_splice left s s1 c parent child seen first rest = rw (node_at-done s c.here seen, first) rest
  low_splice right s s1 c parent child seen first rest = rw (node_at-done s c.here seen, first) rest

  low_leaf :
      (s s1 : Guard K V) (c : Cell K V) (p : NodeIndex) {o : Outcome (NodeIndex × Guard K V)}
      → view s c.here ≡ some (node_of (some p) (pair none none) c)
      → detach_leaf c.here p c.color s ≡ done (tt, s1)
      → finish_remove c.here (some p) c.order s1 ≡ o
      → remove_low c.here s ≡ o
  unfolding remove_low
  low_leaf s s1 c p seen first rest = rw (node_at-done s c.here seen, first) rest

  low_root :
      (s : Guard K V) (c : Cell K V)
      → view s c.here ≡ some (node_of none (pair none none) c)
      → remove_low c.here s ≡ done (c.here, record s { meta = default_bounds })
  unfolding remove_low
  low_root s c seen = rw (node_at-done s c.here seen) refl

  -- What a tree says of the node that is removed from it.
  pub record Leaving (s : Guard K V) (ctx : Context K V) (l : Shape K V) (c : Cell K V)
      (r : Shape K V) : Type 0 where
    pub focus : Focus s ctx (fork l c r)
    pub balanced : IsBalanced (plug ctx (fork l c r))
    pub dark : top_weight (plug ctx (fork l c r)) ≡ 1
    pub black_height : s.meta.black_height ≡ height (plug ctx (fork l c r))
    pub small : s.meta.black_height < 256
    pub linked :
        c.order
        ≡ pair (last_or none (before ctx ++ entries l)) (first_or none (entries r ++ after ctx))
    pub range :
        s.meta.range
        ≡ pair
            (first_or none ((before ctx ++ entries l) ++ entry c ∷ (entries r ++ after ctx)))
            (last_or none ((before ctx ++ entries l) ++ entry c ∷ (entries r ++ after ctx)))

  parent_there :
      (ctx : Context K V) (w : Shape K V)
      → (parent_of ctx ≡ none)
        ⊎ ((p : NodeIndex) × (parent_of ctx ≡ some p) × (1 ≤ count p (plug ctx w)))
  parent_there top w = inl refl
  parent_there (below i p u ctx) w =
      inr (p.here, refl, omega (arith, count-plug p.here (below i p u ctx) w, once_self p.here))

  out_left :
      {s : Guard K V} (ctx : Context K V) (l : Shape K V) (c : Cell K V) (r : Shape K V)
      → Focus s ctx (fork l c r)
      → count c.here (plug ctx l) ≡ 0
  out_left ctx l c r f = omega (arith, f.distinct c.here, once_self c.here, count-plug c.here ctx l)

  out_right :
      {s : Guard K V} (ctx : Context K V) (l : Shape K V) (c : Cell K V) (r : Shape K V)
      → Focus s ctx (fork l c r)
      → count c.here (plug ctx r) ≡ 0
  out_right ctx l c r f =
      omega (arith, f.distinct c.here, once_self c.here, count-plug c.here ctx r)

  Removed-from :
      {s : Guard K V} {ptr : NodeIndex} {xs ys : List (Entry K val.Local)}
      {r r' : Outcome (NodeIndex × Guard K V)}
      → Removed s ptr xs ys r'
      → r ≡ r'
      → Removed s ptr xs ys r
  Removed-from x e = record {
    after = x.after;
    tree = x.tree;
    returns = e ∙ x.returns;
    focus = x.focus;
    balanced = x.balanced;
    dark = x.dark;
    entries_are = x.entries_are;
    range = x.range;
    black_height = x.black_height;
    node_kept = x.node_kept;
    apart = x.apart;
  }

  left_child :
      {s : Guard K V} (ctx : Context K V) (a : Shape K V) (x : Cell K V) (b : Shape K V)
      (c : Cell K V)
      → Leaving s ctx (fork a x b) c leaf
      → Removed s c.here (before ctx ++ entries (fork a x b)) (after ctx) (remove_low c.here s)
  left_child {s} ctx a x b c h =
      let w = splice-Trimmed left a x b c ctx h.focus h.balanced h.dark h.black_height in
      let f =
        finish_remove-Removed c.here (parent_of ctx) c.order (plug ctx (fork a x b))
          (before ctx ++ entries (fork a x b)) (entry c) (after ctx) w
          (entries-plug-parts ctx (fork a x b)) h.range h.linked (parent_there ctx (fork a x b))
          (out_left ctx (fork a x b) c leaf h.focus) in
      Removed-from f (
        low_splice left s w.fixed.after c (parent_of ctx) x.here h.focus.inside.0 w.fixed.returns
          refl)

  right_child :
      {s : Guard K V} (ctx : Context K V) (a : Shape K V) (x : Cell K V) (b : Shape K V)
      (c : Cell K V)
      → Leaving s ctx leaf c (fork a x b)
      → Removed s c.here
          (before ctx ++ [])
          (entries (fork a x b) ++ after ctx)
          (remove_low c.here s)
  right_child {s} ctx a x b c h =
      let w = splice-Trimmed right a x b c ctx h.focus h.balanced h.dark h.black_height in
      let f =
        finish_remove-Removed c.here (parent_of ctx) c.order (plug ctx (fork a x b))
          (before ctx ++ []) (entry c) (entries (fork a x b) ++ after ctx) w
          (entries-plug-parts ctx (fork a x b)
            ∙ append_assoc (before ctx) (entries (fork a x b)) (after ctx)
            ∙ ap (λ z. z ++ (entries (fork a x b) ++ after ctx)) (sym (append-nil (before ctx))))
          h.range h.linked (parent_there ctx (fork a x b))
          (out_right ctx leaf c (fork a x b) h.focus) in
      Removed-from f (
        low_splice right s w.fixed.after c (parent_of ctx) x.here h.focus.inside.0 w.fixed.returns
          refl)

  no_child :
      {s : Guard K V} (ctx : Context K V) (c : Cell K V)
      → Leaving s ctx leaf c leaf
      → Removed s c.here (before ctx ++ []) (after ctx) (remove_low c.here s)
  no_child {s} top c h = record {
    after = record s { meta = default_bounds };
    tree = leaf;
    returns = low_root s c h.focus.inside.0;
    focus = record { inside = tt; above = tt; distinct = λ q. omega arith; rooted = refl };
    balanced = tt;
    dark = refl;
    entries_are = refl;
    range = refl;
    black_height = refl;
    node_kept = refl;
    apart = refl;
  }
  no_child {s} (below i p u ctx) c h =
      let w = detach_leaf-Trimmed i p u ctx c h.focus h.balanced h.dark h.black_height h.small in
      let f =
        finish_remove-Removed c.here (some p.here) c.order (plug (below i p u ctx) leaf)
          (before (below i p u ctx) ++ []) (entry c) (after (below i p u ctx)) w
          (entries-plug-parts (below i p u ctx) leaf) h.range h.linked
          (parent_there (below i p u ctx) leaf) (out_left (below i p u ctx) leaf c leaf h.focus) in
      Removed-from f (low_leaf s w.fixed.after c p.here h.focus.inside.0 w.fixed.returns refl)

  -- A node without two children leaves the tree.
  pub remove_low-Removed :
      {s : Guard K V} (ctx : Context K V) (l : Shape K V) (c : Cell K V) (r : Shape K V)
      → (l ≡ leaf) ⊎ (r ≡ leaf)
      → Leaving s ctx l c r
      → Removed s c.here (before ctx ++ entries l) (entries r ++ after ctx) (remove_low c.here s)
  remove_low-Removed ctx leaf c leaf one h = no_child ctx c h
  remove_low-Removed ctx leaf c (fork a x b) one h = right_child ctx a x b c h
  remove_low-Removed ctx (fork a x b) c leaf one h = left_child ctx a x b c h
  remove_low-Removed ctx (fork a x b) c (fork a' x' b') (inl e) h = absurd (cc)
  remove_low-Removed ctx (fork a x b) c (fork a' x' b') (inr e) h = absurd (cc)
