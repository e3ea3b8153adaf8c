-- ===== src/Dictionary/Remove/Low.antt =====
-- `remove_at` of src/tree/mod.rs at a node with one child at most.
use rb_forest.Base.{
  ◌<◌, ◌≡◌, ◌⊎◌, inl, inr, none, some, List, ◌∷◌, ◌++◌, map, pair, Outcome, done, refl, ap, sym,
  subst, ◌∙◌,
}
use rb_forest.Order.{Ord}
use rb_forest.Node.{NodeIndex, NodeRef, Node, Value}
use rb_forest.Guard.{Guard}
use rb_forest.Guard.Laws.{view, node_at-done}
use rb_forest.Tree.Remove.{swap_with_next, remove_low, remove_at}
use rb_forest.Shape.{Cell, Shape, leaf, fork, Context, plug, parent_of, node_of, root}
use rb_forest.Shape.Unplug.{Focus-plug}
use rb_forest.Shape.Entries.{Entry, entry, entries}
use rb_forest.Shape.Parts.{before, after}
use rb_forest.Sequence.{first_or, last_or, IsThreaded, IsThreaded-middle, IsSorted}
use rb_forest.Removal.Gap.{
  gap, gap-IsThreaded, gap-IsSorted, first_or-gap, last_or-gap, binding-gap, IsSorted-without,
}
use rb_forest.Removal.Finish.{Removed}
use rb_forest.Removal.Low.{remove_low-Removed}
use rb_forest.Dictionary.{IsTree, binding}
use rb_forest.Dictionary.Splice.{split_entries}
use rb_forest.Dictionary.Remove.{Dropped}

module _ {K V : Type 0} where
  swap_none :
      (s : Guard K V) (l : Shape K V) (c : Cell K V) (r : Shape K V) (parent : NodeRef)
      → (l ≡ leaf) ⊎ (r ≡ leaf)
      → view s c.here ≡ some (node_of parent (pair (root l) (root r)) c)
      → swap_with_next c.here s ≡ done (c.here, s)
  unfolding swap_with_next
  swap_none s leaf c r parent one seen = rw (node_at-done s c.here seen) refl
  swap_none s (fork a x b) c leaf parent one seen = rw (node_at-done s c.here seen) refl
  swap_none s (fork a x b) c (fork a' x' b') parent (inl e) seen = absurd (cc)
  swap_none s (fork a x b) c (fork a' x' b') parent (inr e) seen = absurd (cc)

module _ {K V : Type 0} ⦃val : Value V⦄ where
  pub remove_at_steps :
      (s s1 : Guard K V) (ptr p : NodeIndex) {o : Outcome (NodeIndex × Guard K V)}
      → swap_with_next ptr s ≡ done (p, s1)
      → remove_low p s1 ≡ o
      → remove_at ptr s ≡ o
  unfolding remove_at
  remove_at_steps s s1 ptr p first rest = rw first rest

module _ {K V : Type 0} ⦃o : Ord K⦄ ⦃val : Value V⦄ where
  -- What is left is a tree again.
  pub Removed-Dropped :
      {s : Guard K V} {ptr : NodeIndex} (xs : List (Entry K val.Local)) (e : Entry K val.Local)
      (ys es : List (Entry K val.Local)) (c : Cell K V) {r r' : Outcome (NodeIndex × Guard K V)}
      (node : Node K V)
      → Removed s ptr xs ys r
      → r' ≡ r
      → IsThreaded none (xs ++ e ∷ ys) none
      → IsSorted (xs ++ ys)
      → map binding (xs ++ ys) ≡ map binding es
      → view s ptr ≡ some node
      → val.into node.value ≡ val.into c.value
      → Dropped c es r'
  Removed-Dropped {s} {ptr} xs e ys es c node x same thread sorted alike seen value = record {
    after = x.after;
    ptr = ptr;
    node = node;
    tree = x.tree;
    returns = same ∙ x.returns;
    is_tree = record {
      focus = x.focus;
      balanced = x.balanced;
      dark = x.dark;
      black_height = x.black_height;
      sorted = subst IsSorted (sym x.entries_are) (gap-IsSorted none none xs ys sorted);
      threaded =
          subst (λ zs. IsThreaded none zs none) (sym x.entries_are)
            (gap-IsThreaded none none xs e ys thread);
      range =
          x.range
          ∙ ap (λ z. pair z (last_or none (xs ++ ys))) (sym (first_or-gap none none none xs ys))
          ∙ ap (λ z. pair (first_or none (gap none none xs ys)) z)
              (sym (last_or-gap none none none xs ys))
          ∙ ap (λ zs. pair (first_or none zs) (last_or none zs)) (sym x.entries_are);
    };
    contents_are = ap (map binding) x.entries_are ∙ binding-gap none none xs ys ∙ alike;
    found = x.node_kept ∙ seen;
    value_kept = value;
    apart = x.apart;
  }

  pub low-Dropped :
      {s : Guard K V} (ctx : Context K V) (l : Shape K V) (c : Cell K V) (r : Shape K V)
      → IsTree s (plug ctx (fork l c r))
      → s.meta.black_height < 256
      → (l ≡ leaf) ⊎ (r ≡ leaf)
      → Dropped c ((before ctx ++ entries l) ++ (entries r ++ after ctx)) (remove_at c.here s)
  low-Dropped {s} ctx l c r h small one =
      let xs = before ctx ++ entries l in
      let ys = entries r ++ after ctx in
      let split = split_entries ctx l c r in
      let thread = subst (λ zs. IsThreaded none zs none) split h.threaded in
      let foc = Focus-plug ctx (fork l c r) h.focus in
      let x = remove_low-Removed ctx l c r one record {
        focus = foc;
        balanced = h.balanced;
        dark = h.dark;
        black_height = h.black_height;
        small = small;
        linked = IsThreaded-middle none none xs (entry c) ys thread;
        range = h.range ∙ ap (λ zs. pair (first_or none zs) (last_or none zs)) split;
      } in
      Removed-Dropped xs (entry c) ys (xs ++ ys) c
        (node_of (parent_of ctx) (pair (root l) (root r)) c) x
        (remove_at_steps s s c.here c.here (swap_none s l c r (parent_of ctx) one foc.inside.0)
          refl)
        thread (IsSorted-without xs (entry c) ys (subst IsSorted split h.sorted)) refl foc.inside.0
        refl
