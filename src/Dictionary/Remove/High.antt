-- ===== src/Dictionary/Remove/High.antt =====
-- `remove_at` of src/tree/mod.rs at a node with two children.
use rb_forest.Base.{
  ◌<◌, ◌≡◌, ◌≢◌, inl, none, some, List, [], ◌∷◌, ◌++◌, map, pair, right, Outcome, refl, ap, sym,
  subst, ◌∙◌, arith,
}
use mathlib.Core.List.{append_assoc, append-nil}
use rb_forest.Order.{Ord}
use rb_forest.Node.{NodeIndex, Value}
use rb_forest.Guard.{Guard, Bounds}
use rb_forest.Tree.Remove.{swap_with_next, remove_at}
use rb_forest.Shape.{
  Cell, Shape, leaf, fork, Context, below, plug, parent_of, node_of, root, once_self, ne_of_once,
}
use rb_forest.Shape.Unplug.{Focus-plug}
use rb_forest.Shape.Balance.{height, top_weight, IsBalanced}
use rb_forest.Shape.Entries.{Entry, entry, entries}
use rb_forest.Shape.Form.{count_in, count_in-append, count-entries}
use rb_forest.Shape.Parts.{before, after}
use rb_forest.Sequence.{first_or, last_or, IsThreaded, IsThreaded-middle, IsSorted}
use rb_forest.Removal.Gap.{IsSorted-without}
use rb_forest.Removal.Rekey.{
  first_or-rekey, last_or-rekey, rekey-IsThreaded, IsSorted-alike, binding-alike,
}
use rb_forest.Removal.First.{
  first_cell, first_rest, first_context, plug-first, before-first, after-first,
}
use rb_forest.Removal.Swap.{trade, plug-trade, Swapped, swap_with_next-Swapped}
use rb_forest.Removal.Low.{Leaving, remove_low-Removed}
use rb_forest.Dictionary.{IsTree, binding}
use rb_forest.Dictionary.Splice.{split_entries}
use rb_forest.Dictionary.Remove.{Dropped}
use rb_forest.Dictionary.Remove.Low.{Removed-Dropped, remove_at_steps}

module _ {K V : Type 0} ⦃o : Ord K⦄ ⦃val : Value V⦄ where
  module _ {s : Guard K V} (ctx : Context K V) (l : Shape K V) (c : Cell K V) (a : Shape K V)
      (x : Cell K V) (b : Shape K V) (h : IsTree s (plug ctx (fork l c (fork a x b)))) where
    d : Cell K V
    d = first_cell a x

    -- The way to the successor, once the cell has the successor's key and value.
    way : Context K V
    way = first_context a x b (below right (trade c (first_cell a x)) l ctx)

    xs : List (Entry K val.Local)
    xs = before ctx ++ entries l

    ys : List (Entry K val.Local)
    ys = entries (first_rest a b) ++ after way

    -- The tree's entries before the exchange,
    listed : entries (plug ctx (fork l c (fork a x b))) ≡ xs ++ entry c ∷ entry d ∷ ys
    unfolding d xs ys way
    listed =
        split_entries ctx l c (fork a x b)
        ∙ ap (λ zs. (before ctx ++ entries l) ++ entry c ∷ zs)
            (after-first a x b (below right (trade c (first_cell a x)) l ctx))

    -- after it those before the successor,
    fore : List (Entry K val.Local)
    fore = xs ++ entry (trade c d) ∷ []

    fore_lem : before way ++ [] ≡ fore
    unfolding d xs way fore
    fore_lem =
        append-nil (before (first_context a x b (below right (trade c (first_cell a x)) l ctx)))
        ∙ before-first a x b (below right (trade c (first_cell a x)) l ctx)

    -- and the order links.
    thread : IsThreaded none (fore ++ entry (trade d c) ∷ ys) none
    unfolding fore
    thread =
        let old = subst (λ zs. IsThreaded none zs none) listed h.threaded in
        let first =
          rekey-IsThreaded none none d.key (val.into d.value) xs (entry c) (entry d ∷ ys) old in
        rekey-IsThreaded none none c.key (val.into c.value) (xs ++ entry (trade c d) ∷ []) (entry d)
          ys
          (subst (λ zs. IsThreaded none zs none)
            (sym (append_assoc xs (entry (trade c d) ∷ []) (entry d ∷ ys))) first)

    range :
        s.meta.range
        ≡ pair
            (first_or none (fore ++ entry (trade d c) ∷ ys))
            (last_or none (fore ++ entry (trade d c) ∷ ys))
    unfolding fore
    range =
        let zs = xs ++ entry (trade c d) ∷ [] in
        h.range
        ∙ ap (λ us. pair (first_or none us) (last_or none us)) listed
        ∙ ap (λ z. pair z (last_or none (xs ++ entry c ∷ entry d ∷ ys)))
            (sym (first_or-rekey none d.key (val.into d.value) xs (entry c) (entry d ∷ ys)))
        ∙ ap (λ z. pair (first_or none (xs ++ entry (trade c d) ∷ entry d ∷ ys)) z)
            (sym (last_or-rekey none d.key (val.into d.value) xs (entry c) (entry d ∷ ys)))
        ∙ ap (λ us. pair (first_or none us) (last_or none us))
            (sym (append_assoc xs (entry (trade c d) ∷ []) (entry d ∷ ys)))
        ∙ ap (λ z. pair z (last_or none (zs ++ entry d ∷ ys)))
            (sym (first_or-rekey none c.key (val.into c.value) zs (entry d) ys))
        ∙ ap (λ z. pair (first_or none (zs ++ entry (trade d c) ∷ ys)) z)
            (sym (last_or-rekey none c.key (val.into c.value) zs (entry d) ys))

    sorted : IsSorted (fore ++ ys)
    unfolding fore
    sorted =
        let old = subst IsSorted listed h.sorted in
        subst IsSorted (sym (append_assoc xs (entry (trade c d) ∷ []) ys)) (
          IsSorted-alike xs (entry d) (entry (trade c d)) ys refl
            (IsSorted-without xs (entry c) (entry d ∷ ys) old))

    left_over :
        map binding (fore ++ ys)
        ≡ map binding ((before ctx ++ entries l) ++ (entries (fork a x b) ++ after ctx))
    unfolding fore d xs ys way
    left_over =
        ap (map binding) (append_assoc xs (entry (trade c d) ∷ []) ys)
        ∙ binding-alike xs (entry (trade c d)) (entry d) ys refl
        ∙ ap (λ zs. map binding (xs ++ zs))
            (sym (after-first a x b (below right (trade c (first_cell a x)) l ctx)))

    link : c.order.at1 ≡ some d.here
    link =
        ap (λ p. p.at1)
          (IsThreaded-middle none none xs (entry c) (entry d ∷ ys)
            (subst (λ zs. IsThreaded none zs none) listed h.threaded))

    apart : c.here ≢ d.here
    apart = ne_of_once c.here d.here (
        omega (
          arith,
          h.focus.distinct c.here,
          once_self c.here,
          count-entries c.here (plug ctx (fork l c (fork a x b))),
          ap (count_in c.here) listed,
          count_in-append c.here xs (entry c ∷ entry d ∷ ys),
        ))

    whole :
        IsBalanced (plug way (fork leaf (trade d c) (first_rest a b)))
        × (top_weight (plug way (fork leaf (trade d c) (first_rest a b))) ≡ 1)
        × (height (plug way (fork leaf (trade d c) (first_rest a b)))
            ≡ height (plug ctx (fork l c (fork a x b))))
    unfolding d way
    whole =
        let one = plug-trade ctx l c (first_cell a x) (fork a x b) h.balanced h.dark in
        let same = plug-first a x b (below right (trade c (first_cell a x)) l ctx) in
        let two =
          plug-trade (first_context a x b (below right (trade c (first_cell a x)) l ctx)) leaf
            (first_cell a x) c (first_rest a b) (subst IsBalanced (sym same) one.0)
            (ap top_weight same ∙ one.1) in
        (two.0, two.1, two.2 ∙ ap height same ∙ one.2)

    -- The successor, with the key and the value to be removed, has no left child.
    moved :
        {r : Outcome (NodeIndex × Guard K V)} (w : Swapped s ctx l c a x b r)
        → s.meta.black_height < 256
        → Leaving w.after way leaf (trade d c) (first_rest a b)
    unfolding d way ys
    moved w small = record {
      focus = w.focus;
      balanced = whole.0;
      dark = whole.1;
      black_height = ap (λ (m : Bounds). m.black_height) w.meta_kept ∙ h.black_height ∙ sym whole.2;
      small = subst (λ n. n < 256) (sym (ap (λ (m : Bounds). m.black_height) w.meta_kept)) small;
      linked =
          IsThreaded-middle none none fore (entry (trade d c)) ys thread
          ∙ ap (λ zs. pair (last_or none zs) (first_or none ys)) (sym fore_lem);
      range =
          ap (λ (m : Bounds). m.range) w.meta_kept
          ∙ range
          ∙ ap
              (λ zs.
                pair (first_or none (zs ++ entry (trade d c) ∷ ys))
                  (last_or none (zs ++ entry (trade d c) ∷ ys)))
              (sym fore_lem);
    }

    exchanged :
        (w : Swapped s ctx l c a x b (swap_with_next c.here s))
        → s.meta.black_height < 256
        → Dropped c
            ((before ctx ++ entries l) ++ (entries (fork a x b) ++ after ctx))
            (remove_at c.here s)
    unfolding d way ys
    exchanged w small =
        let low =
          remove_low-Removed way leaf (trade d c) (first_rest a b) (inl refl) (moved w small) in
        Removed-Dropped (before way ++ []) (entry (trade d c)) ys
          ((before ctx ++ entries l) ++ (entries (fork a x b) ++ after ctx)) c
          (node_of (parent_of way) (pair none (root (first_rest a b))) (trade d c)) low
          (remove_at_steps s w.after c.here d.here w.returns refl)
          (subst (λ zs. IsThreaded none (zs ++ entry (trade d c) ∷ ys) none) (sym fore_lem) thread)
          (subst (λ zs. IsSorted (zs ++ ys)) (sym fore_lem) sorted)
          (ap (λ zs. map binding (zs ++ ys)) fore_lem ∙ left_over) w.focus.inside.0 refl

  pub high-Dropped :
      {s : Guard K V} (ctx : Context K V) (u : Shape K V) (y : Cell K V) (v : Shape K V)
      (c : Cell K V) (a : Shape K V) (x : Cell K V) (b : Shape K V)
      → IsTree s (plug ctx (fork (fork u y v) c (fork a x b)))
      → s.meta.black_height < 256
      → Dropped c
          ((before ctx ++ entries (fork u y v)) ++ (entries (fork a x b) ++ after ctx))
          (remove_at c.here s)
  unfolding d
  high-Dropped ctx u y v c a x b h small =
      let w =
        swap_with_next-Swapped ctx u y v c a x b
          (Focus-plug ctx (fork (fork u y v) c (fork a x b)) h.focus)
          (link ctx (fork u y v) c a x b h) (apart ctx (fork u y v) c a x b h) in
      exchanged ctx (fork u y v) c a x b h w small
