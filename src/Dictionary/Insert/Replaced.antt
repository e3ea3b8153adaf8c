-- ===== src/Dictionary/Insert/Replaced.antt =====
-- `TreeAllocGuard::insert` of src/tree/interface.rs where the key is present.
use rb_forest.Base.{
  ◌≡◌, refl, false, none, ◌∷◌, ◌++◌, left, pair, done, arith, ap, sym, subst, ◌∙◌, map, not, ◌||◌,
}
use rb_forest.Order.{Ord}
use rb_forest.Arena.{Growth}
use rb_forest.Node.{NodeIndex, Value}
use rb_forest.Guard.{Guard, Bounds}
use rb_forest.Tree.Search.{SearchResult, search}
use rb_forest.Interface.{insert}
use rb_forest.Shape.{Cell, Shape, fork, Context, plug, Focus}
use rb_forest.Shape.Zipper.{modify-Edited}
use rb_forest.Shape.Balance.{plug-IsBalanced, top_weight_le}
use rb_forest.Shape.Unplug.{of_IsBalanced-plug, Focus-plug}
use rb_forest.Shape.Entries.{entry, entries}
use rb_forest.Shape.Parts.{before, after}
use rb_forest.Lookup.{is_eq}
use rb_forest.Sequence.{IsSorted, IsThreaded, first_or, last_or}
use rb_forest.Insertion.{Focus-top}
use rb_forest.Dictionary.{IsTree, contents, put, binding, has_key, Stored}
use rb_forest.Dictionary.Splice.{split_entries}
use rb_forest.Dictionary.Place.{Present}
use rb_forest.Dictionary.Put.{
  relocal, put-relocal, has_key-less, relocal-IsSorted, relocal-IsThreaded, first_or-relocal,
  last_or-relocal,
}
use rb_forest.Dictionary.Insert.Steps.{insert-here}

module _ {K V : Type 0} ⦃o : Ord K⦄ ⦃val : Value V⦄ where
  -- New local data at a cell of a tree.
  revalued-IsTree :
      {s s' : Guard K V} (v : V) (ctx : Context K V) (l : Shape K V) (c : Cell K V) (r : Shape K V)
      → IsTree s (plug ctx (fork l c r))
      → Focus s' ctx (fork l (record c { value = v }) r)
      → s'.meta ≡ s.meta
      → IsTree s' (plug ctx (fork l (record c { value = v }) r))
  revalued-IsTree {s} {s'} v ctx l c r h foc kept =
      let old = fork l c r in
      let new = fork l (record c { value = v }) r in
      let xs = before ctx ++ entries l in
      let ys = entries r ++ after ctx in
      let e = split_entries ctx l c r in
      let e' = split_entries ctx l (record c { value = v }) r in
      let b = of_IsBalanced-plug ctx old h.balanced (omega (arith, h.dark)) in
      let b' = plug-IsBalanced ctx new b.0 b.1 b.2 in
      record {
        focus = Focus-top ctx foc;
        balanced = b'.0;
        dark = omega (arith, b'.2, top_weight_le (plug ctx new));
        black_height = ap (λ (m : Bounds). m.black_height) kept ∙ h.black_height ∙ b.3 ∙ sym b'.1;
        sorted =
            subst IsSorted (sym e')
              (relocal-IsSorted xs (entry c) (val.into v) ys (subst IsSorted e h.sorted));
        threaded =
            subst (λ es. IsThreaded none es none) (sym e')
              (relocal-IsThreaded none none xs (entry c) (val.into v) ys
                (subst (λ es. IsThreaded none es none) e h.threaded));
        range =
            ap (λ (m : Bounds). m.range) kept
            ∙ h.range
            ∙ ap (λ es. pair (first_or none es) (last_or none es)) e
            ∙ ap (λ x. pair x (last_or none (xs ++ entry c ∷ ys)))
                (sym (first_or-relocal none xs (entry c) (val.into v) ys))
            ∙ ap (λ x. pair (first_or none (xs ++ relocal (val.into v) (entry c) ∷ ys)) x)
                (sym (last_or-relocal none xs (entry c) (val.into v) ys))
            ∙ ap (λ es. pair (first_or none es) (last_or none es)) (sym e');
      }

  -- The key is present: its value is replaced.
  pub replaced-Stored :
      {s : Guard K V} {t : Shape K V} (g : Growth) (key : K) (local : val.Local)
      {r : SearchResult NodeIndex}
      → IsTree s t
      → search s.meta.root key s ≡ done r
      → Present key t r
      → Stored t key local (insert g key local s)
  replaced-Stored {s} {t} g key local h found x =
      let v = val.new local in
      let ctx = x.context in
      let c = x.cell in
      let whole = subst (IsTree s) (sym x.plugged) h in
      let w =
        modify-Edited left x.low c x.high (λ m. record m { value = v }) c.key v c.color c.order
          (Focus-plug ctx (fork x.low c x.high) whole.focus) refl in
      record {
        after = w.after;
        is_new = false;
        tree = plug ctx (fork x.low (record c { value = v }) x.high);
        returns =
            insert-here s w.after g key local c.here (found ∙ ap (λ y. done y) x.result) w.returns;
        is_tree = revalued-IsTree v ctx x.low c x.high whole w.focus w.meta_kept;
        stored =
            ap (map binding) (split_entries ctx x.low (record c { value = v }) x.high)
            ∙ put-relocal key (before ctx ++ entries x.low) (entry c) (val.into v)
                (entries x.high ++ after ctx) x.less x.equal
            ∙ ap (λ es. put key (val.into v) (map binding es))
                (sym (split_entries ctx x.low c x.high))
            ∙ ap (λ y. put key (val.into v) (contents y)) x.plugged;
        newness = ap not (
            sym (
              ap (λ y. has_key key (contents y)) (sym x.plugged)
              ∙ ap (λ es. has_key key (map binding es)) (split_entries ctx x.low c x.high)
              ∙ has_key-less key (before ctx ++ entries x.low)
                  (entry c ∷ (entries x.high ++ after ctx)) x.less
              ∙ ap (λ y. is_eq y || has_key key (map binding (entries x.high ++ after ctx)))
                  x.equal));
      }
