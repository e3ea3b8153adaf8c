-- ===== src/Dictionary/Remove/Whole.antt =====
-- `TreeAllocGuard::remove` of src/tree/interface.rs: the search, `remove_at` and the arena's `remove`.
use rb_forest.Base.{
  ◌<◌, ◌≡◌, ◌==◌, inl, inr, none, some, ◌∷◌, ◌++◌, map, left, right, done, refl, ap, sym, subst,
  ◌∙◌, arith, Bool-cases, ==→≡,
}
use rb_forest.Order.{Ord}
use rb_forest.Arena.{remove}
use rb_forest.Arena.Access.{remove_lem}
use rb_forest.Arena.FreeList.{IsValid, remove-IsValid}
use rb_forest.Node.{NodeIndex, Node, Value}
use rb_forest.Guard.{Guard}
use rb_forest.Guard.Valid.{IsValidAfter}
use rb_forest.Tree.Remove.{remove_at}
use rb_forest.Tree.Search.{SearchResult, search, here}
use rb_forest.Interface
use rb_forest.Shape.{Cell, Shape, leaf, fork, Context, top, below, plug, count}
use rb_forest.Shape.Relink.{Focus-frame}
use rb_forest.Shape.Entries.{entry, entries}
use rb_forest.Shape.Parts.{before, after}
use rb_forest.Dictionary.{IsTree, contents, binding, lookup, delete}
use rb_forest.Dictionary.Splice.{split_entries, entries-vacant}
use rb_forest.Dictionary.Place.{descend-Place, vacancy, Present, Vacant}
use rb_forest.Dictionary.Put.{lookup-less, lookup-more, delete-here, delete-absent}
use rb_forest.Dictionary.Read.{searched}
use rb_forest.Dictionary.Remove.{Dropped, Deleted}
use rb_forest.Dictionary.Remove.Low.{low-Dropped}
use rb_forest.Dictionary.Remove.High.{high-Dropped}
use rb_forest.Removal.Valid.{remove_at-IsValidAfter}

module _ {K V : Type 0} ⦃o : Ord K⦄ ⦃val : Value V⦄ where
  -- `remove_at` at any node of a tree.
  pub remove_at-Dropped :
      {s : Guard K V} (ctx : Context K V) (l : Shape K V) (c : Cell K V) (r : Shape K V)
      → IsTree s (plug ctx (fork l c r))
      → s.meta.black_height < 256
      → Dropped c ((before ctx ++ entries l) ++ (entries r ++ after ctx)) (remove_at c.here s)
  remove_at-Dropped ctx leaf c r h small = low-Dropped ctx leaf c r h small (inl refl)
  remove_at-Dropped ctx (fork u y v) c leaf h small =
      low-Dropped ctx (fork u y v) c leaf h small (inr refl)
  remove_at-Dropped ctx (fork u y v) c (fork a x b) h small = high-Dropped ctx u y v c a x b h small

  remove-here :
      (s s1 : Guard K V) (key : K) (p q : NodeIndex) {n : Node K V}
      → search s.meta.root key s ≡ done (here p)
      → remove_at p s ≡ done (q, s1)
      → (remove s1.arena q).0 ≡ some n
      → Interface.remove key s
        ≡ done (some (val.into n.value), record s1 { arena = (remove s1.arena q).1 })
  unfolding Interface.remove
  remove-here s s1 key p q found first taken = rw (found, first, taken) refl

  remove-vacancy :
      (s : Guard K V) (key : K) (ctx : Context K V)
      → search s.meta.root key s ≡ done (vacancy ctx)
      → Interface.remove key s ≡ done (none, s)
  unfolding Interface.remove
  remove-vacancy s key top found = rw found refl
  remove-vacancy s key (below left c u ctx) found = rw found refl
  remove-vacancy s key (below right c u ctx) found = rw found refl

  -- A tree does not see a slot freed outside of it.
  pub freed-IsTree :
      {s : Guard K V} (q : NodeIndex) (t : Shape K V)
      → IsTree s t
      → count q t ≡ 0
      → IsTree (record s { arena = (remove s.arena q).1 }) t
  freed-IsTree {s} q t h out = record {
    focus = Focus-frame top t h.focus refl λ x m. elim (Bool-cases (x == q)) [
      | inl e ↦ absurd (omega (arith, out, ap (λ y. count y t) (==→≡ x q e)))
      | inr e ↦ (remove_lem s.arena q).1 x ∙ rw e refl
    ];
    balanced = h.balanced;
    dark = h.dark;
    black_height = h.black_height;
    sorted = h.sorted;
    threaded = h.threaded;
    range = h.range;
  }

  there-Deleted :
      {s : Guard K V} {t : Shape K V} (key : K) {r : SearchResult NodeIndex}
      → IsTree s t
      → IsValid s.arena
      → s.meta.black_height < 256
      → search s.meta.root key s ≡ done r
      → Present key t r
      → Deleted t key (Interface.remove key s)
  there-Deleted {s} {t} key h valid small found x =
      let c = x.cell in
      let ctx = x.context in
      let xs = before ctx ++ entries x.low in
      let ys = entries x.high ++ after ctx in
      let y = remove_at-Dropped ctx x.low c x.high (subst (IsTree s) (sym x.plugged) h) small in
      let old : contents t ≡ map binding (xs ++ entry c ∷ ys) =
        ap contents (sym x.plugged) ∙ ap (map binding) (split_entries ctx x.low c x.high) in
      let bound : lookup key (contents t) ≡ some (val.into c.value) =
        ap (lookup key) old ∙ lookup-less key xs (entry c ∷ ys) x.less ∙ rw x.equal refl in
      let kept = subst IsValidAfter y.returns (remove_at-IsValidAfter c.here s valid) in
      record {
        after = record y.after { arena = (remove y.after.arena y.ptr).1 };
        tree = y.tree;
        returns =
            remove-here s y.after key c.here y.ptr (found ∙ ap (λ z. done z) x.result) y.returns
              ((remove_lem y.after.arena y.ptr).0 ∙ y.found)
            ∙ ap (λ v. done (v, record y.after { arena = (remove y.after.arena y.ptr).1 }))
                (ap (λ v. some v) y.value_kept ∙ sym bound);
        is_tree = freed-IsTree y.ptr y.tree y.is_tree y.apart;
        deleted =
            y.contents_are
            ∙ sym (delete-here key xs (entry c) ys x.less x.equal)
            ∙ ap (delete key) (sym old);
        valid = remove-IsValid y.after.arena y.ptr kept;
      }

  nowhere-Deleted :
      {s : Guard K V} {t : Shape K V} (key : K) {r : SearchResult NodeIndex}
      → IsTree s t
      → IsValid s.arena
      → search s.meta.root key s ≡ done r
      → Vacant key t r
      → Deleted t key (Interface.remove key s)
  nowhere-Deleted {s} {t} key h valid found x =
      let xs = before x.context in
      let ys = after x.context in
      let old : contents t ≡ map binding (xs ++ ys) =
        ap contents (sym x.plugged) ∙ ap (map binding) (entries-vacant x.context) in
      let unbound : lookup key (contents t) ≡ none =
        ap (lookup key) old ∙ lookup-less key xs ys x.less ∙ lookup-more key ys x.more in
      record {
        after = s;
        tree = t;
        returns =
            remove-vacancy s key x.context (found ∙ ap (λ z. done z) x.result)
            ∙ ap (λ v. done (v, s)) (sym unbound);
        is_tree = h;
        deleted = old ∙ sym (delete-absent key xs ys x.less x.more) ∙ ap (delete key) (sym old);
        valid = valid;
      }

  -- `remove` on a guard with a valid arena, whose tree is a red-black tree with increasing keys, threaded
  -- by its order links, and whose recorded black height is a `u8`: it does not fail and does not run
  -- out of rounds; it returns the local data that the contents bind to the key, or none if they do not
  -- bind it, and leaves such a tree whose contents are those of the old one less the key's binding, in
  -- an arena that is valid.
  pub remove-Deleted :
      {s : Guard K V} (key : K) (t : Shape K V)
      → IsTree s t
      → IsValid s.arena
      → s.meta.black_height < 256
      → Deleted t key (Interface.remove key s)
  remove-Deleted {s} key t h valid small = elim (descend-Place key t top h.sorted tt tt) [
    | inl x ↦ there-Deleted key h valid small (searched key t h) x
    | inr x ↦ nowhere-Deleted key h valid (searched key t h) x
  ]
