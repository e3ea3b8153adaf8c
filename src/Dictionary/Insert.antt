-- ===== src/Dictionary/Insert.antt =====
-- `TreeAllocGuard::insert` of src/tree/interface.rs on a tree, as an insertion into a sorted map.
pub mod Steps
pub mod Replaced
pub mod Added
pub mod Valid
use Prim.Native.Nat.Ordering.{lt, gt}
use rb_forest.Base.{◌≡◌, ◌<◌, pair, done, ap, subst, sym, ◌∙◌, inl, inr}
use rb_forest.Order.{Ord}
use rb_forest.Arena.{Growth}
use rb_forest.Arena.FreeList.{IsValid}
use rb_forest.Node.{NodeIndex, Value}
use rb_forest.Guard.{Guard}
use rb_forest.Tree.Search.{SearchResult, search, empty}
use rb_forest.Interface.{insert}
use rb_forest.Shape.{Shape, Context, leaf, top, below, plug}
use rb_forest.Shape.Entries.{entries}
use rb_forest.Shape.Parts.{before, after}
use rb_forest.Sequence.{All}
use rb_forest.Lookup.{descend}
use rb_forest.Lookup.Find.{search-scan}
use rb_forest.Dictionary.{IsTree, Stored}
use rb_forest.Dictionary.Place.{descend-Place, Vacant, vacancy, IsSorted-IsOrdered, ends-entries}
use rb_forest.Dictionary.Insert.Replaced.{replaced-Stored}
use rb_forest.Dictionary.Insert.Added.{below-Stored, empty-Stored}

module _ {K V : Type 0} ⦃o : Ord K⦄ ⦃val : Value V⦄ where
  added-Stored :
      {s : Guard K V} {t : Shape K V} (g : Growth) (key : K) (local : val.Local)
      {r : SearchResult NodeIndex}
      → IsTree s t
      → IsValid s.arena
      → s.meta.black_height < 255
      → search s.meta.root key s ≡ done r
      → Vacant key t r
      → Stored t key local (insert g key local s)
  added-Stored {s} {t} g key local h valid small found x =
      subst (λ y. Stored y key local (insert g key local s)) x.plugged
        (go x.context (subst (IsTree s) (sym x.plugged) h) (found ∙ ap (λ y. done y) x.result)
          x.less x.more)
    where
      go :
          (ctx : Context K V)
          → IsTree s (plug ctx leaf)
          → search s.meta.root key s ≡ done (vacancy ctx)
          → All (λ e. o.cmp e.key key ≡ lt) (before ctx)
          → All (λ e. o.cmp e.key key ≡ gt) (after ctx)
          → Stored (plug ctx leaf) key local (insert g key local s)
      go top h' found' less more = empty-Stored s g key local valid found'
      go (below i c u ctx) h' found' less more =
          below-Stored g key local i c u ctx h' valid small found' less more

  -- `insert` on a guard with a valid arena, whose tree is a red-black tree with a black height below
  -- 255 and increasing keys, threaded by its order links: it does not fail and does not run out of
  -- rounds, and leaves such a tree whose contents are those of the old one with the key's binding put in
  -- its place; the value of a present key is replaced, and the result says whether the key was new.
  pub insert-Stored :
      {s : Guard K V} (g : Growth) (key : K) (local : val.Local) (t : Shape K V)
      → IsTree s t
      → IsValid s.arena
      → s.meta.black_height < 255
      → Stored t key local (insert g key local s)
  insert-Stored {s} g key local t h valid small =
      let ordered = IsSorted-IsOrdered t h.sorted in
      let found = search-scan key t h.focus (h.range ∙ ends-entries t) ordered in
      elim (descend-Place key t top h.sorted tt tt) [
        | inl x ↦ replaced-Stored g key local h found.0 x
        | inr x ↦ added-Stored g key local h valid small found.0 x
      ]
