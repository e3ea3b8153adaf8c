-- ===== src/Iter/Drop.antt =====
-- The drop of the mutable iterators of src/tree/iter.rs on a well-formed tree.
use rb_forest.Base.{
  ◌≡◌, refl, Bool, true, false, none, left, right, if◌then◌else◌, Outcome, done, arith, ap, sym,
  subst, ◌∙◌, pair, map,
}
use rb_forest.Order.{Ord}
use rb_forest.Arena.FreeList.{IsValid}
use rb_forest.Node.{NodeIndex, Value}
use rb_forest.Guard.{Guard, Bounds, meta, pure, ◌>>=◌}
use rb_forest.Guard.Laws.{view}
use rb_forest.Shape.{Shape, leaf, fork, root, count, Holds}
use rb_forest.Shape.Cumulant.{refresh}
use rb_forest.Shape.Form.{SameForm, SameForm-refl, SameForm-trans, SameForm-fork_at, entry-refresh}
use rb_forest.Sequence.{first_or, last_or, IsThreaded, IsSorted}
use rb_forest.Propagation.Below.{summed, root-summed, count-summed, update_cumulants-Summed}
use rb_forest.Dictionary.{IsTree, contents, binding}
use rb_forest.Iter.{drop_mut, update_root}

module _ {K V : Type 0} ⦃val : Value V⦄ where
  summed-SameForm : (t : Shape K V) → SameForm t (summed t)
  summed-SameForm leaf = SameForm-refl leaf
  summed-SameForm (fork l c r) =
      SameForm-trans (SameForm-fork_at left l (summed l) c c r (summed-SameForm l) refl refl) (
        SameForm-fork_at right r (summed r) c (refresh left (summed l) c (summed r)) (summed l)
          (summed-SameForm r) (entry-refresh left (summed l) c (summed r)) refl)

  -- The tree as the drop of a mutable iterator leaves it, with and without cumulants.
  abbrev pub settled_by : Bool → Shape K V → Shape K V
  settled_by true t = summed t
  settled_by false t = t

  abbrev pub settled : Shape K V → Shape K V
  settled t = settled_by val.has_cumulant t

module _ {K V : Type 0} ⦃o : Ord K⦄ ⦃val : Value V⦄ where
  -- A tree of the same form in the place of another.
  IsTree-SameForm :
      {s s' : Guard K V} {t t' : Shape K V}
      → IsTree s t
      → SameForm t t'
      → Holds (view s') none t'
      → ((q : NodeIndex) → count q t' ≡ count q t)
      → root t' ≡ root t
      → s'.meta ≡ s.meta
      → IsTree s' t'
  IsTree-SameForm h f held counts roots same = record {
    focus = record {
      inside = held;
      above = tt;
      distinct = λ q. omega (arith, counts q, h.focus.distinct q);
      rooted = ap (λ (b : Bounds). b.root) same ∙ h.focus.rooted ∙ sym roots;
    };
    balanced = f.balance_kept h.balanced;
    dark = f.top_kept ∙ h.dark;
    black_height = ap (λ (b : Bounds). b.black_height) same ∙ h.black_height ∙ sym f.height_kept;
    sorted = subst IsSorted (sym f.entries_kept) h.sorted;
    threaded = subst (λ es. IsThreaded none es none) (sym f.entries_kept) h.threaded;
    range =
        ap (λ (b : Bounds). b.range) same
        ∙ h.range
        ∙ ap (λ es. pair (first_or none es) (last_or none es)) (sym f.entries_kept);
  }

  pub record Dropped (has : Bool) (s : Guard K V) (t : Shape K V)
      (r : Outcome (Unit {0} × Guard K V)) : Type 0 where
    pub after : Guard K V
    pub returns : r ≡ done (tt, after)
    pub is_tree : IsTree after (settled_by has t)
    pub valid : IsValid s.arena → IsValid after.arena
    pub contents_kept : contents (settled_by has t) ≡ contents t

  drop_by-Dropped :
      (s : Guard K V) (t : Shape K V)
      → IsTree s t
      → (has : Bool)
      → Dropped has s t ((if has then (meta >>= λ m. update_root m.root) else pure tt) s)
  drop_by-Dropped s t h false = record {
    after = s;
    returns = refl;
    is_tree = h;
    valid = λ v. v;
    contents_kept = refl;
  }
  drop_by-Dropped s leaf h true = record {
    after = s;
    returns = ap (λ r. update_root r s) h.focus.rooted;
    is_tree = h;
    valid = λ v. v;
    contents_kept = refl;
  }
  drop_by-Dropped s (fork l c r) h true =
      let t = fork l c r in
      let a = update_cumulants-Summed t c.here h.focus refl in
      record {
        after = a.after;
        returns = ap (λ x. update_root x s) h.focus.rooted ∙ a.returns;
        is_tree =
            IsTree-SameForm h (summed-SameForm t) a.holds (λ q. count-summed q t) (root-summed t)
              a.meta_kept;
        valid = a.valid;
        contents_kept = ap (map binding) (summed-SameForm t).entries_kept;
      }

  -- The drop of a mutable iterator on a well-formed tree: it returns within its rounds, and leaves a
  -- well-formed tree with the same contents, in which, if the values have cumulants, the value of each
  -- node has been updated from the cumulants of its children, after theirs.
  pub drop_mut-Dropped :
      (s : Guard K V) (t : Shape K V) → IsTree s t → Dropped val.has_cumulant s t (drop_mut s)
  unfolding drop_mut
  drop_mut-Dropped s t h = drop_by-Dropped s t h val.has_cumulant
