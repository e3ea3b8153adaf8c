-- ===== src/Build/Apart.antt =====
-- A new node and new trees on both sides of it, as `build_tree` of src/tree/iter.rs makes them one after
-- the other: they share no slot.
use rb_forest.Base.{
  ℕ, ◌+◌, ◌≤◌, ◌≡◌, ◌==◌, some, List, Outcome, arith, ap, ◌∙◌, Bool-cases, Option-cases, inl, inr,
  ==→≡,
}
use rb_forest.Node.{NodeIndex, Node, Color, Value}
use rb_forest.Guard.{Guard}
use rb_forest.Guard.Laws.{view}
use rb_forest.Shape.{count, once, Holds, Holds-frame}
use rb_forest.Shape.Relink.{count_vacant}
use rb_forest.Build.{Built}
use rb_forest.Build.Raise.{Allotted, allotted, kept_by_allot, apart_of_allot, same_by_allot, Raised}

module _ {K V : Type 0} ⦃val : Value V⦄ where
  -- A new node, and new trees of lower and of upper items below it, one after the other.
  module _ {s : Guard K V} {n : Node K V} {d : ℕ} {c : Color} {xs ys : List (K × val.Local)}
      {oa : Outcome (NodeIndex × Guard K V)} {ol ou : Outcome (Built × Guard K V)}
      (a : Allotted s n oa) (l : Raised d c a.after (some a.index) xs ol)
      (u : Raised d c l.after (some a.index) ys ou) where
    -- What stands after the allotment stays.
    pub kept_below :
        (q : NodeIndex) (m : Node K V)
        → view a.after q ≡ some m
        → (count q l.tree ≡ 0) × (count q u.tree ≡ 0) × (view u.after q ≡ some m)
    kept_below q m e =
        let low = l.fresh q m e in
        let later = l.reads_out q low ∙ e in
        let high = u.fresh q m later in (low, high, u.reads_out q high ∙ later)

    pub apart_below : (q : NodeIndex) → count q l.tree + count q u.tree ≤ 1
    apart_below q = elim (Option-cases (view l.after q)) [
      | inl e ↦
          omega (arith, count_vacant (view l.after) q (some a.index) l.tree e l.holds, u.distinct q)
      | inr (m, e) ↦ omega (arith, u.fresh q m e, l.distinct q)
    ]

    pub distinct_below : (q : NodeIndex) → once q a.index + count q l.tree + count q u.tree ≤ 1
    distinct_below q = elim (Bool-cases (q == a.index)) [
      | inl same ↦
          let (low, high, e) =
            kept_below q n (ap (view a.after) (==→≡ q a.index same) ∙ allotted a) in
          rw same (omega (arith, low, high))
      | inr apart ↦ rw apart (omega (arith, apart_below q))
    ]

    pub lower-Holds : Holds (view u.after) (some a.index) l.tree
    lower-Holds =
        Holds-frame (some a.index) l.tree l.holds
          (λ q m. u.reads_out q (omega (arith, apart_below q)))

    pub fresh_below :
        (q : NodeIndex) (m : Node K V)
        → view s q ≡ some m
        → once q a.index + count q l.tree + count q u.tree ≡ 0
    fresh_below q m e =
        let (low, high, later) = kept_below q m (kept_by_allot a q m e) in
        omega (arith, apart_of_allot a q m e, low, high)

    pub same_below :
        (q : NodeIndex)
        → once q a.index + count q l.tree + count q u.tree ≡ 0
        → view u.after q ≡ view s q
    same_below q out =
        u.reads_out q (omega (arith, out))
        ∙ l.reads_out q (omega (arith, out))
        ∙ same_by_allot a q (omega (arith, out))
