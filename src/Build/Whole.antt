-- ===== src/Build/Whole.antt =====
-- `build_tree` of src/tree/iter.rs on a whole slice.
use rb_forest.Base.{
  ℕ, zero, suc, ◌/◌, ◌≤◌, ◌≡◌, ◌==◌, refl, List, [], ◌∷◌, length, take, drop, arith, ap, sym, subst,
  ◌∙◌,
}
use rb_forest.Arena.{Growth}
use rb_forest.Arena.FreeList.{IsValid}
use rb_forest.Node.{NodeRef, Color, Value}
use rb_forest.Guard.{Guard}
use rb_forest.Build.{build_tree, build_node}
use rb_forest.Build.Raise.{Raised, empty-Raised, build_leaf-Raised}
use rb_forest.Build.Pivot.{build_node-Raised}
use rb_forest.Build.Levels.{
  level_color, not-level_color, weight-level_color, Fits, flat_none, flat_one, Fits-halves,
  is_empty-length, split_at,
}

module _ {K V : Type 0} ⦃val : Value V⦄ where
  build_tree-pivot :
      (g : Growth) (fuel : ℕ) (x y item : K × val.Local) (items rest : List (K × val.Local))
      (parent : NodeRef) (c : Color) (s : Guard K V)
      → drop (length (x ∷ y ∷ items) / 2) (x ∷ y ∷ items) ≡ item ∷ rest
      → build_tree g (suc fuel) (x ∷ y ∷ items) parent c s
        ≡ build_node g
            (build_tree g fuel (take (length (x ∷ y ∷ items) / 2) (x ∷ y ∷ items)))
            (build_tree g fuel (drop (suc (length (x ∷ y ∷ items) / 2)) (x ∷ y ∷ items)))
            item
            (length (x ∷ y ∷ items) / 2 == 0)
            (suc (length (x ∷ y ∷ items) / 2) == length (x ∷ y ∷ items))
            parent
            c
            s
  unfolding build_tree
  build_tree-pivot g fuel x y item items rest parent c s e = rw e refl

  pub build_tree-Raised :
      (g : Growth) (fuel d : ℕ) (items : List (K × val.Local)) (parent : NodeRef) (s : Guard K V)
      → IsValid s.arena
      → Fits d (length items)
      → length items ≤ fuel
      → Raised d (level_color d) s parent items (build_tree g fuel items parent (level_color d) s)
  unfolding build_tree
  build_tree-Raised g fuel d [] parent s valid fits le =
      empty-Raised d (level_color d) s parent valid (flat_none d fits)
  build_tree-Raised g fuel d (x ∷ []) parent s valid fits le =
      build_leaf-Raised g d (level_color d) s parent x valid (flat_one d fits)
  build_tree-Raised g zero d (x ∷ y ∷ items) parent s valid fits le = absurd (omega arith)
  build_tree-Raised g (suc fuel) zero (x ∷ y ∷ items) parent s valid fits le =
      absurd (omega (arith, fits))
  build_tree-Raised g (suc fuel) (suc d) (x ∷ y ∷ items) parent s valid fits le =
      let all = x ∷ y ∷ items in
      let pivot = length all / 2 in
      let (item, here, whole, few, rest) = split_at pivot all (omega arith) in
      let (low, high) =
        Fits-halves d (length all) (length (drop (suc pivot) all)) fits (omega arith) rest in
      let c = not-level_color d in
      rw (build_tree-pivot g fuel x y item items _ parent (level_color (suc d)) s here) (
        subst
          (λ zs. Raised (suc d) (level_color (suc d)) s parent zs (
            build_node g (build_tree g fuel (take pivot all))
              (build_tree g fuel (drop (suc pivot) all)) item (pivot == 0) (suc pivot == length all)
              parent (level_color (suc d)) s))
          whole
          (build_node-Raised g d (level_color (suc d)) (build_tree g fuel (take pivot all))
            (build_tree g fuel (drop (suc pivot) all)) (take pivot all) (drop (suc pivot) all) item
            (pivot == 0) (suc pivot == length all) parent s valid
            (λ p s' v.
              subst
                (λ z. Raised d z s' p (take pivot all) (build_tree g fuel (take pivot all) p z s'))
                (sym c)
                (build_tree-Raised g fuel d (take pivot all) p s' v (subst (Fits d) (sym few) low)
                  (omega (arith, few))))
            (λ p s' v.
              subst
                (λ z.
                  Raised d z s' p (drop (suc pivot) all)
                    (build_tree g fuel (drop (suc pivot) all) p z s'))
                (sym c)
                (build_tree-Raised g fuel d (drop (suc pivot) all) p s' v high
                  (omega (arith, rest))))
            (ap (λ z. z == 0) (sym few) ∙ sym (is_empty-length (take pivot all)))
            (ground (arith, rest, is_empty-length (drop (suc pivot) all))) (weight-level_color d)))
