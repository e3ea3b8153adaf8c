-- ===== src/Shape/Form.antt =====
-- Trees that differ in cumulants only, as `propagate_cumulant` of src/tree/mod.rs leaves them.
use rb_forest.Base.{
  ℕ, ◌+◌, ◌≡◌, refl, Side, left, right, arith, ◌∙◌, sym, ap, pair_at, List, [], ◌∷◌, ◌++◌,
}
use rb_forest.Node.{NodeIndex, Value}
use rb_forest.Shape.{Cell, Shape, leaf, fork, Context, top, below, fork_at, plug, once, count}
use rb_forest.Shape.Cumulant.{cumulant_of, refresh}
use rb_forest.Shape.Balance.{
  height, top_weight, weight, IsBalanced, IsBalanced-fork_at, of_IsBalanced-fork_at,
  top_weight-fork_at,
}
use rb_forest.Shape.Entries.{Entry, entry, entries, entries-fork_at}
use rb_forest.Propagation.{refreshed}

module _ {K L : Type 0} where
  abbrev pub count_in : NodeIndex → List (Entry K L) → ℕ
  count_in p [] = 0
  count_in p (e ∷ es) = once p e.here + count_in p es

  pub count_in-append :
      (p : NodeIndex) (xs ys : List (Entry K L))
      → count_in p (xs ++ ys) ≡ count_in p xs + count_in p ys
  count_in-append p [] ys = omega arith
  count_in-append p (x ∷ xs) ys = omega (arith, count_in-append p xs ys)

module _ {K V : Type 0} ⦃val : Value V⦄ where
  pub record SameForm (t t' : Shape K V) : Type 0 where
    pub entries_kept : entries t' ≡ entries t
    pub height_kept : height t' ≡ height t
    pub top_kept : top_weight t' ≡ top_weight t
    pub balance_kept : IsBalanced t → IsBalanced t'

  pub SameForm-refl : (t : Shape K V) → SameForm t t
  SameForm-refl t = record {
    entries_kept = refl;
    height_kept = refl;
    top_kept = refl;
    balance_kept = λ b. b;
  }

  pub SameForm-trans : {t u v : Shape K V} → SameForm t u → SameForm u v → SameForm t v
  SameForm-trans f g = record {
    entries_kept = g.entries_kept ∙ f.entries_kept;
    height_kept = g.height_kept ∙ f.height_kept;
    top_kept = g.top_kept ∙ f.top_kept;
    balance_kept = λ b. g.balance_kept (f.balance_kept b);
  }

  height-fork_at-same :
      (i : Side) (x x' : Shape K V) (c c' : Cell K V) (u : Shape K V)
      → height x' ≡ height x
      → weight c' ≡ weight c
      → height (fork_at i x' c' u) ≡ height (fork_at i x c u)
  height-fork_at-same left x x' c c' u e w = omega (arith, e, w)
  height-fork_at-same right x x' c c' u e w = omega (arith, e, w)

  pub SameForm-fork_at :
      (i : Side) (x x' : Shape K V) (c c' : Cell K V) (u : Shape K V)
      → SameForm x x'
      → entry c' ≡ entry c
      → weight c' ≡ weight c
      → SameForm (fork_at i x c u) (fork_at i x' c' u)
  SameForm-fork_at i x x' c c' u f e w = record {
    entries_kept = entries-fork_at i x' x c' c u u f.entries_kept e refl;
    height_kept = height-fork_at-same i x x' c c' u f.height_kept w;
    top_kept = top_weight-fork_at i x' c' u ∙ w ∙ sym (top_weight-fork_at i x c u);
    balance_kept = λ b.
        let (same, near, far, bx, bu) = of_IsBalanced-fork_at i x c u b in
        IsBalanced-fork_at i x' c' u (f.height_kept ∙ same) (omega (arith, near, w, f.top_kept))
          (omega (arith, far, w)) (f.balance_kept bx) bu;
  }

  pub SameForm-plug :
      (ctx : Context K V) {t t' : Shape K V} → SameForm t t' → SameForm (plug ctx t) (plug ctx t')
  SameForm-plug top f = f
  SameForm-plug (below i c u ctx) {t} {t'} f =
      SameForm-plug ctx (SameForm-fork_at i t t' c c u f refl refl)

  pub entry-refresh :
      (i : Side) (x : Shape K V) (c : Cell K V) (y : Shape K V) → entry (refresh i x c y) ≡ entry c
  entry-refresh i x c y =
      ap (λ l. record { here = c.here; key = c.key; local = l; order = c.order })
        (val.into-update (pair_at i (cumulant_of x) (cumulant_of y)) c.value)

  -- An update of cumulants up to the root.
  pub refreshed-SameForm :
      (ctx : Context K V) (t : Shape K V) → SameForm (plug ctx t) (refreshed ctx t)
  refreshed-SameForm top t = SameForm-refl t
  refreshed-SameForm (below i c u ctx) t =
      let c' = refresh i t c u in
      SameForm-trans
        (SameForm-plug ctx
          (SameForm-fork_at i t t c c' u (SameForm-refl t) (entry-refresh i t c u) refl))
        (refreshed-SameForm ctx (fork_at i t c' u))

  pub count-entries : (p : NodeIndex) (t : Shape K V) → count p t ≡ count_in p (entries t)
  count-entries p leaf = refl
  count-entries p (fork l c r) = omega (
    arith,
    count-entries p l,
    count-entries p r,
    count_in-append p (entries l) (entry c ∷ entries r),
  )

  -- Trees with the same entries have the same indices.
  pub count-same :
      (p : NodeIndex) (t t' : Shape K V) → entries t' ≡ entries t → count p t' ≡ count p t
  count-same p t t' e = count-entries p t' ∙ ap (count_in p) e ∙ sym (count-entries p t)
