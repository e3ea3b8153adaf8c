-- ===== src/Shape/Unplug.antt =====
-- What a whole tree says of a context and what stands in its hole.
use rb_forest.Base.{
  ℕ, zero, suc, ◌+◌, ◌≤◌, ◌≡◌, refl, ◌==◌, Side, left, right, arith, ◌∙◌, sym, ap, Bool-cases, ==→≡,
  inl, inr, ◌⊎◌,
}
use rb_forest.Node.{NodeIndex, NodeRef}
use rb_forest.Guard.{Guard}
use rb_forest.Shape.{
  Cell, Shape, leaf, fork, Context, top, below, fork_at, plug, once, count, count_above, Focus,
}
use rb_forest.Shape.Zipper.{Focus-down, count-fork_at}
use rb_forest.Shape.Parts.{relink, link_to}
use rb_forest.Shape.Balance.{
  height, top_weight, weight, parent_weight, IsBalanced, IsBalancedAbove, height_above,
  height-fork_at, top_weight-fork_at, of_IsBalanced-fork_at,
}

positive : (n : ℕ) → (n ≡ 0) ⊎ (1 ≤ n)
positive zero = inl refl
positive (suc n) = inr (omega arith)

module _ {K V : Type 0} where
  -- A balanced whole is balanced in and above the hole.
  pub of_IsBalanced-plug :
      (ctx : Context K V) (t : Shape K V)
      → IsBalanced (plug ctx t)
      → 1 ≤ top_weight (plug ctx t)
      → IsBalanced t
        × IsBalancedAbove (height t) ctx
        × (1 ≤ top_weight t + parent_weight ctx)
        × (height (plug ctx t) ≡ height_above (height t) ctx)
  of_IsBalanced-plug top t b dark = (b, tt, omega arith, refl)
  of_IsBalanced-plug (below i c u ctx) t b dark =
      let r = of_IsBalanced-plug ctx (fork_at i t c u) b dark in
      let f = of_IsBalanced-fork_at i t c u r.0 in
      let e = height-fork_at i t c u f.0 in
      (
        f.3,
        (sym f.0, f.2, rw top_weight-fork_at at r.2, f.4, rw e at r.1),
        omega (arith, f.1),
        r.3 ∙ ap (λ n. height_above n ctx) e,
      )

  parent_weight-relink :
      (i : Side) (r : NodeRef) (ctx : Context K V)
      → parent_weight (relink i r ctx) ≡ parent_weight ctx
  parent_weight-relink i r top = refl
  parent_weight-relink left r (below left c u ctx) = refl
  parent_weight-relink left r (below right c u ctx) = refl
  parent_weight-relink right r (below left c u ctx) = refl
  parent_weight-relink right r (below right c u ctx) = refl

  pub IsBalancedAbove-relink :
      (n : ℕ) (i : Side) (r : NodeRef) (ctx : Context K V)
      → IsBalancedAbove n ctx
      → IsBalancedAbove n (relink i r ctx)
  IsBalancedAbove-relink n i r top h = tt
  IsBalancedAbove-relink n left r (below left c u ctx) h = (
    h.0,
    h.1,
    omega (arith, h.2, parent_weight-relink left r ctx),
    h.3,
    IsBalancedAbove-relink (weight c + n) left r ctx h.4,
  )
  IsBalancedAbove-relink n left r (below right c u ctx) h = h
  IsBalancedAbove-relink n right r (below left c u ctx) h = h
  IsBalancedAbove-relink n right r (below right c u ctx) h = (
    h.0,
    h.1,
    omega (arith, h.2, parent_weight-relink right r ctx),
    h.3,
    IsBalancedAbove-relink (weight c + n) right r ctx h.4,
  )

  pub height_above-relink :
      (n : ℕ) (i : Side) (r : NodeRef) (ctx : Context K V)
      → height_above n (relink i r ctx) ≡ height_above n ctx
  height_above-relink n i r top = refl
  height_above-relink n left r (below left c u ctx) = height_above-relink (weight c + n) left r ctx
  height_above-relink n left r (below right c u ctx) = refl
  height_above-relink n right r (below left c u ctx) = refl
  height_above-relink n right r (below right c u ctx) =
      height_above-relink (weight c + n) right r ctx

  -- The cell above the hole has its order link changed as well.
  pub IsBalancedAbove-link :
      (n : ℕ) (i : Side) (r : NodeRef) (c : Cell K V) (u : Shape K V) (ctx : Context K V)
      → IsBalancedAbove n (below i c u ctx)
      → IsBalancedAbove n (below i (link_to i r c) u (relink i r ctx))
  IsBalancedAbove-link n i r c u ctx h = (
    h.0,
    h.1,
    omega (arith, h.2, parent_weight-relink i r ctx),
    h.3,
    IsBalancedAbove-relink (weight c + n) i r ctx h.4,
  )

  pub count-plug :
      (p : NodeIndex) (ctx : Context K V) (t : Shape K V)
      → count p (plug ctx t) ≡ count p t + count_above p ctx
  count-plug p top t = omega arith
  count-plug p (below i c u ctx) t =
      omega (arith, count-plug p ctx (fork_at i t c u), count-fork_at i t c u p)

  -- The focus moves from the whole tree to the hole.
  pub Focus-plug :
      {s : Guard K V} (ctx : Context K V) (t : Shape K V) → Focus s top (plug ctx t) → Focus s ctx t
  Focus-plug top t f = f
  Focus-plug (below i c u ctx) t f = Focus-down i (Focus-plug ctx (fork_at i t c u) f)

  -- Where an index stands in a tree.
  pub record Located (p : NodeIndex) (whole : Shape K V) : Type 0 where
    pub context : Context K V
    pub low : Shape K V
    pub cell : Cell K V
    pub high : Shape K V
    pub plugged : plug context (fork low cell high) ≡ whole
    pub found : cell.here ≡ p

  pub locate :
      (p : NodeIndex) (ctx : Context K V) (t : Shape K V) → 1 ≤ count p t → Located p (plug ctx t)
  locate p ctx leaf some_p = absurd (omega arith)
  locate p ctx (fork l c r) some_p = elim (Bool-cases (p == c.here)) [
    | inl e ↦ record {
      context = ctx;
      low = l;
      cell = c;
      high = r;
      plugged = refl;
      found = sym (==→≡ p c.here e);
    }
    | inr ne ↦
        let no : once p c.here ≡ 0 = rw ne refl in
        elim (positive (count p l)) [
          | inl e ↦ locate p (below right c l ctx) r (omega (arith, e))
          | inr m ↦ locate p (below left c r ctx) l m
        ]
  ]
