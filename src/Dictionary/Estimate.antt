-- ===== src/Dictionary/Estimate.antt =====
-- `len_estimate` of src/tree/interface.rs on a tree.
use rb_forest.Base.{
  ℕ, zero, suc, ◌+◌, ◌*◌, ◌^◌, ◌%◌, ◌≤◌, ◌≡◌, refl, none, some, List, [], ◌∷◌, length,
  length-append, arith, ap, sym, subst, ◌∙◌, Pair, pair, ◌==◌, Bool-cases, inl, inr, ==→≡, ==_refl,
  if◌then◌else◌,
}
use rb_forest.Order.{Ord}
use rb_forest.Node.{NodeIndex, NodeRef, Value}
use rb_forest.Guard.{Guard}
use rb_forest.Interface.{LenEstimate, no_node, one_node, more, len_estimate, upper_bound}
use rb_forest.Shape.{Shape, leaf, fork, once, once_self}
use rb_forest.Shape.Balance.{height, top_weight, IsBalanced, color_weight_le}
use rb_forest.Shape.Entries.{Entry, entry, entries}
use rb_forest.Shape.Form.{count_in, count-entries}
use rb_forest.Sequence.{first_or, last_or}
use rb_forest.Dictionary.Splice.{some-last_or}
use rb_forest.Dictionary.{IsTree, contents}
use rb_forest.Dictionary.Fill.{pow_mono, length-map-binding}

module _ {K V : Type 0} ⦃val : Value V⦄ where
  -- A balanced tree is high enough for its nodes.
  length-pow :
      (e : ℕ) (t : Shape K V)
      → IsBalanced t
      → 2 * height t + 1 ≤ e + top_weight t
      → length (entries t) + 1 ≤ 2 ^ e
  length-pow e leaf b le = pow_mono 0 e (omega arith)
  length-pow zero (fork l c r) b le = absurd (omega (arith, color_weight_le c.color))
  length-pow (suc e) (fork l c r) b le =
      let w = color_weight_le c.color in
      let low = length-pow e l b.3 (omega (arith, b.1)) in
      let high = length-pow e r b.4 (omega (arith, b.2, b.0)) in
      let both = length-append {0} (entries l) (entry c ∷ entries r) in omega arith

module _ {K L : Type 0} where
  -- The last of several entries is counted.
  count_in-last :
      (p : NodeIndex) (x : Entry K L) (xs : List (Entry K L))
      → last_or none (x ∷ xs) ≡ some p
      → 1 ≤ count_in p (x ∷ xs)
  count_in-last p x [] e = ground arith
  count_in-last p x (y ∷ ys) e = let r = count_in-last p y ys e in omega arith

-- What an estimate says of a number of nodes.
abbrev pub IsEstimate : LenEstimate → ℕ → Type 0
IsEstimate no_node n = n ≡ 0
IsEstimate one_node n = n ≡ 1
IsEstimate (more bound) n = (2 ≤ n) × (n ≤ bound)

module _ {K V : Type 0} where
  len_estimate-none : (s : Guard K V) → s.meta.range ≡ pair none none → len_estimate s ≡ no_node
  unfolding len_estimate
  len_estimate-none s e =
      let low : s.meta.range.at0 ≡ none = ap (λ (y : Pair NodeRef). y.at0) e in
      let high : s.meta.range.at1 ≡ none = ap (λ (y : Pair NodeRef). y.at1) e in
      simp (len_estimate, low, high) refl

  len_estimate-some :
      (s : Guard K V) (p q : NodeIndex)
      → s.meta.range ≡ pair (some p) (some q)
      → len_estimate s ≡ (if p == q then one_node else more (upper_bound s.meta.black_height))
  unfolding len_estimate
  len_estimate-some s p q e =
      let low : s.meta.range.at0 ≡ some p = ap (λ (y : Pair NodeRef). y.at0) e in
      let high : s.meta.range.at1 ≡ some q = ap (λ (y : Pair NodeRef). y.at1) e in
      simp (len_estimate, low, high) refl

module _ {K V L : Type 0} where
  IsEstimate-entries :
      (s : Guard K V) (es : List (Entry K L))
      → s.meta.range ≡ pair (first_or none es) (last_or none es)
      → ((p : NodeIndex) → count_in p es ≤ 1)
      → length es ≤ upper_bound s.meta.black_height
      → IsEstimate (len_estimate s) (length es)
  IsEstimate-entries s [] range few bound =
      subst (λ r. IsEstimate r 0) (sym (len_estimate-none s range)) refl
  IsEstimate-entries s (x ∷ []) range few bound =
      let single : len_estimate s ≡ one_node =
        len_estimate-some s x.here x.here range
        ∙ ap (λ b. if b then one_node else more (upper_bound s.meta.black_height))
            (==_refl x.here) in
      subst (λ r. IsEstimate r 1) (sym single) refl
  IsEstimate-entries s (x ∷ y ∷ ys) range few bound =
      let (q, last) = some-last_or y.here ys in
      let found = count_in-last q y ys last in
      elim (Bool-cases (x.here == q)) [
        | inl same ↦
            let twice = few q in
            let one : once q x.here ≡ 1 = ap (λ p. once q p) (==→≡ x.here q same) ∙ once_self q in
            absurd (omega arith)
        | inr apart ↦
            let several : len_estimate s ≡ more (upper_bound s.meta.black_height) =
              len_estimate-some s x.here q (range ∙ ap (λ r. pair (some x.here) r) last)
              ∙ ap (λ b. if b then one_node else more (upper_bound s.meta.black_height)) apart in
            subst (λ r. IsEstimate r (length (x ∷ y ∷ ys))) (sym several) (omega arith, bound)
      ]

module _ {K V : Type 0} ⦃o : Ord K⦄ ⦃val : Value V⦄ where
  -- `len_estimate` of a well-formed tree whose black height is at most 15: `Empty` and `Single` are
  -- exact, and the other estimate is of at least two nodes and at most its bound.
  pub len_estimate-IsEstimate :
      {s : Guard K V} (t : Shape K V)
      → IsTree s t
      → s.meta.black_height ≤ 15
      → IsEstimate (len_estimate s) (length (contents t))
  len_estimate-IsEstimate {s} t h small =
      let bh = s.meta.black_height in
      let fits = length-pow (2 * bh) t h.balanced (omega (arith, h.dark, h.black_height)) in
      let wide = pow_mono (2 * bh) (bh * 2 ^ 2 + 1) (omega arith) in
      let shift : (bh * 2 ^ 2 + 1) % 64 ≡ bh * 2 ^ 2 + 1 = omega arith in
      subst (IsEstimate (len_estimate s)) (sym (length-map-binding (entries t))) (
        IsEstimate-entries s (entries t) h.range
          (λ p. omega (arith, h.focus.distinct p, count-entries p t)) (rw shift (omega arith)))
