-- ===== src/Dictionary/Cost.antt =====
-- How many nodes the descent of `search_by` of src/tree/mod.rs visits.
use rb_forest.Base.{
  ℕ, zero, suc, ◌+◌, ◌^◌, ◌≤◌, ◌<◌, ◌≡◌, refl, Bool, true, false, none, some, if◌then◌else◌, length,
  done, arith, ap, ◌∙◌, inl, inr,
}
use rb_forest.Order.{Ord}
use rb_forest.Node.{NodeIndex, NodeRef, Value}
use rb_forest.Guard.{Guard}
use rb_forest.Guard.Laws.{view, node_at-done}
use rb_forest.Tree.Search.{SearchResult, left_of, right_of, empty, search_loop, search}
use rb_forest.Shape.{Cell, Shape, leaf, fork, root, Holds}
use rb_forest.Shape.Balance.{height, top_weight, top_weight_le, color_weight_le, IsBalanced}
use rb_forest.Lookup.{Ordering-cases, descend}
use rb_forest.Dictionary.{IsTree, contents}
use rb_forest.Dictionary.Fill.{pow-black_height, pow_lt}
use rb_forest.Dictionary.Read.{searched}

module _ {K V : Type 0} ⦃o : Ord K⦄ where
  -- A path has at most twice as many nodes as black ones, and one more below a red root.
  search_loop-IsBalanced :
      (s : Guard K V) (key : K) (fuel : ℕ) (parent : NodeRef) (t : Shape K V) (p : NodeIndex)
      (b : Bool)
      → Holds (view s) parent t
      → IsBalanced t
      → height t + height t + 1 ≤ fuel + top_weight t
      → search_loop (λ n. o.cmp n.key key) fuel (root t) (some p) b s
        ≡ done (descend key t (if b then left_of p else right_of p))
  unfolding search_loop
  search_loop-IsBalanced s key fuel parent leaf p b held bal le = refl
  search_loop-IsBalanced s key zero parent (fork l c r) p b held bal le =
      absurd (omega (arith, color_weight_le c.color))
  search_loop-IsBalanced s key (suc fuel) parent (fork l c r) p b held bal le =
      let low : height l + height l + 1 ≤ fuel + top_weight l =
        omega (arith, color_weight_le c.color, top_weight_le l) in
      let high : height r + height r + 1 ≤ fuel + top_weight r =
        omega (arith, color_weight_le c.color, top_weight_le r) in
      elim (Ordering-cases (o.cmp c.key key)) [
        | inl e ↦
            rw (node_at-done s c.here held.0, descend, e)
              (search_loop-IsBalanced s key fuel (some c.here) r c.here false held.2 bal.4 high)
        | inr (inl e) ↦ rw (node_at-done s c.here held.0, descend, e) refl
        | inr (inr e) ↦
            rw (node_at-done s c.here held.0, descend, e)
              (search_loop-IsBalanced s key fuel (some c.here) l c.here true held.1 bal.3 low)
      ]

  search_loop-root :
      (s : Guard K V) (key : K) (fuel : ℕ) (l : Shape K V) (c : Cell K V) (r : Shape K V)
      → Holds (view s) none (fork l c r)
      → IsBalanced (fork l c r)
      → top_weight (fork l c r) ≡ 1
      → height (fork l c r) + height (fork l c r) ≤ fuel
      → search_loop (λ n. o.cmp n.key key) fuel (some c.here) none false s
        ≡ done (descend key (fork l c r) empty)
  unfolding search_loop
  search_loop-root s key zero l c r held bal dark le = absurd (omega arith)
  search_loop-root s key (suc fuel) l c r held bal dark le =
      let low : height l + height l + 1 ≤ fuel + top_weight l = omega arith in
      let high : height r + height r + 1 ≤ fuel + top_weight r = omega arith in
      elim (Ordering-cases (o.cmp c.key key)) [
        | inl e ↦
            rw (node_at-done s c.here held.0, descend, e)
              (search_loop-IsBalanced s key fuel (some c.here) r c.here false held.2 bal.4 high)
        | inr (inl e) ↦ rw (node_at-done s c.here held.0, descend, e) refl
        | inr (inr e) ↦
            rw (node_at-done s c.here held.0, descend, e)
              (search_loop-IsBalanced s key fuel (some c.here) l c.here true held.1 bal.3 low)
      ]

module _ {K V : Type 0} ⦃o : Ord K⦄ ⦃val : Value V⦄ where
  -- A search in a well-formed tree with a node and with fewer than `2 ^ k` bindings: from the root the
  -- descent of `search_by`, which visits one node in each round, returns within `2 * k` rounds, with
  -- the result of `search`.
  pub search_loop-quick :
      {s : Guard K V} (key : K) (l : Shape K V) (c : Cell K V) (r : Shape K V) (k : ℕ)
      → IsTree s (fork l c r)
      → length (contents (fork l c r)) < 2 ^ k
      → (found : SearchResult NodeIndex) × (search_loop
            (λ n. o.cmp n.key key)
            (k + k)
            s.meta.root
            none
            false
            s
          ≡ done found)
        × (search s.meta.root key s ≡ done found)
  search_loop-quick {s} key l c r k h few =
      let most = pow-black_height (fork l c r) h in
      let low : s.meta.black_height < suc k = pow_lt s.meta.black_height (suc k) (omega arith) in
      (
        descend key (fork l c r) empty,
        ap (λ x. search_loop (λ n. o.cmp n.key key) (k + k) x none false s) h.focus.rooted
            ∙ search_loop-root s key (k + k) l c r h.focus.inside h.balanced h.dark
                (omega (arith, h.black_height)),
        searched key (fork l c r) h,
      )
