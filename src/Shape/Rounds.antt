-- ===== src/Shape/Rounds.antt =====
-- The number of rounds that a loop up the tree is given is enough.
use rb_forest.Base.{
  ℕ, zero, suc, ◌+◌, ◌≤◌, ◌<◌, ◌≡◌, some, arith, length, List, [], ◌∷◌, get_elem?_ge, Option,
  get_elem?, none,
}
use rb_forest.Arena.{get}
use rb_forest.Node.{NodeIndex, NodeRef, Node}
use rb_forest.Guard.{Guard, rounds}
use rb_forest.Guard.Laws.{view}
use rb_forest.Shape.{
  Shape, leaf, fork, Holds, Context, top, below, root, Focus, once, count_above, HoldsAbove, count,
}
use rb_forest.Shape.Balance.{depth}

-- The sum of `f` over the numbers below `n`.
abbrev sum : (ℕ → ℕ) → ℕ → ℕ
sum f zero = 0
sum f (suc n) = f n + sum f n

sum_le : (f : ℕ → ℕ) (n : ℕ) → ((q : ℕ) → f q ≤ 1) → sum f n ≤ n
sum_le f zero le = omega arith
sum_le f (suc n) le = let h = sum_le f n le in let k = le n in omega arith

sum_add : (f g h : ℕ → ℕ) (n : ℕ) → ((q : ℕ) → f q + g q ≤ h q) → sum f n + sum g n ≤ sum h n
sum_add f g h zero le = omega arith
sum_add f g h (suc n) le = let i = sum_add f g h n le in let k = le n in omega arith

sum-once : (p n : ℕ) → p < n → 1 ≤ sum (λ q. once q p) n
sum-once p zero lt = absurd (omega arith)
sum-once p (suc n) lt = grind (arith, sum-once p n)

lt_of_get_elem? :
    {A : Type 0} (xs : List A) (i : ℕ) (x : A) → get_elem? xs i ≡ some x → i < length xs
lt_of_get_elem? [] i x e = absurd (cc)
lt_of_get_elem? (y ∷ ys) zero x e = omega arith
lt_of_get_elem? (y ∷ ys) (suc i) x e = omega (arith, lt_of_get_elem? ys i x e)

module _ {K V : Type 0} where
  depth-sum :
      (h : NodeIndex → Option (Node K V)) (n : ℕ)
      → ((q : NodeIndex) (m : Node K V) → h q ≡ some m → q < n)
      → (ctx : Context K V) (r : NodeRef) → HoldsAbove h ctx r
      → depth ctx ≤ sum (λ q. count_above q ctx) n
  depth-sum h n small top r held = omega arith
  depth-sum h n small (below i c u ctx) r held =
      let once_le = sum-once c.here n (small c.here _ held.0) in
      let rest = depth-sum h n small ctx (some c.here) held.2 in
      let both =
        sum_add (λ q. once q c.here) (λ q. count_above q ctx)
          (λ q. once q c.here + count q u + count_above q ctx) n (λ q. omega arith) in
      omega arith

  -- The number of nodes.
  abbrev pub size : Shape K V → ℕ
  size leaf = 0
  size (fork l c r) = suc (size l + size r)

  size-sum :
      (h : NodeIndex → Option (Node K V)) (n : ℕ)
      → ((q : NodeIndex) (m : Node K V) → h q ≡ some m → q < n)
      → (parent : NodeRef) (t : Shape K V) → Holds h parent t
      → size t ≤ sum (λ q. count q t) n
  size-sum h n small parent leaf held = omega arith
  size-sum h n small parent (fork l c r) held =
      let one = sum-once c.here n (small c.here _ held.0) in
      let low = size-sum h n small (some c.here) l held.1 in
      let high = size-sum h n small (some c.here) r held.2 in
      let two =
        sum_add (λ q. once q c.here) (λ q. count q l) (λ q. once q c.here + count q l) n
          (λ q. omega arith) in
      let all =
        sum_add (λ q. once q c.here + count q l) (λ q. count q r)
          (λ q. once q c.here + count q l + count q r) n (λ q. omega arith) in
      omega arith

  view_lt :
      (s : Guard K V) (p : NodeIndex) (m : Node K V) → view s p ≡ some m → p < length s.arena.items
  unfolding get
  view_lt s p m e = ground (arith, get_elem?_ge s.arena.items p)

  -- Above a focus in the guard's tree there are fewer nodes on the path up to the root than a loop is
  -- given rounds.
  pub depth-rounds :
      {s : Guard K V} (ctx : Context K V) {t : Shape K V}
      → Focus s ctx t
      → suc (depth ctx) ≤ rounds s
  depth-rounds {s} ctx {t} f =
      let le = depth-sum (view s) (length s.arena.items) (view_lt s) ctx (root t) f.above in
      let few =
        sum_le (λ q. count_above q ctx) (length s.arena.items) (λ q. omega (arith, f.distinct q)) in
      omega arith

  -- A tree of the guard has fewer nodes than a loop has rounds.
  pub size-rounds : {s : Guard K V} (t : Shape K V) → Focus s top t → suc (size t) ≤ rounds s
  size-rounds {s} t f =
      let le = size-sum (view s) (length s.arena.items) (view_lt s) none t f.inside in
      let few = sum_le (λ q. count q t) (length s.arena.items) (λ q. omega (arith, f.distinct q)) in
      omega arith
