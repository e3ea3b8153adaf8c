-- ===== src/Dictionary/Fill.antt =====
-- A sequence of calls of `insert` of src/tree/interface.rs on a new tree of a new forest.
use rb_forest.Base.{
  ℕ, zero, suc, ◌+◌, ◌^◌, ◌≤◌, ◌<◌, ◌≡◌, refl, List, [], ◌∷◌, length, length-append, map, Outcome,
  done, arith, ap, sym, subst, ◌∙◌, inl, inr, ◌⊎◌,
}
use rb_forest.Order.{Ord}
use rb_forest.Arena.{Growth, new}
use rb_forest.Arena.FreeList.{IsValid, new-IsValid}
use rb_forest.Node.{Value}
use rb_forest.Guard.{Guard, Cmd, pure, ◌>>=◌, default_bounds, Bounds}
use rb_forest.Guard.Valid.{IsValidAfter}
use rb_forest.Interface.{insert}
use rb_forest.Shape.{Shape, leaf, fork}
use rb_forest.Shape.Balance.{height, IsBalanced, weight, color_weight_le}
use rb_forest.Shape.Entries.{Entry, entry, entries}
use rb_forest.Lookup.{Ordering-cases}
use rb_forest.Dictionary.{IsTree, contents, put, binding}
use rb_forest.Dictionary.Insert.{insert-Stored}
use rb_forest.Dictionary.Insert.Valid.{insert-IsValidAfter}

pub pow_mono : (a b : ℕ) → a ≤ b → 2 ^ a ≤ 2 ^ b
pow_mono a zero le = let e : a ≡ 0 = omega arith in rw e (omega arith)
pow_mono zero (suc b) le = let r = pow_mono zero b (omega arith) in omega arith
pow_mono (suc a) (suc b) le = let r = pow_mono a b (omega arith) in omega arith

at_most : (a b : ℕ) → (a ≤ b) ⊎ (b < a)
at_most zero b = inl (omega arith)
at_most (suc a) zero = inr (omega arith)
at_most (suc a) (suc b) = elim (at_most a b) [
  | inl le ↦ inl (omega arith)
  | inr more ↦ inr (omega arith)
]

pub pow_lt : (a b : ℕ) → 2 ^ a < 2 ^ b → a < b
pow_lt a b less = elim (at_most b a) [
  | inl le ↦ let r = pow_mono b a le in absurd (omega arith)
  | inr more ↦ more
]

module _ {K V : Type 0} ⦃val : Value V⦄ where
  -- A balanced tree is not high.
  pow-height : (t : Shape K V) → IsBalanced t → 2 ^ height t ≤ length (entries t) + 1
  pow-height leaf b = omega arith
  pow-height (fork l c r) b =
      let low = pow-height l b.3 in
      let high = pow-height r b.4 in
      let same : 2 ^ height r ≡ 2 ^ height l = ap (λ n. 2 ^ n) (sym b.0) in
      let both = length-append {0} (entries l) (entry c ∷ entries r) in
      let step =
        pow_mono (weight c + height l) (suc (height l)) (omega (arith, color_weight_le c.color)) in
      omega arith

module _ {K L : Type 0} ⦃o : Ord K⦄ where
  pub length-put : (key : K) (l : L) (bs : List (K × L)) → length (put key l bs) ≤ suc (length bs)
  length-put key l [] = omega arith
  length-put key l (b ∷ bs) = elim (Ordering-cases (o.cmp b.0 key)) [
    | inl e ↦ rw e (let r = length-put key l bs in omega arith)
    | inr (inl e) ↦ rw e (omega arith)
    | inr (inr e) ↦ rw e (omega arith)
  ]

  -- Bindings put into a list one after the other.
  abbrev pub put_all : List (K × L) → List (K × L) → List (K × L)
  put_all [] bs = bs
  put_all (x ∷ xs) bs = put_all xs (put x.0 x.1 bs)

  pub length-map-binding : (es : List (Entry K L)) → length (map binding es) ≡ length es
  length-map-binding [] = refl
  length-map-binding (e ∷ es) = ap suc (length-map-binding es)

module _ {K V : Type 0} ⦃o : Ord K⦄ ⦃val : Value V⦄ where
  -- The black height that is recorded for a tree is at most the binary logarithm of the number of its
  -- nodes and one more.
  pub pow-black_height :
      {s : Guard K V} (t : Shape K V)
      → IsTree s t
      → 2 ^ s.meta.black_height ≤ length (contents t) + 1
  pow-black_height {s} t h =
      let low = pow-height t h.balanced in
      let same = ap (λ n. 2 ^ n) h.black_height in
      let counted = length-map-binding (entries t) in omega arith

  -- The calls in a row.
  abbrev pub insert_all : Growth → List (K × val.Local) → Cmd K V (Unit {0})
  insert_all g [] = pure tt
  insert_all g (x ∷ xs) = insert g x.0 x.1 >>= λ _. insert_all g xs

  -- A well-formed tree with the given contents, in a valid arena.
  pub record Filled (bs : List (K × val.Local)) (r : Outcome (Unit {0} × Guard K V)) : Type 0 where
    pub after : Guard K V
    pub tree : Shape K V
    pub returns : r ≡ done (tt, after)
    pub is_tree : IsTree after tree
    pub is_valid : IsValid after.arena
    pub filled : contents tree ≡ bs

  insert_more-Filled :
      (g : Growth) (k : ℕ) (xs : List (K × val.Local)) {s : Guard K V} (t : Shape K V)
      → IsTree s t
      → IsValid s.arena
      → k ≤ 255
      → length (contents t) + length xs < 2 ^ k
      → Filled
          (put_all (map (λ x. (x.0, val.into (val.new x.1))) xs) (contents t))
          (insert_all g xs s)
  insert_more-Filled g k [] {s} t h valid few fits = record {
    after = s;
    tree = t;
    returns = refl;
    is_tree = h;
    is_valid = valid;
    filled = refl;
  }
  insert_more-Filled g k (x ∷ xs) {s} t h valid few fits =
      let high = pow-black_height t h in
      let small = pow_lt s.meta.black_height k (omega arith) in
      let w = insert-Stored g x.0 x.1 t h valid (omega arith) in
      let still = subst IsValidAfter w.returns (insert-IsValidAfter g x.0 x.1 s valid) in
      let more = length-put x.0 (val.into (val.new x.1)) (contents t) in
      let size = ap (λ bs. length bs) w.stored in
      let rest = insert_more-Filled g k xs w.tree w.is_tree still few (omega arith) in
      record {
        after = rest.after;
        tree = rest.tree;
        returns = rw (w.returns) rest.returns;
        is_tree = rest.is_tree;
        is_valid = rest.is_valid;
        filled = rest.filled ∙ ap (put_all (map (λ x. (x.0, val.into (val.new x.1))) xs)) w.stored;
      }

  pub empty-IsTree : (s : Guard K V) → s.meta ≡ default_bounds → IsTree s leaf
  empty-IsTree s e = record {
    focus = record {
      inside = tt;
      above = tt;
      distinct = λ p. omega arith;
      rooted = ap (λ (m : Bounds). m.root) e;
    };
    balanced = tt;
    dark = refl;
    black_height = ap (λ (m : Bounds). m.black_height) e;
    sorted = tt;
    threaded = tt;
    range = ap (λ (m : Bounds). m.range) e;
  }

  -- Any sequence of calls of `insert` on a new tree of a new forest, fewer than `2 ^ k` with `k` at most
  -- 255: no call fails or runs out of rounds, and they leave a well-formed red-black tree in a valid
  -- arena, whose contents are the bindings put into the empty sorted map one after the other.
  pub insert_all-Filled :
      (g : Growth) (k : ℕ) (xs : List (K × val.Local))
      → k ≤ 255
      → length xs < 2 ^ k
      → Filled
          (put_all (map (λ x. (x.0, val.into (val.new x.1))) xs) [])
          (insert_all g xs (record { arena = new; meta = default_bounds }))
  insert_all-Filled g k xs few fits =
      insert_more-Filled g k xs leaf (empty-IsTree _ refl) new-IsValid few (omega (arith, fits))
