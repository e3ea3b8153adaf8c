-- ===== src/Order.antt =====
-- The bound `K: Ord` of lib.rs and tree/mod.rs: the comparison of keys, and what the standard
-- library documents of it. Keys that compare equal are taken to be equal.
use Prim.Native.Nat.{compare, Ordering}
use Prim.Native.Nat.Ordering.{lt, eq, gt}
use rb_forest.Base.{ℕ, ◌≡◌, arith, Bool, true, false}

-- `Ordering::reverse`
abbrev pub reverse : Ordering → Ordering
reverse gt = lt
reverse eq = eq
reverse lt = gt

-- `Ordering::is_lt`
abbrev pub is_lt : Ordering → Bool
is_lt lt = true
is_lt _ = false

-- `Ordering::is_eq`, and `==` of keys
abbrev pub is_eq : Ordering → Bool
is_eq eq = true
is_eq _ = false

pub record Ord {ℓ} (K : Type ℓ) : Type ℓ where
  pub cmp : K → K → Ordering
  pub reverse-cmp : (a b : K) → reverse (cmp a b) ≡ cmp b a
  pub same_key : (a b : K) → cmp a b ≡ eq → a ≡ b
  pub between : (a b c : K) → cmp a b ≡ lt → cmp b c ≡ lt → cmp a c ≡ lt

compare-reverse : (a b : ℕ) → reverse (compare a b) ≡ compare b a
compare-reverse a b = ground arith

eq_of_compare : (a b : ℕ) → compare a b ≡ eq → a ≡ b
eq_of_compare a b e = ground arith

compare_trans : (a b c : ℕ) → compare a b ≡ lt → compare b c ≡ lt → compare a c ≡ lt
compare_trans a b c e f = ground arith

instance unfoldable pub nat_ord : Ord ℕ
unfolding compare-reverse eq_of_compare compare_trans
nat_ord = record {
  cmp = compare;
  reverse-cmp = compare-reverse;
  same_key = eq_of_compare;
  between = compare_trans;
}
