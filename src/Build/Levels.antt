-- ===== src/Build/Levels.antt =====
-- The levels of the tree that `build_tree` of src/tree/iter.rs makes of a number of items, and their
-- colours.
use rb_forest.Base.{
  ℕ, zero, suc, ◌+◌, ◌*◌, ◌-◌, ◌/◌, ◌%◌, ◌≤◌, ◌<◌, ◌≡◌, ◌==◌, false, refl, if◌then◌else◌, List, [],
  ◌∷◌, ◌++◌, length, take, drop, arith, ap,
}
use rb_forest.Node.{Color, red, black, not_color, color_weight}
use rb_forest.Build.{bit_length}
use rb_forest.Build.Pivot.{is_empty}

-- The colour of the root of a tree of `d` levels: the lowest of the levels is red.
abbrev pub level_color : ℕ → Color
level_color d = if d % 2 == 0 then black else red

pub not-level_color : (d : ℕ) → not_color (level_color (suc d)) ≡ level_color d
not-level_color d = ground arith

pub weight-level_color : (d : ℕ) → color_weight (level_color (suc d)) + d / 2 ≡ suc d / 2
weight-level_color d = ground arith

-- The most items in `d` levels.
abbrev pub full : ℕ → ℕ
full zero = 0
full (suc d) = suc (2 * full d)

-- All levels above the last are full.
abbrev pub Fits : ℕ → ℕ → Type 0
Fits zero n = n ≤ 0
Fits (suc d) n = (full d ≤ n) × (n ≤ full (suc d))

pub flat_none : (d : ℕ) → Fits d 0 → d / 2 ≡ 0
flat_none zero f = refl
flat_none (suc zero) f = refl
flat_none (suc (suc d)) f = absurd (omega (arith, f.0))

pub flat_one : (d : ℕ) → Fits d 1 → color_weight (level_color d) ≡ d / 2
flat_one zero f = absurd (omega (arith, f))
flat_one (suc zero) f = refl
flat_one (suc (suc zero)) f = refl
flat_one (suc (suc (suc d))) f = absurd (omega (arith, f.0))

-- The halves on both sides of the pivot fit one level less.
pub Fits-halves :
    (d n k : ℕ) → Fits (suc d) n → 2 ≤ n → k + suc (n / 2) ≡ n → Fits d (n / 2) × Fits d k
Fits-halves zero n k f two e = absurd (omega (arith, f.1))
Fits-halves (suc d) n k f two e =
    ((omega (arith, f.0), omega (arith, f.1)), (omega (arith, f.0), omega (arith, f.1)))

bit_length-suc : (fuel n : ℕ) → bit_length (suc fuel) (suc n) ≡ suc (bit_length fuel (suc n / 2))
unfolding bit_length
bit_length-suc fuel n = let apart : (suc n == 0) ≡ false = ground arith in rw apart refl

bit_length-full :
    (fuel n : ℕ)
    → n ≤ fuel
    → (n ≤ full (bit_length fuel n)) × (full (bit_length fuel n) ≤ 2 * n - 1)
unfolding bit_length
bit_length-full zero n le = (omega arith, omega arith)
bit_length-full (suc fuel) zero le = (omega arith, omega arith)
bit_length-full (suc fuel) (suc n) le =
    let (up, down) = bit_length-full fuel (suc n / 2) (omega arith) in
    let digit = ap full (bit_length-suc fuel n) in
    (omega (arith, up, digit), omega (arith, down, digit))

-- The number of binary digits is the number of levels.
pub Fits-bit_length : (n : ℕ) → Fits (bit_length n n) n
Fits-bit_length n = go (bit_length n n) (bit_length-full n n (omega arith))
  where
    go : (d : ℕ) → (n ≤ full d) × (full d ≤ 2 * n - 1) → Fits d n
    go zero h = h.0
    go (suc d) h = (omega (arith, h.1), h.0)

module _ {A : Type 0} where
  pub is_empty-length : (xs : List A) → is_empty xs ≡ (length xs == 0)
  is_empty-length [] = refl
  is_empty-length (x ∷ xs) = ground arith

  -- A list around one of its elements.
  pub split_at :
      (k : ℕ) (xs : List A)
      → k < length xs
      → (x : A) × (drop k xs ≡ x ∷ drop (suc k) xs)
        × (take k xs ++ x ∷ drop (suc k) xs ≡ xs)
        × (length (take k xs) ≡ k)
        × (length (drop (suc k) xs) + suc k ≡ length xs)
  split_at k [] le = absurd (omega arith)
  split_at zero (x ∷ xs) le = (x, refl, refl, refl, omega arith)
  split_at (suc k) (x ∷ xs) le =
      let (y, e, f, g, h) = split_at k xs (omega arith) in
      (y, e, ap (λ zs. x ∷ zs) f, omega (arith, g), omega (arith, h))
