-- ===== src/Base/Sides.antt =====
-- The index `I` of `[T; 2]`, a const generic of the code that is 0 or 1, and such arrays.
use mathlib.Core.Path.{◌≡◌, refl}
use mathlib.Core.Bool.{Bool, true, false}

pub data Side : Type 0 where
  left right : Side

-- `1 - I`
abbrev pub other : Side → Side
other left = right
other right = left

-- `I == J`
abbrev pub same_side : Side → Side → Bool
same_side left left = true
same_side right right = true
same_side _ _ = false

pub record Pair {ℓ} (A : Type ℓ) : Type ℓ where
  pub at0 : A
  pub at1 : A

module _ {ℓ} {A : Type ℓ} where
  abbrev pub pair : A → A → Pair A
  pair x y = record { at0 = x; at1 = y }

  -- `a[I]`
  abbrev pub at : Pair A → Side → A
  at a left = a.at0
  at a right = a.at1

  -- `a[I] = v`
  abbrev pub put_at : Pair A → Side → A → Pair A
  put_at a left v = record a { at0 = v }
  put_at a right v = record a { at1 = v }

-- The array with `x` at `I` and `y` at `1 - I`.
abbrev pub pair_at {ℓ} : {A : Type ℓ} → Side → A → A → Pair A
pair_at left x y = pair x y
pair_at right x y = pair y x

module _ {ℓ} {A : Type ℓ} where
  pub pair_at-other : (i : Side) (x y : A) → pair_at (other i) x y ≡ pair_at i y x
  pair_at-other left x y = refl
  pair_at-other right x y = refl

  pub at-pair_at : (i : Side) (x y : A) → at (pair_at i x y) i ≡ x
  at-pair_at left x y = refl
  at-pair_at right x y = refl

  pub at-pair_at-other : (i : Side) (x y : A) → at (pair_at i x y) (other i) ≡ y
  at-pair_at-other left x y = refl
  at-pair_at-other right x y = refl

  pub put_at-pair_at : (i : Side) (x y z : A) → put_at (pair_at i x y) i z ≡ pair_at i z y
  put_at-pair_at left x y z = refl
  put_at-pair_at right x y z = refl

  pub put_at-pair_at-other :
      (i : Side) (x y z : A) → put_at (pair_at i x y) (other i) z ≡ pair_at i x z
  put_at-pair_at-other left x y z = refl
  put_at-pair_at-other right x y z = refl

pub other-other : (i : Side) → other (other i) ≡ i
other-other left = refl
other-other right = refl
