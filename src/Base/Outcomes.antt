-- ===== src/Base/Outcomes.antt =====
-- How a call ends: with a value, by a panic, by undefined behaviour (an `unwrap_unchecked` of the
-- wrong variant, a raw access out of bounds), or short of the fuel that a loop of the model takes.
use mathlib.Core.Option.{Option, none, some}

pub data Outcome {ℓ} (A : Type ℓ) : Type ℓ where
  done : A → Outcome A
  panic : Outcome A
  undefined : Outcome A
  out_of_fuel : Outcome A

abbrev pub and_then {ℓ κ} : {A : Type ℓ} {B : Type κ} → Outcome A → (A → Outcome B) → Outcome B
and_then (done a) f = f a
and_then panic f = panic
and_then undefined f = undefined
and_then out_of_fuel f = out_of_fuel

-- `Option::unwrap`
abbrev pub unwrap {ℓ} : {A : Type ℓ} → Option A → Outcome A
unwrap none = panic
unwrap (some a) = done a

-- `Option::unwrap_unchecked`
abbrev pub unwrap_unchecked {ℓ} : {A : Type ℓ} → Option A → Outcome A
unwrap_unchecked none = undefined
unwrap_unchecked (some a) = done a

pub data Result {ℓ κ} (A : Type ℓ) (E : Type κ) : Type (ℓ ⊔ κ) where
  ok : A → Result A E
  err : E → Result A E
