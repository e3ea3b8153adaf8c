-- ===== src/Guard/Query.antt =====
-- Sequencing of reads through a guard.
use rb_forest.Base.{done, and_then}
use rb_forest.Guard.{Query}

module _ {K V A : Type 0} where
  abbrev pub pure : A → Query K V A
  pure a s = done a

module _ {K V A B : Type 0} where
  infixl 5 ◌>>=◌
  abbrev pub ◌>>=◌ : Query K V A → (A → Query K V B) → Query K V B
  ◌>>=◌ m f s = and_then (m s) λ a. f a s
