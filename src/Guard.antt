-- ===== src/Guard.antt =====
-- The guards of src/arena/port.rs, as the tree uses them: the shared arena and the metadata of the
-- one port that is locked. A `Query` reads through a guard (`Reader`, `Index`, `Meta`); a `Cmd` may
-- write too (`Writer`, `IndexMut`, `MetaMut`, and `PortAllocGuard`).
pub mod Query
pub mod Laws
pub mod Valid
use rb_forest.Base.{
  ℕ, suc, Bool, true, false, Option, none, some, List, [], ◌∷◌, if◌then◌else◌, length, Outcome,
  done, panic, undefined, and_then, unwrap, Result, ok, err, Pair, pair,
}
use rb_forest.Arena.{Arena, Growth, get, put, insert, remove, get_mut_with, get_pair_mut}
use rb_forest.Node.{NodeIndex, NodeRef, Node}

-- `Bounds` of src/tree/mod.rs: the metadata of a tree's port. `black_height` is a `u8`.
pub record Bounds : Type 0 where
  pub root : NodeRef
  pub range : Pair NodeRef
  pub black_height : ℕ

-- `Bounds::default()`
abbrev pub default_bounds : Bounds
default_bounds = record { root = none; range = pair none none; black_height = 0 }

-- A port's guard: the arena, which all trees share, and the metadata of its own tree.
pub record Guard (K V : Type 0) : Type 0 where
  pub arena : Arena (Node K V)
  pub meta : Bounds

abbrev pub Query : Type 0 → Type 0 → Type 0 → Type 0
Query K V A = Guard K V → Outcome A

abbrev pub Cmd : Type 0 → Type 0 → Type 0 → Type 0
Cmd K V A = Guard K V → Outcome (A × Guard K V)

-- `Result::unwrap` on an error of the arena
abbrev pub unwrap_ok {ℓ κ} : {A : Type ℓ} {E : Type κ} → Result A E → Outcome A
unwrap_ok (ok a) = done a
unwrap_ok (err e) = panic

module _ {K V : Type 0} where
  module _ {A : Type 0} where
    abbrev pub pure : A → Cmd K V A
    pure a s = done (a, s)

    -- A value, or the panic or undefined behaviour of a call that takes no guard.
    abbrev pub outcome : Outcome A → Cmd K V A
    outcome r s = and_then r λ a. done (a, s)

    abbrev pub lift : Query K V A → Cmd K V A
    lift q s = and_then (q s) λ a. done (a, s)

  module _ {A B : Type 0} where
    infixl 5 ◌>>=◌ ◌>>◌
    abbrev pub ◌>>=◌ : Cmd K V A → (A → Cmd K V B) → Cmd K V B
    ◌>>=◌ m f s = and_then (m s) λ (a, s'). f a s'

    abbrev pub ◌>>◌ : Cmd K V A → Cmd K V B → Cmd K V B
    m >> k = m >>= λ _. k

  -- `tree[ptr]`
  unfoldable pub node_at : NodeIndex → Query K V (Node K V)
  node_at p s = unwrap (get s.arena p)

  abbrev pub node : NodeIndex → Cmd K V (Node K V)
  node p = lift (node_at p)

  -- `&mut tree[ptr]`, and what is written through it.
  unfoldable pub modify : NodeIndex → (Node K V → Node K V) → Cmd K V (Unit {0})
  modify p f s =
      and_then (unwrap (get s.arena p)) λ n. done (tt, record s { arena = put s.arena p (f n) })

  -- `discard! { tree[r?]… = … }`: nothing for `None`.
  abbrev pub modify_ref : NodeRef → (Node K V → Node K V) → Cmd K V (Unit {0})
  modify_ref none f = pure tt
  modify_ref (some p) f = modify p f

  abbrev pub meta : Cmd K V Bounds
  meta s = done (s.meta, s)

  abbrev pub modify_meta : (Bounds → Bounds) → Cmd K V (Unit {0})
  modify_meta f s = done (tt, record s { meta = f s.meta })

  abbrev pub alloc_insert : Growth → Node K V → Cmd K V NodeIndex
  alloc_insert g n s = and_then (insert g s.arena n) λ (i, a). done (i, record s { arena = a })

  abbrev pub alloc_remove : NodeIndex → Cmd K V (Option (Node K V))
  alloc_remove p s = let (n, a) = remove s.arena p in done (n, record s { arena = a })

  -- More than the number of nodes on any path of a tree: the rounds that a loop is given.
  abbrev pub rounds : Guard K V → ℕ
  rounds s = suc (length s.arena.items)
