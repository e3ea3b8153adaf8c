-- ===== src/Arena.antt =====
-- src/arena/mod.rs and the access methods of the guards in src/arena/port.rs: a vector of slots
-- with a free list that is threaded through the unoccupied ones.
pub mod Access
pub mod FreeList
use rb_forest.Base.{
  ℕ, suc, ◌+◌, ◌≤◌, Bool, true, false, ◌==◌, Option, none, some, List, [], ◌∷◌, ◌++◌, map, leb,
  if◌then◌else◌, length, get_elem?, set, Outcome, done, undefined, and_then, unwrap, Result, ok,
  err, Pair, pair, any_points_to,
}

-- `Index(usize)`
abbrev pub Index : Type 0
Index = ℕ

abbrev pub Ref : Type 0
Ref = Option Index

pub data Error : Type 0 where
  index_alias not_occupied : Error

pub data Entry {ℓ} (T : Type ℓ) : Type ℓ where
  occupied : T → Entry T
  free : Ref → Entry T

module _ {ℓ} {T : Type ℓ} where
  abbrev pub is_occupied : Entry T → Bool
  is_occupied (occupied v) = true
  is_occupied (free r) = false

  abbrev pub value : Entry T → Option T
  value (occupied v) = some v
  value (free r) = none

  abbrev pub into_value : Entry T → Option T
  into_value (occupied v) = some v
  into_value (free r) = none

  abbrev pub into_head : Entry T → Option Ref
  into_head (occupied v) = none
  into_head (free r) = some r

-- `items` is a `Vec` of the standard library: its elements and its capacity.
pub record Arena {ℓ} (T : Type ℓ) : Type ℓ where
  pub items : List (Entry T)
  pub capacity : ℕ
  pub head : Ref
  pub len : ℕ

-- `Vec::reserve(1)`: the standard library chooses the new capacity, at least one above the length.
pub record Growth : Type 0 where
  pub grow : ℕ → ℕ → ℕ
  pub grow-le : (cap n : ℕ) → suc n ≤ grow cap n

-- `Vec::with_capacity(n)`: the standard library chooses the capacity, at least `n`.
pub record Allocation : Type 0 where
  pub allocate : ℕ → ℕ
  pub allocate-le : (n : ℕ) → n ≤ allocate n

module _ {ℓ} {T : Type ℓ} where
  unfoldable pub new : Arena T
  new = record { items = []; capacity = 0; head = none; len = 0 }

  unfoldable pub with_capacity : Allocation → ℕ → Arena T
  with_capacity v n = record { items = []; capacity = v.allocate n; head = none; len = 0 }

  -- Takes the head of the free list, or pushes if the vector has room.
  unfoldable pub insert_within_capacity : Arena T → T → Outcome (Result Index T × Arena T)
  insert_within_capacity a v = elim a.head [
    | some head ↦ and_then (unwrap (get_elem? a.items head)) λ next.
        and_then (unwrap (into_head next)) λ rest. done (
          ok head,
          record a { items = set a.items head (occupied v); head = rest; len = a.len + 1 },
        )
    | none ↦
        if length a.items == a.capacity
        then done (err v, record a { len = a.len + 1 })
        else done
            (ok (length a.items), record a { items = a.items ++ occupied v ∷ []; len = a.len + 1 })
  ]

  unfoldable pub reserve : Growth → Arena T → Arena T
  reserve g a = elim a.head [
    | some _ ↦ a
    | none ↦
        if leb (length a.items + 1) a.capacity
        then a
        else record a { capacity = g.grow a.capacity (length a.items) }
  ]

  unfoldable pub is_full : Arena T → Bool
  is_full a = elim a.head [ some _ ↦ false | none ↦ length a.items == a.capacity ]

  -- `PortAllocGuard::insert`
  unfoldable pub insert : Growth → Arena T → T → Outcome (Index × Arena T)
  insert g a v =
      and_then (insert_within_capacity (if is_full a then reserve g a else a) v)
        λ (r, a'). elim r [ ok i ↦ done (i, a') | err _ ↦ undefined ]

  unfoldable pub remove : Arena T → Index → Option T × Arena T
  remove a i = elim (get_elem? a.items i) [
    | none ↦ (none, a)
    | some entry ↦
        if is_occupied entry
        then (into_value entry, record a { items = set a.items i (free a.head); head = some i })
        else (none, a)
  ]

  unfoldable pub get : Arena T → Index → Option T
  get a i = elim (get_elem? a.items i) [ none ↦ none | some e ↦ value e ]

  unfoldable pub contains : Arena T → Index → Bool
  contains a i = elim (get_elem? a.items i) [ none ↦ false | some e ↦ is_occupied e ]

  -- What is written through the reference that `get_mut` returns. Where that is `None`, nothing is.
  unfoldable pub put : Arena T → Index → T → Arena T
  unfolding get
  put a i v = elim (get a i) [ none ↦ a | some _ ↦ record a { items = set a.items i (occupied v) } ]

  unfoldable pub get_pair_mut_unchecked : Arena T → Index → Index → Outcome (Pair (Option T))
  get_pair_mut_unchecked a i j = elim (get_elem? a.items i) [
    | none ↦ undefined
    | some e ↦ elim (get_elem? a.items j) [
      | none ↦ undefined
      | some f ↦ done (pair (value e) (value f))
    ]
  ]

  -- The two values that the references are to.
  unfoldable pub get_pair_mut : Arena T → Index → Index → Outcome (Result (Pair (Option T)) Error)
  unfolding get get_pair_mut_unchecked
  get_pair_mut a i j =
      if i == j
      then done (err index_alias)
      else if leb (length a.items) i
      then done (ok (pair none (get a j)))
      else if leb (length a.items) j
      then done (ok (pair (get a i) none))
      else and_then (get_pair_mut_unchecked a i j) λ p. done (ok p)

  -- No bounds check is made for `i`.
  unfoldable pub get_mut_with_unchecked :
      Arena T → Index → List Ref → Outcome (Option T × List (Option T))
  unfolding get
  get_mut_with_unchecked a i others = elim (get_elem? a.items i) [
    | none ↦ undefined
    | some x ↦ done (value x, map (λ r. elim r [ none ↦ none | some j ↦ get a j ]) others)
  ]

  unfoldable pub get_mut_with :
      Arena T → Index → List Ref → Outcome (Result (Option T × List (Option T)) Error)
  unfolding get_mut_with_unchecked
  get_mut_with a i others =
      if any_points_to others i
      then done (err index_alias)
      else and_then (get_mut_with_unchecked a i others) λ r. done (ok r)
