-- ===== src/Arena/FreeList.antt =====
-- The free list of src/arena/mod.rs: that `insert` and `remove` keep it, and what they return.
use rb_forest.Base.{
  ℕ, suc, ◌+◌, ◌≤◌, ◌≡◌, refl, inl, inr, Bool, true, false, ◌==◌, ◌||◌, none, some, List, [], ◌∷◌,
  ◌++◌, if◌then◌else◌, length, get_elem?, set, get_elem?-set, get_elem?-push, get_elem?_ge,
  length-set, set-set, length-append, arith, Bool-cases, Option-cases, Outcome, done,
}
use rb_forest.Arena.{
  Arena, Entry, occupied, free, Index, Ref, Growth, new, get, put, remove, insert, is_full, reserve,
  insert_within_capacity,
}

abbrev pub has : Index → List Index → Bool
has i [] = false
has i (j ∷ js) = (i == j) || has i js

-- From `head` the vacant slots `order`, all different, lead to the end of the list.
pub data Chain {T : Type 0} (items : List (Entry T)) : Ref → List Index → Type 0 where
  end : Chain items none []
  link :
      {i : Index} {rest : Ref} {order : List Index}
      → get_elem? items i ≡ some (free rest)
      → has i order ≡ false
      → Chain items rest order
      → Chain items (some i) (i ∷ order)

-- The free list holds each vacant slot once, and the vector is within its capacity.
pub record IsValid {T : Type 0} (a : Arena T) : Type 0 where
  pub order : List Index
  pub chain : Chain a.items a.head order
  pub complete : (i : Index) (r : Ref) → get_elem? a.items i ≡ some (free r) → has i order ≡ true
  pub room : length a.items ≤ a.capacity

module _ {T : Type 0} where
  pub frame :
      {items items' : List (Entry T)} {r : Ref} {order : List Index}
      → Chain items r order
      → ((j : Index) → has j order ≡ true → get_elem? items' j ≡ get_elem? items j)
      → Chain items' r order
  frame end same = end
  frame (link {i} e out c) same =
      link (ground (arith, same i)) out (frame c λ j h. same j (ground arith))

  -- An occupied slot is not in the free list.
  pub Chain-occupied :
      {items : List (Entry T)} {r : Ref} {order : List Index} (i : Index) {v : T}
      → Chain items r order
      → get_elem? items i ≡ some (occupied v)
      → has i order ≡ false
  Chain-occupied i end e = refl
  Chain-occupied i (link e' out c) e = ground (arith, Chain-occupied i c e)

  pub new-IsValid : IsValid (new {T = T})
  unfolding new
  new-IsValid = record {
    order = [];
    chain = end;
    complete = λ i r e. absurd (cc);
    room = omega arith;
  }

  -- What `insert` does: it takes a slot that held nothing, and no other slot reads differently.
  pub record Inserted (a : Arena T) (v : T) (r : Outcome (Index × Arena T)) : Type 0 where
    pub index : Index
    pub arena : Arena T
    pub returns : r ≡ done (index, arena)
    pub fresh : get a index ≡ none
    pub reads : (j : Index) → get arena j ≡ (if j == index then some v else get a j)
    pub valid : IsValid arena

  abbrev arena : List (Entry T) → ℕ → Ref → ℕ → Arena T
  arena items size head len = record { items = items; capacity = size; head = head; len = len }

  abbrev IsComplete : List (Entry T) → List Index → Type 0
  IsComplete items order =
      (i : Index) (r : Ref) → get_elem? items i ≡ some (free r) → has i order ≡ true

  insert_parts :
      (g : Growth) (v : T) {items : List (Entry T)} (size : ℕ) {head : Ref} (len : ℕ)
      {order : List Index}
      → Chain items head order
      → IsComplete items order
      → length items ≤ size
      → Inserted (arena items size head len) v (insert g (arena items size head len) v)
  unfolding get insert insert_within_capacity is_full reserve
  insert_parts g v {items} size len end complete room = elim (Bool-cases (length items == size)) [
    | inl full ↦
        let more = g.grow-le size (length items) in
        pushed (g.grow size (length items)) more (ground arith)
    | inr spare ↦ pushed size (ground arith) (ground arith)
  ]
    where
      pushed :
          (size' : ℕ)
          → suc (length items) ≤ size'
          → insert g (arena items size none len) v
            ≡ done (length items, arena (items ++ occupied v ∷ []) size' none (len + 1))
          → Inserted (arena items size none len) v (insert g (arena items size none len) v)
      pushed size' fits returns = record {
        index = length items;
        arena = arena (items ++ occupied v ∷ []) size' none (len + 1);
        returns = returns;
        fresh = ground (arith, get_elem?_ge items (length items));
        reads = λ j. ground (arith, get_elem?-push items (occupied v) j);
        valid = record {
          order = [];
          chain = end;
          complete = λ j r h. ground (arith, get_elem?-push items (occupied v) j, complete j r);
          room = omega (arith, length-append {0} items (occupied v ∷ []));
        };
      }
  insert_parts g v {items} size len (link {i} {rest} {order} e out c) complete room = record {
    index = i;
    arena = arena (set items i (occupied v)) size rest (len + 1);
    returns = ground arith;
    fresh = ground arith;
    reads = λ j. ground (arith, get_elem?-set items i j (occupied v), get_elem?_ge items i);
    valid = record {
      order = order;
      chain = frame c λ j h. ground (arith, get_elem?-set items i j (occupied v));
      complete = λ j r h. ground (arith, get_elem?-set items i j (occupied v), complete j r);
      room = omega (arith, length-set {0} items i (occupied v));
    };
  }

  -- On a valid arena `insert` neither panics nor is undefined, whatever the growth of the vector:
  -- it returns a slot that held nothing, the slot reads as the value, every other slot reads as
  -- before, and the arena stays valid.
  pub insert-Inserted : (g : Growth) (a : Arena T) (v : T) → IsValid a → Inserted a v (insert g a v)
  insert-Inserted g a v h = insert_parts g v a.capacity a.len h.chain h.complete h.room

  -- `remove` keeps a valid arena valid, at any index.
  pub remove-IsValid : (a : Arena T) (i : Index) → IsValid a → IsValid (remove a i).1
  unfolding remove
  remove-IsValid a i h = elim (Option-cases (get_elem? a.items i)) [
    | inl beyond ↦ rw (beyond, remove) h
    | inr (free r, e) ↦ rw (e, remove) h
    | inr (occupied v, e) ↦
        rw (e, remove)
          (let apart : has i h.order ≡ false = Chain-occupied i h.chain e in
            record {
              order = i ∷ h.order;
              chain =
                  link
                    (ground
                      (arith, get_elem?-set a.items i i (free a.head), get_elem?_ge a.items i))
                    apart
                    (frame h.chain λ j m. ground (arith, get_elem?-set a.items i j (free a.head)));
              complete =
                  λ j r m. ground (arith, get_elem?-set a.items i j (free a.head), h.complete j r);
              room = omega (arith, length-set {0} a.items i (free a.head), h.room);
            })
  ]

  -- Removing the value of an occupied slot and inserting another takes the same slot and does not
  -- fail, and is one write of that slot; but the count `len` has grown by one, though the number of
  -- values is the same.
  pub insert-remove :
      (g : Growth) (a : Arena T) (i : Index) (v w : T)
      → get a i ≡ some v
      → insert g (remove a i).1 w ≡ done (i, record (put a i w) { len = a.len + 1 })
  unfolding get put insert remove insert_within_capacity is_full reserve
  insert-remove g a i v w e = ground (
    arith,
    get_elem?-set a.items i i (free a.head),
    get_elem?_ge a.items i,
    set-set a.items i (free a.head) (occupied w),
  )
