-- ===== src/Guard/Valid.antt =====
-- Commands through the guards of src/arena/port.rs keep the arena's free list valid.
use rb_forest.Base.{
  ◌≡◌, Bool, true, false, Option, none, some, Outcome, done, panic, undefined, out_of_fuel,
  and_then, if◌then◌else◌, arith, Option-cases, inl, inr, get_elem?, get_elem?-set, length-set,
}
use rb_forest.Arena.{Arena, Index, occupied, free, get, put}
use rb_forest.Arena.FreeList.{IsValid, has, frame, Chain-occupied}
use rb_forest.Node.{NodeIndex, NodeRef, Node}
use rb_forest.Guard.{Guard, modify, modify_ref}

module _ {T : Type 0} where
  pub put-IsValid : (a : Arena T) (i : Index) (v : T) → IsValid a → IsValid (put a i v)
  unfolding put get
  put-IsValid a i v h = elim (Option-cases (get_elem? a.items i)) [
    | inl beyond ↦ rw (beyond, put) h
    | inr (free r, e) ↦ rw (e, put) h
    | inr (occupied w, e) ↦
        let apart : has i h.order ≡ false = Chain-occupied i h.chain e in
        rw (e, put)
          record {
            order = h.order;
            chain = frame h.chain λ j m. ground (arith, get_elem?-set a.items i j (occupied v));
            complete =
                λ j r m. ground (arith, get_elem?-set a.items i j (occupied v), h.complete j r);
            room = omega (arith, length-set {0} a.items i (occupied v), h.room);
          }
  ]

module _ {K V : Type 0} where
  -- If the call returns, the arena is valid.
  abbrev pub IsValidAfter : {A : Type 0} → Outcome (A × Guard K V) → Type 0
  IsValidAfter (done (x, s)) = IsValid s.arena
  IsValidAfter panic = Unit
  IsValidAfter undefined = Unit
  IsValidAfter out_of_fuel = Unit

  pub and_then-IsValidAfter :
      {A B : Type 0} (o : Outcome (A × Guard K V)) (f : A × Guard K V → Outcome (B × Guard K V))
      → IsValidAfter o
      → ((x : A) (s : Guard K V) → IsValid s.arena → IsValidAfter (f (x, s)))
      → IsValidAfter (and_then o f)
  and_then-IsValidAfter (done (x, s)) f h k = k x s h
  and_then-IsValidAfter panic f h k = tt
  and_then-IsValidAfter undefined f h k = tt
  and_then-IsValidAfter out_of_fuel f h k = tt

  -- A call that only reads.
  pub reads-IsValidAfter :
      {A B : Type 0} (s : Guard K V) (o : Outcome A) (f : A × Guard K V → Outcome (B × Guard K V))
      → ((x : A) → IsValidAfter (f (x, s)))
      → IsValidAfter (and_then (and_then o λ x. done (x, s)) f)
  reads-IsValidAfter s (done x) f k = k x
  reads-IsValidAfter s panic f k = tt
  reads-IsValidAfter s undefined f k = tt
  reads-IsValidAfter s out_of_fuel f k = tt

  pub modify-IsValidAfter :
      (p : NodeIndex) (f : Node K V → Node K V) (s : Guard K V)
      → IsValid s.arena
      → IsValidAfter (modify p f s)
  unfolding modify
  modify-IsValidAfter p f s h = elim (Option-cases (get s.arena p)) [
    | inl e ↦ rw (e, modify) tt
    | inr (n, e) ↦ rw (e, modify) (put-IsValid s.arena p (f n) h)
  ]

  pub modify_ref-IsValidAfter :
      (r : NodeRef) (f : Node K V → Node K V) (s : Guard K V)
      → IsValid s.arena
      → IsValidAfter (modify_ref r f s)
  modify_ref-IsValidAfter none f s h = h
  modify_ref-IsValidAfter (some p) f s h = modify-IsValidAfter p f s h

  pub if-IsValidAfter :
      {A : Type 0} (b : Bool) (c d : Guard K V → Outcome (A × Guard K V)) (s : Guard K V)
      → IsValidAfter (c s)
      → IsValidAfter (d s)
      → IsValidAfter ((if b then c else d) s)
  if-IsValidAfter true c d s x y = x
  if-IsValidAfter false c d s x y = y

  pub option-IsValidAfter :
      {A T : Type 0} (r : Option T) (c : Guard K V → Outcome (A × Guard K V))
      (d : T → Guard K V → Outcome (A × Guard K V)) (s : Guard K V)
      → IsValidAfter (c s)
      → ((x : T) → IsValidAfter (d x s))
      → IsValidAfter
          ((elim r as (λ _. Guard K V → Outcome (A × Guard K V)) [ none ↦ c | some x ↦ d x ]) s)
  option-IsValidAfter none c d s x y = x
  option-IsValidAfter (some t) c d s x y = y t

  -- A call that takes no guard.
  pub outcome-IsValidAfter :
      {A R : Type 0} (o : Outcome R) (f : R → Outcome (A × Guard K V))
      → ((r : R) → IsValidAfter (f r))
      → IsValidAfter (and_then o f)
  outcome-IsValidAfter (done r) f k = k r
  outcome-IsValidAfter panic f k = tt
  outcome-IsValidAfter undefined f k = tt
  outcome-IsValidAfter out_of_fuel f k = tt
