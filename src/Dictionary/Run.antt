-- ===== src/Dictionary/Run.antt =====
-- A sequence of calls of `insert` and `remove` of src/tree/interface.rs on a new tree of a new forest.
use rb_forest.Base.{
  ℕ, ◌+◌, ◌^◌, ◌≤◌, ◌<◌, ◌≡◌, refl, Bool, not, Option, List, [], ◌∷◌, length, Outcome, done, arith,
  ap, subst, ◌∙◌, inl, inr,
}
use rb_forest.Order.{Ord}
use rb_forest.Arena.{Growth, new}
use rb_forest.Arena.FreeList.{IsValid, new-IsValid}
use rb_forest.Node.{Value}
use rb_forest.Guard.{Guard, Cmd, pure, ◌>>=◌, default_bounds}
use rb_forest.Guard.Valid.{IsValidAfter}
use rb_forest.Interface.{insert, remove}
use rb_forest.Shape.{Shape, leaf}
use rb_forest.Lookup.{Ordering-cases}
use rb_forest.Dictionary.{IsTree, contents, put, delete, has_key, lookup}
use rb_forest.Dictionary.Insert.{insert-Stored}
use rb_forest.Dictionary.Insert.Valid.{insert-IsValidAfter}
use rb_forest.Dictionary.Remove.Whole.{remove-Deleted}
use rb_forest.Dictionary.Fill.{length-put, pow-black_height, pow_lt, empty-IsTree}

-- A call with its arguments, and what it returns.
pub data Call (K L : Type 0) : Type 0 where
  inserting : K → L → Call K L
  removing : K → Call K L

pub data Answer (L : Type 0) : Type 0 where
  is_new : Bool → Answer L
  taken : Option L → Answer L

module _ {K L : Type 0} ⦃o : Ord K⦄ where
  -- The calls on a sorted map, where `make` is what becomes of the inserted data.
  abbrev pub answer : Call K L → List (K × L) → Answer L
  answer (inserting key l) bs = is_new (not (has_key key bs))
  answer (removing key) bs = taken (lookup key bs)

  abbrev pub next : (L → L) → Call K L → List (K × L) → List (K × L)
  next make (inserting key l) bs = put key (make l) bs
  next make (removing key) bs = delete key bs

  abbrev pub answers : (L → L) → List (Call K L) → List (K × L) → List (Answer L)
  answers make [] bs = []
  answers make (c ∷ cs) bs = answer c bs ∷ answers make cs (next make c bs)

  abbrev pub final : (L → L) → List (Call K L) → List (K × L) → List (K × L)
  final make [] bs = bs
  final make (c ∷ cs) bs = final make cs (next make c bs)

  length-delete : (key : K) (bs : List (K × L)) → length (delete key bs) ≤ length bs
  length-delete key [] = omega arith
  length-delete key (b ∷ bs) = elim (Ordering-cases (o.cmp b.0 key)) [
    | inl e ↦ rw e (let r = length-delete key bs in omega arith)
    | inr (inl e) ↦ rw e (omega arith)
    | inr (inr e) ↦ rw e (let r = length-delete key bs in omega arith)
  ]

-- What becomes of inserted data.
abbrev pub made : {V : Type 0} (val : Value V) → val.Local → val.Local
made val l = val.into (val.new l)

module _ {K V : Type 0} ⦃o : Ord K⦄ ⦃val : Value V⦄ where
  abbrev pub call : Growth → Call K val.Local → Cmd K V (Answer val.Local)
  call g (inserting key l) = insert g key l >>= λ b. pure (is_new b)
  call g (removing key) = remove key >>= λ l. pure (taken l)

  abbrev pub call_all : Growth → List (Call K val.Local) → Cmd K V (List (Answer val.Local))
  call_all g [] = pure []
  call_all g (c ∷ cs) = do a ← call g c; rest ← call_all g cs; pure (a ∷ rest)

  -- A well-formed tree with the given contents, in a valid arena, and the given answers.
  pub record Ran (told : List (Answer val.Local)) (bs : List (K × val.Local))
      (r : Outcome (List (Answer val.Local) × Guard K V)) : Type 0 where
    pub after : Guard K V
    pub tree : Shape K V
    pub returns : r ≡ done (told, after)
    pub is_tree : IsTree after tree
    pub is_valid : IsValid after.arena
    pub holds : contents tree ≡ bs

  -- One call, and the rest.
  first_call :
      (g : Growth) (c : Call K val.Local) (cs : List (Call K val.Local)) (bs : List (K × val.Local))
      (s : Guard K V) {s1 : Guard K V} (u : Shape K V)
      → call g c s ≡ done (answer c bs, s1)
      → contents u ≡ next (made val) c bs
      → Ran
          (answers (made val) cs (contents u))
          (final (made val) cs (contents u))
          (call_all g cs s1)
      → Ran (answers (made val) (c ∷ cs) bs) (final (made val) (c ∷ cs) bs) (call_all g (c ∷ cs) s)
  first_call g c cs bs s u first now rest = record {
    after = rest.after;
    tree = rest.tree;
    returns =
        rw (first, rest.returns)
          (ap (λ z. done (answer c bs ∷ answers (made val) cs z, rest.after)) now);
    is_tree = rest.is_tree;
    is_valid = rest.is_valid;
    holds = rest.holds ∙ ap (final (made val) cs) now;
  }

  call_more-Ran :
      (g : Growth) (k : ℕ) (cs : List (Call K val.Local)) {s : Guard K V} (t : Shape K V)
      → IsTree s t
      → IsValid s.arena
      → k ≤ 255
      → length (contents t) + length cs < 2 ^ k
      → Ran
          (answers (made val) cs (contents t))
          (final (made val) cs (contents t))
          (call_all g cs s)
  call_more-Ran g k [] {s} t h valid few fits = record {
    after = s;
    tree = t;
    returns = refl;
    is_tree = h;
    is_valid = valid;
    holds = refl;
  }
  call_more-Ran g k (inserting key l ∷ cs) {s} t h valid few fits =
      let high = pow-black_height t h in
      let small = pow_lt s.meta.black_height k (omega arith) in
      let w = insert-Stored g key l t h valid (omega arith) in
      let still = subst IsValidAfter w.returns (insert-IsValidAfter g key l s valid) in
      let more = length-put key (made val l) (contents t) in
      let size = ap (λ bs. length bs) w.stored in
      first_call g (inserting key l) cs (contents t) s w.tree
        (rw (w.returns) (ap (λ b. done (is_new b, w.after)) w.newness)) w.stored
        (call_more-Ran g k cs w.tree w.is_tree still few (omega arith))
  call_more-Ran g k (removing key ∷ cs) {s} t h valid few fits =
      let high = pow-black_height t h in
      let small = pow_lt s.meta.black_height k (omega arith) in
      let w = remove-Deleted key t h valid (omega arith) in
      let less = length-delete key (contents t) in
      let size = ap (λ bs. length bs) w.deleted in
      first_call g (removing key) cs (contents t) s w.tree (rw (w.returns) refl) w.deleted
        (call_more-Ran g k cs w.tree w.is_tree w.valid few (omega arith))

  -- Any sequence of calls of `insert` and `remove` on a new tree of a new forest, fewer than `2 ^ k` with
  -- `k` at most 255: no call fails or runs out of rounds, each answers as it would on a sorted map
  -- that is empty at first, and they leave a well-formed red-black tree in a valid arena, whose
  -- contents are those of the map.
  pub call_all-Ran :
      (g : Growth) (k : ℕ) (cs : List (Call K val.Local))
      → k ≤ 255
      → length cs < 2 ^ k
      → Ran
          (answers (made val) cs [])
          (final (made val) cs [])
          (call_all g cs (record { arena = new; meta = default_bounds }))
  call_all-Ran g k cs few fits =
      call_more-Ran g k cs leaf (empty-IsTree _ refl) new-IsValid few (omega (arith, fits))
