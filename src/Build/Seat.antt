-- ===== src/Build/Seat.antt =====
-- The last steps of `from_sorted_slice_unchecked` of src/tree/iter.rs: the tree that was built becomes
-- the guard's, and its root black.
use rb_forest.Base.{
  ℕ, suc, ◌+◌, ◌/◌, ◌%◌, ◌^◌, ◌≤◌, ◌<◌, ◌≡◌, refl, none, some, pair, Outcome, done, arith, ap,
  subst, ◌∙◌, inl, inr, ◌⊎◌,
}
use rb_forest.Order.{Ord}
use rb_forest.Arena.FreeList.{IsValid}
use rb_forest.Node.{NodeIndex, Node, Color, red, black, color_weight, Value}
use rb_forest.Guard.{Guard, Bounds}
use rb_forest.Guard.Laws.{view, modify-Written, node_at-done, reads_ne, reads_self}
use rb_forest.Guard.Valid.{IsValidAfter, modify-IsValidAfter}
use rb_forest.Tree.Insert.{raise_height}
use rb_forest.Shape.{Shape, leaf, fork, root, count, Holds, Holds-frame, ne_of_once}
use rb_forest.Shape.Balance.{height, weight, IsBalanced}
use rb_forest.Shape.Entries.{entries}
use rb_forest.Sequence.{first_or, last_or, IsSorted, IsThreaded}
use rb_forest.Dictionary.{IsTree}
use rb_forest.Build.{blacken_built}

Color-cases : (c : Color) → (c ≡ red) ⊎ (c ≡ black)
Color-cases red = inl refl
Color-cases black = inr refl

module _ {K V : Type 0} ⦃val : Value V⦄ where
  -- The metadata of a tree that was just built.
  abbrev pub bounds_of : ℕ → Shape K V → Bounds
  bounds_of h t = record {
    root = root t;
    range = pair (first_or none (entries t)) (last_or none (entries t));
    black_height = (h / 2) % 2 ^ 8;
  }

  abbrev pub seated : ℕ → Shape K V → Guard K V → Guard K V
  seated h t s = record s { meta = bounds_of h t }

module _ {K V : Type 0} ⦃o : Ord K⦄ ⦃val : Value V⦄ where
  -- A tree made the guard's, with a black root.
  pub record Seated (s : Guard K V) (t : Shape K V) (r : Outcome (Unit {0} × Guard K V))
      : Type 0 where
    pub after : Guard K V
    pub tree : Shape K V
    pub returns : r ≡ done (tt, after)
    pub is_tree : IsTree after tree
    pub entries_kept : entries tree ≡ entries t
    pub valid : IsValid after.arena
    pub reads_out : (q : NodeIndex) → count q t ≡ 0 → view after q ≡ view s q

  pub blacken_built-Seated :
      (s : Guard K V) (h : ℕ) (t : Shape K V)
      → Holds (view s) none t
      → IsValid s.arena
      → ((q : NodeIndex) → count q t ≤ 1)
      → IsSorted (entries t)
      → IsThreaded none (entries t) none
      → IsBalanced t
      → height t ≡ h / 2
      → suc (h / 2) < 256
      → Seated s t (blacken_built (root t) (seated h t s))
  unfolding blacken_built
  blacken_built-Seated s h leaf held valid few sorted threaded balanced tall small = record {
    after = seated h leaf s;
    tree = leaf;
    returns = refl;
    is_tree = record {
      focus = record { inside = tt; above = tt; distinct = λ q. omega arith; rooted = refl };
      balanced = tt;
      dark = refl;
      black_height = omega (arith, tall);
      sorted = tt;
      threaded = tt;
      range = refl;
    };
    entries_kept = refl;
    valid = valid;
    reads_out = λ q out. refl;
  }
  blacken_built-Seated s h (fork l c r) held valid few sorted threaded balanced tall small =
      elim (Color-cases c.color) [
        | inl e ↦
            let s1 = seated h (fork l c r) s in
            let dye = λ (m : Node K V). record m { color = black } in
            let w = modify-Written s1 c.here dye held.0 in
            let kept = λ (q : NodeIndex) (m : 0 < count q l + count q r).
              reads_ne w q (ne_of_once q c.here (omega (arith, few q))) in
            let whole = ap raise_height w.meta_kept in
            let light : weight c ≡ 0 = ap color_weight e in
            record {
              after = record w.after { meta = raise_height w.after.meta };
              tree = fork l (record c { color = black }) r;
              returns = rw (node_at-done s1 c.here held.0, e, w.returns) refl;
              is_tree = record {
                focus = record {
                  inside = (
                    reads_self w,
                    Holds-frame (some c.here) l held.1 (λ q m. kept q (omega arith)),
                    Holds-frame (some c.here) r held.2 (λ q m. kept q (omega arith)),
                  );
                  above = tt;
                  distinct = λ q. omega (arith, few q);
                  rooted = ap (λ (b : Bounds). b.root) whole;
                };
                balanced = (balanced.0, omega arith, omega arith, balanced.3, balanced.4);
                dark = refl;
                black_height =
                    ap (λ (b : Bounds). b.black_height) whole ∙ omega (arith, light, tall, small);
                sorted = sorted;
                threaded = threaded;
                range = ap (λ (b : Bounds). b.range) whole;
              };
              entries_kept = refl;
              valid = subst IsValidAfter w.returns (modify-IsValidAfter c.here dye s1 valid);
              reads_out = λ q out. reads_ne w q (ne_of_once q c.here (omega (arith, out)));
            }
        | inr e ↦ record {
          after = seated h (fork l c r) s;
          tree = fork l c r;
          returns = rw (node_at-done (seated h (fork l c r) s) c.here held.0, e) refl;
          is_tree = record {
            focus = record {
              inside = held;
              above = tt;
              distinct = λ q. omega (arith, few q);
              rooted = refl;
            };
            balanced = balanced;
            dark = ap color_weight e;
            black_height = omega (arith, tall, small);
            sorted = sorted;
            threaded = threaded;
            range = refl;
          };
          entries_kept = refl;
          valid = valid;
          reads_out = λ q out. refl;
        }
      ]
