-- ===== src/Tree/Join.antt =====
-- Joining in src/tree/mod.rs: `join_unchecked`, with the other tree's bounds as an argument.
use rb_forest.Base.{
  pair_at, ℕ, zero, suc, ◌+◌, ◌-◌, ◌%◌, ◌^◌, ◌==◌, none, some, if◌then◌else◌, out_of_fuel, unwrap,
  at, put_at, Side, other, is_some, or_else,
}
use rb_forest.Node.{NodeIndex, NodeRef, red, black, is_black, Value}
use rb_forest.Guard.{
  Bounds, Cmd, pure, outcome, ◌>>=◌, ◌>>◌, node, modify, modify_ref, meta, modify_meta, rounds,
}
use rb_forest.Tree.{replace, propagate_cumulant}
use rb_forest.Tree.Insert.{paint, fix_insert, raise_height}

-- `a - b` on `u8`
abbrev pub sub_u8 : ℕ → ℕ → ℕ
sub_u8 a b = (a + 2 ^ 8 - b) % 2 ^ 8

module _ {K V : Type 0} where
  -- Down the outer edge of the higher tree, through `diff` black nodes.
  unfoldable pub join_point : Side → ℕ → (diff : ℕ) → NodeIndex → Cmd K V NodeIndex
  join_point i zero diff index = λ _. out_of_fuel
  join_point i (suc fuel) diff index = if diff == 0 then pure index else do
    n ← node index
    next ← outcome (unwrap (or_else (at n.children (other i)) (at n.children i)))
    join_point i fuel (if is_black n then diff - 1 else diff) next

module _ {K V : Type 0} ⦃val : Value V⦄ where
  -- The helper of `join_unchecked`: the pivot takes its place above `this_child` and `that`.
  unfoldable pub join_at :
      Side → (parent this_child : NodeRef) → (pivot : NodeIndex) → Bounds → Cmd K V (Unit {0})
  join_at i parent this_child pivot that = do
    this ← meta
    modify pivot (λ m. record m {
      color = red;
      parent = parent;
      children = pair_at i this_child that.root;
      order = pair_at i (at this.range (other i)) (at that.range i);
    })
    modify_ref this_child (λ m. record m { parent = some pivot })
    modify_ref that.root (λ m. record m { parent = some pivot })
    modify_ref (at this.range (other i))
        (λ m. record m { order = put_at m.order (other i) (some pivot) })
    modify_ref (at that.range i) (λ m. record m { order = put_at m.order i (some pivot) })
    modify_meta (λ b. record b { range = put_at b.range (other i) (at that.range (other i)) })
    elim parent [
      | some p ↦ do n ← node p; if is_some n.parent then fix_insert pivot else pure tt
      | none ↦ do
        modify_meta (λ b. raise_height (record b { root = some pivot }))
        paint pivot black
    ]
    if val.has_cumulant then propagate_cumulant pivot else pure tt

  unfoldable pub join_unchecked : Side → (pivot : NodeIndex) → (that : Bounds) → Cmd K V (Unit {0})
  join_unchecked i pivot that s =
      let diff = sub_u8 s.meta.black_height that.black_height in
      (if diff == 0 then join_at i none s.meta.root pivot that else do
        root ← outcome (unwrap s.meta.root)
        index ← join_point i (rounds s) diff root
        replace index (some pivot)
        n ← node index
        join_at i n.parent (some index) pivot that)
        s
