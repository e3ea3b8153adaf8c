-- ===== src/Dictionary/Recall.antt =====
-- `get` and `remove` of src/tree/interface.rs after `insert`, and `get` after `remove`.
use rb_forest.Base.{
  ℕ, ◌+◌, ◌^◌, ◌≤◌, ◌≡◌, ◌<◌, Bool, true, false, not, length, Option, none, some, done, ap, subst,
  ◌∙◌, arith, refl, if◌then◌else◌,
}
use rb_forest.Order.{Ord}
use rb_forest.Arena.{Growth}
use rb_forest.Arena.FreeList.{IsValid}
use rb_forest.Node.{Value}
use rb_forest.Guard.{Guard}
use rb_forest.Tree.{map_option}
use rb_forest.Interface.{insert, get, remove}
use rb_forest.Shape.{Shape}
use rb_forest.Lookup.{is_eq}
use rb_forest.Dictionary.{IsTree, contents, has_key, lookup, delete}
use rb_forest.Dictionary.Insert.{insert-Stored}
use rb_forest.Dictionary.Read.{get-lookup}
use rb_forest.Dictionary.Put.{lookup-put, lookup-delete, delete-put, is_eq_self}
use rb_forest.Guard.Valid.{IsValidAfter}
use rb_forest.Shape.Entries.{entries}
use rb_forest.Dictionary.Fill.{length-put, pow-black_height, pow_lt}
use rb_forest.Dictionary.Insert.Valid.{insert-IsValidAfter}
use rb_forest.Dictionary.Remove.Whole.{remove-Deleted}

module _ {K V : Type 0} ⦃o : Ord K⦄ ⦃val : Value V⦄ where
  -- After `insert` under the conditions of `insert-Stored`, `get` does not fail: at the inserted key it
  -- returns a value with the local data that was inserted, and at any other key what was there before.
  pub get-insert :
      {s : Guard K V} (g : Growth) (key key' : K) (local : val.Local) (t : Shape K V)
      → IsTree s t
      → IsValid s.arena
      → s.meta.black_height < 255
      → (is_new : Bool) × (after : Guard K V) × (v : Option V) × (insert g key local s
          ≡ done (is_new, after))
        × (get key' after ≡ done v)
        × (map_option val.into v ≡ (
            if is_eq (o.cmp key key')
            then some (val.into (val.new local))
            else lookup key' (contents t)))
  get-insert g key key' local t h valid small =
      let w = insert-Stored g key local t h valid small in
      let (v, found, looked) = get-lookup key' w.tree w.is_tree in
      (
        w.is_new,
        w.after,
        v,
        w.returns,
        found,
        looked
            ∙ ap (lookup key') w.stored
            ∙ lookup-put key key' (val.into (val.new local)) (contents t),
      )

  -- After `remove` under the conditions of `remove-Deleted`, `get` does not fail: at the removed key it
  -- returns none, and at any other key a value with the local data that was bound to it before, or none.
  pub get-remove :
      {s : Guard K V} (key key' : K) (t : Shape K V)
      → IsTree s t
      → IsValid s.arena
      → s.meta.black_height < 256
      → (after : Guard K V) × (v : Option V) × (remove key s
          ≡ done (lookup key (contents t), after))
        × (get key' after ≡ done v)
        × (map_option val.into v
            ≡ (if is_eq (o.cmp key key') then none else lookup key' (contents t)))
  get-remove key key' t h valid small =
      let w = remove-Deleted key t h valid small in
      let (v, found, looked) = get-lookup key' w.tree w.is_tree in
      (
        w.after,
        v,
        w.returns,
        found,
        looked ∙ ap (lookup key') w.deleted ∙ lookup-delete key key' (entries t) h.sorted,
      )

  -- `insert` of a key that is not bound in a well-formed tree of fewer than `2 ^ k` nodes less two, with `k`
  -- at most 255, in a valid arena, and then `remove` of it: neither fails, `remove` returns the local data that was inserted, and the tree is well-formed
  -- with the contents that it had before.
  pub remove-insert :
      {s : Guard K V} (g : Growth) (k : ℕ) (key : K) (local : val.Local) (t : Shape K V)
      → IsTree s t
      → IsValid s.arena
      → k ≤ 255
      → length (contents t) + 2 < 2 ^ k
      → has_key key (contents t) ≡ false
      → (between after : Guard K V) × (u : Shape K V) × (insert g key local s
          ≡ done (true, between))
        × (remove key between ≡ done (some (val.into (val.new local)), after))
        × IsTree after u
        × (contents u ≡ contents t)
  remove-insert {s} g k key local t h valid few fits out =
      let here = val.into (val.new local) in
      let high = pow-black_height t h in
      let small = pow_lt s.meta.black_height k (omega arith) in
      let w = insert-Stored g key local t h valid (omega arith) in
      let still = subst IsValidAfter w.returns (insert-IsValidAfter g key local s valid) in
      let high' = pow-black_height w.tree w.is_tree in
      let more = length-put key here (contents t) in
      let size = ap (λ bs. length bs) w.stored in
      let small' = pow_lt w.after.meta.black_height k (omega arith) in
      let r = remove-Deleted key w.tree w.is_tree still (omega arith) in
      (
        w.after,
        r.after,
        r.tree,
        w.returns ∙ ap (λ b. done (b, w.after)) (w.newness ∙ ap not out),
        r.returns
            ∙ ap (λ v. done (v, r.after))
                (ap (lookup key) w.stored
                  ∙ lookup-put key key here (contents t)
                  ∙ rw (is_eq_self key) refl),
        r.is_tree,
        r.deleted ∙ ap (delete key) w.stored ∙ delete-put key here (contents t) out,
      )
