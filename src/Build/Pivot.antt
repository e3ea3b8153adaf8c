-- ===== src/Build/Pivot.antt =====
-- `build_tree` of src/tree/iter.rs at a pivot, from what it makes of the parts on both sides.
use rb_forest.Base.{
  ℕ, suc, ◌+◌, ◌/◌, ◌≤◌, ◌≡◌, refl, Bool, true, false, none, some, List, [], ◌∷◌, ◌++◌, map, pair,
  if◌then◌else◌, Outcome, done, arith, ap, sym, subst, ◌∙◌,
}
use mathlib.Core.List.{map-append}
use rb_forest.Arena.{Growth}
use rb_forest.Arena.FreeList.{IsValid}
use rb_forest.Node.{
  NodeIndex, NodeRef, Node, Color, red, black, not_color, color_weight, new_node, Value,
}
use rb_forest.Guard.{Guard, Cmd, alloc_insert}
use rb_forest.Shape.{Cell, Shape}
use rb_forest.Shape.Entries.{Entry, entry, entries}
use rb_forest.Sequence.{first_or, last_or, splice, IsThreaded, first_or-splice, last_or-splice}
use rb_forest.Sequence.Rewire.{splice_between}
use rb_forest.Dictionary.{binding}
use rb_forest.Build.{Built, built, link_node, build_node}
use rb_forest.Build.Link.{Linked, link_node-Linked}
use rb_forest.Build.Raise.{Allotted, allotted, alloc_insert-Allotted, stored, Raised}
use rb_forest.Build.Apart.{kept_below, distinct_below, lower-Holds, fresh_below, same_below}

abbrev pub is_empty {ℓ} : {A : Type ℓ} → List A → Bool
is_empty [] = true
is_empty (x ∷ xs) = false

module _ {K L : Type 0} where
  binding-splice :
      (es : List (Entry K L)) (e : Entry K L) (fs : List (Entry K L))
      → map binding (splice es e fs) ≡ map binding es ++ binding e ∷ map binding fs
  binding-splice [] e [] = refl
  binding-splice [] e (f ∷ fs) = refl
  binding-splice (x ∷ []) e fs = ap (λ bs. binding x ∷ bs) (binding-splice [] e fs)
  binding-splice (x ∷ y ∷ es) e fs = ap (λ bs. binding x ∷ bs) (binding-splice (y ∷ es) e fs)

  -- Which end of a part is one of the whole.
  first_if :
      (i : NodeIndex) (es : List (Entry K L))
      → (if is_empty (map binding es) then some i else first_or none es) ≡ first_or (some i) es
  first_if i [] = refl
  first_if i (x ∷ es) = refl

  last_if :
      (i : NodeIndex) (es : List (Entry K L))
      → (if is_empty (map binding es) then some i else last_or none es) ≡ last_or (some i) es
  last_if i [] = refl
  last_if i (x ∷ es) = refl

is_empty-map : {A B : Type 0} (f : A → B) (xs : List A) → is_empty (map f xs) ≡ is_empty xs
is_empty-map f [] = refl
is_empty-map f (x ∷ xs) = refl

empty-bindings :
    {K L A : Type 0} (f : A → K × L) (xs : List A) (es : List (Entry K L))
    → map binding es ≡ map f xs
    → is_empty xs ≡ is_empty (map binding es)
empty-bindings f xs es e = sym (is_empty-map f xs) ∙ ap is_empty (sym e)

not_color_weight : (c : Color) → 1 ≤ color_weight c + color_weight (not_color c)
not_color_weight red = omega arith
not_color_weight black = omega arith

module _ {K V : Type 0} ⦃val : Value V⦄ where
  -- The cell of the new node once it is linked.
  abbrev cell_between : NodeIndex → K × val.Local → Color → Shape K V → Shape K V → Cell K V
  cell_between i item c l u = record {
    here = i;
    key = item.0;
    value = val.new item.1;
    color = c;
    order = pair (last_or none (entries l)) (first_or none (entries u));
  }

  build_node_steps :
      (g : Growth) (lower upper : NodeRef → Color → Cmd K V Built) (item : K × val.Local)
      (is_first is_last : Bool) (parent : NodeRef) (c : Color) (s : Guard K V) {i : NodeIndex}
      {l u : Built} {s1 s2 s3 s4 : Guard K V}
      → alloc_insert g (record (new_node item.0 (val.new item.1) c) { parent = parent }) s
        ≡ done (i, s1)
      → lower (some i) (not_color c) s1 ≡ done (l, s2)
      → upper (some i) (not_color c) s2 ≡ done (u, s3)
      → link_node i l u s3 ≡ done (tt, s4)
      → build_node g lower upper item is_first is_last parent c s
        ≡ done (
          built
              (if is_first then some i else l.lowest)
              (some i)
              (if is_last then some i else u.highest),
          s4,
        )
  unfolding build_node
  build_node_steps g lower upper item is_first is_last parent c s e1 e2 e3 e4 =
      rw (e1, e2, e3, e4) refl

  joined :
      {s : Guard K V} {n : Node K V} (d : ℕ) (c : Color) (parent : NodeRef) (item : K × val.Local)
      (xs ys : List (K × val.Local)) {oa : Outcome (NodeIndex × Guard K V)}
      {ol ou : Outcome (Built × Guard K V)} {ok : Outcome (Unit {0} × Guard K V)}
      {o : Outcome (Built × Guard K V)} (is_first is_last : Bool) (a : Allotted s n oa)
      (l : Raised d (not_color c) a.after (some a.index) xs ol)
      (u : Raised d (not_color c) l.after (some a.index) ys ou)
      (k : Linked u.after parent l.tree (cell_between a.index item c l.tree u.tree) u.tree ok)
      → o
        ≡ done (
          built
              (if is_first then some a.index else first_or none (entries l.tree))
              (some a.index)
              (if is_last then some a.index else last_or none (entries u.tree)),
          k.after,
        )
      → is_first ≡ is_empty xs
      → is_last ≡ is_empty ys
      → color_weight c + d / 2 ≡ suc d / 2
      → Raised (suc d) c s parent (xs ++ item ∷ ys) o
  joined d c parent item xs ys is_first is_last a l u k returns ef el weights =
      let e = entry (cell_between a.index item c l.tree u.tree) in
      let dark = not_color_weight c in
      let low : (if is_first then some a.index else first_or none (entries l.tree))
          ≡ first_or none (entries k.tree) =
        ap (λ b. if b then some a.index else first_or none (entries l.tree))
          (ef ∙ empty-bindings (λ b. (b.0, val.into (val.new b.1))) xs (entries l.tree) l.bindings)
        ∙ first_if a.index (entries l.tree)
        ∙ sym (first_or-splice none (entries l.tree) e (entries u.tree))
        ∙ ap (first_or none) (sym k.entries_are) in
      let high : (if is_last then some a.index else last_or none (entries u.tree))
          ≡ last_or none (entries k.tree) =
        ap (λ b. if b then some a.index else last_or none (entries u.tree))
          (el ∙ empty-bindings (λ b. (b.0, val.into (val.new b.1))) ys (entries u.tree) u.bindings)
        ∙ last_if a.index (entries u.tree)
        ∙ sym (last_or-splice none (entries l.tree) e (entries u.tree))
        ∙ ap (last_or none) (sym k.entries_are) in
      record {
        after = k.after;
        tree = k.tree;
        returns = returns ∙ (λ j. done (built (low j) (sym k.root_kept j) (high j), k.after));
        holds = k.holds;
        valid = k.valid;
        meta_kept = k.meta_kept ∙ u.meta_kept ∙ l.meta_kept ∙ a.meta_kept;
        distinct = λ q. omega (arith, k.count_kept q, distinct_below a l u q);
        fresh = λ q m e. k.count_kept q ∙ fresh_below a l u q m e;
        reads_out = λ q out.
            let out' = sym (k.count_kept q) ∙ out in k.reads_out q out' ∙ same_below a l u q out';
        bindings =
            ap (map binding) k.entries_are
            ∙ binding-splice (entries l.tree) e (entries u.tree)
            ∙ ap (λ bs. bs ++ binding e ∷ map binding (entries u.tree)) l.bindings
            ∙ ap (λ bs. stored V xs ++ binding e ∷ bs) u.bindings
            ∙ sym (map-append (λ b. (b.0, val.into (val.new b.1))) xs (item ∷ ys));
        threaded =
            subst (λ es. IsThreaded none es none) (sym k.entries_are)
              (splice_between none none none none (entries l.tree) e (entries u.tree) l.threaded
                u.threaded refl);
        balanced = k.balanced (
          l.height_is ∙ sym u.height_is,
          omega (arith, dark, l.top_le),
          omega (arith, dark, u.top_le),
          l.balanced,
          u.balanced,
        );
        height_is = omega (arith, k.height_kept, l.height_is, weights);
        top_le = omega (arith, k.top_kept);
      }

  pub build_node-Raised :
      (g : Growth) (d : ℕ) (c : Color) (lower upper : NodeRef → Color → Cmd K V Built)
      (xs ys : List (K × val.Local)) (item : K × val.Local) (is_first is_last : Bool)
      (parent : NodeRef) (s : Guard K V)
      → IsValid s.arena
      → ((p : NodeRef) (s' : Guard K V)
          → IsValid s'.arena
          → Raised d (not_color c) s' p xs (lower p (not_color c) s'))
      → ((p : NodeRef) (s' : Guard K V)
          → IsValid s'.arena
          → Raised d (not_color c) s' p ys (upper p (not_color c) s'))
      → is_first ≡ is_empty xs
      → is_last ≡ is_empty ys
      → color_weight c + d / 2 ≡ suc d / 2
      → Raised
          (suc d)
          c
          s
          parent
          (xs ++ item ∷ ys)
          (build_node g lower upper item is_first is_last parent c s)
  unfolding new_node
  build_node-Raised g d c lower upper xs ys item is_first is_last parent s valid low high ef el
        weights =
      let n = record (new_node item.0 (val.new item.1) c) { parent = parent } in
      let a = alloc_insert-Allotted g n s valid in
      let l = low (some a.index) a.after a.valid in
      let u = high (some a.index) l.after l.valid in
      let k =
        link_node-Linked u.after parent l.tree (cell_between a.index item c l.tree u.tree) u.tree
          (first_or none (entries l.tree)) (last_or none (entries u.tree)) (pair none none)
          (pair none none) refl (kept_below a l u a.index n (allotted a)).2 (lower-Holds a l u)
          u.holds u.valid (distinct_below a l u) in
      joined d c parent item xs ys is_first is_last a l u k
        (build_node_steps g lower upper item is_first is_last parent c s a.returns l.returns
          u.returns k.returns)
        ef el weights
