-- ===== src/Tree/Insert.antt =====
-- Insertion in src/tree/mod.rs: `insert_at` and `fix_insert`.
use rb_forest.Base.{
  ℕ, zero, suc, ◌+◌, ◌%◌, ◌^◌, Bool, false, none, some, if◌then◌else◌, out_of_fuel, unwrap, pair,
  at, put_at, Side, left, right, other, same_side, points_to, ref_eq, is_some,
}
use rb_forest.Node.{NodeIndex, NodeRef, Node, Color, red, black, is_black, is_red, Value}
use rb_forest.Guard.{
  Bounds, Cmd, pure, outcome, ◌>>=◌, ◌>>◌, node, modify, meta, modify_meta, rounds,
}
use rb_forest.Tree.{rotate, propagate_cumulant}

-- `black_height += 1` on a `u8`
abbrev pub raise_height : Bounds → Bounds
raise_height b = record b { black_height = (b.black_height + 1) % 2 ^ 8 }

module _ {K V : Type 0} where
  abbrev pub paint : NodeIndex → Color → Cmd K V (Unit {0})
  paint p c = modify p λ m. record m { color = c }

  -- `r.is_some_and(|p| tree[p].is_red())`
  abbrev pub is_red_ref : NodeRef → Cmd K V Bool
  is_red_ref none = pure false
  is_red_ref (some p) = do n ← node p; pure (is_red n)

  -- The end of `fix_insert`: a red root turns black.
  unfoldable pub blacken_root : Cmd K V (Unit {0})
  blacken_root = do
    m ← meta
    root ← outcome (unwrap m.root)
    n ← node root
    if is_red n then paint root black >> modify_meta raise_height else pure tt

module _ {K V : Type 0} ⦃val : Value V⦄ where
  -- The first branch of the helper of `fix_insert`: the uncle is red.
  unfoldable pub recolor : (uncle : NodeRef) → (parent grandparent : NodeIndex) → Cmd K V NodeIndex
  recolor uncle parent grandparent = do
    u ← outcome (unwrap uncle)
    paint u black
    paint parent black
    paint grandparent red
    pure grandparent

  -- The end of the second branch: the parent turns black and rises above the grandparent.
  unfoldable pub raise_parent : Side → (ptr : NodeIndex) → Cmd K V NodeIndex
  raise_parent i ptr = do
    n ← node ptr
    parent ← outcome (unwrap n.parent)
    paint parent black
    p ← node parent
    grandparent ← outcome (unwrap p.parent)
    paint grandparent red
    rotate i grandparent
    pure ptr

  -- The second branch: `i` is the side of the uncle, `j` that of `ptr` below its parent.
  unfoldable pub rotate_up : (i j : Side) → (ptr parent : NodeIndex) → Cmd K V NodeIndex
  rotate_up i j ptr parent =
      if same_side i j
      then (rotate (other i) parent >> raise_parent i parent)
      else raise_parent i ptr

  unfoldable pub fix_insert_step :
      (i j : Side) → (ptr parent grandparent : NodeIndex) → Cmd K V NodeIndex
  fix_insert_step i j ptr parent grandparent = do
    g ← node grandparent
    uncle_red ← is_red_ref (at g.children i)
    if uncle_red then recolor (at g.children i) parent grandparent else rotate_up i j ptr parent

  -- The body of the loop, below a red parent.
  unfoldable pub fix_insert_round : (ptr parent : NodeIndex) → Node K V → Cmd K V NodeIndex
  fix_insert_round ptr parent p = do
    grandparent ← outcome (unwrap p.parent)
    g ← node grandparent
    fix_insert_step (if points_to g.children.at1 parent then left else right)
        (if points_to p.children.at0 ptr then left else right) ptr parent grandparent

  unfoldable pub fix_insert_loop : ℕ → NodeIndex → Cmd K V (Unit {0})
  fix_insert_loop zero ptr = λ _. out_of_fuel
  fix_insert_loop (suc fuel) ptr = do
    n ← node ptr
    parent ← outcome (unwrap n.parent)
    p ← node parent
    if is_black p then pure tt else do
      ptr' ← fix_insert_round ptr parent p
      m ← meta
      if ref_eq (some ptr') m.root then pure tt else fix_insert_loop fuel ptr'

  unfoldable pub fix_insert : NodeIndex → Cmd K V (Unit {0})
  fix_insert ptr s = (fix_insert_loop (rounds s) ptr >> blacken_root) s

module _ {K V : Type 0} where
  -- The neighbour on the far side of the new node, or else the range, refers to it.
  unfoldable pub link_far : Side → (far : NodeRef) → (ptr : NodeIndex) → Cmd K V (Unit {0})
  link_far i far ptr = elim far [
    | some f ↦ modify f λ m. record m { order = put_at m.order (other i) (some ptr) }
    | none ↦ modify_meta λ b. record b { range = put_at b.range i (some ptr) }
  ]

  -- The first part of `insert_at`: the links.
  unfoldable pub attach : Side → (ptr parent : NodeIndex) → Cmd K V (Unit {0})
  attach i ptr parent = do
    p ← node parent
    let far = at p.order i
    let order = put_at (put_at (pair none none) i far) (other i) (some parent)
    modify ptr (λ m. record m { parent = some parent; order = order })
    link_far i far ptr
    modify parent (λ m. record m {
      children = put_at m.children i (some ptr);
      order = put_at m.order i (some ptr);
    })

module _ {K V : Type 0} ⦃val : Value V⦄ where
  unfoldable pub insert_at : Side → (ptr parent : NodeIndex) → Cmd K V (Unit {0})
  insert_at i ptr parent = do
    attach i ptr parent
    q ← node parent
    if is_some q.parent then fix_insert ptr else pure tt
    if val.has_cumulant then propagate_cumulant ptr else pure tt
