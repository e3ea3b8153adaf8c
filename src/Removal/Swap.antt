-- ===== src/Removal/Swap.antt =====
-- `remove_at` of src/tree/mod.rs at a node with two children: its key and value trade places with
-- those of its successor, the first node of its right sub-tree.
use rb_forest.Base.{pair, ◌≡◌, ◌≢◌, some, left, right, Outcome, done, refl, sym, ◌∙◌, arith}
use rb_forest.Node.{NodeIndex, Node}
use rb_forest.Guard.{Guard, modify}
use rb_forest.Guard.Laws.{view, node_at-done}
use rb_forest.Tree.Remove.{swap_with_next}
use rb_forest.Shape.{Cell, Shape, leaf, fork, Context, below, plug, Focus}
use rb_forest.Shape.Zipper.{Focus-down, Edited, modify-Edited, recell}
use rb_forest.Shape.Balance.{height, top_weight, IsBalanced, plug-IsBalanced, top_weight_le}
use rb_forest.Shape.Unplug.{of_IsBalanced-plug}
use rb_forest.Removal.{both_nodes-done}
use rb_forest.Removal.First.{first_cell, first_rest, first_context, Focus-first}

module _ {K V : Type 0} where
  -- The cell with the key and the value of another.
  abbrev pub trade : Cell K V → Cell K V → Cell K V
  trade c d = recell c d.key d.value c.color c.order

  pub plug-trade :
      (ctx : Context K V) (l : Shape K V) (c d : Cell K V) (r : Shape K V)
      → IsBalanced (plug ctx (fork l c r))
      → top_weight (plug ctx (fork l c r)) ≡ 1
      → IsBalanced (plug ctx (fork l (trade c d) r))
        × (top_weight (plug ctx (fork l (trade c d) r)) ≡ 1)
        × (height (plug ctx (fork l (trade c d) r)) ≡ height (plug ctx (fork l c r)))
  plug-trade ctx l c d r b dark =
      let old = of_IsBalanced-plug ctx (fork l c r) b (omega (arith, dark)) in
      let new = plug-IsBalanced ctx (fork l (trade c d) r) old.0 old.1 old.2 in
      (
        new.0,
        omega (arith, new.2, top_weight_le (plug ctx (fork l (trade c d) r))),
        new.1 ∙ sym old.3,
      )

  swap_steps :
      (s s1 s2 : Guard K V) (ptr next : NodeIndex) {n m : Node K V}
      → view s ptr ≡ some n
      → n.order.at1 ≡ some next
      → view s next ≡ some m
      → ptr ≢ next
      → modify ptr (λ x. record x { key = m.key; value = m.value }) s ≡ done (tt, s1)
      → modify next (λ x. record x { key = n.key; value = n.value }) s1 ≡ done (tt, s2)
      → {a b : NodeIndex} → n.children ≡ pair (some a) (some b)
      → swap_with_next ptr s ≡ done (next, s2)
  unfolding swap_with_next
  swap_steps s s1 s2 ptr next en link em ne first second ch =
      rw (node_at-done s ptr en, ch, link, both_nodes-done s ptr next en em ne, first, second) refl

  -- The state after the exchange, with the successor in focus.
  pub record Swapped (s : Guard K V) (ctx : Context K V) (l : Shape K V) (c : Cell K V)
      (a : Shape K V) (x : Cell K V) (b : Shape K V) (r : Outcome (NodeIndex × Guard K V))
      : Type 0 where
    pub after : Guard K V
    pub returns : r ≡ done ((first_cell a x).here, after)
    pub focus :
        Focus after
          (first_context a x b (below right (trade c (first_cell a x)) l ctx))
          (fork leaf (trade (first_cell a x) c) (first_rest a b))
    pub meta_kept : after.meta ≡ s.meta

  module _ {s : Guard K V} (ctx : Context K V) (u : Shape K V) (y : Cell K V) (v : Shape K V)
      (c : Cell K V) (a : Shape K V) (x : Cell K V) (b : Shape K V)
      (foc : Focus s ctx (fork (fork u y v) c (fork a x b))) where
    given :
        Edited s ctx
          (fork (fork u y v) c (fork a x b))
          (fork (fork u y v) (trade c (first_cell a x)) (fork a x b))
          (modify c.here
            (λ m. record m { key = (first_cell a x).key; value = (first_cell a x).value })
            s)
    given =
        modify-Edited left (fork u y v) c (fork a x b)
          (λ m. record m { key = (first_cell a x).key; value = (first_cell a x).value })
          (first_cell a x).key (first_cell a x).value c.color c.order foc refl

    arrived :
        Focus given.after
          (first_context a x b (below right (trade c (first_cell a x)) (fork u y v) ctx))
          (fork leaf (first_cell a x) (first_rest a b))
    arrived =
        Focus-first a x b (below right (trade c (first_cell a x)) (fork u y v) ctx)
          (Focus-down right given.focus)

    taken :
        Edited given.after
          (first_context a x b (below right (trade c (first_cell a x)) (fork u y v) ctx))
          (fork leaf (first_cell a x) (first_rest a b))
          (fork leaf (trade (first_cell a x) c) (first_rest a b))
          (modify
            (first_cell a x).here
            (λ m. record m { key = c.key; value = c.value })
            given.after)
    taken =
        modify-Edited left leaf (first_cell a x) (first_rest a b)
          (λ m. record m { key = c.key; value = c.value }) c.key c.value (first_cell a x).color
          (first_cell a x).order arrived refl

    first_there :
        Focus s
          (first_context a x b (below right c (fork u y v) ctx))
          (fork leaf (first_cell a x) (first_rest a b))
    first_there = Focus-first a x b (below right c (fork u y v) ctx) (Focus-down right foc)

    pub swap_with_next-Swapped :
        c.order.at1 ≡ some (first_cell a x).here
        → c.here ≢ (first_cell a x).here
        → Swapped s ctx (fork u y v) c a x b (swap_with_next c.here s)
    swap_with_next-Swapped link ne = record {
      after = taken.after;
      returns =
          swap_steps s given.after taken.after c.here (first_cell a x).here foc.inside.0 link
            first_there.inside.0 ne given.returns taken.returns refl;
      focus = taken.focus;
      meta_kept = taken.meta_kept ∙ given.meta_kept;
    }
