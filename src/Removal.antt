-- ===== src/Removal.antt =====
-- That `fix_remove` of src/tree/mod.rs mends a tree: what one round of its loop does.
pub mod Frame
pub mod Redden
pub mod Turn
pub mod Near
pub mod Sibling
pub mod Step
pub mod Loop
pub mod Detach
pub mod Splice
pub mod Gap
pub mod Unlink
pub mod Finish
pub mod Low
pub mod Valid
pub mod Rekey
pub mod First
pub mod Swap
use rb_forest.Base.{◌∙◌, ◌+◌, ◌≤◌, ◌≡◌, ◌≢◌, ◌⊎◌, none, some, Outcome, done, Side, ≢→==, pair}
use rb_forest.Node.{NodeIndex, NodeRef, Node, Value}
use rb_forest.Guard.{Guard, Bounds}
use rb_forest.Guard.Laws.{view}
use rb_forest.Arena.Access.{get_pair_mut_lem}
use rb_forest.Tree.Remove.{both_nodes}
use rb_forest.Shape.{Cell, Shape, Context, root, fork_at, Focus, count, count_above}
use rb_forest.Shape.Balance.{height, top_weight, weight, IsBalanced}
use rb_forest.Shape.Entries.{entries}
use rb_forest.Shape.Form.{count-same}
use rb_forest.Insertion.{SameLimits}
use rb_forest.Insertion.Fix.{Fixed}

module _ {K V : Type 0} where
  pub both_nodes-done :
      (s : Guard K V) (p q : NodeIndex) {m n : Node K V}
      → view s p ≡ some m
      → view s q ≡ some n
      → p ≢ q
      → both_nodes p q s ≡ done ((m, n), s)
  unfolding both_nodes
  both_nodes-done s p q em en ne = rw (get_pair_mut_lem s.arena p q, ≢→== p q ne, em, en)

module _ {K V : Type 0} ⦃val : Value V⦄ where
  -- A round of the repair below the cell `p`, whose tree `t` lacks a black node: the round ends the
  -- repair, with the height that the tree below the parent had before, or goes on from the node at
  -- the root of a tree in balance that lacks a black node.
  pub record Resolved (s : Guard K V) (i : Side) (p : Cell K V) (u : Shape K V) (ctx : Context K V)
      (t : Shape K V) (r : Outcome (NodeRef × Guard K V)) : Type 0 where
    pub after : Guard K V
    pub next : NodeRef
    pub tree : Shape K V
    pub returns : r ≡ done (next, after)
    pub focus : Focus after ctx tree
    pub balanced : IsBalanced tree
    pub same : entries tree ≡ entries (fork_at i t p u)
    pub limits : SameLimits after.meta s.meta
    pub reads_out :
        (q : NodeIndex)
        → count q (fork_at i t p u) + count_above q ctx ≡ 0
        → view after q ≡ view s q
    pub outcome :
        ((next ≡ none) × (height tree ≡ weight p + (1 + height t)) × (weight p ≤ top_weight tree))
        ⊎ ((q : NodeIndex) × (next ≡ some q)
            × (root tree ≡ some q)
            × (height tree ≡ 1 + height t)
            × (top_weight tree ≡ 1)
            × (weight p ≡ 1))

  -- A tree mended as `Fixed` says, where the nodes outside of it stay.
  pub record Trimmed (s : Guard K V) (whole : Shape K V) (r : Outcome (Unit {0} × Guard K V))
      : Type 0 where
    pub fixed : Fixed s whole r
    pub reads_out : (q : NodeIndex) → count q whole ≡ 0 → view fixed.after q ≡ view s q

  pub Trimmed-from :
      {s s' : Guard K V} (w w' : Shape K V) {r r' : Outcome (Unit {0} × Guard K V)}
      → Trimmed s' w' r'
      → r ≡ r'
      → entries w' ≡ entries w
      → s'.meta.range ≡ s.meta.range
      → ((q : NodeIndex) → count q w ≡ 0 → view s' q ≡ view s q)
      → Trimmed s w r
  Trimmed-from w w' x er ee eg kept = record {
    fixed = record {
      after = x.fixed.after;
      tree = x.fixed.tree;
      returns = er ∙ x.fixed.returns;
      focus = x.fixed.focus;
      balanced = x.fixed.balanced;
      dark = x.fixed.dark;
      same = x.fixed.same ∙ ee;
      range = x.fixed.range ∙ eg;
      black_height = x.fixed.black_height;
    };
    reads_out = λ q out. x.reads_out q (count-same q w w' ee ∙ out) ∙ kept q out;
  }
