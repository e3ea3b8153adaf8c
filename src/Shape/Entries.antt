-- ===== src/Shape/Entries.antt =====
-- What a tree holds, in order: of each node the index, the key, the local data and the order links.
-- Colours, cumulants and the shape of the tree are left out.
use rb_forest.Base.{
  ◌≡◌, refl, Bool, true, false, List, [], ◌∷◌, ◌++◌, Pair, Side, left, right, sym, ap, pair_at,
}
use mathlib.Core.List.{append_assoc}
use rb_forest.Node.{NodeIndex, NodeRef, Value}
use rb_forest.Shape.{Cell, Shape, leaf, fork, Context, top, below, fork_at, plug}
use rb_forest.Shape.Cumulant.{cumulant_of}
use rb_forest.Shape.Rotate.{settle_by, settle}

pub record Entry (K L : Type 0) : Type 0 where
  pub here : NodeIndex
  pub key : K
  pub local : L
  pub order : Pair NodeRef

module _ {K V : Type 0} ⦃val : Value V⦄ where
  abbrev pub entry : Cell K V → Entry K val.Local
  entry c = record { here = c.here; key = c.key; local = val.into c.value; order = c.order }

  abbrev pub entries : Shape K V → List (Entry K val.Local)
  entries leaf = []
  entries (fork l c r) = entries l ++ entry c ∷ entries r

  pub entry-settle :
      (i : Side) (x : Shape K V) (c : Cell K V) (y : Shape K V) → entry (settle i x c y) ≡ entry c
  entry-settle i x c y = go val.has_cumulant
    where
      go : (has : Bool) → entry (settle_by has i x c y) ≡ entry c
      go true =
          ap (λ l. record { here = c.here; key = c.key; local = l; order = c.order })
            (val.into-update (pair_at i (cumulant_of x) (cumulant_of y)) c.value)
      go false = refl

  -- The same entries at each of three places make the same entries.
  pub entries-fork_at :
      (i : Side) (x x' : Shape K V) (c c' : Cell K V) (y y' : Shape K V)
      → entries x ≡ entries x'
      → entry c ≡ entry c'
      → entries y ≡ entries y'
      → entries (fork_at i x c y) ≡ entries (fork_at i x' c' y')
  entries-fork_at left x x' c c' y y' p q r = rw (p, q, r)
  entries-fork_at right x x' c c' y y' p q r = rw (p, q, r)

  pub entries-plug :
      (ctx : Context K V) (t t' : Shape K V)
      → entries t ≡ entries t'
      → entries (plug ctx t) ≡ entries (plug ctx t')
  entries-plug top t t' e = e
  entries-plug (below i c u ctx) t t' e =
      entries-plug ctx (fork_at i t c u) (fork_at i t' c u)
        (entries-fork_at i t t' c c u u e refl refl)

  -- A rotation keeps the entries in order.
  pub entries-rotate :
      (i : Side) (a : Shape K V) (c : Cell K V) (b : Shape K V) (d : Cell K V) (e : Shape K V)
      → entries (fork_at i (fork_at i a c b) d e) ≡ entries (fork_at i a c (fork_at i b d e))
  entries-rotate left a c b d e =
      append_assoc (entries a) (entry c ∷ entries b) (entry d ∷ entries e)
  entries-rotate right a c b d e =
      sym (append_assoc (entries e) (entry d ∷ entries b) (entry c ∷ entries a))
