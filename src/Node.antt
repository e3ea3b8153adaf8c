-- ===== src/Node.antt =====
-- src/tree/node.rs: colours, the `Value` trait with its two implementations, and nodes.
use rb_forest.Base.{◌≡◌, refl, ℕ, Bool, true, false, Option, none, some, Pair, pair}
use rb_forest.Arena.{Index, Ref}

abbrev pub NodeIndex : Type 0
NodeIndex = Index

abbrev pub NodeRef : Type 0
NodeRef = Ref

pub data Color : Type 0 where
  red black : Color

-- `impl Not for Color`
abbrev pub not_color : Color → Color
not_color red = black
not_color black = red

-- `color as u8`
abbrev pub color_weight : Color → ℕ
color_weight red = 0
color_weight black = 1

abbrev pub color_is_black : Color → Bool
color_is_black black = true
color_is_black red = false

abbrev pub color_is_red : Color → Bool
color_is_red black = false
color_is_red red = true

-- What is written through the reference that `get_mut_unchecked` returns is a change of the local
-- data: `change` applies it.
pub record Value (V : Type 0) : Type 1 where
  pub Local : Type 0
  pub Cumulant : Type 0
  pub new : Local → V
  pub into : V → Local
  pub change : (Local → Local) → V → V
  pub cumulant : V → Cumulant
  pub update_cumulant : Pair (Option Cumulant) → V → V
  pub has_cumulant : Bool
  -- The trait's contract: the update reads the local data and leaves it.
  pub into-update :
      (children : Pair (Option Cumulant)) (v : V) → into (update_cumulant children v) ≡ into v
  -- The reference is to the local data.
  pub into-change : (f : Local → Local) (v : V) → into (change f v) ≡ f (into v)

pub record NoCumulant (T : Type 0) : Type 0 where
  pub local : T

instance abbrev pub no_cumulant : {T : Type 0} → Value (NoCumulant T)
no_cumulant {T} = record {
  Local = T;
  Cumulant = Unit {0};
  new = λ t. record { local = t };
  into = λ v. v.local;
  change = λ f v. record { local = f v.local };
  cumulant = λ v. tt;
  update_cumulant = λ children v. v;
  has_cumulant = false;
  into-update = λ children v. refl;
  into-change = λ f v. refl;
}

-- The struct that the macro `with_cumulant!` generates.
pub record WithCumulant (T C : Type 0) : Type 0 where
  pub local : T
  pub sub_tree : C

abbrev pub unwrap_or {ℓ} : {A : Type ℓ} → Option A → A → A
unwrap_or none d = d
unwrap_or (some a) d = a

-- Its implementation of `Value`, from the macro's default and the body of its update.
abbrev pub with_cumulant : {T C : Type 0} → C → (T → Pair C → C) → Value (WithCumulant T C)
with_cumulant {T} {C} default body = record {
  Local = T;
  Cumulant = C;
  new = λ t. record { local = t; sub_tree = default };
  into = λ v. v.local;
  change = λ f v. record v { local = f v.local };
  cumulant = λ v. v.sub_tree;
  update_cumulant = λ children v. record v {
    sub_tree =
        body v.local (pair (unwrap_or children.at0 default) (unwrap_or children.at1 default));
  };
  has_cumulant = true;
  into-update = λ children v. refl;
  into-change = λ f v. refl;
}

pub record Node (K V : Type 0) : Type 0 where
  pub key : K
  pub value : V
  pub color : Color
  pub parent : NodeRef
  pub children : Pair NodeRef
  pub order : Pair NodeRef

module _ {K V : Type 0} where
  unfoldable pub new_node : K → V → Color → Node K V
  new_node k v c = record {
    key = k;
    value = v;
    color = c;
    parent = none;
    children = pair none none;
    order = pair none none;
  }

  abbrev pub is_black : Node K V → Bool
  is_black n = color_is_black n.color

  abbrev pub is_red : Node K V → Bool
  is_red n = color_is_red n.color

  abbrev pub clear_node : Color → Node K V → Node K V
  clear_node c n = record n {
    parent = none;
    order = pair none none;
    children = pair none none;
    color = c;
  }
