-- ===== src/Filter/Action.antt =====
-- The flags of a `SearchAction` of src/tree/iter.rs.
use rb_forest.Base.{◌≡◌, refl, Bool, true, false, done}
use rb_forest.Filter.{SearchAction, new_action, search_left, search_right, is_match}

-- `SearchAction::new` makes a defined action for any three flags, and the action's flags are those.
pub new_action-flags :
    (l r m : Bool)
    → (a : SearchAction) × (new_action l r m ≡ done a)
      × (search_left a ≡ l)
      × (search_right a ≡ r)
      × (is_match a ≡ m)
unfolding new_action
new_action-flags false false false = (_, refl, refl, refl, refl)
new_action-flags true false false = (_, refl, refl, refl, refl)
new_action-flags false true false = (_, refl, refl, refl, refl)
new_action-flags true true false = (_, refl, refl, refl, refl)
new_action-flags false false true = (_, refl, refl, refl, refl)
new_action-flags true false true = (_, refl, refl, refl, refl)
new_action-flags false true true = (_, refl, refl, refl, refl)
new_action-flags true true true = (_, refl, refl, refl, refl)
