-- ===== src/Item/Tests.antt =====
-- The attributes of a sword with a name, and the theorems on it.
use tibia_server.Base.{ℕ, ◌↔◌, true, clash, false, [], ◌∷◌, ◌≡◌, refl, some, none}
use tibia_server.Item.{
  Item, Attributes, no_attributes, set_int_attr, set_str_attr, increase_int_attr, get_int_attr,
  get_str_attr, remove_attribute, get_attr, change_attr, get_existing_attr, find_attr, equals,
}
use tibia_server.Item.Equality.{SameAttributes, equals-AreSame}
use tibia_server.Item.Laws.{IsHeld, has_type}
use tibia_server.Item.Reading.{ReadsBack, operations-IsHeld, operations-ReadBack}

abbrev sword : Attributes
sword = set_int_attr 10 48 (set_str_attr 6 (83 ∷ 97 ∷ []) no_attributes)

no_attributes-IsHeld : IsHeld no_attributes
unfolding has_type
no_attributes-IsHeld = record { bits = λ k. refl; once = tt; known = λ k e. absurd (clash e) }

sword-IsHeld : IsHeld sword
sword-IsHeld =
    (operations-IsHeld (set_str_attr 6 (83 ∷ 97 ∷ []) no_attributes)
      (operations-IsHeld no_attributes no_attributes-IsHeld 6 0 (83 ∷ 97 ∷ [])).2 10 48 []).0

sword_attributes : (get_int_attr 10 sword ≡ 48) × (get_str_attr 6 sword ≡ 83 ∷ 97 ∷ [])
unfolding set_int_attr set_str_attr get_attr change_attr get_int_attr get_str_attr get_existing_attr
    find_attr
sword_attributes = (refl, refl)

-- An item that has lost its only attribute is not equal to one that never had any.
bare_unequal :
    equals
      (record {
        id = 1;
        count = 1;
        attributes = some (remove_attribute 10 (set_int_attr 10 48 no_attributes));
      })
      (record { id = 1; count = 1; attributes = none })
    ≡ false
unfolding equals
bare_unequal = refl

operations-ReadBack_example :
    ReadsBack sword
    × IsHeld (set_int_attr 10 49 sword)
    × IsHeld (increase_int_attr 10 49 sword)
    × IsHeld (set_str_attr 10 (65 ∷ []) sword)
    × IsHeld (remove_attribute 10 sword)
operations-ReadBack_example = operations-ReadBack sword 10 49 (65 ∷ []) sword-IsHeld

-- The same attributes, set in the other order.
abbrev other_sword : Attributes
other_sword = set_str_attr 6 (83 ∷ 97 ∷ []) (set_int_attr 10 48 no_attributes)

other_sword-IsHeld : IsHeld other_sword
other_sword-IsHeld =
    (operations-IsHeld (set_int_attr 10 48 no_attributes)
      (operations-IsHeld no_attributes no_attributes-IsHeld 10 48 []).0 6 0 (83 ∷ 97 ∷ [])).2

abbrev as_item : Attributes → Item
as_item a = record { id = 3; count = 1; attributes = some a }

equals-AreSame_example :
    (equals (as_item sword) (as_item other_sword) ≡ true)
    ↔ ((◌≡◌ {A = ℕ} 3 3) × SameAttributes sword other_sword)
equals-AreSame_example =
    equals-AreSame (as_item sword) (as_item other_sword) sword-IsHeld other_sword-IsHeld
