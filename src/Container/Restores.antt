-- ===== src/Container/Restores.antt =====
-- Taking an item out again restores the container and the ones above it.
use tibia_server.Base.{ℕ, ◌<◌, Bool, true, false, ◌&&◌, List, [], ◌∷◌, ◌==◌, ◌≡◌, refl, arith, ap₂}
use tibia_server.Base.Word.{u32_mod, add32, sub32}
use tibia_server.Container.{
  Kind, Thing, Place, Above, number_of, item_of, heavier_all, get_weight, update_item_weight,
  internal_add_thing, remove_thing, get_thing_index, get_item_by_index, at_number, erase_at,
}
use tibia_server.Container.Changes.{get_weight-lt}

-- The totals are words.
abbrev pub AreWords : List Above → Type 0
AreWords [] = Unit
AreWords (a ∷ up) = (a.shell.total_weight < u32_mod) × AreWords up

module _ (items : ℕ → Kind) (t : Thing) where
  restored_total :
      (n : ℕ)
      → n < u32_mod
      → add32 (add32 n (get_weight items t)) (sub32 0 (get_weight items t)) ≡ n
  unfolding add32 sub32
  restored_total n h = omega (arith, get_weight-lt items t)

  restored_all :
      (up : List Above)
      → AreWords up
      → heavier_all (sub32 0 (get_weight items t)) (heavier_all (get_weight items t) up) ≡ up
  unfolding heavier_all
  restored_all [] h = refl
  restored_all (a ∷ up) h =
      ap₂ (λ n r. record a { shell = record (a.shell) { total_weight = n } } ∷ r)
        (restored_total a.shell.total_weight h.0) (restored_all up h.1)

  -- removeThing of the whole of an item that was just put in restores the container, its weight
  -- and the weights of the containers above it, where these are words.
  pub remove_thing-internal_add_thing :
      (p : Place)
      → p.here.total_weight < u32_mod
      → AreWords p.above
      → remove_thing items (number_of t) (item_of t).count (internal_add_thing items t p) ≡ p
  unfolding remove_thing internal_add_thing get_thing_index get_item_by_index erase_at
      update_item_weight
  remove_thing-internal_add_thing p h hs =
      rw
        (
          remove_thing,
          at_number,
          get_thing_index,
          ==_self (number_of t),
          ==_self (item_of t).count,
          and_false (items (item_of t).id).stackable,
        )
        (ap₂ (λ n up. record p { here = record (p.here) { total_weight = n }; above = up })
          (restored_total p.here.total_weight h) (restored_all p.above hs))
    where
      ==_self : (n : ℕ) → (n == n) ≡ true
      ==_self n = ground arith

      and_false : (b : Bool) → b && false ≡ false
      and_false true = refl
      and_false false = refl
