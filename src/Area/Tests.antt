-- ===== src/Area/Tests.antt =====
-- The areas of some spells, and the theorems about them.
use tibia_server.Base.{ℕ, Bool, true, false, List, [], ◌∷◌, ◌≡◌, ◌↔◌, refl, some, arith, none, All}
use tibia_server.Position.{Position}
use tibia_server.Area.{
  MatrixArea, AreaCombat, rotate_90, mirror, copy_area, set_cell, loop, copied_cells,
}
use tibia_server.Area.Setup.{create_area, setup_area, spread_rows, spread_row, fill_area, put_area}
use tibia_server.Area.Lookup.{get_list, get_area, area_direction, scan_area, scan_row, scan_cell}
use tibia_server.Area.Turns.{
  IsCentered, IsCopied, KeepsCenter, SuitsCenter, copy_area-IsCopied, copy_area-KeepsCenter,
}
use tibia_server.Area.Reach.{IsReached, IsHit, Listed, cell_pos, get_list-IsReached}

abbrev no_areas : AreaCombat
no_areas = record { areas = λ d. none; has_ext_area = false }

spread_list : spread_rows 3 1 3 3 3 3 ≡ 1 ∷ 1 ∷ 1 ∷ 1 ∷ 1 ∷ 1 ∷ 1 ∷ 3 ∷ 1 ∷ []
unfolding spread_rows spread_row
spread_list = refl

abbrev wave : List ℕ
wave = 1 ∷ 1 ∷ 1 ∷ 0 ∷ 3 ∷ 0 ∷ []

abbrev wave_area : MatrixArea
wave_area = create_area wave 2

abbrev hole : Position
hole = record { x = 100; y = 100; z = 7 }

abbrev mage : Position
mage = record { x = 99; y = 100; z = 7 }

abbrev clear : Position → Position → Bool
clear p q = true

-- To the east, the wave of two rows stands on its side.
get_list-east :
    get_list clear (setup_area wave 2 no_areas) mage hole
    ≡ record hole { x = 101; y = 101 }
      ∷ record hole { x = 101 }
      ∷ hole
      ∷ record hole { x = 101; y = 99 }
      ∷ []
unfolding get_list setup_area create_area fill_area set_cell loop copied_cells put_area
    area_direction scan_area scan_row scan_cell copy_area get_area
get_list-east = refl

wave-IsCentered : IsCentered wave_area
unfolding create_area fill_area set_cell
wave-IsCentered = record { center_y_lt = omega arith; center_x_lt = omega arith }

copy_area-IsCopied_example : IsCopied rotate_90 wave_area 0 2
unfolding create_area fill_area set_cell
copy_area-IsCopied_example =
    copy_area-IsCopied rotate_90 wave_area 0 2 wave-IsCentered (omega arith) (omega arith)

copy_area-KeepsCenter_example : KeepsCenter mirror wave_area ↔ SuitsCenter mirror wave_area
unfolding create_area fill_area set_cell
copy_area-KeepsCenter_example =
    copy_area-KeepsCenter mirror wave_area wave-IsCentered (omega arith) (omega arith)

abbrev archer : Position
archer = record { x = 100; y = 101; z = 7 }

abbrev spells : AreaCombat
spells = setup_area wave 2 no_areas

spells-north : get_area spells archer hole ≡ some wave_area
unfolding get_area area_direction setup_area put_area
spells-north = refl

get_list-IsReached_example :
    All (IsReached clear wave_area hole) (get_list clear spells archer hole)
    × ((y x : ℕ)
        → IsHit clear wave_area hole y x
        → Listed (cell_pos wave_area hole y x) (get_list clear spells archer hole))
unfolding create_area fill_area set_cell
get_list-IsReached_example =
    get_list-IsReached clear wave_area hole spells archer spells-north (omega arith) (omega arith)
      (omega arith)
