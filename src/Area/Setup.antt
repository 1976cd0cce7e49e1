-- ===== src/Area/Setup.antt =====
-- The areas that class AreaCombat makes of lists, lengths and radii (compiler/src/combat.cpp).
use tibia_server.Base.{
  ℕ, zero, suc, ◌+◌, ◌-◌, ◌*◌, ◌/◌, ◌%◌, true, ◌&&◌, ◌||◌, List, [], ◌∷◌, ◌++◌, some, ltb, leb,
  ◌==◌, if◌then◌else◌, length, map,
}
use tibia_server.Position.{
  Direction, north, east, south, west, southwest, southeast, northwest, northeast, direction_none,
}
use tibia_server.Area.{
  MatrixArea, new_area, set_cell, mirror, flip, rotate_90, rotate_180, rotate_270, copy_area,
  AreaCombat, output_for,
}

-- The loop of createArea over the list, at the cell (y, x).
unfoldable pub fill_area : List ℕ → ℕ → ℕ → MatrixArea → MatrixArea
unfolding set_cell
fill_area [] y x area = area
fill_area (value ∷ rest) y x area =
    let a1 =
      if value == 1 || value == 3
      then record area { cells = set_cell y x true area.cells }
      else area in
    let a2 = if value == 2 || value == 3 then record a1 { center_y = y; center_x = x } else a1 in
    let full = area.cols == x + 1 in
    fill_area rest (if full then y + 1 else y) (if full then 0 else x + 1) a2

unfoldable pub create_area : List ℕ → ℕ → MatrixArea
unfolding fill_area
create_area list rows =
    fill_area list 0 0 (new_area rows (if rows == 0 then 0 else length list / rows))

-- The values of the enumeration Direction.
abbrev pub direction_code : Direction → ℕ
direction_code north = 0
direction_code east = 1
direction_code south = 2
direction_code west = 3
direction_code southwest = 4
direction_code southeast = 5
direction_code northwest = 6
direction_code northeast = 7
direction_code direction_none = 8

unfoldable pub put_area : Direction → MatrixArea → AreaCombat → AreaCombat
put_area d area c = record c {
  areas = λ e. if direction_code e == direction_code d then some area else c.areas e;
}

unfoldable pub setup_area : List ℕ → ℕ → AreaCombat → AreaCombat
unfolding create_area copy_area put_area
setup_area list rows c =
    let area = create_area list rows in
    let o = output_for area in
    put_area west (copy_area rotate_270 area o) (
      put_area east (copy_area rotate_90 area o)
        (put_area south (copy_area rotate_180 area o) (put_area north area c)))

-- setupArea(length, spread), for numbers that are not negative: the cells of a row from `x` on.
unfoldable pub spread_row : ℕ → ℕ → ℕ → ℕ → ℕ → ℕ → List ℕ
spread_row zero x y rows cols col_spread = []
spread_row (suc n) x y rows cols col_spread =
    (if y == rows && x == (cols - cols % 2) / 2 + 1
      then 3
      else if leb (cols - col_spread + 1) x && leb x (cols - (cols - col_spread))
      then 1
      else 0)
    ∷ spread_row n (x + 1) y rows cols col_spread

unfoldable pub spread_rows : ℕ → ℕ → ℕ → ℕ → ℕ → ℕ → List ℕ
unfolding spread_row
spread_rows zero y rows cols spread col_spread = []
spread_rows (suc n) y rows cols spread col_spread =
    spread_row cols 1 y rows cols col_spread
    ++ spread_rows n (y + 1) rows cols spread
        (if ltb 0 spread && y % spread == 0 then col_spread - 1 else col_spread)

abbrev pub spread_cols : ℕ → ℕ → ℕ
spread_cols len spread = if spread == 0 then 1 else (len - len % spread) / spread * 2 + 1

unfoldable pub setup_spread : ℕ → ℕ → AreaCombat → AreaCombat
unfolding spread_rows setup_area
setup_spread len spread =
    let cols = spread_cols len spread in setup_area (spread_rows len 1 len cols spread cols) len

-- The least radius at which a cell of the circle is reached; 1 marks its centre.
abbrev pub circle : List (List ℕ)
circle =
    (0 ∷ 0 ∷ 0 ∷ 0 ∷ 0 ∷ 0 ∷ 8 ∷ 0 ∷ 0 ∷ 0 ∷ 0 ∷ 0 ∷ 0 ∷ [])
    ∷ (0 ∷ 0 ∷ 0 ∷ 0 ∷ 8 ∷ 8 ∷ 7 ∷ 8 ∷ 8 ∷ 0 ∷ 0 ∷ 0 ∷ 0 ∷ [])
    ∷ (0 ∷ 0 ∷ 0 ∷ 8 ∷ 7 ∷ 6 ∷ 6 ∷ 6 ∷ 7 ∷ 8 ∷ 0 ∷ 0 ∷ 0 ∷ [])
    ∷ (0 ∷ 0 ∷ 8 ∷ 7 ∷ 6 ∷ 5 ∷ 5 ∷ 5 ∷ 6 ∷ 7 ∷ 8 ∷ 0 ∷ 0 ∷ [])
    ∷ (0 ∷ 8 ∷ 7 ∷ 6 ∷ 5 ∷ 4 ∷ 4 ∷ 4 ∷ 5 ∷ 6 ∷ 7 ∷ 8 ∷ 0 ∷ [])
    ∷ (0 ∷ 8 ∷ 6 ∷ 5 ∷ 4 ∷ 3 ∷ 2 ∷ 3 ∷ 4 ∷ 5 ∷ 6 ∷ 8 ∷ 0 ∷ [])
    ∷ (8 ∷ 7 ∷ 6 ∷ 5 ∷ 4 ∷ 2 ∷ 1 ∷ 2 ∷ 4 ∷ 5 ∷ 6 ∷ 7 ∷ 8 ∷ [])
    ∷ (0 ∷ 8 ∷ 6 ∷ 5 ∷ 4 ∷ 3 ∷ 2 ∷ 3 ∷ 4 ∷ 5 ∷ 6 ∷ 8 ∷ 0 ∷ [])
    ∷ (0 ∷ 8 ∷ 7 ∷ 6 ∷ 5 ∷ 4 ∷ 4 ∷ 4 ∷ 5 ∷ 6 ∷ 7 ∷ 8 ∷ 0 ∷ [])
    ∷ (0 ∷ 0 ∷ 8 ∷ 7 ∷ 6 ∷ 5 ∷ 5 ∷ 5 ∷ 6 ∷ 7 ∷ 8 ∷ 0 ∷ 0 ∷ [])
    ∷ (0 ∷ 0 ∷ 0 ∷ 8 ∷ 7 ∷ 6 ∷ 6 ∷ 6 ∷ 7 ∷ 8 ∷ 0 ∷ 0 ∷ 0 ∷ [])
    ∷ (0 ∷ 0 ∷ 0 ∷ 0 ∷ 8 ∷ 8 ∷ 7 ∷ 8 ∷ 8 ∷ 0 ∷ 0 ∷ 0 ∷ 0 ∷ [])
    ∷ (0 ∷ 0 ∷ 0 ∷ 0 ∷ 0 ∷ 0 ∷ 8 ∷ 0 ∷ 0 ∷ 0 ∷ 0 ∷ 0 ∷ 0 ∷ [])
    ∷ []

abbrev pub circle_cell : ℕ → ℕ → ℕ
circle_cell radius cell = if cell == 1 then 3 else if ltb 0 cell && leb cell radius then 1 else 0

unfoldable pub circle_list : ℕ → List (List ℕ) → List ℕ
circle_list radius [] = []
circle_list radius (r ∷ rs) = map (circle_cell radius) r ++ circle_list radius rs

-- setupArea(radius), for a radius that is not negative.
unfoldable pub setup_radius : ℕ → AreaCombat → AreaCombat
unfolding circle_list setup_area
setup_radius radius = setup_area (circle_list radius circle) 13

unfoldable pub setup_ext_area : List ℕ → ℕ → AreaCombat → AreaCombat
unfolding create_area copy_area put_area
setup_ext_area [] rows c = c
setup_ext_area (v ∷ list) rows c =
    let area = create_area (v ∷ list) rows in
    let o = output_for area in
    let south_west = copy_area flip area o in
    put_area southeast (copy_area mirror south_west o) (
      put_area southwest south_west (
        put_area northeast (copy_area mirror area o)
          (put_area northwest area (record c { has_ext_area = true }))))
