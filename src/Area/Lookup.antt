-- ===== src/Area/Lookup.antt =====
-- The area for a target, and the tiles that it reaches (compiler/src/combat.cpp, combat.h).
-- Whether there is a clear sight is a parameter, and a tile is its position.
use tibia_server.Base.{
  ℕ, ◌+◌, ◌-◌, ◌%◌, Bool, not, ◌&&◌, List, [], ◌∷◌, Option, none, some, ltb, if◌then◌else◌,
}
use tibia_server.Base.Word.{u16_mod, u32_mod}
use tibia_server.Position.{
  Position, Direction, north, east, south, west, southwest, southeast, northwest, northeast,
}
use tibia_server.Area.{MatrixArea, loop, AreaCombat}

-- The direction that getArea looks up; `targetPos` minus `centerPos` gives the signs.
unfoldable pub area_direction : Bool → Position → Position → Direction
area_direction ext center target =
    let dir =
      if ltb target.x center.x
      then west
      else if ltb center.x target.x
      then east
      else if ltb target.y center.y
      then north
      else south in
    if not ext
    then dir
    else if ltb target.x center.x && ltb target.y center.y
    then northwest
    else if ltb center.x target.x && ltb target.y center.y
    then northeast
    else if ltb target.x center.x && ltb center.y target.y
    then southwest
    else if ltb center.x target.x && ltb center.y target.y
    then southeast
    else dir

unfoldable pub get_area : AreaCombat → Position → Position → Option MatrixArea
unfolding area_direction
get_area c center target = c.areas (area_direction c.has_ext_area center target)

-- What getList goes with: the position of the cell, and the tiles so far, the last one first.
pub record Scan : Type 0 where
  pub tmp_pos : Position
  pub tiles : List Position

module _ (is_sight_clear : Position → Position → Bool) where
  unfoldable pub scan_cell : MatrixArea → Position → ℕ → ℕ → Scan → Scan
  scan_cell area target y x s =
      let p = s.tmp_pos in
      record {
        tiles = if area.cells y x && is_sight_clear target p then p ∷ s.tiles else s.tiles;
        tmp_pos = record p { x = (p.x + 1) % u16_mod };
      }

  unfoldable pub scan_row : MatrixArea → Position → ℕ → Scan → Scan
  unfolding loop scan_cell
  scan_row area target y s =
      let s' = loop area.cols 0 (scan_cell area target y) s in
      let p = s'.tmp_pos in
      record s' {
        tmp_pos = record p {
          x = (p.x + u32_mod - area.cols % u32_mod) % u16_mod;
          y = (p.y + 1) % u16_mod;
        };
      }

  abbrev pub first_pos : MatrixArea → Position → Position
  first_pos area target = record target {
    x = (target.x + u32_mod - area.center_x) % u16_mod;
    y = (target.y + u32_mod - area.center_y) % u16_mod;
  }

  unfoldable pub scan_area : MatrixArea → Position → Scan
  unfolding loop scan_row
  scan_area area target =
      loop area.rows 0 (scan_row area target)
        (record { tmp_pos = first_pos area target; tiles = [] })

  unfoldable pub get_list : AreaCombat → Position → Position → List Position
  unfolding get_area scan_area
  get_list c center target = elim (get_area c center target) [
    | none ↦ []
    | some area ↦ (scan_area area target).tiles
  ]
