-- ===== src/Position.antt =====
-- compiler/src/position.h and the functions on directions of compiler/src/tools.cpp. Coordinates are
-- words of 16, 16 and 8 bits. An offset `p1 - p2` is negative where p1 is less, and its absolute
-- value is the distance.
pub mod Laws
pub mod Walking
mod Tests
use tibia_server.Base.{
  ℕ, suc, ◌+◌, ◌-◌, ◌%◌, Bool, true, false, not, ◌&&◌, ◌||◌, ltb, leb, ◌==◌, if◌then◌else◌,
}
use tibia_server.Base.Word.{u16_mod}

-- struct Position
pub record Position : Type 0 where
  pub x : ℕ
  pub y : ℕ
  pub z : ℕ

pub data Direction : Type 0 where
  north east south west southwest southeast northwest northeast direction_none : Direction

abbrev pub u8_mod : ℕ
u8_mod = 256

-- std::abs of the difference of two coordinates.
abbrev pub abs_offset : ℕ → ℕ → ℕ
abs_offset a b = if ltb a b then b - a else a - b

abbrev pub get_distance_x : Position → Position → ℕ
get_distance_x p q = abs_offset p.x q.x

abbrev pub get_distance_y : Position → Position → ℕ
get_distance_y p q = abs_offset p.y q.y

abbrev pub get_distance_z : Position → Position → ℕ
get_distance_z p q = abs_offset p.z q.z

-- areInRange<deltax, deltay>
unfoldable pub are_in_range : ℕ → ℕ → Position → Position → Bool
are_in_range dx dy p q = leb (get_distance_x p q) dx && leb (get_distance_y p q) dy

-- areInRange<deltax, deltay, deltaz>
unfoldable pub are_in_range_z : ℕ → ℕ → ℕ → Position → Position → Bool
are_in_range_z dx dy dz p q =
    leb (get_distance_x p q) dx && leb (get_distance_y p q) dy && leb (get_distance_z p q) dz

-- operator<
unfoldable pub position_lt : Position → Position → Bool
position_lt p q =
    if ltb p.z q.z
    then true
    else if ltb q.z p.z
    then false
    else if ltb p.y q.y
    then true
    else if ltb q.y p.y
    then false
    else if ltb p.x q.x
    then true
    else false

-- operator>
unfoldable pub position_gt : Position → Position → Bool
unfolding position_lt
position_gt p q = not (position_lt p q)

-- operator==
unfoldable pub position_eq : Position → Position → Bool
position_eq p q = q.x == p.x && q.y == p.y && q.z == p.z

-- operator!=
unfoldable pub position_ne : Position → Position → Bool
position_ne p q = not (q.x == p.x) || not (q.y == p.y) || not (q.z == p.z)

-- operator+
unfoldable pub position_add : Position → Position → Position
position_add p q = record {
  x = (p.x + q.x) % u16_mod;
  y = (p.y + q.y) % u16_mod;
  z = (p.z + q.z) % u8_mod;
}

-- operator-
unfoldable pub position_sub : Position → Position → Position
position_sub p q = record {
  x = (p.x + u16_mod - q.x) % u16_mod;
  y = (p.y + u16_mod - q.y) % u16_mod;
  z = (p.z + u8_mod - q.z) % u8_mod;
}

-- `++` and `--` on a coordinate of 16 bits.
abbrev pub step_up : ℕ → ℕ
step_up n = (n + 1) % u16_mod

abbrev pub step_down : ℕ → ℕ
step_down n = (n + (u16_mod - 1)) % u16_mod

unfoldable pub get_next_position : Direction → Position → Position
get_next_position north p = record p { y = step_down p.y }
get_next_position south p = record p { y = step_up p.y }
get_next_position west p = record p { x = step_down p.x }
get_next_position east p = record p { x = step_up p.x }
get_next_position southwest p = record p { x = step_down p.x; y = step_up p.y }
get_next_position northwest p = record p { x = step_down p.x; y = step_down p.y }
get_next_position northeast p = record p { x = step_up p.x; y = step_down p.y }
get_next_position southeast p = record p { x = step_up p.x; y = step_up p.y }
get_next_position direction_none p = p

-- The tests `y_offset > x_offset` and `y_offset == x_offset` on the absolute offsets, where `dir` is
-- the direction along x so far, and the others are those of the half that `to` lies in.
abbrev pub choose_direction : ℕ → ℕ → Direction → Direction → Direction → Direction
choose_direction x_offset y_offset dir straight diagonal =
    if ltb x_offset y_offset then straight else if y_offset == x_offset then diagonal else dir

unfoldable pub get_direction_to : Position → Position → Direction
get_direction_to from to =
    let is_east = ltb from.x to.x in
    let dir = if is_east then east else west in
    let x_offset = get_distance_x from to in
    let y_offset = get_distance_y from to in
    if leb to.y from.y
    then choose_direction x_offset y_offset dir north (if is_east then northeast else northwest)
    else choose_direction x_offset y_offset dir south (if is_east then southeast else southwest)
