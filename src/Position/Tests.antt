-- ===== src/Position/Tests.antt =====
-- Runs of the functions on positions, and the theorems about them at concrete positions.
use tibia_server.Base.{ltb, leb, ◌≡◌, refl, arith}
use tibia_server.Position.{
  Position, Direction, northwest, position_lt, position_gt, get_direction_to,
}
use tibia_server.Position.Laws.{IsPosition, key, position_lt-position_gt-key}
use tibia_server.Position.Walking.{walk_to, walk_to-arrives}

abbrev temple : Position
temple = record { x = 1000; y = 65535; z = 7 }

abbrev depot : Position
depot = record { x = 1003; y = 65530; z = 7 }

abbrev corner : Position
corner = record { x = 0; y = 0; z = 7 }

temple-IsPosition : IsPosition temple
temple-IsPosition = record { x_lt = omega arith; y_lt = omega arith; z_lt = omega arith }

depot-IsPosition : IsPosition depot
depot-IsPosition = record { x_lt = omega arith; y_lt = omega arith; z_lt = omega arith }

corner-IsPosition : IsPosition corner
corner-IsPosition = record { x_lt = omega arith; y_lt = omega arith; z_lt = omega arith }

get_direction_to_itself : get_direction_to temple temple ≡ northwest
unfolding get_direction_to
get_direction_to_itself = refl

get_direction_to-corner : get_direction_to corner temple ≡ Direction.south
unfolding get_direction_to
get_direction_to-corner = refl

depot_and_temple :
    (position_lt depot temple ≡ ltb (key depot) (key temple))
    × (position_gt depot temple ≡ leb (key temple) (key depot))
depot_and_temple = position_lt-position_gt-key depot temple depot-IsPosition temple-IsPosition

walk_to-arrives_example : walk_to 5 temple depot ≡ depot
walk_to-arrives_example =
    walk_to-arrives 5 temple depot temple-IsPosition depot-IsPosition refl refl
