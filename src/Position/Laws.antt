-- ===== src/Position/Laws.antt =====
-- The order and the arithmetic of positions.
use tibia_server.Base.{ℕ, ◌+◌, ◌*◌, ◌<◌, ltb, ◌≡◌, refl, arith, leb}
use tibia_server.Position.{
  Position, position_lt, position_gt, position_add, position_sub, are_in_range_z, step_up,
  step_down, Direction, get_next_position, north, east, south, west, southwest, southeast,
  northwest, northeast, direction_none,
}

-- The coordinates fit their words.
pub record IsPosition (p : Position) : Type 0 where
  pub x_lt : p.x < 65536
  pub y_lt : p.y < 65536
  pub z_lt : p.z < 256

-- The coordinates in one number, the floor first and x last.
abbrev pub key : Position → ℕ
key p = (p.z * 65536 + p.y) * 65536 + p.x

position_lt-key :
    (p q : Position) → IsPosition p → IsPosition q → position_lt p q ≡ ltb (key p) (key q)
unfolding position_lt
position_lt-key p q hp hq = ground (arith, hp.x_lt, hp.y_lt, hq.x_lt, hq.y_lt)

position_gt-key :
    (p q : Position) → IsPosition p → IsPosition q → position_gt p q ≡ leb (key q) (key p)
unfolding position_gt position_lt
position_gt-key p q hp hq = ground (arith, hp.x_lt, hp.y_lt, hq.x_lt, hq.y_lt)

-- On positions whose coordinates fit their words, operator< is the order of the keys; operator> also
-- holds of equal positions: it is the order "not below".
pub position_lt-position_gt-key :
    (p q : Position)
    → IsPosition p
    → IsPosition q
    → (position_lt p q ≡ ltb (key p) (key q)) × (position_gt p q ≡ leb (key q) (key p))
position_lt-position_gt-key p q hp hq = (position_lt-key p q hp hq, position_gt-key p q hp hq)

-- Equal coordinates make equal positions.
pub position_ext : {p q : Position} → p.x ≡ q.x → p.y ≡ q.y → p.z ≡ q.z → p ≡ q
position_ext hx hy hz = λ i. record { x = hx i; y = hy i; z = hz i }

pub step_down-step_up : (n : ℕ) → n < 65536 → step_down (step_up n) ≡ n
step_down-step_up n h = omega arith

pub step_up-step_down : (n : ℕ) → n < 65536 → step_up (step_down n) ≡ n
step_up-step_down n h = omega arith

-- operator- undoes operator+, on words that wrap around.
pub position_sub-position_add :
    (p q : Position) → IsPosition p → IsPosition q → position_sub (position_add p q) q ≡ p
unfolding position_sub position_add
position_sub-position_add p q hp hq = position_ext (omega arith) (omega arith) (omega arith)

-- Each direction turned round.
abbrev pub opposite : Direction → Direction
opposite north = south
opposite south = north
opposite west = east
opposite east = west
opposite southwest = northeast
opposite northeast = southwest
opposite northwest = southeast
opposite southeast = northwest
opposite direction_none = direction_none

-- A step in any direction and one in the opposite direction lead back, also across the border of
-- the map, where the coordinates wrap around.
pub get_next_position-opposite :
    (d : Direction) (p : Position)
    → IsPosition p
    → get_next_position (opposite d) (get_next_position d p) ≡ p
unfolding get_next_position
get_next_position-opposite north p hp = position_ext refl (step_up-step_down p.y hp.y_lt) refl
get_next_position-opposite east p hp = position_ext (step_down-step_up p.x hp.x_lt) refl refl
get_next_position-opposite south p hp = position_ext refl (step_down-step_up p.y hp.y_lt) refl
get_next_position-opposite west p hp = position_ext (step_up-step_down p.x hp.x_lt) refl refl
get_next_position-opposite southwest p hp =
    position_ext (step_up-step_down p.x hp.x_lt) (step_down-step_up p.y hp.y_lt) refl
get_next_position-opposite southeast p hp =
    position_ext (step_down-step_up p.x hp.x_lt) (step_down-step_up p.y hp.y_lt) refl
get_next_position-opposite northwest p hp =
    position_ext (step_up-step_down p.x hp.x_lt) (step_up-step_down p.y hp.y_lt) refl
get_next_position-opposite northeast p hp =
    position_ext (step_down-step_up p.x hp.x_lt) (step_up-step_down p.y hp.y_lt) refl
get_next_position-opposite direction_none p hp = position_ext refl refl refl

-- are_in_range reads its two positions in either order.
pub are_in_range_z_comm :
    (dx dy dz : ℕ) (p q : Position) → are_in_range_z dx dy dz p q ≡ are_in_range_z dx dy dz q p
unfolding are_in_range_z
are_in_range_z_comm dx dy dz p q = ground arith
