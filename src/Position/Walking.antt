-- ===== src/Position/Walking.antt =====
-- getDirectionTo and getNextPosition together.
use tibia_server.Base.{
  ℕ, zero, suc, Bool, true, false, refl, ap, ap₂, ◌∙◌, ◌+◌, ◌-◌, ltb, if◌then◌else◌, ◌<◌, ◌≡◌, max,
  arith,
}
use tibia_server.Position.{
  Position, get_distance_x, get_distance_y, get_direction_to, get_next_position, abs_offset,
  Direction, north,
}
use tibia_server.Position.Laws.{position_ext, IsPosition}

-- The steps that a walker needs, of which a diagonal one counts once.
abbrev pub steps : Position → Position → ℕ
steps p q = max (get_distance_x p q) (get_distance_y p q)

-- A coordinate moved by one towards another.
abbrev pub toward : ℕ → ℕ → ℕ
toward a b = if ltb a b then a + 1 else if ltb b a then a - 1 else a

next-x :
    (p q : Position)
    → IsPosition p
    → IsPosition q
    → 0 < steps p q
    → (get_next_position (get_direction_to p q) p).x
      ≡ (if ltb (get_distance_x p q) (get_distance_y p q) then p.x else toward p.x q.x)
unfolding get_direction_to get_next_position
next-x p q hp hq h = ground (arith, hp.x_lt, hp.y_lt, hq.x_lt, hq.y_lt)

next-y :
    (p q : Position)
    → IsPosition p
    → IsPosition q
    → 0 < steps p q
    → (get_next_position (get_direction_to p q) p).y
      ≡ (if ltb (get_distance_y p q) (get_distance_x p q) then p.y else toward p.y q.y)
unfolding get_direction_to get_next_position
next-y p q hp hq h = ground (arith, hp.x_lt, hp.y_lt, hq.x_lt, hq.y_lt)

abs_offset-toward : (a b : ℕ) → abs_offset (toward a b) b ≡ abs_offset a b - 1
abs_offset-toward a b = ground arith

abs_offset-if :
    (t : Bool) (a b : ℕ)
    → abs_offset (if t then a else toward a b) b
      ≡ (if t then abs_offset a b else abs_offset a b - 1)
abs_offset-if true a b = refl
abs_offset-if false a b = abs_offset-toward a b

max-pred :
    (m n : ℕ)
    → 0 < max m n
    → suc (max (if ltb m n then m else m - 1) (if ltb n m then n else n - 1)) ≡ max m n
max-pred m n h = ground arith

-- A step in the direction that get_direction_to gives takes away one of the steps between two
-- positions that differ in x or in y.
pub step-closer :
    (p q : Position)
    → IsPosition p
    → IsPosition q
    → 0 < steps p q
    → suc (steps (get_next_position (get_direction_to p q) p) q) ≡ steps p q
step-closer p q hp hq h =
    ap suc (
      ap₂ max (ap (λ a. abs_offset a q.x) (next-x p q hp hq h) ∙ abs_offset-if _ p.x q.x)
        (ap (λ a. abs_offset a q.y) (next-y p q hp hq h) ∙ abs_offset-if _ p.y q.y))
    ∙ max-pred (get_distance_x p q) (get_distance_y p q) h

next-z : (d : Direction) (p : Position) → (get_next_position d p).z ≡ p.z
unfolding get_next_position
next-z north p = refl
next-z d p = refl

get_next_position-IsPosition :
    (d : Direction) (p : Position) → IsPosition p → IsPosition (get_next_position d p)
unfolding get_next_position
get_next_position-IsPosition north p hp = record {
  x_lt = hp.x_lt;
  y_lt = omega arith;
  z_lt = hp.z_lt;
}
get_next_position-IsPosition d p hp = record {
  x_lt = omega arith;
  y_lt = omega arith;
  z_lt = hp.z_lt;
}

-- So many steps, each in the direction that get_direction_to gives.
unfoldable pub walk_to : ℕ → Position → Position → Position
walk_to zero p q = p
walk_to (suc n) p q = walk_to n (get_next_position (get_direction_to p q) p) q

-- On one floor, a walk in the directions that get_direction_to gives ends at its goal, after as many
-- steps as the greater of the two distances.
pub walk_to-arrives :
    (n : ℕ) (p q : Position)
    → IsPosition p
    → IsPosition q
    → p.z ≡ q.z
    → steps p q ≡ n
    → walk_to n p q ≡ q
unfolding walk_to
walk_to-arrives zero p q hp hq hz hn = position_ext (ground arith) (ground arith) hz
walk_to-arrives (suc n) p q hp hq hz hn =
    let d = get_direction_to p q in
    walk_to-arrives n (get_next_position d p) q (get_next_position-IsPosition d p hp) hq
      (next-z d p ∙ hz) (omega (arith, step-closer p q hp hq (omega arith)))
