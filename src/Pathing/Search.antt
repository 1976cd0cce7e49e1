-- ===== src/Pathing/Search.antt =====
-- Map::getPathMatching (compiler/src/map.cpp), on fuel for its loops.
use tibia_server.Base.{
  ℕ, zero, suc, ◌+◌, Bool, not, ◌&&◌, ◌||◌, List, [], ◌∷◌, Option, none, some, ltb, leb, ◌==◌,
  is_some, if◌then◌else◌,
}
use tibia_server.Base.Update.{put}
use tibia_server.Position.{
  abs_offset, step_up, step_down, Direction, north, east, south, west, southwest, southeast,
  northwest, northeast, direction_none,
}
use tibia_server.Pathing.{
  AStarNode, AStarNodes, World, new_nodes, create_open_node, get_best_node, close_node, open_node,
  get_node_by_position, get_map_walk_cost, get_tile_walk_cost,
}
use tibia_server.Pathing.Condition.{FindPathParams, is_in_range, path_condition}

-- An entry -1, 0 or 1 of the tables of neighbours, added to a coordinate of 16 bits.
pub data Shift : Type 0 where
  less same more : Shift

abbrev pub shifted : Shift → ℕ → ℕ
shifted less n = step_down n
shifted same n = n
shifted more n = step_up n

-- dirNeighbors; without diagonals only the first three count.
abbrev pub dir_neighbors : Direction → List (Shift × Shift)
dir_neighbors north = (less, same) ∷ (same, more) ∷ (more, same) ∷ (more, more) ∷ (less, more) ∷ []
dir_neighbors east = (less, same) ∷ (same, more) ∷ (same, less) ∷ (less, less) ∷ (less, more) ∷ []
dir_neighbors south = (less, same) ∷ (more, same) ∷ (same, less) ∷ (less, less) ∷ (more, less) ∷ []
dir_neighbors west = (same, more) ∷ (more, same) ∷ (same, less) ∷ (more, less) ∷ (more, more) ∷ []
dir_neighbors southwest =
    (more, same) ∷ (same, less) ∷ (less, less) ∷ (more, less) ∷ (more, more) ∷ []
dir_neighbors southeast =
    (less, same) ∷ (same, less) ∷ (less, less) ∷ (more, less) ∷ (less, more) ∷ []
dir_neighbors northwest =
    (same, more) ∷ (more, same) ∷ (more, less) ∷ (more, more) ∷ (less, more) ∷ []
dir_neighbors northeast =
    (less, same) ∷ (same, more) ∷ (less, less) ∷ (more, more) ∷ (less, more) ∷ []
dir_neighbors direction_none = []

abbrev pub all_neighbors : List (Shift × Shift)
all_neighbors =
    (less, same)
    ∷ (same, more)
    ∷ (more, same)
    ∷ (same, less)
    ∷ (less, less)
    ∷ (more, less)
    ∷ (more, more)
    ∷ (less, more)
    ∷ []

abbrev pub first_three : List (Shift × Shift) → List (Shift × Shift)
first_three (a ∷ b ∷ c ∷ rest) = a ∷ b ∷ c ∷ []
first_three ns = ns

-- The direction by the offset of the parent, `parent.x - x` and `parent.y - y`.
abbrev pub parent_direction : Bool → AStarNode → AStarNode → Direction
parent_direction allow_diagonal p n =
    let west_of = p.x + 1 == n.x in
    let north_of = p.y + 1 == n.y in
    if p.y == n.y
    then if west_of then west else east
    else if not allow_diagonal || p.x == n.x
    then if north_of then north else south
    else if north_of
    then if west_of then northwest else northeast
    else if west_of
    then southwest
    else southeast

unfoldable pub neighbors : Bool → AStarNodes → AStarNode → List (Shift × Shift)
neighbors allow_diagonal s n = of_parent n.parent
  where
    of_parent : Option ℕ → List (Shift × Shift)
    of_parent none = all_neighbors
    of_parent (some p) =
        let ns = dir_neighbors (parent_direction allow_diagonal (s.nodes p) n) in
        if allow_diagonal then ns else first_three ns

-- An iteration over the neighbours goes on with the nodes, leaves the loop, or answers false.
pub data Offered : Type 0 where
  going : AStarNodes → Offered
  full : AStarNodes → Offered

-- The direction pushed for a step from the parent at (px, py) to (x, y).
abbrev pub push_direction : ℕ → ℕ → ℕ → ℕ → List Direction → List Direction
push_direction px py x y dirs =
    let dx_more = px == x + 1 in
    let dx_less = px + 1 == x in
    let dy_more = py == y + 1 in
    let dy_less = py + 1 == y in
    if dx_more && dy_more
    then northwest ∷ dirs
    else if dx_less && dy_more
    then northeast ∷ dirs
    else if dx_more && dy_less
    then southwest ∷ dirs
    else if dx_less && dy_less
    then southeast ∷ dirs
    else if dx_more
    then west ∷ dirs
    else if dx_less
    then east ∷ dirs
    else if dy_more
    then north ∷ dirs
    else if dy_less
    then south ∷ dirs
    else dirs

pub data Outcome : Type 0 where
  out_of_fuel no_path : Outcome
  path : List Direction → Outcome

-- The last loop, from the node where the way ends back along the parents.
unfoldable pub trace : ℕ → AStarNodes → ℕ → List Direction → Outcome
trace zero s i dirs = out_of_fuel
trace (suc fuel) s i dirs = elim (s.nodes i).parent [
  | none ↦ path dirs
  | some p ↦
      trace fuel s p (push_direction (s.nodes p).x (s.nodes p).y (s.nodes i).x (s.nodes i).y dirs)
]

-- A neighbour that has a node gets another parent and cost, where these make it cheaper.
abbrev pub redirected : ℕ → ℕ → ℕ → AStarNodes → AStarNodes
redirected n m newf s = record s {
  nodes = put s.nodes m (record (s.nodes m) { parent = some n; f = newf });
}

unfoldable pub improve : ℕ → ℕ → ℕ → AStarNodes → AStarNodes
unfolding open_node
improve n m newf s = if leb (s.nodes m).f newf then s else open_node m (redirected n m newf s)

unfoldable pub finish : ℕ → Option ℕ → AStarNodes → Outcome
unfolding trace
finish fuel none s = no_path
finish fuel (some i) s = trace fuel s i []

module _ (w : World) (fpp : FindPathParams) (target_x target_y start_x start_y : ℕ) where
  -- The tests before a neighbour is looked at, and canWalkTo for one without a node.
  abbrev pub is_beyond : ℕ → ℕ → Bool
  is_beyond x y =
      not (fpp.max_search_dist == 0)
      && (ltb fpp.max_search_dist (abs_offset start_x x)
          || ltb fpp.max_search_dist (abs_offset start_y y))

  abbrev pub is_passed : ℕ → ℕ → Bool
  is_passed x y =
      is_beyond x y
      || (fpp.keep_distance && not (is_in_range target_x target_y fpp start_x start_y x y))

  abbrev pub new_f : ℕ → AStarNode → ℕ → ℕ → ℕ
  new_f f n x y = f + get_map_walk_cost n x y + get_tile_walk_cost w x y

  -- The body of the loop over the neighbours, for the place (x, y).
  unfoldable pub offer : ℕ → ℕ → ℕ → ℕ → AStarNodes → Offered
  unfolding improve create_open_node get_map_walk_cost get_tile_walk_cost
  offer f n x y s = if is_passed x y then going s else elim (get_node_by_position x y s) [
    | some m ↦ going (improve n m (new_f f (s.nodes n) x y) s)
    | none ↦
        if not (w.can_walk_to x y)
        then going s
        else elim (create_open_node n x y (new_f f (s.nodes n) x y) s) [
          | none ↦ full s
          | some s' ↦ going s'
        ]
  ]

  unfoldable pub offer_all : ℕ → ℕ → List (Shift × Shift) → AStarNodes → Offered
  unfolding offer
  offer_all f n [] s = going s
  offer_all f n ((dx, dy) ∷ ns) s =
      elim (offer f n (shifted dx (s.nodes n).x) (shifted dy (s.nodes n).y) s) [
        | going s' ↦ offer_all f n ns s'
        | full s' ↦ full s'
      ]

  -- Where the array is full, the search ends if nothing was found, or else goes on with the node closed.
  unfoldable pub search_loop : ℕ → Option ℕ → ℕ → AStarNodes → Outcome
  unfolding offer_all finish get_best_node close_node neighbors path_condition
  search_loop zero found best_match s = out_of_fuel
  search_loop (suc fuel) found best_match s =
      if not (not (fpp.max_search_dist == 0) || ltb s.closed_nodes 100)
      then finish fuel found s
      else elim (get_best_node s) [
        | none ↦ finish fuel found s
        | some n ↦
            let (hit, best) =
              path_condition target_x target_y w fpp start_x start_y (s.nodes n).x (s.nodes n).y
                best_match in
            let found' = if hit then some n else found in
            if hit && best == 0
            then finish fuel found' s
            else elim (offer_all (s.nodes n).f n (neighbors fpp.allow_diagonal s (s.nodes n)) s) [
              | going s' ↦ search_loop fuel found' best (close_node n s')
              | full s' ↦
                  if is_some found' then search_loop fuel found' best (close_node n s') else no_path
            ]
      ]

  unfoldable pub get_path_matching : ℕ → Outcome
  unfolding search_loop
  get_path_matching fuel = search_loop fuel none 0 (new_nodes start_x start_y)
