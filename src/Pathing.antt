-- ===== src/Pathing.antt =====
-- The search for a way: class AStarNodes and Map::getPathMatching (compiler/src/map.cpp, map.h) and
-- class FrozenPathingConditionCall (compiler/src/creature.cpp, creature.h). A pointer to a node is
-- its index in the array. A search stays on one floor, so a place is its two coordinates, words of
-- 16 bits.
pub mod Condition
pub mod Search
pub mod Nodes
pub mod Changes
pub mod Redirects
pub mod Potential
pub mod Rounds
pub mod Offers
pub mod Follows
pub mod Ends
pub mod Best
mod Tests
use tibia_server.Base.{
  ℕ, zero, suc, ◌+◌, ◌-◌, ◌*◌, Bool, true, false, not, ◌&&◌, ◌||◌, Option, none, some, ltb, leb,
  ◌==◌, if◌then◌else◌,
}
use tibia_server.Base.Update.{put}
use tibia_server.Position.{abs_offset}

pub record AStarNode : Type 0 where
  pub parent : Option ℕ
  pub f : ℕ
  pub x : ℕ
  pub y : ℕ

pub record AStarNodes : Type 0 where
  pub nodes : ℕ → AStarNode
  pub open_nodes : ℕ → Bool
  pub node_table : ℕ → Option ℕ
  pub cur_node : ℕ
  pub closed_nodes : ℕ

abbrev pub max_nodes : ℕ
max_nodes = 512

abbrev pub map_normal_walk_cost : ℕ
map_normal_walk_cost = 10

abbrev pub map_diagonal_walk_cost : ℕ
map_diagonal_walk_cost = 25

-- (x << 16) | y
abbrev pub table_key : ℕ → ℕ → ℕ
table_key x y = x * 65536 + y

-- AStarNodes::AStarNodes
abbrev pub new_nodes : ℕ → ℕ → AStarNodes
new_nodes x y = record {
  nodes =
      put (λ i. record { parent = none; f = 0; x = 0; y = 0 }) 0
        (record { parent = none; f = 0; x = x; y = y });
  open_nodes = put (λ i. false) 0 true;
  node_table = put (λ k. none) (table_key x y) (some 0);
  cur_node = 1;
  closed_nodes = 0;
}

-- What createOpenNode does past its guard.
abbrev pub added : ℕ → ℕ → ℕ → ℕ → AStarNodes → AStarNodes
added parent x y f s = record {
  nodes = put s.nodes s.cur_node (record { parent = some parent; f = f; x = x; y = y });
  open_nodes = put s.open_nodes s.cur_node true;
  node_table = put s.node_table (table_key x y) (some s.cur_node);
  cur_node = suc s.cur_node;
  closed_nodes = s.closed_nodes;
}

unfoldable pub create_open_node : ℕ → ℕ → ℕ → ℕ → AStarNodes → Option AStarNodes
create_open_node parent x y f s =
    if leb max_nodes s.cur_node then none else some (added parent x y f s)

-- The loop of getBestNode, from the node i on.
unfoldable pub scan_best : ℕ → ℕ → ℕ → Option ℕ → AStarNodes → Option ℕ
scan_best zero i best_f best s = best
scan_best (suc n) i best_f best s =
    let better = s.open_nodes i && ltb (s.nodes i).f best_f in
    scan_best n (suc i) (if better then (s.nodes i).f else best_f) (if better then some i else best)
      s

-- getBestNode; best_node_f starts at the greatest int32_t.
unfoldable pub get_best_node : AStarNodes → Option ℕ
unfolding scan_best
get_best_node s = scan_best s.cur_node 0 2147483647 none s

unfoldable pub close_node : ℕ → AStarNodes → AStarNodes
close_node i s = record s {
  open_nodes = put s.open_nodes i false;
  closed_nodes = suc s.closed_nodes;
}

unfoldable pub open_node : ℕ → AStarNodes → AStarNodes
open_node i s =
    if not (s.open_nodes i)
    then record s { open_nodes = put s.open_nodes i true; closed_nodes = s.closed_nodes - 1 }
    else s

abbrev pub get_node_by_position : ℕ → ℕ → AStarNodes → Option ℕ
get_node_by_position x y s = s.node_table (table_key x y)

unfoldable pub get_map_walk_cost : AStarNode → ℕ → ℕ → ℕ
get_map_walk_cost node x y =
    if abs_offset node.x x == abs_offset node.y y
    then map_diagonal_walk_cost
    else map_normal_walk_cost

-- What the search asks of the game world: whether the creature can walk on a tile (canWalkTo),
-- whether it would meet another creature there (getTopVisibleCreature), whether a field lies there
-- that hurts it, and whether there is a clear sight (isSightClear).
pub record World : Type 0 where
  pub can_walk_to : ℕ → ℕ → Bool
  pub has_creature : ℕ → ℕ → Bool
  pub has_harmful_field : ℕ → ℕ → Bool
  pub is_sight_clear : ℕ → ℕ → ℕ → ℕ → Bool

unfoldable pub get_tile_walk_cost : World → ℕ → ℕ → ℕ
get_tile_walk_cost w x y =
    (if w.has_creature x y then map_normal_walk_cost * 3 else 0)
    + (if w.has_harmful_field x y then map_normal_walk_cost * 18 else 0)
