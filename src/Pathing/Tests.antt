-- ===== src/Pathing/Tests.antt =====
-- Searches in a small world.
use tibia_server.Base.{
  ℕ, ◌<◌, true, false, not, ◌&&◌, some, List, [], ◌∷◌, ◌==◌, ltb, ◌≡◌, ◌≢◌, ◌⊎◌, refl, arith,
}
use tibia_server.Position.{Direction, north, east, south}
use tibia_server.Pathing.{AStarNodes, World, new_nodes, get_best_node}
use tibia_server.Pathing.Condition.{FindPathParams}
use tibia_server.Pathing.Search.{
  less, same, more, out_of_fuel, no_path, path, offer_all, get_path_matching,
}
use tibia_server.Pathing.Nodes.{IsSearch, new_nodes-IsSearch}
use tibia_server.Pathing.Rounds.{IsOffered}
use tibia_server.Pathing.Offers.{after, offer_all-IsOffered}
use tibia_server.Pathing.Follows.{AreInner}
use tibia_server.Pathing.Ends.{IsWay, get_path_matching-ends, get_path_matching-IsWay}
use tibia_server.Pathing.Best.{IsBest, get_best_node-IsBest}

-- A field of 20 by 20 places, with a wall across it that has a gap.
abbrev field_with_wall : World
field_with_wall = record {
  can_walk_to =
      λ x y. ltb 99 x && ltb x 120 && ltb 99 y && ltb y 120 && not (x == 105 && not (y == 107));
  has_creature = λ x y. false;
  has_harmful_field = λ x y. false;
  is_sight_clear = λ x y a b. true;
}

abbrev next_to : FindPathParams
next_to = record {
  full_path_search = true;
  clear_sight = true;
  allow_diagonal = true;
  keep_distance = false;
  max_search_dist = 0;
  min_target_dist = 0;
  max_target_dist = some 1;
}

straight : get_path_matching field_with_wall next_to 104 105 101 105 1000 ≡ path (east ∷ east ∷ [])
unfolding get_path_matching
straight = refl

through_the_gap :
    get_path_matching field_with_wall next_to 108 105 103 105 1000
    ≡ path (south ∷ east ∷ south ∷ east ∷ east ∷ north ∷ east ∷ [])
unfolding get_path_matching
through_the_gap = refl

abbrev first_nodes : AStarNodes
first_nodes = new_nodes 103 105

first_nodes-IsSearch : IsSearch field_with_wall 103 105 first_nodes
first_nodes-IsSearch = new_nodes-IsSearch field_with_wall 103 105 (omega arith) (omega arith)

cheap_first : (i : ℕ) → i < 1 → (first_nodes.nodes i).f < 2147483647
cheap_first i h = omega (arith, first_nodes-IsSearch.cheap i h)

field_with_wall-AreInner : AreInner field_with_wall 103 105 7
field_with_wall-AreInner = record {
  start_x_inner = (omega arith, omega arith);
  start_y_inner = (omega arith, omega arith);
  x_inner = λ x y h. ground arith;
  y_inner = λ x y h. ground arith;
}

get_path_matching-ends_example :
    get_path_matching field_with_wall next_to 108 105 103 105 123000000 ≢ out_of_fuel
get_path_matching-ends_example =
    get_path_matching-ends field_with_wall next_to 108 105 103 105 123000000 (omega arith)
      (omega arith) (omega arith)

get_path_matching-IsWay_example :
    (get_path_matching field_with_wall next_to 108 105 103 105 123000000 ≡ no_path)
    ⊎ ((dirs : List Direction) × (get_path_matching field_with_wall next_to 108 105 103 105
            123000000
          ≡ path dirs)
        × IsWay field_with_wall next_to 108 105 103 105 7 dirs)
get_path_matching-IsWay_example =
    get_path_matching-IsWay field_with_wall next_to 108 105 103 105 7 123000000
      field_with_wall-AreInner (omega arith)

offer_all-IsOffered_example : IsOffered field_with_wall 103 105 0 first_nodes (
    after (
      offer_all field_with_wall next_to 108 105 103 105 0 0
        ((less, same) ∷ (more, more) ∷ [])
        first_nodes))
offer_all-IsOffered_example =
    offer_all-IsOffered field_with_wall next_to 108 105 103 105 0 0
      ((less, same) ∷ (more, more) ∷ []) first_nodes refl first_nodes-IsSearch (omega arith)

get_best_node-IsBest_example : IsBest first_nodes (get_best_node first_nodes)
get_best_node-IsBest_example = get_best_node-IsBest first_nodes cheap_first
