-- ===== src/Pathing/Offers.antt =====
-- A round of the search: the loop over the neighbours of a node.
use tibia_server.Base.{
  ℕ, ◌+◌, ◌≤◌, ◌<◌, Bool, true, false, List, [], ◌∷◌, ◌≡◌, refl, sym, ◌==◌, arith, inl, inr,
  Bool-cases, Option-cases, leb, if◌then◌else◌,
}
use tibia_server.Pathing.{
  AStarNode, AStarNodes, World, create_open_node, max_nodes, get_map_walk_cost, get_tile_walk_cost,
  get_node_by_position,
}
use tibia_server.Position.{abs_offset}
use tibia_server.Pathing.Condition.{FindPathParams}
use tibia_server.Pathing.Search.{
  Shift, shifted, Offered, going, full, offer, offer_all, is_passed, new_f,
}
use tibia_server.Pathing.Nodes.{IsSearch, shifted-lt}
use tibia_server.Pathing.Changes.{IsStep}
use tibia_server.Pathing.Rounds.{
  IsOffered, added-IsOffered, improve-IsOffered, IsOffered-refl, IsOffered-trans,
}

abbrev pub after : Offered → AStarNodes
after (going s) = s
after (full s) = s

module _ (w : World) (fpp : FindPathParams) (target_x target_y start_x start_y : ℕ) where
  cost_between :
      (n : AStarNode) (x y : ℕ) → (10 ≤ get_map_walk_cost n x y) × (get_map_walk_cost n x y ≤ 25)
  unfolding get_map_walk_cost
  cost_between n x y = pick (abs_offset n.x x == abs_offset n.y y)
    where
      pick : (b : Bool) → (10 ≤ (if b then 25 else 10)) × ((if b then 25 else 10) ≤ 25)
      pick true = (omega arith, omega arith)
      pick false = (omega arith, omega arith)

  extra_le : (x y : ℕ) → get_tile_walk_cost w x y ≤ 210
  unfolding get_tile_walk_cost
  extra_le x y = pick (w.has_creature x y) (w.has_harmful_field x y)
    where
      pick : (b c : Bool) → (if b then 30 else 0) + (if c then 180 else 0) ≤ 210
      pick true true = omega arith
      pick true false = omega arith
      pick false true = omega arith
      pick false false = omega arith

  module _ (n : ℕ) (dx dy : Shift) (s : AStarNodes) where
    abbrev new_x : ℕ
    new_x = shifted dx (s.nodes n).x

    abbrev new_y : ℕ
    new_y = shifted dy (s.nodes n).y

    abbrev new_cost : ℕ
    new_cost = new_f w fpp target_x target_y start_x start_y (s.nodes n).f (s.nodes n) new_x new_y

    step : n < s.cur_node → IsStep s n new_x new_y new_cost
    step l =
        let cost = cost_between (s.nodes n) new_x new_y in
        record {
          n_lt = l;
          dx = dx;
          dy = dy;
          x_shifted = refl;
          y_shifted = refl;
          dearer = omega (arith, cost.0);
          cheap = omega (arith, cost.1, extra_le new_x new_y);
        }

    offer-IsOffered :
        IsSearch w start_x start_y s
        → n < s.cur_node
        → IsOffered w start_x start_y n s
            (after (offer w fpp target_x target_y start_x start_y (s.nodes n).f n new_x new_y s))
    unfolding offer create_open_node
    offer-IsOffered g l =
        elim (Bool-cases (is_passed w fpp target_x target_y start_x start_y new_x new_y)) [
          | inl p ↦ rw (offer, p) (IsOffered-refl w start_x start_y n s g)
          | inr p ↦ elim (Option-cases (get_node_by_position new_x new_y s)) [
            | inr (m, o) ↦
                let at =
                  g.found_at new_x new_y m (shifted-lt dx _ (g.small_x n l))
                    (shifted-lt dy _ (g.small_y n l)) o in
                let t : IsStep s n (s.nodes m).x (s.nodes m).y new_cost =
                  rw (at.1, at.2) (step l) in
                rw (offer, p, o) (improve-IsOffered w start_x start_y n m new_cost s g t at.0)
            | inl o ↦ elim (Bool-cases (w.can_walk_to new_x new_y)) [
              | inr c ↦ rw (offer, p, o, c) (IsOffered-refl w start_x start_y n s g)
              | inl c ↦ elim (Bool-cases (leb max_nodes s.cur_node)) [
                | inl k ↦
                    rw (offer, p, o, c, create_open_node, k)
                      (IsOffered-refl w start_x start_y n s g)
                | inr k ↦
                    let room : s.cur_node < 512 = ground arith in
                    rw (offer, p, o, c, create_open_node, k)
                      (added-IsOffered w start_x start_y n new_x new_y new_cost s g (step l) room c)
              ]
            ]
          ]
        ]

  -- In a search in which every node but the first is a step from its parent, to a place to walk on,
  -- and costs at least 10 more, and no node costs more than 235 times its index, offering a node's
  -- cost to its neighbours keeps all of this, moves no node, makes none dearer, closes not the node
  -- itself and does not change its cost, and lets the potential of the search not grow.
  pub offer_all-IsOffered :
      (f n : ℕ) (ns : List (Shift × Shift)) (s : AStarNodes)
      → f ≡ (s.nodes n).f
      → IsSearch w start_x start_y s
      → n < s.cur_node
      → IsOffered w start_x start_y n s
          (after (offer_all w fpp target_x target_y start_x start_y f n ns s))
  unfolding offer_all
  offer_all-IsOffered f n [] s e g l = IsOffered-refl w start_x start_y n s g
  offer_all-IsOffered f n ((dx, dy) ∷ ns) s e g l = rw e (
      onward
        (offer w fpp target_x target_y start_x start_y (s.nodes n).f n (new_x n dx dy s)
          (new_y n dx dy s) s)
        (offer-IsOffered n dx dy s g l)
        (λ s' e g l. offer_all-IsOffered (s.nodes n).f n ns s' e g l))
    where
      onward :
          (o : Offered)
          → IsOffered w start_x start_y n s (after o)
          → ((s' : AStarNodes)
              → (s.nodes n).f ≡ (s'.nodes n).f
              → IsSearch w start_x start_y s'
              → n < s'.cur_node
              → IsOffered w start_x start_y n s'
                  (after (offer_all w fpp target_x target_y start_x start_y (s.nodes n).f n ns s')))
          → IsOffered w start_x start_y n s (
              after (elim o [
                | going s' ↦ offer_all w fpp target_x target_y start_x start_y (s.nodes n).f n ns s'
                | full s' ↦ full s'
              ]))
      onward (full s') h others = h
      onward (going s') h others =
          IsOffered-trans w start_x start_y n s s' _ h
            (others s' (sym h.same_f) h.search (omega (arith, h.later.grown)))
