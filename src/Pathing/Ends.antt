-- ===== src/Pathing/Ends.antt =====
-- How a search ends.
use tibia_server.Base.{
  is_some, ℕ, zero, suc, ◌+◌, ◌≤◌, ◌<◌, Bool, true, false, not, ◌&&◌, ◌||◌, Option, none, some,
  List, [], ◌≡◌, ◌≢◌, refl, arith, inl, inr, Bool-cases, Option-cases, ltb, ◌==◌, if◌then◌else◌,
  ◌⊎◌, subst,
}
use tibia_server.Position.{Position, Direction}
use tibia_server.Pathing.{AStarNodes, World, new_nodes, get_best_node, close_node}
use tibia_server.Pathing.Condition.{FindPathParams, path_condition}
use tibia_server.Pathing.Search.{
  Outcome, out_of_fuel, no_path, path, trace, Offered, going, full, offer_all, finish, neighbors,
  search_loop, get_path_matching,
}
use tibia_server.Pathing.Nodes.{IsSearch, IsLater, new_nodes-IsSearch}
use tibia_server.Pathing.Potential.{potential, close_node-potential}
use tibia_server.Pathing.Rounds.{IsOffered, close_node-IsSearch}
use tibia_server.Pathing.Offers.{after, offer_all-IsOffered}
use tibia_server.Pathing.Follows.{LeadsTo, AreInner, node_position, trace-follows, trace-ends}
use tibia_server.Pathing.Best.{IsBest, get_best_node-IsBest}

-- Fuel enough for `trace`, from any node.
abbrev trace_fuel : ℕ
trace_fuel = 120086

-- Fuel enough for every search: the potential of its first state, and the trace.
abbrev pub enough_fuel : ℕ
enough_fuel = 123000000

module _ (w : World) (fpp : FindPathParams) (target_x target_y start_x start_y z : ℕ) where
  -- The place is one where the search may stop, against some best distance so far.
  abbrev pub CanStop : ℕ → ℕ → Type 0
  CanStop x y =
      (best : ℕ) × ((path_condition target_x target_y w fpp start_x start_y x y best).0 ≡ true)

  abbrev IsFound : AStarNodes → Option ℕ → Type 0
  IsFound s none = Unit {0}
  IsFound s (some i) = (i < s.cur_node) × CanStop (s.nodes i).x (s.nodes i).y

  -- The directions lead over places to walk on to a place where the search may stop.
  abbrev pub IsWay : List Direction → Type 0
  IsWay dirs =
      (q : Position) × LeadsTo w dirs (record { x = start_x; y = start_y; z = z }) q
      × CanStop q.x q.y

  abbrev pub IsRight : Outcome → Type 0
  IsRight out_of_fuel = ⊥
  IsRight no_path = Unit {0}
  IsRight (path dirs) = AreInner w start_x start_y z → IsWay dirs

  finish-IsRight :
      (fuel : ℕ) (found : Option ℕ) (s : AStarNodes)
      → IsSearch w start_x start_y s
      → IsFound s found
      → trace_fuel ≤ fuel
      → IsRight (finish fuel found s)
  unfolding finish LeadsTo
  finish-IsRight fuel none s g h k = tt
  finish-IsRight fuel (some i) s g h k = traced (trace fuel s i []) refl
    where
      traced : (o : Outcome) → trace fuel s i [] ≡ o → IsRight o
      traced out_of_fuel e =
          trace-ends w start_x start_y z s fuel i [] g h.0
            (omega (arith, k, g.cheap i h.0, h.0, g.no_more)) e
      traced no_path e = tt
      traced (path dirs) e = λ inner. (
        node_position w start_x start_y z (s.nodes i),
        trace-follows w start_x start_y z inner s g fuel i [] dirs _ h.0 refl e,
        h.1,
      )

  IsFound-later :
      (s s' : AStarNodes) (found : Option ℕ) → IsLater s s' → IsFound s found → IsFound s' found
  IsFound-later s s' none l h = tt
  IsFound-later s s' (some i) l h =
      (omega (arith, h.0, l.grown), rw (l.x_kept i h.0, l.y_kept i h.0) h.1)

  module _ (fuel : ℕ) where
    -- What is to be shown of the search with this fuel.
    abbrev IsRightAt : Type 0
    IsRightAt =
        (found : Option ℕ) (best : ℕ) (s : AStarNodes)
        → IsSearch w start_x start_y s
        → IsFound s found
        → potential s + trace_fuel < fuel
        → IsRight (search_loop w fpp target_x target_y start_x start_y fuel found best s)

    next_round-IsRight :
        IsRightAt
        → (n : ℕ) (found : Option ℕ) (best : ℕ) (s s' : AStarNodes) → IsFound s found
        → n < s.cur_node
        → s.open_nodes n ≡ true
        → IsOffered w start_x start_y n s s'
        → potential s + trace_fuel < suc fuel
        → IsRight
            (search_loop w fpp target_x target_y start_x start_y fuel found best (close_node n s'))
    unfolding close_node
    next_round-IsRight ih n found best s s' h l c o k =
        let n_lt : n < s'.cur_node = omega (arith, l, o.later.grown) in
        let l' : IsLater s (close_node n s') = record {
          grown = o.later.grown;
          x_kept = o.later.x_kept;
          y_kept = o.later.y_kept;
          no_dearer = o.later.no_dearer;
        } in
        let less = close_node-potential s' n n_lt (o.still_open c) in
        ih found best (close_node n s') (close_node-IsSearch w start_x start_y n s' o.search)
          (IsFound-later s (close_node n s') found l' h) (omega (arith, less, k, o.no_greater))

    offered-IsRight :
        IsRightAt
        → (n : ℕ) (found : Option ℕ) (best : ℕ) (s : AStarNodes) → IsFound s found
        → n < s.cur_node
        → s.open_nodes n ≡ true
        → potential s + trace_fuel < suc fuel
        → (o : Offered) → IsOffered w start_x start_y n s (after o)
        → IsRight (elim o [
          | going s' ↦
              search_loop w fpp target_x target_y start_x start_y fuel found best (close_node n s')
          | full s' ↦
              if is_some found
              then search_loop w fpp target_x target_y start_x start_y fuel found best
                  (close_node n s')
              else no_path
        ])
    offered-IsRight ih n found best s h l c k (going s') o =
        next_round-IsRight ih n found best s s' h l c o k
    offered-IsRight ih n none best s h l c k (full s') o = tt
    offered-IsRight ih n (some i) best s h l c k (full s') o =
        next_round-IsRight ih n (some i) best s s' h l c o k

  new-IsFound :
      (s : AStarNodes) (n : ℕ) (found : Option ℕ) (best : ℕ) (hit : Bool)
      → (path_condition target_x target_y w fpp start_x start_y (s.nodes n).x (s.nodes n).y best).0
        ≡ hit
      → n < s.cur_node
      → IsFound s found
      → IsFound s (if hit then some n else found)
  new-IsFound s n found best true e l h = (l, (best, e))
  new-IsFound s n found best false e l h = h

  tested-IsRight :
      (fuel : ℕ)
      → IsRightAt fuel
      → (n : ℕ) (found : Option ℕ) (best : ℕ) (stop : Bool) (s : AStarNodes)
      → IsSearch w start_x start_y s
      → IsFound s found
      → n < s.cur_node
      → s.open_nodes n ≡ true
      → potential s + trace_fuel < suc fuel
      → IsRight (
          if stop
          then finish fuel found s
          else elim (offer_all w fpp target_x target_y start_x start_y
              (s.nodes n).f
              n
              (neighbors fpp.allow_diagonal s (s.nodes n))
              s) [
                | going s' ↦
                    search_loop w fpp target_x target_y start_x start_y fuel found best
                      (close_node n s')
                | full s' ↦
                    if is_some found
                    then search_loop w fpp target_x target_y start_x start_y fuel found best
                        (close_node n s')
                    else no_path
              ])
  tested-IsRight fuel ih n found best true s g h l c k =
      finish-IsRight fuel found s g h (omega (arith, k))
  tested-IsRight fuel ih n found best false s g h l c k =
      offered-IsRight fuel ih n found best s h l c k _
        (offer_all-IsOffered w fpp target_x target_y start_x start_y (s.nodes n).f n _ s refl g l)

  search_loop-IsRight : (fuel : ℕ) → IsRightAt fuel
  unfolding search_loop IsBest
  search_loop-IsRight zero found best s g h k = absurd (omega arith)
  search_loop-IsRight (suc fuel) found best s g h k =
      elim (Bool-cases (not (not (fpp.max_search_dist == 0) || ltb s.closed_nodes 100))) [
        | inl c ↦ rw (search_loop, c) (finish-IsRight fuel found s g h (omega (arith, k)))
        | inr c ↦ elim (Option-cases (get_best_node s)) [
          | inl e ↦ rw (search_loop, c, e) (finish-IsRight fuel found s g h (omega (arith, k)))
          | inr (n, e) ↦
              let (l, c', cheapest) =
                subst (IsBest s) e
                  (get_best_node-IsBest s (λ i h. omega (arith, g.cheap i h, h, g.no_more))) in
              let pc =
                path_condition target_x target_y w fpp start_x start_y (s.nodes n).x (s.nodes n).y
                  best in
              rw (search_loop, c, e)
                (tested-IsRight fuel (search_loop-IsRight fuel) n (if pc.0 then some n else found)
                  pc.1 (pc.0 && pc.1 == 0) s g (new-IsFound s n found best pc.0 refl l h) l c' k)
        ]
      ]

  get_path_matching-IsRight :
      (fuel : ℕ)
      → start_x < 65536
      → start_y < 65536
      → enough_fuel ≤ fuel
      → IsRight (get_path_matching w fpp target_x target_y start_x start_y fuel)
  unfolding get_path_matching potential
  get_path_matching-IsRight fuel h k enough =
      search_loop-IsRight fuel none 0 (new_nodes start_x start_y)
        (new_nodes-IsSearch w start_x start_y h k) tt (omega arith)

  -- Where neither the start nor a place to walk on is at the edge of the coordinates, a search finds
  -- no path, or finds directions that lead from the start, each step to a place to walk on, to a
  -- place at which the condition of the search has held.
  pub get_path_matching-IsWay :
      (fuel : ℕ)
      → AreInner w start_x start_y z
      → enough_fuel ≤ fuel
      → let outcome = get_path_matching w fpp target_x target_y start_x start_y fuel in
        (outcome ≡ no_path) ⊎ ((dirs : List Direction) × (outcome ≡ path dirs) × IsWay dirs)
  get_path_matching-IsWay fuel inner enough =
      cases (get_path_matching w fpp target_x target_y start_x start_y fuel) (
        get_path_matching-IsRight fuel (omega (arith, inner.start_x_inner.1))
          (omega (arith, inner.start_y_inner.1)) enough)
    where
      cases :
          (o : Outcome)
          → IsRight o
          → (o ≡ no_path) ⊎ ((dirs : List Direction) × (o ≡ path dirs) × IsWay dirs)
      cases out_of_fuel h = absurd h
      cases no_path h = inl refl
      cases (path dirs) h = inr (dirs, refl, h inner)

module _ (w : World) (fpp : FindPathParams) (target_x target_y start_x start_y : ℕ) where
  -- Every search ends: on fuel for 123 million rounds, none runs out of it, whatever the world is
  -- like and whatever is asked for.
  pub get_path_matching-ends :
      (fuel : ℕ)
      → start_x < 65536
      → start_y < 65536
      → enough_fuel ≤ fuel
      → get_path_matching w fpp target_x target_y start_x start_y fuel ≢ out_of_fuel
  get_path_matching-ends fuel h k enough e =
      subst (IsRight w fpp target_x target_y start_x start_y 0) e
        (get_path_matching-IsRight w fpp target_x target_y start_x start_y 0 fuel h k enough)
