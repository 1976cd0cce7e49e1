-- ===== src/Pathing/Follows.antt =====
-- The directions that the last loop of getPathMatching collects, and the walk along them.
use tibia_server.Base.{
  ℕ, zero, suc, ◌+◌, ◌<◌, Bool, true, false, ◌&&◌, List, [], ◌∷◌, ◌≡◌, ◌≢◌, refl, sym, arith, ◌==◌,
  if◌then◌else◌, subst,
}
use tibia_server.Base.Update.{==_no, ==_yes}
use tibia_server.Position.{
  Position, Direction, north, east, south, west, southwest, southeast, northwest, northeast,
  get_next_position,
}
use tibia_server.Pathing.{AStarNode, AStarNodes, World}
use tibia_server.Pathing.Search.{
  Shift, less, same, more, shifted, out_of_fuel, path, trace, push_direction,
}
use tibia_server.Pathing.Nodes.{IsSearch, IsChild}

-- Steps in the directions given lead from p to q, and each ends where one can walk.
unfoldable pub LeadsTo : World → List Direction → Position → Position → Type 0
LeadsTo w [] p q = p ≡ q
LeadsTo w (d ∷ dirs) p q =
    (w.can_walk_to (get_next_position d p).x (get_next_position d p).y ≡ true)
    × LeadsTo w dirs (get_next_position d p) q

-- Not at the edge of the coordinates, where a step would lead round to the other side.
abbrev pub IsInner : ℕ → Type 0
IsInner n = (0 < n) × (n < 65535)

abbrev is_less : Shift → Bool
is_less less = true
is_less same = false
is_less more = false

abbrev is_more : Shift → Bool
is_more less = false
is_more same = false
is_more more = true

other : {dirs : List Direction} → path dirs ≡ out_of_fuel → ⊥
other e = cc

path_inj : {dirs found : List Direction} → path dirs ≡ path found → dirs ≡ found
path_inj e = cc

shifted-tests :
    (d : Shift) (n : ℕ)
    → IsInner n
    → ((n == shifted d n + 1) ≡ is_less d) × ((n + 1 == shifted d n) ≡ is_more d)
shifted-tests less n h = (==_yes _ _ (omega arith), ==_no _ _ (λ e. omega (arith, e)))
shifted-tests same n h = (==_no _ _ (λ e. omega (arith, e)), ==_no _ _ (λ e. omega (arith, e)))
shifted-tests more n h = (==_no _ _ (λ e. omega (arith, e)), ==_yes _ _ (omega arith))

abbrev heading : Shift → Shift → List Direction → List Direction
heading less less dirs = northwest ∷ dirs
heading less same dirs = west ∷ dirs
heading less more dirs = southwest ∷ dirs
heading same less dirs = north ∷ dirs
heading same same dirs = dirs
heading same more dirs = south ∷ dirs
heading more less dirs = northeast ∷ dirs
heading more same dirs = east ∷ dirs
heading more more dirs = southeast ∷ dirs

push_direction-heading :
    (dx dy : Shift) (x y : ℕ) (dirs : List Direction)
    → IsInner x
    → IsInner y
    → push_direction x y (shifted dx x) (shifted dy y) dirs ≡ heading dx dy dirs
push_direction-heading dx dy x y dirs h k =
    let tx = shifted-tests dx x h in
    let ty = shifted-tests dy y k in rw (tx.0, tx.1, ty.0, ty.1) (picked dx dy)
  where
    picked :
        (dx dy : Shift)
        → (if is_less dx && is_less dy
            then northwest ∷ dirs
            else if is_more dx && is_less dy
            then northeast ∷ dirs
            else if is_less dx && is_more dy
            then southwest ∷ dirs
            else if is_more dx && is_more dy
            then southeast ∷ dirs
            else if is_less dx
            then west ∷ dirs
            else if is_more dx
            then east ∷ dirs
            else if is_less dy
            then north ∷ dirs
            else if is_more dy
            then south ∷ dirs
            else dirs)
          ≡ heading dx dy dirs
    picked less less = refl
    picked less same = refl
    picked less more = refl
    picked same less = refl
    picked same same = refl
    picked same more = refl
    picked more less = refl
    picked more same = refl
    picked more more = refl

follows_heading :
    (w : World) (dx dy : Shift) (p q : Position) (dirs : List Direction)
    → w.can_walk_to (shifted dx p.x) (shifted dy p.y) ≡ true
    → LeadsTo w dirs (record p { x = shifted dx p.x; y = shifted dy p.y }) q
    → LeadsTo w (heading dx dy dirs) p q
unfolding LeadsTo get_next_position
follows_heading w less less p q dirs c f = (c, f)
follows_heading w less same p q dirs c f = (c, f)
follows_heading w less more p q dirs c f = (c, f)
follows_heading w same less p q dirs c f = (c, f)
follows_heading w same same p q dirs c f = f
follows_heading w same more p q dirs c f = (c, f)
follows_heading w more less p q dirs c f = (c, f)
follows_heading w more same p q dirs c f = (c, f)
follows_heading w more more p q dirs c f = (c, f)

module _ (w : World) (start_x start_y z : ℕ) where
  abbrev pub node_position : AStarNode → Position
  node_position m = record { x = m.x; y = m.y; z = z }

  -- A start and places to walk on that are not at the edge.
  pub record AreInner : Type 0 where
    pub start_x_inner : IsInner start_x
    pub start_y_inner : IsInner start_y
    pub x_inner : (x y : ℕ) → w.can_walk_to x y ≡ true → IsInner x
    pub y_inner : (x y : ℕ) → w.can_walk_to x y ≡ true → IsInner y

  module _ (inner : AreInner) (s : AStarNodes) (g : IsSearch w start_x start_y s) where
    node_x-IsInner : (i : ℕ) → i < s.cur_node → IsInner (s.nodes i).x
    node_x-IsInner zero h = rw g.root inner.start_x_inner
    node_x-IsInner (suc i) h = inner.x_inner _ _ (g.linked (suc i) (omega arith) h).walkable

    node_y-IsInner : (i : ℕ) → i < s.cur_node → IsInner (s.nodes i).y
    node_y-IsInner zero h = rw g.root inner.start_y_inner
    node_y-IsInner (suc i) h = inner.y_inner _ _ (g.linked (suc i) (omega arith) h).walkable

    step_follows :
        (i : ℕ) (c : IsChild w start_x start_y s i) (dirs : List Direction) (q : Position)
        → LeadsTo w dirs (node_position (s.nodes i)) q
        → LeadsTo w
            (push_direction (s.nodes c.p).x (s.nodes c.p).y (s.nodes i).x (s.nodes i).y dirs)
            (node_position (s.nodes c.p))
            q
    step_follows i c dirs q f =
        rw
          (
            c.x_shifted,
            c.y_shifted,
            push_direction-heading c.dx c.dy _ _ dirs (node_x-IsInner c.p c.p_lt)
                (node_y-IsInner c.p c.p_lt),
          )
          (follows_heading w c.dx c.dy (node_position (s.nodes c.p)) q dirs
            (rw (c.x_shifted, c.y_shifted) at c.walkable) (rw (c.x_shifted, c.y_shifted) at f))

    pub trace-follows :
        (fuel i : ℕ) (dirs found : List Direction) (q : Position)
        → i < s.cur_node
        → LeadsTo w dirs (node_position (s.nodes i)) q
        → trace fuel s i dirs ≡ path found
        → LeadsTo w found (record { x = start_x; y = start_y; z = z }) q
    unfolding trace
    trace-follows zero i dirs found q l f e = absurd (other (sym e))
    trace-follows (suc fuel) zero dirs found q l f e =
        subst (λ d. LeadsTo w d (record { x = start_x; y = start_y; z = z }) q)
          (path_inj (rw (trace, g.root) at e)) (rw g.root at f)
    trace-follows (suc fuel) (suc i) dirs found q l f e =
        let c = g.linked (suc i) (omega arith) l in
        trace-follows fuel c.p _ found q c.p_lt (step_follows (suc i) c dirs q f)
          (rw (trace, c.is_parent) at e)

  pub trace-ends :
      (s : AStarNodes) (fuel i : ℕ) (dirs : List Direction)
      → IsSearch w start_x start_y s
      → i < s.cur_node
      → (s.nodes i).f < fuel
      → trace fuel s i dirs ≢ out_of_fuel
  unfolding trace
  trace-ends s zero i dirs g l h = absurd (omega arith)
  trace-ends s (suc fuel) zero dirs g l h = rw (trace, g.root) (λ e. other e)
  trace-ends s (suc fuel) (suc i) dirs g l h =
      let c = g.linked (suc i) (omega arith) l in
      rw (trace, c.is_parent) (trace-ends s fuel c.p _ g c.p_lt (omega (arith, c.dearer)))
