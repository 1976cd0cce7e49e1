-- ===== src/Pathing/Changes.antt =====
-- What a new node keeps of the others.
use tibia_server.Base.{ℕ, suc, ◌+◌, ◌*◌, ◌≤◌, ◌<◌, true, some, ◌≡◌, refl, sym, ◌∙◌, arith, inl, inr}
use tibia_server.Base.Update.{==_no, put, put-cases, put_other, put_same, some_inj}
use tibia_server.Pathing.{AStarNode, AStarNodes, World, added, table_key}
use tibia_server.Pathing.Search.{Shift, shifted}
use tibia_server.Pathing.Nodes.{IsChild, IsLater, IsSearch, shifted-lt, table_key_inj}

-- A step from the node n to the place (x, y), at the cost f in all.
pub record IsStep (s : AStarNodes) (n x y f : ℕ) : Type 0 where
  pub n_lt : n < s.cur_node
  pub dx : Shift
  pub dy : Shift
  pub x_shifted : x ≡ shifted dx (s.nodes n).x
  pub y_shifted : y ≡ shifted dy (s.nodes n).y
  pub dearer : (s.nodes n).f + 10 ≤ f
  pub cheap : f ≤ (s.nodes n).f + 235

module _ (w : World) (start_x start_y : ℕ) where
  pub IsChild-later :
      (s s' : AStarNodes)
      → IsLater s s'
      → (i : ℕ) → i < s.cur_node
      → (s'.nodes i).parent ≡ (s.nodes i).parent
      → (s'.nodes i).f ≡ (s.nodes i).f
      → IsChild w start_x start_y s i
      → IsChild w start_x start_y s' i
  IsChild-later s s' l i h e g c = record {
    p = c.p;
    p_lt = omega (arith, c.p_lt, l.grown);
    is_parent = e ∙ c.is_parent;
    dearer = omega (arith, c.dearer, l.no_dearer c.p c.p_lt, g);
    dx = c.dx;
    dy = c.dy;
    x_shifted = rw (l.x_kept i h, l.x_kept c.p c.p_lt) c.x_shifted;
    y_shifted = rw (l.y_kept i h, l.y_kept c.p c.p_lt) c.y_shifted;
    walkable = rw (l.x_kept i h, l.y_kept i h) c.walkable;
  }

  module _ (s : AStarNodes) (n x y f : ℕ) where
    abbrev child : AStarNode
    child = record { parent = some n; f = f; x = x; y = y }

    pub added-IsLater : IsLater s (added n x y f s)
    added-IsLater = record {
      grown = omega arith;
      x_kept = λ i h. rw (==_no i s.cur_node (λ e. omega (arith, e))) refl;
      y_kept = λ i h. rw (==_no i s.cur_node (λ e. omega (arith, e))) refl;
      no_dearer = λ i h. rw (==_no i s.cur_node (λ e. omega (arith, e))) (omega arith);
    }

    -- What holds of the nodes and of the new one holds of all of the nodes then.
    each {ℓ} :
        (Q : ℕ → AStarNode → Type ℓ)
        → ((i : ℕ) → i < s.cur_node → Q i (s.nodes i))
        → Q s.cur_node child
        → (i : ℕ) → i < suc s.cur_node
        → Q i (put s.nodes s.cur_node child i)
    each Q old new i h = elim (put-cases s.nodes s.cur_node i child) [
      | inl (e, c) ↦ rw (c, e) new
      | inr (e, c) ↦ rw c (old i (omega (arith, e)))
    ]

    new-IsChild :
        IsSearch w start_x start_y s
        → IsStep s n x y f
        → w.can_walk_to x y ≡ true
        → IsChild w start_x start_y (added n x y f s) s.cur_node
    new-IsChild g t free =
        let at_new = put_same s.nodes s.cur_node s.cur_node child refl in
        let at_n = put_other s.nodes s.cur_node n child (λ e. omega (arith, e, t.n_lt)) in
        record {
          p = n;
          p_lt = omega (arith, t.n_lt);
          is_parent = rw at_new refl;
          dearer = rw (at_new, at_n) t.dearer;
          dx = t.dx;
          dy = t.dy;
          x_shifted = rw (at_new, at_n) t.x_shifted;
          y_shifted = rw (at_new, at_n) t.y_shifted;
          walkable = rw at_new free;
        }

    found_new :
        IsSearch w start_x start_y s
        → IsStep s n x y f
        → (a b i : ℕ) → a < 65536
        → b < 65536
        → put s.node_table (table_key x y) (some s.cur_node) (table_key a b) ≡ some i
        → (i < suc s.cur_node)
          × ((put s.nodes s.cur_node child i).x ≡ a)
          × ((put s.nodes s.cur_node child i).y ≡ b)
    found_new g t a b i h k e =
        elim (put-cases s.node_table (table_key x y) (table_key a b) (some s.cur_node)) [
          | inl (same_key, c) ↦
              let small : y < 65536 = rw t.y_shifted (shifted-lt t.dy _ (g.small_y n t.n_lt)) in
              let at = table_key_inj x y a b small k (sym same_key) in
              let new = some_inj (sym c ∙ e) in
              let there = put_same s.nodes s.cur_node i child (sym new) in
              (omega (arith, new), rw there at.0, rw there at.1)
          | inr (_, c) ↦
              let old = g.found_at a b i h k (sym c ∙ e) in
              let there = put_other s.nodes s.cur_node i child (λ e. omega (arith, e, old.0)) in
              (omega (arith, old.0), rw there old.1, rw there old.2)
        ]

    pub added-IsSearch :
        IsSearch w start_x start_y s
        → IsStep s n x y f
        → s.cur_node < 512
        → w.can_walk_to x y ≡ true
        → IsSearch w start_x start_y (added n x y f s)
    added-IsSearch g t room free = record {
      root = put_other s.nodes s.cur_node 0 child (λ e. omega (arith, e, g.not_empty)) ∙ g.root;
      not_empty = omega arith;
      no_more = omega arith;
      linked = λ i a b. elim (put-cases s.nodes s.cur_node i child) [
        | inl (e, c) ↦ rw e (new-IsChild g t free)
        | inr (e, c) ↦
            IsChild-later s (added n x y f s) added-IsLater i (omega (arith, e)) (rw c refl)
              (rw c refl) (g.linked i a (omega (arith, e)))
      ];
      cheap =
          each (λ i m. m.f ≤ 235 * i) g.cheap (omega (arith, t.cheap, g.cheap n t.n_lt, t.n_lt));
      small_x =
          each (λ i m. m.x < 65536) g.small_x
            (rw t.x_shifted (shifted-lt t.dx _ (g.small_x n t.n_lt)));
      small_y =
          each (λ i m. m.y < 65536) g.small_y
            (rw t.y_shifted (shifted-lt t.dy _ (g.small_y n t.n_lt)));
      found_at = found_new g t;
      all_open = λ i e. elim (put-cases s.open_nodes s.cur_node i true) [
        | inl (c, _) ↦ omega (arith, c)
        | inr (_, c) ↦ omega (arith, g.all_open i (sym c ∙ e))
      ];
    }
