-- ===== src/Pathing/Nodes.antt =====
-- What holds of the nodes throughout a search, and that the steps of AStarNodes keep it.
use tibia_server.Base.{
  ℕ, zero, suc, ◌+◌, ◌*◌, ◌≤◌, ◌<◌, Bool, true, false, Option, none, some, ◌≡◌, refl, sym, ◌∙◌,
  arith, inl, inr, clash,
}
use tibia_server.Base.Update.{no_node, put-cases, some_inj}
use tibia_server.Pathing.{AStarNodes, World, new_nodes, table_key}
use tibia_server.Pathing.Search.{Shift, shifted, less, same, more}

pub shifted-lt : (d : Shift) (n : ℕ) → n < 65536 → shifted d n < 65536
shifted-lt less n h = omega arith
shifted-lt same n h = h
shifted-lt more n h = omega arith

pub table_key_inj :
    (x y a b : ℕ) → y < 65536 → b < 65536 → table_key x y ≡ table_key a b → (x ≡ a) × (y ≡ b)
table_key_inj x y a b h k e = (omega arith, omega arith)

-- A later state still has the nodes of an earlier one, where they were, and none has become dearer.
pub record IsLater (s s' : AStarNodes) : Type 0 where
  pub grown : s.cur_node ≤ s'.cur_node
  pub x_kept : (i : ℕ) → i < s.cur_node → (s'.nodes i).x ≡ (s.nodes i).x
  pub y_kept : (i : ℕ) → i < s.cur_node → (s'.nodes i).y ≡ (s.nodes i).y
  pub no_dearer : (i : ℕ) → i < s.cur_node → (s'.nodes i).f ≤ (s.nodes i).f

pub IsLater-refl : (s : AStarNodes) → IsLater s s
IsLater-refl s = record {
  grown = omega arith;
  x_kept = λ i h. refl;
  y_kept = λ i h. refl;
  no_dearer = λ i h. omega arith;
}

pub IsLater-trans : (s t u : AStarNodes) → IsLater s t → IsLater t u → IsLater s u
IsLater-trans s t u p q = record {
  grown = omega (arith, p.grown, q.grown);
  x_kept = λ i h. q.x_kept i (omega (arith, p.grown)) ∙ p.x_kept i h;
  y_kept = λ i h. q.y_kept i (omega (arith, p.grown)) ∙ p.y_kept i h;
  no_dearer = λ i h. omega (arith, p.no_dearer i h, q.no_dearer i (omega (arith, p.grown)));
}

module _ (w : World) (start_x start_y : ℕ) where
  -- The node i comes a step after its parent, and costs at least a straight step more.
  pub record IsChild (s : AStarNodes) (i : ℕ) : Type 0 where
    pub p : ℕ
    pub p_lt : p < s.cur_node
    pub is_parent : (s.nodes i).parent ≡ some p
    pub dearer : (s.nodes p).f + 10 ≤ (s.nodes i).f
    pub dx : Shift
    pub dy : Shift
    pub x_shifted : (s.nodes i).x ≡ shifted dx (s.nodes p).x
    pub y_shifted : (s.nodes i).y ≡ shifted dy (s.nodes p).y
    pub walkable : w.can_walk_to (s.nodes i).x (s.nodes i).y ≡ true

  pub record IsSearch (s : AStarNodes) : Type 0 where
    pub root : s.nodes 0 ≡ record { parent = none; f = 0; x = start_x; y = start_y }
    pub not_empty : 0 < s.cur_node
    pub no_more : s.cur_node ≤ 512
    pub linked : (i : ℕ) → 0 < i → i < s.cur_node → IsChild s i
    pub cheap : (i : ℕ) → i < s.cur_node → (s.nodes i).f ≤ 235 * i
    pub small_x : (i : ℕ) → i < s.cur_node → (s.nodes i).x < 65536
    pub small_y : (i : ℕ) → i < s.cur_node → (s.nodes i).y < 65536
    pub found_at :
        (x y i : ℕ)
        → x < 65536
        → y < 65536
        → s.node_table (table_key x y) ≡ some i
        → (i < s.cur_node) × ((s.nodes i).x ≡ x) × ((s.nodes i).y ≡ y)
    pub all_open : (i : ℕ) → s.open_nodes i ≡ true → i < s.cur_node

  only_first {ℓ} : (Q : ℕ → Type ℓ) → Q 0 → (i : ℕ) → i < 1 → Q i
  only_first Q q zero h = q
  only_first Q q (suc i) h = absurd (omega arith)

  pub new_nodes-IsSearch : start_x < 65536 → start_y < 65536 → IsSearch (new_nodes start_x start_y)
  new_nodes-IsSearch h k = record {
    root = refl;
    not_empty = omega arith;
    no_more = omega arith;
    linked = λ i a b. absurd (omega arith);
    cheap = only_first (λ i. ((new_nodes start_x start_y).nodes i).f ≤ 235 * i) (omega arith);
    small_x = only_first (λ i. ((new_nodes start_x start_y).nodes i).x < 65536) h;
    small_y = only_first (λ i. ((new_nodes start_x start_y).nodes i).y < 65536) k;
    found_at = λ x y i a b e. found x y i a b e;
    all_open = λ i e. elim (put-cases {A = Bool} (λ k. false) 0 i true) [
      | inl (first, c) ↦ omega (arith, first)
      | inr (_, c) ↦ absurd (clash (sym c ∙ e))
    ];
  }
    where
      found :
          (x y i : ℕ)
          → x < 65536
          → y < 65536
          → (new_nodes start_x start_y).node_table (table_key x y) ≡ some i
          → (i < 1)
            × (((new_nodes start_x start_y).nodes i).x ≡ x)
            × (((new_nodes start_x start_y).nodes i).y ≡ y)
      found x y i a b e =
          elim (put-cases {A = Option ℕ} (λ k. none) (table_key start_x start_y) (table_key x y)
            (some 0)) [
              | inl (same_key, c) ↦
                  let at = table_key_inj start_x start_y x y k b (sym same_key) in
                  first i (some_inj (sym c ∙ e)) at
              | inr (_, c) ↦ absurd (no_node (sym c ∙ e))
            ]
        where
          first :
              (i : ℕ)
              → 0 ≡ i
              → (start_x ≡ x) × (start_y ≡ y)
              → (i < 1)
                × (((new_nodes start_x start_y).nodes i).x ≡ x)
                × (((new_nodes start_x start_y).nodes i).y ≡ y)
          first zero e at = (omega arith, at.0, at.1)
          first (suc i) e at = absurd (omega (arith, e))
