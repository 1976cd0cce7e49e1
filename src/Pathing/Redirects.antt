-- ===== src/Pathing/Redirects.antt =====
-- What a cheaper parent keeps of the nodes.
use tibia_server.Base.{
  ℕ, zero, suc, ◌+◌, ◌*◌, ◌≤◌, ◌<◌, some, ◌≡◌, ◌≢◌, refl, sym, ◌∙◌, arith, inl, inr,
}
use tibia_server.Base.Update.{put-cases, put_other, put_same}
use tibia_server.Pathing.{AStarNode, AStarNodes, World}
use tibia_server.Pathing.Search.{redirected}
use tibia_server.Pathing.Nodes.{IsChild, IsLater, IsSearch}
use tibia_server.Pathing.Changes.{IsStep, IsChild-later}

module _ (w : World) (start_x start_y : ℕ) where
  module _ (s : AStarNodes) (n m f : ℕ) where
    abbrev moved : AStarNode
    moved = record (s.nodes m) { parent = some n; f = f }

    -- What holds of the nodes, and at m of the changed one, holds of all of the nodes then.
    each_redirected {ℓ} :
        (Q : ℕ → AStarNode → Type ℓ)
        → ((i : ℕ) → i < s.cur_node → Q i (s.nodes i))
        → (m < s.cur_node → Q m (s.nodes m) → Q m moved)
        → (i : ℕ) → i < s.cur_node
        → Q i ((redirected n m f s).nodes i)
    each_redirected Q old new i h = elim (put-cases s.nodes m i moved) [
      | inl (e, c) ↦ let m_lt : m < s.cur_node = rw (sym e) h in rw (c, e) (new m_lt (old m m_lt))
      | inr (e, c) ↦ rw c (old i h)
    ]

    pub redirected-IsLater : f ≤ (s.nodes m).f → IsLater s (redirected n m f s)
    redirected-IsLater less = record {
      grown = omega arith;
      x_kept = each_redirected (λ i k. k.x ≡ (s.nodes i).x) (λ i h. refl) (λ h e. e);
      y_kept = each_redirected (λ i k. k.y ≡ (s.nodes i).y) (λ i h. refl) (λ h e. e);
      no_dearer = each_redirected (λ i k. k.f ≤ (s.nodes i).f) (λ i h. omega arith) (λ h e. less);
    }

    pub step_apart : IsStep s n (s.nodes m).x (s.nodes m).y f → f < (s.nodes m).f → n ≢ m
    step_apart t less e = too_dear e t.dearer
      where
        too_dear : n ≡ m → (s.nodes n).f + 10 ≤ f → ⊥
        too_dear e d = omega (arith, less, (rw e at d))

    redirected-IsChild :
        IsSearch w start_x start_y s
        → IsStep s n (s.nodes m).x (s.nodes m).y f
        → f < (s.nodes m).f
        → 0 < m
        → m < s.cur_node
        → IsChild w start_x start_y (redirected n m f s) m
    redirected-IsChild g t less pos m_lt =
        let at_m = put_same s.nodes m m moved refl in
        let at_n = put_other s.nodes m n moved (step_apart t less) in
        record {
          p = n;
          p_lt = t.n_lt;
          is_parent = rw at_m refl;
          dearer = rw (at_m, at_n) t.dearer;
          dx = t.dx;
          dy = t.dy;
          x_shifted = rw (at_m, at_n) t.x_shifted;
          y_shifted = rw (at_m, at_n) t.y_shifted;
          walkable = rw at_m (g.linked m pos m_lt).walkable;
        }

    pub redirected-IsSearch :
        IsSearch w start_x start_y s
        → IsStep s n (s.nodes m).x (s.nodes m).y f
        → f < (s.nodes m).f
        → m < s.cur_node
        → IsSearch w start_x start_y (redirected n m f s)
    redirected-IsSearch g t less m_lt = record {
      root = put_other s.nodes m 0 moved (λ e. omega (arith, e, pos)) ∙ g.root;
      not_empty = g.not_empty;
      no_more = g.no_more;
      linked = λ i a b. elim (put-cases s.nodes m i moved) [
        | inl (e, c) ↦ rw e (redirected-IsChild g t less pos m_lt)
        | inr (e, c) ↦
            IsChild-later w start_x start_y s (redirected n m f s)
              (redirected-IsLater (omega (arith, less))) i b (rw c refl) (rw c refl)
              (g.linked i a b)
      ];
      cheap = each_redirected (λ i k. k.f ≤ 235 * i) g.cheap (λ h k. omega (arith, less, k));
      small_x = each_redirected (λ i k. k.x < 65536) g.small_x (λ h k. k);
      small_y = each_redirected (λ i k. k.y < 65536) g.small_y (λ h k. k);
      found_at = λ a b i h k e.
          let old = g.found_at a b i h k e in
          let later = redirected-IsLater (omega (arith, less)) in
          (old.0, later.x_kept i old.0 ∙ old.1, later.y_kept i old.0 ∙ old.2);
      all_open = g.all_open;
    }
      where
        positive : (m : ℕ) → f < (s.nodes m).f → 0 < m
        positive zero h = absurd (dear (rw g.root at h))
          where
            dear : f < 0 → ⊥
            dear h = omega arith
        positive (suc m) h = omega arith

        pos : 0 < m
        pos = positive m less
