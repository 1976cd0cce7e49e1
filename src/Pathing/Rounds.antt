-- ===== src/Pathing/Rounds.antt =====
-- What the loop over the neighbours of a node keeps.
use tibia_server.Base.{
  ℕ, ◌≤◌, ◌<◌, true, false, ◌≡◌, ◌≢◌, refl, sym, ◌∙◌, ◌⊎◌, arith, inl, inr, Bool-cases, leb, clash,
}
use tibia_server.Base.Update.{put-cases, put_other}
use tibia_server.Pathing.{AStarNodes, World, added, close_node, open_node}
use tibia_server.Pathing.Search.{redirected, improve}
use tibia_server.Pathing.Nodes.{IsLater, IsSearch, IsLater-refl, IsLater-trans}
use tibia_server.Pathing.Changes.{IsStep, added-IsLater, added-IsSearch, IsChild-later}
use tibia_server.Pathing.Redirects.{redirected-IsLater, redirected-IsSearch, step_apart}
use tibia_server.Pathing.Potential.{potential, added-potential, improve-potential}

module _ (w : World) (start_x start_y : ℕ) where
  same_nodes-IsLater :
      (s s' : AStarNodes) → s'.nodes ≡ s.nodes → s'.cur_node ≡ s.cur_node → IsLater s s'
  same_nodes-IsLater s s' e c = record {
    grown = omega (arith, c);
    x_kept = λ i h. rw e refl;
    y_kept = λ i h. rw e refl;
    no_dearer = λ i h. rw e (omega arith);
  }

  marked-IsSearch :
      (s s' : AStarNodes)
      → IsSearch w start_x start_y s
      → s'.nodes ≡ s.nodes
      → s'.cur_node ≡ s.cur_node
      → s'.node_table ≡ s.node_table
      → ((i : ℕ) → s'.open_nodes i ≡ true → i < s.cur_node)
      → IsSearch w start_x start_y s'
  marked-IsSearch s s' g e c t o = record {
    root = rw e g.root;
    not_empty = rw c g.not_empty;
    no_more = rw c g.no_more;
    linked = λ i a b.
        let l : i < s.cur_node = rw (sym c) b in
        IsChild-later w start_x start_y s s' (same_nodes-IsLater s s' e c) i l (rw e refl)
          (rw e refl) (g.linked i a l);
    cheap = rw (e, c) g.cheap;
    small_x = rw (e, c) g.small_x;
    small_y = rw (e, c) g.small_y;
    found_at = rw (e, c, t) g.found_at;
    all_open = rw c o;
  }

  pub close_node-IsSearch :
      (n : ℕ) (s : AStarNodes)
      → IsSearch w start_x start_y s
      → IsSearch w start_x start_y (close_node n s)
  unfolding close_node
  close_node-IsSearch n s g = marked-IsSearch s (close_node n s) g refl refl refl (λ i o.
      elim (put-cases s.open_nodes n i false) [
        | inl (_, c) ↦ absurd (clash (sym c ∙ o))
        | inr (_, c) ↦ g.all_open i (sym c ∙ o)
      ])

  -- openNode changes no node, and closes none.
  record IsOpened (s s' : AStarNodes) (m : ℕ) : Type 0 where
    same_nodes : s'.nodes ≡ s.nodes
    same_count : s'.cur_node ≡ s.cur_node
    same_table : s'.node_table ≡ s.node_table
    opened : (i : ℕ) → s'.open_nodes i ≡ true → (i ≡ m) ⊎ (s.open_nodes i ≡ true)
    still_open : (i : ℕ) → s.open_nodes i ≡ true → s'.open_nodes i ≡ true

  open_node-IsOpened : (m : ℕ) (s : AStarNodes) → IsOpened s (open_node m s) m
  unfolding open_node
  open_node-IsOpened m s = elim (Bool-cases (s.open_nodes m)) [
    | inl o ↦ rw o record {
      same_nodes = refl;
      same_count = refl;
      same_table = refl;
      opened = λ i e. inr e;
      still_open = λ i e. e;
    }
    | inr c ↦ rw c record {
      same_nodes = refl;
      same_count = refl;
      same_table = refl;
      opened = λ i b. elim (put-cases s.open_nodes m i true) [
        | inl (e, _) ↦ inl e
        | inr (_, k) ↦ inr (sym k ∙ b)
      ];
      still_open =
          λ i e. elim (put-cases s.open_nodes m i true) [ inl (_, k) ↦ k | inr (_, k) ↦ k ∙ e ];
    }
  ]

  -- What an offer to the node n's neighbours makes of the nodes.
  pub record IsOffered (n : ℕ) (s s' : AStarNodes) : Type 0 where
    pub search : IsSearch w start_x start_y s'
    pub later : IsLater s s'
    pub same_f : (s'.nodes n).f ≡ (s.nodes n).f
    pub still_open : s.open_nodes n ≡ true → s'.open_nodes n ≡ true
    pub no_greater : potential s' ≤ potential s

  pub IsOffered-refl : (n : ℕ) (s : AStarNodes) → IsSearch w start_x start_y s → IsOffered n s s
  IsOffered-refl n s g = record {
    search = g;
    later = IsLater-refl s;
    same_f = refl;
    still_open = λ o. o;
    no_greater = omega arith;
  }

  pub IsOffered-trans :
      (n : ℕ) (s t u : AStarNodes) → IsOffered n s t → IsOffered n t u → IsOffered n s u
  IsOffered-trans n s t u p q = record {
    search = q.search;
    later = IsLater-trans s t u p.later q.later;
    same_f = q.same_f ∙ p.same_f;
    still_open = λ o. q.still_open (p.still_open o);
    no_greater = omega (arith, p.no_greater, q.no_greater);
  }

  pub added-IsOffered :
      (n x y f : ℕ) (s : AStarNodes)
      → IsSearch w start_x start_y s
      → IsStep s n x y f
      → s.cur_node < 512
      → w.can_walk_to x y ≡ true
      → IsOffered n s (added n x y f s)
  added-IsOffered n x y f s g t room free =
      let apart : n ≢ s.cur_node = λ e. omega (arith, e, t.n_lt) in
      record {
        search = added-IsSearch w start_x start_y s n x y f g t room free;
        later = added-IsLater w start_x start_y s n x y f;
        same_f = rw (put_other s.nodes s.cur_node n _ apart) refl;
        still_open = λ o. put_other s.open_nodes s.cur_node n true apart ∙ o;
        no_greater =
            added-potential s n x y f room (omega (arith, t.cheap, t.n_lt, g.cheap n t.n_lt));
      }

  pub improve-IsOffered :
      (n m f : ℕ) (s : AStarNodes)
      → IsSearch w start_x start_y s
      → IsStep s n (s.nodes m).x (s.nodes m).y f
      → m < s.cur_node
      → IsOffered n s (improve n m f s)
  unfolding improve
  improve-IsOffered n m f s g t l = elim (Bool-cases (leb (s.nodes m).f f)) [
    | inl e ↦ rw e (IsOffered-refl n s g)
    | inr e ↦
        let less : f < (s.nodes m).f = ground arith in
        let r = redirected n m f s in
        let k = open_node-IsOpened m r in
        let from = redirected-IsLater w start_x start_y s n m f (omega (arith, less)) in
        let searched = redirected-IsSearch w start_x start_y s n m f g t less l in
        rw e record {
          search =
              marked-IsSearch r (open_node m r) searched k.same_nodes k.same_count k.same_table
                (λ i o. elim (k.opened i o) [
                  | inl c ↦ omega (arith, c, l)
                  | inr c ↦ g.all_open i c
                ]);
          later =
              IsLater-trans s r (open_node m r) from
                (same_nodes-IsLater r (open_node m r) k.same_nodes k.same_count);
          same_f =
              rw
                (
                  k.same_nodes,
                  put_other s.nodes m n _ (step_apart w start_x start_y s n m f t less),
                )
                refl;
          still_open = k.still_open n;
          no_greater = improve-potential s n m f l less;
        }
  ]
