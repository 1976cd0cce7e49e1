-- ===== src/Area/Reach.antt =====
-- getList: the tiles of an area, around the tile that a spell is aimed at.
use tibia_server.Base.{
  ℕ, suc, ◌+◌, ◌-◌, ◌%◌, ◌<◌, Bool, true, ◌&&◌, List, [], ◌∷◌, ◌≡◌, ◌⊎◌, inl, inr, refl, arith, All,
  some, Bool-cases, ℕ_discrete, ap, ap₂, sym, subst, ◌∙◌, clash,
}
use tibia_server.Base.Word.{u16_mod, u32_mod}
use tibia_server.Position.{Position}
use tibia_server.Position.Laws.{position_ext}
use tibia_server.Area.{MatrixArea, AreaCombat}
use tibia_server.Area.Lookup.{get_area, get_list, Scan, scan_cell, scan_row, scan_area, first_pos}
use tibia_server.Area.Loops.{loop_ind}

-- The position of a cell when the centre stands on the target; coordinates wrap around.
abbrev pub cell_pos : MatrixArea → Position → ℕ → ℕ → Position
cell_pos area target y x = record target {
  x = (target.x + u32_mod - area.center_x + x) % u16_mod;
  y = (target.y + u32_mod - area.center_y + y) % u16_mod;
}

abbrev pub Listed : Position → List Position → Type 0
Listed p [] = ⊥
Listed p (q ∷ qs) = (p ≡ q) ⊎ Listed p qs

module _ (is_sight_clear : Position → Position → Bool) (area : MatrixArea) (target : Position) where
  -- A cell of the area that is set, with a clear sight from the target.
  pub record IsHit (y x : ℕ) : Type 0 where
    pub y_lt : y < area.rows
    pub x_lt : x < area.cols
    pub is_set : area.cells y x ≡ true
    pub is_clear : is_sight_clear target (cell_pos area target y x) ≡ true

  -- A position where such a cell stands.
  pub record IsReached (p : Position) : Type 0 where
    pub y : ℕ
    pub x : ℕ
    pub hit : IsHit y x
    pub stands : p ≡ cell_pos area target y x

  abbrev Before : ℕ → ℕ → ℕ → ℕ → Type 0
  Before y' x' y x = (y' < y) ⊎ ((y' ≡ y) × (x' < x))

  -- The scan when it stands before the cell at `y` and `x`.
  record IsScanned (y x : ℕ) (s : Scan) : Type 0 where
    stands_at : s.tmp_pos ≡ cell_pos area target y x
    sound : All IsReached s.tiles
    complete :
        (y' x' : ℕ) → Before y' x' y x → IsHit y' x' → Listed (cell_pos area target y' x') s.tiles

  Before-suc : (y' x' y x : ℕ) → Before y' x' y (suc x) → Before y' x' y x ⊎ ((y' ≡ y) × (x' ≡ x))
  Before-suc y' x' y x (inl b) = inl (inl b)
  Before-suc y' x' y x (inr (e, b)) = elim (ℕ_discrete x' x) [
    | yes same ↦ inr (e, same)
    | no other ↦ inl (inr (e, grind (arith, other, b)))
  ]

  next_pos :
      (y x : ℕ) (p : Position)
      → area.center_x < u32_mod
      → p ≡ cell_pos area target y x
      → record p { x = (p.x + 1) % u16_mod } ≡ cell_pos area target y (suc x)
  next_pos y x p hc e =
      position_ext (ap (λ (q : Position). (q.x + 1) % u16_mod) e ∙ omega arith)
        (ap (λ (q : Position). q.y) e) (ap (λ (q : Position). q.z) e)

  IsReached-at :
      (y x : ℕ) (p : Position)
      → y < area.rows
      → x < area.cols
      → p ≡ cell_pos area target y x
      → area.cells y x && is_sight_clear target p ≡ true
      → IsReached p
  IsReached-at y x p hy hx e h = record {
    y = y;
    x = x;
    hit = record {
      y_lt = hy;
      x_lt = hx;
      is_set = ground (arith, h);
      is_clear = ap (is_sight_clear target) (sym e) ∙ ground (arith, h);
    };
    stands = e;
  }

  hit_seen :
      (y x : ℕ) (p : Position)
      → p ≡ cell_pos area target y x
      → IsHit y x
      → area.cells y x && is_sight_clear target p ≡ true
  hit_seen y x p e h = rw (h.is_set, ap (is_sight_clear target) e) h.is_clear

  scan_cell-IsScanned :
      (y x : ℕ) (s : Scan)
      → y < area.rows
      → x < area.cols
      → area.center_x < u32_mod
      → IsScanned y x s
      → IsScanned y (suc x) (scan_cell is_sight_clear area target y x s)
  unfolding scan_cell
  scan_cell-IsScanned y x s hy hx hc h =
      elim (Bool-cases (area.cells y x && is_sight_clear target s.tmp_pos)) [
        | inl seen ↦
            rw (scan_cell, seen)
              (record {
                stands_at = next_pos y x s.tmp_pos hc h.stands_at;
                sound = (IsReached-at y x s.tmp_pos hy hx h.stands_at seen, h.sound);
                complete = λ y' x' before hit. elim (Before-suc y' x' y x before) [
                  | inl earlier ↦ inr (h.complete y' x' earlier hit)
                  | inr (ey, ex) ↦ inl (ap₂ (cell_pos area target) ey ex ∙ sym h.stands_at)
                ];
              })
        | inr unseen ↦
            rw (scan_cell, unseen)
              (record {
                stands_at = next_pos y x s.tmp_pos hc h.stands_at;
                sound = h.sound;
                complete = λ y' x' before hit. elim (Before-suc y' x' y x before) [
                  | inl earlier ↦ h.complete y' x' earlier hit
                  | inr (ey, ex) ↦
                      absurd (
                        clash
                          (sym unseen ∙ hit_seen y x s.tmp_pos h.stands_at (same_hit ey ex hit)))
                ];
              })
      ]
    where
      same_hit : {y' x' : ℕ} → y' ≡ y → x' ≡ x → IsHit y' x' → IsHit y x
      same_hit {y'} {x'} ey ex hit = subst (λ k. IsHit k x) ey (subst (λ k. IsHit y' k) ex hit)

  scan_row-IsScanned :
      (y : ℕ) (s : Scan)
      → y < area.rows
      → area.center_x < u32_mod
      → area.center_y < u32_mod
      → area.cols < u32_mod
      → IsScanned y 0 s
      → IsScanned (suc y) 0 (scan_row is_sight_clear area target y s)
  unfolding scan_row
  scan_row-IsScanned y s hy hx hc hcols h =
      let r =
        loop_ind (IsScanned y) (scan_cell is_sight_clear area target y) area.cols 0 s
          (λ x b lt i. scan_cell-IsScanned y x b hy (omega arith) hx i) h in
      record {
        stands_at =
            position_ext
              (ap (λ (q : Position). (q.x + u32_mod - area.cols % u32_mod) % u16_mod) r.stands_at
                ∙ omega arith)
              (ap (λ (q : Position). (q.y + 1) % u16_mod) r.stands_at ∙ omega arith)
              (ap (λ (q : Position). q.z) r.stands_at);
        sound = r.sound;
        complete = λ y' x' before hit. r.complete y' x' (row_done y' x' before hit) hit;
      }
    where
      row_done : (y' x' : ℕ) → Before y' x' (suc y) 0 → IsHit y' x' → Before y' x' y (0 + area.cols)
      row_done y' x' (inl b) hit = elim (ℕ_discrete y' y) [
        | yes same ↦ inr (same, omega (arith, hit.x_lt))
        | no other ↦ inl (grind (arith, other, b))
      ]
      row_done y' x' (inr (e, b)) hit = absurd (omega arith)

  scan_area-IsReached :
      area.center_x < u32_mod
      → area.center_y < u32_mod
      → area.cols < u32_mod
      → All IsReached (scan_area is_sight_clear area target).tiles
        × ((y x : ℕ)
            → IsHit y x
            → Listed (cell_pos area target y x) (scan_area is_sight_clear area target).tiles)
  unfolding scan_area
  scan_area-IsReached hx hy hcols =
      let r =
        loop_ind (λ y. IsScanned y 0) (scan_row is_sight_clear area target) area.rows 0
          (record { tmp_pos = first_pos is_sight_clear area target; tiles = [] })
          (λ y b lt i. scan_row-IsScanned y b (omega arith) hx hy hcols i)
          (record {
            stands_at = position_ext (omega arith) (omega arith) refl;
            sound = tt;
            complete = λ y' x' before hit. absurd (nothing_before y' x' before);
          }) in
      (r.sound, λ y x hit. r.complete y x (inl (omega (arith, hit.y_lt))) hit)
    where
      nothing_before : (y' x' : ℕ) → Before y' x' 0 0 → ⊥
      nothing_before y' x' (inl b) = omega arith
      nothing_before y' x' (inr (e, b)) = omega arith

  -- The tiles that getList gives stand where the cells of the area that it looked up, with a clear
  -- sight, do when the centre stands on the target, and all of these are among them, where the sizes
  -- are 32-bit words.
  pub get_list-IsReached :
      (c : AreaCombat) (center : Position)
      → get_area c center target ≡ some area
      → area.center_x < u32_mod
      → area.center_y < u32_mod
      → area.cols < u32_mod
      → All IsReached (get_list is_sight_clear c center target)
        × ((y x : ℕ)
            → IsHit y x
            → Listed (cell_pos area target y x) (get_list is_sight_clear c center target))
  unfolding get_list
  get_list-IsReached c center found hx hy hcols =
      rw (get_list, found) (scan_area-IsReached hx hy hcols)
