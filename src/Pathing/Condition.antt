-- ===== src/Pathing/Condition.antt =====
-- class FrozenPathingConditionCall: whether a place is one to stop at. A greatest distance of -1,
-- which is the default, is `none`; a least distance of -1 is 0.
use tibia_server.Base.{
  ℕ, ◌+◌, max, Bool, true, false, not, ◌&&◌, ◌||◌, Option, none, some, ltb, leb, ◌==◌,
  if◌then◌else◌,
}
use tibia_server.Position.{abs_offset}
use tibia_server.Pathing.{World}

pub record FindPathParams : Type 0 where
  pub full_path_search : Bool
  pub clear_sight : Bool
  pub allow_diagonal : Bool
  pub keep_distance : Bool
  pub max_search_dist : ℕ
  pub min_target_dist : ℕ
  pub max_target_dist : Option ℕ

-- A coordinate between `target - low` and `target + high`.
abbrev pub within : ℕ → ℕ → ℕ → ℕ → Bool
within test target low high = leb test (target + high) && leb target (test + low)

module _ (target_x target_y : ℕ) where
  -- With a greatest distance of -1 the bounds exclude one another.
  unfoldable pub is_in_range : FindPathParams → ℕ → ℕ → ℕ → ℕ → Bool
  is_in_range fpp start_x start_y x y = in_range fpp.max_target_dist
    where
      in_range : Option ℕ → Bool
      in_range none = false
      in_range (some d) =
          if fpp.full_path_search
          then within x target_x d d && within y target_y d d
          else within x target_x (if leb start_x target_x then d else 0)
              (if leb target_x start_x then d else 0)
            && within y target_y (if leb start_y target_y then d else 0)
                (if leb target_y start_y then d else 0)

  -- operator(): the answer, and bestMatchDist.
  unfoldable pub path_condition : World → FindPathParams → ℕ → ℕ → ℕ → ℕ → ℕ → Bool × ℕ
  unfolding is_in_range
  path_condition w fpp start_x start_y x y best_match_dist =
      if not (is_in_range fpp start_x start_y x y)
      then (false, best_match_dist)
      else if fpp.clear_sight && not (w.is_sight_clear x y target_x target_y)
      then (false, best_match_dist)
      else tested fpp.max_target_dist
    where
      test_dist : ℕ
      test_dist = max (abs_offset target_x x) (abs_offset target_y y)

      tested : Option ℕ → Bool × ℕ
      tested none = (false, best_match_dist)
      tested (some d) =
          if d == 1
          then (not (ltb test_dist fpp.min_target_dist) && not (ltb d test_dist), best_match_dist)
          else if not (leb test_dist d) || ltb test_dist fpp.min_target_dist
          then (false, best_match_dist)
          else if test_dist == d
          then (true, 0)
          else if ltb best_match_dist test_dist
          then (true, test_dist)
          else (false, best_match_dist)
