-- ===== src/Party.antt =====
-- compiler/src/party.cpp: when the members of a party share their experience. A player is what the
-- rules read of one, and is told from others by the id. The time and the setting PZ_LOCKED are
-- arguments. Levels are below 2^22, where the code's division in single precision, rounded up, is
-- that of whole numbers. Messages, icons and the amounts are not modelled.
pub mod Sharing
pub mod Flag
pub mod Members
pub mod Handlers
pub mod Rosters
pub mod Agreement
pub mod Joining
pub mod Leading
pub mod Disbanding
pub mod Ending
pub mod Leaving
pub mod Keeping
mod Tests
use tibia_server.Base.{
  ℕ, ◌+◌, ◌-◌, ◌*◌, ◌/◌, ◌%◌, ◌^◌, Bool, true, false, not, ◌&&◌, ◌||◌, List, [], ◌∷◌, Option, none,
  some, ltb, ◌==◌, if◌then◌else◌,
}
use tibia_server.Position.{Position, are_in_range_z}

pub record Player : Type 0 where
  pub id : ℕ
  pub level : ℕ
  pub position : Position
  pub not_gain_in_fight : Bool

-- std::map<uint32_t, int64_t>, the last time each player took part in a fight.
abbrev pub Ticks : Type 0
Ticks = List (ℕ × ℕ)

pub record Party : Type 0 where
  pub leader : Player
  pub member_list : List Player
  pub ticks_map : Ticks
  pub shared_exp_active : Bool
  pub shared_exp_enabled : Bool

unfoldable pub find_ticks : ℕ → Ticks → Option ℕ
find_ticks id [] = none
find_ticks id ((k, t) ∷ rest) = if k == id then some t else find_ticks id rest

-- ticksMap[id] = now
unfoldable pub put_ticks : ℕ → ℕ → Ticks → Ticks
put_ticks id now [] = (id, now) ∷ []
put_ticks id now ((k, t) ∷ rest) =
    if k == id then (id, now) ∷ rest else (k, t) ∷ put_ticks id now rest

unfoldable pub erase_ticks : ℕ → Ticks → Ticks
erase_ticks id [] = []
erase_ticks id ((k, t) ∷ rest) = if k == id then rest else (k, t) ∷ erase_ticks id rest

-- The loop for the highest level, from the leader's on.
unfoldable pub highest_level : ℕ → List Player → ℕ
highest_level h [] = h
highest_level h (p ∷ ps) = highest_level (if ltb h p.level then p.level else h) ps

-- ceil(highestLevel * 2 / 3)
abbrev pub min_level : ℕ → ℕ
min_level h = (h * 2 + 2) / 3

module _ (now pz_locked : ℕ) where
  -- The test of the last fight; the difference is an unsigned word of 64 bits.
  unfoldable pub is_recent : Option ℕ → Bool
  is_recent none = false
  is_recent (some t) = not (ltb pz_locked ((now + 2 ^ 64 - t) % 2 ^ 64))

  abbrev pub has_fought : Player → Ticks → Bool
  has_fought p ticks = p.not_gain_in_fight || is_recent (find_ticks p.id ticks)

  unfoldable pub can_use_shared_experience : Party → Player → Bool
  can_use_shared_experience party p = elim party.member_list [
    | [] ↦ false
    | m ∷ ms ↦
        if ltb p.level (min_level (highest_level party.leader.level (m ∷ ms)))
        then false
        else if not (are_in_range_z 30 30 1 party.leader.position p.position)
        then false
        else has_fought p party.ticks_map
  ]

  -- The loop of canEnableSharedExperience over the members.
  unfoldable pub all_can_use : Party → List Player → Bool
  all_can_use party [] = true
  all_can_use party (p ∷ ps) =
      let rest = all_can_use party ps in
      if not (can_use_shared_experience party p) then false else rest

  unfoldable pub can_enable_shared_experience : Party → Bool
  unfolding all_can_use
  can_enable_shared_experience party =
      if not (can_use_shared_experience party party.leader)
      then false
      else all_can_use party party.member_list

  unfoldable pub update_shared_experience : Party → Party
  update_shared_experience party =
      if party.shared_exp_active
      then record party { shared_exp_enabled = can_enable_shared_experience party }
      else party

  unfoldable pub set_shared_experience : Player → Bool → Party → Bool × Party
  set_shared_experience p true party =
      if not (party.leader.id == p.id)
      then (false, party)
      else if party.shared_exp_active
      then (true, party)
      else (
        true,
        record party {
          shared_exp_active = true;
          shared_exp_enabled =
              can_enable_shared_experience (record party { shared_exp_active = true });
        },
      )
  set_shared_experience p false party =
      if not (party.leader.id == p.id)
      then (false, party)
      else (true, record party { shared_exp_active = false })

  unfoldable pub update_player_ticks : Player → ℕ → Party → Party
  unfolding update_shared_experience
  update_player_ticks p points party =
      if points == 0 || p.not_gain_in_fight
      then party
      else update_shared_experience
          (record party { ticks_map = put_ticks p.id now party.ticks_map })

  unfoldable pub clear_player_points : Player → Party → Party
  unfolding update_shared_experience
  clear_player_points p party = elim (find_ticks p.id party.ticks_map) [
    | none ↦ party
    | some t ↦
        update_shared_experience (record party { ticks_map = erase_ticks p.id party.ticks_map })
  ]
