-- ===== src/Party/Tests.antt =====
-- Runs of the rule on a small party, and the theorem on the flag for it.
use tibia_server.Base.{clash, ℕ, Bool, true, false, [], ◌∷◌, ◌≡◌, ◌↔◌, none, some, All, refl, List}
use tibia_server.Party.{
  Player, Party, can_enable_shared_experience, can_use_shared_experience, all_can_use, find_ticks,
  highest_level, is_recent, set_shared_experience, update_player_ticks, clear_player_points,
  update_shared_experience,
}
use tibia_server.Position.{are_in_range_z}
use tibia_server.Party.Sharing.{CanUse, can_enable_shared_experience-CanUse}
use tibia_server.Party.Members.{
  World, Hooks, is_listed, is_inviting, invite_player, add_party_invitation, join_party,
  erase_first, remove_party_invitation, leave_party, without_player, pass_to_first,
  pass_party_leadership, disband, remove_all,
}
use tibia_server.Party.Handlers.{
  Request, invite, join, leave, handle, handle_all, player_invite_to_party, player_join_party,
  player_leave_party,
}
use tibia_server.Party.Agreement.{Agrees}
use tibia_server.Party.Keeping.{handle_all-Agrees}
use tibia_server.Party.Flag.{IsTold, operations-IsTold}

abbrev knight : Player
knight = record {
  id = 1;
  level = 90;
  position = record { x = 100; y = 100; z = 7 };
  not_gain_in_fight = false;
}

abbrev druid : Player
druid = record {
  id = 2;
  level = 60;
  position = record { x = 110; y = 95; z = 8 };
  not_gain_in_fight = false;
}

abbrev hunters : Party
hunters = record {
  leader = knight;
  member_list = druid ∷ [];
  ticks_map = (1, 5000) ∷ (2, 5500) ∷ [];
  shared_exp_active = false;
  shared_exp_enabled = false;
}

can_enable-hunters : can_enable_shared_experience 6000 60000 hunters ≡ true
unfolding can_enable_shared_experience can_use_shared_experience all_can_use find_ticks
    highest_level is_recent are_in_range_z
can_enable-hunters = refl

operations-IsTold_example :
    ((points : ℕ) → IsTold 6000 60000 (update_player_ticks 6000 60000 druid points hunters))
    × IsTold 6000 60000 (clear_player_points 6000 60000 druid hunters)
    × ((b : Bool) → IsTold 6000 60000 (set_shared_experience 6000 60000 druid b hunters).1)
    × ((q : Party) → IsTold 6000 60000 (update_shared_experience 6000 60000 q))
operations-IsTold_example = operations-IsTold 6000 60000 druid hunters (λ h. absurd (clash h))

can_enable_shared_experience-CanUse_example :
    (can_enable_shared_experience 6000 60000 hunters ≡ true)
    ↔ All (CanUse 6000 60000 hunters) (knight ∷ druid ∷ [])
can_enable_shared_experience-CanUse_example = can_enable_shared_experience-CanUse 6000 60000 hunters

-- Everyone is online, and no script refuses anything.
abbrev welcome : Hooks
welcome = record {
  on_disband = λ p w. true;
  on_leave = λ p player w. true;
  on_join = λ p player w. true;
  is_online = λ n. true;
  in_fight = λ n. false;
}

abbrev no_parties : World
no_parties = record {
  party_of = λ n. none;
  invite_party_list = λ n. [];
  groups = λ n. none;
  next_group = 0;
}

no_parties-Agrees : Agrees no_parties
unfolding is_listed
no_parties-Agrees = record {
  belongs = λ n p. refl;
  rostered = λ p. tt;
  asked = λ n p. refl;
  asked_once = λ p. tt;
  unused = λ p le. refl;
}

-- Player 1 invites players 2 and 3, who join, and leaves the party to player 2.
abbrev evening : List Request
evening = invite 1 2 ∷ join 2 1 ∷ invite 1 3 ∷ join 3 1 ∷ leave 1 ∷ []

evening_parties :
    ((handle_all welcome evening no_parties).party_of 3 ≡ some 0)
    × ((handle_all welcome evening no_parties).groups 0
        ≡ some (record { leader = 2; member_list = 3 ∷ []; invite_list = [] }))
unfolding handle_all handle player_invite_to_party player_join_party player_leave_party is_inviting
    is_listed invite_player add_party_invitation join_party erase_first remove_party_invitation
    leave_party without_player pass_to_first pass_party_leadership disband remove_all
evening_parties = (refl, refl)

handle_all-Agrees_example : Agrees (handle_all welcome evening no_parties)
handle_all-Agrees_example =
    handle_all-Agrees welcome (λ p w. refl) evening no_parties no_parties-Agrees
