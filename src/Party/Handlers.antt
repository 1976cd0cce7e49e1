-- ===== src/Party/Handlers.antt =====
-- The handlers of compiler/src/game.cpp for parties.
use tibia_server.Base.{
  ℕ, Bool, true, false, not, ◌||◌, List, [], ◌∷◌, Option, none, some, ◌==◌, if◌then◌else◌,
}
use tibia_server.Party.Members.{
  World, Hooks, set_group, is_in, get_party, is_inviting, new_party, invite_player, join_party,
  remove_invite, pass_party_leadership, leave_party,
}

abbrev pub has_party : Option ℕ → Bool
has_party none = false
has_party (some p) = true

-- What a player asks of the game about parties.
pub data Request : Type 0 where
  invite : ℕ → ℕ → Request
  join : ℕ → ℕ → Request
  revoke : ℕ → ℕ → Request
  pass : ℕ → ℕ → Request
  leave : ℕ → Request

module _ (h : Hooks) where
  open h use {is_online, in_fight}

  unfoldable pub player_invite_to_party : ℕ → ℕ → World → World
  unfolding is_inviting invite_player
  player_invite_to_party player invited w =
      if not (is_online player)
      then w
      else if not (is_online invited) || is_inviting invited player w
      then w
      else if has_party (w.party_of invited)
      then w
      else elim (get_party player w) [
        | none ↦ let (p, g, w') = new_party player w in (invite_player p g invited w').1
        | some (p, g) ↦ if not (g.leader == player) then w else (invite_player p g invited w).1
      ]

  unfoldable pub player_join_party : ℕ → ℕ → World → World
  unfolding is_inviting join_party
  player_join_party player leader w =
      if not (is_online player)
      then w
      else if not (is_online leader) || not (is_inviting leader player w)
      then w
      else elim (get_party leader w) [
        | none ↦ w
        | some (p, g) ↦
            if not (g.leader == leader)
            then w
            else if has_party (w.party_of player)
            then w
            else (join_party h p g player w).1
      ]

  unfoldable pub player_revoke_party_invitation : ℕ → ℕ → World → World
  unfolding is_inviting remove_invite
  player_revoke_party_invitation player invited w =
      if not (is_online player) then w else elim (get_party player w) [
        | none ↦ w
        | some (p, g) ↦
            if not (g.leader == player)
            then w
            else if not (is_online invited) || not (is_inviting player invited w)
            then w
            else (remove_invite h true p g invited w).1
      ]

  unfoldable pub player_pass_party_leadership : ℕ → ℕ → World → World
  unfolding pass_party_leadership
  player_pass_party_leadership player new_leader w =
      if not (is_online player) then w else elim (get_party player w) [
        | none ↦ w
        | some (p, g) ↦
            if not (g.leader == player)
            then w
            else if not (is_online new_leader) || not (is_in p (w.party_of new_leader))
            then w
            else set_group p
                (some (pass_party_leadership new_leader (is_in p (w.party_of new_leader)) g).1) w
      ]

  unfoldable pub player_leave_party : ℕ → World → World
  unfolding leave_party
  player_leave_party player w = if not (is_online player) then w else elim (get_party player w) [
    | none ↦ w
    | some (p, g) ↦ if in_fight player then w else (leave_party h p g player w).1
  ]

  unfoldable pub handle : Request → World → World
  unfolding player_invite_to_party player_join_party player_revoke_party_invitation
      player_pass_party_leadership player_leave_party
  handle (invite player invited) = player_invite_to_party player invited
  handle (join player leader) = player_join_party player leader
  handle (revoke player invited) = player_revoke_party_invitation player invited
  handle (pass player new_leader) = player_pass_party_leadership player new_leader
  handle (leave player) = player_leave_party player

  unfoldable pub handle_all : List Request → World → World
  unfolding handle
  handle_all [] w = w
  handle_all (r ∷ rs) w = handle_all rs (handle r w)
