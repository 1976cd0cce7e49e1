-- ===== src/Party/Members.antt =====
-- compiler/src/party.cpp: who belongs to a party, and who is invited. Players and parties are
-- numbers, and the world holds what the code's pointers lead to; a party that was deleted is `none`.
-- The answers of the events of the scripting interface are parameters. Messages, icons, the
-- private channel and the flag of shared experience are left out.
pub use tibia_server.Base.Update.{put}
use tibia_server.Base.{
  ℕ, suc, Bool, true, false, not, ◌&&◌, ◌||◌, List, [], ◌∷◌, ◌++◌, Option, none, some, ◌==◌,
  if◌then◌else◌,
}

-- The lists and the leader of a Party.
pub record Group : Type 0 where
  pub leader : ℕ
  pub member_list : List ℕ
  pub invite_list : List ℕ

-- The party of each player and the parties that each is invited to, and the parties there are.
pub record World : Type 0 where
  pub party_of : ℕ → Option ℕ
  pub invite_party_list : ℕ → List ℕ
  pub groups : ℕ → Option Group
  pub next_group : ℕ

unfoldable pub is_listed : ℕ → List ℕ → Bool
is_listed n [] = false
is_listed n (m ∷ ms) = if m == n then true else is_listed n ms

-- erase(find(...))
unfoldable pub erase_first : ℕ → List ℕ → List ℕ
erase_first n [] = []
erase_first n (m ∷ ms) = let rest = erase_first n ms in if m == n then ms else m ∷ rest

-- std::list::remove
unfoldable pub remove_all : ℕ → List ℕ → List ℕ
remove_all n [] = []
remove_all n (m ∷ ms) = let rest = remove_all n ms in if m == n then rest else m ∷ rest

abbrev pub is_empty : Group → Bool
is_empty g = is_nil g.member_list && is_nil g.invite_list
  where
    is_nil : List ℕ → Bool
    is_nil [] = true
    is_nil (x ∷ xs) = false

abbrev pub set_party : ℕ → Option ℕ → World → World
set_party player p w = record w { party_of = put w.party_of player p }

abbrev pub set_group : ℕ → Option Group → World → World
set_group p g w = record w { groups = put w.groups p g }

-- Player::addPartyInvitation
unfoldable pub add_party_invitation : ℕ → ℕ → World → Bool × World
add_party_invitation player p w = if is_listed p (w.invite_party_list player) then (false, w) else (
  true,
  record w { invite_party_list = put w.invite_party_list player (p ∷ w.invite_party_list player) },
)

unfoldable pub remove_party_invitation : ℕ → ℕ → World → World
remove_party_invitation p player w = record w {
  invite_party_list = put w.invite_party_list player (remove_all p (w.invite_party_list player));
}

-- The loops of disband over the invited players and over the members.
unfoldable pub withdraw_all : ℕ → List ℕ → World → World
unfolding remove_party_invitation
withdraw_all p [] w = w
withdraw_all p (n ∷ ns) w = withdraw_all p ns (remove_party_invitation p n w)

unfoldable pub release_all : List ℕ → World → World
release_all [] w = w
release_all (n ∷ ns) w = release_all ns (set_party n none w)

-- passPartyLeadership on the party itself; `has_party` says whether the player's party is this one.
unfoldable pub pass_party_leadership : ℕ → Bool → Group → Bool × Group
unfolding erase_first
pass_party_leadership player has_party g =
    if g.leader == player || not has_party then (false, g) else (
      true,
      record g { leader = player; member_list = g.leader ∷ erase_first player g.member_list },
    )

-- The leader leaves, and no one can take over.
abbrev pub missing_leader : ℕ → Group → Bool
missing_leader player g = g.leader == player && alone g.member_list g.invite_list
  where
    alone : List ℕ → List ℕ → Bool
    alone [] invites = true
    alone (m ∷ []) [] = true
    alone (m ∷ []) (i ∷ is) = false
    alone (m ∷ n ∷ ns) invites = false

abbrev pub is_in : ℕ → Option ℕ → Bool
is_in p none = false
is_in p (some q) = q == p

-- passPartyLeadership(memberList.front()), where the one who leaves is the leader.
unfoldable pub pass_to_first : ℕ → World → Group → List ℕ → Group
unfolding pass_party_leadership
pass_to_first p w g [] = g
pass_to_first p w g (m ∷ ms) = (pass_party_leadership m (is_in p (w.party_of m)) g).1

-- The party's lists once the one who leaves is out.
unfoldable pub without_player : ℕ → ℕ → World → Group → Group
unfolding pass_to_first erase_first
without_player p player w g =
    let g' =
      if g.leader == player && not (missing_leader player g)
      then pass_to_first p w g g.member_list
      else g in
    record g' { member_list = erase_first player g'.member_list }

unfoldable pub invite_player : ℕ → Group → ℕ → World → Bool × World
unfolding is_listed add_party_invitation
invite_player p g player w = if is_listed player g.invite_list then (false, w) else (
  true,
  (add_party_invitation player p
      (set_group p (some (record g { invite_list = g.invite_list ++ player ∷ [] })) w)).1,
)

-- The party of a player with what it holds.
abbrev pub get_party : ℕ → World → Option (ℕ × Group)
get_party player w = elim (w.party_of player) [
  | none ↦ none
  | some p ↦ elim (w.groups p) [ none ↦ none | some g ↦ some (p, g) ]
]

-- Player::isInviting
unfoldable pub is_inviting : ℕ → ℕ → World → Bool
unfolding is_listed
is_inviting host guest w = elim (get_party host w) [
  | none ↦ false
  | some (p, g) ↦ if not (g.leader == host) then false else is_listed guest g.invite_list
]

-- Party::Party
abbrev pub new_party : ℕ → World → ℕ × Group × World
new_party player w =
    let g : Group = record { leader = player; member_list = []; invite_list = [] } in
    (
      w.next_group,
      g,
      record (set_party player (some w.next_group) (set_group w.next_group (some g) w)) {
        next_group = suc w.next_group;
      },
    )

-- What the code asks of its surroundings: the scripts' answers to the events of a party, and which
-- players are online and in a fight.
pub record Hooks : Type 0 where
  pub on_disband : ℕ → World → Bool
  pub on_leave : ℕ → ℕ → World → Bool
  pub on_join : ℕ → ℕ → World → Bool
  pub is_online : ℕ → Bool
  pub in_fight : ℕ → Bool

module _ (h : Hooks) where
  open h use {on_disband, on_leave, on_join}

  unfoldable pub disband : ℕ → Group → World → World
  unfolding withdraw_all release_all
  disband p g w =
      if not (on_disband p w)
      then w
      else set_group p none
          (release_all g.member_list (withdraw_all p g.invite_list (set_party g.leader none w)))

  unfoldable pub leave_party : ℕ → Group → ℕ → World → Bool × World
  unfolding disband
  leave_party p g player w =
      if not (is_in p (w.party_of player)) && not (g.leader == player)
      then (false, w)
      else if not (on_leave p player w)
      then (false, w)
      else (let g' = without_player p player w g in
          let w' = set_party player none (set_group p (some g') w) in
          (true, if missing_leader player g || is_empty g' then disband p g' w' else w'))

  unfoldable pub join_party : ℕ → Group → ℕ → World → Bool × World
  unfolding is_listed erase_first remove_party_invitation
  join_party p g player w =
      if not (on_join p player w)
      then (false, w)
      else if not (is_listed player g.invite_list)
      then (false, w)
      else (
        true,
        remove_party_invitation p player (
            set_group p
              (some (record g {
                invite_list = erase_first player g.invite_list;
                member_list = g.member_list ++ player ∷ [];
              }))
              (set_party player (some p) w)),
      )

  unfoldable pub remove_invite : Bool → ℕ → Group → ℕ → World → Bool × World
  unfolding is_listed erase_first remove_party_invitation disband
  remove_invite remove_from_player p g player w =
      if not (is_listed player g.invite_list)
      then (false, w)
      else (let g' = record g { invite_list = erase_first player g.invite_list } in
          let w1 = set_group p (some g') w in
          let w2 = if remove_from_player then remove_party_invitation p player w1 else w1 in
          (true, if is_empty g' then disband p g' w2 else w2))
