-- ===== src/Chat/Requests.antt =====
-- Speaking in channels (Chat::talkToChannel), the list of channels (Chat::getChannelList), and the
-- handlers of compiler/src/game.cpp for channels. A handler is given what getPlayerByID and
-- getPlayerByName find; players are the same when their ids are.
use tibia_server.Base.{
  ℕ, zero, suc, Bool, false, not, ◌&&◌, ◌||◌, List, [], ◌∷◌, ◌++◌, Option, none, some, is_some, ltb,
  ◌==◌, if◌then◌else◌,
}
use tibia_server.Base.Update.{put}
use tibia_server.Chat.{
  Player, PrivateChatChannel, Scripts, Chat, ChannelRef, private_channel, is_invited, invite_player,
  exclude_player, add_user, talk, execute_on_speak_event, channel_guild, channel_party,
  channel_private,
}
use tibia_server.Chat.Channels.{
  key_count, channel_at, set_channel, get_channel, get_private_channel, create_channel,
  add_user_to_channel, remove_user_from_channel, remove_user_from_all_channels,
}

abbrev pub talktype_channel_y : ℕ
talktype_channel_y = 7

abbrev pub talktype_channel_o : ℕ
talktype_channel_o = 15

-- The type of what is said; `is_rank_above` is the test `rank && rank->level > 1`.
abbrev pub talk_type : Player → ℕ → ℕ → ℕ
talk_type p type id =
    let is_rank_above : Bool = elim p.rank_level [ none ↦ false | some level ↦ ltb 1 level ] in
    if id == channel_guild
    then if is_rank_above then talktype_channel_o else talktype_channel_y
    else if id == channel_private || id == channel_party
    then talktype_channel_y
    else type

-- talkToChannel: whether it is said, as what type, and who hears it.
unfoldable pub talk_to_channel : Scripts → Player → ℕ → ℕ → Chat → Bool × ℕ × List ℕ
unfolding get_channel channel_at talk
talk_to_channel l p type id s = elim (get_channel l p id s) [
  | none ↦ (false, type, [])
  | some r ↦ elim (channel_at r s) [
    | none ↦ (false, type, [])
    | some c ↦
        let (speaks, said) = execute_on_speak_event l c p.id (talk_type p type id) in
        let (heard, hearers) = talk p c in
        if not speaks then (false, said, []) else (heard, said, hearers)
  ]
]

-- The guild's or the party's channel in the list, made where it is missing.
unfoldable pub listed_channel : Scripts → Player → ℕ → Chat → List ChannelRef × Chat
unfolding get_channel create_channel
listed_channel l p id s = elim (get_channel l p id s) [
  | some r ↦ (r ∷ [], s)
  | none ↦
      let (made, s') = create_channel l p id s in
      elim made [ none ↦ ([], s') | some r ↦ (r ∷ [], s') ]
]

-- The loops over the normal and the private channels, from the key i on.
unfoldable pub listed_normal : Scripts → Player → ℕ → ℕ → Chat → List ChannelRef
unfolding get_channel
listed_normal l p zero i s = []
listed_normal l p (suc n) i s =
    let rest = listed_normal l p n (suc i) s in
    elim (s.normal_channels i) [
      | none ↦ rest
      | some c ↦ elim (get_channel l p i s) [ none ↦ rest | some r ↦ r ∷ rest ]
    ]

unfoldable pub listed_private : Player → ℕ → ℕ → Chat → List ChannelRef
unfolding is_invited
listed_private p zero i s = []
listed_private p (suc n) i s =
    let rest = listed_private p n (suc i) s in
    elim (s.private_channels i) [
      | none ↦ rest
      | some c ↦ if is_invited p.guid c then private_channel i ∷ rest else rest
    ]

-- getChannelList; the channel that stands for a new private one has the id channel_private.
unfoldable pub get_channel_list : Scripts → Player → Chat → List ChannelRef × Chat
unfolding listed_channel listed_normal listed_private get_private_channel
get_channel_list l p s =
    let (of_guild, s1) = if is_some p.guild then listed_channel l p channel_guild s else ([], s) in
    let (of_party, s2) =
      if is_some p.party then listed_channel l p channel_party s1 else ([], s1) in
    let others =
      of_guild ++ of_party ++ listed_normal l p key_count 0 s2 ++ listed_private p key_count 0 s2 in
    if not (is_some (get_private_channel p s2)) && p.premium
    then (private_channel channel_private ∷ others, s2)
    else (others, s2)

-- The player joins the channel that was made.
unfoldable pub join_created : Scripts → Player → Option ChannelRef × Chat → Chat
unfolding channel_at set_channel add_user
join_created l p (none, s) = s
join_created l p (some r, s) = elim (channel_at r s) [
  | none ↦ s
  | some c ↦ set_channel r (add_user l p c).1 s
]

unfoldable pub player_create_private_channel : Scripts → Option Player → Chat → Chat
unfolding create_channel join_created
player_create_private_channel l none s = s
player_create_private_channel l (some p) s =
    if not p.premium then s else join_created l p (create_channel l p channel_private s)

-- A change of the private channel of a player.
unfoldable pub change_private : (PrivateChatChannel → PrivateChatChannel) → ℕ → Chat → Chat
change_private f k s = elim (s.private_channels k) [
  | none ↦ s
  | some c ↦ record s { private_channels = put s.private_channels k (some (f c)) }
]

unfoldable pub player_channel_invite : Option Player → Option Player → Chat → Chat
unfolding get_private_channel invite_player change_private
player_channel_invite none q s = s
player_channel_invite (some p) q s = elim (get_private_channel p s) [
  | none ↦ s
  | some k ↦ elim q [
    | none ↦ s
    | some q ↦ if p.id == q.id then s else change_private (invite_player q) k s
  ]
]

-- The channel of the key k is closed to the player, where excludePlayer finds it invited.
unfoldable pub exclude_from : Player → ℕ → Chat → Chat
unfolding exclude_player
exclude_from q k s = elim (s.private_channels k) [
  | none ↦ s
  | some c ↦
      let (told, c') = exclude_player q c in
      record s {
        private_channels = put s.private_channels k (some c');
        closed = if told then s.closed ++ (q.id, c.channel.id) ∷ [] else s.closed;
      }
]

unfoldable pub player_channel_exclude : Option Player → Option Player → Chat → Chat
unfolding get_private_channel exclude_from
player_channel_exclude none q s = s
player_channel_exclude (some p) q s = elim (get_private_channel p s) [
  | none ↦ s
  | some k ↦ elim q [ none ↦ s | some q ↦ if p.id == q.id then s else exclude_from q k s ]
]

unfoldable pub player_open_channel : Scripts → Option Player → ℕ → Chat → Chat
unfolding add_user_to_channel
player_open_channel l none id s = s
player_open_channel l (some p) id s = (add_user_to_channel l p id s).1

unfoldable pub player_close_channel : Scripts → Option Player → ℕ → Chat → Chat
unfolding remove_user_from_channel
player_close_channel l none id s = s
player_close_channel l (some p) id s = (remove_user_from_channel l p id s).1

-- The requests about channels, and the end of a player's session.
pub data Request : Type 0 where
  create : Option Player → Request
  invite exclude : Option Player → Option Player → Request
  open_channel close : Option Player → ℕ → Request
  leave : Player → Request

unfoldable pub handle : Scripts → Request → Chat → Chat
unfolding player_create_private_channel player_channel_invite player_channel_exclude
    player_open_channel player_close_channel remove_user_from_all_channels
handle l (create p) s = player_create_private_channel l p s
handle l (invite p q) s = player_channel_invite p q s
handle l (exclude p q) s = player_channel_exclude p q s
handle l (open_channel p id) s = player_open_channel l p id s
handle l (close p id) s = player_close_channel l p id s
handle l (leave p) s = remove_user_from_all_channels p s
