-- ===== src/Chat/Channels.antt =====
-- The operations of class Chat (compiler/src/chat.cpp). A loop over a map is a loop over its keys, in
-- their order.
use tibia_server.Base.{
  ℕ, zero, suc, Bool, true, false, not, List, [], ◌++◌, Option, none, some, map, ◌==◌,
  if◌then◌else◌,
}
use tibia_server.Base.Update.{put}
use tibia_server.Chat.{
  Player, ChatChannel, PrivateChatChannel, Scripts, Chat, ChannelRef, normal_channel,
  private_channel, party_channel, guild_channel, new_channel, is_invited, remove_invite, add_user,
  remove_user, execute_can_join_event, channel_guild, channel_party, channel_private,
}

abbrev pub get_owner : ChannelRef → Chat → ℕ
get_owner (private_channel k) s = elim (s.private_channels k) [ none ↦ 0 | some c ↦ c.owner ]
get_owner r s = 0

-- What a pointer to a channel points to.
unfoldable pub channel_at : ChannelRef → Chat → Option ChatChannel
channel_at (normal_channel k) s = s.normal_channels k
channel_at (private_channel k) s = elim (s.private_channels k) [
  | none ↦ none
  | some c ↦ some c.channel
]
channel_at (party_channel k) s = s.party_channels k
channel_at (guild_channel k) s = s.guild_channels k

-- A write through a pointer.
unfoldable pub set_channel : ChannelRef → ChatChannel → Chat → Chat
set_channel (normal_channel k) c s = record s { normal_channels = put s.normal_channels k (some c) }
set_channel (private_channel k) c s = elim (s.private_channels k) [
  | none ↦ s
  | some old ↦ record s {
    private_channels = put s.private_channels k (some (record old { channel = c }));
  }
]
set_channel (party_channel k) c s = record s { party_channels = put s.party_channels k (some c) }
set_channel (guild_channel k) c s = record s { guild_channels = put s.guild_channels k (some c) }

-- A channel that a map has at a key.
abbrev pub found_at : (ℕ → Option ChatChannel) → (ℕ → ChannelRef) → Option ℕ → Option ChannelRef
found_at m r none = none
found_at m r (some k) = elim (m k) [ none ↦ none | some c ↦ some (r k) ]

unfoldable pub get_channel : Scripts → Player → ℕ → Chat → Option ChannelRef
unfolding is_invited
get_channel l p id s =
    if id == channel_guild
    then found_at s.guild_channels guild_channel p.guild
    else if id == channel_party
    then found_at s.party_channels party_channel p.party
    else elim (s.normal_channels id) [
      | some c ↦ if not (execute_can_join_event l c p.id) then none else some (normal_channel id)
      | none ↦ elim (s.private_channels id) [
        | none ↦ none
        | some c ↦ if is_invited p.guid c then some (private_channel id) else none
      ]
    ]

-- The number of keys of 16 bits.
unfoldable pub key_count : ℕ
key_count = 65536

-- getPrivateChannel, from the key i on.
unfoldable pub scan_owner : ℕ → ℕ → ℕ → Chat → Option ℕ
scan_owner zero i guid s = none
scan_owner (suc n) i guid s =
    let rest = scan_owner n (suc i) guid s in
    elim (s.private_channels i) [ none ↦ rest | some c ↦ if c.owner == guid then some i else rest ]

unfoldable pub get_private_channel : Player → Chat → Option ℕ
unfolding scan_owner
get_private_channel p s = scan_owner key_count 0 p.guid s

-- The number of slots for private channels, from 100 to 9999.
unfoldable pub slot_count : ℕ
slot_count = 9900

-- The loop of createChannel over the slots for private channels: the first free one.
unfoldable pub find_slot : ℕ → ℕ → Chat → Option ℕ
find_slot zero i s = none
find_slot (suc n) i s =
    let rest = find_slot n (suc i) s in
    elim (s.private_channels i) [ none ↦ some i | some c ↦ rest ]

abbrev pub emplace : ℕ → ChatChannel → (ℕ → Option ChatChannel) → ℕ → Option ChatChannel
emplace k c m = elim (m k) [ none ↦ put m k (some c) | some old ↦ m ]

abbrev pub new_private_channel : Player → ℕ → PrivateChatChannel
new_private_channel p i = record { channel = new_channel i; invites = []; owner = p.guid }

unfoldable pub create_private_channel : Player → Chat → Option ChannelRef × Chat
unfolding get_private_channel find_slot
create_private_channel p s = if not p.premium then (none, s) else elim (get_private_channel p s) [
  | some k ↦ (none, s)
  | none ↦ elim (find_slot slot_count 100 s) [
    | none ↦ (none, s)
    | some i ↦ (
      some (private_channel i),
      record s { private_channels = put s.private_channels i (some (new_private_channel p i)) },
    )
  ]
]

unfoldable pub create_channel : Scripts → Player → ℕ → Chat → Option ChannelRef × Chat
unfolding get_channel create_private_channel
create_channel l p id s = elim (get_channel l p id s) [
  | some r ↦ (none, s)
  | none ↦
      if id == channel_guild
      then elim p.guild [
        | none ↦ (none, s)
        | some g ↦ (
          some (guild_channel g),
          record s { guild_channels = emplace g (new_channel id) s.guild_channels },
        )
      ]
      else if id == channel_party
      then elim p.party [
        | none ↦ (none, s)
        | some g ↦ (
          some (party_channel g),
          record s { party_channels = emplace g (new_channel id) s.party_channels },
        )
      ]
      else if id == channel_private
      then create_private_channel p s
      else (none, s)
]

-- closeChannel: what the users are told.
abbrev pub close_channel : PrivateChatChannel → List (ℕ × ℕ)
close_channel c = map (λ u. (u, c.channel.id)) c.channel.users

abbrev pub erase_private : ℕ → PrivateChatChannel → Chat → Chat
erase_private k c s = record s {
  private_channels = put s.private_channels k none;
  closed = s.closed ++ close_channel c;
}

unfoldable pub delete_channel : Player → ℕ → Chat → Bool × Chat
delete_channel p id s =
    if id == channel_guild
    then elim (found_at s.guild_channels guild_channel p.guild) [
      | some (guild_channel g) ↦ (true, record s { guild_channels = put s.guild_channels g none })
      | _ ↦ (false, s)
    ]
    else if id == channel_party
    then elim (found_at s.party_channels party_channel p.party) [
      | some (party_channel g) ↦ (true, record s { party_channels = put s.party_channels g none })
      | _ ↦ (false, s)
    ]
    else elim (s.private_channels id) [ none ↦ (false, s) | some c ↦ (true, erase_private id c s) ]

unfoldable pub add_user_to_channel : Scripts → Player → ℕ → Chat → Option ChannelRef × Chat
unfolding get_channel channel_at set_channel add_user
add_user_to_channel l p id s = elim (get_channel l p id s) [
  | none ↦ (none, s)
  | some r ↦ elim (channel_at r s) [
    | none ↦ (none, s)
    | some c ↦
        let (added, c') = add_user l p c in
        if added then (some r, set_channel r c' s) else (none, s)
  ]
]

unfoldable pub remove_user_from_channel : Scripts → Player → ℕ → Chat → Bool × Chat
unfolding get_channel channel_at set_channel remove_user delete_channel
remove_user_from_channel l p id s = elim (get_channel l p id s) [
  | none ↦ (false, s)
  | some r ↦ elim (channel_at r s) [
    | none ↦ (false, s)
    | some c ↦
        let (removed, c') = remove_user p c in
        let s' = set_channel r c' s in
        if not removed
        then (false, s)
        else if get_owner r s' == p.guid
        then (true, (delete_channel p id s').1)
        else (true, s')
  ]
]

abbrev pub without {ℓ} : {A : Type ℓ} → (A → A) → (ℕ → Option A) → ℕ → Option A
without f m k = elim (m k) [ none ↦ none | some c ↦ some (f c) ]

-- A round of removeUserFromAllChannels over the private channels.
unfoldable pub leave_private : Player → ℕ → Chat → Chat
unfolding remove_invite remove_user
leave_private p k s = elim (s.private_channels k) [
  | none ↦ s
  | some c ↦
      let uninvited = (remove_invite p.guid c).1 in
      let c' : PrivateChatChannel = record uninvited {
        channel = (remove_user p uninvited.channel).1;
      } in
      if c'.owner == p.guid
      then erase_private k c' s
      else record s { private_channels = put s.private_channels k (some c') }
]

unfoldable pub leave_all_private : Player → ℕ → ℕ → Chat → Chat
unfolding leave_private
leave_all_private p zero k s = s
leave_all_private p (suc n) k s = leave_all_private p n (suc k) (leave_private p k s)

unfoldable pub remove_user_from_all_channels : Player → Chat → Chat
unfolding remove_user leave_all_private
remove_user_from_all_channels p s = leave_all_private p key_count 0 (record s {
  normal_channels = without (λ c. (remove_user p c).1) s.normal_channels;
  party_channels = without (λ c. (remove_user p c).1) s.party_channels;
  guild_channels = without (λ c. (remove_user p c).1) s.guild_channels;
})
