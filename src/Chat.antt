-- ===== src/Chat.antt =====
-- Chat channels: class ChatChannel, class PrivateChatChannel and class Chat (compiler/src/chat.cpp,
-- chat.h). A player is known to a channel by its id, a creature's number, and to the invitations by
-- its guid, the character's. Left out are the texts that tell players of invitations, the guild's
-- message of the day, what a script does besides answering, and the order in which users are told.
pub mod Channels
pub mod Requests
pub mod Changes
pub mod Loops
pub mod Sound
pub mod Keeping
pub mod Handled
pub mod Created
pub mod Runs
pub mod Gone
mod Tests
use tibia_server.Base.{
  ℕ, zero, suc, Bool, true, false, not, ◌&&◌, ◌||◌, List, [], ◌∷◌, ◌++◌, Option, none, some, map,
  ltb, leb, ◌==◌, if◌then◌else◌,
}
use tibia_server.Base.IdSet.{has, insert_id, erase_id}

-- What the chat asks of a player.
pub record Player : Type 0 where
  pub id : ℕ
  pub guid : ℕ
  pub premium : Bool
  pub guild : Option ℕ
  pub party : Option ℕ
  pub rank_level : Option ℕ

-- An event is a script's function; -1, no function, is `none`.
pub record ChatChannel : Type 0 where
  pub id : ℕ
  pub users : List ℕ
  pub can_join_event : Option ℕ
  pub on_join_event : Option ℕ
  pub on_leave_event : Option ℕ
  pub on_speak_event : Option ℕ

-- ChatChannel::ChatChannel
abbrev pub new_channel : ℕ → ChatChannel
new_channel id = record {
  id = id;
  users = [];
  can_join_event = none;
  on_join_event = none;
  on_leave_event = none;
  on_speak_event = none;
}

pub record PrivateChatChannel : Type 0 where
  pub channel : ChatChannel
  pub invites : List ℕ
  pub owner : ℕ

-- What the scripts answer to a player: whether it may join, whether the joining goes on, and whether
-- it may speak, and as what type.
pub record Scripts : Type 0 where
  pub can_join : ℕ → ℕ → Bool
  pub on_join : ℕ → ℕ → Bool
  pub on_speak : ℕ → ℕ → ℕ → Bool × ℕ

abbrev pub execute_can_join_event : Scripts → ChatChannel → ℕ → Bool
execute_can_join_event l c p = elim c.can_join_event [ none ↦ true | some e ↦ l.can_join e p ]

abbrev pub execute_on_join_event : Scripts → ChatChannel → ℕ → Bool
execute_on_join_event l c p = elim c.on_join_event [ none ↦ true | some e ↦ l.on_join e p ]

abbrev pub execute_on_speak_event : Scripts → ChatChannel → ℕ → ℕ → Bool × ℕ
execute_on_speak_event l c p type = elim c.on_speak_event [
  | none ↦ (true, type)
  | some e ↦ l.on_speak e p type
]

unfoldable pub is_invited : ℕ → PrivateChatChannel → Bool
is_invited guid c = guid == c.owner || has guid c.invites

unfoldable pub remove_invite : ℕ → PrivateChatChannel → Bool × PrivateChatChannel
remove_invite guid c = (has guid c.invites, record c { invites = erase_id guid c.invites })

-- PrivateChatChannel::invitePlayer
unfoldable pub invite_player : Player → PrivateChatChannel → PrivateChatChannel
invite_player p c = record c { invites = insert_id p.guid c.invites }

unfoldable pub add_user : Scripts → Player → ChatChannel → Bool × ChatChannel
add_user l p c =
    if has p.id c.users
    then (false, c)
    else if not (execute_on_join_event l c p.id)
    then (false, c)
    else (true, record c { users = insert_id p.id c.users })

unfoldable pub remove_user : Player → ChatChannel → Bool × ChatChannel
remove_user p c =
    if has p.id c.users then (true, record c { users = erase_id p.id c.users }) else (false, c)

-- PrivateChatChannel::excludePlayer, with whether the player is told that the channel is closed.
unfoldable pub exclude_player : Player → PrivateChatChannel → Bool × PrivateChatChannel
unfolding remove_invite remove_user
exclude_player p c =
    let (invited, c') = remove_invite p.guid c in
    if invited then (true, record c' { channel = (remove_user p c'.channel).1 }) else (false, c)

-- ChatChannel::talk: whether it is said, and the users who hear it.
unfoldable pub talk : Player → ChatChannel → Bool × List ℕ
talk p c = if has p.id c.users then (true, c.users) else (false, [])

abbrev pub channel_guild : ℕ
channel_guild = 0

abbrev pub channel_party : ℕ
channel_party = 1

abbrev pub channel_private : ℕ
channel_private = 65535

-- A std::map is a function of the key. `closed` are the messages that tell a user, by its id, that a
-- channel has been closed.
pub record Chat : Type 0 where
  pub normal_channels : ℕ → Option ChatChannel
  pub private_channels : ℕ → Option PrivateChatChannel
  pub party_channels : ℕ → Option ChatChannel
  pub guild_channels : ℕ → Option ChatChannel
  pub closed : List (ℕ × ℕ)

-- A pointer to a channel.
pub data ChannelRef : Type 0 where
  normal_channel private_channel party_channel guild_channel : ℕ → ChannelRef
