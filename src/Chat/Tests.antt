-- ===== src/Chat/Tests.antt =====
-- A few players and their channels.
use tibia_server.Base.{
  ℕ, suc, true, [], ◌∷◌, Option, none, some, ◌≡◌, refl, sym, ◌∙◌, arith, inl, inr, subst,
}
use tibia_server.Base.IdSet.{has}
use tibia_server.Base.Update.{put, put-cases, no_node, some_inj}
use tibia_server.Chat.{Player, PrivateChatChannel, Scripts, Chat, new_channel, is_invited}
use tibia_server.Chat.Channels.{remove_user_from_all_channels}
use tibia_server.Chat.Requests.{
  create, open_channel, handle, player_create_private_channel, talk_to_channel,
}
use tibia_server.Chat.Changes.{IsSound}
use tibia_server.Chat.Created.{IsNew, player_create_private_channel-IsNew}
use tibia_server.Chat.Runs.{IsPrivate, handle-IsSound, talk_to_channel-IsPrivate}
use tibia_server.Chat.Gone.{IsGone, remove_user_from_all_channels-IsGone}

abbrev silent : Scripts
silent = record { can_join = λ e p. true; on_join = λ e p. true; on_speak = λ e p t. (true, t) }

-- The creature with the id n is the character with the guid n + 1.
abbrev guid_of : ℕ → ℕ
guid_of n = suc n

abbrev player : ℕ → Player
player n = record {
  id = n;
  guid = suc n;
  premium = true;
  guild = none;
  party = none;
  rank_level = none;
}

abbrev no_chat : Chat
no_chat = record {
  normal_channels = λ k. none;
  private_channels = λ k. none;
  party_channels = λ k. none;
  guild_channels = λ k. none;
  closed = [];
}

no_chat-IsSound : IsSound guid_of no_chat.private_channels
no_chat-IsSound = record {
  ranged = λ k c e. absurd (no_node e);
  own_id = λ k c e. absurd (no_node e);
  one_each = λ j k c d e f s. absurd (no_node e);
  admitted = λ k c u e h. absurd (no_node e);
}

abbrev with_channel : Chat
with_channel = handle silent (create (some (player 5))) no_chat

with_channel-IsSound : IsSound guid_of with_channel.private_channels
with_channel-IsSound =
    handle-IsSound guid_of silent (create (some (player 5))) no_chat refl no_chat-IsSound

handle-IsSound_example :
    IsSound guid_of
      (handle silent (open_channel (some (player 7)) 100) with_channel).private_channels
handle-IsSound_example =
    handle-IsSound guid_of silent (open_channel (some (player 7)) 100) with_channel refl
      with_channel-IsSound

player_create_private_channel-IsNew_example :
    IsNew (player 5) no_chat (player_create_private_channel silent (some (player 5)) no_chat)
player_create_private_channel-IsNew_example =
    player_create_private_channel-IsNew silent (player 5) no_chat 100 refl
      (λ j c e. absurd (no_node e)) refl refl (omega arith) (omega arith) refl

remove_user_from_all_channels-IsGone_example :
    IsGone (player 5) with_channel (remove_user_from_all_channels (player 5) with_channel)
remove_user_from_all_channels-IsGone_example =
    remove_user_from_all_channels-IsGone guid_of (player 5) with_channel with_channel-IsSound

-- A channel of the character 6 with its creature 5, and 7 as a guest.
abbrev club : PrivateChatChannel
club = record {
  channel = record (new_channel 100) { users = 7 ∷ 5 ∷ [] };
  invites = 8 ∷ [];
  owner = 6;
}

abbrev with_club : Chat
with_club = record no_chat { private_channels = put (λ k. none) 100 (some club) }

heard_by_guest : has 7 (talk_to_channel silent (player 5) 7 100 with_club).2 ≡ true
unfolding talk_to_channel has
heard_by_guest = refl

club_alone :
    (k : ℕ) (c : PrivateChatChannel)
    → with_club.private_channels k ≡ some c
    → (k ≡ 100) × (club ≡ c)
club_alone k c e = elim (put-cases {A = Option PrivateChatChannel} (λ k. none) 100 k (some club)) [
  | inl (at, r) ↦ (at, some_inj (sym r ∙ e))
  | inr (_, r) ↦ absurd (no_node (sym r ∙ e))
]

club_users : (u : ℕ) → has u club.channel.users ≡ true → is_invited (suc u) club ≡ true
unfolding has is_invited
club_users u h = grind (arith, h)

with_club-IsSound : IsSound guid_of with_club.private_channels
with_club-IsSound = record {
  ranged = λ k c e. (omega (arith, (club_alone k c e).0), omega (arith, (club_alone k c e).0));
  own_id = λ k c e. subst (λ x. x.channel.id ≡ k) (club_alone k c e).1 (sym (club_alone k c e).0);
  one_each = λ j k c d e f s. (club_alone j c e).0 ∙ sym (club_alone k d f).0;
  admitted = λ k c u e h.
      subst (λ x. is_invited (suc u) x ≡ true) (club_alone k c e).1
        (club_users u (subst (λ x. has u x.channel.users ≡ true) (sym (club_alone k c e).1) h));
}

talk_to_channel-IsPrivate_example : IsPrivate guid_of with_club (player 5) 100 7
talk_to_channel-IsPrivate_example =
    talk_to_channel-IsPrivate guid_of silent (player 5) 7 100 7 with_club with_club-IsSound refl
      refl refl heard_by_guest
