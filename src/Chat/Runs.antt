-- ===== src/Chat/Runs.antt =====
-- What the requests about channels keep, and who hears whom.
use tibia_server.Base.{
  ℕ, Bool, true, false, not, List, none, some, ◌==◌, if◌then◌else◌, ◌≡◌, inl, inr, Bool-cases,
  Option-cases, clash, subst, [],
}
use tibia_server.Base.IdSet.{has}
use tibia_server.Base.Update.{some_inj, no_node}
use tibia_server.Chat.{
  Player, ChatChannel, PrivateChatChannel, Scripts, Chat, is_invited, talk, channel_guild,
  channel_party,
}
use tibia_server.Chat.Channels.{channel_at, get_channel}
use tibia_server.Chat.Requests.{
  Request, create, invite, exclude, open_channel, close, leave, handle, talk_to_channel,
  player_create_private_channel, player_open_channel, player_close_channel,
}
use tibia_server.Chat.Changes.{IsSound}
use tibia_server.Chat.Keeping.{add_user_to_channel-IsSound, remove_user_from_channel-IsSound}
use tibia_server.Chat.Handled.{IsAlone, IsKnown, invite-IsSound, exclude-IsSound, leave-IsSound}
use tibia_server.Chat.Created.{create-IsSound}

module _ (guid_of : ℕ → ℕ) where
  -- The players of a request are creatures of their guids, and a player who is excluded or goes has
  -- no other creature in a private channel.
  abbrev pub IsFit : Request → Chat → Type 0
  IsFit (create (some p)) s = IsKnown guid_of p
  IsFit (exclude op (some q)) s = IsAlone guid_of q s
  IsFit (open_channel (some p) id) s = IsKnown guid_of p
  IsFit (close (some p) id) s = IsKnown guid_of p
  IsFit (leave p) s = IsAlone guid_of p s
  IsFit r s = Unit {0}

  -- Every request keeps that private channels have ids from 100 to 9999, that no player owns two,
  -- and that the users of each are its owner and players who are invited, where the players of the
  -- request are creatures of their guids, of which there is one.
  pub handle-IsSound :
      (l : Scripts) (r : Request) (s : Chat)
      → IsFit r s
      → IsSound guid_of s.private_channels
      → IsSound guid_of (handle l r s).private_channels
  unfolding handle player_create_private_channel player_open_channel player_close_channel
  handle-IsSound l (create none) s fit g = g
  handle-IsSound l (create (some p)) s fit g = create-IsSound guid_of l p s fit g
  handle-IsSound l (invite op oq) s fit g = invite-IsSound guid_of op oq s g
  handle-IsSound l (exclude op none) s fit g =
      exclude-IsSound guid_of op none s (λ q e. absurd (no_node e)) g
  handle-IsSound l (exclude op (some q)) s fit g =
      exclude-IsSound guid_of op (some q) s
        (λ q' e. subst (λ x. IsAlone guid_of x s) (some_inj e) fit) g
  handle-IsSound l (open_channel none id) s fit g = g
  handle-IsSound l (open_channel (some p) id) s fit g =
      add_user_to_channel-IsSound guid_of l p id s fit g
  handle-IsSound l (close none id) s fit g = g
  handle-IsSound l (close (some p) id) s fit g =
      remove_user_from_channel-IsSound guid_of l p id s fit g
  handle-IsSound l (leave p) s fit g = leave-IsSound guid_of p s fit g

  -- The speaker and the hearer are both in a private channel, and the owner or invited.
  pub record IsPrivate (s : Chat) (p : Player) (id u : ℕ) : Type 0 where
    pub c : PrivateChatChannel
    pub there : s.private_channels id ≡ some c
    pub speaker_in : has p.id c.channel.users ≡ true
    pub speaker_invited : is_invited p.guid c ≡ true
    pub hearer_in : has u c.channel.users ≡ true
    pub hearer_invited : is_invited (guid_of u) c ≡ true

  heard :
      (p : Player) (c : ChatChannel) (u said : ℕ) (speaks : Bool)
      → has u
          (if◌then◌else◌ {A = Bool × ℕ × List ℕ}
            (not speaks)
            (false, said, [])
            ((talk p c).0, said, (talk p c).1)).2
        ≡ true
      → (has p.id c.users ≡ true) × (has u c.users ≡ true)
  unfolding talk has
  heard p c u said false e = absurd (clash e)
  heard p c u said true e = elim (Bool-cases (has p.id c.users)) [
    | inl h ↦ (h, rw (talk, h) at e)
    | inr h ↦ absurd (clash (rw (talk, h) at e))
  ]

  -- Who hears what is said under an id of a private channel, in a chat that is as requests keep it,
  -- is in that channel and its owner or invited, and so is the speaker.
  pub talk_to_channel-IsPrivate :
      (l : Scripts) (p : Player) (type id u : ℕ) (s : Chat)
      → IsSound guid_of s.private_channels
      → (id == channel_guild) ≡ false
      → (id == channel_party) ≡ false
      → s.normal_channels id ≡ none
      → has u (talk_to_channel l p type id s).2 ≡ true
      → IsPrivate s p id u
  unfolding talk_to_channel get_channel channel_at has
  talk_to_channel-IsPrivate l p type id u s g ng np nn e =
      elim (Option-cases (s.private_channels id)) [
        | inl f ↦ absurd (clash (rw (talk_to_channel, get_channel, ng, np, nn, f) at e))
        | inr (c, f) ↦ elim (Bool-cases (is_invited p.guid c)) [
          | inr i ↦ absurd (clash (rw (talk_to_channel, get_channel, ng, np, nn, f, i) at e))
          | inl i ↦
              let both =
                heard p c.channel u _ _
                  (rw (talk_to_channel, get_channel, ng, np, nn, f, i, channel_at, f) at e) in
              record {
                c = c;
                there = f;
                speaker_in = both.0;
                speaker_invited = i;
                hearer_in = both.1;
                hearer_invited = g.admitted id c u f both.1;
              }
        ]
      ]
