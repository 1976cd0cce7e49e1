-- ===== src/Chat/Sound.antt =====
-- The requests keep to what the private channels keep to.
use tibia_server.Base.{
  ℕ, Bool, true, false, Option, none, some, ◌==◌, ◌≡◌, refl, sym, ap, ◌∙◌, inl, inr, ◌⊎◌,
  Bool-cases, Option-cases, subst,
}
use tibia_server.Base.IdSet.{has}
use tibia_server.Base.Update.{put, some_inj}
use tibia_server.Chat.{
  Player, ChatChannel, PrivateChatChannel, Scripts, Chat, ChannelRef, normal_channel,
  private_channel, party_channel, guild_channel, is_invited, channel_guild, channel_party,
  execute_can_join_event,
}
use tibia_server.Chat.Channels.{channel_at, set_channel, found_at, get_channel, delete_channel}
use tibia_server.Chat.Changes.{IsSound, erased-IsSound, changed-IsSound}

-- A private channel that getChannel finds is one that the player is invited to.
abbrev pub Allowed : Player → Chat → Option ChannelRef → Type 0
Allowed p s (some (private_channel k)) =
    (c : PrivateChatChannel) × (s.private_channels k ≡ some c) × (is_invited p.guid c ≡ true)
Allowed p s r = Unit {0}

found_at-Allowed :
    (p : Player) (s : Chat) (m : ℕ → Option ChatChannel) (r : ℕ → ChannelRef)
    → ((k : ℕ) → Allowed p s (some (r k)))
    → (o : Option ℕ) → Allowed p s (found_at m r o)
found_at-Allowed p s m r h none = tt
found_at-Allowed p s m r h (some k) = there (m k)
  where
    there : (o : Option ChatChannel) → Allowed p s (elim o [ none ↦ none | some c ↦ some (r k) ])
    there none = tt
    there (some c) = h k

pub get_channel-Allowed :
    (l : Scripts) (p : Player) (id : ℕ) (s : Chat) → Allowed p s (get_channel l p id s)
unfolding get_channel
get_channel-Allowed l p id s = elim (Bool-cases (id == channel_guild)) [
  | inl g ↦
      rw (get_channel, g) (found_at-Allowed p s s.guild_channels guild_channel (λ k. tt) p.guild)
  | inr g ↦ elim (Bool-cases (id == channel_party)) [
    | inl h ↦
        rw (get_channel, g, h)
          (found_at-Allowed p s s.party_channels party_channel (λ k. tt) p.party)
    | inr h ↦ elim (Option-cases (s.normal_channels id)) [
      | inr (c, n) ↦ elim (Bool-cases (execute_can_join_event l c p.id)) [
        | inl j ↦ rw (get_channel, g, h, n, j) tt
        | inr j ↦ rw (get_channel, g, h, n, j) tt
      ]
      | inl n ↦ elim (Option-cases (s.private_channels id)) [
        | inl e ↦ rw (get_channel, g, h, n, e) tt
        | inr (c, e) ↦ elim (Bool-cases (is_invited p.guid c)) [
          | inl i ↦ rw (get_channel, g, h, n, e, i) (c, e, i)
          | inr i ↦ rw (get_channel, g, h, n, e, i) tt
        ]
      ]
    ]
  ]
]

module _ (guid_of : ℕ → ℕ) where
  -- A write of other users through a pointer.
  pub set_channel-IsSound :
      (r : ChannelRef) (c c' : ChatChannel) (p : Player) (s : Chat)
      → IsSound guid_of s.private_channels
      → Allowed p s (some r)
      → channel_at r s ≡ some c
      → c'.id ≡ c.id
      → ((u : ℕ) → has u c'.users ≡ true → (has u c.users ≡ true) ⊎ (guid_of u ≡ p.guid))
      → IsSound guid_of (set_channel r c' s).private_channels
  unfolding set_channel channel_at is_invited
  set_channel-IsSound (normal_channel k) c c' p s g a at id users = g
  set_channel-IsSound (party_channel k) c c' p s g a at id users = g
  set_channel-IsSound (guild_channel k) c c' p s g a at id users = g
  set_channel-IsSound (private_channel k) c c' p s g (d, there, invited) at id users =
      rw (set_channel, there)
        (changed-IsSound guid_of s.private_channels k (record d { channel = c' }) g
          (record {
            c = d;
            was_there = there;
            same_owner = refl;
            same_id = id ∙ ap (λ x. x.id) (sym same);
            invited = λ u h. elim (users u h) [
              | inl old ↦ g.admitted k d u there (subst (λ x. has u x.users ≡ true) (sym same) old)
              | inr new ↦ rw new invited
            ];
          }))
    where
      same : d.channel ≡ c
      same = some_inj (rw (channel_at, there) at at)

  pub delete_channel-IsSound :
      (p : Player) (id : ℕ) (s : Chat)
      → IsSound guid_of s.private_channels
      → IsSound guid_of (delete_channel p id s).1.private_channels
  unfolding delete_channel
  delete_channel-IsSound p id s g = elim (Bool-cases (id == channel_guild)) [
    | inl a ↦ rw (delete_channel, a) (of_guild (found_at s.guild_channels guild_channel p.guild))
    | inr a ↦ elim (Bool-cases (id == channel_party)) [
      | inl b ↦
          rw (delete_channel, a, b) (of_party (found_at s.party_channels party_channel p.party))
      | inr b ↦ elim (Option-cases (s.private_channels id)) [
        | inl e ↦ rw (delete_channel, a, b, e) g
        | inr (c, e) ↦ rw (delete_channel, a, b, e) (erased-IsSound guid_of s.private_channels id g)
      ]
    ]
  ]
    where
      of_guild :
          (o : Option ChannelRef)
          → IsSound guid_of
              (elim o as (λ x. Bool × Chat) [
                | some (guild_channel g) ↦
                    (true, record s { guild_channels = put s.guild_channels g none })
                | _ ↦ (false, s)
              ]).1.private_channels
      of_guild none = g
      of_guild (some (normal_channel k)) = g
      of_guild (some (private_channel k)) = g
      of_guild (some (party_channel k)) = g
      of_guild (some (guild_channel k)) = g

      of_party :
          (o : Option ChannelRef)
          → IsSound guid_of
              (elim o as (λ x. Bool × Chat) [
                | some (party_channel g) ↦
                    (true, record s { party_channels = put s.party_channels g none })
                | _ ↦ (false, s)
              ]).1.private_channels
      of_party none = g
      of_party (some (normal_channel k)) = g
      of_party (some (private_channel k)) = g
      of_party (some (party_channel k)) = g
      of_party (some (guild_channel k)) = g
