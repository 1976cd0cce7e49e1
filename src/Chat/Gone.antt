-- ===== src/Chat/Gone.antt =====
-- What is left of a player whose session ends.
use tibia_server.Base.{
  ℕ, zero, suc, ◌≤◌, false, Option, none, some, ◌==◌, ◌≡◌, refl, sym, ap, ◌∙◌, arith, inl, inr,
  Bool-cases, Option-cases, subst,
}
use tibia_server.Base.IdSet.{has, has-erase_id, has-erase_id_other}
use tibia_server.Base.Update.{some_inj, no_node}
use tibia_server.Chat.{
  Player, ChatChannel, PrivateChatChannel, Chat, ChannelRef, private_channel, normal_channel,
  party_channel, guild_channel, remove_user, remove_invite,
}
use tibia_server.Chat.Channels.{
  channel_at, remove_user_from_all_channels, without, key_count, leave_private, leave_all_private,
}
use tibia_server.Chat.Changes.{IsSound}
use tibia_server.Chat.Loops.{quit, left, remove_user_from_all_channels-cases}
use tibia_server.Chat.Keeping.{remove_user-gone}

-- Each channel of a map is there afterwards, with the same users but for the player.
abbrev pub StayIn : Player → (ℕ → Option ChatChannel) → (ℕ → Option ChatChannel) → Type 0
StayIn p m m' =
    (k u : ℕ) (c : ChatChannel)
    → m k ≡ some c
    → (u == p.id) ≡ false
    → (d : ChatChannel) × (m' k ≡ some d) × (has u d.users ≡ has u c.users)

-- What is left of a player who goes: no place in a channel, no invitation and no channel of its own;
-- the private channels of others are there with their owners, their other users and their other
-- invitations, and all channels of the other kinds are there with their other users.
pub record IsGone (p : Player) (s s' : Chat) : Type 0 where
  pub no_user :
      (r : ChannelRef) (c : ChatChannel) → channel_at r s' ≡ some c → has p.id c.users ≡ false
  pub no_owner :
      (k : ℕ) (c : PrivateChatChannel)
      → s'.private_channels k ≡ some c
      → (c.owner == p.guid) ≡ false
  pub no_invite :
      (k : ℕ) (c : PrivateChatChannel)
      → s'.private_channels k ≡ some c
      → has p.guid c.invites ≡ false
  pub others_stay :
      (k u : ℕ) (c : PrivateChatChannel)
      → s.private_channels k ≡ some c
      → (c.owner == p.guid) ≡ false
      → (u == p.id) ≡ false
      → (d : PrivateChatChannel) × (s'.private_channels k ≡ some d)
        × (has u d.channel.users ≡ has u c.channel.users)
  pub others_invited :
      (k i : ℕ) (c : PrivateChatChannel)
      → s.private_channels k ≡ some c
      → (c.owner == p.guid) ≡ false
      → (i == p.guid) ≡ false
      → (d : PrivateChatChannel) × (s'.private_channels k ≡ some d)
        × (d.owner ≡ c.owner)
        × (has i d.invites ≡ has i c.invites)
  pub others_stay_normal : StayIn p s.normal_channels s'.normal_channels
  pub others_stay_party : StayIn p s.party_channels s'.party_channels
  pub others_stay_guild : StayIn p s.guild_channels s'.guild_channels

-- The loop over the private channels leaves the others.
record SameOthers (s s' : Chat) : Type 0 where
  same_normal : s'.normal_channels ≡ s.normal_channels
  same_party : s'.party_channels ≡ s.party_channels
  same_guild : s'.guild_channels ≡ s.guild_channels

leave_private-SameOthers : (p : Player) (k : ℕ) (s : Chat) → SameOthers s (leave_private p k s)
unfolding leave_private remove_invite
leave_private-SameOthers p k s = elim (Option-cases (s.private_channels k)) [
  | inl e ↦
      rw (leave_private, e) (record { same_normal = refl; same_party = refl; same_guild = refl })
  | inr (c, e) ↦ elim (Bool-cases (c.owner == p.guid)) [
    | inl o ↦
        rw (leave_private, e, o)
          (record { same_normal = refl; same_party = refl; same_guild = refl })
    | inr o ↦
        rw (leave_private, e, o)
          (record { same_normal = refl; same_party = refl; same_guild = refl })
  ]
]

leave_all_private-SameOthers :
    (p : Player) (n k : ℕ) (s : Chat) → SameOthers s (leave_all_private p n k s)
unfolding leave_all_private
leave_all_private-SameOthers p zero k s = record {
  same_normal = refl;
  same_party = refl;
  same_guild = refl;
}
leave_all_private-SameOthers p (suc n) k s =
    let first = leave_private-SameOthers p k s in
    let rest = leave_all_private-SameOthers p n (suc k) (leave_private p k s) in
    record {
      same_normal = rest.same_normal ∙ first.same_normal;
      same_party = rest.same_party ∙ first.same_party;
      same_guild = rest.same_guild ∙ first.same_guild;
    }

without-gone :
    (p : Player) (o : Option ChatChannel) (c : ChatChannel)
    → ◌≡◌ {A = Option ChatChannel}
        (elim o [ none ↦ none | some c ↦ some (remove_user p c).1 ])
        (some c)
    → has p.id c.users ≡ false
without-gone p none c e = absurd (no_node e)
without-gone p (some old) c e =
    subst (λ x. has p.id x.users ≡ false) (some_inj e) (remove_user-gone p old)

module _ (guid_of : ℕ → ℕ) (p : Player) (s : Chat) (g : IsSound guid_of s.private_channels) where
  abbrev after : Chat
  after = remove_user_from_all_channels p s

  -- A private channel that is left is what was there without the player.
  IsLeft : ℕ → PrivateChatChannel → Type 0
  IsLeft k d =
      (c : PrivateChatChannel) × (s.private_channels k ≡ some c)
      × ((c.owner == p.guid) ≡ false)
      × (d ≡ quit p c)

  left-IsLeft :
      (k : ℕ) (d : PrivateChatChannel) (o : Option PrivateChatChannel)
      → s.private_channels k ≡ o
      → left p o ≡ some d
      → IsLeft k d
  unfolding IsLeft
  left-IsLeft k d none at e = absurd (no_node e)
  left-IsLeft k d (some c) at e = elim (Bool-cases (c.owner == p.guid)) [
    | inl o ↦ absurd (no_node (rw o at e))
    | inr o ↦ (c, at, o, sym (some_inj (rw o at e)))
  ]

  in_range : (k : ℕ) (c : PrivateChatChannel) → s.private_channels k ≡ some c → key_count ≤ k → ⊥
  unfolding key_count
  in_range k c at high = omega (arith, (g.ranged k c at).1, high)

  after-IsLeft : (k : ℕ) (d : PrivateChatChannel) → after.private_channels k ≡ some d → IsLeft k d
  after-IsLeft k d e = elim (remove_user_from_all_channels-cases p k s) [
    | inl gone ↦ left-IsLeft k d (s.private_channels k) refl (sym gone ∙ e)
    | inr (high, same) ↦ absurd (in_range k d (sym same ∙ e) high)
  ]

  looped :
      SameOthers
        (record s {
          normal_channels = without (λ c. (remove_user p c).1) s.normal_channels;
          party_channels = without (λ c. (remove_user p c).1) s.party_channels;
          guild_channels = without (λ c. (remove_user p c).1) s.guild_channels;
        })
        after
  unfolding remove_user_from_all_channels
  looped = leave_all_private-SameOthers p key_count 0 _

  remove_user-other :
      (c : ChatChannel) (u : ℕ)
      → (u == p.id) ≡ false
      → has u (remove_user p c).1.users ≡ has u c.users
  unfolding remove_user
  remove_user-other c u apart = elim (Bool-cases (has p.id c.users)) [
    | inl h ↦ rw (remove_user, h) (has-erase_id_other u p.id c.users apart)
    | inr h ↦ rw (remove_user, h) refl
  ]

  remove_user-StayIn :
      (m m' : ℕ → Option ChatChannel) → m' ≡ without (λ c. (remove_user p c).1) m → StayIn p m m'
  remove_user-StayIn m m' same k u c at apart =
      ((remove_user p c).1, ap (λ f. f k) same ∙ rw (without, at) refl, remove_user-other c u apart)

  after-invited :
      (k i : ℕ) (c : PrivateChatChannel)
      → s.private_channels k ≡ some c
      → (c.owner == p.guid) ≡ false
      → (i == p.guid) ≡ false
      → (d : PrivateChatChannel) × (after.private_channels k ≡ some d)
        × (d.owner ≡ c.owner)
        × (has i d.invites ≡ has i c.invites)
  unfolding remove_invite
  after-invited k i c at other apart = elim (remove_user_from_all_channels-cases p k s) [
    | inl gone ↦
        let there : left p (s.private_channels k) ≡ some (quit p c) = rw (at, other) refl in
        (quit p c, gone ∙ there, refl, has-erase_id_other i p.guid c.invites apart)
    | inr (high, same) ↦ absurd (in_range k c at high)
  ]

  after-others :
      (k u : ℕ) (c : PrivateChatChannel)
      → s.private_channels k ≡ some c
      → (c.owner == p.guid) ≡ false
      → (u == p.id) ≡ false
      → (d : PrivateChatChannel) × (after.private_channels k ≡ some d)
        × (has u d.channel.users ≡ has u c.channel.users)
  unfolding remove_invite
  after-others k u c at other apart = elim (remove_user_from_all_channels-cases p k s) [
    | inl gone ↦
        let there : left p (s.private_channels k) ≡ some (quit p c) = rw (at, other) refl in
        (quit p c, gone ∙ there, remove_user-other c.channel u apart)
    | inr (high, same) ↦ absurd (in_range k c at high)
  ]

  gone_user :
      (r : ChannelRef) (c : ChatChannel) → channel_at r after ≡ some c → has p.id c.users ≡ false
  unfolding channel_at remove_user_from_all_channels IsLeft remove_invite
  gone_user (normal_channel k) c e =
      without-gone p (s.normal_channels k) c (sym (ap (λ m. m k) looped.same_normal) ∙ e)
  gone_user (party_channel k) c e =
      without-gone p (s.party_channels k) c (sym (ap (λ m. m k) looped.same_party) ∙ e)
  gone_user (guild_channel k) c e =
      without-gone p (s.guild_channels k) c (sym (ap (λ m. m k) looped.same_guild) ∙ e)
  gone_user (private_channel k) c e = elim (Option-cases (after.private_channels k)) [
    | inl f ↦ absurd (no_node (rw (channel_at, f) at e))
    | inr (d, f) ↦
        let (old, at, o, same) = after-IsLeft k d f in
        let is_c : d.channel ≡ c = some_inj (rw (channel_at, f) at e) in
        subst (λ x. has p.id x.users ≡ false) (sym (ap (λ x. x.channel) same) ∙ is_c)
          (remove_user-gone p old.channel)
  ]

  -- In a chat that is as requests keep it, removeUserFromAllChannels leaves the player in no channel,
  -- invited to none and the owner of none. The private channels of other owners stay, with their
  -- owner, their other users and their other invitations, and so do all normal, party and guild
  -- channels with their other users.
  pub remove_user_from_all_channels-IsGone : IsGone p s after
  unfolding IsLeft remove_invite
  remove_user_from_all_channels-IsGone = record {
    no_user = gone_user;
    no_owner = λ k d e.
        let (old, at, o, same) = after-IsLeft k d e in ap (λ x. x.owner == p.guid) same ∙ o;
    no_invite = λ k d e.
        let (old, at, o, same) = after-IsLeft k d e in
        ap (λ x. has p.guid x.invites) same ∙ has-erase_id p.guid old.invites;
    others_stay = after-others;
    others_invited = after-invited;
    others_stay_normal =
        remove_user-StayIn s.normal_channels after.normal_channels looped.same_normal;
    others_stay_party = remove_user-StayIn s.party_channels after.party_channels looped.same_party;
    others_stay_guild = remove_user-StayIn s.guild_channels after.guild_channels looped.same_guild;
  }
