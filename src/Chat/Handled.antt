-- ===== src/Chat/Handled.antt =====
-- The handlers keep to what the private channels keep to.
use tibia_server.Base.{
  ℕ, Bool, true, false, ◌||◌, Option, none, some, ◌==◌, if◌then◌else◌, ◌≡◌, ◌≢◌, refl, sym, ◌∙◌,
  inl, inr, Bool-cases, Option-cases, clash, subst,
}
use tibia_server.Base.IdSet.{has, erase_id, has-insert_id, has-erase_id_other}
use tibia_server.Base.Update.{no_node, some_inj, ==_no}
use tibia_server.Chat.{
  Player, PrivateChatChannel, Chat, is_invited, remove_invite, invite_player, exclude_player,
  remove_user,
}
use tibia_server.Chat.Channels.{get_private_channel, remove_user_from_all_channels}
use tibia_server.Chat.Requests.{
  player_channel_invite, player_channel_exclude, change_private, exclude_from,
}
use tibia_server.Chat.Changes.{IsSound, IsFrom, derived-IsSound, self-IsFrom, changed-IsSound}
use tibia_server.Chat.Loops.{quit, left, remove_user_from_all_channels-cases}
use tibia_server.Chat.Keeping.{remove_user-gone, remove_user-IsUserChange}

module _ (guid_of : ℕ → ℕ) where
  -- No other user of a private channel has the player's guid.
  abbrev pub IsAlone : Player → Chat → Type 0
  IsAlone p s =
      (k : ℕ) (c : PrivateChatChannel) (u : ℕ)
      → s.private_channels k ≡ some c
      → has u c.channel.users ≡ true
      → guid_of u ≡ p.guid
      → u ≡ p.id

  -- A player's id is that of a creature with the player's guid.
  abbrev pub IsKnown : Player → Type 0
  IsKnown p = guid_of p.id ≡ p.guid

  -- What a channel is without a player and the player's invitation.
  quit-IsFrom :
      (p : Player) (s : Chat) (k : ℕ) (c : PrivateChatChannel)
      → IsAlone p s
      → IsSound guid_of s.private_channels
      → s.private_channels k ≡ some c
      → IsFrom guid_of s.private_channels k (quit p c)
  unfolding remove_invite is_invited
  quit-IsFrom p s k c alone g at = record {
    c = c;
    was_there = at;
    same_owner = refl;
    same_id = (remove_user-IsUserChange p c.channel).same_id;
    invited = λ u h. still u h;
  }
    where
      still :
          (u : ℕ)
          → has u (remove_user p c.channel).1.users ≡ true
          → (guid_of u == c.owner || has (guid_of u) (erase_id p.guid c.invites)) ≡ true
      still u h =
          let was : has u c.channel.users ≡ true =
            elim ((remove_user-IsUserChange p c.channel).users u h) [
              | inl old ↦ old
              | inr own ↦ absurd (
                  clash (
                    sym (remove_user-gone p c.channel)
                    ∙ subst (λ i. has i (remove_user p c.channel).1.users ≡ true) own h))
            ] in
          let apart : guid_of u ≢ p.guid = λ e. clash (
            sym (remove_user-gone p c.channel)
            ∙ subst (λ i. has i (remove_user p c.channel).1.users ≡ true) (alone k c u at was e)
                h) in
          rw (has-erase_id_other (guid_of u) p.guid c.invites (==_no (guid_of u) p.guid apart))
            (g.admitted k c u at was)

  change_private-IsSound :
      (f : PrivateChatChannel → PrivateChatChannel) (k : ℕ) (s : Chat)
      → IsSound guid_of s.private_channels
      → ((c : PrivateChatChannel)
          → s.private_channels k ≡ some c
          → IsFrom guid_of s.private_channels k (f c))
      → IsSound guid_of (change_private f k s).private_channels
  unfolding change_private
  change_private-IsSound f k s g h = elim (Option-cases (s.private_channels k)) [
    | inl e ↦ rw (change_private, e) g
    | inr (c, e) ↦
        rw (change_private, e) (changed-IsSound guid_of s.private_channels k (f c) g (h c e))
  ]

  invite-IsFrom :
      (q : Player) (s : Chat) (k : ℕ) (c : PrivateChatChannel)
      → IsSound guid_of s.private_channels
      → s.private_channels k ≡ some c
      → IsFrom guid_of s.private_channels k (invite_player q c)
  unfolding invite_player is_invited
  invite-IsFrom q s k c g at = record {
    c = c;
    was_there = at;
    same_owner = refl;
    same_id = refl;
    invited = λ u h.
        rw (has-insert_id (guid_of u) q.guid c.invites)
          (more (guid_of u == c.owner) (q.guid == guid_of u) _ (g.admitted k c u at h));
  }
    where
      more : (a b c : Bool) → (a || c) ≡ true → (a || (if b then true else c)) ≡ true
      more true b c h = refl
      more false true c h = refl
      more false false c h = h

  pub invite-IsSound :
      (op oq : Option Player) (s : Chat)
      → IsSound guid_of s.private_channels
      → IsSound guid_of (player_channel_invite op oq s).private_channels
  unfolding player_channel_invite
  invite-IsSound none oq s g = g
  invite-IsSound (some p) oq s g = elim (Option-cases (get_private_channel p s)) [
    | inl e ↦ rw (player_channel_invite, e) g
    | inr (k, e) ↦ elim (Option-cases oq) [
      | inl o ↦ rw (player_channel_invite, e, o) g
      | inr (q, o) ↦ elim (Bool-cases (p.id == q.id)) [
        | inl i ↦ rw (player_channel_invite, e, o, i) g
        | inr i ↦
            rw (player_channel_invite, e, o, i)
              (change_private-IsSound (invite_player q) k s g (λ c f. invite-IsFrom q s k c g f))
      ]
    ]
  ]

  exclude_from-IsSound :
      (q : Player) (k : ℕ) (s : Chat)
      → IsAlone q s
      → IsSound guid_of s.private_channels
      → IsSound guid_of (exclude_from q k s).private_channels
  unfolding exclude_from exclude_player remove_invite
  exclude_from-IsSound q k s alone g = elim (Option-cases (s.private_channels k)) [
    | inl f ↦ rw (exclude_from, f) g
    | inr (c, f) ↦ elim (Bool-cases (has q.guid c.invites)) [
      | inl h ↦
          rw (exclude_from, f, exclude_player, h)
            (changed-IsSound guid_of s.private_channels k (quit q c) g
              (quit-IsFrom q s k c alone g f))
      | inr h ↦
          rw (exclude_from, f, exclude_player, h)
            (changed-IsSound guid_of s.private_channels k c g
              (self-IsFrom guid_of s.private_channels g k c f))
    ]
  ]

  pub exclude-IsSound :
      (op oq : Option Player) (s : Chat)
      → ((q : Player) → oq ≡ some q → IsAlone q s)
      → IsSound guid_of s.private_channels
      → IsSound guid_of (player_channel_exclude op oq s).private_channels
  unfolding player_channel_exclude
  exclude-IsSound none oq s alone g = g
  exclude-IsSound (some p) oq s alone g = elim (Option-cases (get_private_channel p s)) [
    | inl e ↦ rw (player_channel_exclude, e) g
    | inr (k, e) ↦ elim (Option-cases oq) [
      | inl o ↦ rw (player_channel_exclude, e, o) g
      | inr (q, o) ↦ elim (Bool-cases (p.id == q.id)) [
        | inl i ↦ rw (player_channel_exclude, e, o, i) g
        | inr i ↦ rw (player_channel_exclude, e, o, i) (exclude_from-IsSound q k s (alone q o) g)
      ]
    ]
  ]

  leave-IsFrom :
      (p : Player) (s : Chat)
      → IsAlone p s
      → IsSound guid_of s.private_channels
      → (k : ℕ) (d : PrivateChatChannel) (o : Option PrivateChatChannel) → s.private_channels k ≡ o
      → left p o ≡ some d
      → IsFrom guid_of s.private_channels k d
  leave-IsFrom p s alone g k d none at e = absurd (no_node e)
  leave-IsFrom p s alone g k d (some c) at e = pick (c.owner == p.guid) e
    where
      pick :
          (b : Bool)
          → (if b then none else some (quit p c)) ≡ some d
          → IsFrom guid_of s.private_channels k d
      pick true e = absurd (no_node e)
      pick false e =
          subst (IsFrom guid_of s.private_channels k) (some_inj e) (quit-IsFrom p s k c alone g at)

  pub leave-IsSound :
      (p : Player) (s : Chat)
      → IsAlone p s
      → IsSound guid_of s.private_channels
      → IsSound guid_of (remove_user_from_all_channels p s).private_channels
  leave-IsSound p s alone g = derived-IsSound guid_of s.private_channels _ g (λ k d e.
      elim (remove_user_from_all_channels-cases p k s) [
        | inl gone ↦ leave-IsFrom p s alone g k d (s.private_channels k) refl (sym gone ∙ e)
        | inr (_, same) ↦ self-IsFrom guid_of s.private_channels g k d (sym same ∙ e)
      ])
