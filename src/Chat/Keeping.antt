-- ===== src/Chat/Keeping.antt =====
-- Every request keeps to what the private channels keep to.
use tibia_server.Base.{
  ℕ, Bool, true, false, not, Option, none, some, ◌==◌, if◌then◌else◌, ◌≡◌, refl, ap, ◌∙◌, arith,
  inl, inr, ◌⊎◌, Bool-cases, Option-cases, subst,
}
use tibia_server.Base.IdSet.{has, has-insert_id, has-erase_id, has-erase_id-true}
use tibia_server.Chat.{
  Player, ChatChannel, Scripts, Chat, ChannelRef, add_user, remove_user, execute_on_join_event,
}
use tibia_server.Chat.Channels.{
  get_owner, channel_at, set_channel, get_channel, delete_channel, add_user_to_channel,
  remove_user_from_channel,
}
use tibia_server.Chat.Changes.{IsSound}
use tibia_server.Chat.Sound.{
  Allowed, get_channel-Allowed, set_channel-IsSound, delete_channel-IsSound,
}

-- What a user list keeps, apart from the player's own id.
pub record IsUserChange (p : Player) (c c' : ChatChannel) : Type 0 where
  pub same_id : c'.id ≡ c.id
  pub users : (u : ℕ) → has u c'.users ≡ true → (has u c.users ≡ true) ⊎ (u ≡ p.id)

same-IsUserChange : (p : Player) (c : ChatChannel) → IsUserChange p c c
same-IsUserChange p c = record { same_id = refl; users = λ u h. inl h }

pub add_user-IsUserChange :
    (l : Scripts) (p : Player) (c : ChatChannel) → IsUserChange p c (add_user l p c).1
unfolding add_user
add_user-IsUserChange l p c = elim (Bool-cases (has p.id c.users)) [
  | inl h ↦ rw (add_user, h) (same-IsUserChange p c)
  | inr h ↦ elim (Bool-cases (execute_on_join_event l c p.id)) [
    | inr j ↦ rw (add_user, h, j) (same-IsUserChange p c)
    | inl j ↦
        rw (add_user, h, j)
          (record {
            same_id = refl;
            users = λ u k. either u (rw (has-insert_id u p.id c.users) at k);
          })
  ]
]
  where
    either :
        (u : ℕ)
        → (if p.id == u then true else has u c.users) ≡ true
        → (has u c.users ≡ true) ⊎ (u ≡ p.id)
    either u k = elim (Bool-cases (p.id == u)) [
      | inl e ↦ inr (ground (arith, e))
      | inr e ↦ inl (rw e at k)
    ]

pub remove_user-IsUserChange : (p : Player) (c : ChatChannel) → IsUserChange p c (remove_user p c).1
unfolding remove_user
remove_user-IsUserChange p c = elim (Bool-cases (has p.id c.users)) [
  | inr h ↦ rw (remove_user, h) (same-IsUserChange p c)
  | inl h ↦
      rw (remove_user, h)
        (record { same_id = refl; users = λ u k. inl (has-erase_id-true u p.id c.users k) })
]

pub remove_user-gone : (p : Player) (c : ChatChannel) → has p.id (remove_user p c).1.users ≡ false
unfolding remove_user
remove_user-gone p c = elim (Bool-cases (has p.id c.users)) [
  | inr h ↦ rw (remove_user, h) h
  | inl h ↦ rw (remove_user, h) (has-erase_id p.id c.users)
]

module _ (guid_of : ℕ → ℕ) (l : Scripts) where
  -- A write of other users, of a player of its guid, through a pointer that getChannel found.
  pub written-IsSound :
      (r : ChannelRef) (c c' : ChatChannel) (p : Player) (s : Chat)
      → guid_of p.id ≡ p.guid
      → IsSound guid_of s.private_channels
      → Allowed p s (some r)
      → channel_at r s ≡ some c
      → IsUserChange p c c'
      → IsSound guid_of (set_channel r c' s).private_channels
  written-IsSound r c c' p s known g a at change =
      set_channel-IsSound guid_of r c c' p s g a at change.same_id (λ u h. elim (change.users u h) [
        | inl old ↦ inl old
        | inr own ↦ inr (ap guid_of own ∙ known)
      ])

  pub add_user_to_channel-IsSound :
      (p : Player) (id : ℕ) (s : Chat)
      → guid_of p.id ≡ p.guid
      → IsSound guid_of s.private_channels
      → IsSound guid_of (add_user_to_channel l p id s).1.private_channels
  unfolding add_user_to_channel
  add_user_to_channel-IsSound p id s known g = elim (Option-cases (get_channel l p id s)) [
    | inl e ↦ rw (add_user_to_channel, e) g
    | inr (r, e) ↦ elim (Option-cases (channel_at r s)) [
      | inl f ↦ rw (add_user_to_channel, e, f) g
      | inr (c, f) ↦
          let a : Allowed p s (some r) = subst (Allowed p s) e (get_channel-Allowed l p id s) in
          rw (add_user_to_channel, e, f)
            (pick (add_user l p c).0 r (add_user l p c).1 (
              written-IsSound r c (add_user l p c).1 p s known g a f (add_user-IsUserChange l p c)))
    ]
  ]
    where
      pick :
          (b : Bool) (r : ChannelRef) (c' : ChatChannel)
          → IsSound guid_of (set_channel r c' s).private_channels
          → IsSound guid_of
              (if◌then◌else◌ {A = Option ChannelRef × Chat} b
                (some r, set_channel r c' s)
                (none, s)).1.private_channels
      pick true r c' h = h
      pick false r c' h = g

  pub remove_user_from_channel-IsSound :
      (p : Player) (id : ℕ) (s : Chat)
      → guid_of p.id ≡ p.guid
      → IsSound guid_of s.private_channels
      → IsSound guid_of (remove_user_from_channel l p id s).1.private_channels
  unfolding remove_user_from_channel
  remove_user_from_channel-IsSound p id s known g = elim (Option-cases (get_channel l p id s)) [
    | inl e ↦ rw (remove_user_from_channel, e) g
    | inr (r, e) ↦ elim (Option-cases (channel_at r s)) [
      | inl f ↦ rw (remove_user_from_channel, e, f) g
      | inr (c, f) ↦
          let a : Allowed p s (some r) = subst (Allowed p s) e (get_channel-Allowed l p id s) in
          let c' = (remove_user p c).1 in
          let s' = set_channel r c' s in
          rw (remove_user_from_channel, e, f)
            (pick (not (remove_user p c).0) (get_owner r s' == p.guid) s'
              (written-IsSound r c c' p s known g a f (remove_user-IsUserChange p c)))
    ]
  ]
    where
      pick :
          (b d : Bool) (s' : Chat)
          → IsSound guid_of s'.private_channels
          → IsSound guid_of
              (if◌then◌else◌ {A = Bool × Chat} b
                (false, s)
                (if◌then◌else◌ {A = Bool × Chat} d
                  (true, (delete_channel p id s').1)
                  (true, s'))).1.private_channels
      pick true d s' h = g
      pick false true s' h = delete_channel-IsSound guid_of p id s' h
      pick false false s' h = h
