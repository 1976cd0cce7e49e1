-- ===== src/Chat/Created.antt =====
-- New private channels.
use tibia_server.Base.{
  ℕ, ◌≤◌, ◌<◌, true, not, Option, none, some, ◌==◌, if◌then◌else◌, ◌≡◌, ◌≢◌, refl, sym, ap, ◌∙◌,
  arith, inl, inr, ◌⊎◌, Bool-cases, Option-cases, clash, subst, [], ◌∷◌,
}
use tibia_server.Base.IdSet.{has, insert_id}
use tibia_server.Base.Update.{put, put_same, put_other, no_node, ==_yes}
use tibia_server.Chat.{
  Player, PrivateChatChannel, Scripts, Chat, ChannelRef, private_channel, new_channel, is_invited,
  add_user, channel_private,
}
use tibia_server.Chat.Channels.{
  channel_at, set_channel, get_channel, get_private_channel, create_channel, create_private_channel,
  new_private_channel, find_slot, key_count, slot_count,
}
use tibia_server.Chat.Requests.{player_create_private_channel, join_created}
use tibia_server.Chat.Changes.{IsSound, changed-IsSound, new-IsSound}
use tibia_server.Chat.Loops.{
  IsFree, scan_owner-none, scan_owner-some, find_slot-IsFree, find_slot-none,
}

-- The player's new channel, at a slot, where there was nothing and no channel of the player's.
record IsMade (p : Player) (s : Chat) (i : ℕ) : Type 0 where
  first_free : IsFree s 100 9900 i
  only_one :
      (j : ℕ) (c : PrivateChatChannel)
      → s.private_channels j ≡ some c
      → j < 65536
      → c.owner ≢ p.guid

abbrev made : Player → Chat → ℕ → Chat
made p s i = record s {
  private_channels = put s.private_channels i (some (new_private_channel p i));
}

-- Nothing, or a new channel.
abbrev WasMade : Player → Chat → Option ChannelRef × Chat → Type 0
WasMade p s r =
    (r ≡ (none, s)) ⊎ ((i : ℕ) × IsMade p s i × (r ≡ (some (private_channel i), made p s i)))

create_private_channel-WasMade : (p : Player) (s : Chat) → WasMade p s (create_private_channel p s)
unfolding create_private_channel get_private_channel key_count slot_count
create_private_channel-WasMade p s = elim (Bool-cases p.premium) [
  | inr b ↦ rw (create_private_channel, b) (inl refl)
  | inl b ↦ elim (Option-cases (get_private_channel p s)) [
    | inr (k, e) ↦ rw (create_private_channel, b, e) (inl refl)
    | inl e ↦ elim (Option-cases (find_slot slot_count 100 s)) [
      | inl f ↦ rw (create_private_channel, b, e, f) (inl refl)
      | inr (i, f) ↦
          rw (create_private_channel, b, e, f)
            (inr (
              i,
              record {
                first_free = find_slot-IsFree 9900 100 i s f;
                only_one = λ j c at low own. clash (
                    sym
                      (scan_owner-none 65536 0 p.guid s e j c (omega arith) (omega (arith, low)) at)
                    ∙ ==_yes c.owner p.guid own);
              },
              refl,
            ))
    ]
  ]
]

create_channel-WasMade :
    (l : Scripts) (p : Player) (s : Chat) → WasMade p s (create_channel l p channel_private s)
unfolding create_channel
create_channel-WasMade l p s = elim (Option-cases (get_channel l p channel_private s)) [
  | inr (r, e) ↦ rw (create_channel, e) (inl refl)
  | inl e ↦ rw (create_channel, e) (create_private_channel-WasMade p s)
]

-- The new channel with its owner in it.
abbrev with_owner : Player → ℕ → PrivateChatChannel
with_owner p i = record {
  channel = record (new_channel i) { users = p.id ∷ [] };
  invites = [];
  owner = p.guid;
}

join_created-made :
    (l : Scripts) (p : Player) (s : Chat) (i : ℕ)
    → (join_created l p (some (private_channel i), made p s i)).private_channels
      ≡ put (made p s i).private_channels i (some (with_owner p i))
unfolding join_created channel_at set_channel add_user has insert_id
join_created-made l p s i =
    let there : (made p s i).private_channels i ≡ some (new_private_channel p i) =
      put_same s.private_channels i i (some (new_private_channel p i)) refl in
    rw (join_created, channel_at, there, set_channel, there) refl

module _ (guid_of : ℕ → ℕ) where
  made-IsSound :
      (p : Player) (s : Chat) (i : ℕ)
      → guid_of p.id ≡ p.guid
      → IsSound guid_of s.private_channels
      → IsMade p s i
      → IsSound guid_of (put (made p s i).private_channels i (some (with_owner p i)))
  unfolding is_invited has
  made-IsSound p s i known g m =
      let new =
        new-IsSound guid_of s.private_channels i (new_private_channel p i) g m.first_free.low
          (omega (arith, m.first_free.high)) refl refl
          (λ j c at. m.only_one j c at (omega (arith, (g.ranged j c at).1))) in
      changed-IsSound guid_of (made p s i).private_channels i (with_owner p i) new (record {
        c = new_private_channel p i;
        was_there = put_same s.private_channels i i (some (new_private_channel p i)) refl;
        same_owner = refl;
        same_id = refl;
        invited = λ u h. elim (Bool-cases (p.id == u)) [
          | inl e ↦
              let own : p.id ≡ u = ground (arith, e) in
              rw (==_yes (guid_of u) p.guid (ap guid_of (sym own) ∙ known)) refl
          | inr e ↦ absurd (clash (rw e at h))
        ];
      })

  pub create-IsSound :
      (l : Scripts) (p : Player) (s : Chat)
      → guid_of p.id ≡ p.guid
      → IsSound guid_of s.private_channels
      → IsSound guid_of (player_create_private_channel l (some p) s).private_channels
  unfolding player_create_private_channel join_created
  create-IsSound l p s known g = elim (Bool-cases p.premium) [
    | inr b ↦ rw (player_create_private_channel, b) g
    | inl b ↦
        rw (player_create_private_channel, b)
          (joined (create_channel l p channel_private s) (create_channel-WasMade l p s))
  ]
    where
      joined :
          (r : Option ChannelRef × Chat)
          → WasMade p s r
          → IsSound guid_of (join_created l p r).private_channels
      joined r (inl e) = rw e g
      joined r (inr (i, m, e)) =
          rw e (
            subst (IsSound guid_of) (sym (join_created-made l p s i))
              (made-IsSound p s i known g m))

-- The first free slot holds a channel of the player's, with the player alone in it, and no other
-- private channel has changed.
pub record IsNew (p : Player) (s s' : Chat) : Type 0 where
  pub slot : ℕ
  pub first_free : IsFree s 100 9900 slot
  pub there : s'.private_channels slot ≡ some (with_owner p slot)
  pub others : (j : ℕ) → j ≢ slot → s'.private_channels j ≡ s.private_channels j

created-IsNew :
    (l : Scripts) (p : Player) (s : Chat) (r : Option ChannelRef × Chat)
    → WasMade p s r
    → r ≢ (none, s)
    → IsNew p s (join_created l p r)
created-IsNew l p s r (inl e) other = absurd (other e)
created-IsNew l p s r (inr (i, m, e)) other =
    let joined = join_created-made l p s i in
    rw e (record {
      slot = i;
      first_free = m.first_free;
      there =
          ap (λ f. f i) joined
          ∙ put_same (made p s i).private_channels i i (some (with_owner p i)) refl;
      others = λ j apart.
          ap (λ f. f j) joined
          ∙ put_other (made p s i).private_channels i j (some (with_owner p i)) apart
          ∙ put_other s.private_channels i j (some (new_private_channel p i)) apart;
    })

create_private_channel-made :
    (p : Player) (s : Chat) (k : ℕ)
    → p.premium ≡ true
    → ((j : ℕ) (c : PrivateChatChannel) → s.private_channels j ≡ some c → c.owner ≢ p.guid)
    → 100 ≤ k
    → k < 10000
    → s.private_channels k ≡ none
    → create_private_channel p s ≢ (none, s)
unfolding create_private_channel get_private_channel slot_count
create_private_channel-made p s k b alone low high free =
    elim (Option-cases (get_private_channel p s)) [
      | inr (j, e) ↦
          let (c, at, own) = scan_owner-some key_count 0 p.guid j s e in absurd (alone j c at own)
      | inl e ↦ elim (Option-cases (find_slot slot_count 100 s)) [
        | inl f ↦
            absurd (clash (rw free at (find_slot-none 9900 100 s f k low (omega (arith, high)))))
        | inr (i, f) ↦
            rw (create_private_channel, b, e, f) (λ same. no_node (sym (ap (λ r. r.0) same)))
      ]
    ]

-- A premium player who owns no private channel gets one in the first of the slots from 100 to 9999
-- that is free, where one is, and is alone in it; no other private channel changes. No channel has
-- the id that stands for a new one.
pub player_create_private_channel-IsNew :
    (l : Scripts) (p : Player) (s : Chat) (k : ℕ)
    → p.premium ≡ true
    → ((j : ℕ) (c : PrivateChatChannel) → s.private_channels j ≡ some c → c.owner ≢ p.guid)
    → s.normal_channels channel_private ≡ none
    → s.private_channels channel_private ≡ none
    → 100 ≤ k
    → k < 10000
    → s.private_channels k ≡ none
    → IsNew p s (player_create_private_channel l (some p) s)
unfolding player_create_private_channel create_channel get_channel
player_create_private_channel-IsNew l p s k b alone nn np low high free =
    let r = create_channel l p channel_private s in
    let passed : player_create_private_channel l (some p) s ≡ join_created l p r =
      ap (λ v. if not v then s else join_created l p r) b in
    subst (IsNew p s) (sym passed) (
      created-IsNew l p s r (create_channel-WasMade l p s) (
        rw (create_channel, get_channel, nn, np)
          (create_private_channel-made p s k b alone low high free)))
