-- ===== src/Chat/Loops.antt =====
-- The loops over the private channels.
use tibia_server.Base.{
  ℕ, zero, suc, ◌+◌, ◌≤◌, ◌<◌, Bool, true, false, Option, none, some, is_some, ◌==◌, if◌then◌else◌,
  ◌≡◌, ◌≢◌, refl, sym, ap, ◌∙◌, arith, inl, inr, ◌⊎◌, Bool-cases, Option-cases, ℕ_discrete, dec_lt,
}
use tibia_server.Base.Update.{put_same, put_other, no_node, some_inj}
use tibia_server.Chat.{Player, PrivateChatChannel, Chat, remove_user, remove_invite}
use tibia_server.Chat.Channels.{
  scan_owner, find_slot, leave_private, leave_all_private, remove_user_from_all_channels, without,
  key_count,
}

pub scan_owner-none :
    (n i guid : ℕ) (s : Chat)
    → scan_owner n i guid s ≡ none
    → (j : ℕ) (c : PrivateChatChannel) → i ≤ j
    → j < i + n
    → s.private_channels j ≡ some c
    → (c.owner == guid) ≡ false
unfolding scan_owner
scan_owner-none zero i guid s e j c low high at = absurd (omega arith)
scan_owner-none (suc n) i guid s e j c low high at = elim (ℕ_discrete i j) [
  | yes same ↦ elim (Bool-cases (c.owner == guid)) [
    | inr other ↦ other
    | inl mine ↦ absurd (no_node (sym e ∙ found (ap s.private_channels same ∙ at) mine))
  ]
  | no other ↦
      scan_owner-none n (suc i) guid s (skipped (s.private_channels i) e) j c (omega (arith, other))
        (omega arith) at
]
  where
    found :
        s.private_channels i ≡ some c
        → (c.owner == guid) ≡ true
        → scan_owner (suc n) i guid s ≡ some i
    found h mine = rw (scan_owner, h, mine) refl

    skipped :
        (o : Option PrivateChatChannel)
        → ◌≡◌ {A = Option ℕ}
            (elim o [
              | none ↦ scan_owner n (suc i) guid s
              | some c ↦ if c.owner == guid then some i else scan_owner n (suc i) guid s
            ])
            none
        → scan_owner n (suc i) guid s ≡ none
    skipped none e = e
    skipped (some c) e = pick (c.owner == guid) e
      where
        pick :
            (b : Bool)
            → (if b then some i else scan_owner n (suc i) guid s) ≡ none
            → scan_owner n (suc i) guid s ≡ none
        pick true e = absurd (no_node (sym e))
        pick false e = e

pub scan_owner-some :
    (n i guid k : ℕ) (s : Chat)
    → scan_owner n i guid s ≡ some k
    → (c : PrivateChatChannel) × (s.private_channels k ≡ some c) × (c.owner ≡ guid)
unfolding scan_owner
scan_owner-some zero i guid k s e = absurd (no_node e)
scan_owner-some (suc n) i guid k s e = elim (Option-cases (s.private_channels i)) [
  | inl f ↦ scan_owner-some n (suc i) guid k s (rw (scan_owner, f) at e)
  | inr (c, f) ↦ elim (Bool-cases (c.owner == guid)) [
    | inl o ↦
        let here : i ≡ k = some_inj (rw (scan_owner, f, o) at e) in
        (c, ap s.private_channels (sym here) ∙ f, ground (arith, o))
    | inr o ↦ scan_owner-some n (suc i) guid k s (rw (scan_owner, f, o) at e)
  ]
]

-- The slot found is free, and those before it are taken.
pub record IsFree (s : Chat) (i n k : ℕ) : Type 0 where
  pub low : i ≤ k
  pub high : k < i + n
  pub free : s.private_channels k ≡ none
  pub taken : (j : ℕ) → i ≤ j → j < k → is_some (s.private_channels j) ≡ true

pub find_slot-IsFree : (n i k : ℕ) (s : Chat) → find_slot n i s ≡ some k → IsFree s i n k
unfolding find_slot
find_slot-IsFree zero i k s e = absurd (no_node e)
find_slot-IsFree (suc n) i k s e = elim (Option-cases (s.private_channels i)) [
  | inl free ↦
      let here : i ≡ k = some_inj (rw (find_slot, free) at e) in
      record {
        low = omega (arith, here);
        high = omega (arith, here);
        free = ap s.private_channels (sym here) ∙ free;
        taken = λ j a b. absurd (omega (arith, here));
      }
  | inr (c, used) ↦
      let later = find_slot-IsFree n (suc i) k s (rw (find_slot, used) at e) in
      record {
        low = omega (arith, later.low);
        high = omega (arith, later.high);
        free = later.free;
        taken = λ j a b. elim (ℕ_discrete i j) [
          | yes same ↦ ap is_some (ap s.private_channels (sym same) ∙ used)
          | no other ↦ later.taken j (omega (arith, other)) b
        ];
      }
]

pub find_slot-none :
    (n i : ℕ) (s : Chat)
    → find_slot n i s ≡ none
    → (j : ℕ) → i ≤ j
    → j < i + n
    → is_some (s.private_channels j) ≡ true
unfolding find_slot
find_slot-none zero i s e j low high = absurd (omega arith)
find_slot-none (suc n) i s e j low high = elim (Option-cases (s.private_channels i)) [
  | inl free ↦ absurd (no_node (sym (rw (find_slot, free) at e)))
  | inr (c, used) ↦ elim (ℕ_discrete i j) [
    | yes same ↦ ap is_some (ap s.private_channels (sym same) ∙ used)
    | no other ↦
        find_slot-none n (suc i) s (rw (find_slot, used) at e) j (omega (arith, other))
          (omega arith)
  ]
]

-- What is left of a private channel when a player goes.
abbrev pub quit : Player → PrivateChatChannel → PrivateChatChannel
quit p c =
    let uninvited = (remove_invite p.guid c).1 in
    record uninvited { channel = (remove_user p uninvited.channel).1 }

abbrev pub left : Player → Option PrivateChatChannel → Option PrivateChatChannel
left p none = none
left p (some c) = if c.owner == p.guid then none else some (quit p c)

leave_private-here :
    (p : Player) (k : ℕ) (s : Chat)
    → (leave_private p k s).private_channels k ≡ left p (s.private_channels k)
unfolding leave_private remove_invite
leave_private-here p k s = elim (Option-cases (s.private_channels k)) [
  | inl e ↦ rw (leave_private, e) e
  | inr (c, e) ↦ elim (Bool-cases (c.owner == p.guid)) [
    | inl o ↦ rw (leave_private, e, o) (put_same s.private_channels k k none refl)
    | inr o ↦ rw (leave_private, e, o) (put_same s.private_channels k k (some (quit p c)) refl)
  ]
]

leave_private-other :
    (p : Player) (k j : ℕ) (s : Chat)
    → j ≢ k
    → (leave_private p k s).private_channels j ≡ s.private_channels j
unfolding leave_private remove_invite
leave_private-other p k j s n = elim (Option-cases (s.private_channels k)) [
  | inl e ↦ rw (leave_private, e) refl
  | inr (c, e) ↦ elim (Bool-cases (c.owner == p.guid)) [
    | inl o ↦ rw (leave_private, e, o) (put_other s.private_channels k j none n)
    | inr o ↦ rw (leave_private, e, o) (put_other s.private_channels k j (some (quit p c)) n)
  ]
]

leave_all_private-before :
    (p : Player) (n k j : ℕ) (s : Chat)
    → j < k
    → (leave_all_private p n k s).private_channels j ≡ s.private_channels j
unfolding leave_all_private
leave_all_private-before p zero k j s h = refl
leave_all_private-before p (suc n) k j s h =
    leave_all_private-before p n (suc k) j (leave_private p k s) (omega arith)
    ∙ leave_private-other p k j s (λ e. omega (arith, e))

leave_all_private-within :
    (p : Player) (n k j : ℕ) (s : Chat)
    → k ≤ j
    → j < k + n
    → (leave_all_private p n k s).private_channels j ≡ left p (s.private_channels j)
unfolding leave_all_private
leave_all_private-within p zero k j s low high = absurd (omega arith)
leave_all_private-within p (suc n) k j s low high = elim (ℕ_discrete k j) [
  | yes same ↦
      let s' = leave_private p k s in
      let here : s'.private_channels j ≡ left p (s.private_channels j) =
        rw (sym same) (leave_private-here p k s) in
      leave_all_private-before p n (suc k) j s' (omega (arith, same)) ∙ here
  | no other ↦
      leave_all_private-within p n (suc k) j (leave_private p k s) (omega (arith, other))
        (omega arith)
      ∙ ap (left p) (leave_private-other p k j s (λ e. other (sym e)))
]

leave_all_private-beyond :
    (p : Player) (n k j : ℕ) (s : Chat)
    → k + n ≤ j
    → (leave_all_private p n k s).private_channels j ≡ s.private_channels j
unfolding leave_all_private
leave_all_private-beyond p zero k j s h = refl
leave_all_private-beyond p (suc n) k j s h =
    leave_all_private-beyond p n (suc k) j (leave_private p k s) (omega arith)
    ∙ leave_private-other p k j s (λ e. omega (arith, e, h))

pub leave_all_private-cases :
    (p : Player) (n j : ℕ) (s : Chat)
    → ((leave_all_private p n 0 s).private_channels j ≡ left p (s.private_channels j))
      ⊎ ((n ≤ j) × ((leave_all_private p n 0 s).private_channels j ≡ s.private_channels j))
leave_all_private-cases p n j s = elim (dec_lt j n) [
  | yes low ↦ inl (leave_all_private-within p n 0 j s (omega arith) (omega (arith, low)))
  | no high ↦ inr (omega (arith, high), leave_all_private-beyond p n 0 j s (omega (arith, high)))
]

pub remove_user_from_all_channels-cases :
    (p : Player) (j : ℕ) (s : Chat)
    → ((remove_user_from_all_channels p s).private_channels j ≡ left p (s.private_channels j))
      ⊎ ((key_count ≤ j)
          × ((remove_user_from_all_channels p s).private_channels j ≡ s.private_channels j))
unfolding remove_user_from_all_channels
remove_user_from_all_channels-cases p j s = leave_all_private-cases p key_count j (record s {
  normal_channels = without (λ c. (remove_user p c).1) s.normal_channels;
  party_channels = without (λ c. (remove_user p c).1) s.party_channels;
  guild_channels = without (λ c. (remove_user p c).1) s.guild_channels;
})
