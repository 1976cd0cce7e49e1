-- ===== src/Chat/Changes.antt =====
-- What the private channels keep to, and what changes of them keep that.
use tibia_server.Base.{
  ℕ, ◌≤◌, ◌<◌, true, [], Option, none, some, ◌≡◌, ◌≢◌, refl, sym, ap, ◌∙◌, arith, inl, inr, ◌⊎◌,
  clash, subst,
}
use tibia_server.Base.IdSet.{has}
use tibia_server.Base.Update.{put, put-cases, some_inj, no_node}
use tibia_server.Chat.{PrivateChatChannel, is_invited}

module _ (guid_of : ℕ → ℕ) where
  -- Private channels have the ids from 100 to 9999, no player owns two, and their users are the
  -- owner and players who are invited.
  pub record IsSound (m : ℕ → Option PrivateChatChannel) : Type 0 where
    pub ranged : (k : ℕ) (c : PrivateChatChannel) → m k ≡ some c → (100 ≤ k) × (k < 10000)
    pub own_id : (k : ℕ) (c : PrivateChatChannel) → m k ≡ some c → c.channel.id ≡ k
    pub one_each :
        (j k : ℕ) (c d : PrivateChatChannel)
        → m j ≡ some c
        → m k ≡ some d
        → c.owner ≡ d.owner
        → j ≡ k
    pub admitted :
        (k : ℕ) (c : PrivateChatChannel) (u : ℕ)
        → m k ≡ some c
        → has u c.channel.users ≡ true
        → is_invited (guid_of u) c ≡ true

  -- A channel at the key k comes from the one that was there.
  pub record IsFrom (m : ℕ → Option PrivateChatChannel) (k : ℕ) (d : PrivateChatChannel)
      : Type 0 where
    pub c : PrivateChatChannel
    pub was_there : m k ≡ some c
    pub same_owner : d.owner ≡ c.owner
    pub same_id : d.channel.id ≡ c.channel.id
    pub invited : (u : ℕ) → has u d.channel.users ≡ true → is_invited (guid_of u) d ≡ true

  pub derived-IsSound :
      (m m' : ℕ → Option PrivateChatChannel)
      → IsSound m
      → ((k : ℕ) (d : PrivateChatChannel) → m' k ≡ some d → IsFrom m k d)
      → IsSound m'
  derived-IsSound m m' g from = record {
    ranged = λ k d e. g.ranged k (from k d e).c (from k d e).was_there;
    own_id = λ k d e. (from k d e).same_id ∙ g.own_id k (from k d e).c (from k d e).was_there;
    one_each = λ j k c d a b e.
        g.one_each j k (from j c a).c (from k d b).c (from j c a).was_there (from k d b).was_there
          (sym (from j c a).same_owner ∙ e ∙ (from k d b).same_owner);
    admitted = λ k d u e h. (from k d e).invited u h;
  }

  pub self-IsFrom :
      (m : ℕ → Option PrivateChatChannel)
      → IsSound m
      → (k : ℕ) (d : PrivateChatChannel) → m k ≡ some d
      → IsFrom m k d
  self-IsFrom m g k d e = record {
    c = d;
    was_there = e;
    same_owner = refl;
    same_id = refl;
    invited = λ u h. g.admitted k d u e h;
  }

  pub erased-IsSound :
      (m : ℕ → Option PrivateChatChannel) (k : ℕ) → IsSound m → IsSound (put m k none)
  erased-IsSound m k g = derived-IsSound m (put m k none) g (λ j d e. elim (put-cases m k j none) [
    | inl (_, r) ↦ absurd (no_node (sym r ∙ e))
    | inr (_, r) ↦ self-IsFrom m g j d (sym r ∙ e)
  ])

  pub changed-IsSound :
      (m : ℕ → Option PrivateChatChannel) (k : ℕ) (d : PrivateChatChannel)
      → IsSound m
      → IsFrom m k d
      → IsSound (put m k (some d))
  changed-IsSound m k d g f = derived-IsSound m (put m k (some d)) g (λ j c e.
      elim (put-cases m k j (some d)) [
        | inl (at, r) ↦
            subst (IsFrom m j) (some_inj (sym r ∙ e)) (subst (λ i. IsFrom m i d) (sym at) f)
        | inr (_, r) ↦ self-IsFrom m g j c (sym r ∙ e)
      ])

  -- A new channel without users, of an owner without another.
  pub new-IsSound :
      (m : ℕ → Option PrivateChatChannel) (k : ℕ) (d : PrivateChatChannel)
      → IsSound m
      → 100 ≤ k
      → k < 10000
      → d.channel.id ≡ k
      → d.channel.users ≡ []
      → ((j : ℕ) (c : PrivateChatChannel) → m j ≡ some c → c.owner ≢ d.owner)
      → IsSound (put m k (some d))
  unfolding has
  new-IsSound m k d g low high id empty alone = record {
    ranged = λ j c e. elim (old j c e) [
      | inl (at, _) ↦ (omega (arith, at), omega (arith, at))
      | inr was ↦ g.ranged j c was
    ];
    own_id = λ j c e. elim (old j c e) [
      | inl (at, same) ↦ subst (λ x. x.channel.id ≡ j) same (id ∙ sym at)
      | inr was ↦ g.own_id j c was
    ];
    one_each = λ i j a b e f s. elim (old i a e) [
      | inl (at, same) ↦ elim (old j b f) [
        | inl (at', _) ↦ at ∙ sym at'
        | inr was ↦ absurd (alone j b was (sym (ap (λ x. x.owner) same ∙ s)))
      ]
      | inr was ↦ elim (old j b f) [
        | inl (_, same) ↦ absurd (alone i a was (s ∙ sym (ap (λ x. x.owner) same)))
        | inr was' ↦ g.one_each i j a b was was' s
      ]
    ];
    admitted = λ j c u e h. elim (old j c e) [
      | inl (_, same) ↦ absurd (none_in u (subst (λ x. has u x.channel.users ≡ true) (sym same) h))
      | inr was ↦ g.admitted j c u was h
    ];
  }
    where
      old :
          (j : ℕ) (c : PrivateChatChannel)
          → put m k (some d) j ≡ some c
          → ((j ≡ k) × (d ≡ c)) ⊎ (m j ≡ some c)
      old j c e = elim (put-cases m k j (some d)) [
        | inl (at, r) ↦ inl (at, some_inj (sym r ∙ e))
        | inr (_, r) ↦ inr (sym r ∙ e)
      ]

      none_in : (u : ℕ) → has u d.channel.users ≡ true → ⊥
      none_in u h = clash (rw empty at h)
