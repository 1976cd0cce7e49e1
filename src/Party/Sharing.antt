-- ===== src/Party/Sharing.antt =====
-- canEnableSharedExperience against the rule that it stands for.
use tibia_server.Base.{
  clash, ℕ, ◌*◌, ◌≤◌, ◌<◌, true, false, List, [], ◌∷◌, ◌≡◌, ◌↔◌, refl, arith, ltb, if◌then◌else◌,
  inl, inr, Bool-cases, All, length,
}
use tibia_server.Position.{are_in_range_z}
use tibia_server.Party.{
  Player, Party, highest_level, min_level, has_fought, can_use_shared_experience, all_can_use,
  can_enable_shared_experience,
}

-- Twice a level stays within a bound for all players if and only if it does for the highest.
highest_level-le :
    (h bound : ℕ) (ps : List Player)
    → highest_level h ps * 2 ≤ bound
    → (h * 2 ≤ bound) × All (λ q. q.level * 2 ≤ bound) ps
unfolding highest_level
highest_level-le h bound [] le = (le, tt)
highest_level-le h bound (p ∷ ps) le =
    let r = highest_level-le (if ltb h p.level then p.level else h) bound ps le in
    (ground (arith, r.0), (ground (arith, r.0), r.1))

le-highest_level :
    (h bound : ℕ) (ps : List Player)
    → h * 2 ≤ bound
    → All (λ q. q.level * 2 ≤ bound) ps
    → highest_level h ps * 2 ≤ bound
unfolding highest_level
le-highest_level h bound [] le all = le
le-highest_level h bound (p ∷ ps) le all =
    le-highest_level (if ltb h p.level then p.level else h) bound ps (ground (arith, le, all.0))
      all.1

min_level_iff : (h level : ℕ) → (ltb level (min_level h) ≡ false) ↔ (h * 2 ≤ level * 3)
min_level_iff h level = ground arith

-- What the rule asks of a player: there are members, no level of the party is more than one and a
-- half times the player's, the leader is near, and the player took part in a fight not long ago.
pub record CanUse (now pz_locked : ℕ) (party : Party) (p : Player) : Type 0 where
  pub has_members : 0 < length party.member_list
  pub levels : All (λ q. q.level * 2 ≤ p.level * 3) (party.leader ∷ party.member_list)
  pub near : are_in_range_z 30 30 1 party.leader.position p.position ≡ true
  pub fought : has_fought now pz_locked p party.ticks_map ≡ true

-- A party with its members apart, to split on them.
abbrev party_of : Party → List Player → Party
party_of party ms = record party { member_list = ms }

module _ (now pz_locked : ℕ) where
  can_use_shared_experience-CanUse_for :
      (party : Party) (ms : List Player) (p : Player)
      → can_use_shared_experience now pz_locked (party_of party ms) p ≡ true
      → CanUse now pz_locked (party_of party ms) p
  unfolding can_use_shared_experience
  can_use_shared_experience-CanUse_for party [] p h = absurd (clash h)
  can_use_shared_experience-CanUse_for party (m ∷ ms) p h =
      let h_level = highest_level party.leader.level (m ∷ ms) in
      let high : ltb p.level (min_level h_level) ≡ false = ground (arith, h) in
      record {
        has_members = omega arith;
        levels =
            highest_level-le party.leader.level (p.level * 3) (m ∷ ms)
              ((min_level_iff h_level p.level).0 high);
        near = ground (arith, h);
        fought = ground (arith, h);
      }

  CanUse-can_use_shared_experience_for :
      (party : Party) (ms : List Player) (p : Player)
      → CanUse now pz_locked (party_of party ms) p
      → can_use_shared_experience now pz_locked (party_of party ms) p ≡ true
  unfolding can_use_shared_experience
  CanUse-can_use_shared_experience_for party [] p c = absurd (omega (arith, c.has_members))
  CanUse-can_use_shared_experience_for party (m ∷ ms) p c =
      let h_level = highest_level party.leader.level (m ∷ ms) in
      rw
        (
          (min_level_iff h_level p.level).1
              (le-highest_level party.leader.level (p.level * 3) (m ∷ ms) c.levels.0 c.levels.1),
          c.near,
        )
        c.fought

  can_use_shared_experience-CanUse :
      (party : Party) (p : Player)
      → can_use_shared_experience now pz_locked party p ≡ true
      → CanUse now pz_locked party p
  can_use_shared_experience-CanUse party p h =
      can_use_shared_experience-CanUse_for party party.member_list p h

  CanUse-can_use_shared_experience :
      (party : Party) (p : Player)
      → CanUse now pz_locked party p
      → can_use_shared_experience now pz_locked party p ≡ true
  CanUse-can_use_shared_experience party p c =
      CanUse-can_use_shared_experience_for party party.member_list p c

  all_can_use-CanUse :
      (party : Party) (ps : List Player)
      → all_can_use now pz_locked party ps ≡ true
      → All (CanUse now pz_locked party) ps
  unfolding all_can_use
  all_can_use-CanUse party [] h = tt
  all_can_use-CanUse party (p ∷ ps) h =
      elim (Bool-cases (can_use_shared_experience now pz_locked party p)) [
        | inl e ↦
            (can_use_shared_experience-CanUse party p e, all_can_use-CanUse party ps (rw e at h))
        | inr e ↦ absurd (clash (rw e at h))
      ]

  CanUse-all_can_use :
      (party : Party) (ps : List Player)
      → All (CanUse now pz_locked party) ps
      → all_can_use now pz_locked party ps ≡ true
  unfolding all_can_use
  CanUse-all_can_use party [] all = refl
  CanUse-all_can_use party (p ∷ ps) all =
      rw (CanUse-can_use_shared_experience party p all.0) (CanUse-all_can_use party ps all.1)

  -- canEnableSharedExperience answers true if and only if the rule holds of the leader and of each
  -- member.
  pub can_enable_shared_experience-CanUse :
      (party : Party)
      → (can_enable_shared_experience now pz_locked party ≡ true)
        ↔ All (CanUse now pz_locked party) (party.leader ∷ party.member_list)
  unfolding can_enable_shared_experience all_can_use
  can_enable_shared_experience-CanUse party = (
    (λ h. all_can_use-CanUse party (party.leader ∷ party.member_list) h),
    (λ all. CanUse-all_can_use party (party.leader ∷ party.member_list) all),
  )
