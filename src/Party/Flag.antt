-- ===== src/Party/Flag.antt =====
-- The flag that says whether experience is shared, after operations of compiler/src/party.cpp that set
-- it.
use tibia_server.Base.{
  clash, ℕ, Bool, true, false, ◌==◌, ◌||◌, List, [], ◌∷◌, ◌≡◌, refl, sym, ◌∙◌, inl, inr, Bool-cases,
  Option-cases,
}
use tibia_server.Party.{
  Player, Party, find_ticks, all_can_use, can_use_shared_experience, can_enable_shared_experience,
  update_shared_experience, set_shared_experience, update_player_ticks, clear_player_points,
  put_ticks, erase_ticks,
}

module _ (now pz_locked : ℕ) where
  -- While sharing is switched on, the flag says what canEnableSharedExperience answers.
  abbrev pub IsTold : Party → Type 0
  IsTold party =
      party.shared_exp_active ≡ true
      → party.shared_exp_enabled ≡ can_enable_shared_experience now pz_locked party

  -- The rule reads none of the flags.
  all_can_use-flags :
      (party : Party) (a e : Bool) (ps : List Player)
      → all_can_use now pz_locked
          (record party { shared_exp_active = a; shared_exp_enabled = e })
          ps
        ≡ all_can_use now pz_locked party ps
  unfolding all_can_use can_use_shared_experience
  all_can_use-flags party a e [] = refl
  all_can_use-flags party a e (p ∷ ps) = rw (all_can_use-flags party a e ps) refl

  can_enable-flags :
      (party : Party) (a e : Bool)
      → can_enable_shared_experience now pz_locked
          (record party { shared_exp_active = a; shared_exp_enabled = e })
        ≡ can_enable_shared_experience now pz_locked party
  unfolding can_enable_shared_experience all_can_use
  can_enable-flags party a e = all_can_use-flags party a e (party.leader ∷ party.member_list)

  update_shared_experience-IsTold :
      (party : Party) → IsTold (update_shared_experience now pz_locked party)
  unfolding update_shared_experience
  update_shared_experience-IsTold party = elim (Bool-cases party.shared_exp_active) [
    | inl on ↦
        rw (update_shared_experience, on)
          (λ h. sym (can_enable-flags (record party { shared_exp_active = true }) true _))
    | inr off ↦ rw (update_shared_experience, off) (λ h. absurd (clash h))
  ]

  update_player_ticks-IsTold :
      (p : Player) (points : ℕ) (party : Party)
      → IsTold party
      → IsTold (update_player_ticks now pz_locked p points party)
  unfolding update_player_ticks
  update_player_ticks-IsTold p points party told =
      elim (Bool-cases (points == 0 || p.not_gain_in_fight)) [
        | inl none_gained ↦ rw (update_player_ticks, none_gained) told
        | inr gained ↦
            rw (update_player_ticks, gained)
              (update_shared_experience-IsTold
                (record party { ticks_map = put_ticks p.id now party.ticks_map }))
      ]

  clear_player_points-IsTold :
      (p : Player) (party : Party)
      → IsTold party
      → IsTold (clear_player_points now pz_locked p party)
  unfolding clear_player_points
  clear_player_points-IsTold p party told = elim (Option-cases (find_ticks p.id party.ticks_map)) [
    | inl e ↦ rw (clear_player_points, e) told
    | inr (t, e) ↦
        rw (clear_player_points, e)
          (update_shared_experience-IsTold
            (record party { ticks_map = erase_ticks p.id party.ticks_map }))
  ]

  set_shared_experience-IsTold :
      (p : Player) (b : Bool) (party : Party)
      → IsTold party
      → IsTold (set_shared_experience now pz_locked p b party).1
  unfolding set_shared_experience
  set_shared_experience-IsTold p true party told = elim (Bool-cases (party.leader.id == p.id)) [
    | inl leads ↦ elim (Bool-cases party.shared_exp_active) [
      | inl on ↦
          rw (set_shared_experience, leads, on)
            (λ h. told on ∙ sym (can_enable-flags party true party.shared_exp_enabled))
      | inr off ↦
          rw (set_shared_experience, leads, off)
            (λ h. sym (can_enable-flags (record party { shared_exp_active = true }) true _))
    ]
    | inr other ↦ rw (set_shared_experience, other) told
  ]
  set_shared_experience-IsTold p false party told = elim (Bool-cases (party.leader.id == p.id)) [
    | inl leads ↦ rw (set_shared_experience, leads) (λ h. absurd (clash h))
    | inr other ↦ rw (set_shared_experience, other) told
  ]

  -- updatePlayerTicks, clearPlayerPoints and setSharedExperience leave the flag, while sharing is
  -- switched on, at what canEnableSharedExperience answers, if it was so before at the same time.
  -- updateSharedExperience, which joinParty, leaveParty and passPartyLeadership call, leaves it so
  -- whatever it was.
  pub operations-IsTold :
      (p : Player) (party : Party)
      → IsTold party
      → ((points : ℕ) → IsTold (update_player_ticks now pz_locked p points party))
        × IsTold (clear_player_points now pz_locked p party)
        × ((b : Bool) → IsTold (set_shared_experience now pz_locked p b party).1)
        × ((q : Party) → IsTold (update_shared_experience now pz_locked q))
  operations-IsTold p party told = (
    (λ points. update_player_ticks-IsTold p points party told),
    clear_player_points-IsTold p party told,
    (λ b. set_shared_experience-IsTold p b party told),
    update_shared_experience-IsTold,
  )
