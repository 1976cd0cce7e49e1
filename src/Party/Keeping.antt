-- ===== src/Party/Keeping.antt =====
-- Every request of a player keeps parties and players in agreement, where the scripts let a party
-- disband.
use tibia_server.Base.{
  ℕ, suc, Bool, true, false, not, ◌||◌, List, [], ◌∷◌, Option, none, some, ◌==◌, ◌≡◌, refl, ap, sym,
  ◌∙◌, arith, if◌then◌else◌, Bool-cases, inl, inr, clash,
}
use tibia_server.Party.Members.{
  Group, World, Hooks, is_listed, is_in, is_inviting, set_party, set_group,
}
use tibia_server.Party.Handlers.{
  Request, invite, join, revoke, pass, leave, has_party, player_invite_to_party, player_join_party,
  player_revoke_party_invitation, player_pass_party_leadership, player_leave_party, handle,
  handle_all,
}
use tibia_server.Party.Agreement.{Agrees, roster, invited, party_cases, ==_self, same_number}
use tibia_server.Party.Joining.{invite_player-Agrees, join_party-Agrees, of_none, moved_one}
use tibia_server.Party.Leading.{pass_party_leadership-SameRoster, SameRoster-Agrees}
use tibia_server.Party.Disbanding.{remove_invite-Agrees}
use tibia_server.Party.Leaving.{leave_party-Agrees}

-- A player without a party founds one.
abbrev alone_group : ℕ → Group
alone_group player = record { leader = player; member_list = []; invite_list = [] }

abbrev founded : ℕ → World → World
founded player w =
    record (set_party player (some w.next_group)
      (set_group w.next_group (some (alone_group player)) w)) { next_group = suc w.next_group }

fresh_party : (n : ℕ) (w : World) → Agrees w → is_in w.next_group (w.party_of n) ≡ false
unfolding is_listed
fresh_party n w a =
    a.belongs n w.next_group
    ∙ ap (λ o. is_listed n (roster o)) (a.unused w.next_group (omega arith))

founded-Agrees :
    (player : ℕ) (w : World) → Agrees w → w.party_of player ≡ none → Agrees (founded player w)
unfolding is_listed
founded-Agrees player w a alone = record {
  belongs = λ n q. elim (Bool-cases (q == w.next_group)) [
    | inl e ↦ rw e (moved_one w.next_group player n q w.party_of ∙ found_at n q e)
    | inr e ↦ rw e (moved_one w.next_group player n q w.party_of ∙ found_else n q e)
  ];
  rostered = λ q. elim (Bool-cases (q == w.next_group)) [
    | inl e ↦ rw e (refl, tt)
    | inr e ↦ rw e (a.rostered q)
  ];
  asked = λ n q. elim (Bool-cases (q == w.next_group)) [
    | inl e ↦
        rw e (a.asked n q ∙ ap (λ o. is_listed n (invited o)) (a.unused q (ground (arith, e))))
    | inr e ↦ rw e (a.asked n q)
  ];
  asked_once = λ q. elim (Bool-cases (q == w.next_group)) [
    | inl e ↦ rw e tt
    | inr e ↦ rw e (a.asked_once q)
  ];
  unused = λ q le. elim (Bool-cases (q == w.next_group)) [
    | inl e ↦ absurd (ground (arith, le, e))
    | inr e ↦ rw e (a.unused q (omega (arith, le)))
  ];
}
  where
    found_at :
        (n q : ℕ)
        → (q == w.next_group) ≡ true
        → (if n == player then w.next_group == q else is_in q (w.party_of n))
          ≡ is_listed n (player ∷ [])
    found_at n q e =
        let free : is_in q (w.party_of n) ≡ false =
          ap (λ k. is_in k (w.party_of n)) (sym (same_number q w.next_group e))
          ∙ fresh_party n w a in
        ground (arith, e, free)

    found_else :
        (n q : ℕ)
        → (q == w.next_group) ≡ false
        → (if n == player then w.next_group == q else is_in q (w.party_of n))
          ≡ is_listed n (roster (w.groups q))
    found_else n q e = ground (arith, e, a.belongs n q, of_none player n q w.party_of alone)

guarded :
    (b : Bool) (w w' : World) → Agrees w → (b ≡ false → Agrees w') → Agrees (if b then w else w')
guarded true w w' a f = a
guarded false w w' a f = f refl

module _ (h : Hooks) (disbands : (p : ℕ) (w : World) → h.on_disband p w ≡ true) where
  player_leave_party-Agrees :
      (player : ℕ) (w : World) → Agrees w → Agrees (player_leave_party h player w)
  unfolding player_leave_party
  player_leave_party-Agrees player w a = elim (party_cases w a player) [
    | inl (e, n) ↦ rw (player_leave_party, e) (guarded (not (h.is_online player)) w _ a (λ i. a))
    | inr (p, g, e, f, n) ↦
        rw (player_leave_party, e, f)
          (guarded (not (h.is_online player)) w _ a (λ i.
            guarded (h.in_fight player) w _ a
              (λ j. leave_party-Agrees h disbands p player g w a f e)))
  ]

  player_pass_party_leadership-Agrees :
      (player new_leader : ℕ) (w : World)
      → Agrees w
      → Agrees (player_pass_party_leadership h player new_leader w)
  unfolding player_pass_party_leadership
  player_pass_party_leadership-Agrees player new_leader w a = elim (party_cases w a player) [
    | inl (e, n) ↦
        rw (player_pass_party_leadership, e) (guarded (not (h.is_online player)) w _ a (λ i. a))
    | inr (p, g, e, f, n) ↦
        rw (player_pass_party_leadership, e, f)
          (guarded (not (h.is_online player)) w _ a (λ i.
            guarded (not (g.leader == player)) w _ a (λ j.
              guarded (not (h.is_online new_leader) || not (is_in p (w.party_of new_leader))) w _ a
                (λ k. SameRoster-Agrees p g _ w a f (
                  pass_party_leadership-SameRoster new_leader (is_in p (w.party_of new_leader)) g
                    (rw f at (a.rostered p))
                    (sym (ap (λ o. is_listed new_leader (roster o)) f)
                      ∙ sym (a.belongs new_leader p)
                      ∙ inside (h.is_online new_leader) (is_in p (w.party_of new_leader)) k))))))
  ]
    where
      inside : (b c : Bool) → not b || not c ≡ false → c ≡ true
      inside b c k = ground (arith, k)

  player_revoke_party_invitation-Agrees :
      (player guest : ℕ) (w : World)
      → Agrees w
      → Agrees (player_revoke_party_invitation h player guest w)
  unfolding player_revoke_party_invitation
  player_revoke_party_invitation-Agrees player guest w a = elim (party_cases w a player) [
    | inl (e, n) ↦
        rw (player_revoke_party_invitation, e) (guarded (not (h.is_online player)) w _ a (λ i. a))
    | inr (p, g, e, f, n) ↦
        rw (player_revoke_party_invitation, e, f)
          (guarded (not (h.is_online player)) w _ a (λ i.
            guarded (not (g.leader == player)) w _ a (λ j.
              guarded (not (h.is_online guest) || not (is_inviting player guest w)) w _ a
                (λ k. remove_invite-Agrees h disbands p guest g w a f))))
  ]

  player_join_party-Agrees :
      (player leader : ℕ) (w : World) → Agrees w → Agrees (player_join_party h player leader w)
  unfolding player_join_party
  player_join_party-Agrees player leader w a = elim (party_cases w a leader) [
    | inl (e, n) ↦
        rw (player_join_party, e)
          (guarded (not (h.is_online player)) w _ a (λ i.
            guarded (not (h.is_online leader) || not (is_inviting leader player w)) w _ a (λ j. a)))
    | inr (p, g, e, f, n) ↦
        rw (player_join_party, e, f)
          (guarded (not (h.is_online player)) w _ a (λ i.
            guarded (not (h.is_online leader) || not (is_inviting leader player w)) w _ a (λ j.
              guarded (not (g.leader == leader)) w _ a (λ k.
                guarded (has_party (w.party_of player)) w _ a
                  (λ l. join_party-Agrees h p player g w a f (no_party (w.party_of player) l))))))
  ]
    where
      no_party : (o : Option ℕ) → has_party o ≡ false → o ≡ none
      no_party none e = refl
      no_party (some p) e = absurd (clash (sym e))

  player_invite_to_party-Agrees :
      (player guest : ℕ) (w : World) → Agrees w → Agrees (player_invite_to_party h player guest w)
  unfolding player_invite_to_party
  player_invite_to_party-Agrees player guest w a = elim (party_cases w a player) [
    | inl (e, n) ↦
        rw (player_invite_to_party, e)
          (guarded (not (h.is_online player)) w _ a (λ i.
            guarded (not (h.is_online guest) || is_inviting guest player w) w _ a (λ j.
              guarded (has_party (w.party_of guest)) w _ a (λ k.
                invite_player-Agrees w.next_group guest (alone_group player) (founded player w)
                  (founded-Agrees player w a e) (rw (==_self w.next_group) refl)))))
    | inr (p, g, e, f, n) ↦
        rw (player_invite_to_party, e, f)
          (guarded (not (h.is_online player)) w _ a (λ i.
            guarded (not (h.is_online guest) || is_inviting guest player w) w _ a (λ j.
              guarded (has_party (w.party_of guest)) w _ a (λ k.
                guarded (not (g.leader == player)) w _ a
                  (λ l. invite_player-Agrees p guest g w a f)))))
  ]

  handle-Agrees : (r : Request) (w : World) → Agrees w → Agrees (handle h r w)
  unfolding handle
  handle-Agrees (invite player guest) w a = player_invite_to_party-Agrees player guest w a
  handle-Agrees (join player leader) w a = player_join_party-Agrees player leader w a
  handle-Agrees (revoke player guest) w a = player_revoke_party_invitation-Agrees player guest w a
  handle-Agrees (pass player new_leader) w a =
      player_pass_party_leadership-Agrees player new_leader w a
  handle-Agrees (leave player) w a = player_leave_party-Agrees player w a

  -- Where the scripts let every party disband, any sequence of invitations, joins, revocations,
  -- passes of leadership and departures keeps the two sides in agreement: a player belongs to a
  -- party exactly when the party lists the player as leader or member, the party lists nobody
  -- twice, and a player holds an invitation exactly when the party's list has the player.
  pub handle_all-Agrees : (rs : List Request) (w : World) → Agrees w → Agrees (handle_all h rs w)
  unfolding handle_all
  handle_all-Agrees [] w a = a
  handle_all-Agrees (r ∷ rs) w a = handle_all-Agrees rs (handle h r w) (handle-Agrees r w a)
