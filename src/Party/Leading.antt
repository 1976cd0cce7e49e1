-- ===== src/Party/Leading.antt =====
-- passPartyLeadership keeps parties and players in agreement.
use tibia_server.Base.{
  ℕ, Bool, true, false, not, ◌||◌, some, ◌==◌, ◌≡◌, refl, ap, sym, ◌∙◌, arith, Bool-cases, inl, inr,
}
use tibia_server.Party.Members.{Group, World, is_listed, pass_party_leadership, set_group}
use tibia_server.Party.Rosters.{NoRepeat, is_listed-erase_first, erase_first-NoRepeat}
use tibia_server.Party.Agreement.{Agrees, Changes-Agrees, roster, invited, group_used}

-- The same players, each once, and the same invitations.
pub record SameRoster (g g' : Group) : Type 0 where
  pub same_listed : (n : ℕ) → is_listed n (roster (some g')) ≡ is_listed n (roster (some g))
  pub once : NoRepeat (roster (some g'))
  pub same_invites : g'.invite_list ≡ g.invite_list

pub pass_party_leadership-SameRoster :
    (player : ℕ) (ok : Bool) (g : Group)
    → NoRepeat (roster (some g))
    → is_listed player (roster (some g)) ≡ true
    → SameRoster g (pass_party_leadership player ok g).1
unfolding pass_party_leadership is_listed
pass_party_leadership-SameRoster player ok g once listed =
    elim (Bool-cases (g.leader == player || not ok)) [
      | inl e ↦
          rw (pass_party_leadership, e)
            (record { same_listed = λ n. refl; once = once; same_invites = refl })
      | inr e ↦
          let other : g.leader == player ≡ false = ground (arith, e) in
          let inside : is_listed player g.member_list ≡ true = ground (arith, listed, other) in
          rw (pass_party_leadership, e)
            (record {
              same_listed = λ n.
                  ground (
                    arith,
                    is_listed-erase_first n player g.member_list once.1,
                    inside_of n inside,
                  );
              once = (
                ground (arith, other, is_listed-erase_first player player g.member_list once.1),
                (
                  ground
                      (arith, is_listed-erase_first g.leader player g.member_list once.1, once.0),
                  erase_first-NoRepeat player g.member_list once.1,
                ),
              );
              same_invites = refl;
            })
    ]
  where
    inside_of :
        (n : ℕ)
        → is_listed player g.member_list ≡ true
        → (player == n) ≡ true
        → is_listed n g.member_list ≡ true
    inside_of n inside e =
        let same : n ≡ player = ground (arith, e) in
        ap (λ k. is_listed k g.member_list) same ∙ inside

pub SameRoster-Agrees :
    (p : ℕ) (g g' : Group) (w : World)
    → Agrees w
    → w.groups p ≡ some g
    → SameRoster g g'
    → Agrees (set_group p (some g') w)
SameRoster-Agrees p g g' w a f s =
    Changes-Agrees
      (record {
        changed = refl;
        same_next = refl;
        used = group_used w a p g f;
        belongs_at =
            λ n. a.belongs n p ∙ ap (λ o. is_listed n (roster o)) f ∙ sym (s.same_listed n);
        belongs_else = λ n q ne. refl;
        rostered_at = s.once;
        asked_at = λ n.
            a.asked n p
            ∙ ap (λ o. is_listed n (invited o)) f
            ∙ ap (is_listed n) (sym s.same_invites);
        asked_else = λ n q ne. refl;
        asked_once_at = rw (sym s.same_invites) at (rw f at (a.asked_once p));
      })
      a
