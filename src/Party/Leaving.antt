-- ===== src/Party/Leaving.antt =====
-- Leaving keeps parties and players in agreement, where the scripts let a party disband.
use tibia_server.Base.{
  ℕ, true, false, List, [], ◌∷◌, none, some, ◌==◌, ◌≡◌, refl, ap, sym, ◌∙◌, arith, if◌then◌else◌,
  Bool-cases, inl, inr, subst, clash,
}
use tibia_server.Party.Members.{
  Group, World, Hooks, is_listed, is_in, put, erase_first, pass_party_leadership, set_group,
  set_party, leave_party, without_player, pass_to_first, missing_leader, is_empty,
}
use tibia_server.Party.Rosters.{NoRepeat, is_listed-erase_first, erase_first-NoRepeat}
use tibia_server.Party.Agreement.{Agrees, Changes-Agrees, roster, invited, group_used, ==_self}
use tibia_server.Party.Leading.{SameRoster, pass_party_leadership-SameRoster}
use tibia_server.Party.Ending.{IsEnding-missing_leader, without_player-missing_leader}
use tibia_server.Party.Disbanding.{IsEnding, disband-Agrees, IsEnding-now}

-- The lists once a player is out of a party that goes on.
record IsLeft (player : ℕ) (g g' : Group) : Type 0 where
  listed :
      (n : ℕ)
      → is_listed n (roster (some g'))
        ≡ (if player == n then false else is_listed n (roster (some g)))
  once : NoRepeat (roster (some g'))
  same_invites : g'.invite_list ≡ g.invite_list

erased-IsLeft :
    (player : ℕ) (g g1 : Group)
    → SameRoster g g1
    → (g1.leader == player) ≡ false
    → IsLeft player g (record g1 { member_list = erase_first player g1.member_list })
unfolding is_listed
erased-IsLeft player g g1 s other = record {
  listed = λ n.
      ground
        (arith, other, is_listed-erase_first n player g1.member_list s.once.1, s.same_listed n);
  once = (
    ground (arith, is_listed-erase_first g1.leader player g1.member_list s.once.1, s.once.0),
    erase_first-NoRepeat player g1.member_list s.once.1,
  );
  same_invites = s.same_invites;
}

same-SameRoster : (g : Group) → NoRepeat (roster (some g)) → SameRoster g g
same-SameRoster g once = record { same_listed = λ n. refl; once = once; same_invites = refl }

-- The first member leads, once the leader has passed the leadership on.
passed-leads :
    (p : ℕ) (w : World) (g : Group) (m : ℕ) (ms : List ℕ)
    → (g.leader == m) ≡ false
    → is_in p (w.party_of m) ≡ true
    → (pass_to_first p w g (m ∷ ms)).leader ≡ m
unfolding pass_to_first pass_party_leadership
passed-leads p w g m ms other inside = rw (pass_to_first, pass_party_leadership, other, inside) refl

module _ (p player : ℕ) (w : World) (a : Agrees w) where
  pass_to_first-SameRoster :
      (g : Group) (ms : List ℕ)
      → g.member_list ≡ ms
      → w.groups p ≡ some g
      → SameRoster g (pass_to_first p w g ms)
  unfolding pass_to_first is_listed
  pass_to_first-SameRoster g [] e f = same-SameRoster g (rw f at (a.rostered p))
  pass_to_first-SameRoster g (m ∷ ms) e f =
      pass_party_leadership-SameRoster m (is_in p (w.party_of m)) g (rw f at (a.rostered p))
        (rw e (ground arith))

  not_leader :
      (g : Group) (ms : List ℕ)
      → g.member_list ≡ ms
      → w.groups p ≡ some g
      → (g.leader == player) ≡ true
      → missing_leader player g ≡ false
      → ((pass_to_first p w g ms).leader == player) ≡ false
  unfolding pass_to_first is_listed
  not_leader g [] e f leads found = absurd (clash (sym (rw (missing_leader, e, leads) at found)))
  not_leader g (m ∷ ms) e f leads found =
      let once : NoRepeat (roster (some g)) = rw f at (a.rostered p) in
      let apart : is_listed g.leader (m ∷ ms) ≡ false = rw e at once.0 in
      let inside : is_in p (w.party_of m) ≡ true =
        a.belongs m p ∙ ap (λ o. is_listed m (roster o)) f ∙ rw e (ground arith) in
      let leads_now = passed-leads p w g m ms (ground (arith, apart)) inside in
      ap (λ n. n == player) leads_now ∙ ground (arith, apart, leads)

  without_player-IsLeft :
      (g : Group)
      → w.groups p ≡ some g
      → missing_leader player g ≡ false
      → IsLeft player g (without_player p player w g)
  unfolding without_player
  without_player-IsLeft g f found = elim (Bool-cases (g.leader == player)) [
    | inl leads ↦
        rw (without_player, found, leads)
          (erased-IsLeft player g (pass_to_first p w g g.member_list)
            (pass_to_first-SameRoster g g.member_list refl f)
            (not_leader g g.member_list refl f leads found))
    | inr other ↦
        rw (without_player, other)
          (erased-IsLeft player g g (same-SameRoster g (rw f at (a.rostered p))) other)
  ]

  -- A player leaves the party that the player belongs to, and it goes on.
  left-Agrees :
      (g g' : Group)
      → w.groups p ≡ some g
      → w.party_of player ≡ some p
      → IsLeft player g g'
      → Agrees (set_party player none (set_group p (some g') w))
  left-Agrees g g' f mine l =
      Changes-Agrees {og = some g'}
        (record {
          changed = refl;
          same_next = refl;
          used = group_used w a p g f;
          belongs_at = λ n.
              freed n p
              ∙ ground (arith, l.listed n, a.belongs n p ∙ ap (λ o. is_listed n (roster o)) f);
          belongs_else = λ n q ne. freed n q ∙ ground (arith, ne, mine_of n q mine);
          rostered_at = l.once;
          asked_at = λ n.
              a.asked n p
              ∙ ap (λ o. is_listed n (invited o)) f
              ∙ ap (is_listed n) (sym l.same_invites);
          asked_else = λ n q ne. refl;
          asked_once_at = rw (sym l.same_invites) at (rw f at (a.asked_once p));
        })
        a
    where
      freed :
          (n q : ℕ)
          → is_in q (put w.party_of player none n)
            ≡ (if n == player then false else is_in q (w.party_of n))
      freed n q = elim (Bool-cases (n == player)) [ inl e ↦ rw e refl | inr e ↦ rw e refl ]

      mine_of :
          (n q : ℕ)
          → w.party_of player ≡ some p
          → (n == player) ≡ true
          → is_in q (w.party_of n) ≡ (p == q)
      mine_of n q mine e =
          let same : n ≡ player = ground (arith, e) in
          ap (λ k. is_in q (w.party_of k)) same ∙ ap (is_in q) mine

module _ (h : Hooks) (disbands : (p : ℕ) (w : World) → h.on_disband p w ≡ true) where
  -- leaveParty on a party that is there, for a player who belongs to it.
  pub leave_party-Agrees :
      (p player : ℕ) (g : Group) (w : World)
      → Agrees w
      → w.groups p ≡ some g
      → w.party_of player ≡ some p
      → Agrees (leave_party h p g player w).1
  unfolding leave_party
  leave_party-Agrees p player g w a f mine = elim (Bool-cases (h.on_leave p player w)) [
    | inr stays ↦ rw (leave_party, inside, stays) a
    | inl leaves ↦ elim (Bool-cases (missing_leader player g)) [
      | inl missing ↦
          rw (leave_party, inside, leaves, missing)
            (disband-Agrees h disbands p (without_player p player w g) w (left g) a (
              subst (λ k. IsEnding p k w (set_party player none (set_group p (some k) w)))
                (sym (without_player-missing_leader p player w g missing))
                (IsEnding-missing_leader p player g w a f mine missing)))
      | inr found ↦
          let kept =
            left-Agrees p player w a g (without_player p player w g) f mine
              (without_player-IsLeft p player w a g f found) in
          elim (Bool-cases (is_empty (without_player p player w g))) [
            | inr more ↦ rw (leave_party, inside, leaves, found, more) kept
            | inl empty ↦
                rw (leave_party, inside, leaves, found, empty)
                  (disband-Agrees h disbands p (without_player p player w g) (left g) (left g) kept
                    (IsEnding-now h disbands p (without_player p player w g) (left g) kept
                      (rw (==_self p) refl)))
          ]
    ]
  ]
    where
      inside : is_in p (w.party_of player) ≡ true
      inside = ap (is_in p) mine ∙ ==_self p

      left : Group → World
      left g = set_party player none (set_group p (some (without_player p player w g)) w)
