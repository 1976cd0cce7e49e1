-- ===== src/Party/Ending.antt =====
-- A leader leaves, and no one can take over: the party that is about to disband.
use tibia_server.Base.{
  ℕ, Bool, true, false, ◌&&◌, none, some, ◌==◌, ◌≡◌, refl, ap, sym, ◌∙◌, arith, if◌then◌else◌,
  Bool-cases, inl, inr,
}
use tibia_server.Party.Members.{
  Group, World, is_listed, is_in, put, erase_first, set_group, set_party, without_player,
  missing_leader,
}
use tibia_server.Party.Rosters.{NoRepeat, is_listed-erase_first}
use tibia_server.Party.Agreement.{Agrees, roster, invited, group_used}
use tibia_server.Party.Disbanding.{IsEnding}

missing-roster :
    (player : ℕ) (g : Group)
    → NoRepeat (roster (some g))
    → missing_leader player g ≡ true
    → (n : ℕ)
    → is_listed n (roster (some (record g { member_list = erase_first player g.member_list })))
      ≡ is_listed n (roster (some g))
unfolding is_listed
missing-roster player g once missing n =
    let leads : (g.leader == player) ≡ true = leads_of (g.leader == player) _ missing in
    ground (arith, leads, is_listed-erase_first n player g.member_list once.1)
  where
    leads_of : (b c : Bool) → b && c ≡ true → b ≡ true
    leads_of true c e = refl
    leads_of false c e = e

pub without_player-missing_leader :
    (p player : ℕ) (w : World) (g : Group)
    → missing_leader player g ≡ true
    → without_player p player w g ≡ record g { member_list = erase_first player g.member_list }
unfolding without_player
without_player-missing_leader p player w g missing = elim (Bool-cases (g.leader == player)) [
  | inl e ↦ rw (without_player, missing, e) refl
  | inr e ↦ rw (without_player, missing, e) refl
]

pub IsEnding-missing_leader :
    (p player : ℕ) (g : Group) (w : World)
    → Agrees w
    → w.groups p ≡ some g
    → w.party_of player ≡ some p
    → missing_leader player g ≡ true
    → let g' : Group = record g { member_list = erase_first player g.member_list } in
      IsEnding p g' w (set_party player none (set_group p (some g') w))
IsEnding-missing_leader p player g w a f mine missing = record {
  changed = refl;
  same_next = refl;
  used = group_used w a p g f;
  covered = λ n l. freed n p ∙ ground (arith, belongs n, same n, l);
  covers = λ n l. belongs n ∙ sym (same n) ∙ l;
  belongs_else = λ n q ne. freed n q ∙ ground (arith, ne, mine_of n q mine);
  asked_at = λ n. a.asked n p ∙ ap (λ o. is_listed n (invited o)) f;
  asked_else = λ n q ne. refl;
}
  where
    g' : Group
    g' = record g { member_list = erase_first player g.member_list }

    belongs : (n : ℕ) → is_in p (w.party_of n) ≡ is_listed n (roster (some g))
    belongs n = a.belongs n p ∙ ap (λ o. is_listed n (roster o)) f

    same : (n : ℕ) → is_listed n (roster (some g')) ≡ is_listed n (roster (some g))
    same n = missing-roster player g (rw f at (a.rostered p)) missing n

    freed :
        (n q : ℕ)
        → is_in q (put w.party_of player none n)
          ≡ (if n == player then false else is_in q (w.party_of n))
    freed n q = elim (Bool-cases (n == player)) [ inl e ↦ rw e refl | inr e ↦ rw e refl ]

    mine_of :
        (n q : ℕ)
        → w.party_of player ≡ some p
        → (n == player) ≡ true
        → is_in q (w.party_of n) ≡ (p == q)
    mine_of n q mine e =
        let s : n ≡ player = ground (arith, e) in
        ap (λ k. is_in q (w.party_of k)) s ∙ ap (is_in q) mine
