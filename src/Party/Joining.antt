-- ===== src/Party/Joining.antt =====
-- Invitations, joining and leadership keep parties and players in agreement.
use tibia_server.Base.{
  ℕ, true, false, ◌&&◌, List, ◌∷◌, Option, none, some, ◌==◌, ◌≡◌, refl, ap, sym, ◌∙◌, arith,
  if◌then◌else◌, Bool-cases, inl, inr,
}
use tibia_server.Party.Members.{
  Group, World, Hooks, is_listed, is_in, put, add_party_invitation, invite_player, join_party,
}
use tibia_server.Party.Rosters.{
  NoRepeat, is_listed-append, is_listed-erase_first, erase_first-NoRepeat, append-NoRepeat,
  withdrawn_one,
}
use tibia_server.Party.Agreement.{Agrees, Changes-Agrees, roster, invited, group_used, ==_self}

added_one :
    (p m n q : ℕ) (f : ℕ → List ℕ)
    → is_listed q (put f m (p ∷ f m) n) ≡ (if n == m && (p == q) then true else is_listed q (f n))
unfolding is_listed
added_one p m n q f = elim (Bool-cases (n == m)) [
  | inl e ↦
      let same : m ≡ n = ground (arith, e) in
      rw e (ap (λ k. if p == q then true else is_listed q (f k)) same)
  | inr e ↦ rw e refl
]

-- invitePlayer on a party that is there.
pub invite_player-Agrees :
    (p player : ℕ) (g : Group) (w : World)
    → Agrees w
    → w.groups p ≡ some g
    → Agrees (invite_player p g player w).1
unfolding invite_player
invite_player-Agrees p player g w a f = elim (Bool-cases (is_listed player g.invite_list)) [
  | inl e ↦ rw (invite_player, e) a
  | inr e ↦
      let out : is_listed p (w.invite_party_list player) ≡ false =
        a.asked player p ∙ ap (λ o. is_listed player (invited o)) f ∙ e in
      rw (invite_player, e, add_party_invitation, out)
        (Changes-Agrees
          (record {
            changed = refl;
            same_next = refl;
            used = group_used w a p g f;
            belongs_at = λ n. a.belongs n p ∙ ap (λ o. is_listed n (roster o)) f;
            belongs_else = λ n q e. refl;
            rostered_at = rw f at (a.rostered p);
            asked_at = λ n.
                added_one p player n p w.invite_party_list
                ∙ ground (
                  arith,
                  ==_self p,
                  is_listed-append n player g.invite_list,
                  a.asked n p ∙ ap (λ o. is_listed n (invited o)) f,
                );
            asked_else = λ n q ne. added_one p player n q w.invite_party_list ∙ ground (arith, ne);
            asked_once_at = append-NoRepeat player g.invite_list (rw f at (a.asked_once p)) e;
          })
          a)
]

pub moved_one :
    (p m n q : ℕ) (f : ℕ → Option ℕ)
    → is_in q (put f m (some p) n) ≡ (if n == m then p == q else is_in q (f n))
moved_one p m n q f = elim (Bool-cases (n == m)) [ inl e ↦ rw e refl | inr e ↦ rw e refl ]

pub of_none : (m n q : ℕ) (f : ℕ → Option ℕ) → f m ≡ none → (n == m) ≡ true → is_in q (f n) ≡ false
of_none m n q f h e =
    let same : n ≡ m = ground (arith, e) in ap (λ k. is_in q (f k)) same ∙ ap (is_in q) h

-- joinParty on a party that is there, for a player who has none.
pub join_party-Agrees :
    (h : Hooks) (p player : ℕ) (g : Group) (w : World)
    → Agrees w
    → w.groups p ≡ some g
    → w.party_of player ≡ none
    → Agrees (join_party h p g player w).1
unfolding join_party is_listed
join_party-Agrees h p player g w a f alone = elim (Bool-cases (h.on_join p player w)) [
  | inr no_join ↦ rw (join_party, no_join) a
  | inl joins ↦ elim (Bool-cases (is_listed player g.invite_list)) [
    | inr no_invite ↦ rw (join_party, joins, no_invite) a
    | inl asked_in ↦
        let out : is_listed player (roster (some g)) ≡ false =
          ap (λ o. is_listed player (roster o)) (sym f)
          ∙ sym (a.belongs player p)
          ∙ ap (is_in p) alone in
        let once : NoRepeat (roster (some g)) = rw f at (a.rostered p) in
        let asked_all : NoRepeat g.invite_list = rw f at (a.asked_once p) in
        rw (join_party, joins, asked_in)
          (Changes-Agrees
            (record {
              changed = refl;
              same_next = refl;
              used = group_used w a p g f;
              belongs_at = λ n.
                  moved_one p player n p w.party_of
                  ∙ ground (
                    arith,
                    is_listed-append n player g.member_list,
                    a.belongs n p ∙ ap (λ o. is_listed n (roster o)) f,
                  );
              belongs_else = λ n q ne.
                  moved_one p player n q w.party_of
                  ∙ ground (arith, ne, of_none player n q w.party_of alone);
              rostered_at = (
                ground (arith, is_listed-append g.leader player g.member_list, once.0, out),
                append-NoRepeat player g.member_list once.1 (ground (arith, out)),
              );
              asked_at = λ n.
                  withdrawn_one p player n p w
                  ∙ ground (
                    arith,
                    ==_self p,
                    is_listed-erase_first n player g.invite_list asked_all,
                    a.asked n p ∙ ap (λ o. is_listed n (invited o)) f,
                  );
              asked_else = λ n q ne. withdrawn_one p player n q w ∙ ground (arith, ne);
              asked_once_at = erase_first-NoRepeat player g.invite_list asked_all;
            })
            a)
  ]
]
