-- ===== src/Party/Disbanding.antt =====
-- Disbanding and the withdrawal of invitations keep parties and players in agreement, where
-- the scripts let a party disband.
use tibia_server.Base.{
  ℕ, ◌<◌, true, false, ◌&&◌, List, Option, none, some, ◌==◌, ◌≡◌, refl, ap, sym, ◌∙◌, arith,
  if◌then◌else◌, Bool-cases, inl, inr, fun_ext,
}
use tibia_server.Party.Members.{
  Group, World, Hooks, is_listed, is_in, put, erase_first, set_group, set_party, disband,
  withdraw_all, remove_invite, remove_party_invitation, is_empty,
}
use tibia_server.Party.Rosters.{
  NoRepeat, release_all-IsReleased, withdraw_all-IsWithdrawn, withdrawn_one, is_listed-erase_first,
  erase_first-NoRepeat,
}
use tibia_server.Party.Agreement.{Agrees, Changes-Agrees, roster, invited, group_used, ==_self}

-- A world that agrees with an earlier one but for a party about to disband, whose lists cover the
-- players that still lead to it.
pub record IsEnding (p : ℕ) (g : Group) (w w' : World) : Type 0 where
  pub changed : w'.groups ≡ put w.groups p (some g)
  pub same_next : w'.next_group ≡ w.next_group
  pub used : p < w.next_group
  pub covered : (n : ℕ) → is_listed n (roster (some g)) ≡ false → is_in p (w'.party_of n) ≡ false
  pub covers : (n : ℕ) → is_listed n (roster (some g)) ≡ true → is_in p (w.party_of n) ≡ true
  pub belongs_else : (n q : ℕ) → (q == p) ≡ false → is_in q (w'.party_of n) ≡ is_in q (w.party_of n)
  pub asked_at : (n : ℕ) → is_listed p (w'.invite_party_list n) ≡ is_listed n g.invite_list
  pub asked_else :
      (n q : ℕ)
      → (q == p) ≡ false
      → is_listed q (w'.invite_party_list n) ≡ is_listed q (w.invite_party_list n)

-- What disband does, in the players' terms.
record IsDisbanded (p : ℕ) (g : Group) (w w' : World) : Type 0 where
  gone : w'.groups ≡ put w.groups p none
  same_next : w'.next_group ≡ w.next_group
  parties : (n : ℕ) → w'.party_of n ≡ (if is_listed n (roster (some g)) then none else w.party_of n)
  invites :
      (n q : ℕ)
      → is_listed q (w'.invite_party_list n) ≡ (
          if is_listed n g.invite_list && (p == q)
          then false
          else is_listed q (w.invite_party_list n))

module _ (h : Hooks) (disbands : (p : ℕ) (w : World) → h.on_disband p w ≡ true) where
  disband-IsDisbanded : (p : ℕ) (g : Group) (w : World) → IsDisbanded p g w (disband h p g w)
  unfolding disband is_listed
  disband-IsDisbanded p g w =
      let w1 = set_party g.leader none w in
      let i = withdraw_all-IsWithdrawn p g.invite_list w1 in
      let r = release_all-IsReleased g.member_list (withdraw_all p g.invite_list w1) in
      rw (disband, disbands p w)
        (record {
          gone = ap (λ f. put f p none) (r.same_groups ∙ i.same_groups);
          same_next = r.same_next ∙ i.same_next;
          parties = λ n.
              r.parties n
              ∙ ap (λ (f : ℕ → Option ℕ). if is_listed n g.member_list then none else f n) i.parties
              ∙ ground arith;
          invites = λ n q. ap (λ (f : ℕ → List ℕ). is_listed q (f n)) r.invites ∙ i.invites n q;
        })

  only_in : (p q : ℕ) (o : Option ℕ) → is_in p o ≡ true → (q == p) ≡ false → is_in q o ≡ false
  only_in p q none e ne = refl
  only_in p q (some k) e ne = ground (arith, e, ne)

  pub disband-Agrees :
      (p : ℕ) (g : Group) (w w' : World) → Agrees w → IsEnding p g w w' → Agrees (disband h p g w')
  unfolding is_listed
  disband-Agrees p g w w' a e =
      let d = disband-IsDisbanded p g w' in
      Changes-Agrees
        (record {
          changed = d.gone ∙ ap (λ f. put f p none) e.changed ∙ fun_ext (λ n. put_twice n);
          same_next = d.same_next ∙ e.same_next;
          used = e.used;
          belongs_at = λ n. ap (is_in p) (d.parties n) ∙ out_of n;
          belongs_else = λ n q ne. ap (is_in q) (d.parties n) ∙ elsewhere n q ne;
          rostered_at = tt;
          asked_at = λ n. d.invites n p ∙ ground (arith, ==_self p, e.asked_at n);
          asked_else = λ n q ne. d.invites n q ∙ ground (arith, ne, e.asked_else n q ne);
          asked_once_at = tt;
        })
        a
    where
      out_of :
          (n : ℕ) → is_in p (if is_listed n (roster (some g)) then none else w'.party_of n) ≡ false
      out_of n = elim (Bool-cases (is_listed n (roster (some g)))) [
        | inl l ↦ rw l refl
        | inr l ↦ rw l (e.covered n l)
      ]

      elsewhere :
          (n q : ℕ)
          → (q == p) ≡ false
          → is_in q (if is_listed n (roster (some g)) then none else w'.party_of n)
            ≡ is_in q (w.party_of n)
      elsewhere n q ne = elim (Bool-cases (is_listed n (roster (some g)))) [
        | inl l ↦ rw l (sym (only_in p q (w.party_of n) (e.covers n l) ne))
        | inr l ↦ rw l (e.belongs_else n q ne)
      ]

      put_twice : (n : ℕ) → put (put w.groups p (some g)) p none n ≡ put w.groups p none n
      put_twice n = elim (Bool-cases (n == p)) [ inl s ↦ rw s refl | inr s ↦ rw s refl ]

  pub IsEnding-now :
      (p : ℕ) (g : Group) (w : World) → Agrees w → w.groups p ≡ some g → IsEnding p g w w
  IsEnding-now p g w a f = record {
    changed = fun_ext (λ n. kept n);
    same_next = refl;
    used = group_used w a p g f;
    covered = λ n l. listed n ∙ l;
    covers = λ n l. listed n ∙ l;
    belongs_else = λ n q ne. refl;
    asked_at = λ n. a.asked n p ∙ ap (λ o. is_listed n (invited o)) f;
    asked_else = λ n q ne. refl;
  }
    where
      listed : (n : ℕ) → is_in p (w.party_of n) ≡ is_listed n (roster (some g))
      listed n = a.belongs n p ∙ ap (λ o. is_listed n (roster o)) f

      kept : (n : ℕ) → w.groups n ≡ put w.groups p (some g) n
      kept n = elim (Bool-cases (n == p)) [
        | inl s ↦ let same : n ≡ p = ground (arith, s) in rw s (ap w.groups same ∙ f)
        | inr s ↦ rw s refl
      ]

  -- removeInvite, with the player's side, on a party that is there.
  pub remove_invite-Agrees :
      (p player : ℕ) (g : Group) (w : World)
      → Agrees w
      → w.groups p ≡ some g
      → Agrees (remove_invite h true p g player w).1
  unfolding remove_invite
  remove_invite-Agrees p player g w a f = elim (Bool-cases (is_listed player g.invite_list)) [
    | inr no_invite ↦ rw (remove_invite, no_invite) a
    | inl listed ↦ elim (Bool-cases (is_empty g')) [
      | inr more ↦ rw (remove_invite, listed, more) kept
      | inl empty ↦
          rw (remove_invite, listed, empty)
            (disband-Agrees p g' w2 w2 kept (IsEnding-now p g' w2 kept at_p))
    ]
  ]
    where
      g' : Group
      g' = record g { invite_list = erase_first player g.invite_list }

      w1 : World
      w1 = set_group p (some g') w

      w2 : World
      w2 = remove_party_invitation p player w1

      asked_all : NoRepeat g.invite_list
      asked_all = rw f at (a.asked_once p)

      kept : Agrees w2
      kept =
          Changes-Agrees {og = some g'}
            (record {
              changed = refl;
              same_next = refl;
              used = group_used w a p g f;
              belongs_at = λ n. a.belongs n p ∙ ap (λ o. is_listed n (roster o)) f;
              belongs_else = λ n q ne. refl;
              rostered_at = rw f at (a.rostered p);
              asked_at = λ n.
                  withdrawn_one p player n p w1
                  ∙ ground (
                    arith,
                    ==_self p,
                    is_listed-erase_first n player g.invite_list asked_all,
                    a.asked n p ∙ ap (λ o. is_listed n (invited o)) f,
                  );
              asked_else = λ n q ne. withdrawn_one p player n q w1 ∙ ground (arith, ne);
              asked_once_at = erase_first-NoRepeat player g.invite_list asked_all;
            })
            a

      at_p : w2.groups p ≡ some g'
      at_p = rw (==_self p) refl
