-- ===== src/Party/Agreement.antt =====
-- That parties and players agree: who belongs to a party, and who is invited.
use tibia_server.Base.{
  ℕ, ◌<◌, ◌≤◌, true, false, List, [], ◌∷◌, Option, none, some, ◌==◌, ◌≡◌, ◌⊎◌, refl, sym, ◌∙◌,
  arith, dec_lt, Bool-cases, Option-cases, subst, inl, inr, clash,
}
use tibia_server.Party.Members.{Group, World, is_listed, is_in, put, get_party}
use tibia_server.Party.Rosters.{NoRepeat}

abbrev pub roster : Option Group → List ℕ
roster none = []
roster (some g) = g.leader ∷ g.member_list

abbrev pub invited : Option Group → List ℕ
invited none = []
invited (some g) = g.invite_list

-- A player belongs to the party that lists the player, as leader or member, and to no other, and is
-- listed once; the same holds of invitations, but for the number of parties; new parties get new
-- numbers.
pub record Agrees (w : World) : Type 0 where
  pub belongs : (n p : ℕ) → is_in p (w.party_of n) ≡ is_listed n (roster (w.groups p))
  pub rostered : (p : ℕ) → NoRepeat (roster (w.groups p))
  pub asked : (n p : ℕ) → is_listed p (w.invite_party_list n) ≡ is_listed n (invited (w.groups p))
  pub asked_once : (p : ℕ) → NoRepeat (invited (w.groups p))
  pub unused : (p : ℕ) → w.next_group ≤ p → w.groups p ≡ none

-- A change of one party and of its players.
pub record Changes (p : ℕ) (og : Option Group) (w w' : World) : Type 0 where
  pub changed : w'.groups ≡ put w.groups p og
  pub same_next : w'.next_group ≡ w.next_group
  pub used : p < w.next_group
  pub belongs_at : (n : ℕ) → is_in p (w'.party_of n) ≡ is_listed n (roster og)
  pub belongs_else : (n q : ℕ) → (q == p) ≡ false → is_in q (w'.party_of n) ≡ is_in q (w.party_of n)
  pub rostered_at : NoRepeat (roster og)
  pub asked_at : (n : ℕ) → is_listed p (w'.invite_party_list n) ≡ is_listed n (invited og)
  pub asked_else :
      (n q : ℕ)
      → (q == p) ≡ false
      → is_listed q (w'.invite_party_list n) ≡ is_listed q (w.invite_party_list n)
  pub asked_once_at : NoRepeat (invited og)

pub same_number : (q p : ℕ) → (q == p) ≡ true → p ≡ q
same_number q p e = ground (arith, e)

pub Changes-Agrees :
    {p : ℕ} {og : Option Group} {w w' : World} → Changes p og w w' → Agrees w → Agrees w'
Changes-Agrees {p} {og} {w} {w'} c a = record {
  belongs = λ n q. elim (Bool-cases (q == p)) [
    | inl e ↦
        rw (c.changed, e)
          (subst (λ k. is_in k (w'.party_of n) ≡ is_listed n (roster og)) (same_number q p e)
            (c.belongs_at n))
    | inr e ↦ rw (c.changed, e) (c.belongs_else n q e ∙ a.belongs n q)
  ];
  rostered = λ q. elim (Bool-cases (q == p)) [
    | inl e ↦ rw (c.changed, e) c.rostered_at
    | inr e ↦ rw (c.changed, e) (a.rostered q)
  ];
  asked = λ n q. elim (Bool-cases (q == p)) [
    | inl e ↦
        rw (c.changed, e)
          (subst (λ k. is_listed k (w'.invite_party_list n) ≡ is_listed n (invited og))
            (same_number q p e) (c.asked_at n))
    | inr e ↦ rw (c.changed, e) (c.asked_else n q e ∙ a.asked n q)
  ];
  asked_once = λ q. elim (Bool-cases (q == p)) [
    | inl e ↦ rw (c.changed, e) c.asked_once_at
    | inr e ↦ rw (c.changed, e) (a.asked_once q)
  ];
  unused = λ q le. elim (Bool-cases (q == p)) [
    | inl e ↦ absurd (omega (arith, c.used, c.same_next, same_number q p e))
    | inr e ↦ rw (c.changed, e) (a.unused q (omega (arith, c.same_next)))
  ];
}

pub ==_self : (p : ℕ) → (p == p) ≡ true
==_self p = ground arith

pub group_used :
    (w : World) → Agrees w → (p : ℕ) (g : Group) → w.groups p ≡ some g → p < w.next_group
group_used w a p g f = elim (dec_lt p w.next_group) [
  | yes h ↦ h
  | no h ↦ absurd (none_some (sym (a.unused p (omega (arith, not_lt p w.next_group h))) ∙ f))
]
  where
    none_some : none ≡ some g → ⊥
    none_some e = cc

    not_lt : (x y : ℕ) → ¬ (x < y) → y ≤ x
    not_lt x y h = grind (arith, h)

-- The party of a player, as the handlers look it up.
pub party_cases :
    (w : World)
    → Agrees w
    → (player : ℕ)
    → ((w.party_of player ≡ none) × (get_party player w ≡ none))
      ⊎ ((p : ℕ) × (g : Group) × (w.party_of player ≡ some p)
          × (w.groups p ≡ some g)
          × (get_party player w ≡ some (p, g)))
unfolding is_listed
party_cases w a player = elim (Option-cases (w.party_of player)) [
  | inl e ↦ inl (e, rw (get_party, e) refl)
  | inr (p, e) ↦ elim (Option-cases (w.groups p)) [
    | inl f ↦ absurd (clash (sym (rw (e, f) at (a.belongs player p)) ∙ ==_self p))
    | inr (g, f) ↦ inr (p, g, e, f, rw (get_party, e, f) refl)
  ]
]
