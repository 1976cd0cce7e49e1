-- ===== src/Party/Rosters.antt =====
-- The lists of a party, and what the loops of disband do to the players.
use tibia_server.Base.{
  ℕ, true, false, ◌&&◌, List, [], ◌∷◌, ◌++◌, none, ◌==◌, ◌≡◌, refl, ap, arith, if◌then◌else◌,
  Bool-cases, inl, inr, ◌∙◌,
}
use tibia_server.Party.Members.{
  World, is_listed, erase_first, remove_all, remove_party_invitation, withdraw_all, release_all,
  put,
}

abbrev pub NoRepeat : List ℕ → Type 0
NoRepeat [] = Unit
NoRepeat (n ∷ ns) = (is_listed n ns ≡ false) × NoRepeat ns

pub is_listed-append :
    (n k : ℕ) (ms : List ℕ) → is_listed n (ms ++ k ∷ []) ≡ (if k == n then true else is_listed n ms)
unfolding is_listed
is_listed-append n k [] = refl
is_listed-append n k (m ∷ ms) = ground (arith, is_listed-append n k ms)

pub is_listed-remove_all :
    (n k : ℕ) (ms : List ℕ)
    → is_listed n (remove_all k ms) ≡ (if k == n then false else is_listed n ms)
unfolding is_listed remove_all
is_listed-remove_all n k [] = ground arith
is_listed-remove_all n k (m ∷ ms) = ground (arith, is_listed-remove_all n k ms)

is_listed-eq : (n k : ℕ) (ms : List ℕ) → (k == n) ≡ true → is_listed k ms ≡ is_listed n ms
is_listed-eq n k ms e = grind (arith, e)

pub is_listed-erase_first :
    (n k : ℕ) (ms : List ℕ)
    → NoRepeat ms
    → is_listed n (erase_first k ms) ≡ (if k == n then false else is_listed n ms)
unfolding is_listed erase_first
is_listed-erase_first n k [] h = ground arith
is_listed-erase_first n k (m ∷ ms) h =
    ground (arith, is_listed-erase_first n k ms h.1, is_listed-eq n k ms, is_listed-eq n m ms, h.0)

pub erase_first-NoRepeat : (k : ℕ) (ms : List ℕ) → NoRepeat ms → NoRepeat (erase_first k ms)
unfolding erase_first
erase_first-NoRepeat k [] h = tt
erase_first-NoRepeat k (m ∷ ms) h = elim (Bool-cases (m == k)) [
  | inl e ↦ rw e h.1
  | inr e ↦
      rw e (ground (arith, is_listed-erase_first m k ms h.1, h.0), erase_first-NoRepeat k ms h.1)
]

pub append-NoRepeat :
    (k : ℕ) (ms : List ℕ) → NoRepeat ms → is_listed k ms ≡ false → NoRepeat (ms ++ k ∷ [])
unfolding is_listed
append-NoRepeat k [] h out = (refl, tt)
append-NoRepeat k (m ∷ ms) h out = (
  ground (arith, is_listed-append m k ms, h.0, out),
  append-NoRepeat k ms h.1 (ground (arith, out)),
)

-- What disband's loop over the members leaves of the world.
pub record IsReleased (ns : List ℕ) (w w' : World) : Type 0 where
  pub parties : (n : ℕ) → w'.party_of n ≡ (if is_listed n ns then none else w.party_of n)
  pub invites : w'.invite_party_list ≡ w.invite_party_list
  pub same_groups : w'.groups ≡ w.groups
  pub same_next : w'.next_group ≡ w.next_group

pub release_all-IsReleased : (ns : List ℕ) (w : World) → IsReleased ns w (release_all ns w)
unfolding release_all is_listed
release_all-IsReleased [] w = record {
  parties = λ n. refl;
  invites = refl;
  same_groups = refl;
  same_next = refl;
}
release_all-IsReleased (m ∷ ms) w =
    let r = release_all-IsReleased ms (record w { party_of = put w.party_of m none }) in
    record {
      parties = λ n. r.parties n ∙ ground arith;
      invites = r.invites;
      same_groups = r.same_groups;
      same_next = r.same_next;
    }

-- What its loop over the invited players leaves, in the list of each player.
pub record IsWithdrawn (p : ℕ) (ns : List ℕ) (w w' : World) : Type 0 where
  pub invites :
      (n q : ℕ)
      → is_listed q (w'.invite_party_list n)
        ≡ (if is_listed n ns && (p == q) then false else is_listed q (w.invite_party_list n))
  pub parties : w'.party_of ≡ w.party_of
  pub same_groups : w'.groups ≡ w.groups
  pub same_next : w'.next_group ≡ w.next_group

pub withdrawn_one :
    (p m n q : ℕ) (w : World)
    → is_listed q ((remove_party_invitation p m w).invite_party_list n)
      ≡ (if n == m && (p == q) then false else is_listed q (w.invite_party_list n))
unfolding remove_party_invitation
withdrawn_one p m n q w = elim (Bool-cases (n == m)) [
  | inl e ↦
      let same : m ≡ n = ground (arith, e) in
      rw e (
        is_listed-remove_all q p (w.invite_party_list m)
        ∙ ap (λ k. if p == q then false else is_listed q (w.invite_party_list k)) same)
  | inr e ↦ rw e refl
]

pub withdraw_all-IsWithdrawn :
    (p : ℕ) (ns : List ℕ) (w : World) → IsWithdrawn p ns w (withdraw_all p ns w)
unfolding withdraw_all is_listed
withdraw_all-IsWithdrawn p [] w = record {
  invites = λ n q. refl;
  parties = refl;
  same_groups = refl;
  same_next = refl;
}
withdraw_all-IsWithdrawn p (m ∷ ms) w =
    let r = withdraw_all-IsWithdrawn p ms (remove_party_invitation p m w) in
    record {
      invites = λ n q. r.invites n q ∙ ground (arith, withdrawn_one p m n q w);
      parties = r.parties;
      same_groups = r.same_groups;
      same_next = r.same_next;
    }
