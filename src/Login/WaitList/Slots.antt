-- ===== src/Login/WaitList/Slots.antt =====
-- Who is let in from the waiting list, and who keeps a slot in it.
use tibia_server.Base.{
  ℕ, suc, ◌+◌, ◌≤◌, ◌<◌, ◌≡◌, ◌⊎◌, inl, inr, refl, ◌∙◌, Bool, true, false, ◌&&◌, ◌||◌, ltb, leb,
  ◌==◌, Option, none, some, List, [], ◌∷◌, ◌++◌, arith, length, Bool-cases, if◌then◌else◌, ◌≢◌, All,
}
use tibia_server.Login.WaitList.{
  Wait, WaitListInfo, Player, u64_mod, is_expired, cleanup_list, cleaned, find_slot, in_priority,
  in_waiting, absent, find_client, set_timeout, Outcome, admitted, waits, foreign_erase, enqueue,
  at_iterator, client_login, get_client_slot, no_one,
}

-- A slot that is found is not before the first.
find_slot-le : (g k s : ℕ) (ws : List Wait) → find_slot g k ws ≡ some s → k ≤ s
unfolding find_slot
find_slot-le g k s [] e = absurd (cc)
find_slot-le g k s (w ∷ ws) e = ground (arith, find_slot-le g (k + 1) s ws)

-- The guid stands in the list.
abbrev pub has : ℕ → List Wait → Bool
has g [] = false
has g (w ∷ ws) = if w.guid == g then true else has g ws

find_slot-has :
    (g k : ℕ) (ws : List Wait) → has g ws ≡ true → (s : ℕ) × (find_slot g k ws ≡ some s) × (k ≤ s)
unfolding find_slot
find_slot-has g k [] h = absurd (cc)
find_slot-has g k (w ∷ ws) h = elim (Bool-cases (w.guid == g)) [
  | inl here ↦ (k, rw here, omega arith)
  | inr on ↦
      let rest = find_slot-has g (k + 1) ws (rw on at h) in
      (rest.0, rw on rest.1, omega (arith, rest.2))
]

pub find_slot-none : (g k : ℕ) (ws : List Wait) → has g ws ≡ false → find_slot g k ws ≡ none
unfolding find_slot
find_slot-none g k [] h = refl
find_slot-none g k (w ∷ ws) h = ground (arith, find_slot-none g (k + 1) ws)

-- A client in one of the lists has a slot.
get_client_slot-has :
    (g : ℕ) (info : WaitListInfo)
    → (has g info.priority ≡ true) ⊎ (has g info.waiting ≡ true)
    → 1 ≤ get_client_slot g info
unfolding get_client_slot find_client
get_client_slot-has g info h = elim (Bool-cases (has g info.priority)) [
  | inl first ↦ let f = find_slot-has g 1 info.priority first in rw f.1 (omega (arith, f.2))
  | inr not_first ↦
      let f =
        find_slot-has g (suc (length info.priority)) info.waiting (ground (arith, h, not_first)) in
      rw (find_slot-none g 1 info.priority not_first, f.1) (omega (arith, f.2))
]

pub has-set_timeout : (g t : ℕ) (ws : List Wait) → has g (set_timeout g t ws) ≡ has g ws
unfolding set_timeout
has-set_timeout g t [] = refl
has-set_timeout g t (w ∷ ws) = ground (arith, has-set_timeout g t ws)

has-append : (g : ℕ) (ws : List Wait) (w : Wait) → w.guid ≡ g → has g (ws ++ w ∷ []) ≡ true
has-append g [] w e = ground arith
has-append g (x ∷ ws) w e = ground (arith, has-append g ws w e)

find_slot-has' : (g k s : ℕ) (ws : List Wait) → find_slot g k ws ≡ some s → has g ws ≡ true
unfolding find_slot
find_slot-has' g k s [] e = absurd (cc)
find_slot-has' g k s (w ∷ ws) e = ground (arith, find_slot-has' g (k + 1) s ws)

-- What findClient says of the lists.
pub find_client-has :
    (g : ℕ) (info : WaitListInfo)
    → ((s : ℕ) × (find_client g info ≡ in_priority s) × (1 ≤ s) × (has g info.priority ≡ true))
      ⊎ ((s : ℕ) × (find_client g info ≡ in_waiting s) × (1 ≤ s) × (has g info.waiting ≡ true))
      ⊎ ((s : ℕ) × (find_client g info ≡ absent s)
          × (has g info.priority ≡ false)
          × (has g info.waiting ≡ false))
unfolding find_client
find_client-has g info = elim (Bool-cases (has g info.priority)) [
  | inl first ↦ let f = find_slot-has g 1 info.priority first in inl (f.0, rw f.1, f.2, first)
  | inr not_first ↦ elim (Bool-cases (has g info.waiting)) [
    | inl second ↦
        let f = find_slot-has g (suc (length info.priority)) info.waiting second in
        inr (
          inl
            (f.0, rw (find_slot-none g 1 info.priority not_first, f.1), omega (arith, f.2), second))
    | inr nowhere ↦ inr (
        inr (
          suc (length info.priority) + length info.waiting,
          rw (
            find_slot-none g 1 info.priority not_first,
            find_slot-none g (suc (length info.priority)) info.waiting nowhere,
          ),
          not_first,
          nowhere,
        ))
  ]
]

-- What clientLogin may answer to a client without privileges on a server with a limit, where `before`
-- are the lists after the cleanup: it lets the client in while the server is not full, or the client
-- has a slot in one of the lists, or the client stands in the priority list and is erased through
-- the other one.
pub data IsRight (p : Player) (online limit : ℕ) (before : WaitListInfo)
    (r : Outcome × Option WaitListInfo) : Type 0 where
  let_in :
      (i : WaitListInfo) → r ≡ (admitted, some i) → online < limit → IsRight p online limit before r
  queued :
      (i : WaitListInfo)
      → r ≡ (waits, some i)
      → 1 ≤ get_client_slot p.guid i
      → IsRight p online limit before r
  misplaced :
      r.0 ≡ foreign_erase
      → has p.guid before.priority ≡ true
      → online < limit
      → IsRight p online limit before r

enqueue-slot :
    (now : ℕ) (p : Player) (info : WaitListInfo) → 1 ≤ get_client_slot p.guid (enqueue now p info)
enqueue-slot now p info = elim (Bool-cases p.is_premium) [
  | inl e ↦
      get_client_slot-has p.guid (enqueue now p info)
        (inl (unfold enqueue in rw e (has-append p.guid info.priority _ refl)))
  | inr e ↦
      get_client_slot-has p.guid (enqueue now p info)
        (inr (unfold enqueue in rw e (has-append p.guid info.waiting _ refl)))
]

at_iterator-IsRight :
    (now online limit : ℕ) (p : Player) (info : WaitListInfo)
    → IsRight p online limit info (at_iterator now online limit p info (find_client p.guid info))
at_iterator-IsRight now online limit p info = elim (find_client-has p.guid info) [
  | inl (s, e, pos, here) ↦ rw e (elim (Bool-cases (leb (online + s) limit)) [
    | inl room ↦ unfold at_iterator in rw room (misplaced refl here (ground (arith, room, pos)))
    | inr full ↦
        unfold at_iterator in
        rw full (
          queued _ refl
            (get_client_slot-has p.guid _ (inl (has-set_timeout p.guid _ info.priority ∙ here))))
  ])
  | inr (inl (s, e, pos, here)) ↦ rw e (elim (Bool-cases (leb (online + s) limit)) [
    | inl room ↦ unfold at_iterator in rw room (let_in _ refl (ground (arith, room, pos)))
    | inr full ↦
        unfold at_iterator in
        rw full (
          queued _ refl
            (get_client_slot-has p.guid _ (inr (has-set_timeout p.guid _ info.waiting ∙ here))))
  ])
  | inr (inr (s, e, _, _)) ↦ rw e (unfold at_iterator in queued _ refl (enqueue-slot now p info))
]

-- A client without privileges, on a server with a limit, is let in only while the server is not
-- full; a client that is told to wait has a slot from then on; the one other answer is the faulty
-- erasure, of a client in the priority list.
pub client_login-IsRight :
    (now online limit : ℕ) (p : Player) (info : WaitListInfo)
    → (p.can_always_login || p.is_gamemaster) ≡ false
    → limit ≢ 0
    → IsRight p online limit (cleaned now info) (client_login now online limit p info)
client_login-IsRight now online limit p info plain limited =
    unfold client_login in
    rw (plain, some_limit)
      (elim (Bool-cases (straight info)) [
        | inl e ↦ rw e (let_in _ refl (below info e))
        | inr e ↦ rw e (at_iterator-IsRight now online limit p (cleaned now info))
      ])
  where
    some_limit : (limit == 0) ≡ false
    some_limit = ground (arith, limited)

    straight : WaitListInfo → Bool
    straight i = no_one i.priority && no_one i.waiting && ltb online limit

    below : (i : WaitListInfo) → straight i ≡ true → online < limit
    below i e = ground (arith, e)

occupied :
    (g k now : ℕ) {s : ℕ} (ws : List Wait)
    → find_slot g k (cleanup_list now ws) ≡ some s
    → no_one ws ≡ false
unfolding cleanup_list find_slot
occupied g k now [] e = absurd (cc)
occupied g k now (w ∷ ws) e = refl

-- A client without privileges whose slot in the priority list, after the cleanup, fits into the
-- free places of a server with a limit is not let in: it meets the faulty erasure.
pub client_login-foreign_erase :
    (now online limit s : ℕ) (p : Player) (info : WaitListInfo)
    → (p.can_always_login || p.is_gamemaster) ≡ false
    → find_slot p.guid 1 (cleanup_list now info.priority) ≡ some s
    → online + s ≤ limit
    → (client_login now online limit p info).0 ≡ foreign_erase
client_login-foreign_erase now online limit s p info plain found room =
    unfold client_login in
    rw (plain, some_limit, someone) (unfold at_iterator find_client cleaned in rw (found, fits))
  where
    pos : 1 ≤ s
    pos = find_slot-le p.guid 1 s _ found

    some_limit : (limit == 0) ≡ false
    some_limit = ground (arith, pos, room)

    fits : leb (online + s) limit ≡ true
    fits = ground arith

    someone : no_one info.priority ≡ false
    someone = occupied p.guid 1 now info.priority found

-- Entries whose timeouts all lie before the present moment survive the cleanup, all of them.
pub cleanup_list-stale :
    (now : ℕ) (ws : List Wait)
    → now < u64_mod
    → All (λ w. w.timeout < now) ws
    → cleanup_list now ws ≡ ws
unfolding cleanup_list
cleanup_list-stale now [] h stale = refl
cleanup_list-stale now (w ∷ ws) h stale = rw (kept, cleanup_list-stale now ws h stale.1)
  where
    kept : is_expired now w ≡ false
    kept = unfold is_expired in ground (arith, stale.0)
