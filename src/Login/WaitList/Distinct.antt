-- ===== src/Login/WaitList/Distinct.antt =====
-- The waiting lists hold nobody twice.
use tibia_server.Base.{
  ℕ, ◌+◌, ◌≡◌, ◌⊎◌, inl, inr, refl, ◌∙◌, Bool, false, ◌&&◌, ◌||◌, ltb, leb, ◌==◌, List, [], ◌∷◌,
  ◌++◌, arith, Bool-cases,
}
use tibia_server.Login.WaitList.{
  Wait, WaitListInfo, Player, is_expired, cleanup_list, cleaned, find_client, erase, set_timeout,
  enqueue, at_iterator, client_login, no_one, OfLists,
}
use tibia_server.Login.WaitList.Slots.{has, find_client-has}

abbrev Distinct : List Wait → Type 0
Distinct [] = Unit
Distinct (w ∷ ws) = (has w.guid ws ≡ false) × Distinct ws

-- No guid stands twice, in one list or in both.
pub record IsQueue (info : WaitListInfo) : Type 0 where
  pub priority_once : Distinct info.priority
  pub waiting_once : Distinct info.waiting
  pub apart : (g : ℕ) → (has g info.priority ≡ false) ⊎ (has g info.waiting ≡ false)

has-cleanup_list :
    (now g : ℕ) (ws : List Wait) → has g ws ≡ false → has g (cleanup_list now ws) ≡ false
unfolding cleanup_list
has-cleanup_list now g [] h = refl
has-cleanup_list now g (w ∷ ws) h = ground (arith, has-cleanup_list now g ws)

has-erase : (g k : ℕ) (ws : List Wait) → has g ws ≡ false → has g (erase k ws) ≡ false
unfolding erase
has-erase g k [] h = refl
has-erase g k (w ∷ ws) h = ground (arith, has-erase g k ws)

has-set_timeout_ne : (g k t : ℕ) (ws : List Wait) → has g (set_timeout k t ws) ≡ has g ws
unfolding set_timeout
has-set_timeout_ne g k t [] = refl
has-set_timeout_ne g k t (w ∷ ws) = ground (arith, has-set_timeout_ne g k t ws)

has-append_false :
    (g : ℕ) (w : Wait) (ws : List Wait)
    → has g ws ≡ false
    → (w.guid == g) ≡ false
    → has g (ws ++ w ∷ []) ≡ false
has-append_false g w [] h e = rw e
has-append_false g w (x ∷ ws) h e = ground (arith, has-append_false g w ws)

Distinct-cleanup_list : (now : ℕ) (ws : List Wait) → Distinct ws → Distinct (cleanup_list now ws)
unfolding cleanup_list
Distinct-cleanup_list now [] d = tt
Distinct-cleanup_list now (w ∷ ws) d = elim (Bool-cases (is_expired now w)) [
  | inl e ↦ rw e (Distinct-cleanup_list now ws d.1)
  | inr e ↦ rw e (has-cleanup_list now w.guid ws d.0, Distinct-cleanup_list now ws d.1)
]

Distinct-erase : (g : ℕ) (ws : List Wait) → Distinct ws → Distinct (erase g ws)
unfolding erase
Distinct-erase g [] d = tt
Distinct-erase g (w ∷ ws) d = elim (Bool-cases (w.guid == g)) [
  | inl e ↦ rw e d.1
  | inr e ↦ rw e (has-erase w.guid g ws d.0, Distinct-erase g ws d.1)
]

Distinct-set_timeout : (g t : ℕ) (ws : List Wait) → Distinct ws → Distinct (set_timeout g t ws)
unfolding set_timeout
Distinct-set_timeout g t [] d = tt
Distinct-set_timeout g t (w ∷ ws) d = elim (Bool-cases (w.guid == g)) [
  | inl e ↦ rw e d
  | inr e ↦ rw e (has-set_timeout_ne w.guid g t ws ∙ d.0, Distinct-set_timeout g t ws d.1)
]

Distinct-append :
    (w : Wait) (ws : List Wait) → has w.guid ws ≡ false → Distinct ws → Distinct (ws ++ w ∷ [])
Distinct-append w [] h d = (refl, tt)
Distinct-append w (x ∷ ws) h d =
    (has-append_false x.guid w ws d.0 (ground arith), Distinct-append w ws (ground arith) d.1)

abbrev at_end : ℕ → Player → Wait
at_end t p = record { timeout = t; guid = p.guid }

-- Appending a guid that is in neither list keeps the lists apart.
apart-append :
    (g : ℕ) (w : Wait) (ws us : List Wait)
    → (has g ws ≡ false) ⊎ (has g us ≡ false)
    → has w.guid us ≡ false
    → (has g (ws ++ w ∷ []) ≡ false) ⊎ (has g us ≡ false)
apart-append g w ws us a h = elim (Bool-cases (w.guid == g)) [
  | inl e ↦ let same : w.guid ≡ g = ground arith in inr (rw (← same) h)
  | inr e ↦ elim a [ inl b ↦ inl (has-append_false g w ws b e) | inr b ↦ inr b ]
]

swap_sum {ℓ κ} : {A : Type ℓ} {B : Type κ} → A ⊎ B → B ⊎ A
swap_sum (inl a) = inr a
swap_sum (inr b) = inl b

enqueue-IsQueue :
    (now : ℕ) (p : Player) (info : WaitListInfo)
    → has p.guid info.priority ≡ false
    → has p.guid info.waiting ≡ false
    → IsQueue info
    → IsQueue (enqueue now p info)
enqueue-IsQueue now p info a b q = elim (Bool-cases p.is_premium) [
  | inl e ↦
      unfold enqueue in
      rw e (record {
        priority_once = Distinct-append _ info.priority a q.priority_once;
        waiting_once = q.waiting_once;
        apart = λ g. apart-append g _ info.priority info.waiting (q.apart g) b;
      })
  | inr e ↦
      unfold enqueue in
      rw e (record {
        priority_once = q.priority_once;
        waiting_once = Distinct-append _ info.waiting b q.waiting_once;
        apart =
            λ g. swap_sum (apart-append g _ info.waiting info.priority (swap_sum (q.apart g)) a);
      })
]

cleaned-IsQueue : (now : ℕ) (info : WaitListInfo) → IsQueue info → IsQueue (cleaned now info)
unfolding cleaned
cleaned-IsQueue now info q = record {
  priority_once = Distinct-cleanup_list now info.priority q.priority_once;
  waiting_once = Distinct-cleanup_list now info.waiting q.waiting_once;
  apart = λ g. elim (q.apart g) [
    | inl a ↦ inl (has-cleanup_list now g info.priority a)
    | inr a ↦ inr (has-cleanup_list now g info.waiting a)
  ];
}

set_priority-IsQueue :
    (g t : ℕ) (info : WaitListInfo)
    → IsQueue info
    → IsQueue (record info { priority = set_timeout g t info.priority })
set_priority-IsQueue g t info q = record {
  priority_once = Distinct-set_timeout g t info.priority q.priority_once;
  waiting_once = q.waiting_once;
  apart = λ k. elim (q.apart k) [
    | inl a ↦ inl (has-set_timeout_ne k g t info.priority ∙ a)
    | inr a ↦ inr a
  ];
}

set_waiting-IsQueue :
    (g t : ℕ) (info : WaitListInfo)
    → IsQueue info
    → IsQueue (record info { waiting = set_timeout g t info.waiting })
set_waiting-IsQueue g t info q = record {
  priority_once = q.priority_once;
  waiting_once = Distinct-set_timeout g t info.waiting q.waiting_once;
  apart = λ k. elim (q.apart k) [
    | inl a ↦ inl a
    | inr a ↦ inr (has-set_timeout_ne k g t info.waiting ∙ a)
  ];
}

erase_waiting-IsQueue :
    (g : ℕ) (info : WaitListInfo)
    → IsQueue info
    → IsQueue (record info { waiting = erase g info.waiting })
erase_waiting-IsQueue g info q = record {
  priority_once = q.priority_once;
  waiting_once = Distinct-erase g info.waiting q.waiting_once;
  apart = λ k. elim (q.apart k) [ inl a ↦ inl a | inr a ↦ inr (has-erase k g info.waiting a) ];
}

at_iterator-IsQueue :
    (now online limit : ℕ) (p : Player) (info : WaitListInfo)
    → IsQueue info
    → OfLists IsQueue (at_iterator now online limit p info (find_client p.guid info)).1
at_iterator-IsQueue now online limit p info q = elim (find_client-has p.guid info) [
  | inl (s, e, _, _) ↦ rw e (elim (Bool-cases (leb (online + s) limit)) [
    | inl room ↦ unfold at_iterator in rw room tt
    | inr full ↦ unfold at_iterator in rw full (set_priority-IsQueue p.guid _ info q)
  ])
  | inr (inl (s, e, _, _)) ↦ rw e (elim (Bool-cases (leb (online + s) limit)) [
    | inl room ↦ unfold at_iterator in rw room (erase_waiting-IsQueue p.guid info q)
    | inr full ↦ unfold at_iterator in rw full (set_waiting-IsQueue p.guid _ info q)
  ])
  | inr (inr (s, e, a, b)) ↦ rw e (unfold at_iterator in enqueue-IsQueue now p info a b q)
]

pub client_login-IsQueue :
    (now online limit : ℕ) (p : Player) (info : WaitListInfo)
    → IsQueue info
    → OfLists IsQueue (client_login now online limit p info).1
client_login-IsQueue now online limit p info q =
    elim (Bool-cases (p.can_always_login || p.is_gamemaster)) [
      | inl e ↦ unfold client_login in rw e q
      | inr e ↦ elim (Bool-cases (limit == 0 || straight info)) [
        | inl s ↦ unfold client_login in rw (e, s) q
        | inr s ↦
            unfold client_login in
            rw (e, s)
              (at_iterator-IsQueue now online limit p (cleaned now info)
                (cleaned-IsQueue now info q))
      ]
    ]
  where
    straight : WaitListInfo → Bool
    straight i = no_one i.priority && no_one i.waiting && ltb online limit
