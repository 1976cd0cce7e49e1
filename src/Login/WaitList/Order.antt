-- ===== src/Login/WaitList/Order.antt =====
-- A call leaves the others of the waiting lists in their order.
use tibia_server.Base.{
  ℕ, ◌+◌, ◌≡◌, ◌⊎◌, inl, inr, refl, Bool, ◌&&◌, ◌||◌, ltb, leb, ◌==◌, List, [], ◌∷◌, ◌++◌, arith,
  Bool-cases, if◌then◌else◌, subst, Option, none, some,
}
use tibia_server.Login.WaitList.Distinct.{IsQueue, client_login-IsQueue}
use tibia_server.Login.WaitList.{
  Wait, WaitListInfo, Player, cleaned, Found, in_priority, in_waiting, absent, erase, set_timeout,
  enqueue, at_iterator, client_login, no_one, OfLists,
}

-- The guids of the others, in order.
abbrev pub others : ℕ → List Wait → List ℕ
others g [] = []
others g (w ∷ ws) = if w.guid == g then others g ws else w.guid ∷ others g ws

abbrev pub SameOthers : ℕ → WaitListInfo → WaitListInfo → Type 0
SameOthers g i j =
    (others g j.priority ≡ others g i.priority) × (others g j.waiting ≡ others g i.waiting)

others-set_timeout : (g t : ℕ) (ws : List Wait) → others g (set_timeout g t ws) ≡ others g ws
unfolding set_timeout
others-set_timeout g t [] = refl
others-set_timeout g t (w ∷ ws) = ground (arith, others-set_timeout g t ws)

others-erase : (g : ℕ) (ws : List Wait) → others g (erase g ws) ≡ others g ws
unfolding erase
others-erase g [] = refl
others-erase g (w ∷ ws) = ground (arith, others-erase g ws)

others-append :
    (g : ℕ) (w : Wait) (ws : List Wait) → w.guid ≡ g → others g (ws ++ w ∷ []) ≡ others g ws
others-append g w [] e = ground arith
others-append g w (x ∷ ws) e = ground (arith, others-append g w ws)

enqueue-SameOthers :
    (now : ℕ) (p : Player) (info : WaitListInfo) → SameOthers p.guid info (enqueue now p info)
unfolding enqueue
enqueue-SameOthers now p info = elim (Bool-cases p.is_premium) [
  | inl e ↦ rw e (others-append p.guid _ info.priority refl, refl)
  | inr e ↦ rw e (refl, others-append p.guid _ info.waiting refl)
]

at_iterator-SameOthers :
    (now online limit : ℕ) (p : Player) (info : WaitListInfo) (f : Found)
    → OfLists (SameOthers p.guid info) (at_iterator now online limit p info f).1
unfolding at_iterator
at_iterator-SameOthers now online limit p info (in_priority s) =
    elim (Bool-cases (leb (online + s) limit)) [
      | inl e ↦ rw e tt
      | inr e ↦ rw e (others-set_timeout p.guid _ info.priority, refl)
    ]
at_iterator-SameOthers now online limit p info (in_waiting s) =
    elim (Bool-cases (leb (online + s) limit)) [
      | inl e ↦ rw e (refl, others-erase p.guid info.waiting)
      | inr e ↦ rw e (refl, others-set_timeout p.guid _ info.waiting)
    ]
at_iterator-SameOthers now online limit p info (absent s) = enqueue-SameOthers now p info

-- What the call does to the others, between the lists before it and the lists after it.
abbrev pub KeepsOthers : ℕ → ℕ → WaitListInfo → WaitListInfo → Type 0
KeepsOthers now g before after = SameOthers g before after ⊎ SameOthers g (cleaned now before) after

after_cleanup :
    (now g : ℕ) (before : WaitListInfo) (o : Option WaitListInfo)
    → OfLists (SameOthers g (cleaned now before)) o
    → OfLists (KeepsOthers now g before) o
after_cleanup now g before none h = tt
after_cleanup now g before (some i) h = inr h

client_login-KeepsOthers :
    (now online limit : ℕ) (p : Player) (info : WaitListInfo)
    → OfLists (KeepsOthers now p.guid info) (client_login now online limit p info).1
client_login-KeepsOthers now online limit p info =
    elim (Bool-cases (p.can_always_login || p.is_gamemaster)) [
      | inl e ↦ unfold client_login in rw e (inl (refl, refl))
      | inr e ↦ elim (Bool-cases (limit == 0 || straight info)) [
        | inl s ↦ unfold client_login in rw (e, s) (inl (refl, refl))
        | inr s ↦
            unfold client_login in
            rw (e, s)
              (after_cleanup now p.guid info _
                (at_iterator-SameOthers now online limit p (cleaned now info) _))
      ]
    ]
  where
    straight : WaitListInfo → Bool
    straight i = no_one i.priority && no_one i.waiting && ltb online limit

-- Where no guid stands twice in the waiting lists, neither in one nor in both, a login, of any player,
-- keeps that in the lists that it leaves: it leaves none where it calls erase with an iterator into
-- the other list, of which nothing is stated. It leaves the other clients of both
-- lists in their order: it changes nothing for them, or removes those alone whose entries the
-- cleanup removes.
pub client_login-KeepsQueue :
    (now online limit : ℕ) (p : Player) (info after : WaitListInfo)
    → IsQueue info
    → (client_login now online limit p info).1 ≡ some after
    → IsQueue after × (SameOthers p.guid info after ⊎ SameOthers p.guid (cleaned now info) after)
client_login-KeepsQueue now online limit p info after q e = (
  subst (OfLists IsQueue) e (client_login-IsQueue now online limit p info q),
  subst (OfLists (KeepsOthers now p.guid info)) e
      (client_login-KeepsOthers now online limit p info),
)
