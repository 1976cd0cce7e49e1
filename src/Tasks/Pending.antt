-- ===== src/Tasks/Pending.antt =====
-- Each id that waits belongs to a task of the scheduler's queue.
use tibia_server.Base.{
  ℕ, ◌==◌, true, false, List, [], ◌∷◌, ◌++◌, ◌≡◌, refl, inl, inr, ap, arith, some, Bool-cases, ◌⊎◌,
  ◌∙◌,
}
use tibia_server.Tasks.{
  Task, Scheduler, Action, is_running, add_action, stop_action, timeout_action, shutdown_action,
  has, ids, step, stop_event, add_event, on_timeout, next_event_id, take_at, insert_id,
  set_dont_expire,
}
use tibia_server.Tasks.Ids.{
  has-erase_id, has-erase_id-true, has-insert_id, has-append, has-take_at, on_timeout-cases,
  has-erase_id_other,
}

abbrev pub AllPending : Scheduler → Type 0
AllPending s = (n : ℕ) → has n s.event_ids ≡ true → has n (ids s.event_list) ≡ true

ids-append : (ts : List Task) (t : Task) → ids (ts ++ t ∷ []) ≡ ids ts ++ t.event_id ∷ []
ids-append [] t = refl
ids-append (u ∷ us) t = ap (λ ns. u.event_id ∷ ns) (ids-append us t)

push-AllPending :
    (s : Scheduler) (t : Task) (n : ℕ)
    → AllPending s
    → has n (insert_id t.event_id s.event_ids) ≡ true
    → has n (ids (s.event_list ++ t ∷ [])) ≡ true
push-AllPending s t n g p = rw (ids-append s.event_list t) (
    grind (
      arith,
      has-append n (ids s.event_list) t.event_id,
      has-insert_id n t.event_id s.event_ids,
      p,
      g n,
    ))

add_event-AllPending : (t : Task) (s : Scheduler) → AllPending s → AllPending (add_event t s).1
unfolding add_event
add_event-AllPending t s g = elim (Bool-cases (is_running s.state)) [
  | inl r ↦ elim (Bool-cases (t.event_id == 0)) [
    | inl e ↦
        rw (add_event, r, e)
          (λ n. push-AllPending s (record t { event_id = next_event_id s.last_event_id }) n g)
    | inr e ↦ rw (add_event, r, e) (λ n. push-AllPending s t n g)
  ]
  | inr r ↦ rw (add_event, r) g
]

stop_event-AllPending : (k : ℕ) (s : Scheduler) → AllPending s → AllPending (stop_event k s).1
unfolding stop_event
stop_event-AllPending k s g = elim (Bool-cases (k == 0)) [
  | inl z ↦ rw (stop_event, z) g
  | inr z ↦ elim (Bool-cases (has k s.event_ids)) [
    | inl x ↦ rw (stop_event, z, x) (λ n p. g n (has-erase_id-true n k s.event_ids p))
    | inr x ↦ rw (stop_event, z, x) g
  ]
]

on_timeout-AllPending : (k : ℕ) (s : Scheduler) → AllPending s → AllPending (on_timeout k s).1
on_timeout-AllPending k s g =
    on_timeout-cases (λ r. AllPending r.1) k s g
      (λ t ts e x n p.
        kept t ts e n (has-erase_id-true n t.event_id s.event_ids p)
          (λ same. grind (arith, has-erase_id t.event_id s.event_ids, p, same)))
      (λ t ts e x n p. kept t ts e n p (λ same. grind (arith, x, p, same)))
  where
    kept :
        (t : Task) (ts : List Task)
        → take_at k s.event_list ≡ some (t, ts)
        → (n : ℕ) → has n s.event_ids ≡ true
        → ((t.event_id == n) ≡ true → has n (ids ts) ≡ true)
        → has n (ids ts) ≡ true
    kept t ts e n p clash = ground (arith, has-take_at k s.event_list t ts e n, g n p, clash)

step-AllPending : (a : Action) (s : Scheduler) → AllPending s → AllPending (step a s).1
unfolding step has
step-AllPending (add_action t) s g = add_event-AllPending t s g
step-AllPending (stop_action k) s g = stop_event-AllPending k s g
step-AllPending (timeout_action k) s g = on_timeout-AllPending k s g
step-AllPending shutdown_action s g = λ n p. p

-- What an action may make of an event that waits: it waits on, in the queue, or this very action stops
-- it, hands it over, or shuts the scheduler down.
pub data Fate (n : ℕ) (a : Action) (s : Scheduler) : Type 0 where
  waits_on :
      has n (step a s).1.event_ids ≡ true → has n (ids (step a s).1.event_list) ≡ true → Fate n a s
  stopped : a ≡ stop_action n → Fate n a s
  handed_over : (t : Task) → (step a s).0 ≡ some t → t.event_id ≡ n → Fate n a s
  shut_down : a ≡ shutdown_action → Fate n a s

add_event-has :
    (n : ℕ) (t : Task) (s : Scheduler)
    → has n s.event_ids ≡ true
    → has n (add_event t s).1.event_ids ≡ true
unfolding add_event
add_event-has n t s h = elim (Bool-cases (is_running s.state)) [
  | inl r ↦ elim (Bool-cases (t.event_id == 0)) [
    | inl e ↦
        rw (add_event, r, e)
          (grind (arith, has-insert_id n (next_event_id s.last_event_id) s.event_ids, h))
    | inr e ↦ rw (add_event, r, e) (grind (arith, has-insert_id n t.event_id s.event_ids, h))
  ]
  | inr r ↦ rw (add_event, r) h
]

stop_event-has :
    (n k : ℕ) (s : Scheduler)
    → (n == k) ≡ false
    → has n s.event_ids ≡ true
    → has n (stop_event k s).1.event_ids ≡ true
unfolding stop_event
stop_event-has n k s other h = elim (Bool-cases (k == 0)) [
  | inl z ↦ rw (stop_event, z) h
  | inr z ↦ elim (Bool-cases (has k s.event_ids)) [
    | inl x ↦ rw (stop_event, z, x) (has-erase_id_other n k s.event_ids other ∙ h)
    | inr x ↦ rw (stop_event, z, x) h
  ]
]

-- A timeout hands an event over or leaves it waiting.
on_timeout-has :
    (n k : ℕ) (s : Scheduler)
    → has n s.event_ids ≡ true
    → (has n (on_timeout k s).1.event_ids ≡ true)
      ⊎ ((t : Task) × ((on_timeout k s).0 ≡ some t) × (t.event_id ≡ n))
on_timeout-has n k s h =
    on_timeout-cases
      (λ r. (has n r.1.event_ids ≡ true) ⊎ ((t : Task) × (r.0 ≡ some t) × (t.event_id ≡ n))) k s
      (inl h)
      (λ t ts e x. elim (Bool-cases (n == t.event_id)) [
        | inl same ↦ inr (set_dont_expire t, refl, ground (arith, same))
        | inr other ↦ inl (has-erase_id_other n t.event_id s.event_ids other ∙ h)
      ])
      (λ t ts e x. inl h)

waiting-Fate :
    (n : ℕ) (a : Action) (s : Scheduler) → AllPending s → has n s.event_ids ≡ true → Fate n a s
unfolding step
waiting-Fate n (add_action t) s g h =
    let on = add_event-has n t s h in waits_on on (add_event-AllPending t s g n on)
waiting-Fate n (stop_action k) s g h = elim (Bool-cases (n == k)) [
  | inl same ↦ let e : k ≡ n = ground (arith, same) in stopped (ap stop_action e)
  | inr other ↦
      let on = stop_event-has n k s other h in waits_on on (stop_event-AllPending k s g n on)
]
waiting-Fate n (timeout_action k) s g h = elim (on_timeout-has n k s h) [
  | inl on ↦ waits_on on (on_timeout-AllPending k s g n on)
  | inr (t, out, e) ↦ handed_over t out e
]
waiting-Fate n shutdown_action s g h = shut_down refl

-- Where each id that waits belongs to a task of the queue, an action keeps that, and an event that
-- waits goes on waiting, in the queue, unless this very action stops it, hands it to the dispatcher
-- or shuts the scheduler down.
pub step-IsKept :
    (n : ℕ) (a : Action) (s : Scheduler)
    → AllPending s
    → has n s.event_ids ≡ true
    → AllPending (step a s).1 × Fate n a s
step-IsKept n a s g h = (step-AllPending a s g, waiting-Fate n a s g h)
