-- ===== src/Tasks/Handed.antt =====
-- What the scheduler hands to the dispatcher in a run: no event that was stopped, and none twice.
use tibia_server.Base.{
  ℕ, ◌+◌, ◌<◌, ◌≤◌, true, false, List, [], ◌∷◌, ◌≡◌, inl, inr, refl, arith, ◌==◌, Bool-cases,
}
use tibia_server.Base.Word.{u32_mod}
use tibia_server.Tasks.{
  Task, Scheduler, Action, is_running, add_action, stop_action, timeout_action, shutdown_action,
  has, step, handed, stop_event, add_event, on_timeout, shutdown, cons_id, is_defined,
}
use tibia_server.Tasks.Ids.{
  has-erase_id, has-erase_id-false, has-erase_id-true, has-insert_id, next_event_id-lt,
  on_timeout-cases,
}

-- A task comes to add_event with no id.
abbrev pub IsNew : Action → Type 0
IsNew (add_action t) = t.event_id ≡ 0
IsNew (stop_action id) = Unit
IsNew (timeout_action k) = Unit
IsNew shutdown_action = Unit

abbrev pub AllNew : List Action → Type 0
AllNew [] = Unit
AllNew (a ∷ rest) = IsNew a × AllNew rest

abbrev pub add_count : Action → ℕ
add_count (add_action t) = 1
add_count (stop_action id) = 0
add_count (timeout_action k) = 0
add_count shutdown_action = 0

abbrev pub adds : List Action → ℕ
adds [] = 0
adds (a ∷ rest) = add_count a + adds rest

-- An id that was given out and waits no longer.
pub record IsGone (id : ℕ) (s : Scheduler) : Type 0 where
  pub given : id ≤ s.last_event_id
  pub absent : has id s.event_ids ≡ false

add_event-IsGone :
    (id : ℕ) (t : Task) (s : Scheduler)
    → t.event_id ≡ 0
    → s.last_event_id + 1 < u32_mod
    → IsGone id s
    → IsGone id (add_event t s).1
unfolding add_event
add_event-IsGone id t s e h g = elim (Bool-cases (is_running s.state)) [
  | inl r ↦
      rw (r, e, next_event_id-lt s.last_event_id h)
        (record {
          given = omega (arith, g.given);
          absent =
              ground (arith, has-insert_id id (s.last_event_id + 1) s.event_ids, g.given, g.absent);
        })
  | inr r ↦ rw r g
]

on_timeout-IsGone : (id k : ℕ) (s : Scheduler) → IsGone id s → IsGone id (on_timeout k s).1
on_timeout-IsGone id k s g =
    on_timeout-cases (λ r. IsGone id r.1) k s g
      (λ t ts e h. record {
        given = g.given;
        absent = has-erase_id-false id t.event_id s.event_ids g.absent;
      })
      (λ t ts e h. record { given = g.given; absent = g.absent })

stop_event-IsGone : (id k : ℕ) (s : Scheduler) → IsGone id s → IsGone id (stop_event k s).1
unfolding stop_event
stop_event-IsGone id k s g = elim (Bool-cases (k == 0)) [
  | inl z ↦ rw z g
  | inr z ↦ elim (Bool-cases (has k s.event_ids)) [
    | inl h ↦
        rw (z, h)
          (record { given = g.given; absent = has-erase_id-false id k s.event_ids g.absent })
    | inr h ↦ rw (z, h) g
  ]
]

step-IsGone :
    (id : ℕ) (a : Action) (s : Scheduler)
    → IsNew a
    → s.last_event_id + add_count a < u32_mod
    → IsGone id s
    → IsGone id (step a s).1
unfolding step has
step-IsGone id (add_action t) s e h g = add_event-IsGone id t s e h g
step-IsGone id (stop_action k) s e h g = stop_event-IsGone id k s g
step-IsGone id (timeout_action k) s e h g = on_timeout-IsGone id k s g
step-IsGone id shutdown_action s e h g = record { given = g.given; absent = refl }

-- The counter moves only by what is added.
add_event-last :
    (t : Task) (s : Scheduler)
    → t.event_id ≡ 0
    → s.last_event_id + 1 < u32_mod
    → (add_event t s).1.last_event_id ≤ s.last_event_id + 1
unfolding add_event
add_event-last t s e h = elim (Bool-cases (is_running s.state)) [
  | inl r ↦ rw (r, e, next_event_id-lt s.last_event_id h) (omega arith)
  | inr r ↦ rw r (omega arith)
]

stop_event-last : (k : ℕ) (s : Scheduler) → (stop_event k s).1.last_event_id ≡ s.last_event_id
unfolding stop_event
stop_event-last k s = ground arith

step-last :
    (a : Action) (s : Scheduler)
    → IsNew a
    → s.last_event_id + add_count a < u32_mod
    → (step a s).1.last_event_id ≤ s.last_event_id + add_count a
unfolding step shutdown
step-last (add_action t) s e h = add_event-last t s e h
step-last (stop_action k) s e h = omega (arith, stop_event-last k s)
step-last (timeout_action k) s e h =
    on_timeout-cases (λ r. r.1.last_event_id ≤ s.last_event_id + 0) k s (omega arith)
      (λ t ts x y. omega arith) (λ t ts x y. omega arith)
step-last shutdown_action s e h = omega arith

-- No step hands over an event that waits no longer.
step-out :
    (id : ℕ) (a : Action) (s : Scheduler) (rest : List ℕ)
    → IsGone id s
    → has id rest ≡ false
    → has id (cons_id (step a s).0 rest) ≡ false
unfolding step has
step-out id (add_action t) s rest g h = h
step-out id (stop_action k) s rest g h = h
step-out id (timeout_action k) s rest g h =
    on_timeout-cases (λ r. has id (cons_id r.0 rest) ≡ false) k s h
      (λ t ts e p. grind (arith, p, g.absent, h)) (λ t ts e p. h)
step-out id shutdown_action s rest g h = h

handed-gone :
    (id : ℕ) (acts : List Action) (s : Scheduler)
    → AllNew acts
    → s.last_event_id + adds acts < u32_mod
    → IsGone id s
    → has id (handed acts s) ≡ false
unfolding handed has
handed-gone id [] s new h g = refl
handed-gone id (a ∷ rest) s new h g =
    let small : s.last_event_id + add_count a < u32_mod = omega arith in
    elim (Bool-cases (is_defined a s)) [
      | inl d ↦ rw d (
          step-out id a s (handed rest (step a s).1) g (
            handed-gone id rest (step a s).1 new.1 (omega (arith, step-last a s new.0 small))
              (step-IsGone id a s new.0 small g)))
      | inr d ↦ rw d refl
    ]

==-zero : (n : ℕ) → 0 < n → (n == 0) ≡ false
==-zero n h = ground arith

stop_event-absent : (id : ℕ) (s : Scheduler) → 0 < id → has id (stop_event id s).1.event_ids ≡ false
unfolding stop_event
stop_event-absent id s pos = elim (Bool-cases (has id s.event_ids)) [
  | inl h ↦ rw (h, ==-zero id pos) (has-erase_id id s.event_ids)
  | inr h ↦ rw (h, ==-zero id pos) h
]

handed-stop_event :
    (id : ℕ) (acts : List Action) (s : Scheduler)
    → 0 < id
    → id ≤ s.last_event_id
    → AllNew acts
    → s.last_event_id + adds acts < u32_mod
    → has id (handed acts (stop_event id s).1) ≡ false
handed-stop_event id acts s pos given new h =
    handed-gone id acts (stop_event id s).1 new (omega (arith, stop_event-last id s))
      (record { given = omega (arith, stop_event-last id s); absent = stop_event-absent id s pos })

-- No id that waits is greater than the last one given.
abbrev pub AllGiven : Scheduler → Type 0
AllGiven s = (n : ℕ) → has n s.event_ids ≡ true → n ≤ s.last_event_id

abbrev pub NoRepeat : List ℕ → Type 0
NoRepeat [] = Unit
NoRepeat (n ∷ ns) = (has n ns ≡ false) × NoRepeat ns

step-AllGiven :
    (a : Action) (s : Scheduler)
    → IsNew a
    → s.last_event_id + add_count a < u32_mod
    → AllGiven s
    → AllGiven (step a s).1
unfolding step add_event stop_event has
step-AllGiven (add_action t) s e h g = elim (Bool-cases (is_running s.state)) [
  | inl r ↦
      rw (add_event, r, e, next_event_id-lt s.last_event_id h)
        (λ n p. grind (arith, has-insert_id n (s.last_event_id + 1) s.event_ids, p, g n))
  | inr r ↦ rw (add_event, r) g
]
step-AllGiven (stop_action k) s e h g = elim (Bool-cases (k == 0)) [
  | inl z ↦ rw (stop_event, z) g
  | inr z ↦ elim (Bool-cases (has k s.event_ids)) [
    | inl x ↦ rw (stop_event, z, x) (λ n p. g n (has-erase_id-true n k s.event_ids p))
    | inr x ↦ rw (stop_event, z, x) g
  ]
]
step-AllGiven (timeout_action k) s e h g =
    on_timeout-cases (λ r. AllGiven r.1) k s g
      (λ t ts x y n p. g n (has-erase_id-true n t.event_id s.event_ids p)) (λ t ts x y. g)
step-AllGiven shutdown_action s e h g = (λ n p. grind (arith, p))

step-NoRepeat :
    (a : Action) (s : Scheduler) (rest : Scheduler → List ℕ)
    → AllGiven s
    → ((id : ℕ) → IsGone id (step a s).1 → has id (rest (step a s).1) ≡ false)
    → NoRepeat (rest (step a s).1)
    → NoRepeat (cons_id (step a s).0 (rest (step a s).1))
unfolding step
step-NoRepeat (add_action t) s rest g out h = h
step-NoRepeat (stop_action k) s rest g out h = h
step-NoRepeat (timeout_action k) s rest g out h =
    on_timeout-cases
      (λ r.
        ((id : ℕ) → IsGone id r.1 → has id (rest r.1) ≡ false)
        → NoRepeat (rest r.1)
        → NoRepeat (cons_id r.0 (rest r.1)))
      k s (λ o n. n)
      (λ t ts e p o n. (
        o t.event_id
            (record { given = g t.event_id p; absent = has-erase_id t.event_id s.event_ids }),
        n,
      ))
      (λ t ts e p o n. n) out h
step-NoRepeat shutdown_action s rest g out h = h

handed-NoRepeat :
    (acts : List Action) (s : Scheduler)
    → AllNew acts
    → s.last_event_id + adds acts < u32_mod
    → AllGiven s
    → NoRepeat (handed acts s)
unfolding handed
handed-NoRepeat [] s new h g = tt
handed-NoRepeat (a ∷ rest) s new h g =
    let small : s.last_event_id + add_count a < u32_mod = omega arith in
    let later : (step a s).1.last_event_id + adds rest < u32_mod =
      omega (arith, step-last a s new.0 small) in
    elim (Bool-cases (is_defined a s)) [
      | inl d ↦ rw d (
          step-NoRepeat a s (handed rest) g
            (λ id gone. handed-gone id rest (step a s).1 new.1 later gone)
            (handed-NoRepeat rest (step a s).1 new.1 later (step-AllGiven a s new.0 small g)))
      | inr d ↦ rw d tt
    ]

-- In any run, as far as it is defined, that adds tasks without an id before the ids wrap around, no
-- event is handed to the dispatcher twice, where the ids that wait at the start have all been given
-- out; and an event that was stopped before the run is not handed to it at all.
pub handed-IsOnce :
    (acts : List Action) (s : Scheduler) (id : ℕ)
    → AllNew acts
    → s.last_event_id + adds acts < u32_mod
    → AllGiven s
    → 0 < id
    → id ≤ s.last_event_id
    → NoRepeat (handed acts s) × (has id (handed acts (stop_event id s).1) ≡ false)
handed-IsOnce acts s id new h g pos given =
    (handed-NoRepeat acts s new h g, handed-stop_event id acts s pos given new h)
