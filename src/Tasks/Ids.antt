-- ===== src/Tasks/Ids.antt =====
-- The set of the ids of the events that wait.
pub use tibia_server.Base.IdSet.{
  has-erase_id, has-erase_id-false, has-erase_id-true, has-insert_id, has-append,
  has-erase_id_other,
}
use tibia_server.Base.{
  subst, ℕ, zero, suc, ◌<◌, true, false, List, [], ◌∷◌, ◌==◌, ◌≡◌, inl, inr, refl, arith, ◌+◌,
  Option, none, some, if◌then◌else◌, Bool-cases, Option-cases,
}
use tibia_server.Base.Word.{u32_mod}
use tibia_server.Tasks.{
  Task, has, erase_id, next_event_id, ids, take_at, Scheduler, on_timeout, all_later,
  set_dont_expire,
}

-- Before the counter wraps around, the next id is greater than the last.
pub next_event_id-lt : (n : ℕ) → n + 1 < u32_mod → next_event_id n ≡ n + 1
unfolding next_event_id
next_event_id-lt n h = ground arith

-- Taking a task out leaves the ids of the others.
abbrev Takes : ℕ → List Task → Option (Task × List Task) → Type 0
Takes n l none = Unit
Takes n l (some r) = has n (ids l) ≡ (if r.0.event_id == n then true else has n (ids r.1))

Takes-cons :
    (n : ℕ) (u : Task) (us : List Task) (o : Option (Task × List Task))
    → Takes n us o
    → Takes n (u ∷ us) (elim o [ none ↦ none | some r ↦ some (r.0, u ∷ r.1) ])
unfolding has
Takes-cons n u us none h = h
Takes-cons n u us (some (t, ts)) h = ground (arith, h)

take_at-Takes : (n k : ℕ) (l : List Task) → Takes n l (take_at k l)
unfolding take_at has
take_at-Takes n k [] = tt
take_at-Takes n zero (u ∷ us) = refl
take_at-Takes n (suc k) (u ∷ us) = Takes-cons n u us (take_at k us) (take_at-Takes n k us)

pub has-take_at :
    (k : ℕ) (l : List Task) (t : Task) (ts : List Task)
    → take_at k l ≡ some (t, ts)
    → (n : ℕ) → has n (ids l) ≡ (if t.event_id == n then true else has n (ids ts))
has-take_at k l t ts h n = subst (Takes n l) h (take_at-Takes n k l)

-- A property of what on_timeout gives holds when it holds of each of its ends.
pub on_timeout-cases {ℓ} :
    (P : Option Task × Scheduler → Type ℓ) (k : ℕ) (s : Scheduler)
    → P (none, s)
    → ((t : Task) (ts : List Task)
        → take_at k s.event_list ≡ some (t, ts)
        → has t.event_id s.event_ids ≡ true
        → P (
          some (set_dont_expire t),
          record s { event_list = ts; event_ids = erase_id t.event_id s.event_ids },
        ))
    → ((t : Task) (ts : List Task)
        → take_at k s.event_list ≡ some (t, ts)
        → has t.event_id s.event_ids ≡ false
        → P (none, record s { event_list = ts }))
    → P (on_timeout k s)
unfolding on_timeout
on_timeout-cases P k s still pops drops = elim (Option-cases (take_at k s.event_list)) [
  | inl e ↦ rw (on_timeout, e) still
  | inr ((t, ts), e) ↦ elim (Bool-cases (all_later t ts)) [
    | inl later ↦ elim (Bool-cases (has t.event_id s.event_ids)) [
      | inl h ↦ rw (on_timeout, e, later, h) (pops t ts e h)
      | inr h ↦ rw (on_timeout, e, later, h) (drops t ts e h)
    ]
    | inr later ↦ rw (on_timeout, e, later) still
  ]
]
