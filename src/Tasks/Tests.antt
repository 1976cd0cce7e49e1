-- ===== src/Tasks/Tests.antt =====
-- Runs of the scheduler and the dispatcher, and the theorems about them on concrete ones.
use tibia_server.Base.{ℕ, ◌+◌, Bool, List, [], ◌∷◌, ◌≡◌, refl, false, arith}
use tibia_server.Tasks.{
  Task, Scheduler, Action, dispatch, execute, add_tasks, add_task, has_expired, running, add_action,
  stop_action, timeout_action, has, handed, step, stop_event, take_at, all_later, insert_id,
  next_event_id, erase_id,
}
use tibia_server.Tasks.Handed.{AllGiven, NoRepeat, handed-IsOnce}
use tibia_server.Tasks.Pending.{AllPending, Fate, step-IsKept}
use tibia_server.Tasks.Queue.{IsDrained, at_work, rounds, rounds-IsDrained}

abbrev late : Task
late = record { expiration = 900; func = 5; event_id = 0 }

abbrev soon : Task
soon = record { expiration = 300; func = 6; event_id = 0 }

abbrev fresh : Scheduler
fresh = record { state = running; last_event_id = 0; event_list = []; event_ids = [] }

-- The second event is due first, and the first one is stopped before its time.
abbrev morning : List Action
morning =
    add_action late ∷ add_action soon ∷ timeout_action 1 ∷ stop_action 1 ∷ timeout_action 0 ∷ []

handed-morning : handed morning fresh ≡ 2 ∷ []
unfolding handed step take_at all_later has insert_id next_event_id erase_id
handed-morning = refl

abbrev busy : Scheduler
busy = record {
  state = running;
  last_event_id = 1;
  event_list = record late { event_id = 1 } ∷ [];
  event_ids = 1 ∷ [];
}

busy-AllGiven : AllGiven busy
unfolding has
busy-AllGiven n p = grind (arith, p)

handed-IsOnce_example :
    NoRepeat (handed morning busy) × (has 1 (handed morning (stop_event 1 busy).1) ≡ false)
handed-IsOnce_example =
    handed-IsOnce morning busy 1 (refl, (refl, (tt, (tt, (tt, tt))))) (omega arith) busy-AllGiven
      (omega arith) (omega arith)

busy-AllPending : AllPending busy
unfolding has
busy-AllPending n p = p

step-IsKept_example : AllPending (step (timeout_action 0) busy).1 × Fate 1 (timeout_action 0) busy
unfolding has
step-IsKept_example = step-IsKept 1 (timeout_action 0) busy busy-AllPending refl

-- Each function adds one task, behind the others.
abbrev calls : ℕ → List (Task × Bool)
calls f = (record { expiration = 0; func = f + 10; event_id = 0 }, false) ∷ []

abbrev at_noon : List ℕ
at_noon = 500 ∷ 500 ∷ []

rounds-IsDrained_example :
    IsDrained calls at_noon
      (at_work (late ∷ soon ∷ []) 0 [])
      (rounds calls at_noon (at_work (late ∷ soon ∷ []) 0 []))
rounds-IsDrained_example =
    rounds-IsDrained calls at_noon (late ∷ soon ∷ []) 0 [] (λ f. (refl, tt)) (omega arith)
      (refl, (refl, tt))

-- The first task is called and adds another, and the second one has expired.
at_noon-left :
    (rounds calls at_noon (at_work (late ∷ soon ∷ []) 0 [])).task_list
    ≡ record { expiration = 0; func = 15; event_id = 0 } ∷ []
unfolding rounds dispatch execute add_tasks add_task has_expired
at_noon-left = refl
