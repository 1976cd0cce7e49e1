-- ===== src/Login/Tests.antt =====
-- The login theorems at concrete attempts and queues.
use tibia_server.Base.{ℕ, ◌≡◌, ◌⊎◌, refl, List, [], ◌∷◌, ◌++◌, none, true, false, arith}
use tibia_server.Login.Ban.{answers_to}
use tibia_server.Login.Ban.Flood.{AllTrue, answers_to-burst}
use tibia_server.Login.WaitList.{
  WaitListInfo, Player, client_login, cleaned, cleanup_list, find_slot, foreign_erase, at_iterator,
  enqueue, get_timeout, get_time, find_client, is_expired,
}
use tibia_server.Login.WaitList.Slots.{
  IsRight, client_login-IsRight, client_login-foreign_erase, cleanup_list-stale,
}
use tibia_server.Login.WaitList.Order.{SameOthers, client_login-KeepsQueue}
use tibia_server.Login.WaitList.Distinct.{IsQueue}

abbrev flood : List (ℕ × ℕ)
flood = (100, 7) ∷ (200, 7) ∷ (250, 9) ∷ (300, 7) ∷ (400, 7) ∷ (500, 7) ∷ (600, 7) ∷ (700, 7) ∷ []

answers_to-burst_example : ¬ AllTrue (answers_to 7 flood (λ ip. none))
answers_to-burst_example =
    answers_to-burst 7 100 (200 ∷ 300 ∷ 400 ∷ 500 ∷ 600 ∷ 700 ∷ []) flood (λ ip. none) refl
      (omega arith) (omega arith)

abbrev knight : Player
knight = record { guid = 5; can_always_login = false; is_gamemaster = false; is_premium = false }

abbrev sponsor : Player
sponsor = record { guid = 8; can_always_login = false; is_gamemaster = false; is_premium = true }

abbrev queue : WaitListInfo
queue = record {
  priority = record { timeout = 30000; guid = 8 } ∷ [];
  waiting = record { timeout = 40000; guid = 3 } ∷ [];
}

client_login-IsRight_example :
    IsRight knight 100 100 (cleaned 1000 queue) (client_login 1000 100 100 knight queue)
client_login-IsRight_example =
    client_login-IsRight 1000 100 100 knight queue refl (λ e. absurd (omega arith))

sponsor-foreign_erase : (client_login 1000 90 100 sponsor queue).0 ≡ foreign_erase
unfolding cleanup_list find_slot
sponsor-foreign_erase =
    client_login-foreign_erase 1000 90 100 1 sponsor queue refl refl (omega arith)

stale_entries : cleanup_list 50000 queue.waiting ≡ queue.waiting
stale_entries = cleanup_list-stale 50000 queue.waiting (omega arith) (omega arith)

queue-IsQueue : IsQueue queue
queue-IsQueue = record {
  priority_once = (refl, tt);
  waiting_once = (refl, tt);
  apart = λ g. ground arith;
}

-- The queue with the knight at its end.
abbrev queue' : WaitListInfo
queue' = record queue { waiting = queue.waiting ++ record { timeout = 21000; guid = 5 } ∷ [] }

client_login-KeepsQueue_example :
    IsQueue queue' × (SameOthers 5 queue queue' ⊎ SameOthers 5 (cleaned 1000 queue) queue')
unfolding client_login at_iterator enqueue get_timeout get_time find_client find_slot cleaned
    cleanup_list is_expired
client_login-KeepsQueue_example =
    client_login-KeepsQueue 1000 100 100 knight queue queue' queue-IsQueue refl
