-- ===== src/Tasks.antt =====
-- compiler/src/scheduler.cpp and tasks.cpp: events that are put off, and the queue of tasks that one
-- thread runs. Each action of the threads holds a lock from its start to its end, so that a run is a
-- list of actions. Times are milliseconds, of which 0 is SYSTEM_TIME_ZERO; a function is a number.
-- `delete` and the signals between threads are left out.
pub mod Ids
pub mod Handed
pub mod Pending
pub mod Queue
mod Tests
unfoldable pub use tibia_server.Base.IdSet.{has, insert_id, erase_id}
use tibia_server.Base.{
  ℕ, zero, suc, ◌+◌, ◌-◌, ◌%◌, Bool, true, false, not, ◌&&◌, List, [], ◌∷◌, ◌++◌, Option, none,
  some, map, ltb, leb, ◌==◌, if◌then◌else◌,
}
use tibia_server.Base.Word.{u32_mod}

-- Task, and SchedulerTask with its event id.
pub record Task : Type 0 where
  pub expiration : ℕ
  pub func : ℕ
  pub event_id : ℕ

pub data ThreadState : Type 0 where
  running closing terminated : ThreadState

abbrev pub is_running : ThreadState → Bool
is_running running = true
is_running closing = false
is_running terminated = false

abbrev pub set_dont_expire : Task → Task
set_dont_expire t = record t { expiration = 0 }

unfoldable pub has_expired : ℕ → Task → Bool
has_expired now t = if t.expiration == 0 then false else ltb t.expiration now

-- The queue is a list in the order of arrival.
pub record Scheduler : Type 0 where
  pub state : ThreadState
  pub last_event_id : ℕ
  pub event_list : List Task
  pub event_ids : List ℕ

abbrev pub ids : List Task → List ℕ
ids ts = map (λ t. t.event_id) ts

-- `++lastEventId`, which skips 0.
unfoldable pub next_event_id : ℕ → ℕ
next_event_id last = let n = (last + 1) % u32_mod in if n == 0 then 1 else n

-- A task with an id, behind the others, where `last` is the last id given.
abbrev pub push_event : ℕ → Task → Scheduler → ℕ × Scheduler
push_event last t s = (
  t.event_id,
  record s {
    last_event_id = last;
    event_list = s.event_list ++ t ∷ [];
    event_ids = insert_id t.event_id s.event_ids;
  },
)

unfoldable pub add_event : Task → Scheduler → ℕ × Scheduler
add_event t s =
    if not (is_running s.state)
    then (0, s)
    else if t.event_id == 0
    then (let n = next_event_id s.last_event_id in push_event n (record t { event_id = n }) s)
    else push_event s.last_event_id t s

unfoldable pub stop_event : ℕ → Scheduler → Bool × Scheduler
stop_event id s =
    if id == 0
    then (false, s)
    else if has id s.event_ids
    then (true, record s { event_ids = erase_id id s.event_ids })
    else (false, s)

unfoldable pub shutdown : Scheduler → Scheduler
shutdown s = record s { state = terminated; event_list = []; event_ids = [] }

-- The task at an index, and the others.
unfoldable pub take_at : ℕ → List Task → Option (Task × List Task)
take_at k [] = none
take_at zero (t ∷ ts) = some (t, ts)
take_at (suc k) (t ∷ ts) = elim (take_at k ts) [ none ↦ none | some r ↦ some (r.0, t ∷ r.1) ]

-- No task of the list is due before `t`.
unfoldable pub all_later : Task → List Task → Bool
all_later t [] = true
all_later t (u ∷ us) = leb t.expiration u.expiration && all_later t us

-- What the thread does with the task on top once its time has come: `some` is what it hands to the
-- dispatcher.
abbrev pub pop_event : Task → List Task → Scheduler → Option Task × Scheduler
pop_event t ts s =
    if has t.event_id s.event_ids
    then (
      some (set_dont_expire t),
      record s { event_list = ts; event_ids = erase_id t.event_id s.event_ids },
    )
    else (none, record s { event_list = ts })

-- The part of Scheduler::threadMain after a timeout, with a queue that is not empty. The top of the
-- queue is a task that no other is due before; where there are several, `k` says which one it is. At
-- any other `k` nothing happens.
unfoldable pub on_timeout : ℕ → Scheduler → Option Task × Scheduler
on_timeout k s = elim (take_at k s.event_list) [
  | none ↦ (none, s)
  | some (t, ts) ↦ if all_later t ts then pop_event t ts s else (none, s)
]

abbrev pub is_empty : List Task → Bool
is_empty [] = true
is_empty (t ∷ ts) = false

pub data Action : Type 0 where
  add_action : Task → Action
  stop_action timeout_action : ℕ → Action
  shutdown_action : Action

-- The scheduler after an action whose behaviour is defined, and the task that the action hands to the dispatcher.
unfoldable pub step : Action → Scheduler → Option Task × Scheduler
unfolding add_event stop_event on_timeout shutdown
step (add_action t) s = (none, (add_event t s).1)
step (stop_action id) s = (none, (stop_event id s).1)
step (timeout_action k) s = on_timeout k s
step shutdown_action s = (none, shutdown s)

abbrev pub cons_id : Option Task → List ℕ → List ℕ
cons_id none ns = ns
cons_id (some t) ns = t.event_id ∷ ns

-- threadMain calls top() and pop() after a timeout without a look at the queue, which a shutdown may
-- have emptied meanwhile: what follows then is not defined.
abbrev pub is_defined : Action → Scheduler → Bool
is_defined (add_action t) s = true
is_defined (stop_action id) s = true
is_defined (timeout_action k) s = not (is_empty s.event_list)
is_defined shutdown_action s = true

-- The ids of the events handed to the dispatcher in a run, in order, as far as the run is defined.
unfoldable pub handed : List Action → Scheduler → List ℕ
handed [] s = []
handed (a ∷ rest) s =
    let later = handed rest (step a s).1 in
    if is_defined a s then cons_id (step a s).0 later else []

pub record Dispatcher : Type 0 where
  pub state : ThreadState
  pub task_list : List Task
  pub dispatcher_cycle : ℕ
  pub executed : List ℕ

-- Dispatcher::addTask(task, push_front)
unfoldable pub add_task : Task → Bool → Dispatcher → Dispatcher
add_task t push_front d =
    if not (is_running d.state)
    then d
    else if push_front
    then record d { task_list = t ∷ d.task_list }
    else record d { task_list = d.task_list ++ t ∷ [] }

-- The function of the task that Dispatcher::shutdown makes, which ends the thread.
abbrev pub shutdown_func : ℕ
shutdown_func = 0

unfoldable pub shutdown_dispatcher : Dispatcher → Dispatcher
shutdown_dispatcher d = record d {
  task_list = d.task_list ++ record { expiration = 0; func = shutdown_func; event_id = 0 } ∷ [];
}

-- Tasks that are added one after the other, each with its push_front.
unfoldable pub add_tasks : List (Task × Bool) → Dispatcher → Dispatcher
unfolding add_task
add_tasks [] d = d
add_tasks (c ∷ cs) d = add_tasks cs (add_task c.0 c.1 d)

abbrev pub is_terminated : ThreadState → Bool
is_terminated terminated = true
is_terminated running = false
is_terminated closing = false

-- `calls` are the calls of Dispatcher::addTask that each function makes, which is code of the game.
module _ (calls : ℕ → List (Task × Bool)) where
  -- The lock is free while the function runs.
  unfoldable pub execute : Task → Dispatcher → Dispatcher
  unfolding add_tasks
  execute t d = add_tasks (calls t.func) (record d {
    state = if t.func == shutdown_func then terminated else d.state;
    dispatcher_cycle = (d.dispatcher_cycle + 1) % 0x1_0000_0000_0000_0000;
    executed = d.executed ++ t.func ∷ [];
  })

  abbrev pub run_task : ℕ → Task → Dispatcher → Dispatcher
  run_task now t d = if has_expired now t then d else execute t d

  -- One round of Dispatcher::threadMain at the time `now`; `executed` are the functions called so
  -- far.
  unfoldable pub dispatch : ℕ → Dispatcher → Dispatcher
  unfolding has_expired execute
  dispatch now d = elim d.task_list [
    | [] ↦ d
    | t ∷ ts ↦ if is_terminated d.state then d else run_task now t (record d { task_list = ts })
  ]
