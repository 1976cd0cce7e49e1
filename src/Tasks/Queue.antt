-- ===== src/Tasks/Queue.antt =====
-- The dispatcher runs its tasks in the order of its queue.
use tibia_server.Base.{
  ℕ, ◌+◌, ◌%◌, ◌≤◌, ◌==◌, ltb, ◌&&◌, not, Bool, false, List, [], ◌∷◌, ◌++◌, ◌≡◌, refl, sym, ◌∙◌,
  inl, inr, ap, subst, arith, map, All, length, drop, if◌then◌else◌, Bool-cases,
}
use tibia_server.Tasks.{
  Task, Dispatcher, running, has_expired, dispatch, execute, add_task, add_tasks, shutdown_func,
}

-- A task is passed over that has an expiration, before the present moment.
abbrev pub is_over : ℕ → Task → Bool
is_over now t = not (t.expiration == 0) && ltb t.expiration now

has_expired-is_over : (now : ℕ) (t : Task) → has_expired now t ≡ is_over now t
unfolding has_expired
has_expired-is_over now t = ground arith

-- The functions of the tasks that are not over at their round, in the order of the queue.
unfoldable pub due : List ℕ → List Task → List ℕ
due [] ts = []
due (now ∷ nows) [] = []
due (now ∷ nows) (t ∷ ts) = let rest = due nows ts in if is_over now t then rest else t.func ∷ rest

abbrev pub NoShutdown : List Task → Type 0
NoShutdown [] = Unit
NoShutdown (t ∷ ts) = ((t.func == shutdown_func) ≡ false) × NoShutdown ts

append_assoc {ℓ} : {A : Type ℓ} (xs ys zs : List A) → (xs ++ ys) ++ zs ≡ xs ++ (ys ++ zs)
append_assoc [] ys zs = refl
append_assoc (x ∷ xs) ys zs = ap (λ l. x ∷ l) (append_assoc xs ys zs)

append-nil {ℓ} : {A : Type ℓ} (xs : List A) → xs ++ [] ≡ xs
append-nil [] = refl
append-nil (x ∷ xs) = ap (λ l. x ∷ l) (append-nil xs)

abbrev pub at_work : List Task → ℕ → List ℕ → Dispatcher
at_work ts cycle ran = record {
  state = running;
  task_list = ts;
  dispatcher_cycle = cycle;
  executed = ran;
}

-- Tasks added at the back stand there in the order of the calls.
add_tasks-back :
    (cs : List (Task × Bool)) (ts : List Task) (cycle : ℕ) (ran : List ℕ)
    → All (λ c. c.1 ≡ false) cs
    → add_tasks cs (at_work ts cycle ran) ≡ at_work (ts ++ map (λ c. c.0) cs) cycle ran
unfolding add_tasks add_task
add_tasks-back [] ts cycle ran back = ap (λ l. at_work l cycle ran) (sym (append-nil ts))
add_tasks-back (c ∷ cs) ts cycle ran back =
    rw (add_task, back.0)
      (add_tasks-back cs (ts ++ c.0 ∷ []) cycle ran back.1
        ∙ ap (λ l. at_work l cycle ran) (append_assoc ts (c.0 ∷ []) (map (λ c. c.0) cs)))

module _ (calls : ℕ → List (Task × Bool)) where
  -- Rounds of the thread, each with the time at which it takes place.
  unfoldable pub rounds : List ℕ → Dispatcher → Dispatcher
  rounds [] d = d
  rounds (now ∷ nows) d = rounds nows (dispatch calls now d)

  -- The tasks that the functions of those tasks add, in order.
  unfoldable pub added : List ℕ → List Task → List Task
  added [] ts = []
  added (now ∷ nows) [] = []
  added (now ∷ nows) (t ∷ ts) =
      let rest = added nows ts in
      if is_over now t then rest else map (λ c. c.0) (calls t.func) ++ rest

  -- What as many rounds as the list has times have done to a dispatcher.
  pub record IsDrained (nows : List ℕ) (d d' : Dispatcher) : Type 0 where
    pub ran : d'.executed ≡ d.executed ++ due nows d.task_list
    pub left : d'.task_list ≡ drop (length nows) d.task_list ++ added nows d.task_list

  abbrev Drains : List ℕ → List Task → List Task → List ℕ → Dispatcher → Type 0
  Drains nows ts behind ran d' =
      (d'.executed ≡ ran ++ due nows ts)
      × (d'.task_list ≡ drop (length nows) ts ++ (behind ++ added nows ts))

  rounds-Drains :
      (nows : List ℕ) (ts behind : List Task) (cycle : ℕ) (ran : List ℕ)
      → ((f : ℕ) → All (λ c. c.1 ≡ false) (calls f))
      → length nows ≤ length ts
      → NoShutdown ts
      → Drains nows ts behind ran (rounds nows (at_work (ts ++ behind) cycle ran))
  unfolding rounds due added dispatch
  rounds-Drains [] ts behind cycle ran back few none_stops =
      (sym (append-nil ran), ap (λ l. ts ++ l) (sym (append-nil behind)))
  rounds-Drains (now ∷ nows) [] behind cycle ran back few none_stops = absurd (omega arith)
  rounds-Drains (now ∷ nows) (t ∷ ts) behind cycle ran back few none_stops =
      elim (Bool-cases (is_over now t)) [
        | inl x ↦
            let d = rounds-Drains nows ts behind cycle ran back (omega arith) none_stops.1 in
            rw (rounds, dispatch, has_expired-is_over now t, due, added, x) d
        | inr x ↦
            let new : List Task = map (λ c. c.0) (calls t.func) in
            let cycle' = (cycle + 1) % 0x1_0000_0000_0000_0000 in
            let ran' = ran ++ t.func ∷ [] in
            let d =
              rounds-Drains nows ts (behind ++ new) cycle' ran' back (omega arith) none_stops.1 in
            let called : execute calls t (at_work (ts ++ behind) cycle ran)
                ≡ at_work (ts ++ (behind ++ new)) cycle' ran' =
              unfold execute in
              rw none_stops.0 (
                add_tasks-back (calls t.func) (ts ++ behind) cycle' ran' (back t.func)
                ∙ ap (λ l. at_work l cycle' ran') (append_assoc ts behind new)) in
            rw (rounds, dispatch, has_expired-is_over now t, due, added, x, called)
              (
                d.0 ∙ append_assoc ran (t.func ∷ []) (due nows ts),
                d.1
                    ∙ ap (λ l. drop (length nows) ts ++ l)
                        (append_assoc behind new (added nows ts)),
              )
      ]

  -- Where the functions of tasks add tasks at the back alone, at most as many rounds as the queue of
  -- a running dispatcher has tasks, none of which ends it, take as many tasks off the head of the
  -- queue, and call the functions of those whose expiration is 0 or not before their round, in the
  -- order of the queue; and the queue goes on with the tasks that those functions have added, in
  -- order.
  pub rounds-IsDrained :
      (nows : List ℕ) (ts : List Task) (cycle : ℕ) (ran : List ℕ)
      → ((f : ℕ) → All (λ c. c.1 ≡ false) (calls f))
      → length nows ≤ length ts
      → NoShutdown ts
      → IsDrained nows (at_work ts cycle ran) (rounds nows (at_work ts cycle ran))
  rounds-IsDrained nows ts cycle ran back few none_stops =
      let d = rounds-Drains nows ts [] cycle ran back few none_stops in
      let at_back : at_work (ts ++ []) cycle ran ≡ at_work ts cycle ran =
        ap (λ l. at_work l cycle ran) (append-nil ts) in
      let e = subst (λ x. Drains nows ts [] ran (rounds nows x)) at_back d in
      record { ran = e.0; left = e.1 }
