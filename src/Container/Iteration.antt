-- ===== src/Container/Iteration.antt =====
-- The iterator of a container (ContainerIterator, and the loops that go by it), which visits what the
-- container holds and what the containers in it hold.
use tibia_server.Base.{
  ℕ, zero, suc, ◌+◌, Bool, true, false, ◌||◌, List, [], ◌∷◌, ◌++◌, Option, none, some, ◌==◌,
  if◌then◌else◌,
}
use tibia_server.Container.{Thing, plain, container, Things, nil, cons, number_of}

-- The lists of the containers that are open, and of the first one what is left from `cur` on.
pub record Iterator : Type 0 where
  pub over : List Things
  pub cur : Things

-- Container::iterator
unfoldable pub iterator : Things → Iterator
iterator nil = record { over = []; cur = nil }
iterator (cons t ts) = record { over = cons t ts ∷ []; cur = cons t ts }

abbrev pub has_next : Iterator → Bool
has_next it = is_open it.over
  where
    is_open : List Things → Bool
    is_open [] = false
    is_open (c ∷ cs) = true

-- A container that is not empty joins the list at its end.
abbrev pub push_container : Thing → List Things → List Things
push_container (plain n it) over = over
push_container (container s nil) over = over
push_container (container s (cons t ts)) over = over ++ cons t ts ∷ []

-- Where the first list is through, the iterator goes on with the next one.
abbrev pub next_list : List Things → Things → Iterator
next_list over (cons t ts) = record { over = over; cur = cons t ts }
next_list [] nil = record { over = []; cur = nil }
next_list (c ∷ []) nil = record { over = []; cur = nil }
next_list (c ∷ d ∷ cs) nil = record { over = d ∷ cs; cur = d }

-- ContainerIterator::advance
unfoldable pub advance : Iterator → Iterator
advance it = step it.cur
  where
    step : Things → Iterator
    step nil = it
    step (cons t ts) = next_list (push_container t it.over) ts

unfoldable pub count_loop : ℕ → Iterator → ℕ → Option ℕ
unfolding advance
count_loop zero it counter = if has_next it then none else some counter
count_loop (suc fuel) it counter =
    let rest = count_loop fuel (advance it) (counter + 1) in
    if has_next it then rest else some counter

-- Container::getItemHoldingCount
unfoldable pub get_item_holding_count : ℕ → Things → Option ℕ
unfolding iterator count_loop
get_item_holding_count fuel ts = count_loop fuel (iterator ts) 0

abbrev pub is_current : ℕ → Things → Bool
is_current n nil = false
is_current n (cons t ts) = number_of t == n

unfoldable pub find_loop : ℕ → ℕ → Iterator → Option Bool
unfolding advance
find_loop zero n it = if has_next it then none else some false
find_loop (suc fuel) n it =
    let rest = find_loop fuel n (advance it) in
    if has_next it then if is_current n it.cur then some true else rest else some false

-- Container::isHoldingItem, by the item's address
unfoldable pub is_holding_item : ℕ → ℕ → Things → Option Bool
unfolding iterator find_loop
is_holding_item fuel n ts = find_loop fuel n (iterator ts)

-- How many things a list holds, with those inside of them.
abbrev mutual
  pub held_in : Thing → ℕ
  held_in (plain n it) = 1
  held_in (container s ts) = suc (held_all ts)

  pub held_all : Things → ℕ
  held_all nil = 0
  held_all (cons t ts) = held_in t + held_all ts

-- Whether a thing with the number is in a list, at any depth.
abbrev mutual
  pub is_within : ℕ → Thing → Bool
  is_within n (plain m it) = m == n
  is_within n (container s ts) = s.number == n || is_within_any n ts

  pub is_within_any : ℕ → Things → Bool
  is_within_any n nil = false
  is_within_any n (cons t ts) = is_within n t || is_within_any n ts
