-- ===== src/Container/Visits.antt =====
-- The iterator visits everything that a container holds, at any depth, and ends.
use tibia_server.Base.{
  ℕ, zero, suc, ◌+◌, ◌≤◌, Bool, false, ◌||◌, List, [], ◌∷◌, ◌++◌, some, ◌==◌, ◌≡◌, refl, ap, ◌∙◌,
  arith,
}
use tibia_server.Container.{Thing, plain, container, Things, nil, cons, number_of}
use tibia_server.Container.Iteration.{
  Iterator, iterator, push_container, next_list, advance, count_loop, get_item_holding_count,
  find_loop, is_holding_item, held_in, held_all, is_within, is_within_any,
}

abbrev held_lists : List Things → ℕ
held_lists [] = 0
held_lists (c ∷ cs) = held_all c + held_lists cs

abbrev within_lists : ℕ → List Things → Bool
within_lists n [] = false
within_lists n (c ∷ cs) = is_within_any n c || within_lists n cs

-- An iterator in use: no open list is empty, and the first one is not through.
abbrev AreOpen : List Things → Type 0
AreOpen [] = Unit
AreOpen (nil ∷ cs) = ⊥
AreOpen (cons t ts ∷ cs) = AreOpen cs

abbrev IsSound : List Things → Things → Type 0
IsSound [] nil = Unit
IsSound [] (cons t ts) = ⊥
IsSound (c ∷ cs) nil = ⊥
IsSound (c ∷ cs) (cons t ts) = AreOpen cs

-- What is still to come.
abbrev left_lists : List Things → List Things
left_lists [] = []
left_lists (c ∷ cs) = cs

abbrev left_count : Iterator → ℕ
left_count it = held_all it.cur + held_lists (left_lists it.over)

abbrev left_within : ℕ → Iterator → Bool
left_within n it = is_within_any n it.cur || within_lists n (left_lists it.over)

record IsStep (t : Thing) (ts : Things) (over : List Things) (it : Iterator) : Type 0 where
  sound : IsSound it.over it.cur
  counted : held_in t + held_all ts + held_lists (left_lists over) ≡ suc (left_count it)
  within :
      (n : ℕ)
      → is_within n t || is_within_any n ts || within_lists n (left_lists over)
        ≡ (number_of t == n) || left_within n it

next_list-IsStep :
    (ts : Things) (c : Things) (cs : List Things)
    → AreOpen cs
    → (IsSound (next_list (c ∷ cs) ts).over (next_list (c ∷ cs) ts).cur)
      × (left_count (next_list (c ∷ cs) ts) ≡ held_all ts + held_lists cs)
      × ((n : ℕ) → left_within n (next_list (c ∷ cs) ts) ≡ is_within_any n ts || within_lists n cs)
next_list-IsStep (cons t ts) c cs o = (o, refl, λ n. refl)
next_list-IsStep nil c [] o = (tt, omega arith, λ n. refl)
next_list-IsStep nil c (nil ∷ cs) o = absurd o
next_list-IsStep nil c (cons t ts ∷ cs) o = (o, omega arith, λ n. refl)

pushed-AreOpen : (t : Thing) (cs : List Things) → AreOpen cs → AreOpen (push_container t cs)
pushed-AreOpen (plain n it) cs o = o
pushed-AreOpen (container s nil) cs o = o
pushed-AreOpen (container s (cons t ts)) cs o = append-AreOpen cs o
  where
    append-AreOpen : (cs : List Things) → AreOpen cs → AreOpen (cs ++ cons t ts ∷ [])
    append-AreOpen [] o = tt
    append-AreOpen (nil ∷ cs) o = o
    append-AreOpen (cons x xs ∷ cs) o = append-AreOpen cs o

held_lists-append :
    (cs : List Things) (c : Things) → held_lists (cs ++ c ∷ []) ≡ held_lists cs + held_all c
held_lists-append [] c = omega arith
held_lists-append (d ∷ cs) c = omega (arith, held_lists-append cs c)

within_lists-append :
    (n : ℕ) (cs : List Things) (c : Things)
    → within_lists n (cs ++ c ∷ []) ≡ within_lists n cs || is_within_any n c
within_lists-append n [] c = ground arith
within_lists-append n (d ∷ cs) c = ground (arith, within_lists-append n cs c)

pushed_count :
    (t : Thing) (cs : List Things)
    → suc (held_lists (push_container t cs)) ≡ held_in t + held_lists cs
pushed_count (plain n it) cs = omega arith
pushed_count (container s nil) cs = omega arith
pushed_count (container s (cons t ts)) cs = omega (arith, held_lists-append cs (cons t ts))

pushed_within :
    (n : ℕ) (t : Thing) (cs : List Things)
    → (number_of t == n) || within_lists n (push_container t cs)
      ≡ is_within n t || within_lists n cs
pushed_within n (plain m it) cs = refl
pushed_within n (container s nil) cs = ground arith
pushed_within n (container s (cons t ts)) cs = ground (arith, within_lists-append n cs (cons t ts))

-- A container joins behind the list that is open.
push_container-cons :
    (t : Thing) (c : Things) (cs : List Things)
    → push_container t (c ∷ cs) ≡ c ∷ push_container t cs
push_container-cons (plain n it) c cs = refl
push_container-cons (container s nil) c cs = refl
push_container-cons (container s (cons t ts)) c cs = refl

advance-IsStep :
    (t : Thing) (ts c : Things) (cs : List Things)
    → AreOpen cs
    → IsStep t ts (c ∷ cs) (advance (record { over = c ∷ cs; cur = cons t ts }))
unfolding advance
advance-IsStep t ts c cs o =
    let r = next_list-IsStep ts c (push_container t cs) (pushed-AreOpen t cs o) in
    rw (push_container-cons t c cs) (record {
      sound = r.0;
      counted = omega (arith, r.1, pushed_count t cs);
      within = λ n. ground (arith, r.2 n, pushed_within n t cs);
    })

-- The loop that counts ends once there is fuel for all that is left.
count_loop-left :
    (fuel : ℕ) (over : List Things) (cur : Things) (counter : ℕ)
    → IsSound over cur
    → left_count (record { over = over; cur = cur }) ≤ fuel
    → count_loop fuel (record { over = over; cur = cur }) counter
      ≡ some (counter + left_count (record { over = over; cur = cur }))
unfolding count_loop
count_loop-left zero [] nil counter s h = ap some (omega arith)
count_loop-left zero [] (cons t ts) counter s h = absurd s
count_loop-left zero (c ∷ cs) nil counter s h = absurd s
count_loop-left zero (c ∷ cs) (cons t ts) counter s h =
    absurd (omega (arith, (advance-IsStep t ts c cs s).counted, h))
count_loop-left (suc fuel) [] nil counter s h = ap some (omega arith)
count_loop-left (suc fuel) [] (cons t ts) counter s h = absurd s
count_loop-left (suc fuel) (c ∷ cs) nil counter s h = absurd s
count_loop-left (suc fuel) (c ∷ cs) (cons t ts) counter s h =
    let a = advance-IsStep t ts c cs s in
    let it = advance (record { over = c ∷ cs; cur = cons t ts }) in
    count_loop-left fuel it.over it.cur (counter + 1) a.sound (omega (arith, a.counted, h))
    ∙ ap some (omega (arith, a.counted))

find_loop-left :
    (n fuel : ℕ) (over : List Things) (cur : Things)
    → IsSound over cur
    → left_count (record { over = over; cur = cur }) ≤ fuel
    → find_loop fuel n (record { over = over; cur = cur })
      ≡ some (left_within n (record { over = over; cur = cur }))
unfolding find_loop
find_loop-left n zero [] nil s h = refl
find_loop-left n zero [] (cons t ts) s h = absurd s
find_loop-left n zero (c ∷ cs) nil s h = absurd s
find_loop-left n zero (c ∷ cs) (cons t ts) s h =
    absurd (omega (arith, (advance-IsStep t ts c cs s).counted, h))
find_loop-left n (suc fuel) [] nil s h = refl
find_loop-left n (suc fuel) [] (cons t ts) s h = absurd s
find_loop-left n (suc fuel) (c ∷ cs) nil s h = absurd s
find_loop-left n (suc fuel) (c ∷ cs) (cons t ts) s h =
    let a = advance-IsStep t ts c cs s in
    let it = advance (record { over = c ∷ cs; cur = cons t ts }) in
    let rest = find_loop-left n fuel it.over it.cur a.sound (omega (arith, a.counted, h)) in
    ground (arith, rest, a.within n)

get_item_holding_count-held_all :
    (fuel : ℕ) (ts : Things)
    → held_all ts ≤ fuel
    → get_item_holding_count fuel ts ≡ some (held_all ts)
unfolding get_item_holding_count iterator
get_item_holding_count-held_all fuel nil h =
    count_loop-left fuel [] nil 0 tt (omega arith) ∙ ap some (omega arith)
get_item_holding_count-held_all fuel (cons t ts) h =
    count_loop-left fuel (cons t ts ∷ []) (cons t ts) 0 tt (omega (arith, h))
    ∙ ap some (omega arith)

is_holding_item-is_within_any :
    (fuel n : ℕ) (ts : Things)
    → held_all ts ≤ fuel
    → is_holding_item fuel n ts ≡ some (is_within_any n ts)
unfolding is_holding_item iterator
is_holding_item-is_within_any fuel n nil h = find_loop-left n fuel [] nil tt (omega arith)
is_holding_item-is_within_any fuel n (cons t ts) h =
    find_loop-left n fuel (cons t ts ∷ []) (cons t ts) tt (omega (arith, h))
    ∙ ap some (ground arith)

-- With fuel for as many steps as the container holds items, at any depth, the loops on the iterator
-- end: getItemHoldingCount counts these items, and isHoldingItem says whether an item is among them.
pub get_item_holding_count-is_holding_item :
    (fuel : ℕ) (ts : Things)
    → held_all ts ≤ fuel
    → (get_item_holding_count fuel ts ≡ some (held_all ts))
      × ((n : ℕ) → is_holding_item fuel n ts ≡ some (is_within_any n ts))
get_item_holding_count-is_holding_item fuel ts h =
    (get_item_holding_count-held_all fuel ts h, λ n. is_holding_item-is_within_any fuel n ts h)
