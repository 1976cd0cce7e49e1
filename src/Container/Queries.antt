-- ===== src/Container/Queries.antt =====
-- What a container answers before something is put in or taken out: queryAdd, queryMaxCount and
-- queryRemove of class Container (compiler/src/container.cpp), and its counts.
pub mod Counting
use tibia_server.Base.{
  ℕ, ◌+◌, ◌-◌, ◌*◌, ◌%◌, max, Bool, true, false, not, ◌&&◌, ◌||◌, List, [], ◌∷◌, Option, none, some,
  ◌==◌, leb, ltb, if◌then◌else◌,
}
use tibia_server.Base.Word.{u32_mod, add32}
use tibia_server.Item.{Item, equals}
use tibia_server.Container.{
  Kind, Thing, Things, nil, cons, Above, Place, Index, wherever, at, number_of, item_of, size,
  get_item_by_index, get_thing_index,
}

-- The ReturnValues that containers give.
pub data ReturnValue : Type 0 where
  no_error not_possible cannot_pickup this_is_impossible container_not_enough_room not_moveable :
      ReturnValue

-- The bits of cylinderflags_t that containers ask for.
pub record Flags : Type 0 where
  pub no_limit : Bool
  pub child_is_owner : Bool
  pub ignore_not_moveable : Bool

-- What stands above the outermost container, a tile or a player on a tile, and before these the
-- containers of derived classes (depots, inboxes), which have a queryAdd of their own: the
-- addresses, whether one is an inbox, and what the second last of all answers.
pub record Outside : Type 0 where
  pub holders : List ℕ
  pub is_inbox : ℕ → Bool
  pub query_add : Item → ReturnValue

-- The addresses of the cylinders from getParent on.
unfoldable pub parents : List Above → List ℕ → List ℕ
parents [] holders = holders
parents (a ∷ up) holders = a.shell.number ∷ parents up holders

-- The loops of queryAdd along the parents.
unfoldable pub check_parents : Bool → (ℕ → Bool) → ℕ → List ℕ → ReturnValue
check_parents no_limit is_inbox thing [] = no_error
check_parents no_limit is_inbox thing (c ∷ cs) =
    let rest = check_parents no_limit is_inbox thing cs in
    if c == thing
    then this_is_impossible
    else if not no_limit && is_inbox c
    then container_not_enough_room
    else rest

-- getTopParent is the second last cylinder. A container of the base class answers no_error, since it is
-- asked with FLAG_CHILDISOWNER; only a holder that stands on something else answers itself.
unfoldable pub query_top : Outside → Item → ReturnValue
query_top o it = asked o.holders
  where
    asked : List ℕ → ReturnValue
    asked [] = no_error
    asked (h ∷ []) = no_error
    asked (h ∷ g ∷ hs) = o.query_add it

abbrev pub then_query : ReturnValue → ReturnValue → ReturnValue
then_query no_error next = next
then_query r next = r

abbrev pub is_full : Index → Place → Bool
is_full wherever p = leb p.here.max_size (size p.item_list)
is_full (at i) p = false

abbrev pub is_ok : ReturnValue → Bool
is_ok no_error = true
is_ok _ = false

-- The branches of queryMaxCount, for the room on stacks.
abbrev pub counts : ℕ → Bool → Bool → ℕ → Place → ReturnValue × ℕ
counts count no_limit stackable room p =
    let free_slots = p.here.max_size - size p.item_list in
    let stacked = (free_slots * 100 + room) % u32_mod in
    if no_limit
    then (no_error, max 1 count)
    else if stackable
    then (if ltb stacked count then container_not_enough_room else no_error, stacked)
    else (if free_slots == 0 then container_not_enough_room else no_error, free_slots)

-- Container::getItemTypeCount, for any sub type.
unfoldable pub get_item_type_count : ℕ → Things → ℕ
get_item_type_count id nil = 0
get_item_type_count id (cons t ts) =
    let rest = get_item_type_count id ts in
    if (item_of t).id == id then add32 (item_of t).count rest else rest

module _ (items : ℕ → Kind) (o : Outside) where
  unfoldable pub query_add : Index → Thing → Flags → Place → ReturnValue
  unfolding parents check_parents query_top size
  query_add i t f p =
      if f.child_is_owner
      then no_error
      else if not p.here.unlocked
      then not_possible
      else if not (items (item_of t).id).pickupable
      then cannot_pickup
      else if number_of t == p.here.number
      then this_is_impossible
      else then_query
          (check_parents f.no_limit o.is_inbox (number_of t) (parents p.above o.holders))
          (if not f.no_limit && is_full i p
            then container_not_enough_room
            else query_top o (item_of t))

  -- The room on the stacks that are there; `slot` counts them.
  unfoldable pub stack_room : ℕ → Thing → Flags → Place → Things → ℕ
  unfolding equals query_add
  stack_room slot t f p nil = 0
  stack_room slot t f p (cons c cs) =
      let taken = stack_room (slot + 1) t f p cs in
      let passed = stack_room slot t f p cs in
      if not (number_of c == number_of t)
        && equals (item_of c) (item_of t)
        && ltb (item_of c).count 100
      then (if is_ok (query_add (at slot) t f p)
          then (100 - (item_of c).count + taken) % u32_mod
          else taken)
      else passed

  abbrev pub slot_room : ℕ → Thing → Flags → Place → Option Thing → ℕ
  slot_room i t f p none = 0
  slot_room i t f p (some d) =
      if equals (item_of t) (item_of d)
        && ltb (item_of d).count 100
        && is_ok (query_add (at i) t f p)
      then 100 - (item_of d).count
      else 0

  abbrev pub room_at : Index → Thing → Flags → Place → ℕ
  room_at wherever t f p = stack_room 0 t f p p.item_list
  room_at (at i) t f p = slot_room i t f p (get_item_by_index p.item_list i)

  -- queryMaxCount: the answer, and maxQueryCount.
  unfoldable pub query_max_count : Index → Thing → ℕ → Flags → Place → ReturnValue × ℕ
  unfolding stack_room get_item_by_index size
  query_max_count i t count f p =
      counts count f.no_limit (items (item_of t).id).stackable (room_at i t f p) p

  unfoldable pub query_remove : Thing → ℕ → Flags → Place → ReturnValue
  unfolding get_thing_index
  query_remove t count f p = elim (get_thing_index (number_of t) p.item_list) [
    | none ↦ not_possible
    | some i ↦
        if count == 0 || ((items (item_of t).id).stackable && ltb (item_of t).count count)
        then not_possible
        else if not (items (item_of t).id).moveable && not f.ignore_not_moveable
        then not_moveable
        else no_error
  ]
