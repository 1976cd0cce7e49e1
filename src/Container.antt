-- ===== src/Container.antt =====
-- Containers of items: class Container and class ContainerIterator (compiler/src/container.cpp,
-- container.h). An item is a plain one or a container with its list, and a number stands for its
-- address. What a call on a container can reach is the container with the containers above it, each
-- with the items before and behind the one that it holds; this chain is what getParent follows. The
-- table of items (Item::items, read from files) is a parameter. Messages to players and the
-- notifications to other cylinders are left out. Weights are words of 32 bits.
pub mod Queries
pub mod Destination
pub mod Iteration
pub mod Visits
pub mod Weights
pub mod Changes
pub mod Operations
pub mod Restores
mod Tests
use tibia_server.Base.{
  ℕ, zero, suc, ◌+◌, ◌-◌, ◌*◌, ◌%◌, max, Bool, true, false, not, ◌&&◌, ◌||◌, List, [], ◌∷◌, Option,
  none, some, ◌==◌, leb, if◌then◌else◌,
}
use tibia_server.Base.Word.{u32_mod, add32, sub32}
use tibia_server.Item.{Item, Attributes, has_attribute, get_int_attr}

-- ItemType, as far as containers ask.
pub record Kind : Type 0 where
  pub weight : ℕ
  pub stackable : Bool
  pub pickupable : Bool
  pub moveable : Bool

pub record Shell : Type 0 where
  pub number : ℕ
  pub item : Item
  pub max_size : ℕ
  pub total_weight : ℕ
  pub unlocked : Bool

mutual
  pub data Thing : Type 0 where
    plain : ℕ → Item → Thing
    container : Shell → Things → Thing

  pub data Things : Type 0 where
    nil : Things
    cons : Thing → Things → Things

-- A container above, with its items but the one on the way down.
pub record Above : Type 0 where
  pub shell : Shell
  pub before : Things
  pub behind : Things

-- A container with its items and the containers above it, the nearest one first.
pub record Place : Type 0 where
  pub here : Shell
  pub item_list : Things
  pub above : List Above

abbrev pub number_of : Thing → ℕ
number_of (plain n it) = n
number_of (container s ts) = s.number

abbrev pub item_of : Thing → Item
item_of (plain n it) = it
item_of (container s ts) = s.item

abbrev pub with_item : Item → Thing → Thing
with_item it (plain n old) = plain n it
with_item it (container s ts) = container (record s { item = it }) ts

unfoldable pub size : Things → ℕ
size nil = 0
size (cons t ts) = suc (size ts)

unfoldable pub push_back : Things → Thing → Things
push_back nil x = cons x nil
push_back (cons t ts) x = cons t (push_back ts x)

unfoldable pub get_item_by_index : Things → ℕ → Option Thing
get_item_by_index nil i = none
get_item_by_index (cons t ts) zero = some t
get_item_by_index (cons t ts) (suc i) = get_item_by_index ts i

-- The place of an item, by its address; -1 is `none`.
unfoldable pub get_thing_index : ℕ → Things → Option ℕ
get_thing_index n nil = none
get_thing_index n (cons t ts) =
    let rest = get_thing_index n ts in if number_of t == n then some 0 else next rest
  where
    next : Option ℕ → Option ℕ
    next none = none
    next (some i) = some (suc i)

unfoldable pub set_at : Things → ℕ → Thing → Things
set_at nil i x = nil
set_at (cons t ts) zero x = cons x ts
set_at (cons t ts) (suc i) x = cons t (set_at ts i x)

unfoldable pub erase_at : Things → ℕ → Things
erase_at nil i = nil
erase_at (cons t ts) zero = ts
erase_at (cons t ts) (suc i) = cons t (erase_at ts i)

abbrev pub weight_attribute : ℕ
weight_attribute = 9

abbrev pub heavier : ℕ → Shell → Shell
heavier diff s = record s { total_weight = add32 s.total_weight diff }

unfoldable pub heavier_all : ℕ → List Above → List Above
unfolding add32
heavier_all diff [] = []
heavier_all diff (a ∷ up) = record a { shell = heavier diff a.shell } ∷ heavier_all diff up

-- Container::updateItemWeight
unfoldable pub update_item_weight : ℕ → Place → Place
unfolding heavier_all
update_item_weight diff p = record p {
  here = heavier diff p.here;
  above = heavier_all diff p.above;
}

-- An index of the client; -1 stands for any place.
pub data Index : Type 0 where
  wherever : Index
  at : ℕ → Index

abbrev pub past_capacity : Index → Shell → Bool
past_capacity wherever s = false
past_capacity (at i) s = leb s.max_size i

abbrev pub with_count : ℕ → Thing → Thing
with_count n t = with_item (record (item_of t) { count = n % 256 }) t

module _ (items : ℕ → Kind) where
  abbrev pub get_base_weight : Item → ℕ
  get_base_weight it = base it.attributes
    where
      base : Option Attributes → ℕ
      base none = (items it.id).weight % u32_mod
      base (some a) =
          if has_attribute weight_attribute a
          then get_int_attr weight_attribute a % u32_mod
          else (items it.id).weight % u32_mod

  unfoldable pub item_weight : Item → ℕ
  item_weight it =
      if (items it.id).stackable
      then get_base_weight it * max 1 it.count % u32_mod
      else get_base_weight it

  -- Item::getWeight and Container::getWeight
  unfoldable pub get_weight : Thing → ℕ
  unfolding item_weight add32
  get_weight (plain n it) = item_weight it
  get_weight (container s ts) = add32 (item_weight s.item) s.total_weight

  unfoldable pub add_item_back : Thing → Place → Place
  unfolding push_back get_weight update_item_weight
  add_item_back t p =
      update_item_weight (get_weight t) (record p { item_list = push_back p.item_list t })

  unfoldable pub internal_add_thing : Thing → Place → Place
  unfolding get_weight update_item_weight
  internal_add_thing t p =
      update_item_weight (get_weight t) (record p { item_list = cons t p.item_list })

  unfoldable pub add_thing : Index → Thing → Place → Place
  unfolding internal_add_thing
  add_thing i t p = if past_capacity i p.here then p else internal_add_thing t p

  -- The item at an index becomes another, with the difference of the weights.
  abbrev pub reweigh : ℕ → Thing → Thing → Place → Place
  reweigh i old new p =
      update_item_weight (sub32 (get_weight new) (get_weight old))
        (record p { item_list = set_at p.item_list i new })

  abbrev pub at_number : ℕ → Place → (ℕ → Thing → Place) → Place
  at_number n p f = elim (get_thing_index n p.item_list) [
    | none ↦ p
    | some i ↦ elim (get_item_by_index p.item_list i) [ none ↦ p | some t ↦ f i t ]
  ]

  -- updateThing; `change` is what setID and setSubType make of the item.
  unfoldable pub update_thing : ℕ → (Item → Item) → Place → Place
  unfolding get_thing_index get_item_by_index set_at get_weight update_item_weight sub32
  update_thing n change p = at_number n p (λ i t. reweigh i t (with_item (change (item_of t)) t) p)

  unfoldable pub replace_thing : ℕ → Thing → Place → Place
  unfolding get_item_by_index set_at get_weight update_item_weight sub32
  replace_thing i t p = elim (get_item_by_index p.item_list i) [
    | none ↦ p
    | some old ↦ reweigh i old t p
  ]

  unfoldable pub remove_thing : ℕ → ℕ → Place → Place
  unfolding get_thing_index get_item_by_index set_at erase_at get_weight update_item_weight sub32
  remove_thing n count p = at_number n p (λ i t.
      if (items (item_of t).id).stackable && not (count == (item_of t).count)
      then reweigh i t (with_count ((item_of t).count - count) t) p
      else update_item_weight (sub32 0 (get_weight t))
          (record p { item_list = erase_at p.item_list i }))
