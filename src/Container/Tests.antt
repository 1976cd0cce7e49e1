-- ===== src/Container/Tests.antt =====
-- A backpack with gold and a bag, and the theorems on it.
use tibia_server.Base.{ℕ, true, false, [], ◌∷◌, ◌≡◌, refl, some, none, ◌==◌, if◌then◌else◌, arith}
use tibia_server.Base.Word.{add32}
use tibia_server.Container.{
  Kind, Shell, Thing, Things, plain, container, nil, cons, Place, wherever, number_of, item_of,
  item_weight, get_weight, internal_add_thing, remove_thing,
}
use tibia_server.Container.Iteration.{is_within_any, is_holding_item, get_item_holding_count}
use tibia_server.Container.Visits.{get_item_holding_count-is_holding_item}
use tibia_server.Container.Destination.{IsPlaced, query_destination, query_destination-IsPlaced}
use tibia_server.Container.Weights.{IsWeighed, weights, whole, whole_of, between}
use tibia_server.Container.Operations.{call, add, call-IsWeighed}
use tibia_server.Container.Restores.{remove_thing-internal_add_thing}
use tibia_server.Container.Queries.{Flags, Outside, no_error, query_add}

-- Item 1 is gold, which stacks, and item 2 a bag.
abbrev table : ℕ → Kind
table id = record {
  weight = if id == 1 then 10 else 800;
  stackable = id == 1;
  pickupable = true;
  moveable = true;
}

abbrev gold : Thing
gold = plain 7 (record { id = 1; count = 50; attributes = none })

abbrev bag : ℕ → ℕ → Shell
bag number total = record {
  number = number;
  item = record { id = 2; count = 1; attributes = none };
  max_size = 8;
  total_weight = total;
  unlocked = true;
}

-- A bag with gold, in a bag with gold.
abbrev pouch : Place
pouch = record {
  here = bag 5 500;
  item_list = cons gold nil;
  above =
      record {
        shell = bag 4 1800;
        before = cons (plain 8 (record { id = 1; count = 50; attributes = none })) nil;
        behind = nil;
      }
      ∷ [];
}

abbrev coin : Thing
coin = plain 9 (record { id = 1; count = 1; attributes = none })

pouch-IsWeighed : IsWeighed table (whole_of pouch)
unfolding whole between weights get_weight item_weight add32
pouch-IsWeighed = (refl, (tt, ((refl, (tt, tt)), tt)))

call-IsWeighed_example : IsWeighed table (whole_of (call table (add wherever coin) pouch))
call-IsWeighed_example = call-IsWeighed table (add wherever coin) pouch pouch-IsWeighed tt

remove_thing-internal_add_thing_example :
    remove_thing table (number_of coin) (item_of coin).count (internal_add_thing table coin pouch)
    ≡ pouch
remove_thing-internal_add_thing_example =
    remove_thing-internal_add_thing table coin pouch (omega arith) (omega arith, tt)

-- A bag with gold, and a coin.
abbrev loot : Things
loot = cons (container (bag 5 500) (cons gold nil)) (cons coin nil)

get_item_holding_count-is_holding_item_example :
    (get_item_holding_count 5 loot ≡ some 3)
    × ((n : ℕ) → is_holding_item 5 n loot ≡ some (is_within_any n loot))
get_item_holding_count-is_holding_item_example =
    get_item_holding_count-is_holding_item 5 loot (omega arith)

abbrev limits : Flags
limits = record { no_limit = false; child_is_owner = false; ignore_not_moveable = false }

-- On a tile.
abbrev ground_tile : Outside
ground_tile = record { holders = 100 ∷ []; is_inbox = λ n. false; query_add = λ it. no_error }

query_destination-IsPlaced_example :
    IsPlaced pouch (query_destination table wherever coin false true true pouch)
query_destination-IsPlaced_example =
    query_destination-IsPlaced table wherever coin false true true pouch
