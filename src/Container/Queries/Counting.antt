-- ===== src/Container/Queries/Counting.antt =====
-- How many items queryMaxCount counts.
use tibia_server.Base.{ℕ, ◌+◌, ◌-◌, Bool, not, ◌&&◌, ◌==◌, if◌then◌else◌}
use tibia_server.Item.{equals}
use tibia_server.Container.{Thing, Things, nil, cons, number_of, item_of}

-- The other item is of the same kind.
abbrev pub is_alike : Thing → Thing → Bool
is_alike t c = not (number_of c == number_of t) && equals (item_of c) (item_of t)

-- What all stacks of the kind lack of a hundred.
abbrev pub free_places : Thing → Things → ℕ
free_places t nil = 0
free_places t (cons c cs) = (if is_alike t c then 100 - (item_of c).count else 0) + free_places t cs
