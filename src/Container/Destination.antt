-- ===== src/Container/Destination.antt =====
-- Where an item goes that is moved to a container: Container::queryDestination
-- (compiler/src/container.cpp). Of the items in a container only containers count as cylinders here,
-- and the index and the item that the caller passes are those of a new move: destItem is null.
use tibia_server.Base.{
  ℕ, suc, ◌+◌, arith, Bool, true, false, not, ◌&&◌, ◌||◌, Option, none, some, ◌==◌, ltb,
  if◌then◌else◌, ◌≡◌, refl, ◌∙◌, Option-cases, inl, inr,
}
use tibia_server.Item.{equals}
use tibia_server.Container.{
  Kind, Thing, plain, container, Things, nil, cons, Place, Index, wherever, at, number_of, item_of,
  past_capacity, get_item_by_index,
}

pub data Target : Type 0 where
  this_container parent_container : Target
  inner_container : ℕ → Target

pub record Destination : Type 0 where
  pub target : Target
  pub index : Index
  pub dest_item : Option Thing

-- The loop over the items from number `n` on: the first item other than the one moved that is equal
-- to it and not a full stack, and the number counted up to there.
unfoldable pub find_stack : ℕ → Thing → Things → Option (ℕ × Thing)
unfolding equals
find_stack n t nil = none
find_stack n t (cons c cs) =
    let rest = find_stack (suc n) t cs in
    if not (number_of c == number_of t)
      && equals (item_of c) (item_of t)
      && ltb (item_of c).count 100
    then some (n, c)
    else rest

abbrev pub to_this : Index → Option Thing → Destination
to_this i c = record { target = this_container; index = i; dest_item = c }

abbrev pub is_code : ℕ → Index → Bool
is_code n wherever = false
is_code n (at i) = i == n

-- What stands at the index; a container there takes the item itself.
abbrev pub to_slot : Index → Things → Destination
to_slot wherever ts = to_this wherever none
to_slot (at i) ts = slot (get_item_by_index ts i)
  where
    slot : Option Thing → Destination
    slot none = to_this (at i) none
    slot (some (plain n it)) = to_this (at i) (some (plain n it))
    slot (some (container s cs)) = record {
      target = inner_container s.number;
      index = wherever;
      dest_item = none;
    }

abbrev pub stacked : Option (ℕ × Thing) → Index → Things → Destination
stacked (some (n, c)) j ts = to_this (at n) (some c)
stacked none j ts = to_slot j ts

module _ (items : ℕ → Kind) where
  -- `inside` says that the item stands in this container already, `has_parent` that this container
  -- stands in one.
  unfoldable pub query_destination : Index → Thing → Bool → Bool → Bool → Place → Destination
  unfolding find_stack get_item_by_index
  query_destination i t inside auto_stack has_parent p =
      if not p.here.unlocked
      then to_this i none
      else if is_code 254 i
      then record {
        target = if has_parent then parent_container else this_container;
        index = wherever;
        dest_item = none;
      }
      else stacked
          (if auto_stack && (items (item_of t).id).stackable && not inside
            then find_stack 0 t p.item_list
            else none)
          (if is_code 255 i || past_capacity i p.here then wherever else i) p.item_list

-- The index and the item of a destination belong together, in this container.
pub record IsPlaced (p : Place) (d : Destination) : Type 0 where
  pub at_index :
      (c : Thing)
      → d.dest_item ≡ some c
      → (k : ℕ) × (d.index ≡ at k) × (get_item_by_index p.item_list k ≡ some c)
  pub in_this : (c : Thing) → d.dest_item ≡ some c → d.target ≡ this_container

nowhere-IsPlaced :
    (p : Place) (target : Target) (i : Index)
    → IsPlaced p (record { target = target; index = i; dest_item = none })
nowhere-IsPlaced p target i = record {
  at_index = λ c e. absurd (no_item e);
  in_this = λ c e. absurd (no_item e);
}
  where
    no_item : {c : Thing} → none ≡ some c → ⊥
    no_item e = cc

-- The number counted is that of the item found.
find_stack-get_item_by_index :
    (n : ℕ) (t : Thing) (ts : Things) (m : ℕ) (c : Thing)
    → find_stack n t ts ≡ some (m, c)
    → (k : ℕ) × (m ≡ k + n) × (get_item_by_index ts k ≡ some c)
unfolding find_stack get_item_by_index
find_stack-get_item_by_index n t nil m c e = absurd cc
find_stack-get_item_by_index n t (cons d ds) m c e =
    pick (find_stack-get_item_by_index (suc n) t ds m c) _ e
  where
    pick :
        (find_stack (suc n) t ds ≡ some (m, c)
          → (k : ℕ) × (m ≡ k + suc n) × (get_item_by_index ds k ≡ some c))
        → (b : Bool) → (if b then some (n, d) else find_stack (suc n) t ds) ≡ some (m, c)
        → (k : ℕ) × (m ≡ k + n) × (get_item_by_index (cons d ds) k ≡ some c)
    pick later true f = (let same : n ≡ m = cc in (0, omega (arith, same), cc))
    pick later false f = let (k, counted, found) = later f in (suc k, omega (arith, counted), found)

to_slot-IsPlaced : (p : Place) (i : Index) → IsPlaced p (to_slot i p.item_list)
to_slot-IsPlaced p wherever = nowhere-IsPlaced p this_container wherever
to_slot-IsPlaced p (at i) = elim (Option-cases (get_item_by_index p.item_list i)) [
  | inl e ↦ rw e (nowhere-IsPlaced p this_container (at i))
  | inr (c, e) ↦ found c e
]
  where
    found :
        (c : Thing)
        → get_item_by_index p.item_list i ≡ some c
        → IsPlaced p (to_slot (at i) p.item_list)
    found (plain n it) e =
        rw e (record { at_index = λ c f. (i, refl, e ∙ f); in_this = λ c f. refl })
    found (container s cs) e = rw e (nowhere-IsPlaced p (inner_container s.number) wherever)

stack-IsPlaced :
    (p : Place) (t : Thing) (n : ℕ) (c : Thing)
    → find_stack 0 t p.item_list ≡ some (n, c)
    → IsPlaced p (to_this (at n) (some c))
stack-IsPlaced p t n c e =
    let (k, counted, found) = find_stack-get_item_by_index 0 t p.item_list n c e in
    let same : n ≡ k = omega (arith, counted) in
    record { at_index = λ d f. (n, refl, rw same (found ∙ f)); in_this = λ d f. refl }

-- Any search that yields nothing but what find_stack yields leads to an item in its place.
stacked-IsPlaced :
    (p : Place) (t : Thing) (search : Bool) (j : Index)
    → IsPlaced p (stacked (if search then find_stack 0 t p.item_list else none) j p.item_list)
stacked-IsPlaced p t true j = elim (Option-cases (find_stack 0 t p.item_list)) [
  | inl e ↦ rw e (to_slot-IsPlaced p j)
  | inr (f, e) ↦ rw e (stack-IsPlaced p t f.0 f.1 e)
]
stacked-IsPlaced p t false j = to_slot-IsPlaced p j

-- The item that queryDestination names stands in this very container at the index that it gives.
pub query_destination-IsPlaced :
    (items : ℕ → Kind) (i : Index) (t : Thing) (inside auto_stack has_parent : Bool) (p : Place)
    → IsPlaced p (query_destination items i t inside auto_stack has_parent p)
unfolding query_destination
query_destination-IsPlaced items i t inside auto_stack has_parent p =
    pick (not p.here.unlocked) _ _ (nowhere-IsPlaced p this_container i)
      (pick (is_code 254 i) _ _ (nowhere-IsPlaced p _ wherever) (stacked-IsPlaced p t _ _))
  where
    pick :
        (b : Bool) (x y : Destination)
        → IsPlaced p x
        → IsPlaced p y
        → IsPlaced p (if b then x else y)
    pick true x y hx hy = hx
    pick false x y hx hy = hy
