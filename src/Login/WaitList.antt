-- ===== src/Login/WaitList.antt =====
-- compiler/src/waitlist.cpp: the waiting list for a full server. The clock, in milliseconds and read
-- once for a call, the number of players online and the configured maximum are arguments.
pub mod Order
pub mod Slots
pub mod Distinct
use tibia_server.Base.{
  ℕ, suc, ◌+◌, ◌-◌, ◌*◌, ◌%◌, ◌^◌, Bool, true, false, not, ◌&&◌, ◌||◌, ltb, leb, ◌==◌,
  if◌then◌else◌, Option, none, some, List, [], ◌∷◌, ◌++◌, length,
}

pub record Wait : Type 0 where
  pub timeout : ℕ
  pub guid : ℕ

pub record WaitListInfo : Type 0 where
  pub priority : List Wait
  pub waiting : List Wait

-- What clientLogin asks of a player.
pub record Player : Type 0 where
  pub guid : ℕ
  pub can_always_login : Bool
  pub is_gamemaster : Bool
  pub is_premium : Bool

abbrev pub u64_mod : ℕ
u64_mod = 0x1_0000_0000_0000_0000

-- `(it->timeout - time) <= 0`: the timeout is a size_t, so the 64-bit difference is unsigned.
unfoldable pub is_expired : ℕ → Wait → Bool
is_expired time w = leb ((w.timeout + u64_mod - time) % u64_mod) 0

unfoldable pub cleanup_list : ℕ → List Wait → List Wait
unfolding is_expired
cleanup_list time [] = []
cleanup_list time (w ∷ ws) =
    if is_expired time w then cleanup_list time ws else w ∷ cleanup_list time ws

unfoldable pub get_time : ℕ → ℕ
get_time slot =
    if ltb slot 5
    then 5
    else if ltb slot 10
    then 10
    else if ltb slot 20
    then 20
    else if ltb slot 50
    then 60
    else 120

unfoldable pub get_timeout : ℕ → ℕ
unfolding get_time
get_timeout slot = get_time slot + 15

-- One loop of findClient: the slot at which the guid stands, counting from `slot`.
unfoldable pub find_slot : ℕ → ℕ → List Wait → Option ℕ
find_slot guid slot [] = none
find_slot guid slot (w ∷ ws) = if w.guid == guid then some slot else find_slot guid (slot + 1) ws

-- The iterator of findClient, with its slot: into one of the lists, or the end.
pub data Found : Type 0 where
  in_priority in_waiting : ℕ → Found
  absent : ℕ → Found

abbrev found_in_waiting : ℕ → Option ℕ → Found
found_in_waiting last none = absent last
found_in_waiting last (some slot) = in_waiting slot

abbrev found_in_priority : Found → Option ℕ → Found
found_in_priority other none = other
found_in_priority other (some slot) = in_priority slot

unfoldable pub find_client : ℕ → WaitListInfo → Found
unfolding find_slot
find_client guid info =
    let next = suc (length info.priority) in
    found_in_priority
      (found_in_waiting (next + length info.waiting) (find_slot guid next info.waiting))
      (find_slot guid 1 info.priority)

-- waitList.erase(it), where `it` stands at the first entry of the guid.
unfoldable pub erase : ℕ → List Wait → List Wait
erase guid [] = []
erase guid (w ∷ ws) = if w.guid == guid then ws else w ∷ erase guid ws

-- it->timeout = t
unfoldable pub set_timeout : ℕ → ℕ → List Wait → List Wait
set_timeout guid t [] = []
set_timeout guid t (w ∷ ws) =
    if w.guid == guid then record w { timeout = t } ∷ ws else w ∷ set_timeout guid t ws

-- What clientLogin does: it lets the client in, or lets it wait, or calls waitList.erase with an
-- iterator into the other list, which has no defined behaviour: no lists come of that.
pub data Outcome : Type 0 where
  admitted waits foreign_erase : Outcome

unfoldable pub cleaned : ℕ → WaitListInfo → WaitListInfo
unfolding cleanup_list
cleaned now info = record {
  priority = cleanup_list now info.priority;
  waiting = cleanup_list now info.waiting;
}

-- A client that was not found goes to the end of its list.
unfoldable pub enqueue : ℕ → Player → WaitListInfo → WaitListInfo
unfolding get_timeout
enqueue now p info =
    let ahead = length info.priority in
    let all = ahead + length info.waiting in
    if p.is_premium
    then record info {
      priority =
          info.priority
          ++ record { timeout = now + get_timeout (ahead + 1) * 1000; guid = p.guid } ∷ [];
    }
    else record info {
      waiting =
          info.waiting
          ++ record { timeout = now + get_timeout (all + 1) * 1000; guid = p.guid } ∷ [];
    }

-- clientLogin behind the two cleanups.
unfoldable pub at_iterator :
    ℕ → ℕ → ℕ → Player → WaitListInfo → Found → Outcome × Option WaitListInfo
unfolding enqueue set_timeout erase
at_iterator now online limit p info (in_priority slot) =
    if leb (online + slot) limit then (foreign_erase, none) else (
      waits,
      some (record info {
        priority = set_timeout p.guid (now + get_timeout slot * 1000) info.priority;
      }),
    )
at_iterator now online limit p info (in_waiting slot) =
    if leb (online + slot) limit
    then (admitted, some (record info { waiting = erase p.guid info.waiting }))
    else (
      waits,
      some (record info {
        waiting = set_timeout p.guid (now + get_timeout slot * 1000) info.waiting;
      }),
    )
at_iterator now online limit p info (absent slot) = (waits, some (enqueue now p info))

-- What holds of the lists that a call leaves, where it leaves any.
abbrev pub OfLists : (WaitListInfo → Type 0) → Option WaitListInfo → Type 0
OfLists P none = Unit
OfLists P (some info) = P info

abbrev pub no_one : List Wait → Bool
no_one [] = true
no_one (w ∷ ws) = false

unfoldable pub client_login : ℕ → ℕ → ℕ → Player → WaitListInfo → Outcome × Option WaitListInfo
unfolding at_iterator find_client cleaned
client_login now online limit p info =
    if p.can_always_login || p.is_gamemaster
    then (admitted, some info)
    else if limit == 0 || (no_one info.priority && no_one info.waiting && ltb online limit)
    then (admitted, some info)
    else (let info' = cleaned now info in
        at_iterator now online limit p info' (find_client p.guid info'))

abbrev slot_of : Found → ℕ
slot_of (in_priority slot) = slot
slot_of (in_waiting slot) = slot
slot_of (absent slot) = 0

unfoldable pub get_client_slot : ℕ → WaitListInfo → ℕ
unfolding find_client
get_client_slot guid info = slot_of (find_client guid info)
