-- ===== src/Network/Message.antt =====
-- compiler/src/networkmessage.h and networkmessage.cpp: class NetworkMessage. `add<T>` and `get<T>`
-- are `add` and `get` at sizeof(T); addByte and getByte are the same code at size 1. The template
-- instances are the unsigned types of 1, 2, 4 and 8 bytes. Two-byte fields wrap; a negative count
-- of skipBytes is given as its 16-bit pattern.
pub mod Bounds
pub mod Fields
pub mod Reading
pub mod Reads
use Prim.Native.Nat.{bit_and}
use tibia_server.Base.{
  ℕ, zero, suc, ◌+◌, ◌-◌, ◌*◌, ◌%◌, min, Bool, true, false, not, ◌||◌, ◌&&◌, List, [], ◌∷◌, ◌++◌,
  ltb, leb, ◌==◌, if◌then◌else◌, length, replicate, get_or,
}
use tibia_server.Base.Word.{u16_mod}
use tibia_server.Position.{Position}
use tibia_server.Network.Buffer.{Bytes, write_bytes, read_bytes, le_bytes, le_value}

-- NETWORKMESSAGE_MAXSIZE, and MAX_BODY_LENGTH = 24590 - 2 - 4 - 8.
abbrev pub max_size : ℕ
max_size = 24590

abbrev pub max_body_length : ℕ
max_body_length = 24576

abbrev pub max_protocol_body_length : ℕ
max_protocol_body_length = max_body_length - 10

abbrev pub initial_position : ℕ
initial_position = 8

abbrev pub max_string : ℕ
max_string = 8192

pub record Message : Type 0 where
  pub length : ℕ
  pub position : ℕ
  pub overrun : Bool
  pub buffer : Bytes

-- info = {}
unfoldable pub reset : Message → Message
reset m = record m { length = 0; position = initial_position; overrun = false }

unfoldable pub can_add : Message → ℕ → Bool
can_add m size = ltb (size + m.position) max_body_length

unfoldable pub can_read : Message → ℕ → Bool
can_read m size = not (ltb (m.length + 8) (m.position + size) || leb (max_size - m.position) size)

-- The copy, and the step of both counters, which the writers share.
unfoldable pub append_bytes : Message → List ℕ → Message
append_bytes m bs = record m {
  buffer = write_bytes m.buffer m.position bs;
  position = (m.position + length bs) % u16_mod;
  length = (m.length + length bs) % u16_mod;
}

-- add<T>(value), where sizeof(T) is n.
unfoldable pub add : ℕ → ℕ → Message → Message
unfolding can_add append_bytes
add n value m = if can_add m n then append_bytes m (le_bytes n value) else m

unfoldable pub add_byte : ℕ → Message → Message
unfolding add
add_byte value m = add 1 value m

unfoldable pub add_string : List ℕ → Message → Message
unfolding can_add append_bytes add
add_string value m =
    if not (can_add m (length value + 2)) || ltb max_string (length value)
    then m
    else append_bytes (add 2 (length value) m) value

unfoldable pub add_bytes : List ℕ → Message → Message
unfolding can_add append_bytes
add_bytes bytes m =
    if not (can_add m (length bytes)) || ltb max_string (length bytes)
    then m
    else append_bytes m bytes

-- The position stays where it is.
unfoldable pub add_padding_bytes : ℕ → Message → Message
unfolding can_add
add_padding_bytes n m = if not (can_add m n) then m else record m {
  buffer = write_bytes m.buffer m.position (replicate n 0x33);
  length = (m.length + n) % u16_mod;
}

unfoldable pub add_position : Position → Message → Message
unfolding add add_byte
add_position p m = add_byte p.z (add 2 p.y (add 2 p.x m))

-- get<T>(), where sizeof(T) is n: the value read, and the message after the call.
unfoldable pub get : ℕ → Message → ℕ × Message
unfolding can_read
get n m =
    if can_read m n
    then (
      le_value (read_bytes m.buffer m.position n),
      record m { position = (m.position + n) % u16_mod },
    )
    else (0, record m { overrun = true })

unfoldable pub get_byte : Message → ℕ × Message
unfolding get
get_byte m = get 1 m

-- The body of getString once the length is known.
unfoldable pub get_chars : ℕ → Message → List ℕ × Message
unfolding can_read
get_chars n m =
    if can_read m n
    then (read_bytes m.buffer m.position n, record m { position = (m.position + n) % u16_mod })
    else ([], record m { overrun = true })

-- getString(stringLen); the default argument is 0.
unfoldable pub get_string : ℕ → Message → List ℕ × Message
unfolding get_chars get
get_string string_len m =
    if string_len == 0 then (let (n, m') = get 2 m in get_chars n m') else get_chars string_len m

unfoldable pub get_position : Message → Position × Message
unfolding get get_byte
get_position m =
    let (x, m1) = get 2 m in
    let (y, m2) = get 2 m1 in let (z, m3) = get_byte m2 in (record { x = x; y = y; z = z }, m3)

-- buffer[--info.position]
unfoldable pub get_previous_byte : Message → ℕ × Message
get_previous_byte m =
    let p = (m.position + (u16_mod - 1)) % u16_mod in (m.buffer p, record m { position = p })

unfoldable pub skip_bytes : ℕ → Message → Message
skip_bytes count m = record m { position = (m.position + count) % u16_mod }

-- The size that the header of an incoming packet gives, which is also stored.
unfoldable pub decode_header : Message → ℕ × Message
decode_header m =
    let size = m.buffer 0 + m.buffer 1 * 256 in (size, record m { length = size % u16_mod })

abbrev pub set_length : ℕ → Message → Message
set_length n m = record m { length = n % u16_mod }

-- getBodyBuffer also moves the position behind the two bytes of the header.
abbrev pub body_buffer : Message → Message
body_buffer m = record m { position = 2 }

-- What addItem reads of an ItemType; the table is loaded from the item files.
pub record ItemKind : Type 0 where
  pub client_id : ℕ
  pub stackable : Bool
  pub is_splash : Bool
  pub is_fluid_container : Bool

abbrev pub fluid_map : List ℕ
fluid_map = 0 ∷ 1 ∷ 5 ∷ 3 ∷ 6 ∷ 8 ∷ 9 ∷ 2 ∷ []

module _ (items : ℕ → ItemKind) where
  -- addItem(id, count)
  unfoldable pub add_item : ℕ → ℕ → Message → Message
  unfolding add add_byte
  add_item id count m =
      let it = items id in
      let m' = add 2 it.client_id m in
      if it.stackable
      then add_byte count m'
      else if it.is_splash || it.is_fluid_container
      then add_byte (get_or fluid_map (bit_and count 7) 0) m'
      else m'

  -- addItemId(itemId)
  unfoldable pub add_item_id : ℕ → Message → Message
  unfolding add
  add_item_id id m = add 2 (items id).client_id m
