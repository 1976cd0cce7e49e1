-- ===== src/Network/Message/Bounds.antt =====
-- The writers of NetworkMessage stay inside the array, whatever they are given.
use tibia_server.Base.{ℕ, ◌+◌, ◌≤◌, ◌<◌, ◌≡◌, ◌⊎◌, List, [], ◌∷◌, length}
use tibia_server.Network.Message.{
  Message, ItemKind, max_body_length, add, add_string, add_bytes, add_position, add_item,
  add_item_id,
}
use tibia_server.Position.{Position}

-- A message being written: the position is just behind the body, and room is left.
pub record IsWriter (m : Message) : Type 0 where
  pub in_step : m.position ≡ m.length + 8
  pub bounded : m.position < max_body_length

-- What a writer may do to a message: its position does not go back, the bytes in front of the old
-- position stay, and no byte behind the body's limit is touched.
pub record Wrote (m n : Message) : Type 0 where
  pub writer : IsWriter n
  pub forward : m.position ≤ n.position
  pub kept : (i : ℕ) → i < m.position → n.buffer i ≡ m.buffer i
  pub inside : (i : ℕ) → max_body_length ≤ i → n.buffer i ≡ m.buffer i

-- What addPaddingBytes may do to a message.
pub record Padded (k : ℕ) (m n : Message) : Type 0 where
  pub same_position : n.position ≡ m.position
  pub kept : (i : ℕ) → i < m.position → n.buffer i ≡ m.buffer i
  pub inside : (i : ℕ) → max_body_length ≤ i → n.buffer i ≡ m.buffer i
  pub counted :
      (n.length ≡ m.length) ⊎ ((n.length ≡ m.length + k) × (m.position + k < max_body_length))

-- The calls that lay out an outgoing message.
pub data Write : Type 0 where
  word : ℕ → ℕ → Write
  string : List ℕ → Write
  bytes : List ℕ → Write
  position : Position → Write
  item : ℕ → ℕ → Write
  item_id : ℕ → Write

module _ (items : ℕ → ItemKind) where
  abbrev pub write : Write → Message → Message
  write (word n v) m = add n v m
  write (string bs) m = add_string bs m
  write (bytes bs) m = add_bytes bs m
  write (position p) m = add_position p m
  write (item id count) m = add_item items id count m
  write (item_id id) m = add_item_id items id m

  abbrev pub write_all : List Write → Message → Message
  write_all [] m = m
  write_all (c ∷ cs) m = write_all cs (write c m)
