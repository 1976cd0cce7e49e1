-- ===== src/Network/Message/Fields.antt =====
-- What the writers of NetworkMessage lay out in the buffer, and in which order.
use tibia_server.Base.{
  ℕ, ◌+◌, ◌^◌, ◌≤◌, ◌<◌, ◌%◌, ◌≡◌, ap, ◌∙◌, List, [], ◌∷◌, ◌++◌, true, false, arith, length,
  length-append, ltb, lt→ltb,
}
use native.Mathlib.Nat.{add_assoc, add-zero}
use tibia_server.Base.Word.{u16_mod}
use tibia_server.Network.Buffer.{write_bytes, le_bytes, length-le_bytes, write_bytes-append}
use tibia_server.Network.Message.{
  Message, max_body_length, max_string, can_add, append_bytes, add, add_string, get, get_string,
}

-- One value of a packet: a number of n bytes, or a string.
pub data Field : Type 0 where
  num : ℕ → ℕ → Field
  text : List ℕ → Field

pub data Shape : Type 0 where
  num_shape : ℕ → Shape
  text_shape : Shape

abbrev pub shape : Field → Shape
shape (num n v) = num_shape n
shape (text bs) = text_shape

abbrev pub field_bytes : Field → List ℕ
field_bytes (num n v) = le_bytes n v
field_bytes (text bs) = le_bytes 2 (length bs) ++ bs

abbrev pub fields_bytes : List Field → List ℕ
fields_bytes [] = []
fields_bytes (f ∷ fs) = field_bytes f ++ fields_bytes fs

abbrev pub add_field : Field → Message → Message
add_field (num n v) m = add n v m
add_field (text bs) m = add_string bs m

abbrev pub add_fields : List Field → Message → Message
add_fields [] m = m
add_fields (f ∷ fs) m = add_fields fs (add_field f m)

abbrev pub get_field : Shape → Message → Field × Message
get_field (num_shape n) m = let (v, m') = get n m in (num n v, m')
get_field text_shape m = let (bs, m') = get_string 0 m in (text bs, m')

abbrev pub get_fields : List Shape → Message → List Field × Message
get_fields [] m = ([], m)
get_fields (s ∷ ss) m =
    let (f, m1) = get_field s m in let (fs, m2) = get_fields ss m1 in (f ∷ fs, m2)

-- A number fits its bytes; a string is within the limit of addString.
abbrev pub Fits : Field → Type 0
Fits (num n v) = v < 256 ^ n
Fits (text bs) = length bs ≤ max_string

abbrev pub AllFit : List Field → Type 0
AllFit [] = Unit
AllFit (f ∷ fs) = Fits f × AllFit fs

-- Writing plainly, where neither counter wraps.
abbrev pub extend : Message → List ℕ → Message
extend m bs = record m {
  buffer = write_bytes m.buffer m.position bs;
  position = m.position + length bs;
  length = m.length + length bs;
}

pub append_bytes-extend :
    (m : Message) (bs : List ℕ)
    → m.length + 8 ≤ m.position
    → m.position + length bs < max_body_length
    → append_bytes m bs ≡ extend m bs
unfolding append_bytes
append_bytes-extend m bs w h = rw (fits_position, fits_length)
  where
    fits_position : (m.position + length bs) % u16_mod ≡ m.position + length bs
    fits_position = omega arith

    fits_length : (m.length + length bs) % u16_mod ≡ m.length + length bs
    fits_length = omega arith

extend-append : (m : Message) (xs ys : List ℕ) → extend (extend m xs) ys ≡ extend m (xs ++ ys)
extend-append m xs ys = simp (length-append, write_bytes-append, add_assoc)

-- A number with room for it is laid out as its bytes.
pub add-extend :
    (n v : ℕ) (m : Message)
    → m.length + 8 ≤ m.position
    → m.position + n < max_body_length
    → add n v m ≡ extend m (le_bytes n v)
unfolding add can_add
add-extend n v m w h =
    rw (lt→ltb (n + m.position) max_body_length (omega arith))
      (append_bytes-extend m (le_bytes n v) w (omega (arith, length-le_bytes n v)))

-- A string within the limit and the room is laid out as its length, in two bytes, and its characters.
pub add_string-extend :
    (bs : List ℕ) (m : Message)
    → m.length + 8 ≤ m.position
    → length bs ≤ max_string
    → m.position + 2 + length bs < max_body_length
    → add_string bs m ≡ extend m (le_bytes 2 (length bs) ++ bs)
add_string-extend bs m w fits h =
    unfold add_string can_add in
    rw (room, short, add-extend 2 (length bs) m w (omega arith))
      (append_bytes-extend _ bs (omega (arith, two)) (omega (arith, two))
        ∙ extend-append m (le_bytes 2 (length bs)) bs)
  where
    room : ltb (length bs + 2 + m.position) max_body_length ≡ true
    room = lt→ltb _ _ (omega arith)

    short : ltb max_string (length bs) ≡ false
    short = ground arith

    two : length (le_bytes 2 (length bs)) ≡ 2
    two = length-le_bytes 2 (length bs)

-- A field that fits, with room for it, is laid out as its bytes.
pub add_field-extend :
    (f : Field) (m : Message)
    → Fits f
    → m.length + 8 ≤ m.position
    → m.position + length (field_bytes f) < max_body_length
    → add_field f m ≡ extend m (field_bytes f)
add_field-extend (num n v) m fits w h = add-extend n v m w (omega (arith, length-le_bytes n v))
add_field-extend (text bs) m fits w h =
    add_string-extend bs m w fits
      (omega (arith, length-append (le_bytes 2 (length bs)) bs, length-le_bytes 2 (length bs)))

-- So is a whole packet.
pub add_fields-extend :
    (fs : List Field) (m : Message)
    → AllFit fs
    → m.length + 8 ≤ m.position
    → m.position + length (fields_bytes fs) < max_body_length
    → add_fields fs m ≡ extend m (fields_bytes fs)
unfolding write_bytes
add_fields-extend [] m fits w h = rw (add-zero m.position, add-zero m.length)
add_fields-extend (f ∷ fs) m fits w h =
    ap (add_fields fs) (add_field-extend f m fits.0 w (omega (arith, split)))
    ∙ add_fields-extend fs _ fits.1 (omega arith) (omega (arith, split))
    ∙ extend-append m (field_bytes f) (fields_bytes fs)
  where
    split : length (fields_bytes (f ∷ fs)) ≡ length (field_bytes f) + length (fields_bytes fs)
    split = length-append (field_bytes f) (fields_bytes fs)
