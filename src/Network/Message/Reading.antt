-- ===== src/Network/Message/Reading.antt =====
-- What the readers of NetworkMessage find where the writers have been.
use tibia_server.Base.{
  ℕ, ◌+◌, ◌^◌, ◌≤◌, ◌<◌, ◌%◌, ◌≡◌, ap, subst, ◌∙◌, List, [], ◌∷◌, ◌++◌, map, true, arith, length,
  length-append, length_append_inj,
}
use native.Mathlib.Nat.{add_assoc, add-zero}
use tibia_server.Base.Word.{u16_mod}
use tibia_server.Network.Buffer.{
  read_bytes, le_bytes, length-le_bytes, le_value-le_bytes, read_bytes-append,
  read_bytes-write_bytes, length-read_bytes,
}
use tibia_server.Network.Message.{
  Message, max_body_length, max_string, can_read, get, get_chars, get_string,
}
use tibia_server.Network.Message.Fields.{
  Field, num, text, shape, field_bytes, fields_bytes, add_fields, get_field, get_fields, Fits,
  AllFit, extend, add_fields-extend,
}

-- The bytes at the read position are `bs`, and are within the packet and the array.
pub record Holds (m : Message) (bs : List ℕ) : Type 0 where
  pub bytes : read_bytes m.buffer m.position (length bs) ≡ bs
  pub within : m.position + length bs ≤ m.length + 8
  pub bounded : m.position + length bs < max_body_length

abbrev pub advance : Message → ℕ → Message
advance m n = record m { position = m.position + n }

Holds-can_read : (m : Message) (bs : List ℕ) → Holds m bs → can_read m (length bs) ≡ true
unfolding can_read
Holds-can_read m bs h = ground arith

pub get-advance :
    (n v : ℕ) (m : Message) → v < 256 ^ n → Holds m (le_bytes n v) → get n m ≡ (v, advance m n)
get-advance n v m fits h = unfold get in rw (can, wrap, bytes, le_value-le_bytes n v fits)
  where
    size : length (le_bytes n v) ≡ n
    size = length-le_bytes n v

    can : can_read m n ≡ true
    can = subst (λ k. can_read m k ≡ true) size (Holds-can_read m _ h)

    bytes : read_bytes m.buffer m.position n ≡ le_bytes n v
    bytes = subst (λ k. read_bytes m.buffer m.position k ≡ le_bytes n v) size h.bytes

    wrap : (m.position + n) % u16_mod ≡ m.position + n
    wrap = omega (arith, h.bounded, size)

get_chars-advance :
    (bs : List ℕ) (m : Message) → Holds m bs → get_chars (length bs) m ≡ (bs, advance m (length bs))
get_chars-advance bs m h = unfold get_chars in rw (Holds-can_read m bs h, wrap, h.bytes)
  where
    wrap : (m.position + length bs) % u16_mod ≡ m.position + length bs
    wrap = omega (arith, h.bounded)

-- The bytes of two parts are those of the first, and behind them those of the second.
Holds-append :
    (m : Message) (xs ys : List ℕ)
    → Holds m (xs ++ ys)
    → Holds m xs × Holds (advance m (length xs)) ys
Holds-append m xs ys h = (
  record {
    bytes = parts.0;
    within = omega (arith, h.within, sum);
    bounded = omega (arith, h.bounded, sum);
  },
  record {
    bytes = parts.1;
    within = omega (arith, h.within, sum);
    bounded = omega (arith, h.bounded, sum);
  },
)
  where
    sum : length (xs ++ ys) ≡ length xs + length ys
    sum = length-append xs ys

    split :
        read_bytes m.buffer m.position (length xs)
          ++ read_bytes m.buffer (m.position + length xs) (length ys)
        ≡ xs ++ ys
    split =
        subst (λ r. r ≡ xs ++ ys)
          (ap (read_bytes m.buffer m.position) sum
            ∙ read_bytes-append m.buffer m.position (length xs) (length ys))
          h.bytes

    parts :
        (read_bytes m.buffer m.position (length xs) ≡ xs)
        × (read_bytes m.buffer (m.position + length xs) (length ys) ≡ ys)
    parts = length_append_inj _ xs _ ys (length-read_bytes m.buffer m.position (length xs)) split

get_string-advance :
    (bs : List ℕ) (m : Message)
    → length bs ≤ max_string
    → Holds m (le_bytes 2 (length bs) ++ bs)
    → get_string 0 m ≡ (bs, advance m (2 + length bs))
get_string-advance bs m fits h =
    unfold get_string in
    rw (get-advance 2 (length bs) m (omega arith) parts.0)
      (rw (get_chars-advance bs (advance m 2) second) (rw (add_assoc m.position 2 (length bs))))
  where
    parts :
        Holds m (le_bytes 2 (length bs)) × Holds (advance m (length (le_bytes 2 (length bs)))) bs
    parts = Holds-append m (le_bytes 2 (length bs)) bs h

    second : Holds (advance m 2) bs
    second = subst (λ n. Holds (advance m n) bs) (length-le_bytes 2 (length bs)) parts.1

get_field-advance :
    (f : Field) (m : Message)
    → Fits f
    → Holds m (field_bytes f)
    → get_field (shape f) m ≡ (f, advance m (length (field_bytes f)))
get_field-advance (num n v) m fits h = rw (get-advance n v m fits h, length-le_bytes n v)
get_field-advance (text bs) m fits h = rw (
  get_string-advance bs m fits h,
  length-append (le_bytes 2 (length bs)) bs,
  length-le_bytes 2 (length bs),
)

get_fields-advance :
    (fs : List Field) (m : Message)
    → AllFit fs
    → Holds m (fields_bytes fs)
    → get_fields (map shape fs) m ≡ (fs, advance m (length (fields_bytes fs)))
get_fields-advance [] m fits h = rw (add-zero m.position)
get_fields-advance (f ∷ fs) m fits h = rw (get_field-advance f m fits.0 parts.0) (
    rw (get_fields-advance fs _ fits.1 parts.1)
      (rw (add_assoc, length-append (field_bytes f) (fields_bytes fs))))
  where
    parts : Holds m (field_bytes f) × Holds (advance m (length (field_bytes f))) (fields_bytes fs)
    parts = Holds-append m (field_bytes f) (fields_bytes fs) h

-- Read from where the writing began, a packet gives back the values written, in order, and the
-- position and flags at which the writing ended: for numbers that fit their size, strings within
-- the limit, a message whose position is its length plus 8, and room for the whole packet.
pub get_fields-add_fields :
    (fs : List Field) (m : Message)
    → AllFit fs
    → m.position ≡ m.length + 8
    → m.position + length (fields_bytes fs) < max_body_length
    → get_fields (map shape fs) (record (add_fields fs m) { position = m.position })
      ≡ (fs, add_fields fs m)
get_fields-add_fields fs m fits w h =
    rw (add_fields-extend fs m fits (omega arith) h) (get_fields-advance fs start fits holds)
  where
    start : Message
    start = record (extend m (fields_bytes fs)) { position = m.position }

    holds : Holds start (fields_bytes fs)
    holds = record {
      bytes = read_bytes-write_bytes m.buffer m.position (fields_bytes fs);
      within = omega arith;
      bounded = h;
    }
