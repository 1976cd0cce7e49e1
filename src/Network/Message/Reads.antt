-- ===== src/Network/Message/Reads.antt =====
-- The readers of NetworkMessage that check their bounds stay inside the packet and the array, whatever it holds.
use tibia_server.Base.{
  ℕ, ◌+◌, ◌≤◌, ◌<◌, ◌==◌, ◌≡◌, refl, ap, ◌∙◌, sym, List, [], ◌∷◌, ◌++◌, true, false, arith, Bool,
  inl, inr, Bool-cases, if◌then◌else◌,
}
use tibia_server.Network.Buffer.{Bytes, read_bytes, read_bytes-ext}
use tibia_server.Network.Message.{
  Message, max_size, can_read, get, get_byte, get_chars, get_string, get_position, skip_bytes,
}

-- The calls that take an incoming message apart, but for getPreviousByte, and what they return, as a
-- list of numbers.
pub data Read : Type 0 where
  word : ℕ → Read
  string : ℕ → Read
  position : Read
  skip : ℕ → Read

abbrev pub read : Read → Message → List ℕ × Message
read (word n) m = let (v, m') = get n m in (v ∷ [], m')
read (string n) m = get_string n m
read position m = let (p, m') = get_position m in (p.x ∷ p.y ∷ p.z ∷ [], m')
read (skip count) m = ([], skip_bytes count m)

abbrev pub read_all : List Read → Message → List ℕ × Message
read_all [] m = ([], m)
read_all (c ∷ cs) m = let (v, m1) = read c m in let (vs, m2) = read_all cs m1 in (v ++ vs, m2)

-- The bytes in front of the end of the packet and of the end of the array.
abbrev pub AgreeInside : ℕ → Bytes → Bytes → Type 0
AgreeInside len f g = (i : ℕ) → i < len + 8 → i < max_size → g i ≡ f i

abbrev with_buffer : Bytes → Message → Message
with_buffer g m = record m { buffer = g }

abbrev with_buffer_after {ℓ} : {A : Type ℓ} → Bytes → A × Message → A × Message
with_buffer_after g (v, m) = (v, with_buffer g m)

can_read-le :
    (n : ℕ) (m : Message)
    → can_read m n ≡ true
    → (m.position + n ≤ m.length + 8) × (m.position + n < max_size)
unfolding can_read
can_read-le n m e = ground arith

inside-ext :
    (n : ℕ) (m : Message) (g : Bytes)
    → AgreeInside m.length m.buffer g
    → can_read m n ≡ true
    → read_bytes g m.position n ≡ read_bytes m.buffer m.position n
inside-ext n m g same e =
    read_bytes-ext g m.buffer m.position n
      (λ i lo hi. same i (omega (arith, can_read-le n m e)) (omega (arith, can_read-le n m e)))

get-ext :
    (n : ℕ) (m : Message) (g : Bytes)
    → AgreeInside m.length m.buffer g
    → get n (with_buffer g m) ≡ with_buffer_after g (get n m)
unfolding get
get-ext n m g same = elim (Bool-cases (can_read m n)) [
  | inl e ↦ rw (can_same, e, inside-ext n m g same e)
  | inr e ↦ rw (can_same, e)
]
  where
    can_same : can_read (with_buffer g m) n ≡ can_read m n
    can_same = unfold can_read in refl

get_chars-ext :
    (n : ℕ) (m : Message) (g : Bytes)
    → AgreeInside m.length m.buffer g
    → get_chars n (with_buffer g m) ≡ with_buffer_after g (get_chars n m)
unfolding get_chars
get_chars-ext n m g same = elim (Bool-cases (can_read m n)) [
  | inl e ↦ rw (can_same, e, inside-ext n m g same e)
  | inr e ↦ rw (can_same, e)
]
  where
    can_same : can_read (with_buffer g m) n ≡ can_read m n
    can_same = unfold can_read in refl

-- A read leaves the bytes and the length.
abbrev pub Keeps : Message → Message → Type 0
Keeps m n = (n.buffer ≡ m.buffer) × (n.length ≡ m.length)

-- A reader whose result does not depend on what lies behind the packet or the array.
pub record IsInside {ℓ} {A : Type ℓ} (f : Message → A × Message) : Type ℓ where
  pub ext :
      (m : Message) (g : Bytes)
      → AgreeInside m.length m.buffer g
      → f (with_buffer g m) ≡ with_buffer_after g (f m)
  pub keeps : (m : Message) → Keeps m (f m).1

abbrev bind {ℓ κ} :
    {A : Type ℓ} {B : Type κ}
    → (Message → A × Message)
    → (A → Message → B × Message)
    → Message
    → B × Message
bind f h m = let (a, m') = f m in h a m'

bind-IsInside {ℓ κ} :
    {A : Type ℓ} {B : Type κ} (f : Message → A × Message) (h : A → Message → B × Message)
    → IsInside f
    → ((a : A) → IsInside (h a))
    → IsInside (bind f h)
bind-IsInside f h F H = record {
  ext = λ m g same. rw (F.ext m g same) ((H (f m).0).ext (f m).1 g (moved m g same));
  keeps = λ m. (
    ((H (f m).0).keeps (f m).1).0 ∙ (F.keeps m).0,
    ((H (f m).0).keeps (f m).1).1 ∙ (F.keeps m).1,
  );
}
  where
    moved :
        (m : Message) (g : Bytes)
        → AgreeInside m.length m.buffer g
        → AgreeInside (f m).1.length (f m).1.buffer g
    moved m g same i lt hi =
        same i (omega (arith, (F.keeps m).1)) hi ∙ ap (λ b. b i) (sym (F.keeps m).0)

pure-IsInside {ℓ} : {A : Type ℓ} (a : A) → IsInside (λ m. (a, m))
pure-IsInside a = record { ext = λ m g same. refl; keeps = λ m. (refl, refl) }

get-IsInside : (n : ℕ) → IsInside (get n)
get-IsInside n = record {
  ext = λ m g same. get-ext n m g same;
  keeps = λ m. unfold get in ground arith;
}

get_chars-IsInside : (n : ℕ) → IsInside (get_chars n)
get_chars-IsInside n = record {
  ext = λ m g same. get_chars-ext n m g same;
  keeps = λ m. unfold get_chars in ground arith;
}

if-IsInside {ℓ} :
    {A : Type ℓ} (b : Bool) (f g : Message → A × Message)
    → IsInside f
    → IsInside g
    → IsInside (λ m. if b then f m else g m)
if-IsInside true f g F G = F
if-IsInside false f g F G = G

get_string-IsInside : (n : ℕ) → IsInside (get_string n)
unfolding get_string
get_string-IsInside n =
    if-IsInside (n == 0) (bind (get 2) get_chars) (get_chars n)
      (bind-IsInside (get 2) get_chars (get-IsInside 2) get_chars-IsInside) (get_chars-IsInside n)

get_position-IsInside : IsInside get_position
unfolding get_position get_byte
get_position-IsInside = bind-IsInside (get 2) _ (get-IsInside 2) λ x.
    bind-IsInside (get 2) _ (get-IsInside 2) λ y.
      bind-IsInside (get 1) _ (get-IsInside 1) λ z. pure-IsInside (record { x = x; y = y; z = z })

read-IsInside : (c : Read) → IsInside (read c)
read-IsInside (word n) = bind-IsInside (get n) _ (get-IsInside n) (λ v. pure-IsInside (v ∷ []))
read-IsInside (string n) = get_string-IsInside n
read-IsInside position =
    bind-IsInside get_position _ get_position-IsInside (λ p. pure-IsInside (p.x ∷ p.y ∷ p.z ∷ []))
read-IsInside (skip count) =
    unfold skip_bytes in record { ext = λ m g same. refl; keeps = λ m. (refl, refl) }

-- No sequence of calls of get, getByte, getString, getPosition and skipBytes depends on a byte behind the packet's end or the array's: with such
-- bytes changed, it returns the same values and ends at the same position, with the same length and
-- overrun flag; and no such sequence changes the bytes or the length. The one other reader,
-- getPreviousByte, which checks nothing, is not among these calls.
pub read_all-IsInside : (cs : List Read) → IsInside (read_all cs)
read_all-IsInside [] = pure-IsInside []
read_all-IsInside (c ∷ cs) =
    bind-IsInside (read c) _ (read-IsInside c)
      λ v. bind-IsInside (read_all cs) _ (read_all-IsInside cs) (λ vs. pure-IsInside (v ++ vs))
