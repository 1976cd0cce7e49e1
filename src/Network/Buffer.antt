-- ===== src/Network/Buffer.antt =====
-- The byte array behind a network message (`uint8_t buffer[NETWORKMESSAGE_MAXSIZE]` of
-- compiler/src/networkmessage.h), as a function of the index, with memcpy into and out of it.
-- That no access is out of bounds is stated where the array is used.
use tibia_server.Base.{
  ℕ, zero, suc, ◌+◌, ◌*◌, ◌/◌, ◌%◌, ◌^◌, ◌≤◌, ◌<◌, ◌≡◌, refl, ap, List, [], ◌∷◌, ◌++◌, arith, ◌==◌,
  if◌then◌else◌, length, dec_le, ap₂, ◌∙◌, All, replicate, dec_le,
}
use native.Mathlib.Nat.{pow-suc, zero-add, add-zero, suc-add, add-suc}

abbrev pub Bytes : Type 0
Bytes = ℕ → ℕ

pub put : Bytes → ℕ → ℕ → Bytes
put buf p b i = if i == p then b else buf i

-- memcpy(buffer + p, bs, length bs)
unfoldable pub write_bytes : Bytes → ℕ → List ℕ → Bytes
unfolding put
write_bytes buf p [] = buf
write_bytes buf p (b ∷ bs) = write_bytes (put buf p b) (suc p) bs

-- memcpy(v, buffer + p, n)
unfoldable pub read_bytes : Bytes → ℕ → ℕ → List ℕ
read_bytes buf p zero = []
read_bytes buf p (suc n) = buf p ∷ read_bytes buf (suc p) n

-- The n bytes of a number, the lowest first, as a little-endian machine stores it.
unfoldable pub le_bytes : ℕ → ℕ → List ℕ
le_bytes zero v = []
le_bytes (suc n) v = v % 256 ∷ le_bytes n (v / 256)

unfoldable pub le_value : List ℕ → ℕ
le_value [] = 0
le_value (b ∷ bs) = b + 256 * le_value bs

pub length-le_bytes : (n v : ℕ) → length (le_bytes n v) ≡ n
unfolding le_bytes
length-le_bytes zero v = refl
length-le_bytes (suc n) v = ap suc (length-le_bytes n (v / 256))

-- A number below 256 ^ n is read back from its n bytes.
pub le_value-le_bytes : (n v : ℕ) → v < 256 ^ n → le_value (le_bytes n v) ≡ v
unfolding le_bytes le_value
le_value-le_bytes zero v h = omega arith
le_value-le_bytes (suc n) v h =
    omega (arith, le_value-le_bytes n (v / 256) (omega (arith, pow-suc 256 n)))

pub length-read_bytes : (buf : Bytes) (p n : ℕ) → length (read_bytes buf p n) ≡ n
unfolding read_bytes
length-read_bytes buf p zero = refl
length-read_bytes buf p (suc n) = ap suc (length-read_bytes buf (suc p) n)

pub write_bytes_before :
    (buf : Bytes) (p : ℕ) (bs : List ℕ) (i : ℕ) → i < p → write_bytes buf p bs i ≡ buf i
unfolding write_bytes
write_bytes_before buf p [] i h = refl
write_bytes_before buf p (b ∷ bs) i h =
    ground (arith, write_bytes_before (put buf p b) (suc p) bs i)

pub write_bytes_after :
    (buf : Bytes) (p : ℕ) (bs : List ℕ) (i : ℕ) → p + length bs ≤ i → write_bytes buf p bs i ≡ buf i
unfolding write_bytes
write_bytes_after buf p [] i h = refl
write_bytes_after buf p (b ∷ bs) i h = ground (arith, write_bytes_after (put buf p b) (suc p) bs i)

-- Reading depends only on the bytes that are read.
pub read_bytes-ext :
    (f g : Bytes) (p n : ℕ)
    → ((i : ℕ) → p ≤ i → i < p + n → f i ≡ g i)
    → read_bytes f p n ≡ read_bytes g p n
unfolding read_bytes
read_bytes-ext f g p zero h = refl
read_bytes-ext f g p (suc n) h =
    ap₂ ◌∷◌ (h p (omega arith) (omega arith))
      (read_bytes-ext f g (suc p) n (λ i a b. h i (omega arith) (omega arith)))

pub read_bytes-write_bytes :
    (buf : Bytes) (p : ℕ) (bs : List ℕ) → read_bytes (write_bytes buf p bs) p (length bs) ≡ bs
unfolding read_bytes write_bytes
read_bytes-write_bytes buf p [] = refl
read_bytes-write_bytes buf p (b ∷ bs) = ground (
  arith,
  write_bytes_before (put buf p b) (suc p) bs p,
  read_bytes-write_bytes (put buf p b) (suc p) bs,
)

pub read_bytes-write_bytes_below :
    (buf : Bytes) (p : ℕ) (bs : List ℕ) (q n : ℕ)
    → q + n ≤ p
    → read_bytes (write_bytes buf p bs) q n ≡ read_bytes buf q n
read_bytes-write_bytes_below buf p bs q n h =
    read_bytes-ext _ _ q n (λ i a b. write_bytes_before buf p bs i (omega arith))

pub read_bytes-write_bytes_above :
    (buf : Bytes) (p : ℕ) (bs : List ℕ) (q n : ℕ)
    → p + length bs ≤ q
    → read_bytes (write_bytes buf p bs) q n ≡ read_bytes buf q n
read_bytes-write_bytes_above buf p bs q n h =
    read_bytes-ext _ _ q n (λ i a b. write_bytes_after buf p bs i (omega arith))

pub read_bytes-append :
    (buf : Bytes) (p m n : ℕ)
    → read_bytes buf p (m + n) ≡ read_bytes buf p m ++ read_bytes buf (p + m) n
unfolding read_bytes
read_bytes-append buf p zero n = simp (zero-add, add-zero)
read_bytes-append buf p (suc m) n = simp (suc-add, add-suc, read_bytes-append buf (suc p) m n)

-- Two writes side by side are one.
pub write_bytes-append :
    (buf : Bytes) (p : ℕ) (xs ys : List ℕ)
    → write_bytes buf p (xs ++ ys) ≡ write_bytes (write_bytes buf p xs) (p + length xs) ys
unfolding write_bytes
write_bytes-append buf p [] ys = simp add-zero
write_bytes-append buf p (x ∷ xs) ys =
    simp (add-suc, suc-add, write_bytes-append (put buf p x) (suc p) xs ys)

-- Copying n bytes gives each of them.
pub write_bytes-read_bytes :
    (buf f : Bytes) (p n i : ℕ) → p ≤ i → i < p + n → write_bytes buf p (read_bytes f p n) i ≡ f i
unfolding write_bytes read_bytes
write_bytes-read_bytes buf f p zero i lo hi = absurd (omega arith)
write_bytes-read_bytes buf f p (suc n) i lo hi = elim (dec_le (suc p) i) [
  | yes above ↦ write_bytes-read_bytes (put buf p (f p)) f (suc p) n i above (omega arith)
  | no below ↦
      let e : i ≡ p = omega arith in
      rw e (
        write_bytes_before (put buf p (f p)) (suc p) (read_bytes f (suc p) n) p (omega arith)
        ∙ ground arith)
]

abbrev pub IsByte : ℕ → Type 0
IsByte b = b < 256

abbrev pub AllBytes : Bytes → ℕ → ℕ → Type 0
AllBytes buf p n = (i : ℕ) → p ≤ i → i < p + n → IsByte (buf i)

-- Bytes are read back from the number that they make up.
pub le_bytes-le_value :
    (buf : Bytes) (p n : ℕ)
    → AllBytes buf p n
    → le_bytes n (le_value (read_bytes buf p n)) ≡ read_bytes buf p n
unfolding le_bytes le_value read_bytes
le_bytes-le_value buf p zero h = refl
le_bytes-le_value buf p (suc n) h =
    ap₂ ◌∷◌ low (ap (le_bytes n) high ∙ le_bytes-le_value buf (suc p) n rest)
  where
    byte : buf p < 256
    byte = h p (omega arith) (omega arith)

    low : (buf p + 256 * le_value (read_bytes buf (suc p) n)) % 256 ≡ buf p
    low = omega arith

    high :
        (buf p + 256 * le_value (read_bytes buf (suc p) n)) / 256
        ≡ le_value (read_bytes buf (suc p) n)
    high = omega arith

    rest : AllBytes buf (suc p) n
    rest i lo hi = h i (omega arith) (omega arith)

-- n bytes make up a number below 256 ^ n.
pub le_value-lt :
    (buf : Bytes) (p n : ℕ) → AllBytes buf p n → le_value (read_bytes buf p n) < 256 ^ n
unfolding le_value read_bytes
le_value-lt buf p zero h = omega arith
le_value-lt buf p (suc n) h = omega (
  arith,
  pow-suc 256 n,
  h p (omega arith) (omega arith),
  le_value-lt buf (suc p) n (λ i lo hi. h i (omega arith) (omega arith)),
)

-- Bytes written over bytes are bytes.
pub write_bytes-AllBytes :
    (buf : Bytes) (p : ℕ) (bs : List ℕ)
    → All IsByte bs
    → AllBytes (write_bytes buf p bs) p (length bs)
unfolding write_bytes
write_bytes-AllBytes buf p [] h i lo hi = absurd (omega arith)
write_bytes-AllBytes buf p (b ∷ bs) h i lo hi = elim (dec_le (suc p) i) [
  | yes above ↦ write_bytes-AllBytes (put buf p b) (suc p) bs h.1 i above (omega arith)
  | no below ↦
      let e : i ≡ p = omega arith in
      rw e (rw (write_bytes_before (put buf p b) (suc p) bs p (omega arith)) (ground (arith, h.0)))
]

pub replicate-AllBytes : (n b : ℕ) → IsByte b → All IsByte (replicate n b)
replicate-AllBytes zero b h = tt
replicate-AllBytes (suc n) b h = (h, replicate-AllBytes n b h)

pub le_bytes-AllBytes : (n v : ℕ) → All IsByte (le_bytes n v)
unfolding le_bytes
le_bytes-AllBytes zero v = tt
le_bytes-AllBytes (suc n) v = (omega arith, le_bytes-AllBytes n (v / 256))
