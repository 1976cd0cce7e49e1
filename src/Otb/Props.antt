-- ===== src/Otb/Props.antt =====
-- The escapes in the properties of a node, and the streams that read and write them.
use tibia_server.Base.{
  ℕ, ◌<◌, ◌≤◌, ◌^◌, false, List, [], ◌∷◌, ◌++◌, some, ◌≡◌, refl, ap, ltb, if◌then◌else◌, length,
  length-append, take_append_left, drop_append_left, arith, Bool-cases, ◌∙◌, inl, inr, leb,
}
use tibia_server.Otb.{escape_char, unescape, get_props, read, read_string, write_string, write}
use mathlib.Core.List.{append_assoc}
use tibia_server.Network.Buffer.{le_bytes, length-le_bytes, le_value-le_bytes}

-- How a byte stands in the properties of a file: behind an escape, if it is one of the marks.
abbrev pub escape_byte : ℕ → List ℕ
escape_byte b = if leb escape_char b then escape_char ∷ b ∷ [] else b ∷ []

unfoldable pub escape : List ℕ → List ℕ
escape [] = []
escape (b ∷ bs) = escape_byte b ++ escape bs

pub unescape-escape : (bs : List ℕ) → unescape false (escape bs) ≡ bs
unfolding unescape escape
unescape-escape [] = refl
unescape-escape (b ∷ bs) = elim (Bool-cases (leb escape_char b)) [
  | inl mark ↦ rw mark (ground (arith, mark, unescape-escape bs))
  | inr plain ↦ rw plain (ground (arith, plain, unescape-escape bs))
]

escape_pos : (b : ℕ) (bs : List ℕ) → 0 < length (escape (b ∷ bs))
unfolding escape
escape_pos b bs = elim (Bool-cases (leb escape_char b)) [
  | inl e ↦ rw e (omega arith)
  | inr e ↦ rw e (omega arith)
]

get_props-unescape : (bs : List ℕ) → 0 < length bs → get_props bs ≡ some (unescape false bs)
unfolding get_props
get_props-unescape [] h = absurd (omega arith)
get_props-unescape (b ∷ bs) h = refl

-- What getProps gives for escaped bytes: the bytes, if there are any.
pub get_props-escape : (b : ℕ) (bs : List ℕ) → get_props (escape (b ∷ bs)) ≡ some (b ∷ bs)
get_props-escape b bs =
    get_props-unescape (escape (b ∷ bs)) (escape_pos b bs) ∙ ap some (unescape-escape (b ∷ bs))

long_enough : (xs ys : List ℕ) (n : ℕ) → length xs ≡ n → ltb (length (xs ++ ys)) n ≡ false
long_enough xs ys n h = ground (arith, length-append {0} xs ys)

pub read-le_bytes :
    (n v : ℕ) (rest : List ℕ) → v < 256 ^ n → read n (le_bytes n v ++ rest) ≡ some (v, rest)
unfolding read
read-le_bytes n v rest h =
    rw
      (
        read,
        long_enough (le_bytes n v) rest n (length-le_bytes n v),
        take_append_left n (le_bytes n v) rest (length-le_bytes n v),
        drop_append_left n (le_bytes n v) rest (length-le_bytes n v),
        le_value-le_bytes n v h,
      )
      refl

read_string-read :
    (str rest p : List ℕ)
    → read 2 p ≡ some (length str, str ++ rest)
    → read_string p ≡ some (str, rest)
unfolding read_string
read_string-read str rest p h =
    rw
      (
        read_string,
        h,
        long_enough str rest (length str) refl,
        take_append_left (length str) str rest refl,
        drop_append_left (length str) str rest refl,
      )
      refl

write_string-le_bytes :
    (str rest : List ℕ)
    → length str ≤ 65535
    → write_string str [] ++ rest ≡ le_bytes 2 (length str) ++ (str ++ rest)
unfolding write_string write
write_string-le_bytes str rest h =
    let short : ltb 65535 (length str) ≡ false = ground arith in
    rw (write_string, short) (append_assoc (le_bytes 2 (length str)) str rest)

-- A string of at most 65535 bytes comes back from the stream that it was written to, with the bytes
-- behind it.
pub read_string-write_string :
    (str rest : List ℕ)
    → length str ≤ 65535
    → read_string (write_string str [] ++ rest) ≡ some (str, rest)
read_string-write_string str rest h = read_string-read str rest (write_string str [] ++ rest) (
    ap (read 2) (write_string-le_bytes str rest h)
    ∙ read-le_bytes 2 (length str) (str ++ rest) (omega arith))
