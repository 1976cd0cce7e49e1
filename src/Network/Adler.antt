-- ===== src/Network/Adler.antt =====
-- adlerChecksum of compiler/src/tools.cpp, over the bytes that its pointer and length give.
pub mod Reference
use Prim.Native.Nat.{bit_or}
use tibia_server.Base.{
  ℕ, zero, suc, ◌*◌, ◌%◌, ◌<◌, arith, List, [], ◌∷◌, ltb, if◌then◌else◌, length, take, drop,
}
use tibia_server.Base.Word.{u32_mod, add32}

abbrev pub adler_modulus : ℕ
adler_modulus = 65521

-- The most bytes that are summed before the sums are reduced.
abbrev pub chunk : ℕ
chunk = 5552

abbrev pub checksum_limit : ℕ
checksum_limit = 24590

pub record Sums : Type 0 where
  pub a : ℕ
  pub b : ℕ

abbrev pub first_sums : Sums
first_sums = record { a = 1; b = 0 }

-- The inner loop, `a += *data++; b += a;`, over the bytes of a chunk.
unfoldable pub add_all : List ℕ → Sums → Sums
add_all [] s = s
add_all (x ∷ xs) s = let a = add32 s.a x in add_all xs (record { a = a; b = add32 s.b a })

unfoldable pub reduce : Sums → Sums
reduce s = record { a = s.a % adler_modulus; b = s.b % adler_modulus }

-- The outer loop; each round takes at least one byte, so the length is fuel enough.
unfoldable pub add_chunks : ℕ → List ℕ → Sums → Sums
add_chunks zero bytes s = s
add_chunks (suc fuel) [] s = s
add_chunks (suc fuel) (x ∷ xs) s =
    add_chunks fuel (drop chunk (x ∷ xs)) (reduce (add_all (take chunk (x ∷ xs)) s))

-- (b << 16) | a
unfoldable pub pack : Sums → ℕ
pack s = bit_or (s.b * 65536 % u32_mod) s.a % u32_mod

unfoldable pub adler_checksum : List ℕ → ℕ
unfolding add_chunks pack
adler_checksum bytes =
    if ltb checksum_limit (length bytes)
    then 0
    else pack (add_chunks (length bytes) bytes first_sums)

-- A checksum is a 32-bit word.
pub adler_checksum-lt : (bytes : List ℕ) → adler_checksum bytes < u32_mod
unfolding adler_checksum
adler_checksum-lt bytes = ground arith
