-- ===== src/Network/Adler/Reference.antt =====
-- The checksum against Adler-32 as it is defined.
use tibia_server.Base.{
  ℕ, zero, suc, ◌+◌, ◌*◌, ◌%◌, ◌≤◌, ◌<◌, ◌≡◌, refl, ap, ◌∙◌, sym, List, [], ◌∷◌, ◌++◌, arith,
  length, take, drop, take-append-drop, length-take, length-drop, All, All-take, All-drop, ltb,
  false,
}
use Prim.Native.Nat.{bit_or}
use tibia_server.Base.Packing.{bit_or-shifted}
use tibia_server.Base.Word.{u32_mod, add32}
use tibia_server.Network.Adler.{
  Sums, adler_modulus, chunk, checksum_limit, first_sums, add_all, reduce, add_chunks, pack,
  adler_checksum,
}

-- Both sums, reduced at each byte.
reference : List ℕ → Sums → Sums
reference [] s = s
reference (x ∷ xs) s =
    let a = (s.a + x) % adler_modulus in
    reference xs (record { a = a; b = (s.b + a) % adler_modulus })

abbrev pub IsByte : ℕ → Type 0
IsByte x = x < 256

-- The sums with no bound on the numbers.
exact : List ℕ → Sums → Sums
exact [] s = s
exact (x ∷ xs) s = exact xs (record { a = s.a + x; b = s.b + (s.a + x) })

-- If 2 b + 2 n a + 255 n (n + 1) stays below 2 ^ 33, summing n bytes does not wrap.
add_all-exact :
    (xs : List ℕ) (s : Sums)
    → All IsByte xs
    → 2 * s.b + 2 * (length xs * s.a) + 255 * (length xs * (length xs + 1)) < 2 * u32_mod
    → s.a + 255 * length xs < u32_mod
    → add_all xs s ≡ exact xs s
unfolding add_all exact add32
add_all-exact [] s h room more = refl
add_all-exact (x ∷ xs) s h room more =
    rw (a_fits, b_fits) (add_all-exact xs _ h.1 (omega (arith, spread)) (omega arith))
  where
    spread : length xs * (s.a + x) ≤ length xs * s.a + 255 * length xs
    spread = grind arith

    a_fits : (s.a + x) % u32_mod ≡ s.a + x
    a_fits = omega arith

    b_fits : (s.b + (s.a + x)) % u32_mod ≡ s.b + (s.a + x)
    b_fits = omega arith

abbrev IsReduced : Sums → Type 0
IsReduced s = (s.a < adler_modulus) × (s.b < adler_modulus)

-- A chunk of at most 5552 bytes, after reduced sums, does not wrap.
add_all-chunk :
    (xs : List ℕ) (s : Sums)
    → All IsByte xs
    → IsReduced s
    → length xs ≤ chunk
    → add_all xs s ≡ exact xs s
add_all-chunk xs s h r short = add_all-exact xs s h (omega (arith, rows, squares)) (omega arith)
  where
    rows : length xs * s.a ≤ chunk * 65520
    rows = grind arith

    squares : length xs * (length xs + 1) ≤ chunk * (chunk + 1)
    squares = grind arith

reduce-exact : (xs : List ℕ) (s : Sums) → reduce (exact xs s) ≡ reference xs (reduce s)
unfolding reduce exact reference
reduce-exact [] s = refl
reduce-exact (x ∷ xs) s = reduce-exact xs _ ∙ ap (reference xs) (rw (a_same, b_same))
  where
    a_same : (s.a + x) % adler_modulus ≡ (s.a % adler_modulus + x) % adler_modulus
    a_same = omega arith

    b_same :
        (s.b + (s.a + x)) % adler_modulus
        ≡ (s.b % adler_modulus + (s.a % adler_modulus + x) % adler_modulus) % adler_modulus
    b_same = omega arith

reduce-IsReduced : (s : Sums) → IsReduced (reduce s)
unfolding reduce
reduce-IsReduced s = omega arith

reduce_reduced : (s : Sums) → IsReduced s → reduce s ≡ s
unfolding reduce
reduce_reduced s r = rw (a_same, b_same)
  where
    a_same : s.a % adler_modulus ≡ s.a
    a_same = omega arith

    b_same : s.b % adler_modulus ≡ s.b
    b_same = omega arith

reference-append :
    (xs ys : List ℕ) (s : Sums) → reference (xs ++ ys) s ≡ reference ys (reference xs s)
unfolding reference
reference-append [] ys s = refl
reference-append (x ∷ xs) ys s = reference-append xs ys _

reference-IsReduced : (xs : List ℕ) (s : Sums) → IsReduced s → IsReduced (reference xs s)
unfolding reference
reference-IsReduced [] s r = r
reference-IsReduced (x ∷ xs) s r = reference-IsReduced xs _ (omega arith)

-- One round of the outer loop, at any chunk.
round-reference :
    (xs : List ℕ) (s : Sums)
    → All IsByte xs
    → IsReduced s
    → length xs ≤ chunk
    → reduce (add_all xs s) ≡ reference xs s
round-reference xs s h r short =
    ap reduce (add_all-chunk xs s h r short)
    ∙ reduce-exact xs s
    ∙ ap (reference xs) (reduce_reduced s r)

reference-nil : (s : Sums) → s ≡ reference [] s
unfolding reference
reference-nil s = refl

add_chunks-reference :
    (fuel : ℕ) (xs : List ℕ) (s : Sums)
    → All IsByte xs
    → IsReduced s
    → length xs ≤ fuel
    → add_chunks fuel xs s ≡ reference xs s
unfolding add_chunks
add_chunks-reference zero [] s h r enough = reference-nil s
add_chunks-reference zero (x ∷ xs) s h r enough = absurd (omega arith)
add_chunks-reference (suc fuel) [] s h r enough = reference-nil s
add_chunks-reference (suc fuel) (x ∷ xs) s h r enough = rw first (
    add_chunks-reference fuel (drop chunk (x ∷ xs)) _ (All-drop IsByte chunk (x ∷ xs) h)
      (reference-IsReduced (take chunk (x ∷ xs)) s r) (omega (arith, length-drop chunk (x ∷ xs)))
    ∙ sym (reference-append (take chunk (x ∷ xs)) (drop chunk (x ∷ xs)) s)
    ∙ ap (λ l. reference l s) (take-append-drop chunk (x ∷ xs)))
  where
    first : reduce (add_all (take chunk (x ∷ xs)) s) ≡ reference (take chunk (x ∷ xs)) s
    first =
        round-reference (take chunk (x ∷ xs)) s (All-take IsByte chunk (x ∷ xs) h) r
          (omega (arith, length-take chunk (x ∷ xs)))

-- The sum of the bytes.
abbrev pub byte_sum : List ℕ → ℕ
byte_sum [] = 0
byte_sum (x ∷ xs) = x + byte_sum xs

-- The sum of the values that `a` takes when the bytes are added to it one after the other.
abbrev pub running_sum : ℕ → List ℕ → ℕ
running_sum a [] = 0
running_sum a (x ∷ xs) = (a + x) + running_sum (a + x) xs

exact-sums :
    (xs : List ℕ) (s : Sums)
    → ((exact xs s).a ≡ s.a + byte_sum xs) × ((exact xs s).b ≡ s.b + running_sum s.a xs)
unfolding exact
exact-sums [] s = (omega arith, omega arith)
exact-sums (x ∷ xs) s =
    let rest = exact-sums xs (record { a = s.a + x; b = s.b + (s.a + x) }) in
    (omega (arith, rest.0), omega (arith, rest.1))

-- The two halves of the word.
pack-sum : (s : Sums) → IsReduced s → pack s ≡ s.b * 65536 + s.a
unfolding pack
pack-sum s r =
    let high : s.b * 65536 % u32_mod ≡ s.b * 65536 = omega arith in
    let both : bit_or (s.b * 65536) s.a ≡ s.b * 65536 + s.a =
      bit_or-shifted 16 s.b s.a (omega arith) in
    rw (high, both) (omega arith)

-- Over at most 24590 bytes the checksum is Adler-32 as RFC 1950 has it: the low half is 1 plus the sum
-- of the bytes, the high half the sum of the values that this sum takes from byte to byte, both
-- modulo 65521.
pub adler_checksum-reference :
    (bytes : List ℕ)
    → All IsByte bytes
    → length bytes ≤ checksum_limit
    → adler_checksum bytes ≡ running_sum 1 bytes % 65521 * 65536 + (1 + byte_sum bytes) % 65521
adler_checksum-reference bytes h short =
    let sums = exact-sums bytes (record { a = 1; b = 0 }) in
    let all : add_chunks (length bytes) bytes first_sums ≡ reduce (exact bytes first_sums) =
      add_chunks-reference (length bytes) bytes first_sums h (omega arith) (omega arith)
      ∙ ap (reference bytes) (sym (reduce_reduced first_sums (omega arith)))
      ∙ sym (reduce-exact bytes first_sums) in
    unfold adler_checksum in
    rw (small, all)
      (pack-sum (reduce (exact bytes first_sums)) (reduce-IsReduced (exact bytes first_sums))
        ∙ unfold reduce in rw (sums.0, sums.1, from_zero) refl)
  where
    from_zero : 0 + running_sum 1 bytes ≡ running_sum 1 bytes
    from_zero = omega arith

    small : ltb checksum_limit (length bytes) ≡ false
    small = ground arith
