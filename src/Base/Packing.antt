-- ===== src/Base/Packing.antt =====
-- Two numbers in one word: `|` of a shifted number and of one that fits into the free digits adds.
use Prim.Native.Nat.{bit_or, max, digits, bit_or-bitwise}
use native.Mathlib.Nat.{pow-suc}
use mathlib.Core.Path.{◌≡◌, refl, ap, ◌∙◌}
use Prim.Native.Nat.{ℕ, zero, suc, ◌+◌, ◌*◌, ◌/◌, ◌^◌, ◌≤◌, ◌<◌}
use native.Mathlib.Omega.{arith}

-- `|` digit by digit, with any count of digits that is enough for the first number.
abbrev or_digits : ℕ → ℕ → ℕ → ℕ
or_digits n a b = digits (λ y. y) max n a b

or_digits-zero : (n a : ℕ) → a ≤ n → or_digits n a 0 ≡ a
or_digits-zero zero a h = omega arith
or_digits-zero (suc n) zero h = refl
or_digits-zero (suc n) (suc a) h = omega (arith, or_digits-zero n (suc a / 2) (omega arith))

twice_shifted : (q k : ℕ) → q * 2 ^ suc k ≡ (q * 2 ^ k) * 2
twice_shifted q k = omega (arith, ap (λ (p : ℕ). q * p) (pow-suc 2 k))

or_digits-shifted : (k n q a b : ℕ) → a ≤ n → a ≡ q * 2 ^ k → b < 2 ^ k → or_digits n a b ≡ a + b
or_digits-shifted k zero q a b h e fits = omega arith
or_digits-shifted k (suc n) q zero b h e fits = omega arith
or_digits-shifted zero (suc n) q (suc a) b h e fits =
    let none_free : b ≡ 0 = omega (arith, fits) in
    rw none_free (omega (arith, or_digits-zero (suc n) (suc a) h))
or_digits-shifted (suc k) (suc n) q (suc a) b h e fits =
    let even : suc a ≡ (q * 2 ^ k) * 2 = e ∙ twice_shifted q k in
    let room : b / 2 < 2 ^ k = omega (arith, fits, pow-suc 2 k) in
    let higher =
      or_digits-shifted k n q (suc a / 2) (b / 2) (omega arith) (omega (arith, even)) room in
    omega (arith, even, higher)

pub bit_or-shifted : (k q b : ℕ) → b < 2 ^ k → bit_or (q * 2 ^ k) b ≡ q * 2 ^ k + b
bit_or-shifted k q b fits =
    simp bit_or-bitwise (or_digits-shifted k (q * 2 ^ k) q (q * 2 ^ k) b (omega arith) refl fits)
