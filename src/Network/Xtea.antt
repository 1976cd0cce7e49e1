-- ===== src/Network/Xtea.antt =====
-- The block cipher of compiler/src/protocol.cpp: the body of the two loops of
-- Protocol::XTEA_encrypt and Protocol::XTEA_decrypt, on one pair of 32-bit words.
-- `Network/Protocol.antt` applies it to a message's bytes.
pub mod Inverse
use Prim.Native.Nat.{bit_and, bit_xor}
use tibia_server.Base.{ℕ, zero, suc, ◌+◌, ◌*◌, ◌/◌, ◌%◌}
use tibia_server.Base.Word.{u32_mod, add32, sub32}

abbrev pub delta : ℕ
delta = 0x61C8_8647

-- The value of `sum` with which decryption begins.
abbrev pub sum_start : ℕ
sum_start = 0xC6EF_3720

abbrev pub rounds : ℕ
rounds = 32

-- uint32_t key[4]
pub record Key : Type 0 where
  pub k0 : ℕ
  pub k1 : ℕ
  pub k2 : ℕ
  pub k3 : ℕ

-- The locals of the inner loop.
pub record Words : Type 0 where
  pub sum : ℕ
  pub v0 : ℕ
  pub v1 : ℕ

-- k[i], for the index of two bits that the code computes.
unfoldable pub key_at : Key → ℕ → ℕ
key_at k zero = k.k0
key_at k (suc zero) = k.k1
key_at k (suc (suc zero)) = k.k2
key_at k (suc (suc (suc i))) = k.k3

-- (v << 4 ^ v >> 5) + v
unfoldable pub mix : ℕ → ℕ
mix v = add32 (bit_xor (v * 16 % u32_mod) (v / 32)) v

-- The term that is added to v0, and the one that is added to v1.
unfoldable pub term0 : Key → ℕ → ℕ → ℕ
unfolding mix
term0 k sum v1 = bit_xor (mix v1) (add32 sum (key_at k (bit_and sum 3)))

unfoldable pub term1 : Key → ℕ → ℕ → ℕ
unfolding mix
term1 k sum v0 = bit_xor (mix v0) (add32 sum (key_at k (bit_and (sum / 2048) 3)))

-- One round of the inner loop of XTEA_encrypt.
unfoldable pub encrypt_round : Key → Words → Words
encrypt_round k w =
    let v0 = add32 w.v0 (term0 k w.sum w.v1 % u32_mod) in
    let sum = sub32 w.sum delta in
    record { sum = sum; v0 = v0; v1 = add32 w.v1 (term1 k sum v0 % u32_mod) }

-- One round of the inner loop of XTEA_decrypt.
pub decrypt_round : Key → Words → Words
decrypt_round k w =
    let v1 = sub32 w.v1 (term1 k w.sum w.v0 % u32_mod) in
    let sum = add32 w.sum delta in
    record { sum = sum; v0 = sub32 w.v0 (term0 k sum v1 % u32_mod); v1 = v1 }

-- `for (int32_t i = 32; --i >= 0;)`: the rounds that are left.
unfoldable pub iterate : ℕ → (Words → Words) → Words → Words
iterate zero f w = w
iterate (suc n) f w = iterate n f (f w)

unfoldable pub encrypt_words : Key → ℕ × ℕ → ℕ × ℕ
encrypt_words k (v0, v1) =
    let w = iterate rounds (encrypt_round k) (record { sum = 0; v0 = v0; v1 = v1 }) in (w.v0, w.v1)

pub decrypt_words : Key → ℕ × ℕ → ℕ × ℕ
decrypt_words k (v0, v1) =
    let w = iterate rounds (decrypt_round k) (record { sum = sum_start; v0 = v0; v1 = v1 }) in
    (w.v0, w.v1)
