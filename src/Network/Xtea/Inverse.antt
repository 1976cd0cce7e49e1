-- ===== src/Network/Xtea/Inverse.antt =====
-- Decryption undoes encryption, round by round: the cipher is a Feistel network, so nothing is
-- needed of the exclusive or.
use tibia_server.Base.{ℕ, zero, suc, ◌<◌, ◌≡◌, refl, ap, subst, ◌∙◌, arith}
use tibia_server.Base.Word.{u32_mod, add32, sub32, add32-lt, sub32-lt, sub32-add32, add32-sub32}
use tibia_server.Network.Xtea.{
  Key, Words, delta, rounds, sum_start, term0, term1, encrypt_round, decrypt_round, iterate, key_at,
  encrypt_words, decrypt_words,
}

-- The three locals are 32-bit words.
pub record AreWords (w : Words) : Type 0 where
  pub sum_word : w.sum < u32_mod
  pub v0_word : w.v0 < u32_mod
  pub v1_word : w.v1 < u32_mod

encrypt_round-AreWords : (k : Key) (w : Words) → AreWords (encrypt_round k w)
unfolding encrypt_round
encrypt_round-AreWords k w = record {
  sum_word = sub32-lt _ _;
  v0_word = add32-lt _ _;
  v1_word = add32-lt _ _;
}

-- One round of decryption takes back one round of encryption.
decrypt_round-encrypt_round :
    (k : Key) (w : Words) → AreWords w → decrypt_round k (encrypt_round k w) ≡ w
unfolding encrypt_round decrypt_round
decrypt_round-encrypt_round k w h = cc (sums, v1s, v0s)
  where
    sums : add32 (sub32 w.sum delta) delta ≡ w.sum
    sums = add32-sub32 w.sum delta h.sum_word (omega arith)

    v1s : (decrypt_round k (encrypt_round k w)).v1 ≡ w.v1
    v1s = sub32-add32 w.v1 _ h.v1_word (omega arith)

    v0s : (decrypt_round k (encrypt_round k w)).v0 ≡ w.v0
    v0s = rw (sums, v1s) (sub32-add32 w.v0 _ h.v0_word (omega arith))

iterate-suc : (n : ℕ) (f : Words → Words) (w : Words) → iterate (suc n) f w ≡ f (iterate n f w)
unfolding iterate
iterate-suc zero f w = refl
iterate-suc (suc n) f w = iterate-suc n f (f w)

iterate-AreWords :
    (n : ℕ) (k : Key) (w : Words) → AreWords w → AreWords (iterate n (encrypt_round k) w)
unfolding iterate
iterate-AreWords zero k w h = h
iterate-AreWords (suc n) k w h = iterate-AreWords n k _ (encrypt_round-AreWords k w)

-- Any number of rounds is taken back, in the reverse order.
iterate-iterate :
    (n : ℕ) (k : Key) (w : Words)
    → AreWords w
    → iterate n (decrypt_round k) (iterate n (encrypt_round k) w) ≡ w
unfolding iterate
iterate-iterate zero k w h = refl
iterate-iterate (suc n) k w h =
    iterate-suc n (decrypt_round k) _
    ∙ ap (decrypt_round k) (iterate-iterate n k _ (encrypt_round-AreWords k w))
    ∙ decrypt_round-encrypt_round k w h

-- The sums run through one schedule, whatever the words.
sum-iterate :
    (n : ℕ) (k l : Key) (w u : Words)
    → w.sum ≡ u.sum
    → (iterate n (encrypt_round k) w).sum ≡ (iterate n (encrypt_round l) u).sum
unfolding iterate
sum-iterate zero k l w u e = e
sum-iterate (suc n) k l w u e = sum-iterate n k l _ _ (unfold encrypt_round in rw e)

abbrev zero_key : Key
zero_key = record { k0 = 0; k1 = 0; k2 = 0; k3 = 0 }

abbrev pair : Words → ℕ × ℕ
pair w = (w.v0, w.v1)

abbrev words : ℕ → ℕ → Words
words v0 v1 = record { sum = 0; v0 = v0; v1 = v1 }

sum_end : (iterate rounds (encrypt_round zero_key) (words 0 0)).sum ≡ sum_start
unfolding iterate encrypt_round term0 term1 key_at add32 sub32
sum_end = refl

-- For 32-bit words `decrypt_words` undoes `encrypt_words` under the same key.
pub decrypt_words-encrypt_words :
    (k : Key) (v0 v1 : ℕ)
    → v0 < u32_mod
    → v1 < u32_mod
    → decrypt_words k (encrypt_words k (v0, v1)) ≡ (v0, v1)
decrypt_words-encrypt_words k v0 v1 h0 h1 = unfold decrypt_words encrypt_words in ap pair back
  where
    start : AreWords (words v0 v1)
    start = record { sum_word = omega arith; v0_word = h0; v1_word = h1 }

    last : Words
    last = iterate rounds (encrypt_round k) (words v0 v1)

    sums : last.sum ≡ sum_start
    sums = sum-iterate rounds k zero_key (words v0 v1) (words 0 0) refl ∙ sum_end

    back : iterate rounds (decrypt_round k) (record last { sum = sum_start }) ≡ words v0 v1
    back =
        subst (λ s. iterate rounds (decrypt_round k) (record last { sum = s }) ≡ words v0 v1) sums
          (iterate-iterate rounds k (words v0 v1) start)

-- What `encrypt_words` returns are 32-bit words.
pub encrypt_words-lt :
    (k : Key) (v0 v1 : ℕ)
    → v0 < u32_mod
    → v1 < u32_mod
    → ((encrypt_words k (v0, v1)).0 < u32_mod) × ((encrypt_words k (v0, v1)).1 < u32_mod)
unfolding encrypt_words
encrypt_words-lt k v0 v1 h0 h1 = (last.v0_word, last.v1_word)
  where
    last : AreWords (iterate rounds (encrypt_round k) (words v0 v1))
    last =
        iterate-AreWords rounds k (words v0 v1)
          (record { sum_word = omega arith; v0_word = h0; v1_word = h1 })
