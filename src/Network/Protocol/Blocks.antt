-- ===== src/Network/Protocol/Blocks.antt =====
-- The block loop, seen from the bytes that it replaces.
use tibia_server.Base.{
  ℕ, zero, suc, ◌+◌, ◌*◌, ◌≤◌, ◌<◌, ◌≡◌, refl, ap, ap₂, subst, ◌∙◌, ◌⊎◌, inl, inr, dec_le, arith,
}
use tibia_server.Base.Word.{u32_mod}
use tibia_server.Network.Buffer.{
  Bytes, AllBytes, read_bytes-ext, write_bytes-read_bytes, le_bytes-le_value, le_value-lt,
  write_bytes, read_bytes, le_bytes, le_value, write_bytes_before, write_bytes_after,
  read_bytes-write_bytes, read_bytes-write_bytes_below, length-le_bytes, le_value-le_bytes,
}
use tibia_server.Network.Protocol.{crypt_blocks}

-- The loop touches its blocks only.
pub crypt_blocks_before :
    (f : ℕ × ℕ → ℕ × ℕ) (n p : ℕ) (buf : Bytes) (i : ℕ) → i < p → crypt_blocks f n p buf i ≡ buf i
unfolding crypt_blocks
crypt_blocks_before f zero p buf i h = refl
crypt_blocks_before f (suc n) p buf i h =
    crypt_blocks_before f n (p + 8) _ i (omega arith)
    ∙ write_bytes_before _ (p + 4) _ i (omega arith)
    ∙ write_bytes_before buf p _ i h

pub crypt_blocks_after :
    (f : ℕ × ℕ → ℕ × ℕ) (n p : ℕ) (buf : Bytes) (i : ℕ)
    → p + n * 8 ≤ i
    → crypt_blocks f n p buf i ≡ buf i
unfolding crypt_blocks
crypt_blocks_after f zero p buf i h = refl
crypt_blocks_after f (suc n) p buf i h =
    crypt_blocks_after f n (p + 8) _ i (omega arith)
    ∙ write_bytes_after _ (p + 4) (le_bytes 4 _) i (omega (arith, length-le_bytes 4))
    ∙ write_bytes_after buf p (le_bytes 4 _) i (omega (arith, length-le_bytes 4))

-- The two words of the block at p, and a block written there.
abbrev block_at : Bytes → ℕ → ℕ × ℕ
block_at buf p = (le_value (read_bytes buf p 4), le_value (read_bytes buf (p + 4) 4))

abbrev put_block : Bytes → ℕ → ℕ × ℕ → Bytes
put_block buf p v = write_bytes (write_bytes buf p (le_bytes 4 v.0)) (p + 4) (le_bytes 4 v.1)

abbrev IsWordPair : ℕ × ℕ → Type 0
IsWordPair v = (v.0 < u32_mod) × (v.1 < u32_mod)

block_at-put_block :
    (buf : Bytes) (p : ℕ) (v : ℕ × ℕ) → IsWordPair v → block_at (put_block buf p v) p ≡ v
block_at-put_block buf p (v0, v1) h = ap₂ {C = ℕ × ℕ} (λ a b. (a, b)) first second
  where
    first : le_value (read_bytes (put_block buf p (v0, v1)) p 4) ≡ v0
    first =
        ap le_value (
          read_bytes-write_bytes_below _ (p + 4) (le_bytes 4 v1) p 4 (omega arith)
          ∙ subst (λ n. read_bytes (write_bytes buf p (le_bytes 4 v0)) p n ≡ le_bytes 4 v0)
              (length-le_bytes 4 v0) (read_bytes-write_bytes buf p (le_bytes 4 v0)))
        ∙ le_value-le_bytes 4 v0 (omega arith)

    second : le_value (read_bytes (put_block buf p (v0, v1)) (p + 4) 4) ≡ v1
    second =
        ap le_value (
          subst (λ n. read_bytes (put_block buf p (v0, v1)) (p + 4) n ≡ le_bytes 4 v1)
            (length-le_bytes 4 v1) (read_bytes-write_bytes _ (p + 4) (le_bytes 4 v1)))
        ∙ le_value-le_bytes 4 v1 (omega arith)

block_at-ext :
    (buf buf' : Bytes) (p : ℕ)
    → ((i : ℕ) → p ≤ i → i < p + 8 → buf i ≡ buf' i)
    → block_at buf p ≡ block_at buf' p
block_at-ext buf buf' p h =
    ap₂ {C = ℕ × ℕ} (λ a b. (a, b))
      (ap le_value (read_bytes-ext buf buf' p 4 (λ i lo hi. h i lo (omega arith))))
      (ap le_value (read_bytes-ext buf buf' (p + 4) 4 (λ i lo hi. h i (omega arith) (omega arith))))

block_at-IsWordPair : (buf : Bytes) (p : ℕ) → AllBytes buf p 8 → IsWordPair (block_at buf p)
block_at-IsWordPair buf p h = (
  le_value-lt buf p 4 (λ i lo hi. h i lo (omega arith)),
  le_value-lt buf (p + 4) 4 (λ i lo hi. h i (omega arith) (omega arith)),
)

-- A block that is put where it was taken, in another array, copies its 8 bytes.
put_block-block_at :
    (buf from : Bytes) (p i : ℕ)
    → AllBytes from p 8
    → p ≤ i
    → i < p + 8
    → put_block buf p (block_at from p) i ≡ from i
put_block-block_at buf from p i h lo hi =
    ap (λ bs. write_bytes (write_bytes buf p bs) (p + 4) (le_bytes 4 (block_at from p).1) i) front
    ∙ ap (λ bs. write_bytes (write_bytes buf p (read_bytes from p 4)) (p + 4) bs i) back
    ∙ elim (dec_le (p + 4) i) [
      | yes high ↦ write_bytes-read_bytes _ from (p + 4) 4 i high (omega arith)
      | no low ↦
          write_bytes_before _ (p + 4) _ i (omega arith)
          ∙ write_bytes-read_bytes buf from p 4 i lo (omega arith)
    ]
  where
    front : le_bytes 4 (le_value (read_bytes from p 4)) ≡ read_bytes from p 4
    front = le_bytes-le_value from p 4 (λ j a b. h j a (omega arith))

    back : le_bytes 4 (le_value (read_bytes from (p + 4) 4)) ≡ read_bytes from (p + 4) 4
    back = le_bytes-le_value from (p + 4) 4 (λ j a b. h j (omega arith) (omega arith))

put_block_outside :
    (buf : Bytes) (p : ℕ) (v : ℕ × ℕ) (i : ℕ) → (i < p) ⊎ (p + 8 ≤ i) → put_block buf p v i ≡ buf i
put_block_outside buf p v i (inl below) =
    write_bytes_before _ (p + 4) _ i (omega arith) ∙ write_bytes_before buf p _ i below
put_block_outside buf p v i (inr above) =
    write_bytes_after _ (p + 4) (le_bytes 4 v.1) i (omega (arith, length-le_bytes 4 v.1))
    ∙ write_bytes_after buf p (le_bytes 4 v.0) i (omega (arith, length-le_bytes 4 v.0))

module _ (f g : ℕ × ℕ → ℕ × ℕ) (f_words : (v : ℕ × ℕ) → IsWordPair v → IsWordPair (f v))
    (g-f : (v : ℕ × ℕ) → IsWordPair v → g (f v) ≡ v) where
  -- Where g undoes f on words, the loop with g undoes the loop with f on the bytes of its blocks,
  -- also in an array that agrees only on those.
  pub crypt_blocks_undo :
      (n p : ℕ) (buf buf' : Bytes)
      → AllBytes buf p (n * 8)
      → ((i : ℕ) → p ≤ i → i < p + n * 8 → buf' i ≡ crypt_blocks f n p buf i)
      → (i : ℕ) → p ≤ i
      → i < p + n * 8
      → crypt_blocks g n p buf' i ≡ buf i
  unfolding crypt_blocks
  crypt_blocks_undo zero p buf buf' bytes same i lo hi = absurd (omega arith)
  crypt_blocks_undo (suc n) p buf buf' bytes same i lo hi = elim (dec_le (p + 8) i) [
    | yes rest ↦
        crypt_blocks_undo n (p + 8) buf1 buf1' bytes1 same1 i rest (omega arith)
        ∙ put_block_outside buf p _ i (inr rest)
    | no here ↦
        crypt_blocks_before g n (p + 8) buf1' i (omega arith)
        ∙ ap (λ v. put_block buf' p v i) back
        ∙ put_block-block_at buf' buf p i first lo (omega arith)
  ]
    where
      buf1 : Bytes
      buf1 = put_block buf p (f (block_at buf p))

      buf1' : Bytes
      buf1' = put_block buf' p (g (block_at buf' p))

      first : AllBytes buf p 8
      first j a b = bytes j a (omega arith)

      bytes1 : AllBytes buf1 (p + 8) (n * 8)
      bytes1 j a b =
          rw (put_block_outside buf p (f (block_at buf p)) j (inr a))
            (bytes j (omega arith) (omega arith))

      same1 : (j : ℕ) → p + 8 ≤ j → j < p + 8 + n * 8 → buf1' j ≡ crypt_blocks f n (p + 8) buf1 j
      same1 j a b = put_block_outside buf' p _ j (inr a) ∙ same j (omega arith) (omega arith)

      words : block_at buf' p ≡ f (block_at buf p)
      words =
          block_at-ext buf' buf1 p
            (λ j a b. same j a (omega arith) ∙ crypt_blocks_before f n (p + 8) buf1 j (omega arith))
          ∙ block_at-put_block buf p _ (f_words _ (block_at-IsWordPair buf p first))

      back : g (block_at buf' p) ≡ block_at buf p
      back = ap g words ∙ g-f _ (block_at-IsWordPair buf p first)
