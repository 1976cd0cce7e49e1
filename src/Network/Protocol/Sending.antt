-- ===== src/Network/Protocol/Sending.antt =====
-- The bytes that an encrypting protocol with checksums puts on the wire.
use tibia_server.Base.{
  ℕ, ◌+◌, ◌-◌, ◌*◌, ◌%◌, ◌≤◌, ◌<◌, ◌≡◌, refl, sym, ap, subst, ◌∙◌, true, false, Bool-cases, inl,
  inr, arith, replicate, length-replicate, dec_le, ◌==◌, lt→ltb,
}
use tibia_server.Base.Word.{u16_mod}
use tibia_server.Network.Buffer.{
  Bytes, AllBytes, IsByte, write_bytes, read_bytes, le_bytes, write_bytes_before, write_bytes_after,
  read_bytes-write_bytes, read_bytes-write_bytes_above, replicate-AllBytes, le_bytes-AllBytes,
  length-le_bytes, read_bytes-ext, write_bytes-AllBytes,
}
use tibia_server.Network.Message.{Message, max_body_length, can_add, add_padding_bytes}
use tibia_server.Network.Output.{Output, add_header, write_message_length, add_crypto_header}
use tibia_server.Network.Adler.{adler_checksum}
use tibia_server.Network.Xtea.{Key, encrypt_words}
use tibia_server.Network.Protocol.{
  Protocol, crypt_blocks, block_count, pad, xtea_encrypt, on_send_message,
}

-- `o` is a packet of n blocks, which hold `plain` under the key, behind its size and its checksum;
-- `plain` is the length of the body, the body, and bytes that fill the last block.
pub record IsSent (k : Key) (len : ℕ) (body : Bytes) (o : Output) : Type 0 where
  pub n : ℕ
  pub plain : Bytes
  pub starts : o.start ≡ 0
  pub size : o.length ≡ n * 8 + 6
  pub room : (len + 2 ≤ n * 8) × (n * 8 + 16 < max_body_length)
  pub head : read_bytes o.buffer 0 2 ≡ le_bytes 2 (n * 8 + 4)
  pub check : read_bytes o.buffer 2 4 ≡ le_bytes 4 (adler_checksum (read_bytes o.buffer 6 (n * 8)))
  pub plain_bytes : AllBytes plain 6 (n * 8)
  pub plain_length : read_bytes plain 6 2 ≡ le_bytes 2 len
  pub plain_body : (i : ℕ) → 8 ≤ i → i < 8 + len → plain i ≡ body i
  pub cipher :
      (i : ℕ) → 6 ≤ i → i < 6 + n * 8 → o.buffer i ≡ crypt_blocks (encrypt_words k) n 6 plain i

-- Padding fills the last block with bytes behind the position.
record IsPadded (m m' : Message) : Type 0 where
  full : m'.length ≡ block_count m.length * 8
  kept : (i : ℕ) → i < m.position → m'.buffer i ≡ m.buffer i
  filled : (i : ℕ) → m.position ≤ i → i < m.position + (m'.length - m.length) → IsByte (m'.buffer i)

pad-IsPadded :
    (m : Message) → m.position + 8 < max_body_length → m.length ≤ m.position → IsPadded m (pad m)
unfolding pad add_padding_bytes can_add
pad-IsPadded m room le = elim (Bool-cases (m.length % 8 == 0)) [
  | inl e ↦
      rw e (record {
        full = ground arith;
        kept = λ i h. refl;
        filled = λ i lo hi. absurd (omega arith);
      })
  | inr e ↦
      let pad_size = 8 - m.length % 8 in
      let small : 8 - m.length % 8 + m.position < max_body_length = omega arith in
      rw (e, lt→ltb _ _ small)
        (record {
          full = ground arith;
          kept = λ i h. write_bytes_before m.buffer m.position _ i h;
          filled = λ i lo hi.
              write_bytes-AllBytes m.buffer m.position (replicate pad_size 0x33)
                (replicate-AllBytes pad_size 0x33 (omega arith)) i lo
                (omega (arith, length-replicate {A = ℕ} pad_size 0x33));
        })
]

-- A protocol whose session key is set up.
abbrev pub secure : Key → Protocol
secure k = record {
  key = k;
  encryption_enabled = true;
  checksum_enabled = true;
  raw_messages = false;
}

-- A message with its body, and no header yet.
abbrev pub unsent : Message → Output
unsent m = record { message = m; is_broadcast = false; start = 8 }

-- A body of bytes behind the headers' room, with room for the padding behind it.
pub record IsBody (m : Message) : Type 0 where
  pub writer : m.position ≡ m.length + 8
  pub padding_room : m.position + 24 < max_body_length
  pub body_bytes : AllBytes m.buffer 8 m.length

module _ (k : Key) (m : Message) (h : IsBody m) where
  labelled : Message
  unfolding write_message_length
  labelled = (write_message_length (unsent m)).message

  padded : Message
  padded = pad labelled

  blocks : ℕ
  blocks = block_count (m.length + 2)

  encrypted : Bytes
  encrypted = crypt_blocks (encrypt_words k) (block_count padded.length) 6 padded.buffer

  labelled-length : labelled.length ≡ m.length + 2
  unfolding labelled write_message_length add_header
  labelled-length = omega (arith, h.writer, h.padding_room)

  labelled-position : labelled.position ≡ m.length + 8
  unfolding labelled write_message_length add_header
  labelled-position = h.writer

  pads : IsPadded labelled padded
  unfolding padded
  pads =
      pad-IsPadded labelled (omega (arith, labelled-position, h.writer, h.padding_room))
        (omega (arith, labelled-position, labelled-length))

  padded-length : padded.length ≡ blocks * 8
  unfolding blocks
  padded-length = pads.full ∙ ap (λ n. block_count n * 8) labelled-length

  labelled-body : (i : ℕ) → 8 ≤ i → labelled.buffer i ≡ m.buffer i
  unfolding labelled write_message_length add_header
  labelled-body i lo =
      write_bytes_after m.buffer 6 (le_bytes 2 m.length) i
        (omega (arith, length-le_bytes 2 m.length))

  labelled-label : read_bytes labelled.buffer 6 2 ≡ le_bytes 2 m.length
  unfolding labelled write_message_length add_header
  labelled-label =
      subst
        (λ n. read_bytes (write_bytes m.buffer 6 (le_bytes 2 m.length)) 6 n ≡ le_bytes 2 m.length)
        (length-le_bytes 2 m.length) (read_bytes-write_bytes m.buffer 6 (le_bytes 2 m.length))

  labelled-bytes : AllBytes labelled.buffer 6 (m.length + 2)
  labelled-bytes i lo hi = elim (dec_le 8 i) [
    | yes body ↦ rw (labelled-body i body) (h.body_bytes i body (omega arith))
    | no label ↦
        unfold labelled write_message_length add_header in
        write_bytes-AllBytes m.buffer 6 (le_bytes 2 m.length) (le_bytes-AllBytes 2 m.length) i lo
          (omega (arith, length-le_bytes 2 m.length))
  ]

  padded-bytes : AllBytes padded.buffer 6 (blocks * 8)
  padded-bytes i lo hi = elim (dec_le (m.length + 8) i) [
    | yes behind ↦
        pads.filled i (omega (arith, labelled-position))
          (omega (arith, labelled-position, labelled-length, padded-length))
    | no front ↦
        rw (pads.kept i (omega (arith, labelled-position))) (labelled-bytes i lo (omega arith))
  ]

  sent : Output
  sent = on_send_message (secure k) (unsent m)

  checksum : ℕ
  checksum = adler_checksum (read_bytes encrypted 6 padded.length)

  checked : Bytes
  checked = write_bytes encrypted 2 (le_bytes 4 checksum)

  -- The array in the end: the two headers, over the encrypted blocks.
  sent-buffer : sent.buffer ≡ write_bytes checked 0 (le_bytes 2 ((padded.length + 4) % u16_mod))
  unfolding sent checked checksum encrypted padded labelled on_send_message write_message_length
      add_header add_crypto_header xtea_encrypt
  sent-buffer = refl

  sent-length : sent.length ≡ ((padded.length + 4) % u16_mod + 2) % u16_mod
  unfolding sent padded labelled on_send_message write_message_length add_header add_crypto_header
      xtea_encrypt
  sent-length = refl

  sent-start : sent.start ≡ 0
  unfolding sent padded labelled on_send_message write_message_length add_header add_crypto_header
      xtea_encrypt
  sent-start = refl

  sizes : (m.length + 2 ≤ blocks * 8) × (blocks * 8 + 16 < max_body_length)
  unfolding blocks
  sizes = (omega arith, omega (arith, h.writer, h.padding_room))

  head_size : (padded.length + 4) % u16_mod ≡ blocks * 8 + 4
  head_size = omega (arith, padded-length, sizes)

  sent-above : (i : ℕ) → 6 ≤ i → sent.buffer i ≡ encrypted i
  sent-above i lo =
      ap (λ b. b i) sent-buffer
      ∙ write_bytes_after checked 0 (le_bytes 2 _) i (omega (arith, length-le_bytes 2))
      ∙ unfold checked in
        write_bytes_after encrypted 2 (le_bytes 4 checksum) i
          (omega (arith, length-le_bytes 4 checksum))

  sent-head : read_bytes sent.buffer 0 2 ≡ le_bytes 2 (blocks * 8 + 4)
  sent-head =
      ap (λ b. read_bytes b 0 2) sent-buffer
      ∙ subst (λ n. read_bytes (write_bytes checked 0 (le_bytes 2 s)) 0 n ≡ le_bytes 2 s)
          (length-le_bytes 2 s) (read_bytes-write_bytes checked 0 (le_bytes 2 s))
      ∙ ap (le_bytes 2) head_size
    where
      s : ℕ
      s = (padded.length + 4) % u16_mod

  checked-check : read_bytes checked 2 4 ≡ le_bytes 4 checksum
  unfolding checked
  checked-check =
      subst
        (λ n. read_bytes (write_bytes encrypted 2 (le_bytes 4 checksum)) 2 n ≡ le_bytes 4 checksum)
        (length-le_bytes 4 checksum) (read_bytes-write_bytes encrypted 2 (le_bytes 4 checksum))

  checksum_lem : checksum ≡ adler_checksum (read_bytes sent.buffer 6 (blocks * 8))
  unfolding checksum
  checksum_lem = ap adler_checksum (
      ap (read_bytes encrypted 6) padded-length
      ∙ read_bytes-ext encrypted sent.buffer 6 (blocks * 8) (λ i lo hi. sym (sent-above i lo)))

  sent-check :
      read_bytes sent.buffer 2 4
      ≡ le_bytes 4 (adler_checksum (read_bytes sent.buffer 6 (blocks * 8)))
  sent-check =
      ap (λ b. read_bytes b 2 4) sent-buffer
      ∙ read_bytes-write_bytes_above checked 0 (le_bytes 2 _) 2 4 (omega (arith, length-le_bytes 2))
      ∙ checked-check
      ∙ ap (le_bytes 4) checksum_lem

  -- What goes out is the body's length and the body, padded to whole blocks and encrypted, behind
  -- the packet's size and the checksum of the encrypted blocks.
  pub on_send_message-IsSent : IsSent k m.length m.buffer (on_send_message (secure k) (unsent m))
  on_send_message-IsSent =
      unfold sent in
      record {
        n = blocks;
        plain = padded.buffer;
        starts = sent-start;
        size = sent-length ∙ omega (arith, padded-length, sizes);
        room = sizes;
        head = sent-head;
        check = sent-check;
        plain_bytes = padded-bytes;
        plain_length =
            read_bytes-ext padded.buffer labelled.buffer 6 2
              (λ i lo hi. pads.kept i (omega (arith, labelled-position)))
            ∙ labelled-label;
        plain_body = λ i lo hi. pads.kept i (omega (arith, labelled-position)) ∙ labelled-body i lo;
        cipher = λ i lo hi.
            sent-above i lo
            ∙ unfold encrypted in
              ap (λ c. crypt_blocks (encrypt_words k) c 6 padded.buffer i)
                (ap block_count padded-length ∙ omega arith);
      }
