-- ===== src/Network/Protocol/RoundTrip.antt =====
-- A packet from the sender's body to the receiver's parser.
use tibia_server.Base.{
  ℕ, ◌+◌, ◌-◌, ◌*◌, ◌%◌, ◌≤◌, ◌<◌, ◌≡◌, refl, ap, ◌∙◌, true, false, List, arith, ◌==◌, ltb, lt→ltb,
  Bool,
}
use tibia_server.Base.Word.{u16_mod}
use tibia_server.Network.Buffer.{
  Bytes, write_bytes, read_bytes, le_bytes, le_value, read_bytes-ext, length-le_bytes,
  le_value-le_bytes, write_bytes-read_bytes,
}
use tibia_server.Network.Message.{Message, get, decode_header}
use tibia_server.Network.Message.Reading.{Holds, advance, get-advance}
use tibia_server.Network.Output.{Output}
use tibia_server.Network.Adler.{adler_checksum, adler_checksum-lt}
use tibia_server.Network.Xtea.{Key, encrypt_words, decrypt_words}
use tibia_server.Network.Xtea.Inverse.{decrypt_words-encrypt_words, encrypt_words-lt}
use tibia_server.Network.Protocol.Blocks.{crypt_blocks_undo}
use tibia_server.Network.Protocol.Sending.{IsSent, IsBody, secure, unsent, on_send_message-IsSent}
use tibia_server.Network.Protocol.{
  Protocol, crypt_blocks, block_count, xtea_decrypt, on_send_message, on_recv_message, check_packet,
  receive, decrypt_body, read_inner_length,
}

-- The two parts in which a connection reads a packet: its header, and the rest.
abbrev pub wire_head : Output → List ℕ
wire_head o = read_bytes o.buffer o.start 2

abbrev pub wire_rest : Output → List ℕ
wire_rest o = read_bytes o.buffer (o.start + 2) (o.length - 2)

module _ (k : Key) (len : ℕ) (body : Bytes) (o : Output) (s : IsSent k len body o)
    (m : Message) where
  open s use {n}

  got : Message
  got = receive (read_bytes o.buffer 0 2) (read_bytes o.buffer 2 (n * 8 + 4)) m

  abbrev header : Bytes
  header = write_bytes m.buffer 0 (read_bytes o.buffer 0 2)

  header_size : header 0 + header 1 * 256 ≡ n * 8 + 4
  header_size =
      omega (arith, first, second, value, le_value-le_bytes 2 (n * 8 + 4) (omega (arith, s.room)))
    where
      first : header 0 ≡ o.buffer 0
      first = write_bytes-read_bytes m.buffer o.buffer 0 2 0 (omega arith) (omega arith)

      second : header 1 ≡ o.buffer 1
      second = write_bytes-read_bytes m.buffer o.buffer 0 2 1 (omega arith) (omega arith)

      value : o.buffer 0 + 256 * o.buffer 1 ≡ le_value (le_bytes 2 (n * 8 + 4))
      value = unfold le_value read_bytes in omega (arith, ap le_value s.head)

  got-length : got.length ≡ n * 8 + 6
  unfolding got receive decode_header
  got-length = omega (arith, header_size, s.room)

  got-position : got.position ≡ 2
  unfolding got receive decode_header
  got-position = refl

  got-buffer : (i : ℕ) → 2 ≤ i → i < n * 8 + 6 → got.buffer i ≡ o.buffer i
  unfolding got receive decode_header
  got-buffer i lo hi = write_bytes-read_bytes _ o.buffer 2 (n * 8 + 4) i lo (omega arith)

  sum : ℕ
  sum = adler_checksum (read_bytes o.buffer 6 (n * 8))

  computed_sum :
      adler_checksum (read_bytes got.buffer (got.position + 4) (got.length - got.position - 4))
      ≡ sum
  unfolding sum
  computed_sum = ap adler_checksum (
      rw (got-position, got-length)
        (let e : n * 8 + 6 - 2 - 4 ≡ n * 8 = omega arith in
          rw e (
            read_bytes-ext got.buffer o.buffer 6 (n * 8)
              (λ i lo hi. got-buffer i (omega arith) (omega arith)))))

  sum-Holds : Holds got (le_bytes 4 sum)
  sum-Holds = record {
    bytes =
        rw (got-position, length-le_bytes 4 sum)
          (read_bytes-ext got.buffer o.buffer 2 4
              (λ i lo hi. got-buffer i lo (omega (arith, s.room)))
            ∙ unfold sum in s.check);
    within = omega (arith, got-position, got-length, length-le_bytes 4 sum, s.room);
    bounded = omega (arith, got-position, got-length, length-le_bytes 4 sum, s.room);
  }

  get_sum : get 4 got ≡ (sum, advance got 4)
  get_sum = get-advance 4 sum got (unfold sum in adler_checksum-lt _) sum-Holds

  check_packet-sent : check_packet got ≡ (true, advance got 4)
  unfolding check_packet
  check_packet-sent = rw (long, computed_sum, get_sum) (rw same)
    where
      long : ltb (got.position + 4) got.length ≡ true
      long = lt→ltb _ _ (omega (arith, got-position, got-length, s.room))

      same : (sum == sum) ≡ true
      same = ground arith

  -- The array after decryption.
  decrypted : Bytes
  decrypted = crypt_blocks (decrypt_words k) n 6 got.buffer

  decrypted-plain : (i : ℕ) → 6 ≤ i → i < 6 + n * 8 → decrypted i ≡ s.plain i
  unfolding decrypted
  decrypted-plain =
      crypt_blocks_undo (encrypt_words k) (decrypt_words k)
        (λ v h. encrypt_words-lt k v.0 v.1 h.0 h.1)
        (λ v h. decrypt_words-encrypt_words k v.0 v.1 h.0 h.1) n 6 s.plain got.buffer s.plain_bytes
        (λ i lo hi. got-buffer i (omega arith) (omega arith) ∙ s.cipher i lo hi)

  opened : Message
  opened = record (advance got 4) { buffer = decrypted }

  label-Holds : Holds opened (le_bytes 2 len)
  unfolding opened
  label-Holds = record {
    bytes =
        rw (got-position, length-le_bytes 2 len)
          (read_bytes-ext decrypted s.plain 6 2
              (λ i lo hi. decrypted-plain i lo (omega (arith, s.room)))
            ∙ s.plain_length);
    within = omega (arith, got-position, got-length, length-le_bytes 2 len, s.room);
    bounded = omega (arith, got-position, got-length, length-le_bytes 2 len, s.room);
  }

  get_label : get 2 opened ≡ (len, advance opened 2)
  get_label = get-advance 2 len opened (omega (arith, s.room)) label-Holds

  decrypt_body-got : decrypt_body k (advance got 4) ≡ opened
  unfolding decrypt_body opened decrypted
  decrypt_body-got = rw (rounds, got-position)
    where
      rounds : block_count (got.length - 6) ≡ n
      rounds = omega (arith, got-length)

  done : Message
  done = record (advance opened 2) { length = len }

  read_inner_length-opened : read_inner_length opened ≡ (true, done)
  unfolding read_inner_length done
  read_inner_length-opened = rw get_label (rw (fits, word))
    where
      fits : ltb opened.length (len + 8) ≡ false
      fits = unfold opened in ground (arith, got-length, s.room)

      word : len % u16_mod ≡ len
      word = omega (arith, s.room)

  xtea_decrypt-sent : xtea_decrypt k (advance got 4) ≡ (true, done)
  unfolding xtea_decrypt
  xtea_decrypt-sent = rw (whole, decrypt_body-got) read_inner_length-opened
    where
      whole : ((got.length + 2) % 8 == 0) ≡ true
      whole = ground (arith, got-length)

  done_fields : (done.length ≡ len) × (done.position ≡ 8) × (done.overrun ≡ m.overrun)
  unfolding done opened got receive decode_header
  done_fields = (refl, refl, refl)

  done-body : (i : ℕ) → 8 ≤ i → i < 8 + len → done.buffer i ≡ body i
  unfolding done opened
  done-body i lo hi = decrypted-plain i (omega arith) (omega (arith, s.room)) ∙ s.plain_body i lo hi

-- What comes out of the receiving side: whether the checksum was right, whether the packet goes on
-- to the parser, and the message that it is given.
pub open_packet : Protocol → Message → Bool × Bool × Message
open_packet p m =
    let (sum_ok, m1) = check_packet m in
    let (goes_on, m2) = on_recv_message p m1 in (sum_ok, goes_on, m2)

-- A body arrives: the checksum is right, the packet goes on to the parser, and the message has the
-- body's length and bytes, with the position at its first byte.
pub record Arrives (m : Message) (r : Bool × Bool × Message) : Type 0 where
  pub sum_is_right : r.0 ≡ true
  pub goes_on : r.1 ≡ true
  pub length_kept : r.2.length ≡ m.length
  pub position_first : r.2.position ≡ 8
  pub body_kept : (i : ℕ) → 8 ≤ i → i < 8 + m.length → r.2.buffer i ≡ m.buffer i

open_packet-Arrives :
    (k : Key) (m : Message) (o : Output)
    → IsSent k m.length m.buffer o
    → (r : Message) → Arrives m (open_packet (secure k) (receive (wire_head o) (wire_rest o) r))
unfolding open_packet on_recv_message
open_packet-Arrives k m o s r =
    rw (s.starts, s.size)
      (let e : s.n * 8 + 6 - 2 ≡ s.n * 8 + 4 = omega arith in
        rw e (
          unfold got in
          rw
            (
              check_packet-sent k m.length m.buffer o s r,
              xtea_decrypt-sent k m.length m.buffer o s r,
            )
            (record {
              sum_is_right = refl;
              goes_on = refl;
              length_kept = (done_fields k m.length m.buffer o s r).0;
              position_first = (done_fields k m.length m.buffer o s r).1;
              body_kept = done-body k m.length m.buffer o s r;
            })))

-- End to end: a body of at most 24543 bytes, behind the room for the headers, that one side sends
-- with encryption and checksums arrives whole at the other side, under the same key, whatever the
-- other side's message held before.
pub open_packet-on_send_message :
    (k : Key) (m r : Message)
    → IsBody m
    → Arrives m (
        open_packet (secure k) (
          receive
            (wire_head (on_send_message (secure k) (unsent m)))
            (wire_rest (on_send_message (secure k) (unsent m)))
            r))
open_packet-on_send_message k m r h = open_packet-Arrives k m _ (on_send_message-IsSent k m h) r
