-- ===== src/Network/Protocol.antt =====
-- compiler/src/protocol.cpp: what Protocol does to a message on its way out and in, and the
-- checksum test of Connection::parsePacket (compiler/src/connection.cpp) that comes before it.
-- The packet parsers of the subclasses and the RSA library's decryption are not part of it.
pub mod Blocks
pub mod Sending
pub mod RoundTrip
use tibia_server.Base.{
  ℕ, zero, suc, ◌+◌, ◌-◌, ◌*◌, ◌/◌, ◌%◌, Bool, true, false, not, ◌&&◌, List, ltb, leb, ◌==◌,
  if◌then◌else◌,
}
use tibia_server.Network.Buffer.{Bytes, write_bytes, read_bytes, le_bytes, le_value}
use tibia_server.Network.Message.{
  Message, add_padding_bytes, get, get_byte, set_length, skip_bytes, decode_header, body_buffer,
  max_protocol_body_length,
}
use tibia_server.Network.Output.{Output, write_message_length, add_crypto_header}
use tibia_server.Network.Adler.{adler_checksum}
use tibia_server.Network.Xtea.{Key, encrypt_words, decrypt_words}

-- The loop over a message's blocks of 8 bytes: `n` rounds, of which each reads two words at `p`,
-- and writes two in their place.
pub crypt_blocks : (ℕ × ℕ → ℕ × ℕ) → ℕ → ℕ → Bytes → Bytes
crypt_blocks f zero p buf = buf
crypt_blocks f (suc n) p buf =
    let v = f (le_value (read_bytes buf p 4), le_value (read_bytes buf (p + 4) 4)) in
    crypt_blocks f n (p + 8)
      (write_bytes (write_bytes buf p (le_bytes 4 v.0)) (p + 4) (le_bytes 4 v.1))

-- The number of rounds of `while (readPos < messageLength)`, in steps of 8.
abbrev pub block_count : ℕ → ℕ
block_count n = (n + 7) / 8

-- The padding at the head of XTEA_encrypt.
unfoldable pub pad : Message → Message
pad m = if m.length % 8 == 0 then m else add_padding_bytes (8 - m.length % 8) m

unfoldable pub xtea_encrypt : Key → Output → Output
unfolding pad
xtea_encrypt k o =
    let m = pad o.message in
    record o {
      message = record m {
        buffer = crypt_blocks (encrypt_words k) (block_count m.length) o.start m.buffer;
      };
    }

-- The loop of XTEA_decrypt over the bytes behind the position.
pub decrypt_body : Key → Message → Message
decrypt_body k m = record m {
  buffer = crypt_blocks (decrypt_words k) (block_count (m.length - 6)) m.position m.buffer;
}

-- Its end: the length of the body is read, and must be within the packet.
pub read_inner_length : Message → Bool × Message
read_inner_length m =
    let (inner, m') = get 2 m in
    if ltb m'.length (inner + 8) then (false, m') else (true, set_length inner m')

-- `((getLength() - 6) & 7) != 0` is on int, where -6 is 2 modulo 8. So below 6 the length is refused,
-- and `inner > getLength() - 8` is read as `length < inner + 8`.
unfoldable pub xtea_decrypt : Key → Message → Bool × Message
xtea_decrypt k m =
    if not ((m.length + 2) % 8 == 0) then (false, m) else read_inner_length (decrypt_body k m)

-- What a Protocol object holds that its two paths read.
pub record Protocol : Type 0 where
  pub key : Key
  pub encryption_enabled : Bool
  pub checksum_enabled : Bool
  pub raw_messages : Bool

pub on_send_message : Protocol → Output → Output
unfolding xtea_encrypt add_crypto_header write_message_length
on_send_message p o =
    if p.raw_messages
    then o
    else (let o' = write_message_length o in
        if p.encryption_enabled
        then add_crypto_header p.checksum_enabled (xtea_encrypt p.key o')
        else o')

-- onRecvMessage: `true` where the message goes on to parsePacket.
pub on_recv_message : Protocol → Message → Bool × Message
unfolding xtea_decrypt
on_recv_message p m = if p.encryption_enabled then xtea_decrypt p.key m else (true, m)

-- Connection::parsePacket, from the checksum to the step back.
pub check_packet : Message → Bool × Message
check_packet m =
    let checksum =
      if ltb (m.position + 4) m.length
      then adler_checksum (read_bytes m.buffer (m.position + 4) (m.length - m.position - 4))
      else 0 in
    let (received, m') = get 4 m in
    if received == checksum then (true, m') else (false, skip_bytes 65532 m')

-- What the two reads of a connection put into its message: the header, whose size sets the length,
-- and so many bytes behind it (Connection::parseHeader).
pub receive : List ℕ → List ℕ → Message → Message
unfolding decode_header
receive header body m =
    let (size, m') = decode_header (record m { buffer = write_bytes m.buffer 0 header }) in
    let m'' = body_buffer (set_length (size + 2) m') in
    record m'' { buffer = write_bytes m''.buffer 2 body }

-- RSA_decrypt, with the library's decryption of the 128 bytes at the position as a parameter.
pub rsa_decrypt : (List ℕ → List ℕ) → Message → Bool × Message
unfolding get_byte
rsa_decrypt decrypt m =
    if ltb m.length (m.position + 128)
    then (false, m)
    else (let (b, m') = get_byte (record m {
      buffer = write_bytes m.buffer m.position (decrypt (read_bytes m.buffer m.position 128));
    }) in
        (b == 0, m'))

-- getOutputBuffer: the buffer in use, if it has room for `size` more bytes, or else a new one.
-- `true` marks a new one.
pub get_output_buffer : Output → Bool × Output → ℕ → Bool × Output
get_output_buffer new (present, o) size =
    if present && leb (o.length + size) max_protocol_body_length then (false, o) else (true, new)
