-- ===== src/Network/Tests.antt =====
-- The network layer's theorems at concrete packets, and runs of its functions.
use tibia_server.Base.{ℕ, ◌+◌, ◌*◌, ◌%◌, ◌≡◌, refl, List, [], ◌∷◌, map, true, false, arith}
use tibia_server.Base.Word.{add32, sub32}
use tibia_server.Network.Buffer.{le_bytes}
use tibia_server.Network.Xtea.{
  Key, encrypt_words, decrypt_words, iterate, encrypt_round, term0, term1, key_at,
}
use tibia_server.Network.Xtea.Inverse.{decrypt_words-encrypt_words}
use tibia_server.Network.Adler.{adler_checksum, reduce, add_all}
use tibia_server.Network.Adler.Reference.{running_sum, byte_sum, adler_checksum-reference}
use tibia_server.Network.Message.{Message, ItemKind}
use tibia_server.Network.Message.Fields.{Field, num, text, shape, add_fields, get_fields}
use tibia_server.Network.Message.Reading.{get_fields-add_fields}
use tibia_server.Network.Message.Bounds
use tibia_server.Network.Message.Bounds.{IsWriter}
use tibia_server.Network.Message.Reads
use tibia_server.Network.Message.Reads.{IsInside, read_all, read_all-IsInside}
use tibia_server.Network.Protocol.{on_send_message, receive}
use tibia_server.Network.Protocol.Sending.{secure, unsent}
use tibia_server.Network.Protocol.RoundTrip.{
  Arrives, open_packet, wire_head, wire_rest, open_packet-on_send_message,
}

abbrev fresh : Message
fresh = record { length = 0; position = 8; overrun = false; buffer = λ i. 0 }

abbrev packet : List Field
packet = num 1 20 ∷ text (72 ∷ 105 ∷ []) ∷ num 2 513 ∷ []

get_fields-add_fields_example :
    get_fields (map shape packet) (record (add_fields packet fresh) { position = 8 })
    ≡ (packet, add_fields packet fresh)
unfolding le_bytes
get_fields-add_fields_example = get_fields-add_fields packet fresh (omega arith) refl (omega arith)

abbrev coin : ItemKind
coin = record { client_id = 3031; stackable = true; is_splash = false; is_fluid_container = false }

abbrev calls : List Bounds.Write
calls = Bounds.Write.item 2148 50 ∷ Bounds.Write.string (65 ∷ []) ∷ []

abbrev reads : List Reads.Read
reads = Reads.Read.word 1 ∷ Reads.Read.skip 2 ∷ Reads.Read.string 0 ∷ []

read_all-IsInside_example : IsInside (read_all reads)
read_all-IsInside_example = read_all-IsInside reads

-- "Wikipedia"
abbrev title : List ℕ
title = 87 ∷ 105 ∷ 107 ∷ 105 ∷ 112 ∷ 101 ∷ 100 ∷ 105 ∷ 97 ∷ []

adler_checksum_test : adler_checksum title ≡ 0x11E6_0398
unfolding adler_checksum reduce add_all add32
adler_checksum_test = refl

adler_checksum-reference_example :
    adler_checksum title ≡ running_sum 1 title % 65521 * 65536 + (1 + byte_sum title) % 65521
adler_checksum-reference_example = adler_checksum-reference title (omega arith) (omega arith)

abbrev session_key : Key
session_key = record { k0 = 0x12345678; k1 = 0x9ABCDEF0; k2 = 0x0FEDCBA9; k3 = 0x87654321 }

decrypt_words-encrypt_words_example :
    decrypt_words session_key (encrypt_words session_key (0xDEADBEEF, 0x00C0FFEE))
    ≡ (0xDEADBEEF, 0x00C0FFEE)
decrypt_words-encrypt_words_example =
    decrypt_words-encrypt_words session_key 0xDEADBEEF 0x00C0FFEE (omega arith) (omega arith)

-- The cipher's published test vector.
vector_test :
    encrypt_words
      (record { k0 = 0x00010203; k1 = 0x04050607; k2 = 0x08090A0B; k3 = 0x0C0D0E0F })
      (0x41424344, 0x45464748)
    ≡ (0x497DF3D0, 0x72612CB5)
unfolding encrypt_words iterate encrypt_round term0 term1 key_at add32 sub32
vector_test = refl

-- A body of one byte.
abbrev ping : Message
ping = record { length = 1; position = 9; overrun = false; buffer = λ i. 30 }

open_packet-on_send_message_example : Arrives ping (
    open_packet (secure session_key) (
      receive
        (wire_head (on_send_message (secure session_key) (unsent ping)))
        (wire_rest (on_send_message (secure session_key) (unsent ping)))
        fresh))
open_packet-on_send_message_example =
    open_packet-on_send_message session_key ping fresh
      (record { writer = refl; padding_room = omega arith; body_bytes = λ i lo hi. omega arith })
