-- ===== src/Network/Output.antt =====
-- compiler/src/outputmessage.h: class OutputMessage, a NetworkMessage whose headers are written
-- backwards in front of the body. The assertion of add_header is not a branch of the code.
use tibia_server.Base.{ℕ, ◌+◌, ◌-◌, ◌%◌, Bool, false, if◌then◌else◌}
use tibia_server.Base.Word.{u16_mod}
use tibia_server.Network.Buffer.{write_bytes, read_bytes, le_bytes}
use tibia_server.Network.Message.{Message, initial_position}
use tibia_server.Network.Adler.{adler_checksum}

pub record Output : Type 0 where
  pub message : Message
  pub open message use *
  pub is_broadcast : Bool
  pub start : ℕ

-- A new message over whatever the array holds.
abbrev pub new_output : (ℕ → ℕ) → Output
new_output bytes = record {
  message = record { length = 0; position = initial_position; overrun = false; buffer = bytes };
  is_broadcast = false;
  start = initial_position;
}

-- add_header(add), where sizeof(T) is n.
unfoldable pub add_header : ℕ → ℕ → Output → Output
add_header n value o = record o {
  start = o.start - n;
  message = record (o.message) {
    buffer = write_bytes o.buffer (o.start - n) (le_bytes n value);
    length = (o.length + n) % u16_mod;
  };
}

unfoldable pub write_message_length : Output → Output
unfolding add_header
write_message_length o = add_header 2 o.length o

unfoldable pub add_crypto_header : Bool → Output → Output
unfolding add_header write_message_length
add_crypto_header add_checksum o = write_message_length (
    if add_checksum
    then add_header 4 (adler_checksum (read_bytes o.buffer o.start o.length)) o
    else o)

-- append(msg): the body of another message.
unfoldable pub append : Message → Output → Output
append msg o = record o {
  message = record (o.message) {
    buffer = write_bytes o.buffer o.position (read_bytes msg.buffer 8 msg.length);
    length = (o.length + msg.length) % u16_mod;
    position = (o.position + msg.length) % u16_mod;
  };
}
