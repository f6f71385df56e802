-- ===== src/Network/Protocol.antt =====
-- src/protocol.cpp, src/outputmessage.h and the reading of a packet in src/connection.cpp: how a
-- message is framed and encrypted for the wire, and taken from it. The build is the one with
-- _MULTIPLATFORM77, which has the encryption.
pub mod Blocks
pub mod Output
pub mod Sending
pub mod Receiving
pub mod Delivery
use otxlinux.Prelude.{
  ℕ, ◌+◌, ◌-◌, ◌/◌, ◌%◌, ◌^◌, Bool, true, false, not, ◌&&◌, ◌||◌, List, ◌++◌, Option, none, some,
  ltb, leb, ◌==◌, if◌then◌else◌, u16, le_bytes, length, take, drop, slice, splice,
}
use otxlinux.Network.Message.{
  Message, max_size, header_length, initial_buffer_position, fresh, add_padding_bytes, get,
  set_length, body_buffer, decode_header,
}
use otxlinux.Network.Xtea.{Key, encrypt_blocks, decrypt_blocks}

pub record OutputMessage : Type 0 where
  pub message : Message
  pub output_buffer_start : ℕ

unfoldable pub fresh_output : List ℕ → OutputMessage
fresh_output bytes = record { message = fresh bytes; output_buffer_start = initial_buffer_position }

-- `add_header` of an unsigned integer of `n` bytes. `none` is its failed assertion.
unfoldable pub add_header : ℕ → ℕ → OutputMessage → Option OutputMessage
add_header n value o =
    let m = o.message in
    let start = o.output_buffer_start - n in
    if ltb o.output_buffer_start n
    then none
    else some (record {
      message = record m {
        length = u16 (m.length + n);
        buffer = splice start (le_bytes n value) m.buffer;
      };
      output_buffer_start = start;
    })

unfoldable pub write_message_length : OutputMessage → Option OutputMessage
write_message_length o = add_header 2 o.message.length o

unfoldable pub add_crypto_header : OutputMessage → Option OutputMessage
add_crypto_header o = write_message_length o

-- `append` copies the content of another message without a test of the room that is left.
unfoldable pub append : Message → OutputMessage → OutputMessage
append other o =
    let m = o.message in
    let content = slice 8 other.length other.buffer in
    record o {
      message = record m {
        length = u16 (m.length + other.length);
        position = u16 (m.position + other.length);
        buffer = splice m.position content m.buffer;
      };
    }

unfoldable pub pad : OutputMessage → OutputMessage
pad o =
    let over = o.message.length % 8 in
    if over == 0 then o else record o { message = add_padding_bytes (8 - over) o.message }

-- The number of rounds of `while (readPos < n) { ... readPos += 8; }`.
abbrev pub block_count : ℕ → ℕ
block_count n = (n + 7) / 8

unfoldable pub xtea_encrypt : Key → OutputMessage → OutputMessage
xtea_encrypt key o =
    let p = pad o in
    let m = p.message in
    let start = p.output_buffer_start in
    record p {
      message = record m {
        buffer =
            take start m.buffer ++ encrypt_blocks key (block_count m.length) (drop start m.buffer);
      };
    }

-- The loop of `XTEA_decrypt` over the blocks behind the cursor.
unfoldable pub decrypt_body : Key → Message → Message
decrypt_body key m = record m {
  buffer =
      take m.position m.buffer
      ++ decrypt_blocks key (block_count (m.length - 2)) (drop m.position m.buffer);
}

-- The first test is done in `int`, where `length - 2` may be negative: its three low bits are those
-- of `length + 6`.
unfoldable pub xtea_decrypt : Key → Message → Bool × Message
xtea_decrypt key m =
    let (inner_length, m') = get 2 (decrypt_body key m) in
    if not ((m.length + 6) % 8 == 0)
    then (false, m)
    else if ltb m.length (inner_length + 4)
    then (false, m')
    else (true, set_length inner_length m')

-- `Protocol::onSendMessage`.
unfoldable pub on_send_message :
    (raw_messages encryption_enabled : Bool) → Key → OutputMessage → Option OutputMessage
on_send_message true enabled key o = some o
on_send_message false enabled key o = elim (write_message_length o) [
  | none ↦ none
  | some framed ↦ if enabled then add_crypto_header (xtea_encrypt key framed) else some framed
]

-- What `Connection::internalSend` gives to the socket.
unfoldable pub wire : OutputMessage → List ℕ
wire o = slice o.output_buffer_start o.message.length o.message.buffer

-- `Connection::parseHeader` on the two bytes that were read, without its limits on packets and
-- time. `none` closes the connection. The size is `uint16_t` here and cannot be negative.
unfoldable pub parse_header : List ℕ → Message → Option (ℕ × Message)
parse_header header m =
    let (size, m') = decode_header (record m { buffer = splice 0 header m.buffer }) in
    if size == 0 || leb (max_size - 16) size
    then none
    else some (size, body_buffer (set_length (size + header_length) m'))

-- The bytes of the body are read behind the header. `none` is a read that the peer cut short.
unfoldable pub read_packet : List ℕ → Message → Option Message
read_packet bytes m = elim (parse_header (take header_length bytes) m) [
  | none ↦ none
  | some (size, m') ↦
      let body = slice header_length size bytes in
      if length body == size
      then some (record m' { buffer = splice header_length body m'.buffer })
      else none
]

-- `Protocol::onRecvMessage` up to `parsePacket`, which gets the message if there is one.
unfoldable pub on_recv_message : Bool → Key → Message → Option Message
on_recv_message enabled key m =
    let (ok, m') = xtea_decrypt key m in if enabled then if ok then some m' else none else some m
