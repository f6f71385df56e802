-- ===== src/Network/Protocol/Delivery.antt =====
-- src/protocol.cpp and src/connection.cpp: a packet that one side sends is the packet that the other
-- side reads, through framing, padding and encryption.
use mathlib.Core.List.{append_assoc, append-nil}
use otxlinux.Prelude.{
  ℕ, ◌+◌, ◌*◌, ◌<◌, ◌≡◌, refl, ap, ◌∙◌, true, false, some, List, [], ◌∷◌, ◌++◌, map, arith, length,
  All, le_bytes, drop, length-append, length-le_bytes, All-append, le_bytes-bytes,
}
use otxlinux.Network.Message.{Message, max_size, max_body_length, fresh}
use otxlinux.Network.Message.Memory.{Reads}
use otxlinux.Network.Message.Fields.{
  Field, byte, word16, word32, text, place, shape, IsField, encode, encode_all, write_all, read_all,
}
use otxlinux.Network.Message.Written.{write_all-Holds}
use otxlinux.Network.Message.RoundTrip.{fresh-Holds, read_all-Reads}
use otxlinux.Network.Xtea.{Key, encrypt_blocks}
use otxlinux.Network.Protocol.{OutputMessage, on_send_message, wire, read_packet, on_recv_message}
use otxlinux.Network.Protocol.Blocks.{length-encrypt_blocks}
use otxlinux.Network.Protocol.Receiving.{read_packet_lem, decrypted, xtea_decrypt_lem}
use otxlinux.Network.Protocol.Sending.{IsPacket, on_send_message-IsPacket}

encode_all-bytes : (fs : List Field) → All IsField fs → All (λ b. b < 256) (encode_all fs)
unfolding encode_all encode
encode_all-bytes [] ok = tt
encode_all-bytes (f ∷ fs) ok = All-append (λ b. b < 256) _ _ (of f ok.0) (encode_all-bytes fs ok.1)
  where
    of : (f : Field) → IsField f → All (λ b. b < 256) (encode f)
    of (byte v) ok = le_bytes-bytes 1 v
    of (word16 v) ok = le_bytes-bytes 2 v
    of (word32 v) ok = le_bytes-bytes 4 v
    of (text s) ok = All-append (λ b. b < 256) _ s (le_bytes-bytes 2 (length s)) ok.1
    of (place p) ok =
        All-append (λ b. b < 256) _ _
          (All-append (λ b. b < 256) _ _ (le_bytes-bytes 2 p.x) (le_bytes-bytes 2 p.y))
          (le_bytes-bytes 1 p.z)

-- What the receiver makes of a packet: the content stands behind the two sizes.
module _ (key : Key) (content packet : List ℕ) (p : IsPacket key content packet)
    (receiver : Message) where
  abbrev opened : Message
  opened =
      decrypted key p.blocks (le_bytes 2 (8 * p.blocks)) content p.fill
        (drop (2 + 8 * p.blocks) receiver.buffer) receiver

  received :
      length content + 15 < max_body_length
      → All (λ b. b < 256) content
      → length receiver.buffer ≡ max_size
      → receiver.overrun ≡ false
      → (m : Message) × (read_packet packet receiver ≡ some m)
        × (on_recv_message true key m ≡ some opened)
  unfolding on_recv_message
  received small bytes sized clean =
      let plain = le_bytes 2 (length content) ++ (content ++ p.fill) in
      let body = encrypt_blocks key p.blocks plain in
      let header = le_bytes 2 (8 * p.blocks) in
      let rest = drop (2 + 8 * p.blocks) receiver.buffer in
      let body_size : length body ≡ 8 * p.blocks =
        length-encrypt_blocks key p.blocks plain
        ∙ omega (
          arith,
          p.plain_size,
          length-append (le_bytes 2 (length content)) (content ++ p.fill),
          length-append content p.fill,
          length-le_bytes 2 (length content),
        ) in
      (
        record receiver {
          length = 8 * p.blocks + 2;
          position = 2;
          buffer = header ++ (body ++ rest);
        },
        rw p.form (
            read_packet_lem (8 * p.blocks) body receiver (omega (arith, p.plain_size))
              (omega (arith, p.plain_size, p.fill_short)) body_size sized),
        rw (
            xtea_decrypt_lem key p.blocks header content p.fill rest receiver
              (length-le_bytes 2 (8 * p.blocks)) p.plain_size
              (omega (arith, p.plain_size, p.fill_short))
              (All-append (λ b. b < 256) _ (content ++ p.fill) (le_bytes-bytes 2 (length content))
                (All-append (λ b. b < 256) content p.fill bytes p.fill_bytes))
              clean),
      )

  opened-Reads :
      length content + 15 < max_body_length
      → receiver.overrun ≡ false
      → Reads opened [] (content ++ [])
  opened-Reads small clean =
      let first = le_bytes 2 (8 * p.blocks) in
      let second = le_bytes 2 (length content) in
      let rest = drop (2 + 8 * p.blocks) receiver.buffer in
      record {
        base = 4;
        base_low = omega arith;
        header = first ++ second;
        spare = p.fill ++ rest;
        header_size = omega (
          arith,
          length-append first second,
          length-le_bytes 2 (8 * p.blocks),
          length-le_bytes 2 (length content),
        );
        memory = rw append-nil (
            rw (
              append_assoc second (content ++ p.fill) rest,
              append_assoc content p.fill rest,
              ← append_assoc first second (content ++ (p.fill ++ rest)),
              ← append_assoc (first ++ second) content (p.fill ++ rest),
            ));
        within = rw append-nil (omega arith);
        cursor = refl;
        counted = rw append-nil;
        clean = clean;
      }

-- The sender's message is sent, and the receiver takes a packet from the wire, opens it and reads
-- these values from it without an overrun.
abbrev pub Delivers : Key → List Field → Message → Message → Type 0
Delivers key fs message receiver =
    (sent : OutputMessage) × (on_send_message false true key
        (record { message = message; output_buffer_start = 8 })
      ≡ some sent)
    × (packet : Message) × (read_packet (wire sent) receiver ≡ some packet)
    × (opened : Message) × (on_recv_message true key packet ≡ some opened)
    × ((read_all (map shape fs) opened).0 ≡ fs)
    × ((read_all (map shape fs) opened).1.overrun ≡ false)

-- A packet of values that fit their types is delivered over an encrypted connection: it is written
-- into a fresh message, framed, padded, encrypted, received into any buffer, decrypted with the same
-- key and read. It leaves room for one block of padding in the body of the message.
pub delivery :
    (key : Key) (fs : List Field) (memory : List ℕ) (receiver : Message)
    → length memory ≡ max_size
    → length receiver.buffer ≡ max_size
    → receiver.overrun ≡ false
    → All IsField fs
    → 8 + length (encode_all fs) + 7 < max_body_length
    → Delivers key fs (write_all fs (fresh memory)) receiver
delivery key fs memory receiver sized rsized clean ok room =
    let content = encode_all fs in
    let written =
      write_all-Holds fs (fresh memory) [] ok (fresh-Holds memory sized) (omega arith) in
    let (sent, e1, p) =
      on_send_message-IsPacket key (write_all fs (fresh memory)) content written room in
    let (packet, e2, e3) =
      received key content (wire sent) p receiver (omega arith) (encode_all-bytes fs ok) rsized
        clean in
    let (after, e4, h) =
      read_all-Reads fs (opened key content (wire sent) p receiver) [] [] ok
        (opened-Reads key content (wire sent) p receiver (omega arith) clean) in
    (
      sent,
      e1,
      packet,
      e2,
      opened key content (wire sent) p receiver,
      e3,
      ap (λ r. r.0) e4,
      ap (λ r. r.1.overrun) e4 ∙ h.clean,
    )
