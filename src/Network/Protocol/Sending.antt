-- ===== src/Network/Protocol/Sending.antt =====
-- src/protocol.cpp: the bytes that Protocol::onSendMessage gives to the socket for an encrypted
-- connection.
use mathlib.Core.List.{append_assoc}
use mathlib.Core.Path.{subst}
use otxlinux.Prelude.{
  ℕ, ◌+◌, ◌*◌, ◌/◌, ◌%◌, ◌<◌, ◌≤◌, ◌≡◌, ap, ◌∙◌, true, false, some, List, ◌++◌, arith, length, All,
  le_bytes, length-append, length-le_bytes,
}
use otxlinux.Network.Message.{Message, max_body_length}
use otxlinux.Network.Message.Memory.{Holds}
use otxlinux.Network.Xtea.{Key, encrypt_blocks}
use otxlinux.Network.Protocol.{
  OutputMessage, add_header, pad, write_message_length, add_crypto_header, on_send_message,
  xtea_encrypt, wire,
}
use otxlinux.Network.Protocol.Blocks.{length-encrypt_blocks}
use otxlinux.Network.Protocol.Output.{
  Out, IsAtEnd, Holds-Out, add_header-Out, pad-Out, xtea_encrypt-Out, wire-Out,
}

-- The packet that goes over the wire for a content: its size, and its encrypted blocks, which hold
-- the size of the content, the content and less than a block of padding.
pub record IsPacket (key : Key) (content packet : List ℕ) : Type 0 where
  pub fill : List ℕ
  pub blocks : ℕ
  pub plain_size : 2 + length content + length fill ≡ 8 * blocks
  pub fill_short : length fill < 8
  pub fill_bytes : All (λ b. b < 256) fill
  pub form :
      packet
      ≡ le_bytes 2 (8 * blocks)
        ++ encrypt_blocks key blocks (le_bytes 2 (length content) ++ (content ++ fill))

-- The two framings succeed one after the other.
on_send_message_framed :
    (key : Key) (o framed sent : OutputMessage)
    → add_header 2 o.message.length o ≡ some framed
    → add_header 2 (xtea_encrypt key framed).message.length (xtea_encrypt key framed) ≡ some sent
    → on_send_message false true key o ≡ some sent
unfolding on_send_message write_message_length add_crypto_header
on_send_message_framed key o framed sent e1 e2 = rw (e1, on_send_message) e2

-- The second framing, of a message whose blocks are whole.
crypto_header :
    (key : Key) (blocks : ℕ) (framed : OutputMessage) (plain : List ℕ)
    → Out (pad framed) plain
    → length plain ≡ 8 * blocks
    → 2 ≤ (pad framed).output_buffer_start
    → (sent : OutputMessage) × (add_header 2
          (xtea_encrypt key framed).message.length
          (xtea_encrypt key framed)
        ≡ some sent)
      × (wire sent ≡ le_bytes 2 (8 * blocks) ++ encrypt_blocks key blocks plain)
crypto_header key blocks framed plain out size room =
    let (out3, start3) = xtea_encrypt-Out key blocks framed plain out size in
    let (sent, e, out4, start4, cursor4) =
      add_header-Out 2 (xtea_encrypt key framed).message.length (xtea_encrypt key framed)
        (encrypt_blocks key blocks plain) out3 (omega (arith, start3)) in
    (
      sent,
      e,
      wire-Out sent _ out4
          ∙ ap (λ n. le_bytes 2 n ++ encrypt_blocks key blocks plain)
              (out3.counted ∙ length-encrypt_blocks key blocks plain ∙ size),
    )

-- The padding and the second framing, of a message that was framed once.
encrypted :
    (key : Key) (o framed : OutputMessage) (content : List ℕ)
    → add_header 2 o.message.length o ≡ some framed
    → Out framed (le_bytes 2 (length content) ++ content)
    → IsAtEnd framed
    → framed.message.position + 7 < max_body_length
    → 2 ≤ framed.output_buffer_start
    → (sent : OutputMessage) × (on_send_message false true key o ≡ some sent)
      × IsPacket key content (wire sent)
encrypted key o framed content e1 out end room start =
    let plain_size : length plain ≡ 2 + length content = omega (
      arith,
      length-append (le_bytes 2 (length content)) content,
      length-le_bytes 2 (length content),
    ) in
    go plain_size (pad-Out framed plain out end room)
  where
    plain : List ℕ
    plain = le_bytes 2 (length content) ++ content

    go :
        length plain ≡ 2 + length content
        → (fill : List ℕ) × Out (pad framed) (plain ++ fill)
          × ((length plain + length fill) % 8 ≡ 0)
          × (length fill < 8)
          × All (λ b. b < 256) fill
          × ((pad framed).output_buffer_start ≡ framed.output_buffer_start)
        → (sent : OutputMessage) × (on_send_message false true key o ≡ some sent)
          × IsPacket key content (wire sent)
    go plain_size (fill, out2, whole, short, bytes, start2) =
        let blocks = (length plain + length fill) / 8 in
        let (sent, e2, w) =
          crypto_header key blocks framed (plain ++ fill) out2
            (omega (arith, length-append plain fill)) (omega (arith, start2)) in
        (
          sent,
          on_send_message_framed key o framed sent e1 e2,
          record {
            fill = fill;
            blocks = blocks;
            plain_size = omega (arith, plain_size);
            fill_short = short;
            fill_bytes = bytes;
            form =
                w
                ∙ ap (λ t. le_bytes 2 (8 * blocks) ++ encrypt_blocks key blocks t)
                    (append_assoc (le_bytes 2 (length content)) content fill);
          },
        )

-- An encrypted connection sends each content that leaves room for a block as one packet.
pub on_send_message-IsPacket :
    (key : Key) (m : Message) (content : List ℕ)
    → Holds m content
    → 8 + length content + 7 < max_body_length
    → (sent : OutputMessage) × (on_send_message false true key
          (record { message = m; output_buffer_start = 8 })
        ≡ some sent)
      × IsPacket key content (wire sent)
on_send_message-IsPacket key m content h room =
    let o : OutputMessage = record { message = m; output_buffer_start = 8 } in
    let (framed, e, out, start, cursor) =
      add_header-Out 2 m.length o content (Holds-Out m content h) (omega arith) in
    encrypted key o framed content e
      (subst (λ n. Out framed (le_bytes 2 n ++ content)) h.counted out)
      (omega (
        arith,
        out.counted,
        length-append (le_bytes 2 m.length) content,
        length-le_bytes 2 m.length,
        h.cursor,
        start,
        cursor,
      ))
      (omega (arith, h.cursor, cursor)) (omega (arith, start))
