-- ===== src/Network/Protocol/Receiving.antt =====
-- src/protocol.cpp and src/connection.cpp: what a connection makes of a packet
-- from the wire: the header, the body and its decryption.
use native.Mathlib.Nat.{mod-eq_of_lt}
use mathlib.Core.List.{append_assoc, append-nil}
use otxlinux.Prelude.{
  lt→ltb_false, ==_iff, ◌==◌, drop-drop, leb, ℕ, ◌+◌, ◌-◌, ◌*◌, ◌/◌, ◌%◌, ◌^◌, ◌<◌, ◌≡◌, refl, ap,
  sym, ◌∙◌, true, false, some, List, [], ◌++◌, arith, length, All, le_bytes, take, drop, splice,
  slice, length-append, length-le_bytes, take-append, drop-append, length-drop, splice-append,
}
use otxlinux.Network.Message.{Message, max_size, set_length, decode_header, body_buffer}
use otxlinux.Network.Message.Memory.{Reads}
use otxlinux.Network.Message.Memory.{get_lem}
use otxlinux.Network.Xtea.{Key, encrypt_blocks}
use otxlinux.Network.Protocol.{xtea_decrypt, parse_header, read_packet, decrypt_body}
use otxlinux.Network.Protocol.Blocks.{decrypt_blocks-behind}

-- What `decodeHeader` makes of the two bytes of a size.
decode_header_lem :
    (n : ℕ) (rest : List ℕ) (m : Message)
    → n < 2 ^ 16
    → m.buffer ≡ le_bytes 2 n ++ rest
    → decode_header m ≡ (n, record m { length = n })
unfolding decode_header le_bytes
decode_header_lem n rest m small e =
    let value : n % 256 + n / 256 % 256 * 256 ≡ n = omega arith in
    let fits : n % 2 ^ 16 ≡ n = omega arith in rw (e, value, fits)

parse_header_lem :
    (n : ℕ) (m : Message)
    → 0 < n
    → n < max_size - 16
    → length m.buffer ≡ max_size
    → parse_header (le_bytes 2 n) m
      ≡ some
          (n, record m { length = n + 2; position = 2; buffer = le_bytes 2 n ++ drop 2 m.buffer })
unfolding parse_header set_length body_buffer
parse_header_lem n m pos small memory =
    let stored : splice 0 (le_bytes 2 n) m.buffer ≡ le_bytes 2 n ++ drop 2 m.buffer =
      splice-append [] (le_bytes 2 n) m.buffer (omega (arith, length-le_bytes 2 n))
      ∙ ap (λ k. le_bytes 2 n ++ drop k m.buffer) (length-le_bytes 2 n) in
    let header : Message = record m { buffer = splice 0 (le_bytes 2 n) m.buffer } in
    let decoded = decode_header_lem n (drop 2 m.buffer) header (omega arith) stored in
    let fits : (n + 2) % 2 ^ 16 ≡ n + 2 = omega arith in
    rw (decoded, parse_header, nonzero n pos, below n small, fits, stored)
  where
    nonzero : (n : ℕ) → 0 < n → (n == 0) ≡ false
    nonzero n pos = ground arith

    below : (n : ℕ) → n < max_size - 16 → leb (max_size - 16) n ≡ false
    below n small = ground arith

pub read_packet_lem :
    (n : ℕ) (body : List ℕ) (m : Message)
    → 0 < n
    → n < max_size - 16
    → length body ≡ n
    → length m.buffer ≡ max_size
    → read_packet (le_bytes 2 n ++ body) m
      ≡ some (record m {
        length = n + 2;
        position = 2;
        buffer = le_bytes 2 n ++ (body ++ drop (2 + n) m.buffer);
      })
unfolding read_packet
read_packet_lem n body m pos small size memory =
    let two = length-le_bytes 2 n in
    let front : take 2 (le_bytes 2 n ++ body) ≡ le_bytes 2 n =
      ap (λ k. take k (le_bytes 2 n ++ body)) (sym two) ∙ take-append (le_bytes 2 n) body in
    let behind : slice 2 n (le_bytes 2 n ++ body) ≡ body =
      ap (λ k. take n (drop k (le_bytes 2 n ++ body))) (sym two)
      ∙ ap (take n) (drop-append (le_bytes 2 n) body)
      ∙ ap (λ k. take k body) (sym size)
      ∙ ap (take (length body)) (sym (append-nil body))
      ∙ take-append body [] in
    let stored : splice 2 body (le_bytes 2 n ++ drop 2 m.buffer)
        ≡ le_bytes 2 n ++ (body ++ drop (2 + n) m.buffer) =
      ap (λ k. splice k body (le_bytes 2 n ++ drop 2 m.buffer)) (sym two)
      ∙ splice-append (le_bytes 2 n) body (drop 2 m.buffer) (omega (arith, length-drop 2 m.buffer))
      ∙ append_assoc (le_bytes 2 n) body _
      ∙ ap (λ t. le_bytes 2 n ++ (body ++ t))
          (ap (λ k. drop k (drop 2 m.buffer)) size ∙ drop-drop 2 n m.buffer) in
    rw (
      front,
      parse_header_lem n m pos small memory,
      behind,
      (==_iff (length body) n).1 size,
      stored,
      read_packet,
    )

-- Decryption of a packet that stands in the buffer behind its header.
module _ (key : Key) (blocks : ℕ) (header content fill rest : List ℕ) where
  abbrev plain : List ℕ
  plain = le_bytes 2 (length content) ++ (content ++ fill)

  abbrev received : Message → Message
  received m = record m {
    length = 8 * blocks + 2;
    position = 2;
    buffer = header ++ (encrypt_blocks key blocks plain ++ rest);
  }

  abbrev pub decrypted : Message → Message
  decrypted m = record m {
    length = length content;
    position = 4;
    buffer = header ++ (plain ++ rest);
  }

  opened : Message → Message
  opened m = record (received m) { buffer = header ++ (plain ++ rest) }

  decrypt_body_lem :
      (m : Message)
      → length header ≡ 2
      → length plain ≡ 8 * blocks
      → All (λ b. b < 256) plain
      → decrypt_body key (received m) ≡ opened m
  unfolding decrypt_body opened
  decrypt_body_lem m two size bytes =
      let body = encrypt_blocks key blocks plain ++ rest in
      let count : (8 * blocks + 2 - 2 + 7) / 8 ≡ blocks = omega arith in
      rw (
        ap (λ k. take k (header ++ body)) (sym two) ∙ take-append header body,
        ap (λ k. drop k (header ++ body)) (sym two) ∙ drop-append header body,
        count,
        decrypt_blocks-behind key blocks plain rest size bytes,
      )

  opened-Reads :
      (m : Message)
      → length header ≡ 2
      → length plain ≡ 8 * blocks
      → 8 * blocks + 10 < max_size
      → m.overrun ≡ false
      → Reads (opened m) header (le_bytes 2 (length content) ++ (content ++ fill))
  unfolding opened
  opened-Reads m two size small clean = record {
    base = 0;
    base_low = omega arith;
    header = [];
    spare = rest;
    header_size = refl;
    memory = sym (append_assoc header plain rest);
    within = omega (arith, length-append header plain);
    cursor = omega arith;
    counted = omega (arith, length-append header plain);
    clean = clean;
  }

  pub xtea_decrypt_lem :
      (m : Message)
      → length header ≡ 2
      → 2 + length content + length fill ≡ 8 * blocks
      → 8 * blocks + 10 < max_size
      → All (λ b. b < 256) plain
      → m.overrun ≡ false
      → xtea_decrypt key (received m) ≡ (true, decrypted m)
  unfolding xtea_decrypt set_length opened
  xtea_decrypt_lem m two size small bytes clean =
      let plain_size : length plain ≡ 8 * blocks = omega (
        arith,
        length-append (le_bytes 2 (length content)) (content ++ fill),
        length-append content fill,
        length-le_bytes 2 (length content),
      ) in
      let short : length content < 2 ^ 16 = omega arith in
      rw (
        decrypt_body_lem m two plain_size bytes,
        get_lem 2 (length content) (opened m) header (content ++ fill) short
            (opened-Reads m two plain_size small clean),
        (==_iff ((8 * blocks + 2 + 6) % 8) 0).1 (omega arith),
        lt→ltb_false (8 * blocks + 2) (length content + 4) (omega arith),
        mod-eq_of_lt short,
      )
