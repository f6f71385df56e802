-- ===== src/Network/Protocol/Output.antt =====
-- src/protocol.cpp and src/outputmessage.h: what each step of Protocol::onSendMessage makes of the
-- bytes that will be sent.
use mathlib.Core.List.{append_assoc, append-nil}
use otxlinux.Prelude.{
  ℕ, ◌+◌, ◌-◌, ◌*◌, ◌%◌, ◌^◌, ◌<◌, ◌≤◌, ◌≡◌, refl, ap, sym, ◌∙◌, inl, inr, some, List, [], ◌++◌,
  arith, length, All, le_bytes, take, drop, splice, replicate, ◌==◌, Bool-cases, ==_iff, ==_false,
  lt→ltb, lt→ltb_false, length-append, length-le_bytes, length-drop, length-take, length-replicate,
  take-append-drop, splice-append, slice-append, drop-append, take-append, All-replicate,
}
use otxlinux.Network.Message.{Message, max_size, max_body_length, can_add, add_padding_bytes}
use otxlinux.Network.Message.Memory.{Holds}
use otxlinux.Network.Xtea.{Key, encrypt_blocks}
use otxlinux.Network.Protocol.{OutputMessage, add_header, pad, xtea_encrypt, block_count, wire}
use otxlinux.Network.Protocol.Blocks.{encrypt_blocks-append, length-encrypt_blocks}

-- `content` is what stands in the buffer from the start of the output, as long as the message says.
pub record Out (o : OutputMessage) (content : List ℕ) : Type 0 where
  pub header : List ℕ
  pub spare : List ℕ
  pub memory : o.message.buffer ≡ header ++ (content ++ spare)
  pub memory_size : length header + length content + length spare ≡ max_size
  pub start : o.output_buffer_start ≡ length header
  pub counted : o.message.length ≡ length content

-- The cursor stands behind the content.
abbrev pub IsAtEnd : OutputMessage → Type 0
IsAtEnd o = o.message.position ≡ o.output_buffer_start + o.message.length

pub Holds-Out :
    (m : Message) (content : List ℕ)
    → Holds m content
    → Out (record { message = m; output_buffer_start = 8 }) content
Holds-Out m content h = record {
  header = h.header;
  spare = h.spare;
  memory = h.memory ∙ append_assoc h.header content h.spare;
  memory_size = omega (arith, h.memory_size, h.header_size);
  start = sym h.header_size;
  counted = h.counted;
}

splice-middle :
    (front old new rest : List ℕ)
    → length new ≡ length old
    → splice (length front) new (front ++ (old ++ rest)) ≡ front ++ (new ++ rest)
splice-middle front old new rest e =
    splice-append front new (old ++ rest) (omega (arith, length-append old rest))
    ∙ rw (e, drop-append old rest) (append_assoc front new rest)

-- A header goes in front of the content, where the room for it was kept.
pub add_header-Out :
    (n v : ℕ) (o : OutputMessage) (content : List ℕ)
    → Out o content
    → n ≤ o.output_buffer_start
    → (o' : OutputMessage) × (add_header n v o ≡ some o')
      × Out o' (le_bytes n v ++ content)
      × (o'.output_buffer_start + n ≡ o.output_buffer_start)
      × (o'.message.position ≡ o.message.position)
unfolding add_header
add_header-Out n v o content h room =
    let k = o.output_buffer_start - n in
    let front = take k h.header in
    let old = drop k h.header in
    let front_size : length front ≡ k = omega (arith, length-take k h.header, h.start) in
    let old_size : length old ≡ n = omega (arith, length-drop k h.header, h.start) in
    let size = length-le_bytes n v in
    let kept : o.message.buffer ≡ front ++ (old ++ (content ++ h.spare)) =
      h.memory
      ∙ ap (λ t. t ++ (content ++ h.spare)) (sym (take-append-drop k h.header))
      ∙ append_assoc front old (content ++ h.spare) in
    (
      record {
        message = record (o.message) {
          length = (o.message.length + n) % 2 ^ 16;
          buffer = splice k (le_bytes n v) o.message.buffer;
        };
        output_buffer_start = k;
      },
      rw (lt→ltb_false o.output_buffer_start n room),
      record {
        header = front;
        spare = h.spare;
        memory =
            ap (λ b. splice k (le_bytes n v) b) kept
            ∙ ap (λ t. splice t (le_bytes n v) (front ++ (old ++ (content ++ h.spare))))
                (sym front_size)
            ∙ splice-middle front old (le_bytes n v) (content ++ h.spare) (size ∙ sym old_size)
            ∙ ap (λ t. front ++ t) (sym (append_assoc (le_bytes n v) content h.spare));
        memory_size =
            omega (
              arith,
              front_size,
              h.start,
              h.memory_size,
              size,
              length-append (le_bytes n v) content,
            );
        start = sym front_size;
        counted =
            omega (
              arith,
              h.counted,
              h.memory_size,
              h.start,
              size,
              length-append (le_bytes n v) content,
            );
      },
      omega arith,
      refl,
    )

add_padding_bytes-Out :
    (n : ℕ) (o : OutputMessage) (content : List ℕ)
    → Out o content
    → IsAtEnd o
    → n + o.message.position < max_body_length
    → Out (record o { message = add_padding_bytes n o.message }) (content ++ replicate n 0x33)
unfolding add_padding_bytes can_add
add_padding_bytes-Out n o content h end room =
    let fill : List ℕ = replicate n 0x33 in
    let size = length-replicate {A = ℕ} n 0x33 in
    let front_size : length (h.header ++ content) ≡ o.message.position =
      omega (arith, length-append h.header content, h.start, h.counted) in
    rw (lt→ltb (n + o.message.position) max_body_length room) (record {
      header = h.header;
      spare = drop (length fill) h.spare;
      memory =
          rw (h.memory, ← front_size, ← append_assoc h.header content h.spare)
            (splice-append (h.header ++ content) fill h.spare
                (omega (arith, h.memory_size, h.start, h.counted))
              ∙ rw (
                append_assoc (h.header ++ content) fill,
                append_assoc h.header content,
                append_assoc content fill,
              ));
      memory_size = omega (
        arith,
        h.memory_size,
        h.start,
        h.counted,
        size,
        length-append content fill,
        length-drop (length fill) h.spare,
      );
      start = h.start;
      counted = omega (arith, h.counted, h.memory_size, h.start, size, length-append content fill);
    })

-- The padding makes the content whole blocks.
pub pad-Out :
    (o : OutputMessage) (content : List ℕ)
    → Out o content
    → IsAtEnd o
    → o.message.position + 7 < max_body_length
    → (fill : List ℕ) × Out (pad o) (content ++ fill)
      × ((length content + length fill) % 8 ≡ 0)
      × (length fill < 8)
      × All (λ b. b < 256) fill
      × ((pad o).output_buffer_start ≡ o.output_buffer_start)
unfolding pad
pad-Out o content h end room =
    let missing : ℕ = 8 - o.message.length % 8 in
    let size = length-replicate {A = ℕ} missing 0x33 in
    elim (Bool-cases (o.message.length % 8 == 0)) [
      | inl whole ↦ (
        [],
        rw (whole, append-nil) h,
        omega (arith, h.counted, (==_iff (o.message.length % 8) 0).0 whole),
        omega arith,
        tt,
        rw whole refl,
      )
      | inr over ↦ (
        replicate missing 0x33,
        rw over (
            add_padding_bytes-Out missing o content h end
              (omega (arith, ==_false (o.message.length % 8) 0 over))),
        omega (arith, h.counted, size),
        omega (arith, size, ==_false (o.message.length % 8) 0 over),
        All-replicate (λ b. b < 256) missing 0x33 (omega arith),
        rw over refl,
      )
    ]

pub wire-Out : (o : OutputMessage) (content : List ℕ) → Out o content → wire o ≡ content
unfolding wire
wire-Out o content h =
    rw (h.start, h.counted, h.memory, ← append_assoc) (slice-append h.header content h.spare)

pub xtea_encrypt-Out :
    (k : Key) (n : ℕ) (o : OutputMessage) (content : List ℕ)
    → Out (pad o) content
    → length content ≡ 8 * n
    → Out (xtea_encrypt k o) (encrypt_blocks k n content)
      × ((xtea_encrypt k o).output_buffer_start ≡ (pad o).output_buffer_start)
unfolding xtea_encrypt
xtea_encrypt-Out k n o content h size = (
  record {
    header = h.header;
    spare = h.spare;
    memory = rw (
      h.start,
      h.memory,
      take-append h.header (content ++ h.spare),
      drop-append h.header (content ++ h.spare),
      blocks,
      encrypt_blocks-append k n content h.spare size,
    );
    memory_size = omega (arith, h.memory_size, length-encrypt_blocks k n content);
    start = h.start;
    counted = omega (arith, h.counted, length-encrypt_blocks k n content);
  },
  refl,
)
  where
    blocks : block_count (pad o).message.length ≡ n
    blocks = omega (arith, h.counted)
