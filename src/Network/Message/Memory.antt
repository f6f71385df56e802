-- ===== src/Network/Message/Memory.antt =====
-- src/networkmessage.h and src/networkmessage.cpp: the memory of a message that was written and of
-- one that is being read.
use mathlib.Core.List.{append_assoc}
use mathlib.Core.Path.{subst}
use otxlinux.Prelude.{
  ℕ, ◌+◌, ◌^◌, ◌<◌, ◌≤◌, ◌≡◌, ap, sym, ◌∙◌, true, false, List, ◌++◌, u16, le_bytes, length, slice,
  arith, drop, splice-append, slice-append, length-append, length-le_bytes, le_value-le_bytes,
  length-drop,
}
use otxlinux.Network.Message.{Message, max_size, can_read, put, get}

-- `content` is what was written behind the eight bytes of the headers, and the cursor is behind it.
pub record Holds (m : Message) (content : List ℕ) : Type 0 where
  pub header : List ℕ
  pub spare : List ℕ
  pub header_size : length header ≡ 8
  pub memory : m.buffer ≡ header ++ content ++ spare
  pub memory_size : 8 + length content + length spare ≡ max_size
  pub cursor : m.position ≡ 8 + length content
  pub counted : m.length ≡ length content
  pub clean : m.overrun ≡ false

pub put-Holds :
    (m : Message) (content bytes : List ℕ)
    → Holds m content
    → length content + length bytes + 8 ≤ max_size
    → Holds (put bytes m) (content ++ bytes)
unfolding put
put-Holds m content bytes h fits =
    let front_size : length (h.header ++ content) ≡ 8 + length content =
      omega (arith, length-append h.header content, h.header_size) in
    record {
      header = h.header;
      spare = drop (length bytes) h.spare;
      header_size = h.header_size;
      memory = rw (
        h.cursor,
        h.memory,
        ← front_size,
        splice-append (h.header ++ content) bytes h.spare (omega (arith, h.memory_size)),
        append_assoc h.header content bytes,
      );
      memory_size =
          omega
            (arith, h.memory_size, length-append content bytes, length-drop (length bytes) h.spare);
      cursor = omega (arith, h.cursor, length-append content bytes);
      counted = omega (arith, h.counted, length-append content bytes);
      clean = h.clean;
    }

-- A message that is being read: its packet begins at `base`, `seen` was read and `rest` comes next.
pub record Reads (m : Message) (seen rest : List ℕ) : Type 0 where
  pub base : ℕ
  pub base_low : base ≤ 8
  pub header : List ℕ
  pub spare : List ℕ
  pub header_size : length header ≡ base
  pub memory : m.buffer ≡ header ++ (seen ++ rest) ++ spare
  pub within : 8 + length (seen ++ rest) < max_size
  pub cursor : m.position ≡ base + length seen
  pub counted : m.length ≡ length (seen ++ rest)
  pub clean : m.overrun ≡ false

-- The cursor behind `n` more bytes.
abbrev pub advance : ℕ → Message → Message
advance n m = record m { position = u16 (m.position + n) }

-- A read of bytes that are there is allowed and gives them.
module _ (m : Message) (seen bytes rest : List ℕ) (h : Reads m seen (bytes ++ rest)) where
  sizes : length (seen ++ (bytes ++ rest)) ≡ length seen + length bytes + length rest
  sizes = omega (arith, length-append seen (bytes ++ rest), length-append bytes rest)

  pub slice-Reads : slice m.position (length bytes) m.buffer ≡ bytes
  slice-Reads =
      let front_size : length (h.header ++ seen) ≡ h.base + length seen =
        omega (arith, length-append h.header seen, h.header_size) in
      rw (h.cursor, h.memory, ← front_size)
        (rw
          (
            ← append_assoc h.header seen (bytes ++ rest),
            append_assoc (h.header ++ seen) (bytes ++ rest) h.spare,
            append_assoc bytes rest h.spare,
            ← append_assoc (h.header ++ seen) bytes (rest ++ h.spare),
          )
          (slice-append (h.header ++ seen) bytes (rest ++ h.spare)))

  pub can_read-Reads : can_read (length bytes) m ≡ true
  unfolding can_read
  can_read-Reads = ground (arith, sizes, h.within, h.cursor, h.counted, h.base_low)

  pub advance-Reads : Reads (advance (length bytes) m) (seen ++ bytes) rest
  advance-Reads = record {
    base = h.base;
    base_low = h.base_low;
    header = h.header;
    spare = h.spare;
    header_size = h.header_size;
    memory = h.memory ∙ ap (λ t. h.header ++ t ++ h.spare) (sym (append_assoc seen bytes rest));
    within = rw (append_assoc seen bytes rest) h.within;
    cursor = omega (arith, sizes, h.within, h.cursor, h.base_low, length-append seen bytes);
    counted = rw (append_assoc seen bytes rest) h.counted;
    clean = h.clean;
  }

pub get_lem :
    (n v : ℕ) (m : Message) (seen rest : List ℕ)
    → v < 256 ^ n
    → Reads m seen (le_bytes n v ++ rest)
    → get n m ≡ (v, advance n m)
unfolding get
get_lem n v m seen rest fits h =
    let size = length-le_bytes n v in
    rw (
      (ap (λ k. can_read k m) (sym size) ∙ can_read-Reads m seen (le_bytes n v) rest h),
      (ap (λ k. slice m.position k m.buffer) (sym size) ∙ slice-Reads m seen (le_bytes n v) rest h),
      le_value-le_bytes n v fits,
    )

pub get-Reads :
    (n v : ℕ) (m : Message) (seen rest : List ℕ)
    → Reads m seen (le_bytes n v ++ rest)
    → Reads (advance n m) (seen ++ le_bytes n v) rest
get-Reads n v m seen rest h =
    subst (λ k. Reads (advance k m) (seen ++ le_bytes n v) rest) (length-le_bytes n v)
      (advance-Reads m seen (le_bytes n v) rest h)
