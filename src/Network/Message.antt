-- ===== src/Network/Message.antt =====
-- src/networkmessage.h and src/networkmessage.cpp: the buffer of a message with its cursor. `length`
-- and `position` are `uint16_t`; the buffer is the list of its bytes.
pub mod Memory
pub mod Fields
pub mod Written
pub mod RoundTrip
use otxlinux.Prelude.{
  ℕ, zero, suc, ◌+◌, ◌*◌, ◌-◌, ◌%◌, ◌^◌, ◌≡◌, Bool, true, false, not, ◌||◌, List, [], ◌∷◌, ltb, leb,
  ◌==◌, if◌then◌else◌, u8, u16, le_bytes, le_value, length, get_or, set, slice, splice, replicate,
}
use otxlinux.Position.{Position}

-- NETWORKMESSAGE_MAXSIZE of src/const.h.
abbrev pub max_size : ℕ
max_size = 24590

abbrev pub header_length : ℕ
header_length = 2

-- NETWORKMESSAGE_MAXSIZE - HEADER_LENGTH - CHECKSUM_LENGTH - XTEA_MULTIPLE.
abbrev pub max_body_length : ℕ
max_body_length = max_size - header_length - 4 - 8

abbrev pub initial_buffer_position : ℕ
initial_buffer_position = 8

pub record Message : Type 0 where
  pub length : ℕ
  pub position : ℕ
  pub overrun : Bool
  pub buffer : List ℕ

-- A new message. What its buffer holds is not specified: it is an argument.
unfoldable pub fresh : List ℕ → Message
fresh bytes = record {
  length = 0;
  position = initial_buffer_position;
  overrun = false;
  buffer = bytes;
}

-- `info = {}`.
unfoldable pub reset : Message → Message
reset m = fresh m.buffer

unfoldable pub can_add : ℕ → Message → Bool
can_add size m = ltb (size + m.position) max_body_length

-- `size >= NETWORKMESSAGE_MAXSIZE - info.position`, whose right side may be negative, is written as
-- a sum.
unfoldable pub can_read : ℕ → Message → Bool
can_read size m = not (ltb (m.length + 8) (m.position + size) || leb max_size (size + m.position))

-- The `memcpy` and the two additions that `add`, `addByte`, `addBytes` and `addString` share.
unfoldable pub put : List ℕ → Message → Message
put bytes m = record m {
  length = u16 (m.length + length bytes);
  position = u16 (m.position + length bytes);
  buffer = splice m.position bytes m.buffer;
}

-- `add<T>` at an unsigned integer of `n` bytes, and `addByte`, which is `add` at one byte.
unfoldable pub add : ℕ → ℕ → Message → Message
unfolding can_add put
add n value m = if can_add n m then put (le_bytes n value) m else m

unfoldable pub add_byte : ℕ → Message → Message
unfolding add
add_byte value m = add 1 value m

-- `addBytes` at a `size` that is the number of the bytes.
unfoldable pub add_bytes : List ℕ → Message → Message
unfolding can_add put
add_bytes bytes m =
    if not (can_add (length bytes) m) || ltb 8192 (length bytes) then m else put bytes m

unfoldable pub add_string : List ℕ → Message → Message
unfolding can_add put add
add_string text m =
    if not (can_add (length text + 2) m) || ltb 8192 (length text)
    then m
    else put text (add 2 (length text) m)

-- The padding goes behind the content and the cursor stays.
unfoldable pub add_padding_bytes : ℕ → Message → Message
unfolding can_add
add_padding_bytes n m =
    if can_add n m
    then record m {
      length = u16 (m.length + n);
      buffer = splice m.position (replicate n 0x33) m.buffer;
    }
    else m

unfoldable pub add_position : Position → Message → Message
unfolding add add_byte
add_position p m = add_byte p.z (add 2 p.y (add 2 p.x m))

unfoldable pub set_overrun : Message → Message
set_overrun m = record m { overrun = true }

-- `get<T>` at an unsigned integer of `n` bytes. A read that does not fit gives 0.
unfoldable pub get : ℕ → Message → ℕ × Message
unfolding can_read set_overrun
get n m =
    if can_read n m
    then (le_value (slice m.position n m.buffer), record m { position = u16 (m.position + n) })
    else (0, set_overrun m)

unfoldable pub get_byte : Message → ℕ × Message
unfolding get
get_byte m = get 1 m

unfoldable pub get_previous_byte : Message → ℕ × Message
get_previous_byte m =
    let back = u16 (m.position + (2 ^ 16 - 1)) in
    (get_or m.buffer back 0, record m { position = back })

-- The part of `getString` behind the length.
unfoldable pub get_text : ℕ → Message → List ℕ × Message
unfolding can_read set_overrun
get_text n m =
    if can_read n m
    then (slice m.position n m.buffer, record m { position = u16 (m.position + n) })
    else ([], set_overrun m)

unfoldable pub get_string : ℕ → Message → List ℕ × Message
unfolding get get_text
get_string string_len m =
    let (n, m') = get 2 m in if string_len == 0 then get_text n m' else get_text string_len m

unfoldable pub get_position : Message → Position × Message
unfolding get get_byte
get_position m =
    let (x, m1) = get 2 m in
    let (y, m2) = get 2 m1 in let (z, m3) = get_byte m2 in (record { x = x; y = y; z = z }, m3)

-- `count` is the 16-bit pattern of an `int16_t`: the cursor wraps the same way for both signs.
unfoldable pub skip_bytes : ℕ → Message → Message
skip_bytes count m = record m { position = u16 (m.position + count) }

unfoldable pub set_length : ℕ → Message → Message
set_length n m = record m { length = u16 n }

unfoldable pub set_buffer_position : ℕ → Message → Message
set_buffer_position n m = record m { position = u16 n }

-- `getBodyBuffer` moves the cursor behind the header.
unfoldable pub body_buffer : Message → Message
body_buffer m = record m { position = header_length }

-- The bits of the two bytes are disjoint, so `|` is a sum.
unfoldable pub decode_header : Message → ℕ × Message
decode_header m =
    let size = get_or m.buffer 0 0 + get_or m.buffer 1 0 * 2 ^ 8 in
    (size, record m { length = u16 size })
