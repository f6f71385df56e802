-- ===== src/Network/Message/Fields.antt =====
-- src/networkmessage.h and src/networkmessage.cpp: packets as lists of values, written by the
-- `add` functions and read by the `get` functions.
use otxlinux.Prelude.{ℕ, ◌^◌, ◌<◌, ◌≤◌, List, [], ◌∷◌, ◌++◌, le_bytes, length, All}
use otxlinux.Position.{Position}
use otxlinux.Network.Message.{
  Message, add, add_byte, add_string, add_position, get, get_byte, get_string, get_position,
}

-- One value of a packet, and what the reader asks for.
pub data Field : Type 0 where
  byte word16 word32 : ℕ → Field
  text : List ℕ → Field
  place : Position → Field

pub data Shape : Type 0 where
  a_byte a_word16 a_word32 a_text a_place : Shape

abbrev pub shape : Field → Shape
shape (byte v) = a_byte
shape (word16 v) = a_word16
shape (word32 v) = a_word32
shape (text s) = a_text
shape (place p) = a_place

-- The values fit their types, and a text is one that `addString` takes.
abbrev pub IsField : Field → Type 0
IsField (byte v) = v < 2 ^ 8
IsField (word16 v) = v < 2 ^ 16
IsField (word32 v) = v < 2 ^ 32
IsField (text s) = (length s ≤ 8192) × All (λ c. c < 2 ^ 8) s
IsField (place p) = (p.x < 2 ^ 16) × (p.y < 2 ^ 16) × (p.z < 2 ^ 8)

unfoldable pub encode : Field → List ℕ
encode (byte v) = le_bytes 1 v
encode (word16 v) = le_bytes 2 v
encode (word32 v) = le_bytes 4 v
encode (text s) = le_bytes 2 (length s) ++ s
encode (place p) = le_bytes 2 p.x ++ le_bytes 2 p.y ++ le_bytes 1 p.z

unfoldable pub encode_all : List Field → List ℕ
encode_all [] = []
encode_all (f ∷ fs) = encode f ++ encode_all fs

unfoldable pub write : Field → Message → Message
write (byte v) m = add_byte v m
write (word16 v) m = add 2 v m
write (word32 v) m = add 4 v m
write (text s) m = add_string s m
write (place p) m = add_position p m

unfoldable pub write_all : List Field → Message → Message
write_all [] m = m
write_all (f ∷ fs) m = write_all fs (write f m)

unfoldable pub read : Shape → Message → Field × Message
read a_byte m = let (v, m') = get_byte m in (byte v, m')
read a_word16 m = let (v, m') = get 2 m in (word16 v, m')
read a_word32 m = let (v, m') = get 4 m in (word32 v, m')
read a_text m = let (s, m') = get_string 0 m in (text s, m')
read a_place m = let (p, m') = get_position m in (place p, m')

unfoldable pub read_all : List Shape → Message → List Field × Message
read_all [] m = ([], m)
read_all (s ∷ ss) m = let (f, m1) = read s m in let (fs, m2) = read_all ss m1 in (f ∷ fs, m2)
