-- ===== src/Network/Message/Written.antt =====
-- src/networkmessage.h and src/networkmessage.cpp: what the `add` functions leave in the memory
-- of a message.
use mathlib.Core.List.{append_assoc, append-nil}
use mathlib.Core.Path.{subst}
use otxlinux.Prelude.{
  lt→ltb_false, ℕ, ◌+◌, ◌<◌, ◌≤◌, ◌≡◌, true, List, [], ◌∷◌, ◌++◌, le_bytes, length, arith, All,
  length-append, length-le_bytes,
}
use otxlinux.Position.{Position}
use otxlinux.Network.Message.{
  Message, max_body_length, can_add, add, add_byte, add_string, add_position,
}
use otxlinux.Network.Message.Memory.{Holds, put-Holds}
use otxlinux.Network.Message.Fields.{
  Field, byte, word16, word32, text, place, IsField, encode, encode_all, write, write_all,
}

can_add-Holds :
    (n : ℕ) (m : Message) (content : List ℕ)
    → Holds m content
    → 8 + length content + n < max_body_length
    → can_add n m ≡ true
unfolding can_add
can_add-Holds n m content h fits = ground (arith, h.cursor)

add-Holds :
    (n v : ℕ) (m : Message) (content : List ℕ)
    → Holds m content
    → 8 + length content + n < max_body_length
    → Holds (add n v m) (content ++ le_bytes n v)
unfolding add
add-Holds n v m content h fits =
    rw (can_add-Holds n m content h fits)
      (put-Holds m content (le_bytes n v) h (omega (arith, length-le_bytes n v)))

add_string-Holds :
    (s : List ℕ) (m : Message) (content : List ℕ)
    → length s ≤ 8192
    → Holds m content
    → 8 + length content + (length s + 2) < max_body_length
    → Holds (add_string s m) (content ++ (le_bytes 2 (length s) ++ s))
unfolding add_string
add_string-Holds s m content short h fits =
    let sized = length-le_bytes 2 (length s) in
    let first = add-Holds 2 (length s) m content h (omega arith) in
    rw
      (
        can_add-Holds (length s + 2) m content h fits,
        lt→ltb_false 8192 (length s) short,
        ← append_assoc content (le_bytes 2 (length s)) s,
      )
      (put-Holds (add 2 (length s) m) (content ++ le_bytes 2 (length s)) s first
        (omega (arith, sized, length-append content (le_bytes 2 (length s)))))

add_position-Holds :
    (p : Position) (m : Message) (content : List ℕ)
    → Holds m content
    → 8 + length content + 5 < max_body_length
    → Holds (add_position p m) (content ++ (le_bytes 2 p.x ++ le_bytes 2 p.y ++ le_bytes 1 p.z))
unfolding add_position add_byte
add_position-Holds p m content h fits =
    let sized_x = length-le_bytes 2 p.x in
    let sized_y = length-le_bytes 2 p.y in
    let after_x = content ++ le_bytes 2 p.x in
    let after_y = after_x ++ le_bytes 2 p.y in
    rw
      (
        ← append_assoc content (le_bytes 2 p.x ++ le_bytes 2 p.y) (le_bytes 1 p.z),
        ← append_assoc content (le_bytes 2 p.x) (le_bytes 2 p.y),
      )
      (add-Holds 1 p.z _ after_y
        (add-Holds 2 p.y _ after_x (add-Holds 2 p.x m content h (omega arith))
          (omega (arith, sized_x, length-append content (le_bytes 2 p.x))))
        (omega (
          arith,
          sized_x,
          sized_y,
          length-append content (le_bytes 2 p.x),
          length-append after_x (le_bytes 2 p.y),
        )))

pub write-Holds :
    (f : Field) (m : Message) (content : List ℕ)
    → IsField f
    → Holds m content
    → 8 + length content + length (encode f) < max_body_length
    → Holds (write f m) (content ++ encode f)
unfolding write encode
write-Holds (byte v) m content ok h fits =
    unfold add_byte in add-Holds 1 v m content h (omega (arith, length-le_bytes 1 v))
write-Holds (word16 v) m content ok h fits =
    add-Holds 2 v m content h (omega (arith, length-le_bytes 2 v))
write-Holds (word32 v) m content ok h fits =
    add-Holds 4 v m content h (omega (arith, length-le_bytes 4 v))
write-Holds (text s) m content ok h fits =
    add_string-Holds s m content ok.0 h
      (omega (arith, length-append (le_bytes 2 (length s)) s, length-le_bytes 2 (length s)))
write-Holds (place p) m content ok h fits = add_position-Holds p m content h (
    omega (
      arith,
      length-append (le_bytes 2 p.x ++ le_bytes 2 p.y) (le_bytes 1 p.z),
      length-append (le_bytes 2 p.x) (le_bytes 2 p.y),
      length-le_bytes 2 p.x,
      length-le_bytes 2 p.y,
      length-le_bytes 1 p.z,
    ))

pub write_all-Holds :
    (fs : List Field) (m : Message) (content : List ℕ)
    → All IsField fs
    → Holds m content
    → 8 + length content + length (encode_all fs) < max_body_length
    → Holds (write_all fs m) (content ++ encode_all fs)
unfolding write_all encode_all
write_all-Holds [] m content ok h fits = rw append-nil h
write_all-Holds (f ∷ fs) m content ok h fits =
    let sizes = length-append (encode f) (encode_all fs) in
    subst (Holds (write_all fs (write f m))) (append_assoc content (encode f) (encode_all fs)) (
      write_all-Holds fs (write f m) (content ++ encode f) ok.1
        (write-Holds f m content ok.0 h (omega (arith, sizes)))
        (omega (arith, sizes, length-append content (encode f))))
