-- ===== src/Network/Message/RoundTrip.antt =====
-- src/networkmessage.h and src/networkmessage.cpp: what the `add` functions write is what the `get`
-- functions read.
use mathlib.Core.List.{append_assoc, append-nil}
use mathlib.Core.Path.{subst}
use otxlinux.Prelude.{
  length-take, take-append-drop, ℕ, ◌+◌, ◌^◌, ◌<◌, ◌≡◌, refl, ap, sym, ◌∙◌, false, List, [], ◌∷◌,
  ◌++◌, map, le_bytes, length, slice, arith, drop, All, length-drop,
}
use otxlinux.Network.Message.{
  Message, max_size, max_body_length, get_byte, get_text, get_string, get_position, fresh,
  set_buffer_position,
}
use otxlinux.Network.Message.Memory.{
  Holds, Reads, advance, slice-Reads, can_read-Reads, advance-Reads, get_lem, get-Reads,
}
use otxlinux.Network.Message.Written.{write_all-Holds}
use otxlinux.Network.Message.Fields.{
  Field, byte, word16, word32, text, place, shape, IsField, encode, encode_all, write_all, read,
  read_all,
}

get_string_lem :
    (s : List ℕ) (m : Message) (seen rest : List ℕ)
    → length s < 2 ^ 16
    → Reads m seen (le_bytes 2 (length s) ++ (s ++ rest))
    → get_string 0 m ≡ (s, advance (length s) (advance 2 m))
unfolding get_string get_text
get_string_lem s m seen rest short h =
    let behind = get-Reads 2 (length s) m seen (s ++ rest) h in
    rw (
      get_lem 2 (length s) m seen (s ++ rest) short h,
      can_read-Reads (advance 2 m) (seen ++ le_bytes 2 (length s)) s rest behind,
      slice-Reads (advance 2 m) (seen ++ le_bytes 2 (length s)) s rest behind,
    )

-- The reader of one value gives what was written, and goes on behind it.
read-Reads :
    (f : Field) (m : Message) (seen rest : List ℕ)
    → IsField f
    → Reads m seen (encode f ++ rest)
    → (m' : Message) × (read (shape f) m ≡ (f, m')) × Reads m' (seen ++ encode f) rest
unfolding read encode
read-Reads (byte v) m seen rest ok h =
    (advance 1 m, unfold get_byte in rw (get_lem 1 v m seen rest ok h), get-Reads 1 v m seen rest h)
read-Reads (word16 v) m seen rest ok h =
    (advance 2 m, rw (get_lem 2 v m seen rest ok h), get-Reads 2 v m seen rest h)
read-Reads (word32 v) m seen rest ok h =
    (advance 4 m, rw (get_lem 4 v m seen rest ok h), get-Reads 4 v m seen rest h)
read-Reads (text s) m seen rest ok h =
    let size = le_bytes 2 (length s) in
    let h' = subst (Reads m seen) (append_assoc size s rest) h in
    let behind = get-Reads 2 (length s) m seen (s ++ rest) h' in
    (
      advance (length s) (advance 2 m),
      rw (get_string_lem s m seen rest (omega arith) h'),
      subst (λ t. Reads (advance (length s) (advance 2 m)) t rest) (append_assoc seen size s)
          (advance-Reads (advance 2 m) (seen ++ size) s rest behind),
    )
read-Reads (place p) m seen rest ok h =
    let bx = le_bytes 2 p.x in
    let by = le_bytes 2 p.y in
    let bz = le_bytes 1 p.z in
    let h1 =
      subst (Reads m seen) (append_assoc (bx ++ by) bz rest ∙ append_assoc bx by (bz ++ rest)) h in
    let h2 = get-Reads 2 p.x m seen (by ++ (bz ++ rest)) h1 in
    let h3 = get-Reads 2 p.y (advance 2 m) (seen ++ bx) (bz ++ rest) h2 in
    let h4 = get-Reads 1 p.z (advance 2 (advance 2 m)) (seen ++ bx ++ by) rest h3 in
    (
      advance 1 (advance 2 (advance 2 m)),
      unfold get_position get_byte in
          rw (
            get_lem 2 p.x m seen (by ++ (bz ++ rest)) ok.0 h1,
            get_lem 2 p.y (advance 2 m) (seen ++ bx) (bz ++ rest) ok.1 h2,
            get_lem 1 p.z (advance 2 (advance 2 m)) (seen ++ bx ++ by) rest ok.2 h3,
          ),
      subst (λ t. Reads (advance 1 (advance 2 (advance 2 m))) t rest)
          (append_assoc (seen ++ bx) by bz
            ∙ append_assoc seen bx (by ++ bz)
            ∙ ap (λ t. seen ++ t) (sym (append_assoc bx by bz)))
          h4,
    )

pub read_all-Reads :
    (fs : List Field) (m : Message) (seen rest : List ℕ)
    → All IsField fs
    → Reads m seen (encode_all fs ++ rest)
    → (m' : Message) × (read_all (map shape fs) m ≡ (fs, m'))
      × Reads m' (seen ++ encode_all fs) rest
unfolding read_all encode_all
read_all-Reads [] m seen rest ok h = (m, refl, rw append-nil h)
read_all-Reads (f ∷ fs) m seen rest ok h =
    let (m1, e1, h1) =
      read-Reads f m seen (encode_all fs ++ rest) ok.0
        (subst (Reads m seen) (append_assoc (encode f) (encode_all fs) rest) h) in
    let (m2, e2, h2) = read_all-Reads fs m1 (seen ++ encode f) rest ok.1 h1 in
    (
      m2,
      rw (e1, e2),
      subst (λ t. Reads m2 t rest) (append_assoc seen (encode f) (encode_all fs)) h2,
    )

pub fresh-Holds : (memory : List ℕ) → length memory ≡ max_size → Holds (fresh memory) []
unfolding fresh
fresh-Holds memory sized = record {
  header = slice 0 8 memory;
  spare = drop 8 memory;
  header_size = omega (arith, length-take 8 memory);
  memory = rw append-nil (sym (take-append-drop 8 memory));
  memory_size = omega (arith, length-drop 8 memory);
  cursor = refl;
  counted = refl;
  clean = refl;
}

Holds-Reads :
    (m : Message) (content : List ℕ)
    → Holds m content
    → 8 + length content < max_size
    → Reads (record m { position = 8 }) [] (content ++ [])
Holds-Reads m content h fits = record {
  base = 8;
  base_low = omega arith;
  header = h.header;
  spare = h.spare;
  header_size = h.header_size;
  memory = rw append-nil h.memory;
  within = rw append-nil fits;
  cursor = refl;
  counted = rw append-nil h.counted;
  clean = h.clean;
}

-- A packet that is written into a fresh message and read from its first byte by the shapes of its
-- values gives these values, and no read overruns the message.
pub read_all-write_all :
    (fs : List Field) (memory : List ℕ)
    → length memory ≡ max_size
    → All IsField fs
    → 8 + length (encode_all fs) < max_body_length
    → let r = read_all (map shape fs) (set_buffer_position 8 (write_all fs (fresh memory))) in
      (r.0 ≡ fs) × (r.1.overrun ≡ false)
unfolding set_buffer_position
read_all-write_all fs memory sized ok fits =
    let w = write_all-Holds fs (fresh memory) [] ok (fresh-Holds memory sized) fits in
    let (m, e, h) = read_all-Reads fs _ [] [] ok (Holds-Reads _ _ w (omega arith)) in
    (ap (λ r. r.0) e, ap (λ r. r.1.overrun) e ∙ h.clean)
