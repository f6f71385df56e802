-- ===== src/FileLoader/PropStream/RoundTrip.antt =====
-- src/fileloader.h: what PropWriteStream writes PropStream reads.
use mathlib.Core.Path.{subst}
use mathlib.Core.List.{append_assoc, append-nil}
use otxlinux.Prelude.{
  ℕ, ◌^◌, ◌≡◌, ◌<◌, refl, ap, sym, ◌∙◌, false, List, [], ◌∷◌, ◌++◌, Option, none, some, ltb, u16,
  le_bytes, le_value, length, length-append, length-le_bytes, le_value-le_bytes, arith, take-append,
  drop-append, map, lt→ltb, lt→ltb_false, All,
}
use otxlinux.FileLoader.PropStream.{read, read_text, read_string, write, write_string}

fits : (xs rest : List ℕ) → ltb (length (xs ++ rest)) (length xs) ≡ false
fits xs rest = lt→ltb_false _ _ (omega (arith, length-append xs rest))

read_text-append : (str rest : List ℕ) → read_text (length str) (str ++ rest) ≡ (some str, rest)
unfolding read_text
read_text-append str rest = rw (fits str rest, take-append str rest, drop-append str rest)

read-append : (xs rest : List ℕ) → read (length xs) (xs ++ rest) ≡ (some (le_value xs), rest)
unfolding read
read-append xs rest = rw (fits xs rest, take-append xs rest, drop-append xs rest)

read-le_bytes :
    (n v : ℕ) (rest : List ℕ) → v < 256 ^ n → read n (le_bytes n v ++ rest) ≡ (some v, rest)
read-le_bytes n v rest h =
    subst (λ k. read k (le_bytes n v ++ rest) ≡ (some v, rest)) (length-le_bytes n v)
      (read-append (le_bytes n v) rest ∙ ap (λ w. (some w, rest)) (le_value-le_bytes n v h))

-- What a stream holds: an unsigned integer of so many bytes, or a text.
pub data Property : Type 0 where
  number : (size value : ℕ) → Property
  text : List ℕ → Property

pub data Shape : Type 0 where
  a_number : ℕ → Shape
  a_text : Shape

abbrev pub shape : Property → Shape
shape (number n v) = a_number n
shape (text str) = a_text

-- A number fits its bytes, and the length of a text fits 16 bits.
abbrev pub Fits : Property → Type 0
Fits (number n v) = v < 256 ^ n
Fits (text str) = length str < 65536

unfoldable pub write_property : Property → List ℕ → List ℕ
write_property (number n v) buffer = write n v buffer
write_property (text str) buffer = write_string str buffer

unfoldable pub write_properties : List Property → List ℕ → List ℕ
write_properties [] buffer = buffer
write_properties (p ∷ ps) buffer = write_properties ps (write_property p buffer)

abbrev pub got_number : ℕ → Option ℕ → Option Property
got_number n none = none
got_number n (some v) = some (number n v)

abbrev pub got_text : Option (List ℕ) → Option Property
got_text none = none
got_text (some str) = some (text str)

unfoldable pub read_property : Shape → List ℕ → Option Property × List ℕ
read_property (a_number n) stream = let (v, rest) = read n stream in (got_number n v, rest)
read_property a_text stream = let (str, rest) = read_string stream in (got_text str, rest)

abbrev pub got_more : Option Property → Option (List Property) → Option (List Property)
got_more (some p) (some ps) = some (p ∷ ps)
got_more (some p) none = none
got_more none ps = none

unfoldable pub read_properties : List Shape → List ℕ → Option (List Property) × List ℕ
read_properties [] stream = (some [], stream)
read_properties (s ∷ shapes) stream =
    let (p, rest) = read_property s stream in
    let (ps, end) = read_properties shapes rest in (got_more p ps, end)

-- Writing appends the bytes of a property.
unfoldable bytes_of : Property → List ℕ
bytes_of (number n v) = le_bytes n v
bytes_of (text str) = le_bytes 2 (length str) ++ str

write_property-append :
    (p : Property) (buffer : List ℕ) → Fits p → write_property p buffer ≡ buffer ++ bytes_of p
unfolding write_property bytes_of write write_string
write_property-append (number n v) buffer h = refl
write_property-append (text str) buffer h =
    let small : u16 (length str) ≡ length str = omega arith in
    rw (lt→ltb_false 65535 (length str) (omega arith), small)
      (append_assoc buffer (le_bytes 2 (length str)) str)

read_string-append :
    (str rest : List ℕ)
    → length str < 65536
    → read_string ((le_bytes 2 (length str) ++ str) ++ rest) ≡ (some str, rest)
unfolding read_string
read_string-append str rest h =
    ap read_string (append_assoc (le_bytes 2 (length str)) str rest)
    ∙ ap {A = Option ℕ × List ℕ} {B = Option (List ℕ) × List ℕ}
        (λ r. elim r.0 [ none ↦ (none, r.1) | some k ↦ read_text k r.1 ])
        (read-le_bytes 2 (length str) (str ++ rest) (omega arith))
    ∙ read_text-append str rest

read_property-append :
    (p : Property) (rest : List ℕ)
    → Fits p
    → read_property (shape p) (bytes_of p ++ rest) ≡ (some p, rest)
unfolding read_property bytes_of
read_property-append (number n v) rest h = rw (read-le_bytes n v rest h)
read_property-append (text str) rest h =
    ap {A = Option (List ℕ) × List ℕ} (λ r. (got_text r.0, r.1)) (read_string-append str rest h)

unfoldable bytes_of_all : List Property → List ℕ
bytes_of_all [] = []
bytes_of_all (p ∷ ps) = bytes_of p ++ bytes_of_all ps

write_properties-append :
    (ps : List Property) (buffer : List ℕ)
    → All Fits ps
    → write_properties ps buffer ≡ buffer ++ bytes_of_all ps
unfolding write_properties bytes_of_all
write_properties-append [] buffer h = sym (append-nil buffer)
write_properties-append (p ∷ ps) buffer h =
    write_properties-append ps (write_property p buffer) h.1
    ∙ ap (λ b. b ++ bytes_of_all ps) (write_property-append p buffer h.0)
    ∙ append_assoc buffer (bytes_of p) (bytes_of_all ps)

read_properties-append :
    (ps : List Property) (rest : List ℕ)
    → All Fits ps
    → read_properties (map shape ps) (bytes_of_all ps ++ rest) ≡ (some ps, rest)
unfolding read_properties bytes_of_all
read_properties-append [] rest h = refl
read_properties-append (p ∷ ps) rest h =
    let first =
      ap (λ l. read_property (shape p) l) (append_assoc (bytes_of p) (bytes_of_all ps) rest)
      ∙ read_property-append p (bytes_of_all ps ++ rest) h.0 in
    ap {A = Option Property × List ℕ} {B = Option (List Property) × List ℕ}
      (λ r. (
        got_more r.0 (read_properties (map shape ps) r.1).0,
        (read_properties (map shape ps) r.1).1,
      ))
      first
    ∙ ap {A = Option (List Property) × List ℕ} {B = Option (List Property) × List ℕ}
        (λ r. (got_more (some p) r.0, r.1)) (read_properties-append ps rest h.1)

-- Properties that fit, with texts of less than 65536 bytes, are read from a stream as they were
-- written to it, whatever stands behind them, which stays in the stream.
pub read_properties-write_properties :
    (ps : List Property) (rest : List ℕ)
    → All Fits ps
    → read_properties (map shape ps) (write_properties ps [] ++ rest) ≡ (some ps, rest)
read_properties-write_properties ps rest h =
    ap (λ l. read_properties (map shape ps) (l ++ rest)) (write_properties-append ps [] h)
    ∙ read_properties-append ps rest h

-- A text of more than 65535 bytes is written as the empty one.
pub read_string-write_string_long :
    (str rest : List ℕ)
    → 65535 < length str
    → read_string (write_string str [] ++ rest) ≡ (some [], rest)
unfolding write_string write le_bytes
read_string-write_string_long str rest h =
    rw (lt→ltb 65535 (length str) h) (read_string-append [] rest (omega arith))
