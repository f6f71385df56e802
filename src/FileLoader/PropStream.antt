-- ===== src/FileLoader/PropStream.antt =====
-- src/fileloader.h, PropStream and PropWriteStream: the reading and writing of properties. The range
-- between `p` and `end` is the list of the bytes in it.
pub mod RoundTrip
use otxlinux.Prelude.{
  ℕ, zero, suc, ◌+◌, ◌^◌, ◌*◌, ◌≡◌, ◌≤◌, ◌<◌, refl, ap, sym, ◌∙◌, Bool, true, false, List, [], ◌∷◌,
  ◌++◌, Option, none, some, ltb, leb, ◌==◌, if◌then◌else◌, u16, le_bytes, le_value, length, take,
  drop, arith, take-append, drop-append, lt→ltb, lt→ltb_false,
}

-- An unsigned integer of `n` bytes. `none` is the value `false`, with the stream as it was.
unfoldable pub read : ℕ → List ℕ → Option ℕ × List ℕ
read n stream =
    if ltb (length stream) n
    then (none, stream)
    else (some (le_value (take n stream)), drop n stream)

unfoldable pub read_text : ℕ → List ℕ → Option (List ℕ) × List ℕ
read_text n stream =
    if ltb (length stream) n then (none, stream) else (some (take n stream), drop n stream)

-- A length that does not fit leaves the stream behind the length.
unfoldable pub read_string : List ℕ → Option (List ℕ) × List ℕ
read_string stream =
    let (n, stream') = read 2 stream in
    elim n [ none ↦ (none, stream') | some k ↦ read_text k stream' ]

unfoldable pub skip : ℕ → List ℕ → Bool × List ℕ
skip n stream = if ltb (length stream) n then (false, stream) else (true, drop n stream)

unfoldable pub write : ℕ → ℕ → List ℕ → List ℕ
write n value buffer = buffer ++ le_bytes n value

unfoldable pub write_string : List ℕ → List ℕ → List ℕ
write_string str buffer =
    if ltb 65535 (length str) then write 2 0 buffer else write 2 (u16 (length str)) buffer ++ str
