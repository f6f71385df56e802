-- ===== src/FileLoader/Escapes.antt =====
-- src/fileloader.cpp, getProps: the escapes of the format.
use otxlinux.Prelude.{
  ℕ, ◌≡◌, refl, inl, inr, false, Bool-cases, List, [], ◌∷◌, leb, if◌then◌else◌, arith,
}
use otxlinux.FileLoader.{escape_char, unescape}

-- How a writer of the format stores a byte of the properties: the three bytes of NodeChar come behind
-- an escape.
unfoldable pub escape : List ℕ → List ℕ
escape [] = []
escape (byte ∷ bytes) =
    let rest = escape bytes in
    if leb escape_char byte then escape_char ∷ byte ∷ rest else byte ∷ rest

-- Reading takes the escapes away that writing has put in.
pub unescape-escape : (bytes : List ℕ) → unescape false (escape bytes) ≡ bytes
unfolding unescape escape
unescape-escape [] = refl
unescape-escape (byte ∷ bytes) = elim (Bool-cases (leb escape_char byte)) [
  | inl special ↦ rw special (ground (arith, unescape-escape bytes))
  | inr normal ↦ rw normal (ground (arith, unescape-escape bytes))
]
