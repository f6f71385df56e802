-- ===== src/Network/Protocol/Blocks.antt =====
-- src/protocol.cpp: the loops over the blocks change the blocks that they are given and nothing
-- behind them.
use mathlib.Core.List.{append_assoc}
use otxlinux.Prelude.{
  ℕ, zero, suc, ◌*◌, ◌<◌, ◌≡◌, refl, ap, sym, ◌∙◌, List, [], ◌∷◌, ◌++◌, arith, length, All,
  le_bytes, length-append,
}
use otxlinux.Network.Xtea.{
  Key, Block, block_bytes, encrypt_blocks, decrypt_blocks, encrypt_rounds, load_block,
}
use otxlinux.Network.Xtea.Inverse.{decrypt_blocks-encrypt_blocks}

pub encrypt_blocks-append :
    (k : Key) (n : ℕ) (xs ys : List ℕ)
    → length xs ≡ 8 * n
    → encrypt_blocks k n (xs ++ ys) ≡ encrypt_blocks k n xs ++ ys
unfolding encrypt_blocks
encrypt_blocks-append k zero [] ys e = refl
encrypt_blocks-append k zero (a ∷ xs) ys e = absurd (omega arith)
encrypt_blocks-append k (suc n) (a ∷ b ∷ c ∷ d ∷ e ∷ f ∷ g ∷ h ∷ xs) ys size =
    rw (encrypt_blocks-append k n xs ys (omega arith)) (sym (append_assoc (block_bytes _) _ ys))
encrypt_blocks-append k (suc n) xs ys size = absurd (omega arith)

pub decrypt_blocks-append :
    (k : Key) (n : ℕ) (xs ys : List ℕ)
    → length xs ≡ 8 * n
    → decrypt_blocks k n (xs ++ ys) ≡ decrypt_blocks k n xs ++ ys
unfolding decrypt_blocks
decrypt_blocks-append k zero [] ys e = refl
decrypt_blocks-append k zero (a ∷ xs) ys e = absurd (omega arith)
decrypt_blocks-append k (suc n) (a ∷ b ∷ c ∷ d ∷ e ∷ f ∷ g ∷ h ∷ xs) ys size =
    rw (decrypt_blocks-append k n xs ys (omega arith)) (sym (append_assoc (block_bytes _) _ ys))
decrypt_blocks-append k (suc n) xs ys size = absurd (omega arith)

length-block_bytes : (b : Block) → length (block_bytes b) ≡ 8
unfolding block_bytes le_bytes
length-block_bytes b = refl

pub length-encrypt_blocks :
    (k : Key) (n : ℕ) (xs : List ℕ) → length (encrypt_blocks k n xs) ≡ length xs
unfolding encrypt_blocks
length-encrypt_blocks k (suc n) (a ∷ b ∷ c ∷ d ∷ e ∷ f ∷ g ∷ h ∷ xs) =
    let b = encrypt_rounds 32 k (load_block 0 (a ∷ b ∷ c ∷ d ∷ []) (e ∷ f ∷ g ∷ h ∷ [])) in
    omega (
      arith,
      length-append (block_bytes b) (encrypt_blocks k n xs),
      length-block_bytes b,
      length-encrypt_blocks k n xs,
    )
length-encrypt_blocks k n xs = refl

-- What stands behind the decrypted blocks is kept.
pub decrypt_blocks-behind :
    (k : Key) (n : ℕ) (xs ys : List ℕ)
    → length xs ≡ 8 * n
    → All (λ b. b < 256) xs
    → decrypt_blocks k n (encrypt_blocks k n xs ++ ys) ≡ xs ++ ys
decrypt_blocks-behind k n xs ys size bytes =
    decrypt_blocks-append k n (encrypt_blocks k n xs) ys (length-encrypt_blocks k n xs ∙ size)
    ∙ ap (λ t. t ++ ys) (decrypt_blocks-encrypt_blocks k n xs bytes)
