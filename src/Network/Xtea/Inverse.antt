-- ===== src/Network/Xtea/Inverse.antt =====
-- src/protocol.cpp: XTEA_decrypt undoes XTEA_encrypt, round by round and block by block.
use otxlinux.Prelude.{
  ℕ, zero, suc, ◌^◌, ◌<◌, ◌≡◌, refl, ap, sym, ◌∙◌, List, [], ◌∷◌, ◌++◌, arith, add_u32, sub_u32,
  le_bytes, le_value, length, All, sub_u32-add_u32, add_u32-sub_u32, add_u32-lt, sub_u32-lt,
  le_value-le_bytes, le_bytes-le_value,
}
use mathlib.Core.Path.{ap₂}
use otxlinux.Network.Xtea.{
  Key, Block, delta, final_sum, low_term, high_term, encrypt_round, decrypt_round, encrypt_rounds,
  decrypt_rounds, block_bytes, load_block, encrypt_blocks, decrypt_blocks,
}

-- The three variables are `uint32_t`.
pub record IsWords (b : Block) : Type 0 where
  pub v0_fits : b.v0 < 2 ^ 32
  pub v1_fits : b.v1 < 2 ^ 32
  pub sum_fits : b.sum < 2 ^ 32

pub encrypt_round-IsWords : (k : Key) (b : Block) → IsWords (encrypt_round k b)
unfolding encrypt_round
encrypt_round-IsWords k b = record {
  v0_fits = add_u32-lt _ _;
  v1_fits = add_u32-lt _ _;
  sum_fits = sub_u32-lt _ _;
}

pub encrypt_rounds-IsWords :
    (n : ℕ) (k : Key) (b : Block) → IsWords b → IsWords (encrypt_rounds n k b)
unfolding encrypt_rounds
encrypt_rounds-IsWords zero k b h = h
encrypt_rounds-IsWords (suc n) k b h = encrypt_rounds-IsWords n k _ (encrypt_round-IsWords k b)

pub decrypt_round-encrypt_round :
    (k : Key) (b : Block) → IsWords b → decrypt_round k (encrypt_round k b) ≡ b
unfolding encrypt_round decrypt_round
decrypt_round-encrypt_round k b h = rw (
  sub_u32-add_u32 b.v1 (high_term k (sub_u32 b.sum delta) (add_u32 b.v0 (low_term k b.sum b.v1)))
      h.v1_fits,
  add_u32-sub_u32 b.sum delta h.sum_fits,
  sub_u32-add_u32 b.v0 (low_term k b.sum b.v1) h.v0_fits,
)

decrypt_rounds-suc :
    (n : ℕ) (k : Key) (b : Block)
    → decrypt_rounds (suc n) k b ≡ decrypt_round k (decrypt_rounds n k b)
unfolding decrypt_rounds
decrypt_rounds-suc zero k b = refl
decrypt_rounds-suc (suc n) k b = decrypt_rounds-suc n k (decrypt_round k b)

-- Any number of rounds is undone by as many decryption rounds, whatever the key.
pub decrypt_rounds-encrypt_rounds :
    (n : ℕ) (k : Key) (b : Block) → IsWords b → decrypt_rounds n k (encrypt_rounds n k b) ≡ b
unfolding encrypt_rounds
decrypt_rounds-encrypt_rounds zero k b h = unfold decrypt_rounds in refl
decrypt_rounds-encrypt_rounds (suc n) k b h =
    decrypt_rounds-suc n k _
    ∙ ap (decrypt_round k) (decrypt_rounds-encrypt_rounds n k _ (encrypt_round-IsWords k b))
    ∙ decrypt_round-encrypt_round k b h

sum_after : ℕ → ℕ → ℕ
sum_after zero s = s
sum_after (suc n) s = sum_after n (sub_u32 s delta)

encrypt_rounds-sum : (n : ℕ) (k : Key) (b : Block) → (encrypt_rounds n k b).sum ≡ sum_after n b.sum
unfolding encrypt_rounds sum_after encrypt_round
encrypt_rounds-sum zero k b = refl
encrypt_rounds-sum (suc n) k b = encrypt_rounds-sum n k (encrypt_round k b)

sum_after_32 : sum_after 32 0 ≡ final_sum
unfolding sum_after sub_u32
sum_after_32 = refl

load_block-IsWords :
    (s : ℕ) (low high : List ℕ)
    → s < 2 ^ 32
    → le_value low < 2 ^ 32
    → le_value high < 2 ^ 32
    → IsWords (load_block s low high)
unfolding load_block
load_block-IsWords s low high hs hl hh = record { v0_fits = hl; v1_fits = hh; sum_fits = hs }

le_value_word :
    (a b c d : ℕ)
    → (a < 256) × (b < 256) × (c < 256) × (d < 256)
    → le_value (a ∷ b ∷ c ∷ d ∷ []) < 2 ^ 32
unfolding le_value
le_value_word a b c d h = omega arith

-- Decryption reads the words that encryption stored, under the sum that it ended with.
load_block-block_bytes :
    (b : Block)
    → IsWords b
    → b.sum ≡ final_sum
    → load_block final_sum (le_bytes 4 b.v0) (le_bytes 4 b.v1) ≡ b
unfolding load_block
load_block-block_bytes b h e =
    rw (le_value-le_bytes 4 b.v0 h.v0_fits, le_value-le_bytes 4 b.v1 h.v1_fits, ← e)

decrypt_block :
    (k : Key) (low high : List ℕ)
    → length low ≡ 4
    → length high ≡ 4
    → All (λ b. b < 256) low
    → All (λ b. b < 256) high
    → IsWords (load_block 0 low high)
    → let c = encrypt_rounds 32 k (load_block 0 low high) in
      block_bytes (decrypt_rounds 32 k (load_block final_sum (le_bytes 4 c.v0) (le_bytes 4 c.v1)))
      ≡ low ++ high
decrypt_block k low high el eh al ah w =
    let c = encrypt_rounds 32 k (load_block 0 low high) in
    rw
      (
        load_block-block_bytes c (encrypt_rounds-IsWords 32 k _ w)
            (encrypt_rounds-sum 32 k (load_block 0 low high) ∙ unfold load_block in sum_after_32),
        decrypt_rounds-encrypt_rounds 32 k (load_block 0 low high) w,
      )
      (unfold block_bytes load_block in
        ap₂ ◌++◌ (ap (λ n. le_bytes n (le_value low)) (sym el) ∙ le_bytes-le_value low al)
          (ap (λ n. le_bytes n (le_value high)) (sym eh) ∙ le_bytes-le_value high ah))

decrypt_blocks-block_bytes :
    (k : Key) (n : ℕ) (b : Block) (rest : List ℕ)
    → decrypt_blocks k (suc n) (block_bytes b ++ rest)
      ≡ block_bytes (decrypt_rounds 32 k (load_block final_sum (le_bytes 4 b.v0) (le_bytes 4 b.v1)))
        ++ decrypt_blocks k n rest
unfolding decrypt_blocks block_bytes le_bytes
decrypt_blocks-block_bytes k n b rest = refl

-- Decrypting any number of blocks of a buffer of bytes gives back what was encrypted.
pub decrypt_blocks-encrypt_blocks :
    (k : Key) (n : ℕ) (buffer : List ℕ)
    → All (λ b. b < 256) buffer
    → decrypt_blocks k n (encrypt_blocks k n buffer) ≡ buffer
unfolding encrypt_blocks
decrypt_blocks-encrypt_blocks k (suc n) (a ∷ b ∷ c ∷ d ∷ e ∷ f ∷ g ∷ h ∷ rest) bytes =
    let low : List ℕ = a ∷ b ∷ c ∷ d ∷ [] in
    let high : List ℕ = e ∷ f ∷ g ∷ h ∷ [] in
    let words =
      load_block-IsWords 0 low high (omega arith) (le_value_word a b c d (omega arith))
        (le_value_word e f g h (omega arith)) in
    decrypt_blocks-block_bytes k n _ (encrypt_blocks k n rest)
    ∙ ap₂ ◌++◌ (decrypt_block k low high refl refl (omega arith) (omega arith) words)
        (decrypt_blocks-encrypt_blocks k n rest bytes.1.1.1.1.1.1.1.1)
decrypt_blocks-encrypt_blocks k zero buffer bytes = unfold decrypt_blocks in refl
decrypt_blocks-encrypt_blocks k n buffer bytes = unfold decrypt_blocks in refl
