-- ===== src/Network/Xtea.antt =====
-- src/protocol.cpp, Protocol::XTEA_encrypt and Protocol::XTEA_decrypt: the rounds on a pair of
-- 32-bit words and the loop over the blocks of eight bytes.
pub mod Inverse
use otxlinux.Prelude.{
  ℕ, zero, suc, ◌+◌, ◌*◌, ◌/◌, ◌^◌, ◌%◌, ◌<◌, bit_and, bit_xor, ◌≡◌, refl, List, [], ◌∷◌, ◌++◌,
  arith, u32, add_u32, sub_u32, le_bytes, le_value,
}

-- The four words of the session key.
pub record Key : Type 0 where
  pub key0 : ℕ
  pub key1 : ℕ
  pub key2 : ℕ
  pub key3 : ℕ

-- `k[i]` for an `i` that was masked by 3.
unfoldable pub key_word : Key → ℕ → ℕ
key_word k zero = k.key0
key_word k (suc zero) = k.key1
key_word k (suc (suc zero)) = k.key2
key_word k (suc (suc (suc i))) = k.key3

abbrev pub delta : ℕ
delta = 0x61C88647

-- `sum` before the first round of the decryption.
abbrev pub final_sum : ℕ
final_sum = 0xC6EF3720

-- `((v << 4 ^ v >> 5) + v)` on `uint32_t`.
unfoldable pub spread : ℕ → ℕ
spread v = add_u32 (bit_xor (u32 (v * 2 ^ 4)) (v / 2 ^ 5)) v

-- The term of the first half of a round, `spread v ^ (sum + k[sum & 3])`.
unfoldable pub low_term : Key → ℕ → ℕ → ℕ
low_term k sum v = bit_xor (spread v) (add_u32 sum (key_word k (bit_and sum 3)))

-- The term of the second half, `spread v ^ (sum + k[(sum >> 11) & 3])`.
unfoldable pub high_term : Key → ℕ → ℕ → ℕ
high_term k sum v = bit_xor (spread v) (add_u32 sum (key_word k (bit_and (sum / 2 ^ 11) 3)))

-- The variables of the round loops.
pub record Block : Type 0 where
  pub v0 : ℕ
  pub v1 : ℕ
  pub sum : ℕ

unfoldable pub encrypt_round : Key → Block → Block
encrypt_round k b =
    let w0 = add_u32 b.v0 (low_term k b.sum b.v1) in
    let next_sum = sub_u32 b.sum delta in
    record { v0 = w0; v1 = add_u32 b.v1 (high_term k next_sum w0); sum = next_sum }

unfoldable pub decrypt_round : Key → Block → Block
decrypt_round k b =
    let w1 = sub_u32 b.v1 (high_term k b.sum b.v0) in
    let next_sum = add_u32 b.sum delta in
    record { v0 = sub_u32 b.v0 (low_term k next_sum w1); v1 = w1; sum = next_sum }

-- `for (int32_t i = n; --i >= 0;)` runs its body `n` times.
unfoldable pub encrypt_rounds : ℕ → Key → Block → Block
encrypt_rounds zero k b = b
encrypt_rounds (suc n) k b = encrypt_rounds n k (encrypt_round k b)

unfoldable pub decrypt_rounds : ℕ → Key → Block → Block
decrypt_rounds zero k b = b
decrypt_rounds (suc n) k b = decrypt_rounds n k (decrypt_round k b)

-- The eight bytes of a block after the rounds.
unfoldable pub block_bytes : Block → List ℕ
block_bytes b = le_bytes 4 b.v0 ++ le_bytes 4 b.v1

unfoldable pub load_block : ℕ → List ℕ → List ℕ → Block
load_block sum low high = record { v0 = le_value low; v1 = le_value high; sum = sum }

-- The two loops `while (readPos < messageLength)`, from the block at `readPos`, with the number of
-- blocks that are left. A block that reaches past the memory of the buffer stays as it is.
unfoldable pub encrypt_blocks : Key → ℕ → List ℕ → List ℕ
encrypt_blocks k (suc n) (a ∷ b ∷ c ∷ d ∷ e ∷ f ∷ g ∷ h ∷ rest) =
    block_bytes (encrypt_rounds 32 k (load_block 0 (a ∷ b ∷ c ∷ d ∷ []) (e ∷ f ∷ g ∷ h ∷ [])))
    ++ encrypt_blocks k n rest
encrypt_blocks k n buffer = buffer

unfoldable pub decrypt_blocks : Key → ℕ → List ℕ → List ℕ
decrypt_blocks k (suc n) (a ∷ b ∷ c ∷ d ∷ e ∷ f ∷ g ∷ h ∷ rest) =
    block_bytes
      (decrypt_rounds 32 k (load_block final_sum (a ∷ b ∷ c ∷ d ∷ []) (e ∷ f ∷ g ∷ h ∷ [])))
    ++ decrypt_blocks k n rest
decrypt_blocks k n buffer = buffer
