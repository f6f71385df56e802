-- ===== src/Prelude/Words.antt =====
-- Unsigned machine words as native numbers, and their bytes in memory order (little endian, as
-- the servers that the program is built for).
use Prim.Native.Nat.{ℕ, zero, suc, ◌+◌, ◌-◌, ◌*◌, ◌/◌, ◌%◌, ◌^◌, ◌<◌}
use mathlib.Core.Path.{◌≡◌, refl, ap}
use mathlib.Core.List.{List, [], ◌∷◌}
use native.Mathlib.Omega.{arith}
use native.Mathlib.Nat.{pow-suc}
use otxlinux.Prelude.Lists.{length, All}

abbrev pub u8 : ℕ → ℕ
u8 n = n % 2 ^ 8

abbrev pub u16 : ℕ → ℕ
u16 n = n % 2 ^ 16

abbrev pub u32 : ℕ → ℕ
u32 n = n % 2 ^ 32

abbrev pub u64 : ℕ → ℕ
u64 n = n % 2 ^ 64

-- `a + b` and `a - b` on `uint32_t`.
unfoldable pub add_u32 : ℕ → ℕ → ℕ
add_u32 a b = (a + b) % 2 ^ 32

unfoldable pub sub_u32 : ℕ → ℕ → ℕ
sub_u32 a b = (a + (2 ^ 32 - b % 2 ^ 32)) % 2 ^ 32

pub sub_u32-add_u32 : (a b : ℕ) → a < 2 ^ 32 → sub_u32 (add_u32 a b) b ≡ a
unfolding add_u32 sub_u32
sub_u32-add_u32 a b h = omega arith

pub add_u32-sub_u32 : (a b : ℕ) → a < 2 ^ 32 → add_u32 (sub_u32 a b) b ≡ a
unfolding add_u32 sub_u32
add_u32-sub_u32 a b h = omega arith

pub add_u32-lt : (a b : ℕ) → add_u32 a b < 2 ^ 32
unfolding add_u32
add_u32-lt a b = omega arith

pub sub_u32-lt : (a b : ℕ) → sub_u32 a b < 2 ^ 32
unfolding sub_u32
sub_u32-lt a b = omega arith

-- What `memcpy` puts into memory for an unsigned integer of `n` bytes, and what it reads back.
unfoldable pub le_bytes : ℕ → ℕ → List ℕ
le_bytes zero v = []
le_bytes (suc n) v = v % 256 ∷ le_bytes n (v / 256)

unfoldable pub le_value : List ℕ → ℕ
le_value [] = 0
le_value (b ∷ bs) = b + 256 * le_value bs

pub length-le_bytes : (n v : ℕ) → length (le_bytes n v) ≡ n
unfolding le_bytes
length-le_bytes zero v = refl
length-le_bytes (suc n) v = ap suc (length-le_bytes n (v / 256))

pub le_value-le_bytes : (n v : ℕ) → v < 256 ^ n → le_value (le_bytes n v) ≡ v
unfolding le_bytes le_value
le_value-le_bytes zero v h = omega arith
le_value-le_bytes (suc n) v h =
    omega (arith, le_value-le_bytes n (v / 256) (omega (arith, pow-suc 256 n)))

pub le_bytes-le_value :
    (bs : List ℕ) → All (λ b. b < 256) bs → le_bytes (length bs) (le_value bs) ≡ bs
unfolding le_bytes le_value
le_bytes-le_value [] h = refl
le_bytes-le_value (b ∷ bs) h =
    let low : (b + 256 * le_value bs) % 256 ≡ b = omega (arith, h.0) in
    let high : (b + 256 * le_value bs) / 256 ≡ le_value bs = omega (arith, h.0) in
    rw (low, high, le_bytes-le_value bs h.1)

pub le_bytes-bytes : (n v : ℕ) → All (λ b. b < 256) (le_bytes n v)
unfolding le_bytes
le_bytes-bytes zero v = tt
le_bytes-bytes (suc n) v = (omega arith, le_bytes-bytes n (v / 256))
