-- ===== src/Player/Levels/Table.antt =====
-- src/player.h, Player::getExpForLevel: the table of levels as a sum of the costs of the levels.
use mathlib.Core.Path.{subst}
use otxlinux.Prelude.{
  ℕ, zero, suc, ◌+◌, ◌-◌, ◌*◌, ◌/◌, ◌^◌, ◌<◌, ◌≤◌, ◌≡◌, ◌⊎◌, inl, inr, u64, refl, ap, ◌∙◌, arith,
}
use otxlinux.Player.Levels.{exp_for_level, threshold}

-- What the level above the first `x` levels costs.
unfoldable pub cost : ℕ → ℕ
cost zero = 100
cost (suc x) = 50 * (x * x) + 50 * x + 100

unfoldable pub total : ℕ → ℕ
total zero = 0
total (suc x) = total x + cost x

-- The cubes of neighbours, multiplied out.
cubic_step :
    (x : ℕ)
    → 50 * (x + 2) * (x + 2) * (x + 2) + 400 * (x + 2) + 150 * (x + 1) * (x + 1)
      ≡ 50 * (x + 1) * (x + 1) * (x + 1)
        + 400 * (x + 1)
        + 150 * (x + 2) * (x + 2)
        + 3 * (50 * (x * x) + 50 * x + 100)
cubic_step x = omega arith

next_cubic :
    (x t : ℕ)
    → 3 * t + 150 * (x + 1) * (x + 1) ≡ 50 * (x + 1) * (x + 1) * (x + 1) + 400 * (x + 1)
    → 3 * (t + (50 * (x * x) + 50 * x + 100)) + 150 * (x + 2) * (x + 2)
      ≡ 50 * (x + 2) * (x + 2) * (x + 2) + 400 * (x + 2)
next_cubic x t h = omega (arith, h, cubic_step x)

total-cubic : (x : ℕ) → 3 * total x + 150 * x * x ≡ 50 * x * x * x + 400 * x
unfolding total cost
total-cubic zero = omega arith
total-cubic (suc zero) = omega arith
total-cubic (suc (suc x)) =
    let one : suc x ≡ x + 1 = omega arith in
    let two : x + 2 ≡ suc (suc x) = omega arith in
    let before =
      subst (λ z. 3 * total (suc x) + 150 * z * z ≡ 50 * z * z * z + 400 * z) one
        (total-cubic (suc x)) in
    subst (λ z. 3 * total (suc (suc x)) + 150 * z * z ≡ 50 * z * z * z + 400 * z) two
      (next_cubic x (total (suc x)) before)

-- The levels for which no intermediate result leaves 64 bits.
abbrev pub max_level : ℕ
max_level = 700000

cube_bound : (x : ℕ) → x < max_level → 50 * x * x * x + 400 * x < 2 ^ 64
cube_bound x h = grind arith

-- The subtraction by wrap-around comes out.
wrapped :
    (a b c t : ℕ) → 3 * t + b ≡ a + c → a + c < 2 ^ 64 → u64 (a + (2 ^ 64 - u64 b) + c) / 3 ≡ t
wrapped a b c t h k = omega arith

square_bound : (x : ℕ) → x < max_level → 150 * x * x < 2 ^ 64
square_bound x h = grind arith

-- Below 700000 levels the closed form of the source, with its wrap-around, is the sum of the costs
-- of the levels.
pub exp_for_level-total : (x : ℕ) → x < max_level → exp_for_level (suc x) ≡ total x
unfolding exp_for_level threshold
exp_for_level-total x h =
    ap threshold (ground arith)
    ∙ wrapped (50 * x * x * x) (150 * x * x) (400 * x) (total x) (total-cubic x) (cube_bound x h)

pub total-u64 : (x : ℕ) → x < max_level → total x < 2 ^ 64
total-u64 x h = omega (arith, total-cubic x, cube_bound x h, square_bound x h)

pub total-zero : total zero ≡ 0
unfolding total
total-zero = refl

-- Every level costs at least a hundred points.
pub total-increasing : (x : ℕ) → total x + 100 ≤ total (suc x)
unfolding total cost
total-increasing zero = omega arith
total-increasing (suc x) = omega arith

pub total-hundred : (x : ℕ) → 100 * x ≤ total x
unfolding total
total-hundred zero = omega arith
total-hundred (suc x) = omega (arith, total-hundred x, total-increasing x)

below_or_last : (x y : ℕ) → x ≤ suc y → (x ≤ y) ⊎ (x ≡ suc y)
below_or_last x y h = ground arith

nothing_below : (x : ℕ) → x ≤ 0 → total x ≤ total 0
nothing_below x h = let e : x ≡ 0 = omega arith in omega (arith, ap total e)

pub total-monotone : (x y : ℕ) → x ≤ y → total x ≤ total y
total-monotone x zero h = nothing_below x h
total-monotone x (suc y) h = elim (below_or_last x y h) [
  | inl k ↦ omega (arith, total-monotone x y k, total-increasing y)
  | inr e ↦ omega (arith, ap total e)
]

-- Less than the total of `m` levels is enough for less than `m` levels only.
pub total-reflects : (x m e : ℕ) → total x ≤ e → e < total m → x < m
total-reflects x m e h k = elim (below_or_above x m) [
  | inl l ↦ l
  | inr l ↦ absurd (omega (arith, total-monotone m x l))
]
  where
    below_or_above : (x m : ℕ) → (x < m) ⊎ (m ≤ x)
    below_or_above x m = ground arith

-- They are positive as an `int64_t`.
pub total-i64 : (x : ℕ) → x < max_level → total x < 2 ^ 63
total-i64 x h = omega (arith, total-cubic x, cube_bound x h, square_bound x h)
