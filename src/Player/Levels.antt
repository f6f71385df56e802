-- ===== src/Player/Levels.antt =====
-- src/player.h, Player::getExpForLevel, and src/player.cpp, addExperience, removeExperience and
-- getPercentLevel: the part of a player that experience changes. Words keep their wrap-around; the
-- messages to the client and the scripts are left out, and what the script makes of an amount is an
-- argument.
pub mod Table
pub mod Advance
pub mod Loss
use otxlinux.Prelude.{
  ℕ, zero, suc, ◌+◌, ◌-◌, ◌*◌, ◌/◌, ◌%◌, ◌^◌, Bool, true, false, ltb, leb, ◌==◌, if◌then◌else◌, u8,
  u32, u64,
}

-- The gains of a level in the vocation of the player.
pub record Vocation : Type 0 where
  pub gain_hp : ℕ
  pub gain_mana : ℕ
  pub gain_cap : ℕ

pub record Player : Type 0 where
  pub level : ℕ
  pub experience : ℕ
  pub level_percent : ℕ
  pub health : ℕ
  pub health_max : ℕ
  pub mana : ℕ
  pub mana_max : ℕ
  pub capacity : ℕ

-- The polynomial in 64 bits.
unfoldable pub threshold : ℕ → ℕ
threshold x = u64 (50 * x * x * x + (2 ^ 64 - u64 (150 * x * x)) + 400 * x) / 3

-- `lv` is decremented as a `uint64_t`.
unfoldable pub exp_for_level : ℕ → ℕ
exp_for_level lv = threshold (if lv == 0 then 2 ^ 64 - 1 else lv - 1)

unfoldable pub percent_level : ℕ → ℕ → ℕ
percent_level count next_level_count =
    let result = u8 (u64 (count * 100) / next_level_count) in
    if next_level_count == 0 then 0 else if ltb 100 result then 0 else result

-- The body of the loop of `addExperience`.
unfoldable pub gain_level : Vocation → Player → Player
gain_level v p = record p {
  level = u32 (p.level + 1);
  health_max = p.health_max + v.gain_hp;
  health = p.health + v.gain_hp;
  mana_max = u32 (p.mana_max + v.gain_mana);
  mana = u32 (p.mana + v.gain_mana);
  capacity = u32 (p.capacity + v.gain_cap);
}

-- The loop `while (experience >= nextLevelExp)`, with the two thresholds that it ends with.
unfoldable pub gain_levels : ℕ → Vocation → ℕ → ℕ → Player → Player × ℕ × ℕ
gain_levels zero v curr next p = (p, curr, next)
gain_levels (suc fuel) v curr next p =
    let p' = gain_level v p in
    let next' = exp_for_level (u32 (p'.level + 1)) in
    let rest = gain_levels fuel v next next' p' in
    if leb next p.experience
    then if leb next' next then (p', next, next') else rest
    else (p, curr, next)

-- A bound on the rounds of the loop: each level costs at least a hundred points.
abbrev pub level_fuel : ℕ → ℕ
level_fuel experience = experience / 100 + 2

-- Both functions fill the player up when the level has changed.
unfoldable pub refill : ℕ → Player → Player
refill old_level p =
    if p.level == old_level then p else record p { health = p.health_max; mana = p.mana_max }

unfoldable pub set_percent : ℕ → ℕ → Player → Player
set_percent curr next p = record p {
  level_percent = if ltb curr next then percent_level (p.experience - curr) (next - curr) else 0;
}

unfoldable pub add_experience : Vocation → ℕ → Player → Player
add_experience v exp p =
    let curr = exp_for_level p.level in
    let next = exp_for_level (u32 (p.level + 1)) in
    let gained = record p { experience = u64 (p.experience + exp) } in
    let (q, curr', next') = gain_levels (level_fuel gained.experience) v curr next gained in
    if leb next curr
    then record p { level_percent = 0 }
    else if exp == 0
    then p
    else set_percent curr' next' (refill p.level q)

-- `std::max<int32_t>(0, a - b)`, in 32 bits.
unfoldable pub monus : ℕ → ℕ → ℕ
monus a b = let left = u32 (a + (2 ^ 32 - u32 b)) in if leb (2 ^ 31) left then 0 else left

unfoldable pub lose_level : Vocation → ℕ → Player → Player
lose_level v level p = record p {
  level = level;
  health_max = monus p.health_max v.gain_hp;
  mana_max = monus p.mana_max v.gain_mana;
  capacity = monus p.capacity v.gain_cap;
}

-- The loop of `removeExperience`, by recursion on the level.
unfoldable pub lose_levels : Vocation → ℕ → Player → Player
lose_levels v zero p = p
lose_levels v (suc zero) p = p
lose_levels v (suc (suc l)) p =
    let rest = lose_levels v (suc l) (lose_level v (suc l) p) in
    if ltb p.experience (exp_for_level (suc (suc l))) then rest else p

-- `std::max<int64_t>(0, experience - exp)`, in 64 bits: a difference is negative from 2 ^ 63 on.
unfoldable pub experience_left : ℕ → ℕ → ℕ
experience_left experience exp =
    let left = u64 (experience + (2 ^ 64 - u64 exp)) in if leb (2 ^ 63) left then 0 else left

unfoldable pub remove_experience : Vocation → ℕ → Player → Player
remove_experience v exp p =
    let q = lose_levels v p.level (record p { experience = experience_left p.experience exp }) in
    let curr = exp_for_level q.level in
    let next = exp_for_level (u32 (q.level + 1)) in
    if p.experience == 0
    then p
    else if exp == 0
    then p
    else set_percent curr next (refill p.level q)
