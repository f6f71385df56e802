-- ===== src/Player/Examples.antt =====
-- The theorems on levels and skills at concrete inputs.
use otxlinux.Prelude.{
  ℕ, ◌+◌, ◌-◌, ◌*◌, ◌^◌, ◌≤◌, ◌<◌, ◌≡◌, refl, ◌⊎◌, true, false, arith, if◌then◌else◌, ltb,
}
use otxlinux.Player.Levels.{
  Player, Vocation, exp_for_level, threshold, gain_level, gain_levels, refill, set_percent,
  add_experience, remove_experience,
}
use otxlinux.Player.Levels.Table.{total, exp_for_level-total}
use otxlinux.Player.Levels.Advance.{IsAt, add_experience-IsAt}
use otxlinux.Player.Levels.Loss.{remove_experience-IsAt, remove_experience_wraps}
use otxlinux.Player.Skills.{Skill, Magic, add_skill_advance, add_mana_spent}
use otxlinux.Player.Skills.Practice.{IsLast, Practised, add_skill_advance_lem}
use otxlinux.Player.Skills.Mana.{add_mana_spent_lem}

abbrev knight : Vocation
knight = record { gain_hp = 15; gain_mana = 5; gain_cap = 2500 }

abbrev hero : Player
hero = record {
  level = 8;
  experience = 4300;
  level_percent = 4;
  health = 100;
  health_max = 185;
  mana = 20;
  mana_max = 90;
  capacity = 47000;
}

hero-IsAt : IsAt hero
unfolding exp_for_level threshold
hero-IsAt = (omega arith, omega arith, omega arith, omega arith)

exp_for_level-total_example : exp_for_level 101 ≡ total 100
exp_for_level-total_example = exp_for_level-total 100 (omega arith)

hero_may_gain : 4300 + 50000 < exp_for_level 600001
unfolding exp_for_level threshold
hero_may_gain = omega arith

add_experience-IsAt_example :
    IsAt (add_experience knight 50000 hero)
    × ((add_experience knight 50000 hero).experience ≡ hero.experience + 50000)
add_experience-IsAt_example = add_experience-IsAt knight 50000 hero hero-IsAt hero_may_gain

remove_experience-IsAt_example :
    IsAt (remove_experience knight 3000 hero)
    × ((remove_experience knight 3000 hero).experience ≡ hero.experience - 3000)
remove_experience-IsAt_example = remove_experience-IsAt knight 3000 hero hero-IsAt (omega arith)

-- The amount that -1 is as a `uint64_t`.
remove_experience_wraps_example :
    ((remove_experience knight (2 ^ 64 - 1) hero).experience ≡ hero.experience + 1)
    × ((remove_experience knight (2 ^ 64 - 1) hero).level ≡ hero.level)
remove_experience_wraps_example =
    remove_experience_wraps knight (2 ^ 64 - 1) hero hero-IsAt (omega arith) (omega arith)
      (omega arith)

-- Two rounds of the loop, run.
hero_level : (add_experience knight 7000 hero).level ≡ 10
unfolding add_experience gain_levels gain_level set_percent refill exp_for_level threshold
hero_level = refl

-- A table that rises by ten tries a level up to level 20.
abbrev tens : ℕ → ℕ
tens l = if ltb l 20 then 10 * l else 200

abbrev sword : Skill
sword = record { tries = 30; level = 12; percent = 23 }

add_skill_advance_lem_example :
    let r = add_skill_advance tens 500 sword in
    (r.level ≤ 20)
    × ((IsLast tens r.level × (r.tries ≡ 0))
        ⊎ Practised tens sword.level (sword.tries + 500) r.level r.tries)
add_skill_advance_lem_example =
    add_skill_advance_lem tens 20 (omega arith) (omega arith) 500 sword (omega arith) (omega arith)
      (omega arith) (omega arith)

abbrev druid : Magic
druid = record { mag_level = 5; mana_spent = 12; mag_level_percent = 20 }

add_mana_spent_lem_example :
    let r = add_mana_spent tens false 100 druid in
    (add_mana_spent tens true 100 druid ≡ druid)
    × ((r.mag_level ≤ 20)
        × ((IsLast tens r.mag_level × (r.mana_spent ≡ 0))
            ⊎ Practised tens druid.mag_level (druid.mana_spent + 100) r.mag_level r.mana_spent))
add_mana_spent_lem_example =
    add_mana_spent_lem tens 20 (omega arith) (omega arith) 100 druid (omega arith) (omega arith)
      (omega arith) (omega arith)
