-- ===== src/Player/Skills.antt =====
-- src/player.cpp, addSkillAdvance and addManaSpent: the tries of a skill and the mana of the magic
-- level. `req` is the table of the vocation, getReqSkillTries of one skill or getReqMana, which
-- src/vocation.cpp computes in floating point; what the scripts make of an amount is an argument.
pub mod Practice
pub mod Mana
use otxlinux.Prelude.{
  ℕ, zero, suc, ◌+◌, ◌-◌, ◌*◌, ◌/◌, ◌%◌, ◌^◌, Bool, true, false, ltb, leb, ◌==◌, if◌then◌else◌, u8,
  u16, u32, u64,
}
use otxlinux.Player.Levels.{percent_level}

pub record Skill : Type 0 where
  pub tries : ℕ
  pub level : ℕ
  pub percent : ℕ

-- The state of the loop of `addSkillAdvance`.
pub record Training : Type 0 where
  pub skill : Skill
  pub curr_req_tries : ℕ
  pub next_req_tries : ℕ
  pub count : ℕ

-- The body of the loop; `count` is set to 0 when it breaks.
unfoldable pub advance : (ℕ → ℕ) → Training → Training
advance req t =
    let level = u16 (t.skill.level + 1) in
    let next = req (u16 (level + 1)) in
    record {
      skill = record { tries = 0; level = level; percent = 0 };
      curr_req_tries = t.next_req_tries;
      next_req_tries = next;
      count = if leb next t.next_req_tries then 0 else t.count - (t.next_req_tries - t.skill.tries);
    }

unfoldable pub training_loop : ℕ → (ℕ → ℕ) → Training → Training
training_loop zero req t = t
training_loop (suc fuel) req t =
    let t' = advance req t in
    let rest = training_loop fuel req t' in
    if leb t.next_req_tries (u64 (t.skill.tries + t.count))
    then if leb t'.next_req_tries t'.curr_req_tries then t' else rest
    else t

-- The tries and the percentage after the loop.
unfoldable pub settle_skill : Training → Skill
settle_skill t =
    let tries = u64 (t.skill.tries + t.count) in
    record {
      tries = tries;
      level = t.skill.level;
      percent =
          if ltb t.curr_req_tries t.next_req_tries then percent_level tries t.next_req_tries else 0;
    }

unfoldable pub add_skill_advance : (ℕ → ℕ) → ℕ → Skill → Skill
add_skill_advance req count s =
    let curr = req s.level in
    let next = req (u16 (s.level + 1)) in
    let start : Training = record {
      skill = s;
      curr_req_tries = curr;
      next_req_tries = next;
      count = count;
    } in
    let done = settle_skill (training_loop (count + 1) req start) in
    if leb next curr then s else if count == 0 then s else done

pub record Magic : Type 0 where
  pub mag_level : ℕ
  pub mana_spent : ℕ
  pub mag_level_percent : ℕ

-- The loop of `addManaSpent`, and what follows it: at the highest level the function returns at once.
unfoldable pub mana_loop : ℕ → (ℕ → ℕ) → ℕ → ℕ → ℕ → Magic → Magic
mana_loop zero req curr next amount m = m
mana_loop (suc fuel) req curr next amount m =
    let level = u32 (m.mag_level + 1) in
    let next' = req (u32 (level + 1)) in
    let m' = record m { mag_level = level; mana_spent = 0 } in
    let rest = mana_loop fuel req next next' (amount - (next - m.mana_spent)) m' in
    let spent = u64 (m.mana_spent + amount) in
    if leb next spent then if leb next' next then m' else rest else record m {
      mana_spent = spent;
      mag_level_percent = if ltb curr next then percent_level spent next else 0;
    }

unfoldable pub add_mana_spent : (ℕ → ℕ) → Bool → ℕ → Magic → Magic
add_mana_spent req not_gain_mana amount m =
    let curr = req m.mag_level in
    let next = req (u32 (m.mag_level + 1)) in
    let done = mana_loop (amount + 1) req curr next amount m in
    if not_gain_mana then m else if leb next curr then m else if amount == 0 then m else done
