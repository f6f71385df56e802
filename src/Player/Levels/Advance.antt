-- ===== src/Player/Levels/Advance.antt =====
-- src/player.cpp, addExperience: the level that a player has after it.
use otxlinux.Prelude.{
  ℕ, zero, suc, ◌+◌, ◌-◌, ◌<◌, ◌≤◌, ◌≡◌, refl, ap, ◌∙◌, inl, inr, Bool-cases, leb, ◌==◌, u32, u64,
  arith, lt→leb_false, leb_false→lt, leb→le, ==_iff,
}
use otxlinux.Player.Levels.{
  Player, Vocation, exp_for_level, gain_level, gain_levels, level_fuel, refill, set_percent,
  add_experience,
}
use otxlinux.Player.Levels.Table.{
  total, exp_for_level-total, total-increasing, total-hundred, total-monotone, total-reflects,
  total-u64,
}

-- No threshold up to this level leaves 64 bits.
abbrev pub highest : ℕ
highest = 600000

-- The level is the one whose thresholds the experience lies between.
abbrev pub IsAt : Player → Type 0
IsAt p =
    (0 < p.level)
    × (p.level ≤ highest)
    × (exp_for_level p.level ≤ p.experience)
    × (p.experience < exp_for_level (p.level + 1))

-- What the loop of `addExperience` ends with: a player at a level and the thresholds of the level.
abbrev Ends : ℕ → Player × ℕ × ℕ → Type 0
Ends e r =
    (x : ℕ) × (r.0.level ≡ suc x)
    × (r.0.experience ≡ e)
    × (x < highest)
    × (total x ≤ e)
    × (e < total (suc x))
    × (r.1 ≡ total x)
    × (r.2 ≡ total (suc x))

-- The threshold after next, as the loop computes it.
later_threshold :
    (l x : ℕ)
    → l ≡ suc x
    → x < highest
    → exp_for_level (u32 (u32 (l + 1) + 1)) ≡ total (suc (suc x))
later_threshold l x at h =
    ap exp_for_level (omega arith) ∙ exp_for_level-total (suc (suc x)) (omega arith)

next_level : (l x : ℕ) → l ≡ suc x → x < highest → u32 (l + 1) ≡ suc (suc x)
next_level l x at h = omega arith

gain_levels-Ends :
    (fuel x y e : ℕ) (v : Vocation) (p : Player)
    → p.level ≡ suc x
    → p.experience ≡ e
    → total x ≤ e
    → e < total highest
    → y ≤ fuel + x
    → e < total y
    → Ends e (gain_levels fuel v (total x) (total (suc x)) p)
unfolding gain_levels gain_level
gain_levels-Ends zero x y e v p at same low bound enough high =
    absurd (omega (arith, low, high, total-monotone y x (omega arith)))
gain_levels-Ends (suc fuel) x y e v p at same low bound enough high =
    let small = total-reflects x highest e low bound in
    elim (Bool-cases (leb (total (suc x)) p.experience)) [
      | inl up ↦
          rw
            (
              up,
              later_threshold p.level x at small,
              lt→leb_false (total (suc (suc x))) (total (suc x))
                  (omega (arith, total-increasing (suc x))),
            )
            (gain_levels-Ends fuel (suc x) y e v (gain_level v p) (next_level p.level x at small)
              same (omega (arith, leb→le (total (suc x)) p.experience up)) bound (omega arith) high)
      | inr stay ↦ rw stay (
        x,
        at,
        same,
        small,
        low,
        omega (arith, leb_false→lt (total (suc x)) p.experience stay),
        refl,
        refl,
      )
    ]

-- `IsAt` by the table.
pub IsAt-total :
    (p : Player) (x : ℕ)
    → p.level ≡ suc x
    → x < highest
    → total x ≤ p.experience
    → p.experience < total (suc x)
    → IsAt p
IsAt-total p x at small low high =
    let here : exp_for_level p.level ≡ total x =
      ap exp_for_level at ∙ exp_for_level-total x (omega arith) in
    let above : exp_for_level (p.level + 1) ≡ total (suc x) =
      ap exp_for_level (omega arith) ∙ exp_for_level-total (suc x) (omega arith) in
    (omega arith, omega arith, omega (arith, here, low), omega (arith, above, high))

pub total-IsAt :
    (p : Player)
    → IsAt p
    → (x : ℕ) × (p.level ≡ suc x)
      × (x < highest)
      × (exp_for_level p.level ≡ total x)
      × (exp_for_level (p.level + 1) ≡ total (suc x))
      × (total x ≤ p.experience)
      × (p.experience < total (suc x))
total-IsAt p h =
    let at : p.level ≡ suc (p.level - 1) = omega (arith, h.0) in
    let small : p.level - 1 < highest = omega (arith, h.0, h.1) in
    let here : exp_for_level p.level ≡ total (p.level - 1) =
      ap exp_for_level at ∙ exp_for_level-total (p.level - 1) (omega arith) in
    let above : exp_for_level (p.level + 1) ≡ total (suc (p.level - 1)) =
      ap exp_for_level (omega arith) ∙ exp_for_level-total (suc (p.level - 1)) (omega arith) in
    (p.level - 1, at, small, here, above, omega (arith, h.2, here), omega (arith, h.3, above))

-- What fills up and what shows the percentage changes neither level nor experience.
pub refill-level : (l : ℕ) (p : Player) → (refill l p).level ≡ p.level
unfolding refill
refill-level l p = elim (Bool-cases (p.level == l)) [ inl e ↦ rw e refl | inr e ↦ rw e refl ]

pub refill-experience : (l : ℕ) (p : Player) → (refill l p).experience ≡ p.experience
unfolding refill
refill-experience l p = elim (Bool-cases (p.level == l)) [ inl e ↦ rw e refl | inr e ↦ rw e refl ]

shown-IsAt :
    (l e : ℕ) (r : Player × ℕ × ℕ)
    → Ends e r
    → let p = set_percent r.1 r.2 (refill l r.0) in IsAt p × (p.experience ≡ e)
unfolding set_percent
shown-IsAt l e r (x, at, same, small, low, high, c, n) =
    let p = set_percent r.1 r.2 (refill l r.0) in
    let level : p.level ≡ suc x = refill-level l r.0 ∙ at in
    let experience : p.experience ≡ e = refill-experience l r.0 ∙ same in
    (IsAt-total p x level small (omega arith) (omega arith), experience)

-- The loop from the thresholds that `addExperience` computes, with the fuel that it is given.
loop-Ends :
    (curr next x e : ℕ) (v : Vocation) (p : Player)
    → p.level ≡ suc x
    → p.experience ≡ e
    → curr ≡ total x
    → next ≡ total (suc x)
    → total x ≤ e
    → e < total highest
    → Ends e (gain_levels (level_fuel p.experience) v curr next p)
loop-Ends curr next x e v p at same c n low bound =
    rw (c, n)
      (gain_levels-Ends (level_fuel p.experience) x (level_fuel p.experience + x) e v p at same low
        bound (omega arith) (omega (arith, same, total-hundred (level_fuel p.experience + x))))

-- A player whose level fits the experience, at level 600000 at most, gains some that leads to less
-- than the threshold above that level: it has the sum of both, and a level that fits the sum.
pub add_experience-IsAt :
    (v : Vocation) (exp : ℕ) (p : Player)
    → IsAt p
    → p.experience + exp < exp_for_level (suc highest)
    → IsAt (add_experience v exp p) × ((add_experience v exp p).experience ≡ p.experience + exp)
unfolding add_experience
add_experience-IsAt v exp p h bound =
    let (x, at, small, here, above, low, high) = total-IsAt p h in
    let bound' : p.experience + exp < total highest =
      omega (arith, bound, exp_for_level-total highest (omega arith)) in
    let next : exp_for_level (u32 (p.level + 1)) ≡ total (suc x) =
      ap exp_for_level (next_level p.level x at small)
      ∙ exp_for_level-total (suc x) (omega arith) in
    let gained : Player = record p { experience = u64 (p.experience + exp) } in
    let same : u64 (p.experience + exp) ≡ p.experience + exp =
      omega (arith, bound', total-u64 highest (omega arith)) in
    let ends =
      loop-Ends (exp_for_level p.level) (exp_for_level (u32 (p.level + 1))) x (p.experience + exp) v
        gained at same here next (omega arith) bound' in
    rw
      (lt→leb_false (exp_for_level (u32 (p.level + 1))) (exp_for_level p.level)
        (omega (arith, here, next, total-increasing x)))
      (elim (Bool-cases (exp == 0)) [
        | inl none ↦ rw none (h, omega (arith, (==_iff exp 0).0 none))
        | inr some ↦ rw some (
            shown-IsAt p.level (p.experience + exp)
              (gain_levels (level_fuel gained.experience) v (exp_for_level p.level)
                (exp_for_level (u32 (p.level + 1))) gained)
              ends)
      ])
