-- ===== src/Player/Skills/Practice.antt =====
-- src/player.cpp, addSkillAdvance: what becomes of the tries.
use mathlib.Core.Path.{subst}
use otxlinux.Prelude.{
  ℕ, zero, suc, ◌+◌, ◌-◌, ◌^◌, ◌<◌, ◌≤◌, ◌≡◌, refl, ap, sym, ◌∙◌, ◌⊎◌, inl, inr, Bool-cases, leb,
  ◌==◌, u16, u64, arith, leb→le, leb_false→lt, lt→leb_false, ==_iff,
}
use otxlinux.Player.Skills.{
  Skill, Training, advance, training_loop, settle_skill, add_skill_advance,
}

-- The tries of the `k` levels above a level.
unfoldable pub spent : (ℕ → ℕ) → ℕ → ℕ → ℕ
spent req l zero = 0
spent req l (suc k) = req (l + 1) + spent req (l + 1) k

-- A level from which the table does not rise is the last one.
abbrev pub IsLast : (ℕ → ℕ) → ℕ → Type 0
IsLast req l = req (l + 1) ≤ req l

-- From `t` tries at level `l` the skill came to `t'` tries at level `l'`: the tries in between are
-- those of the levels.
abbrev pub Practised : (ℕ → ℕ) → ℕ → ℕ → ℕ → ℕ → Type 0
Practised req l t l' t' = (k : ℕ) × (l' ≡ l + k) × (t ≡ spent req l k + t') × (t' < req (l' + 1))

pub below_last : (req : ℕ → ℕ) (m l : ℕ) → IsLast req m → l ≤ m → req l < req (l + 1) → l < m
below_last req m l last le h = elim (below_or_at l m le) [
  | inl lt ↦ lt
  | inr e ↦ absurd (omega (arith, subst (λ i. req i < req (i + 1)) e h, last))
]
  where
    below_or_at : (l m : ℕ) → l ≤ m → (l < m) ⊎ (l ≡ m)
    below_or_at l m h = ground arith

-- What the loop ends with.
abbrev Outcome : (ℕ → ℕ) → ℕ → ℕ → ℕ → Training → Type 0
Outcome req m l t r =
    (r.skill.level ≤ m)
    × (r.curr_req_tries ≡ req r.skill.level)
    × (r.next_req_tries ≡ req (r.skill.level + 1))
    × (r.skill.tries + r.count ≤ t)
    × ((IsLast req r.skill.level × (r.skill.tries + r.count ≡ 0))
        ⊎ Practised req l t r.skill.level (r.skill.tries + r.count))

Outcome-suc :
    (req : ℕ → ℕ) (m l c t : ℕ) (r : Training)
    → req (l + 1) + c ≡ t
    → Outcome req m (l + 1) c r
    → Outcome req m l t r
unfolding spent
Outcome-suc req m l c t r e (low, curr, next, tries, inl top) =
    (low, curr, next, omega arith, inl top)
Outcome-suc req m l c t r e (low, curr, next, tries, inr (k, level, sum, fits)) =
    (low, curr, next, omega arith, inr (suc k, omega arith, omega arith, fits))

settle_skill-Outcome :
    (req : ℕ → ℕ) (m l t : ℕ) (r : Training)
    → t < 2 ^ 64
    → Outcome req m l t r
    → ((settle_skill r).level ≤ m)
      × ((IsLast req (settle_skill r).level × ((settle_skill r).tries ≡ 0))
          ⊎ Practised req l t (settle_skill r).level (settle_skill r).tries)
unfolding settle_skill
settle_skill-Outcome req m l t r bound (low, curr, next, tries, inl (top, none)) =
    (low, inl (top, omega arith))
settle_skill-Outcome req m l t r bound (low, curr, next, tries, inr (k, level, sum, fits)) =
    (low, inr (k, level, omega arith, omega arith))

module _ (req : ℕ → ℕ) (m : ℕ) (small : m < 2 ^ 16 - 1) (last : IsLast req m) where
  loop-Outcome :
      (fuel l : ℕ) (t : Training)
      → t.skill.level ≡ l
      → l ≤ m
      → t.curr_req_tries ≡ req l
      → t.next_req_tries ≡ req (l + 1)
      → req l < req (l + 1)
      → t.skill.tries < req (l + 1)
      → t.count < fuel
      → t.skill.tries + t.count < 2 ^ 64
      → Outcome req m l (t.skill.tries + t.count) (training_loop fuel req t)
  unfolding training_loop advance spent
  loop-Outcome zero l t at le c n rises fits enough bound = absurd (omega arith)
  loop-Outcome (suc fuel) l t at le c n rises fits enough bound =
      let below = below_last req m l last le rises in
      let level : u16 (t.skill.level + 1) ≡ l + 1 = omega arith in
      let above : req (u16 (u16 (t.skill.level + 1) + 1)) ≡ req (l + 1 + 1) =
        ap req (omega arith) in
      let same : u64 (t.skill.tries + t.count) ≡ t.skill.tries + t.count = omega arith in
      let after : Training = record {
        skill = record { tries = 0; level = u16 (t.skill.level + 1); percent = 0 };
        curr_req_tries = t.next_req_tries;
        next_req_tries = req (u16 (u16 (t.skill.level + 1) + 1));
        count = t.count - (t.next_req_tries - t.skill.tries);
      } in
      elim (Bool-cases (leb t.next_req_tries (u64 (t.skill.tries + t.count)))) [
        | inl up ↦
            let reached = leb→le t.next_req_tries (u64 (t.skill.tries + t.count)) up in
            elim (Bool-cases (leb (req (u16 (u16 (t.skill.level + 1) + 1))) t.next_req_tries)) [
              | inl top ↦
                  rw (up, top, level)
                    (at_last t l below n (ap req (omega arith))
                      (omega (arith, above, leb→le _ _ top)))
              | inr more ↦
                  rw (up, more)
                    (Outcome-suc req m l (0 + (t.count - (t.next_req_tries - t.skill.tries)))
                      (t.skill.tries + t.count) (training_loop fuel req after) (omega arith)
                      (loop-Outcome fuel (l + 1) after level (omega arith) n above
                        (omega (arith, leb_false→lt _ _ more))
                        (omega (arith, leb_false→lt _ _ more)) (omega arith) (omega arith)))
            ]
        | inr stay ↦ rw stay (
          omega arith,
          c ∙ ap req (sym at),
          n ∙ ap (λ i. req (i + 1)) (sym at),
          omega arith,
          inr (
            0,
            omega arith,
            omega arith,
            omega (arith, leb_false→lt _ _ stay, ap (λ i. req (i + 1)) at),
          ),
        )
      ]
    where
      at_last :
          (t : Training) (l : ℕ)
          → l < m
          → t.next_req_tries ≡ req (l + 1)
          → req (u16 (l + 1 + 1)) ≡ req (l + 1 + 1)
          → req (l + 1 + 1) ≤ t.next_req_tries
          → Outcome req m l (t.skill.tries + t.count) (record {
            skill = record { tries = 0; level = l + 1; percent = 0 };
            curr_req_tries = t.next_req_tries;
            next_req_tries = req (u16 (l + 1 + 1));
            count = 0;
          })
      at_last t l below n above top =
          (omega arith, n, above, omega arith, inl (omega arith, omega arith))

  -- A skill in a table with a last level below 65535, at a level from which the table rises and with
  -- less tries than its next level takes, that is trained with a sum of tries in 64 bits gets at most that level, and either
  -- reaches a level that is the last one, where it starts at no tries, or has less tries than the
  -- next level takes, after all the levels that the given tries have paid for.
  pub add_skill_advance_lem :
      (count : ℕ) (s : Skill)
      → s.level ≤ m
      → s.tries < req (s.level + 1)
      → req s.level < req (s.level + 1)
      → s.tries + count < 2 ^ 64
      → let r = add_skill_advance req count s in
        (r.level ≤ m)
        × ((IsLast req r.level × (r.tries ≡ 0))
            ⊎ Practised req s.level (s.tries + count) r.level r.tries)
  unfolding add_skill_advance settle_skill spent
  add_skill_advance_lem count s le fits rises bound =
      let start : Training = record {
        skill = s;
        curr_req_tries = req s.level;
        next_req_tries = req (u16 (s.level + 1));
        count = count;
      } in
      let next : req (u16 (s.level + 1)) ≡ req (s.level + 1) = ap req (omega arith) in
      let outcome =
        loop-Outcome (count + 1) s.level start refl le refl next rises fits (omega arith) bound in
      rw (lt→leb_false (req (u16 (s.level + 1))) (req s.level) (omega (arith, next, rises)))
        (elim (Bool-cases (count == 0)) [
          | inl none ↦
              rw none (le, inr (0, omega arith, omega (arith, (==_iff count 0).0 none), fits))
          | inr some ↦ rw some (
              settle_skill-Outcome req m s.level (s.tries + count)
                (training_loop (count + 1) req start) bound outcome)
        ])
