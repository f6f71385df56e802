-- ===== src/Player/Skills/Mana.antt =====
-- src/player.cpp, addManaSpent: what becomes of the mana.
use otxlinux.Prelude.{
  ℕ, zero, suc, ◌+◌, ◌-◌, ◌^◌, ◌<◌, ◌≤◌, ◌≡◌, refl, ap, ◌⊎◌, inl, inr, true, false, Bool-cases, leb,
  ◌==◌, u32, u64, arith, leb→le, leb_false→lt, lt→leb_false, ==_iff,
}
use otxlinux.Player.Skills.{Magic, mana_loop, add_mana_spent}
use otxlinux.Player.Skills.Practice.{IsLast, Practised, spent, below_last}

-- Where the mana leads: to the last level with none left, or to a level that it paid for.
abbrev Reached : (ℕ → ℕ) → ℕ → ℕ → ℕ → Magic → Type 0
Reached req m l t r =
    (r.mag_level ≤ m)
    × ((IsLast req r.mag_level × (r.mana_spent ≡ 0)) ⊎ Practised req l t r.mag_level r.mana_spent)

Reached-suc :
    (req : ℕ → ℕ) (m l c t : ℕ) (r : Magic)
    → req (l + 1) + c ≡ t
    → Reached req m (l + 1) c r
    → Reached req m l t r
unfolding spent
Reached-suc req m l c t r e (low, inl top) = (low, inl top)
Reached-suc req m l c t r e (low, inr (k, level, sum, fits)) =
    (low, inr (suc k, omega arith, omega arith, fits))

module _ (req : ℕ → ℕ) (m : ℕ) (small : m < 2 ^ 32 - 1) (last : IsLast req m) where
  mana_loop-Reached :
      (fuel l curr next amount : ℕ) (p : Magic)
      → p.mag_level ≡ l
      → l ≤ m
      → next ≡ req (l + 1)
      → req l < req (l + 1)
      → p.mana_spent < req (l + 1)
      → amount < fuel
      → p.mana_spent + amount < 2 ^ 64
      → Reached req m l (p.mana_spent + amount) (mana_loop fuel req curr next amount p)
  unfolding mana_loop spent
  mana_loop-Reached zero l curr next amount p at le n rises fits enough bound = absurd (omega arith)
  mana_loop-Reached (suc fuel) l curr next amount p at le n rises fits enough bound =
      let below = below_last req m l last le rises in
      let level : u32 (p.mag_level + 1) ≡ l + 1 = omega arith in
      let above : req (u32 (u32 (p.mag_level + 1) + 1)) ≡ req (l + 1 + 1) = ap req (omega arith) in
      let after : Magic = record p { mag_level = u32 (p.mag_level + 1); mana_spent = 0 } in
      let same : u64 (p.mana_spent + amount) ≡ p.mana_spent + amount = omega arith in
      elim (Bool-cases (leb next (u64 (p.mana_spent + amount)))) [
        | inl up ↦
            let reached = leb→le next (u64 (p.mana_spent + amount)) up in
            elim (Bool-cases (leb (req (u32 (u32 (p.mag_level + 1) + 1))) next)) [
              | inl top ↦
                  rw (up, top, level)
                    (omega arith, inl (omega (arith, above, leb→le _ _ top), refl))
              | inr more ↦
                  rw (up, more)
                    (Reached-suc req m l (0 + (amount - (next - p.mana_spent)))
                      (p.mana_spent + amount)
                      (mana_loop fuel req next (req (u32 (u32 (p.mag_level + 1) + 1)))
                        (amount - (next - p.mana_spent)) after)
                      (omega arith)
                      (mana_loop-Reached fuel (l + 1) next _ _ after level (omega arith) above
                        (omega (arith, leb_false→lt _ _ more))
                        (omega (arith, leb_false→lt _ _ more)) (omega arith) (omega arith)))
            ]
        | inr stay ↦ rw stay (
          omega arith,
          inr (
            0,
            omega arith,
            omega arith,
            omega (arith, leb_false→lt _ _ stay, ap (λ i. req (i + 1)) at),
          ),
        )
      ]

  -- Mana that is spent in a table with a last level below 2^32 - 1, from a level from which the table
  -- rises and with less mana counted than the next level takes, with a sum in 64 bits, leads at most to that level, and either to a
  -- level that is the last one, with no mana counted for the next, or to a level whose next one
  -- takes more than what is left after all the levels that the mana has paid for. Players with the
  -- flag that stops the gain stay as they are.
  pub add_mana_spent_lem :
      (amount : ℕ) (p : Magic)
      → p.mag_level ≤ m
      → p.mana_spent < req (p.mag_level + 1)
      → req p.mag_level < req (p.mag_level + 1)
      → p.mana_spent + amount < 2 ^ 64
      → let r = add_mana_spent req false amount p in
        (add_mana_spent req true amount p ≡ p)
        × ((r.mag_level ≤ m)
            × ((IsLast req r.mag_level × (r.mana_spent ≡ 0))
                ⊎ Practised req p.mag_level (p.mana_spent + amount) r.mag_level r.mana_spent))
  unfolding add_mana_spent spent
  add_mana_spent_lem amount p le fits rises bound =
      let next : req (u32 (p.mag_level + 1)) ≡ req (p.mag_level + 1) = ap req (omega arith) in
      let outcome =
        mana_loop-Reached (amount + 1) p.mag_level (req p.mag_level) (req (u32 (p.mag_level + 1)))
          amount p refl le next rises fits (omega arith) bound in
      (
        refl,
        rw
            (lt→leb_false (req (u32 (p.mag_level + 1))) (req p.mag_level)
              (omega (arith, next, rises)))
            (elim (Bool-cases (amount == 0)) [
              | inl none ↦
                  rw none (le, inr (0, omega arith, omega (arith, (==_iff amount 0).0 none), fits))
              | inr some ↦ rw some outcome
            ]),
      )
