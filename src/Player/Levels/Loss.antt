-- ===== src/Player/Levels/Loss.antt =====
-- src/player.cpp, removeExperience: the level that a player has after it, and when a loss wraps around.
use mathlib.Core.Path.{subst}
use otxlinux.Prelude.{
  ℕ, zero, suc, ◌+◌, ◌-◌, ◌^◌, ◌<◌, ◌≤◌, ◌≡◌, refl, sym, ◌∙◌, inl, inr, false, Bool-cases, ltb,
  ◌==◌, u32, arith, ==_iff, ltb→lt, ltb_false→le,
}
use otxlinux.Player.Levels.{
  Player, Vocation, exp_for_level, refill, set_percent, add_experience, lose_level, lose_levels,
  experience_left, remove_experience,
}
use otxlinux.Player.Levels.Table.{total, exp_for_level-total, total-zero, total-reflects, total-i64}
use otxlinux.Player.Levels.Advance.{
  highest, IsAt, IsAt-total, total-IsAt, refill-level, refill-experience, add_experience-IsAt,
}

-- The loop of `removeExperience` keeps the experience and stops at a level that fits.
Lowered : ℕ → Player → Type 0
Lowered e p =
    (x : ℕ) × (p.level ≡ suc x)
    × (p.experience ≡ e)
    × (x < highest)
    × (total x ≤ e)
    × (e < total (suc x))

lose_levels-Lowered :
    (x e : ℕ) (v : Vocation) (p : Player)
    → p.level ≡ suc x
    → p.experience ≡ e
    → x < highest
    → e < total (suc x)
    → Lowered e (lose_levels v (suc x) p)
unfolding lose_levels lose_level Lowered
lose_levels-Lowered zero e v p at same small high =
    (zero, at, same, small, omega (arith, total-zero), high)
lose_levels-Lowered (suc x) e v p at same small high =
    let here : exp_for_level (suc (suc x)) ≡ total (suc x) =
      exp_for_level-total (suc x) (omega arith) in
    elim (Bool-cases (ltb p.experience (exp_for_level (suc (suc x))))) [
      | inl down ↦ rw down (
          lose_levels-Lowered x e v (lose_level v (suc x) p) refl same (omega arith)
            (omega (arith, here, ltb→lt p.experience (exp_for_level (suc (suc x))) down)))
      | inr stay ↦ rw stay (
        suc x,
        at,
        same,
        small,
        omega (arith, here, ltb_false→le p.experience (exp_for_level (suc (suc x))) stay),
        high,
      )
    ]

Lowered-IsAt :
    (l e : ℕ) (p : Player)
    → Lowered e p
    → let q =
        set_percent (exp_for_level p.level) (exp_for_level (u32 (p.level + 1))) (refill l p) in
      IsAt q × (q.experience ≡ e)
unfolding set_percent Lowered
Lowered-IsAt l e p (x, at, same, small, low, high) =
    let q = set_percent (exp_for_level p.level) (exp_for_level (u32 (p.level + 1))) (refill l p) in
    let level : q.level ≡ suc x = refill-level l p ∙ at in
    let experience : q.experience ≡ e = refill-experience l p ∙ same in
    (IsAt-total q x level small (omega arith) (omega arith), experience)

small_left : (e exp : ℕ) → e < 2 ^ 63 → exp ≤ e + 2 ^ 63 → experience_left e exp ≡ e - exp
unfolding experience_left
small_left e exp h k = ground arith

wrapped_left :
    (e exp : ℕ) → e + 2 ^ 63 < exp → exp < 2 ^ 64 → experience_left e exp ≡ e + (2 ^ 64 - exp)
unfolding experience_left
wrapped_left e exp h k = ground arith

experience-lt : (p : Player) → IsAt p → p.experience < 2 ^ 63
experience-lt p h =
    let (x, at, small, here, above, low, high) = total-IsAt p h in
    omega (arith, high, total-i64 (suc x) (omega arith))

-- A player whose level fits the experience loses some, an amount that is above the experience by
-- 2 ^ 63 at most: it has what is left, or none, and a level that fits that.
pub remove_experience-IsAt :
    (v : Vocation) (exp : ℕ) (p : Player)
    → IsAt p
    → exp ≤ p.experience + 2 ^ 63
    → IsAt (remove_experience v exp p)
      × ((remove_experience v exp p).experience ≡ p.experience - exp)
unfolding remove_experience
remove_experience-IsAt v exp p h bound =
    let (x, at, small, here, above, low, high) = total-IsAt p h in
    let left : Player = record p { experience = p.experience - exp } in
    let lowered : Lowered (p.experience - exp) (lose_levels v p.level left) =
      subst (λ l. Lowered (p.experience - exp) (lose_levels v l left)) (sym at)
        (lose_levels-Lowered x (p.experience - exp) v left at refl small (omega arith)) in
    rw (small_left p.experience exp (experience-lt p h) bound)
      (elim (Bool-cases (p.experience == 0)) [
        | inl nothing ↦ rw nothing (h, omega (arith, (==_iff p.experience 0).0 nothing))
        | inr something ↦ elim (Bool-cases (exp == 0)) [
          | inl none ↦ rw (something, none) (h, omega (arith, (==_iff exp 0).0 none))
          | inr some ↦
              rw (something, some)
                (Lowered-IsAt p.level (p.experience - exp) (lose_levels v p.level left) lowered)
        ]
      ])

lose_levels-stays :
    (v : Vocation) (x : ℕ) (p : Player)
    → x < highest
    → total x ≤ p.experience
    → lose_levels v (suc x) p ≡ p
unfolding lose_levels
lose_levels-stays v zero p small low = refl
lose_levels-stays v (suc x) p small low =
    let here : exp_for_level (suc (suc x)) ≡ total (suc x) =
      exp_for_level-total (suc x) (omega arith) in
    elim (Bool-cases (ltb p.experience (exp_for_level (suc (suc x))))) [
      | inl down ↦
          absurd (omega (arith, here, low, ltb→lt p.experience (exp_for_level (suc (suc x))) down))
      | inr stay ↦ rw stay refl
    ]

-- The loss wraps around for a 64-bit amount that is above the experience of a player by more than
-- 2 ^ 63, as a negative number of a script is: a player with some experience whose level fits it has
-- more experience afterwards than before, by 2 ^ 64 less the amount, and the level stays.
pub remove_experience_wraps :
    (v : Vocation) (exp : ℕ) (p : Player)
    → IsAt p
    → 0 < p.experience
    → p.experience + 2 ^ 63 < exp
    → exp < 2 ^ 64
    → ((remove_experience v exp p).experience ≡ p.experience + (2 ^ 64 - exp))
      × ((remove_experience v exp p).level ≡ p.level)
unfolding remove_experience set_percent
remove_experience_wraps v exp p h some large word =
    let (x, at, small, here, above, low, high) = total-IsAt p h in
    let grown : Player = record p { experience = p.experience + (2 ^ 64 - exp) } in
    let stays : lose_levels v p.level grown ≡ grown =
      subst (λ l. lose_levels v l grown ≡ grown) (sym at)
        (lose_levels-stays v x grown small (omega (arith, low))) in
    let has_some : (p.experience == 0) ≡ false = ground arith in
    let loses : (exp == 0) ≡ false = ground arith in
    rw (has_some, loses, wrapped_left p.experience exp large word, stays)
      (refill-experience p.level grown, refill-level p.level grown)

-- The experience decides the level.
pub level_unique :
    (p q : Player) → IsAt p → IsAt q → p.experience ≡ q.experience → p.level ≡ q.level
level_unique p q h k e =
    let (x, at, small, here, above, low, high) = total-IsAt p h in
    let (y, at', small', here', above', low', high') = total-IsAt q k in
    let up = total-reflects x (suc y) p.experience low (omega arith) in
    let down = total-reflects y (suc x) p.experience (omega arith) high in omega arith

-- A player whose level fits the experience gains some and loses as much again, with what it leads to
-- below the highest threshold: the level and the experience are as they were.
pub remove_experience-add_experience :
    (v w : Vocation) (exp : ℕ) (p : Player)
    → IsAt p
    → p.experience + exp < exp_for_level (suc highest)
    → let q = remove_experience w exp (add_experience v exp p) in
      (q.level ≡ p.level) × (q.experience ≡ p.experience)
remove_experience-add_experience v w exp p h bound =
    let gained = add_experience-IsAt v exp p h bound in
    let lost =
      remove_experience-IsAt w exp (add_experience v exp p) gained.0 (omega (arith, gained.1)) in
    let same : (remove_experience w exp (add_experience v exp p)).experience ≡ p.experience =
      omega (arith, gained.1, lost.1) in
    (level_unique (remove_experience w exp (add_experience v exp p)) p lost.0 h same, same)
