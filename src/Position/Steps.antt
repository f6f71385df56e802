-- ===== src/Position/Steps.antt =====
-- src/tools.cpp, getNextPosition and getDirectionTo: a step towards a position.
use otxlinux.Prelude.{
  ℕ, ◌+◌, ◌^◌, ◌<◌, ◌≤◌, ◌≡◌, ◌≢◌, ◌⊎◌, inl, inr, refl, ap, ◌∙◌, true, false, ltb, leb, ◌==◌,
  if◌then◌else◌, arith, Bool-cases, ==_iff, ltb→lt, ltb_false→le, leb→le, leb_false→lt,
}
use otxlinux.Position.{
  Position, distance, distance_x, distance_y, next_position, direction_to, up, down, Direction,
  north, east, south, west, southwest, southeast, northwest, northeast,
}

-- The number of steps that a walk takes which may go along diagonals.
unfoldable pub reach : Position → Position → ℕ
reach a b = if ltb (distance_x a b) (distance_y a b) then distance_y a b else distance_x a b

-- On coordinates: the larger distance.
abbrev larger : ℕ → ℕ → ℕ
larger dx dy = if ltb dx dy then dy else dx

up_towards : (a b : ℕ) → b < 2 ^ 16 → a < b → distance (up a) b + 1 ≡ distance a b
unfolding distance
up_towards a b small h = ground arith

larger_both : (u v d e : ℕ) → u + 1 ≡ d → v + 1 ≡ e → larger u v + 1 ≡ larger d e
larger_both u v d e h k = ground arith

larger_second : (v d e : ℕ) → v + 1 ≡ e → d < e → larger d v + 1 ≡ larger d e
larger_second v d e h k = ground arith

larger_first : (u d e : ℕ) → u + 1 ≡ d → e < d → larger u e + 1 ≡ larger d e
larger_first u d e h k = ground arith

larger_at : (d e : ℕ) → ltb d e ≡ false → (e == d) ≡ false → e < d
larger_at d e h k = ground arith

-- The choice between a step along an axis and a diagonal one, for one quadrant.
towards :
    (from to : Position) (along_y diagonal along_x : Direction) (x' y' : ℕ)
    → next_position along_y from ≡ record from { y = y' }
    → next_position diagonal from ≡ record from { x = x'; y = y' }
    → next_position along_x from ≡ record from { x = x' }
    → (0 < distance from.x to.x → distance x' to.x + 1 ≡ distance from.x to.x)
    → (0 < distance from.y to.y → distance y' to.y + 1 ≡ distance from.y to.y)
    → (0 < distance from.x to.x) ⊎ (0 < distance from.y to.y)
    → reach
          (next_position
            (if ltb (distance from.x to.x) (distance from.y to.y)
              then along_y
              else if distance from.y to.y == distance from.x to.x
              then diagonal
              else along_x)
            from)
          to
        + 1
      ≡ reach from to
unfolding reach distance_x distance_y
towards from to along_y diagonal along_x x' y' ey ed ex closer_x closer_y apart =
    let dx = distance from.x to.x in
    let dy = distance from.y to.y in
    elim (Bool-cases (ltb dx dy)) [
      | inl l ↦
          ap (λ d. reach_from (next_position d from) to + 1) (choose_first l)
          ∙ ap (λ p. reach_from p to + 1) ey
          ∙ larger_second (distance y' to.y) dx dy (closer_y (omega (arith, ltb→lt dx dy l)))
              (ltb→lt dx dy l)
      | inr g ↦ elim (Bool-cases (dy == dx)) [
        | inl e ↦
            ap (λ d. reach_from (next_position d from) to + 1) (choose_second g e)
            ∙ ap (λ p. reach_from p to + 1) ed
            ∙ larger_both (distance x' to.x) (distance y' to.y) dx dy
                (closer_x (positive_x apart ((==_iff dy dx).0 e)))
                (closer_y (positive_y apart ((==_iff dy dx).0 e)))
        | inr n ↦
            ap (λ d. reach_from (next_position d from) to + 1) (choose_third g n)
            ∙ ap (λ p. reach_from p to + 1) ex
            ∙ larger_first (distance x' to.x) dx dy (closer_x (omega (arith, larger_at dx dy g n)))
                (larger_at dx dy g n)
      ]
    ]
  where
    reach_from : Position → Position → ℕ
    reach_from a b = larger (distance a.x b.x) (distance a.y b.y)

    choice : Direction
    choice =
        if ltb (distance from.x to.x) (distance from.y to.y)
        then along_y
        else if distance from.y to.y == distance from.x to.x
        then diagonal
        else along_x

    choose_first : ltb (distance from.x to.x) (distance from.y to.y) ≡ true → choice ≡ along_y
    choose_first l = rw l

    choose_second :
        ltb (distance from.x to.x) (distance from.y to.y) ≡ false
        → (distance from.y to.y == distance from.x to.x) ≡ true
        → choice ≡ diagonal
    choose_second g e = rw (g, e)

    choose_third :
        ltb (distance from.x to.x) (distance from.y to.y) ≡ false
        → (distance from.y to.y == distance from.x to.x) ≡ false
        → choice ≡ along_x
    choose_third g n = rw (g, n)

    positive_x :
        (0 < distance from.x to.x) ⊎ (0 < distance from.y to.y)
        → distance from.y to.y ≡ distance from.x to.x
        → 0 < distance from.x to.x
    positive_x (inl h) e = h
    positive_x (inr h) e = omega arith

    positive_y :
        (0 < distance from.x to.x) ⊎ (0 < distance from.y to.y)
        → distance from.y to.y ≡ distance from.x to.x
        → 0 < distance from.y to.y
    positive_y (inl h) e = omega arith
    positive_y (inr h) e = h

distance-positive : (a b : ℕ) → a ≢ b → 0 < distance a b
unfolding distance
distance-positive a b h = ground arith

apart-positive :
    (a b : Position) → (a.x ≢ b.x) ⊎ (a.y ≢ b.y) → (0 < distance a.x b.x) ⊎ (0 < distance a.y b.y)
apart-positive a b (inl h) = inl (distance-positive a.x b.x h)
apart-positive a b (inr h) = inr (distance-positive a.y b.y h)

down_from :
    (a b : ℕ) → a < 2 ^ 16 → b ≤ a → 0 < distance a b → distance (down a) b + 1 ≡ distance a b
unfolding distance
down_from a b small h k = ground arith

-- A step in the direction of another place on the floor brings a walker nearer by one step, for
-- coordinates of 16 bits: the direction is never a detour.
pub next_position-direction_to :
    (from to : Position)
    → from.x < 2 ^ 16
    → from.y < 2 ^ 16
    → to.x < 2 ^ 16
    → to.y < 2 ^ 16
    → (from.x ≢ to.x) ⊎ (from.y ≢ to.y)
    → reach (next_position (direction_to from to) from) to + 1 ≡ reach from to
unfolding next_position direction_to distance_x distance_y
next_position-direction_to from to fx fy tx ty apart =
    let positive = apart-positive from to apart in
    elim (Bool-cases (ltb from.x to.x)) [
      | inl e ↦ elim (Bool-cases (leb to.y from.y)) [
        | inl n ↦
            rw (e, n)
              (towards from to north northeast east (up from.x) (down from.y) refl refl refl
                (λ p. up_towards from.x to.x tx (ltb→lt _ _ e))
                (down_from from.y to.y fy (leb→le _ _ n)) positive)
        | inr s ↦
            rw (e, s)
              (towards from to south southeast east (up from.x) (up from.y) refl refl refl
                (λ p. up_towards from.x to.x tx (ltb→lt _ _ e))
                (λ p. up_towards from.y to.y ty (leb_false→lt _ _ s)) positive)
      ]
      | inr w ↦ elim (Bool-cases (leb to.y from.y)) [
        | inl n ↦
            rw (w, n)
              (towards from to north northwest west (down from.x) (down from.y) refl refl refl
                (down_from from.x to.x fx (ltb_false→le _ _ w))
                (down_from from.y to.y fy (leb→le _ _ n)) positive)
        | inr s ↦
            rw (w, s)
              (towards from to south southwest west (down from.x) (up from.y) refl refl refl
                (down_from from.x to.x fx (ltb_false→le _ _ w))
                (λ p. up_towards from.y to.y ty (leb_false→lt _ _ s)) positive)
      ]
    ]
