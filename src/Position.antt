-- ===== src/Position.antt =====
-- src/position.h, and the functions on directions of src/tools.cpp: positions on the map. Coordinates
-- are unsigned and wrap around where the source computes with them.
pub mod Order
pub mod Steps
mod Examples
use otxlinux.Prelude.{
  ℕ, ◌+◌, ◌-◌, ◌^◌, ◌%◌, Bool, true, false, not, ◌&&◌, ltb, leb, ◌==◌, if◌then◌else◌, u8, u16,
}

pub record Position : Type 0 where
  pub x : ℕ
  pub y : ℕ
  pub z : ℕ

-- `operator<`.
unfoldable pub less : Position → Position → Bool
less a b =
    if ltb a.z b.z
    then true
    else if ltb b.z a.z
    then false
    else if ltb a.y b.y
    then true
    else if ltb b.y a.y
    then false
    else if ltb a.x b.x
    then true
    else if ltb b.x a.x
    then false
    else false

-- `operator>`.
unfoldable pub greater : Position → Position → Bool
greater a b = not (less a b)

-- `operator==`.
unfoldable pub equal : Position → Position → Bool
equal a b = b.x == a.x && b.y == a.y && b.z == a.z

-- `operator+` and `operator-`.
unfoldable pub plus : Position → Position → Position
plus a b = record { x = u16 (a.x + b.x); y = u16 (a.y + b.y); z = u8 (a.z + b.z) }

unfoldable pub minus : Position → Position → Position
minus a b = record {
  x = u16 (a.x + (2 ^ 16 - b.x));
  y = u16 (a.y + (2 ^ 16 - b.y));
  z = u8 (a.z + (2 ^ 8 - b.z));
}

-- The absolute value of a difference.
unfoldable pub distance : ℕ → ℕ → ℕ
distance a b = if ltb a b then b - a else a - b

unfoldable pub distance_x : Position → Position → ℕ
distance_x a b = distance a.x b.x

unfoldable pub distance_y : Position → Position → ℕ
distance_y a b = distance a.y b.y

unfoldable pub distance_z : Position → Position → ℕ
distance_z a b = distance a.z b.z

unfoldable pub are_in_range : ℕ → ℕ → Position → Position → Bool
are_in_range dx dy a b = leb (distance_x a b) dx && leb (distance_y a b) dy

pub data Direction : Type 0 where
  north east south west southwest southeast northwest northeast : Direction

-- `pos.x--` and the like are done on `uint16_t`.
abbrev pub up : ℕ → ℕ
up c = u16 (c + 1)

abbrev pub down : ℕ → ℕ
down c = u16 (c + (2 ^ 16 - 1))

unfoldable pub next_position : Direction → Position → Position
next_position north p = record p { y = down p.y }
next_position south p = record p { y = up p.y }
next_position west p = record p { x = down p.x }
next_position east p = record p { x = up p.x }
next_position southwest p = record p { x = down p.x; y = up p.y }
next_position northwest p = record p { x = down p.x; y = down p.y }
next_position northeast p = record p { x = up p.x; y = down p.y }
next_position southeast p = record p { x = up p.x; y = up p.y }

-- The offsets are signed: `x_offset < 0` is `ltb from.x to.x`, and their absolute values are distances.
unfoldable pub direction_to : Position → Position → Direction
direction_to from to =
    let x_offset = distance_x from to in
    let y_offset = distance_y from to in
    let is_east = ltb from.x to.x in
    let dir = if is_east then east else west in
    if leb to.y from.y
    then if ltb x_offset y_offset
      then north
      else if y_offset == x_offset
      then if is_east then northeast else northwest
      else dir
    else if ltb x_offset y_offset
    then south
    else if y_offset == x_offset
    then if is_east then southeast else southwest
    else dir
