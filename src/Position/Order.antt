-- ===== src/Position/Order.antt =====
-- src/position.h, operator<: the order of positions.
use otxlinux.Prelude.{◌+◌, ◌-◌, ◌^◌, u8, u16, ◌<◌, ◌≡◌, true, false, arith}
use otxlinux.Position.{Position, less, equal, minus, plus}

-- What stands before a position that is before a third is before the third.
pub less_trans : (a b c : Position) → less a b ≡ true → less b c ≡ true → less a c ≡ true
unfolding less
less_trans a b c h k = ground arith

-- Two positions of which neither is before the other are equal.
pub less_total : (a b : Position) → less a b ≡ false → less b a ≡ false → equal a b ≡ true
unfolding less equal
less_total a b h k = ground arith

-- For coordinates that fit their types, taking away a position that was added gives the first one
-- back, also where the sum wraps around.
pub minus-plus :
    (a b : Position)
    → a.x < 2 ^ 16
    → a.y < 2 ^ 16
    → a.z < 2 ^ 8
    → b.x < 2 ^ 16
    → b.y < 2 ^ 16
    → b.z < 2 ^ 8
    → minus (plus a b) b ≡ a
unfolding minus plus
minus-plus a b ax ay az bx by bz =
    let x : u16 (u16 (a.x + b.x) + (2 ^ 16 - b.x)) ≡ a.x = omega arith in
    let y : u16 (u16 (a.y + b.y) + (2 ^ 16 - b.y)) ≡ a.y = omega arith in
    let z : u8 (u8 (a.z + b.z) + (2 ^ 8 - b.z)) ≡ a.z = omega arith in rw (x, y, z)
