-- ===== src/Position/Examples.antt =====
-- The theorems on positions at concrete inputs.
use otxlinux.Prelude.{◌+◌, ◌≡◌, refl, inl, true, arith}
use otxlinux.Position.{Position, less, greater, next_position, direction_to}
use otxlinux.Position.Steps.{reach, next_position-direction_to}

abbrev temple : Position
temple = record { x = 1000; y = 1000; z = 7 }

abbrev depot : Position
depot = record { x = 1005; y = 990; z = 7 }

abbrev cave : Position
cave = record { x = 1005; y = 990; z = 8 }

-- `operator>` holds of a position and itself.
greater_itself : greater cave cave ≡ true
unfolding greater less
greater_itself = refl

next_position-direction_to_example :
    reach (next_position (direction_to temple depot) temple) depot + 1 ≡ reach temple depot
next_position-direction_to_example =
    next_position-direction_to temple depot (omega arith) (omega arith) (omega arith) (omega arith)
      (inl (λ e. omega arith))
