-- ===== src/Prelude/Maps.antt =====
-- The maps of the program whose keys are numbers: the entries in a list, one for a key.
use Prim.Native.Nat.{ℕ}
use mathlib.Core.Path.{◌≡◌, refl}
use mathlib.Core.Option.{Option, none, some}
use mathlib.Core.List.{List, [], ◌∷◌}
use native.Mathlib.Omega.{arith}
use otxlinux.Prelude.Tests.{◌==◌, if◌then◌else◌}

pub record Entry {ℓ} (V : Type ℓ) : Type ℓ where
  pub key : ℕ
  pub value : V

abbrev pub Map {ℓ} : Type ℓ → Type ℓ
Map V = List (Entry V)

module _ {ℓ} {V : Type ℓ} where
  unfoldable pub find : Map V → ℕ → Option V
  find [] key = none
  find (e ∷ entries) key = if key == e.key then some e.value else find entries key

  unfoldable pub assign : Map V → ℕ → V → Map V
  assign [] key value = record { key = key; value = value } ∷ []
  assign (e ∷ entries) key value =
      if key == e.key then record e { value = value } ∷ entries else e ∷ assign entries key value

  unfoldable pub remove : Map V → ℕ → Map V
  remove [] key = []
  remove (e ∷ entries) key =
      let rest = remove entries key in if key == e.key then rest else e ∷ rest

  pub find-assign :
      (entries : Map V) (key other : ℕ) (value : V)
      → find (assign entries key value) other
        ≡ (if other == key then some value else find entries other)
  unfolding find assign
  find-assign [] key other value = refl
  find-assign (e ∷ entries) key other value = ground (arith, find-assign entries key other value)

  pub find-remove :
      (entries : Map V) (key other : ℕ)
      → find (remove entries key) other ≡ (if other == key then none else find entries other)
  unfolding find remove
  find-remove [] key other = ground arith
  find-remove (e ∷ entries) key other = ground (arith, find-remove entries key other)
