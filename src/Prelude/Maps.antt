-- ===== src/Prelude/Maps.antt =====
-- `std::map` with names as keys: an association list in the order of the keys.
use mathlib.Core.Bool.{Bool, true, false, ◌&&◌, ◌||◌}
use mathlib.Core.List.{List, [], ◌∷◌}
use mathlib.Core.Option.{Option, none, some}
use franka_gazebo.Prelude.Tests.{◌==◌, ltb, if◌then◌else◌}
use franka_gazebo.Prelude.Text.{Name, same}

abbrev pub Map {ℓ} : Type ℓ → Type ℓ
Map V = List (Name × V)

-- `<` of two strings.
abbrev pub before : Name → Name → Bool
before [] [] = false
before [] (d ∷ t) = true
before (c ∷ s) [] = false
before (c ∷ s) (d ∷ t) = ltb c d || (c == d && before s t)

module _ {ℓ} {V : Type ℓ} where
  -- `m.find(k)`, and `m.at(k)`, which throws where this is `none`.
  abbrev pub find : Name → Map V → Option V
  find k [] = none
  find k ((j, v) ∷ m) = if same j k then some v else find k m

  -- `m[k] = v`: the entry is replaced, or put in its place in the order.
  abbrev pub assign : Name → V → Map V → Map V
  assign k v [] = (k, v) ∷ []
  assign k v ((j, w) ∷ m) =
      if same j k
      then (k, v) ∷ m
      else if before k j
      then (k, v) ∷ (j, w) ∷ m
      else (j, w) ∷ assign k v m
