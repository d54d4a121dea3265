-- ===== src/Common/Double.antt =====
-- What the sources of the hardware interfaces do with a `double`: the constant 0 and `std::isfinite`.
-- Both are the language's; the law is that 0 is finite.
use franka_gazebo.Prelude.{ℕ, Bool, true, false, ◌≡◌, refl, Option, none, some}

pub record Double (D : Type 0) : Type 0 where
  pub nought : D
  pub is_finite : D → Bool
  pub nought_finite : is_finite nought ≡ true

-- Natural numbers with one value that is not finite, for tests.
abbrev pub Sample : Type 0
Sample = Option ℕ

abbrev is_number : Sample → Bool
is_number none = false
is_number (some n) = true

instance abbrev pub sample_double : Double Sample
sample_double = record { nought = some 0; is_finite = is_number; nought_finite = refl }
