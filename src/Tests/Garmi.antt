-- ===== src/Tests/Garmi.antt =====
-- A head and a base that compute with natural numbers and one value that is no number.
use franka_gazebo.Prelude.{
  ℕ, ◌+◌, ◌-◌, ◌≡◌, refl, Bool, false, Option, none, some, [], ◌∷◌, ltb, ◌==◌, inr,
}
use franka_gazebo.Garmi.{Real}
use franka_gazebo.Garmi.Head.{
  HeadJoint, HeadController, update_head, command_listener_head, started, told,
}
use franka_gazebo.Garmi.Head.Limits.{IsLimited, HasLimitedGoals, HeadReach-IsLimited}
use franka_gazebo.Garmi.Base.{BaseState, set_velocity_with_xz_twist, base_commands}
use franka_gazebo.Tests.{nil}

-- Numbers around 100, which stands for 0.
abbrev lift : (ℕ → ℕ → ℕ) → Option ℕ → Option ℕ → Option ℕ
lift f (some a) (some b) = some (f a b)
lift f none b = none
lift f a none = none

abbrev compare_with : (ℕ → ℕ → Bool) → Option ℕ → Option ℕ → Bool
compare_with f (some a) (some b) = f a b
compare_with f none b = false
compare_with f a none = false

abbrev mirrored : Option ℕ → Option ℕ
mirrored (some a) = some (200 - a)
mirrored none = none

abbrev sample : Real (Option ℕ)
sample = record {
  nought = some 100;
  one = some 101;
  two = some 102;
  less = compare_with ltb;
  equal = compare_with (λ a b. a == b);
  plus = lift (λ a b. a + b - 100);
  minus = lift (λ a b. a + 100 - b);
  times = lift (λ a b. a + b - 100);
  over = λ a b. none;
  negated = mirrored;
  absolute = λ a. a;
  head_force = some 115;
  pan_limit = some 106;
  tilt_limit = some 102;
  rate = some 101;
  max_speed = some 103;
  separation = some 101;
  radius = some 101;
}

abbrev resting : HeadJoint (Option ℕ)
resting = record {
  theta_goal = some 100;
  theta_d = some 100;
  theta_curr = some 100;
  theta_prev = some 100;
}

abbrev head : HeadController (Option ℕ)
head = record {
  k_p = some 102;
  k_p_target = some 102;
  k_d = some 101;
  k_d_target = some 101;
  pt1_filter = some 101;
  pt1_filter_target = some 101;
  pan = resting;
  tilt = resting;
}

head-HasLimitedGoals : HasLimitedGoals sample head
head-HasLimitedGoals = record { pan_goal = inr (refl, inr refl); tilt_goal = inr (refl, inr refl) }

-- The head after a message.
abbrev turned_head : HeadController (Option ℕ)
turned_head = record head {
  pan = record resting { theta_goal = some 94 };
  tilt = record resting { theta_goal = some 101 };
}

is_told : command_listener_head sample (some 20 ∷ some 101 ∷ []) head ≡ some turned_head
unfolding command_listener_head
is_told = refl

-- A division gives no number here, and the torque is the least one.
torques :
    ((update_head sample none (some 90) (some 110) turned_head).1 ≡ some 85)
    × ((update_head sample none (some 90) (some 110) turned_head).2 ≡ some 85)
unfolding update_head
torques = (refl, refl)

HeadReach-IsLimited_example :
    HasLimitedGoals sample turned_head
    × IsLimited sample (some 115) (update_head sample none (some 90) (some 110) turned_head).1
    × IsLimited sample (some 115) (update_head sample none (some 90) (some 110) turned_head).2
HeadReach-IsLimited_example =
    HeadReach-IsLimited sample head turned_head none (some 90) (some 110) head-HasLimitedGoals
      (told (some 20 ∷ some 101 ∷ []) started is_told)

abbrev standing : BaseState (Option ℕ)
standing = record { theta_left = nil; theta_right = nil; target_left = nil; target_right = nil }

-- Two cycles after a twist.
driven :
    base_commands
      ((some 3, some 4) ∷ (some 5, some 6) ∷ [])
      (set_velocity_with_xz_twist sample false (some 105) (some 101) standing)
    ≡ (none, none) ∷ (none, none) ∷ []
unfolding base_commands set_velocity_with_xz_twist
driven = refl
