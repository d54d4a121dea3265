-- ===== src/Garmi/Base.antt =====
-- garmi_controllers/src/mobile_base_controller.cpp and include/garmi_controllers/mobile_base_controller.hpp:
-- the controller of the two wheels. `BaseState` is `State`; the efforts in it are not used.
pub mod Wheels
use franka_gazebo.Prelude.{Bool, List, [], ◌∷◌, if◌then◌else◌}
use franka_gazebo.Garmi.{Real, larger, smaller}

-- The two entries of each array.
pub record BaseState (D : Type 0) : Type 0 where
  pub theta_left : D
  pub theta_right : D
  pub target_left : D
  pub target_right : D

module _ {D : Type 0} (r : Real D) where
  unfoldable pub driving_velocity_to_dq : (linear_velocity angular_velocity : D) → D
  driving_velocity_to_dq linear_velocity angular_velocity =
      r.over (r.plus linear_velocity (r.over (r.times angular_velocity r.separation) r.two))
        r.radius

  abbrev pub dq_norm : (dq_left dq_right : D) → D
  dq_norm dq_left dq_right = larger r (r.absolute dq_left) (r.absolute dq_right)

  -- The velocity of a wheel with the common factor.
  abbrev pub scaled_dq : (norm dq : D) → D
  scaled_dq norm dq =
      if r.equal norm r.nought
      then r.nought
      else r.times (r.over dq norm) (smaller r r.max_speed norm)

  unfoldable pub set_velocity_with_xz_twist :
      (is_sim : Bool) (linear_velocity angular_velocity : D) → BaseState D → BaseState D
  unfolding driving_velocity_to_dq
  set_velocity_with_xz_twist is_sim v w s =
      let left = driving_velocity_to_dq v (r.negated w) in
      let right = driving_velocity_to_dq v w in
      let norm = dq_norm left right in
      record s {
        target_left = scaled_dq norm left;
        target_right = if is_sim then scaled_dq norm right else r.negated (scaled_dq norm right);
      }

module _ {D : Type 0} where
  -- `position1` and `position3` are the values of these state interfaces; the result has the commands.
  unfoldable pub update_base : (position1 position3 : D) → BaseState D → BaseState D × D × D
  update_base position1 position3 s =
      (record s { theta_left = position1; theta_right = position3 }, s.target_left, s.target_right)

  -- The commands of a sequence of cycles.
  unfoldable pub base_commands : List (D × D) → BaseState D → List (D × D)
  unfolding update_base
  base_commands [] s = []
  base_commands ((a, b) ∷ rest) s =
      let (k, left, right) = update_base a b s in (left, right) ∷ base_commands rest k
