-- ===== src/Garmi/Base/Wheels.antt =====
-- What mobile_base_controller.cpp sends to the wheels.
use franka_gazebo.Prelude.{◌≡◌, refl, Bool, List, [], ◌∷◌, if◌then◌else◌, All}
use franka_gazebo.Garmi.{Real}
use franka_gazebo.Garmi.Base.{
  BaseState, driving_velocity_to_dq, dq_norm, scaled_dq, set_velocity_with_xz_twist, base_commands,
}

module _ {D : Type 0} where
  base_commands-targets :
      (ps : List (D × D)) (s : BaseState D)
      → All (λ c. c ≡ (s.target_left, s.target_right)) (base_commands ps s)
  unfolding base_commands
  base_commands-targets [] s = tt
  base_commands-targets ((a, b) ∷ ps) s =
      (refl, base_commands-targets ps (record s { theta_left = a; theta_right = b }))

module _ {D : Type 0} (r : Real D) where
  -- The velocities that a twist asks of the wheels of the simulated robot.
  abbrev pub wheels : (v w : D) → D × D
  wheels v w =
      let left = driving_velocity_to_dq r v (r.negated w) in
      let right = driving_velocity_to_dq r v w in
      (scaled_dq r (dq_norm r left right) left, scaled_dq r (dq_norm r left right) right)

  -- On the real robot the right wheel turns the other way.
  abbrev pub mounted : (is_sim : Bool) → D × D → D × D
  mounted is_sim (left, right) = (left, if is_sim then right else r.negated right)

  -- After a twist every cycle sends the velocities that the twist asks for, with the right one negated on the
  -- real robot: in any number of cycles, until another twist comes, however long that takes.
  pub base_commands-set_velocity_with_xz_twist :
      (is_sim : Bool) (v w : D) (ps : List (D × D)) (s : BaseState D)
      → All
          (λ c. c ≡ mounted is_sim (wheels v w))
          (base_commands ps (set_velocity_with_xz_twist r is_sim v w s))
  unfolding set_velocity_with_xz_twist
  base_commands-set_velocity_with_xz_twist is_sim v w ps s =
      base_commands-targets ps (set_velocity_with_xz_twist r is_sim v w s)
