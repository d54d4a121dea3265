-- ===== src/StateMessage/Component.antt =====
-- franka_semantic_components/src/franka_robot_state.cpp: the component that finds the state interface of a
-- robot and makes a message of what the pointer in it points to.
use franka_gazebo.Prelude.{
  ℕ, Bool, true, false, Option, none, some, List, [], ◌∷◌, ◌++◌, Name, codes, same, if◌then◌else◌,
}
use franka_gazebo.StateMessage.{
  Errors, FullState, FrankaState, mode_number, copy_cartesian, copy_joints, copy_elbows,
  copy_transforms, copy_inertias, copy_centers,
}

unfoldable pub errors_to_message : Errors → Errors
errors_to_message error = record {
  joint_position_limits_violation = error.joint_position_limits_violation;
  cartesian_position_limits_violation = error.cartesian_position_limits_violation;
  self_collision_avoidance_violation = error.self_collision_avoidance_violation;
  joint_velocity_violation = error.joint_velocity_violation;
  cartesian_velocity_violation = error.cartesian_velocity_violation;
  force_control_safety_violation = error.force_control_safety_violation;
  joint_reflex = error.joint_reflex;
  cartesian_reflex = error.cartesian_reflex;
  max_goal_pose_deviation_violation = error.max_goal_pose_deviation_violation;
  max_path_pose_deviation_violation = error.max_path_pose_deviation_violation;
  cartesian_velocity_profile_safety_violation = error.cartesian_velocity_profile_safety_violation;
  joint_position_motion_generator_start_pose_invalid =
      error.joint_position_motion_generator_start_pose_invalid;
  joint_motion_generator_position_limits_violation =
      error.joint_motion_generator_position_limits_violation;
  joint_motion_generator_velocity_limits_violation =
      error.joint_motion_generator_velocity_limits_violation;
  joint_motion_generator_velocity_discontinuity =
      error.joint_motion_generator_velocity_discontinuity;
  joint_motion_generator_acceleration_discontinuity =
      error.joint_motion_generator_acceleration_discontinuity;
  cartesian_position_motion_generator_start_pose_invalid =
      error.cartesian_position_motion_generator_start_pose_invalid;
  cartesian_motion_generator_elbow_limit_violation =
      error.cartesian_motion_generator_elbow_limit_violation;
  cartesian_motion_generator_velocity_limits_violation =
      error.cartesian_motion_generator_velocity_limits_violation;
  cartesian_motion_generator_velocity_discontinuity =
      error.cartesian_motion_generator_velocity_discontinuity;
  cartesian_motion_generator_acceleration_discontinuity =
      error.cartesian_motion_generator_acceleration_discontinuity;
  cartesian_motion_generator_elbow_sign_inconsistent =
      error.cartesian_motion_generator_elbow_sign_inconsistent;
  cartesian_motion_generator_start_elbow_invalid =
      error.cartesian_motion_generator_start_elbow_invalid;
  cartesian_motion_generator_joint_position_limits_violation =
      error.cartesian_motion_generator_joint_position_limits_violation;
  cartesian_motion_generator_joint_velocity_limits_violation =
      error.cartesian_motion_generator_joint_velocity_limits_violation;
  cartesian_motion_generator_joint_velocity_discontinuity =
      error.cartesian_motion_generator_joint_velocity_discontinuity;
  cartesian_motion_generator_joint_acceleration_discontinuity =
      error.cartesian_motion_generator_joint_acceleration_discontinuity;
  cartesian_position_motion_generator_invalid_frame =
      error.cartesian_position_motion_generator_invalid_frame;
  force_controller_desired_force_tolerance_violation =
      error.force_controller_desired_force_tolerance_violation;
  controller_torque_discontinuity = error.controller_torque_discontinuity;
  start_elbow_sign_inconsistent = error.start_elbow_sign_inconsistent;
  communication_constraints_violation = error.communication_constraints_violation;
  power_limit_violation = error.power_limit_violation;
  joint_p2p_insufficient_torque_for_planning = error.joint_p2p_insufficient_torque_for_planning;
  tau_j_range_violation = error.tau_j_range_violation;
  instability_detected = error.instability_detected;
  joint_move_in_wrong_direction = error.joint_move_in_wrong_direction;
}

-- A loaned state interface: its name, and the state that its value points to.
pub record StateInterface (D : Type 0) : Type 0 where
  pub interface_name : Name
  pub target : FullState D

module _ {D : Type 0} where
  -- `std::find_if` with the interface's full name.
  abbrev pub find_interface : Name → List (StateInterface D) → Option (FullState D)
  find_interface full_name [] = none
  find_interface full_name (i ∷ is) =
      if same i.interface_name full_name then some i.target else find_interface full_name is

  unfoldable pub get_robot_state_ptr :
      (robot_name : Name) → List (StateInterface D) → Option (FullState D)
  get_robot_state_ptr robot_name interfaces =
      find_interface (robot_name ++ codes "/" ++ codes "robot_state") interfaces

  -- `to_sec` is libfranka's.
  unfoldable pub get_values_as_message :
      (to_sec : ℕ → D) (robot_name : Name)
      → List (StateInterface D)
      → FrankaState D
      → FrankaState D × Bool
  unfolding errors_to_message
  get_values_as_message to_sec robot_name interfaces m =
      elim (find_interface (robot_name ++ codes "/" ++ codes "robot_state") interfaces) [
        | none ↦ (m, false)
        | some s ↦ (
          record m {
            cartesian = copy_cartesian s.cartesian m.cartesian;
            joints = copy_joints s.joints m.joints;
            elbows = copy_elbows s.elbows m.elbows;
            transforms = copy_transforms s.transforms m.transforms;
            inertias = copy_inertias s.inertias m.inertias;
            centers = copy_centers s.centers m.centers;
            masses = s.masses;
            time = to_sec s.time;
            control_command_success_rate = s.control_command_success_rate;
            current_errors = errors_to_message s.current_errors;
            last_motion_errors = errors_to_message s.last_motion_errors;
            robot_mode = mode_number s.robot_mode;
          },
          true,
        )
      ]
