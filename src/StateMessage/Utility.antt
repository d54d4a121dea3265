-- ===== src/StateMessage/Utility.antt =====
-- multi_mode_controller/include/multi_mode_controller/utils/get_robot_state_msg.h in
-- franka_multi_mode_controller: a function that makes a message of a state.
use franka_gazebo.Prelude.{ℕ, false, replicate}
use franka_gazebo.StateMessage.{
  Errors, FullState, FrankaState, mode_number, copy_cartesian, copy_joints, copy_elbows,
  copy_transforms, copy_inertias, copy_centers,
}

unfoldable pub errors_to_message : Errors → Errors
errors_to_message error = record {
  joint_position_limits_violation = error.joint_position_limits_violation;
  cartesian_position_limits_violation = error.cartesian_position_limits_violation;
  self_collision_avoidance_violation = error.self_collision_avoidance_violation;
  joint_velocity_violation = error.joint_velocity_violation;
  cartesian_velocity_violation = error.cartesian_velocity_violation;
  force_control_safety_violation = error.force_control_safety_violation;
  joint_reflex = error.joint_reflex;
  cartesian_reflex = error.cartesian_reflex;
  max_goal_pose_deviation_violation = error.max_goal_pose_deviation_violation;
  max_path_pose_deviation_violation = error.max_path_pose_deviation_violation;
  cartesian_velocity_profile_safety_violation = error.cartesian_velocity_profile_safety_violation;
  joint_position_motion_generator_start_pose_invalid =
      error.joint_position_motion_generator_start_pose_invalid;
  joint_motion_generator_position_limits_violation =
      error.joint_motion_generator_position_limits_violation;
  joint_motion_generator_velocity_limits_violation =
      error.joint_motion_generator_velocity_limits_violation;
  joint_motion_generator_velocity_discontinuity =
      error.joint_motion_generator_velocity_discontinuity;
  joint_motion_generator_acceleration_discontinuity =
      error.joint_motion_generator_acceleration_discontinuity;
  cartesian_position_motion_generator_start_pose_invalid =
      error.cartesian_position_motion_generator_start_pose_invalid;
  cartesian_motion_generator_elbow_limit_violation =
      error.cartesian_motion_generator_elbow_limit_violation;
  cartesian_motion_generator_velocity_limits_violation =
      error.cartesian_motion_generator_velocity_limits_violation;
  cartesian_motion_generator_velocity_discontinuity =
      error.cartesian_motion_generator_velocity_discontinuity;
  cartesian_motion_generator_acceleration_discontinuity =
      error.cartesian_motion_generator_acceleration_discontinuity;
  cartesian_motion_generator_elbow_sign_inconsistent =
      error.cartesian_motion_generator_elbow_sign_inconsistent;
  cartesian_motion_generator_start_elbow_invalid =
      error.cartesian_motion_generator_start_elbow_invalid;
  cartesian_motion_generator_joint_position_limits_violation =
      error.cartesian_motion_generator_joint_position_limits_violation;
  cartesian_motion_generator_joint_velocity_limits_violation =
      error.cartesian_motion_generator_joint_velocity_limits_violation;
  cartesian_motion_generator_joint_velocity_discontinuity =
      error.cartesian_motion_generator_joint_velocity_discontinuity;
  cartesian_motion_generator_joint_acceleration_discontinuity =
      error.cartesian_motion_generator_joint_acceleration_discontinuity;
  cartesian_position_motion_generator_invalid_frame =
      error.cartesian_position_motion_generator_invalid_frame;
  force_controller_desired_force_tolerance_violation =
      error.force_controller_desired_force_tolerance_violation;
  controller_torque_discontinuity = error.controller_torque_discontinuity;
  start_elbow_sign_inconsistent = error.start_elbow_sign_inconsistent;
  communication_constraints_violation = error.communication_constraints_violation;
  power_limit_violation = error.power_limit_violation;
  joint_p2p_insufficient_torque_for_planning = error.joint_p2p_insufficient_torque_for_planning;
  tau_j_range_violation = error.tau_j_range_violation;
  instability_detected = error.instability_detected;
  joint_move_in_wrong_direction = error.joint_move_in_wrong_direction;
}

-- A new message: its members are 0 and false.
abbrev pub no_errors : Errors
no_errors = record {
  joint_position_limits_violation = false;
  cartesian_position_limits_violation = false;
  self_collision_avoidance_violation = false;
  joint_velocity_violation = false;
  cartesian_velocity_violation = false;
  force_control_safety_violation = false;
  joint_reflex = false;
  cartesian_reflex = false;
  max_goal_pose_deviation_violation = false;
  max_path_pose_deviation_violation = false;
  cartesian_velocity_profile_safety_violation = false;
  joint_position_motion_generator_start_pose_invalid = false;
  joint_motion_generator_position_limits_violation = false;
  joint_motion_generator_velocity_limits_violation = false;
  joint_motion_generator_velocity_discontinuity = false;
  joint_motion_generator_acceleration_discontinuity = false;
  cartesian_position_motion_generator_start_pose_invalid = false;
  cartesian_motion_generator_elbow_limit_violation = false;
  cartesian_motion_generator_velocity_limits_violation = false;
  cartesian_motion_generator_velocity_discontinuity = false;
  cartesian_motion_generator_acceleration_discontinuity = false;
  cartesian_motion_generator_elbow_sign_inconsistent = false;
  cartesian_motion_generator_start_elbow_invalid = false;
  cartesian_motion_generator_joint_position_limits_violation = false;
  cartesian_motion_generator_joint_velocity_limits_violation = false;
  cartesian_motion_generator_joint_velocity_discontinuity = false;
  cartesian_motion_generator_joint_acceleration_discontinuity = false;
  cartesian_position_motion_generator_invalid_frame = false;
  force_controller_desired_force_tolerance_violation = false;
  controller_torque_discontinuity = false;
  start_elbow_sign_inconsistent = false;
  communication_constraints_violation = false;
  power_limit_violation = false;
  joint_p2p_insufficient_torque_for_planning = false;
  tau_j_range_violation = false;
  instability_detected = false;
  joint_move_in_wrong_direction = false;
}

abbrev pub new_message : {D : Type 0} → D → FrankaState D
new_message o = record {
  cartesian = record {
    cartesian_collision = replicate 6 o;
    cartesian_contact = replicate 6 o;
    k_f_ext_hat_k = replicate 6 o;
    o_f_ext_hat_k = replicate 6 o;
    o_dp_ee_d = replicate 6 o;
    o_dp_ee_c = replicate 6 o;
    o_ddp_ee_c = replicate 6 o;
  };
  joints = record {
    q = replicate 7 o;
    q_d = replicate 7 o;
    dq = replicate 7 o;
    dq_d = replicate 7 o;
    ddq_d = replicate 7 o;
    tau_j = replicate 7 o;
    dtau_j = replicate 7 o;
    tau_j_d = replicate 7 o;
    theta = replicate 7 o;
    dtheta = replicate 7 o;
    joint_collision = replicate 7 o;
    joint_contact = replicate 7 o;
    tau_ext_hat_filtered = replicate 7 o;
  };
  elbows = record {
    elbow = replicate 2 o;
    elbow_d = replicate 2 o;
    elbow_c = replicate 2 o;
    delbow_c = replicate 2 o;
    ddelbow_c = replicate 2 o;
  };
  transforms = record {
    o_t_ee = replicate 16 o;
    f_t_ee = replicate 16 o;
    f_t_ne = replicate 16 o;
    ne_t_ee = replicate 16 o;
    ee_t_k = replicate 16 o;
    o_t_ee_d = replicate 16 o;
    o_t_ee_c = replicate 16 o;
  };
  inertias = record { i_ee = replicate 9 o; i_load = replicate 9 o; i_total = replicate 9 o };
  centers = record {
    f_x_cee = replicate 3 o;
    f_x_cload = replicate 3 o;
    f_x_ctotal = replicate 3 o;
  };
  masses = record { m_ee = o; m_load = o; m_total = o };
  time = o;
  control_command_success_rate = o;
  current_errors = no_errors;
  last_motion_errors = no_errors;
  robot_mode = 0;
}

module _ {D : Type 0} where
  unfoldable pub get_robot_state_msg : (nought : D) (to_sec : ℕ → D) → FullState D → FrankaState D
  unfolding errors_to_message
  get_robot_state_msg nought to_sec s =
      let m : FrankaState D = new_message nought in
      record m {
        cartesian = copy_cartesian s.cartesian m.cartesian;
        joints = copy_joints s.joints m.joints;
        elbows = copy_elbows s.elbows m.elbows;
        transforms = copy_transforms s.transforms m.transforms;
        inertias = copy_inertias s.inertias m.inertias;
        centers = copy_centers s.centers m.centers;
        masses = s.masses;
        time = to_sec s.time;
        control_command_success_rate = s.control_command_success_rate;
        current_errors = errors_to_message s.current_errors;
        last_motion_errors = errors_to_message s.last_motion_errors;
        robot_mode = mode_number s.robot_mode;
      }
