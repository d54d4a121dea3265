-- ===== src/StateMessage.antt =====
-- The message that describes a robot's state. The fields that libfranka's state and the message share stand
-- in records, one for each loop of the sources; a field's name is the message's, which is the state's
-- without capitals. Each array has its own loop here. Arrays have the sizes that static assertions check.
pub mod Component
pub mod Utility
pub mod Copies
pub mod Agreement
use franka_gazebo.Prelude.{
  ℕ, zero, suc, ◌+◌, Bool, Option, none, some, List, [], ◌∷◌, set, get_elem?,
}

-- `franka::Errors` and `franka_msgs::msg::Errors`, which have flags of the same names.
pub record Errors : Type 0 where
  pub joint_position_limits_violation : Bool
  pub cartesian_position_limits_violation : Bool
  pub self_collision_avoidance_violation : Bool
  pub joint_velocity_violation : Bool
  pub cartesian_velocity_violation : Bool
  pub force_control_safety_violation : Bool
  pub joint_reflex : Bool
  pub cartesian_reflex : Bool
  pub max_goal_pose_deviation_violation : Bool
  pub max_path_pose_deviation_violation : Bool
  pub cartesian_velocity_profile_safety_violation : Bool
  pub joint_position_motion_generator_start_pose_invalid : Bool
  pub joint_motion_generator_position_limits_violation : Bool
  pub joint_motion_generator_velocity_limits_violation : Bool
  pub joint_motion_generator_velocity_discontinuity : Bool
  pub joint_motion_generator_acceleration_discontinuity : Bool
  pub cartesian_position_motion_generator_start_pose_invalid : Bool
  pub cartesian_motion_generator_elbow_limit_violation : Bool
  pub cartesian_motion_generator_velocity_limits_violation : Bool
  pub cartesian_motion_generator_velocity_discontinuity : Bool
  pub cartesian_motion_generator_acceleration_discontinuity : Bool
  pub cartesian_motion_generator_elbow_sign_inconsistent : Bool
  pub cartesian_motion_generator_start_elbow_invalid : Bool
  pub cartesian_motion_generator_joint_position_limits_violation : Bool
  pub cartesian_motion_generator_joint_velocity_limits_violation : Bool
  pub cartesian_motion_generator_joint_velocity_discontinuity : Bool
  pub cartesian_motion_generator_joint_acceleration_discontinuity : Bool
  pub cartesian_position_motion_generator_invalid_frame : Bool
  pub force_controller_desired_force_tolerance_violation : Bool
  pub controller_torque_discontinuity : Bool
  pub start_elbow_sign_inconsistent : Bool
  pub communication_constraints_violation : Bool
  pub power_limit_violation : Bool
  pub joint_p2p_insufficient_torque_for_planning : Bool
  pub tau_j_range_violation : Bool
  pub instability_detected : Bool
  pub joint_move_in_wrong_direction : Bool

pub record Cartesian (D : Type 0) : Type 0 where
  pub cartesian_collision : List D
  pub cartesian_contact : List D
  pub k_f_ext_hat_k : List D
  pub o_f_ext_hat_k : List D
  pub o_dp_ee_d : List D
  pub o_dp_ee_c : List D
  pub o_ddp_ee_c : List D

pub record Joints (D : Type 0) : Type 0 where
  pub q : List D
  pub q_d : List D
  pub dq : List D
  pub dq_d : List D
  pub ddq_d : List D
  pub tau_j : List D
  pub dtau_j : List D
  pub tau_j_d : List D
  pub theta : List D
  pub dtheta : List D
  pub joint_collision : List D
  pub joint_contact : List D
  pub tau_ext_hat_filtered : List D

pub record Elbows (D : Type 0) : Type 0 where
  pub elbow : List D
  pub elbow_d : List D
  pub elbow_c : List D
  pub delbow_c : List D
  pub ddelbow_c : List D

pub record Transforms (D : Type 0) : Type 0 where
  pub o_t_ee : List D
  pub f_t_ee : List D
  pub f_t_ne : List D
  pub ne_t_ee : List D
  pub ee_t_k : List D
  pub o_t_ee_d : List D
  pub o_t_ee_c : List D

pub record Inertias (D : Type 0) : Type 0 where
  pub i_ee : List D
  pub i_load : List D
  pub i_total : List D

pub record Centers (D : Type 0) : Type 0 where
  pub f_x_cee : List D
  pub f_x_cload : List D
  pub f_x_ctotal : List D

pub record Masses (D : Type 0) : Type 0 where
  pub m_ee : D
  pub m_load : D
  pub m_total : D

pub data RobotMode : Type 0 where
  mode_other mode_idle mode_move mode_guiding mode_reflex mode_user_stopped : RobotMode
  mode_automatic_error_recovery : RobotMode

-- `franka::RobotState`; `time` counts milliseconds.
pub record FullState (D : Type 0) : Type 0 where
  pub cartesian : Cartesian D
  pub joints : Joints D
  pub elbows : Elbows D
  pub transforms : Transforms D
  pub inertias : Inertias D
  pub centers : Centers D
  pub masses : Masses D
  pub time : ℕ
  pub control_command_success_rate : D
  pub current_errors : Errors
  pub last_motion_errors : Errors
  pub robot_mode : RobotMode

-- `franka_msgs::msg::FrankaState`.
pub record FrankaState (D : Type 0) : Type 0 where
  pub cartesian : Cartesian D
  pub joints : Joints D
  pub elbows : Elbows D
  pub transforms : Transforms D
  pub inertias : Inertias D
  pub centers : Centers D
  pub masses : Masses D
  pub time : D
  pub control_command_success_rate : D
  pub current_errors : Errors
  pub last_motion_errors : Errors
  pub robot_mode : ℕ

-- `ROBOT_MODE_OTHER` and its like, which FrankaState.msg of franka_msgs numbers.
abbrev pub mode_number : RobotMode → ℕ
mode_number mode_other = 0
mode_number mode_idle = 1
mode_number mode_move = 2
mode_number mode_guiding = 3
mode_number mode_reflex = 4
mode_number mode_user_stopped = 5
mode_number mode_automatic_error_recovery = 6

module _ {D : Type 0} where
  -- The loop over the indices from `i` on, with `left` rounds to go. The entries are all there.
  abbrev pub copy_from : (left i : ℕ) (source target : List D) → List D
  copy_from zero i source target = target
  copy_from (suc left) i source target = elim (get_elem? source i) [
    | none ↦ target
    | some x ↦ copy_from left (i + 1) source (set target i x)
  ]

  abbrev pub copied : (size : ℕ) (source target : List D) → List D
  copied size source target = copy_from size 0 source target

  abbrev pub copy_cartesian : (source target : Cartesian D) → Cartesian D
  copy_cartesian s t = record {
    cartesian_collision = copied 6 s.cartesian_collision t.cartesian_collision;
    cartesian_contact = copied 6 s.cartesian_contact t.cartesian_contact;
    k_f_ext_hat_k = copied 6 s.k_f_ext_hat_k t.k_f_ext_hat_k;
    o_f_ext_hat_k = copied 6 s.o_f_ext_hat_k t.o_f_ext_hat_k;
    o_dp_ee_d = copied 6 s.o_dp_ee_d t.o_dp_ee_d;
    o_dp_ee_c = copied 6 s.o_dp_ee_c t.o_dp_ee_c;
    o_ddp_ee_c = copied 6 s.o_ddp_ee_c t.o_ddp_ee_c;
  }

  abbrev pub copy_joints : (source target : Joints D) → Joints D
  copy_joints s t = record {
    q = copied 7 s.q t.q;
    q_d = copied 7 s.q_d t.q_d;
    dq = copied 7 s.dq t.dq;
    dq_d = copied 7 s.dq_d t.dq_d;
    ddq_d = copied 7 s.ddq_d t.ddq_d;
    tau_j = copied 7 s.tau_j t.tau_j;
    dtau_j = copied 7 s.dtau_j t.dtau_j;
    tau_j_d = copied 7 s.tau_j_d t.tau_j_d;
    theta = copied 7 s.theta t.theta;
    dtheta = copied 7 s.dtheta t.dtheta;
    joint_collision = copied 7 s.joint_collision t.joint_collision;
    joint_contact = copied 7 s.joint_contact t.joint_contact;
    tau_ext_hat_filtered = copied 7 s.tau_ext_hat_filtered t.tau_ext_hat_filtered;
  }

  abbrev pub copy_elbows : (source target : Elbows D) → Elbows D
  copy_elbows s t = record {
    elbow = copied 2 s.elbow t.elbow;
    elbow_d = copied 2 s.elbow_d t.elbow_d;
    elbow_c = copied 2 s.elbow_c t.elbow_c;
    delbow_c = copied 2 s.delbow_c t.delbow_c;
    ddelbow_c = copied 2 s.ddelbow_c t.ddelbow_c;
  }

  abbrev pub copy_transforms : (source target : Transforms D) → Transforms D
  copy_transforms s t = record {
    o_t_ee = copied 16 s.o_t_ee t.o_t_ee;
    f_t_ee = copied 16 s.f_t_ee t.f_t_ee;
    f_t_ne = copied 16 s.f_t_ne t.f_t_ne;
    ne_t_ee = copied 16 s.ne_t_ee t.ne_t_ee;
    ee_t_k = copied 16 s.ee_t_k t.ee_t_k;
    o_t_ee_d = copied 16 s.o_t_ee_d t.o_t_ee_d;
    o_t_ee_c = copied 16 s.o_t_ee_c t.o_t_ee_c;
  }

  abbrev pub copy_inertias : (source target : Inertias D) → Inertias D
  copy_inertias s t = record {
    i_ee = copied 9 s.i_ee t.i_ee;
    i_load = copied 9 s.i_load t.i_load;
    i_total = copied 9 s.i_total t.i_total;
  }

  abbrev pub copy_centers : (source target : Centers D) → Centers D
  copy_centers s t = record {
    f_x_cee = copied 3 s.f_x_cee t.f_x_cee;
    f_x_cload = copied 3 s.f_x_cload t.f_x_cload;
    f_x_ctotal = copied 3 s.f_x_ctotal t.f_x_ctotal;
  }
