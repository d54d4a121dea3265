-- ===== src/Tests.antt =====
-- Concrete arms, controllers and requests, on which the theorems about franka_hardware and
-- franka_multi_mode_controller are tried.
pub mod Texts
pub mod Robots
pub mod Switching
pub mod Cycles
pub mod Exports
pub mod Simulated
pub mod Grippers
pub mod Controllers
pub mod Setups
pub mod Bases
pub mod Fingers
pub mod Motions
pub mod Engines
pub mod Garmi
pub mod States
pub mod Params
pub mod Data
use franka_gazebo.Prelude.{
  ℕ, Bool, true, false, some, List, [], ◌∷◌, ◌++◌, Name, codes, map, replicate,
}
use franka_gazebo.Common.ControlMode.{ControlMode, idle}
use franka_gazebo.Common.Double.{Sample}
use franka_gazebo.Robot.{Robot, RobotState, Thread, absent}
use franka_gazebo.Hardware.{ArmContainer, Arms}

abbrev pub nil : Sample
nil = some 0

abbrev pub rest : RobotState Sample
rest = record {
  q = replicate 7 (some 1);
  dq = replicate 7 nil;
  tau_j = replicate 7 (some 2);
  o_t_ee = replicate 16 nil;
  o_t_ee_d = replicate 16 nil;
  is_reflex = false;
}

-- A robot with its thread, the flags `stopped_` and `has_error_`, and commands of 0.
abbrev pub robot_with : Thread → (stopped has_error : Bool) → Robot Sample
robot_with t stopped has_error = record {
  control_thread = t;
  finish = false;
  stopped = stopped;
  has_error = has_error;
  init_params_set = true;
  current_state = rest;
  control_mode = idle;
  tau_command = replicate 7 nil;
  joint_position_command = replicate 7 nil;
  joint_velocity_command = replicate 7 nil;
  cartesian_position_command = replicate 16 nil;
  cartesian_velocity_command = replicate 6 nil;
}

abbrev pub idle_robot : Robot Sample
idle_robot = robot_with absent true false

abbrev pub arm_with : Name → Robot Sample → ControlMode → Bool → ArmContainer Sample
arm_with name r m marked = record {
  robot_ip = codes "10.0.0.1";
  robot_name = name;
  robot = r;
  hw_commands_joint_effort = replicate 7 (some 3);
  hw_commands_joint_position = replicate 7 (some 4);
  hw_commands_joint_velocity = replicate 7 (some 5);
  hw_commands_cartesian_position = replicate 16 nil;
  hw_commands_cartesian_velocity = replicate 6 nil;
  control_mode = m;
  hw_positions = replicate 7 nil;
  hw_velocities = replicate 7 nil;
  hw_efforts = replicate 7 nil;
  hw_cartesian_positions = replicate 16 nil;
  hw_cartesian_velocities = replicate 16 nil;
  hw_franka_robot_state = rest;
  switch_cm = marked;
  has_model = true;
}

-- The seven interfaces of a kind of an arm.
abbrev pub seven : Name → Name → List Name
seven arm kind =
    map (λ (j : Name). arm ++ codes "_joint" ++ j ++ codes "/" ++ kind)
      (codes "1" ∷ codes "2" ∷ codes "3" ∷ codes "4" ∷ codes "5" ∷ codes "6" ∷ codes "7" ∷ [])
