-- ===== src/Hardware.antt =====
-- franka_hardware/src/real/franka_multi_hardware_interface.cpp: the ros2_control system of several real
-- arms. `arms_` is a map from the name of an arm to its container; the entry of an arm in
-- `model_pointers_` is the field `has_model` (the pointer is not null).
pub mod Loop
pub mod Prepare
pub mod Perform
pub mod Cycle
pub mod Delivery
pub mod Init
pub mod Export
use franka_gazebo.Prelude.{Bool, List, Name, Map}
use franka_gazebo.Common.ControlMode.{ControlMode}
use franka_gazebo.Robot.{Robot, RobotState}

pub record ArmContainer (D : Type 0) : Type 0 where
  pub robot_ip : Name
  pub robot_name : Name
  pub robot : Robot D
  pub hw_commands_joint_effort : List D
  pub hw_commands_joint_position : List D
  pub hw_commands_joint_velocity : List D
  pub hw_commands_cartesian_position : List D
  pub hw_commands_cartesian_velocity : List D
  pub control_mode : ControlMode
  pub hw_positions : List D
  pub hw_velocities : List D
  pub hw_efforts : List D
  pub hw_cartesian_positions : List D
  pub hw_cartesian_velocities : List D
  pub hw_franka_robot_state : RobotState D
  pub switch_cm : Bool
  pub has_model : Bool

abbrev pub Arms : Type 0 → Type 0
Arms D = Map (ArmContainer D)
