-- ===== src/Simulation.antt =====
-- franka_hardware/src/sim/franka_mj_hardware_system.cpp: the ros2_control system of several simulated
-- arms. The entry of an arm in `model_pointers_` is the field `has_model`; its entry in
-- `gripper_states_ptrs_`, which the gripper's server shares, is `gripper`. The members of `RobotSim` that
-- the system uses are fields here: the actuators of the joints, and those of the gripper.
pub mod Engine
pub mod Prepare
pub mod Cycle
pub mod Init
pub mod Delivery
pub mod RobotSim
pub mod ModelSim
pub mod Export
use franka_gazebo.Prelude.{ℕ, Bool, List, Name, Map}
use franka_gazebo.Common.ControlMode.{ControlMode}
use franka_gazebo.Robot.{RobotState}

-- The entries of one joint in `act_trq_indices_`, `act_pos_indices_` and `act_vel_indices_`.
pub record Actuators : Type 0 where
  pub trq : ℕ
  pub pos : ℕ
  pub vel : ℕ

-- `gripper_states_ptrs_`: command, width and force.
pub record GripperStates (D : Type 0) : Type 0 where
  pub cmd : D
  pub width : D
  pub force : D

pub record SimArm (D : Type 0) : Type 0 where
  pub robot_name : Name
  pub joints : List Actuators
  pub has_gripper : Bool
  pub gripper_act_idx : ℕ
  pub gripper_qpos_idx : ℕ
  pub gripper : GripperStates D
  pub hw_franka_robot_state : RobotState D
  pub hw_commands_joint_effort : List D
  pub hw_commands_joint_position : List D
  pub hw_commands_joint_velocity : List D
  pub control_mode : ControlMode
  pub hw_positions : List D
  pub hw_velocities : List D
  pub hw_efforts : List D
  pub switch_cm : Bool
  pub has_model : Bool

abbrev pub SimArms : Type 0 → Type 0
SimArms D = Map (SimArm D)
