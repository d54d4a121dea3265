-- ===== src/Simulation/Init.antt =====
-- `initSim` of franka_mj_hardware_system.cpp: the checks of the joints and the containers of the arms.
-- The result is `none` where the method returns false or throws. The nodes of the grippers are left out.
pub mod Ready
use franka_gazebo.Prelude.{
  ℕ, zero, suc, ◌+◌, ◌*◌, Bool, true, false, ◌&&◌, ◌||◌, not, Option, none, some, List, [], ◌∷◌,
  ◌++◌, ◌==◌, if◌then◌else◌, Name, codes, same, Map, find, assign, length, all, replicate,
  get_elem?,
}
use franka_gazebo.Common.ControlMode.{idle}
use franka_gazebo.Common.Double.{Double}
use franka_gazebo.Robot.{RobotState}
use franka_gazebo.Hardware.Init.{JointInfo, HardwareInfo, to_string}
use franka_gazebo.Simulation.{Actuators, GripperStates, SimArm, SimArms}
use franka_gazebo.Simulation.Engine.{Gains, Engine, store, set_joints}

abbrev pub is_joint_name : Name → Bool
is_joint_name n = same n (codes "effort") || same n (codes "position") || same n (codes "velocity")

unfoldable pub sim_is_valid_joint : JointInfo → Bool
sim_is_valid_joint j =
    length j.command_interfaces == 3
    && all is_joint_name j.command_interfaces
    && length j.state_interfaces == 3
    && all is_joint_name j.state_interfaces

-- What `populateIndices` of `RobotSim` finds in the engine's model.
pub record Indices : Type 0 where
  pub joints : List Actuators
  pub joint_qpos : List ℕ
  pub gripper_act_idx : ℕ
  pub gripper_qpos_idx : ℕ

pub record SimOutside (D : Type 0) : Type 0 where
  -- `none` where `populateIndices` returns false.
  pub populate_indices : Name → Bool → Option Indices
  -- `std::stod` of the parameter "initial_position" of the joint; `none` where it throws.
  pub initial_position : ℕ → Option D
  pub open_state : RobotState D

module _ {D : Type 0} where
  -- The loop over the initial positions of an arm's joints from joint `j` on.
  unfoldable pub put_positions : SimOutside D → List ℕ → ℕ → Engine D → Option (Engine D)
  put_positions o [] j e = some e
  put_positions o (i ∷ is) j e = elim (o.initial_position j) [
    | none ↦ none
    | some x ↦ put_positions o is (j + 1) (record e { qpos = store i x e.qpos })
  ]

module _ {D : Type 0} ⦃d : Double D⦄ ⦃g : Gains D⦄ where
  -- A new container, after `populateIndices`.
  abbrev pub sim_container : SimOutside D → Name → Bool → Indices → SimArm D
  sim_container o name has_gripper ix = record {
    robot_name = name;
    joints = ix.joints;
    has_gripper = has_gripper;
    gripper_act_idx = ix.gripper_act_idx;
    gripper_qpos_idx = ix.gripper_qpos_idx;
    gripper = record { cmd = d.nought; width = d.nought; force = d.nought };
    hw_franka_robot_state = o.open_state;
    hw_commands_joint_effort = replicate 7 d.nought;
    hw_commands_joint_position = replicate 7 d.nought;
    hw_commands_joint_velocity = replicate 7 d.nought;
    control_mode = idle;
    hw_positions = replicate 7 d.nought;
    hw_velocities = replicate 7 d.nought;
    hw_efforts = replicate 7 d.nought;
    switch_cm = false;
    has_model = false;
  }

  -- What happens to the engine for a new arm, the arm with number `i`.
  unfoldable pub set_up_engine : SimOutside D → ℕ → Indices → Engine D → Option (Engine D)
  unfolding set_joints put_positions
  set_up_engine o i ix e =
      put_positions o ix.joint_qpos (7 * i) (set_joints false d.nought d.nought ix.joints e)

  -- The loop from arm `suc i` on, with `n` arms to go.
  unfoldable pub init_sim_arms :
      SimOutside D → Map Name → ℕ → ℕ → SimArms D → Engine D → Option (SimArms D × Engine D)
  unfolding set_up_engine
  init_sim_arms o params zero i arms e = some (arms, e)
  init_sim_arms o params (suc n) i arms e = elim (find (codes "ns_" ++ to_string (i + 1)) params) [
    | none ↦ none
    | some name ↦ elim (find name arms) [
      | some other ↦ none
      | none ↦ elim (find (codes "hand_" ++ to_string (i + 1)) params) [
        | none ↦ none
        | some hand ↦ elim (o.populate_indices name (same hand (codes "True"))) [
          | none ↦ none
          | some ix ↦ elim (set_up_engine o i ix e) [
            | none ↦ none
            | some e' ↦
                init_sim_arms o params n (i + 1)
                  (assign name (sim_container o name (same hand (codes "True")) ix) arms) e'
          ]
        ]
      ]
    ]
  ]

  -- `count` is what the stream reads from the parameter "robot_count".
  unfoldable pub init_sim :
      SimOutside D → ℕ → HardwareInfo → Engine D → Option (SimArms D × Engine D)
  unfolding init_sim_arms
  init_sim o count info e =
      if not (length info.joints == 7 * count)
      then none
      else if not (all sim_is_valid_joint info.joints)
      then none
      else init_sim_arms o info.hardware_parameters count 0 [] e
