-- ===== src/Simulation/RobotSim.antt =====
-- franka_hardware/src/sim/robot_sim.cpp and include/franka_hardware/sim/robot_sim.hpp: the class `RobotSim`,
-- which finds an arm's parts in MuJoCo's model by their names. MuJoCo is an argument: `name_to_id` is
-- `mj_name2id`, with `none` for -1. The arrays of one size that one loop fills are a list of records.
pub mod Found
pub mod Names
pub mod Parts
pub mod Populated
pub mod Keys
pub mod Separate
use franka_gazebo.Prelude.{
  ℕ, zero, suc, ◌+◌, Bool, true, false, Option, none, some, List, [], ◌∷◌, ◌++◌, if◌then◌else◌, ltb,
  ◌==◌, Name, codes, map, get_elem?,
}
use franka_gazebo.Robot.{RobotState}
use franka_gazebo.Hardware.Init.{to_string}
use franka_gazebo.Simulation.{Actuators}
use franka_gazebo.Simulation.Init.{Indices, SimOutside}

-- `mjOBJ_BODY` and its like.
pub data ObjectKind : Type 0 where
  body site joint actuator : ObjectKind

pub record MjModel : Type 0 where
  pub name_to_id : ObjectKind → Name → Option ℕ
  pub jnt_dofadr : ℕ → ℕ
  pub jnt_qposadr : ℕ → ℕ

pub record JointIndices : Type 0 where
  pub index : ℕ
  pub qvel : ℕ
  pub qpos : ℕ

pub record RobotSim : Type 0 where
  pub robot_name : Name
  pub has_gripper : Bool
  pub links : List ℕ
  pub joint_sites : List ℕ
  pub arm_joints : List JointIndices
  pub actuators : List Actuators
  pub gripper_joints : List JointIndices
  pub act_idx : ℕ

abbrev pub link_name : Name → ℕ → Name
link_name robot n = robot ++ codes "_link" ++ to_string n

abbrev pub site_name : Name → ℕ → Name
site_name robot n =
    if ltb n 7
    then robot ++ codes "_joint" ++ to_string (n + 1) ++ codes "_site"
    else if n == 7
    then robot ++ codes "_flange_site"
    else robot ++ codes "_ee_site"

abbrev pub joint_name : Name → ℕ → Name
joint_name robot n = robot ++ codes "_joint" ++ to_string (n + 1)

abbrev pub trq_name : Name → ℕ → Name
trq_name robot n = robot ++ codes "_act_trq" ++ to_string (n + 1)

abbrev pub vel_name : Name → ℕ → Name
vel_name robot n = robot ++ codes "_act_vel" ++ to_string (n + 1)

abbrev pub pos_name : Name → ℕ → Name
pos_name robot n = robot ++ codes "_act_pos" ++ to_string (n + 1)

abbrev pub finger_name : Name → ℕ → Name
finger_name robot n = robot ++ codes "_finger_joint" ++ to_string (n + 1)

abbrev pub gripper_act_name : Name → Name
gripper_act_name robot = robot ++ codes "_act_gripper"

-- A loop that returns false where `step` finds nothing: `count` rounds from `n` on.
abbrev pub fill_array {ℓ} : {A : Type ℓ} (step : ℕ → Option A) (count n : ℕ) → Option (List A)
fill_array step zero n = some []
fill_array step (suc count) n = elim (step n) [
  | none ↦ none
  | some a ↦ elim (fill_array step count (n + 1)) [ none ↦ none | some rest ↦ some (a ∷ rest) ]
]

-- The body of the loops over joints.
unfoldable pub find_joint : MjModel → Name → Option JointIndices
find_joint m name = elim (m.name_to_id joint name) [
  | none ↦ none
  | some id ↦ some (record { index = id; qvel = m.jnt_dofadr id; qpos = m.jnt_qposadr id })
]

-- The body of the loop over actuators.
unfoldable pub find_actuators : MjModel → Name → ℕ → Option Actuators
find_actuators m robot n = elim (m.name_to_id actuator (trq_name robot n)) [
  | none ↦ none
  | some t ↦ elim (m.name_to_id actuator (vel_name robot n)) [
    | none ↦ none
    | some v ↦ elim (m.name_to_id actuator (pos_name robot n)) [
      | none ↦ none
      | some p ↦ some (record { trq = t; pos = p; vel = v })
    ]
  ]
]

-- The part under `if(has_gripper_)`.
unfoldable pub find_gripper : MjModel → RobotSim → Option RobotSim
unfolding find_joint
find_gripper m r = elim r.has_gripper [
  | false ↦ some r
  | true ↦ elim (fill_array (λ n. find_joint m (finger_name r.robot_name n)) 2 0) [
    | none ↦ none
    | some fs ↦ elim (m.name_to_id actuator (gripper_act_name r.robot_name)) [
      | none ↦ none
      | some id ↦ some (record r { gripper_joints = fs; act_idx = id })
    ]
  ]
]

-- `none` where it returns false; what it has written until then is not used.
unfoldable pub populate_indices : MjModel → RobotSim → Option RobotSim
unfolding find_joint find_actuators find_gripper
populate_indices m r = elim (fill_array (λ n. m.name_to_id body (link_name r.robot_name n)) 9 0) [
  | none ↦ none
  | some ls ↦ elim (fill_array (λ n. m.name_to_id site (site_name r.robot_name n)) 9 0) [
    | none ↦ none
    | some ss ↦ elim (fill_array (λ n. find_joint m (joint_name r.robot_name n)) 7 0) [
      | none ↦ none
      | some js ↦ elim (fill_array (find_actuators m r.robot_name) 7 0) [
        | none ↦ none
        | some acts ↦
            find_gripper m
              record r { links = ls; joint_sites = ss; arm_joints = js; actuators = acts }
      ]
    ]
  ]
]

-- The constructor; the arrays have no initialisers.
abbrev pub new_robot : Name → Bool → RobotSim
new_robot name has = record {
  robot_name = name;
  has_gripper = has;
  links = [];
  joint_sites = [];
  arm_joints = [];
  actuators = [];
  gripper_joints = [];
  act_idx = 0;
}

abbrev first_qpos : List JointIndices → ℕ
first_qpos [] = 0
first_qpos (j ∷ js) = j.qpos

-- What `FrankaMjHardwareSystem`, a friend of the class, uses of it.
abbrev pub indices_of : RobotSim → Indices
indices_of r = record {
  joints = r.actuators;
  joint_qpos = map (λ (j : JointIndices). j.qpos) r.arm_joints;
  gripper_act_idx = r.act_idx;
  gripper_qpos_idx = first_qpos r.gripper_joints;
}

-- What `initSim` gets from `RobotSim` for this model.
abbrev pub sim_outside :
    {D : Type 0} → MjModel → (initial : ℕ → Option D) → RobotState D → SimOutside D
sim_outside m initial initial_state = record {
  populate_indices = λ name has. elim (populate_indices m (new_robot name has)) [
    | none ↦ none
    | some r ↦ some (indices_of r)
  ];
  initial_position = initial;
  open_state = initial_state;
}

-- The arrays of MuJoCo's `mjData` that `populateFrankaState` reads for the joints.
pub record JointData (D : Type 0) : Type 0 where
  pub data_qpos : ℕ → D
  pub data_qvel : ℕ → D
  pub actuator_force : ℕ → D
  pub qfrc_gravcomp : ℕ → D

module _ {D : Type 0} (add : D → D → D) (d : JointData D) where
  -- The loop over the joints for `tau_J`.
  abbrev pub joint_torques : List JointIndices → List Actuators → List D
  joint_torques [] xs = []
  joint_torques (j ∷ js) [] = []
  joint_torques (j ∷ js) (a ∷ xs) =
      add (d.actuator_force a.trq) (d.qfrc_gravcomp j.qvel) ∷ joint_torques js xs

  -- The joints' part of `populateFrankaState`, and `O_T_EE`, which is `pose`; its results for forces are left
  -- out.
  unfoldable pub populate_franka_state : (pose : List D) → RobotSim → RobotState D → RobotState D
  populate_franka_state pose r s = record s {
    q = map (λ (j : JointIndices). d.data_qpos j.qpos) r.arm_joints;
    dq = map (λ (j : JointIndices). d.data_qvel j.qvel) r.arm_joints;
    tau_j = joint_torques r.arm_joints r.actuators;
    o_t_ee = pose;
  }
