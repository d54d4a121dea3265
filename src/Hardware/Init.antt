-- ===== src/Hardware/Init.antt =====
-- `on_init` of franka_multi_hardware_interface.cpp: the checks of the joints and the containers of the
-- arms. The result is `none` where the method returns ERROR.
pub mod Fresh
use Prim.Native.Nat.{◌/◌, ◌%◌}
use franka_gazebo.Prelude.{
  ℕ, zero, suc, ◌+◌, ◌*◌, Bool, true, false, ◌&&◌, ◌||◌, not, Option, none, some, List, [], ◌∷◌,
  ◌++◌, ◌==◌, if◌then◌else◌, Name, codes, same, Map, find, assign, length, all, replicate,
}
use franka_gazebo.Common.ControlMode.{ControlMode, idle}
use franka_gazebo.Common.Double.{Double}
use franka_gazebo.Robot.{Robot, RobotState, Connection, construct, read}
use franka_gazebo.Hardware.{ArmContainer, Arms}

-- The parts of `hardware_interface::HardwareInfo` that the method reads.
pub record JointInfo : Type 0 where
  pub name : Name
  pub command_interfaces : List Name
  pub state_interfaces : List Name

pub record HardwareInfo : Type 0 where
  pub joints : List JointInfo
  pub hardware_parameters : Map Name

abbrev pub is_command_name : Name → Bool
is_command_name n =
    same n (codes "effort")
    || same n (codes "position")
    || same n (codes "velocity")
    || same n (codes "cartesian_position")
    || same n (codes "cartesian_velocity")

-- A wrong name of a state interface is logged as fatal, and passes.
abbrev pub is_valid_joint : JointInfo → Bool
is_valid_joint j =
    length j.command_interfaces == 3
    && all is_command_name j.command_interfaces
    && length j.state_interfaces == 3

-- `std::to_string`; with fuel above `n` all digits are written.
abbrev digits_on : ℕ → ℕ → Name → Name
digits_on zero n rest = rest
digits_on (suc f) n rest =
    let more = digits_on f (n / 10) ((b'0' + n % 10) ∷ rest) in
    if n / 10 == 0 then (b'0' + n % 10) ∷ rest else more

unfoldable pub to_string : ℕ → Name
to_string n = digits_on (n + 1) n []

-- What the outside does for the arm with an address: how the connection ends, what `readOnce` gives, and
-- the values of the members of `Robot` that no initialiser sets.
pub record Outside (D : Type 0) : Type 0 where
  pub connect : Name → Connection
  pub once : Name → Option (RobotState D)
  pub open_state : RobotState D
  pub open_mode : ControlMode
  pub home : List D

module _ {D : Type 0} ⦃d : Double D⦄ where
  -- The container of one arm. `ip` is its address, `r` its robot and `s` the state that was read.
  abbrev pub container : Name → Name → Robot D → RobotState D → ArmContainer D
  container name ip r s = record {
    robot_ip = ip;
    robot_name = name;
    robot = r;
    hw_commands_joint_effort = replicate 7 d.nought;
    hw_commands_joint_position = replicate 7 d.nought;
    hw_commands_joint_velocity = replicate 7 d.nought;
    hw_commands_cartesian_position = replicate 16 d.nought;
    hw_commands_cartesian_velocity = replicate 6 d.nought;
    control_mode = idle;
    hw_positions = replicate 7 d.nought;
    hw_velocities = replicate 7 d.nought;
    hw_efforts = replicate 7 d.nought;
    hw_cartesian_positions = replicate 16 d.nought;
    hw_cartesian_velocities = replicate 16 d.nought;
    hw_franka_robot_state = s;
    switch_cm = false;
    has_model = false;
  }

  -- The constructor of `Robot` and the first `read`.
  abbrev pub connected_arm : Outside D → Name → Name → Option (ArmContainer D)
  connected_arm o name ip = elim (construct (o.connect ip) o.open_state o.open_mode o.home) [
    | none ↦ none
    | some r ↦ elim (read (o.once ip) r) [
      | none ↦ none
      | some (r', s) ↦ some (container name ip r' s)
    ]
  ]

  -- The loop from `i` on, with `n` robots to go.
  unfoldable pub init_arms : Outside D → Map Name → ℕ → ℕ → Arms D → Option (Arms D)
  unfolding read construct
  init_arms o params zero i arms = some arms
  init_arms o params (suc n) i arms = elim (find (codes "ns_" ++ to_string i) params) [
    | none ↦ none
    | some name ↦ elim (find name arms) [
      | some other ↦ none
      | none ↦ elim (find (codes "robot_ip_" ++ to_string i) params) [
        | none ↦ none
        | some ip ↦ elim (connected_arm o name ip) [
          | none ↦ none
          | some a ↦ init_arms o params n (i + 1) (assign name a arms)
        ]
      ]
    ]
  ]

  -- `count` is what the stream reads from the parameter "robot_count".
  unfoldable pub on_init : Outside D → ℕ → HardwareInfo → Option (Arms D)
  unfolding init_arms
  on_init o count info =
      if not (length info.joints == 7 * count)
      then none
      else if not (all is_valid_joint info.joints)
      then none
      else elim (init_arms o info.hardware_parameters count 1 []) [
        | none ↦ none
        | some arms ↦ if not (length arms == count) then none else some arms
      ]
