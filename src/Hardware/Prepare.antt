-- ===== src/Hardware/Prepare.antt =====
-- `prepare_command_mode_switch` of franka_multi_hardware_interface.cpp: the stop loop, then the start
-- loop. The flags `is_effort` and so on are written before each use, so they are local here.
pub mod Stop
pub mod Start
pub mod Switch
use franka_gazebo.Prelude.{
  Bool, true, false, ◌&&◌, not, Option, none, some, List, ◌==◌, if◌then◌else◌, Name, codes, select,
  length, contains, replicate,
}
use franka_gazebo.Common.ControlMode.{
  ControlMode, idle, joint_torque, joint_position, joint_velocity, cartesian_velocity,
  cartesian_pose, same_mode,
}
use franka_gazebo.Common.Double.{Double}
use franka_gazebo.Common.Names.{
  CommandType, empty, joint, cartesian, invalid, check_command_mode_type,
}
use franka_gazebo.Common.Kinds.{ReturnType, ok, error, Kinds, kinds_of, is_verified}
use franka_gazebo.Hardware.{ArmContainer, Arms}
use franka_gazebo.Hardware.Loop.{for_arms}

-- The interfaces in which the name of the arm occurs.
abbrev pub interfaces_of : Name → List Name → List Name
interfaces_of arm = select (contains arm)

module _ {D : Type 0} where
  abbrev pub idle_arm : ArmContainer D → ArmContainer D
  idle_arm a = record a { control_mode = idle; switch_cm = true }

module _ {D : Type 0} ⦃d : Double D⦄ where
  abbrev reset_joint : Kinds → ArmContainer D → ArmContainer D
  reset_joint k a =
      if k.is_effort
      then record a { hw_commands_joint_effort = replicate 7 d.nought }
      else if k.is_velocity
      then record a { hw_commands_joint_velocity = replicate 7 d.nought }
      else a

  abbrev reset_cartesian : Kinds → ArmContainer D → ArmContainer D
  reset_cartesian k a =
      if k.is_velocity
      then record a { hw_commands_cartesian_velocity = replicate 6 d.nought }
      else a

  -- The `switch` of the stop loop, with the tests in front of it. `mine` are the arm's interfaces. The
  -- sizes for Cartesian interfaces are those of the whole request `all`.
  abbrev stop_as :
      CommandType → (mine all : List Name) → Kinds → ArmContainer D → Option (ArmContainer D)
  stop_as invalid mine all k a = none
  stop_as empty mine all k a = some a
  stop_as joint mine all k a =
      if not (is_verified k)
      then none
      else if not (length mine == 7)
      then none
      else some (idle_arm (reset_joint k a))
  stop_as cartesian mine all k a =
      if not (is_verified k)
      then none
      else if k.is_position && not (length all == 16)
      then none
      else if k.is_velocity && not (length all == 6)
      then none
      else some (idle_arm (reset_cartesian k a))

  -- The body of the stop loop.
  unfoldable pub stop_arm : List Name → Name → ArmContainer D → Option (ArmContainer D)
  stop_arm stop_interfaces name a =
      let mine = interfaces_of name stop_interfaces in
      stop_as (check_command_mode_type mine) mine stop_interfaces (kinds_of stop_interfaces) a

module _ {D : Type 0} where
  abbrev turn_to : Bool → ControlMode → ArmContainer D → ArmContainer D
  turn_to b m a = if b then record a { control_mode = m; switch_cm = true } else a

  abbrev start_joint : Kinds → ArmContainer D → ArmContainer D
  start_joint k a =
      turn_to k.is_velocity joint_velocity
        (turn_to k.is_position joint_position (turn_to k.is_effort joint_torque a))

  abbrev start_cartesian : Kinds → ArmContainer D → ArmContainer D
  start_cartesian k a =
      turn_to k.is_velocity cartesian_velocity (turn_to k.is_position cartesian_pose a)

  -- The `switch` of the start loop, with the tests in front of it.
  abbrev start_as :
      CommandType → (mine : List Name) → Kinds → ArmContainer D → Option (ArmContainer D)
  start_as empty mine k a = some a
  start_as invalid mine k a = none
  start_as joint mine k a =
      if not (is_verified k)
      then none
      else if not (same_mode a.control_mode idle)
      then none
      else if not (length mine == 7)
      then none
      else some (start_joint k a)
  start_as cartesian mine k a =
      if not (is_verified k)
      then none
      else if not (same_mode a.control_mode idle)
      then none
      else if not (length mine == 16) && not (length mine == 6)
      then none
      else some (start_cartesian k a)

  -- The body of the start loop.
  unfoldable pub start_arm : List Name → Name → ArmContainer D → Option (ArmContainer D)
  start_arm start_interfaces name a =
      let mine = interfaces_of name start_interfaces in
      start_as (check_command_mode_type mine) mine (kinds_of start_interfaces) a

module _ {D : Type 0} ⦃d : Double D⦄ where
  unfoldable pub prepare_command_mode_switch : List Name → List Name → Arms D → Arms D × ReturnType
  prepare_command_mode_switch start_interfaces stop_interfaces arms =
      let stopped = for_arms (stop_arm stop_interfaces) arms in
      elim stopped.1 [ error ↦ stopped | ok ↦ for_arms (start_arm start_interfaces) stopped.0 ]
