-- ===== src/Simulation/Prepare.antt =====
-- `prepare_command_mode_switch` of franka_mj_hardware_system.cpp: the stop loop, then the start loop.
pub mod Switch
use franka_gazebo.Prelude.{
  Bool, true, false, not, Option, none, some, List, ◌++◌, ◌==◌, if◌then◌else◌, Name, codes, select,
  length, replicate,
}
use franka_gazebo.Common.ControlMode.{
  ControlMode, idle, joint_torque, joint_position, joint_velocity, same_mode,
}
use franka_gazebo.Common.Double.{Double}
use franka_gazebo.Common.Names.{
  CommandType, empty, joint, cartesian, invalid, check_command_mode_type, starts_with,
}
use franka_gazebo.Common.Kinds.{ReturnType, ok, error, Kinds, kinds_of, is_verified}
use franka_gazebo.Hardware.Loop.{for_arms}
use franka_gazebo.Simulation.{SimArm, SimArms}

-- The interfaces that begin with the arm's name and "_joint".
unfoldable pub sim_interfaces_of : Name → List Name → List Name
sim_interfaces_of arm = select λ s. starts_with s (arm ++ codes "_joint")

module _ {D : Type 0} ⦃d : Double D⦄ where
  abbrev pub sim_reset : Kinds → SimArm D → SimArm D
  sim_reset k a =
      if k.is_effort
      then record a { hw_commands_joint_effort = replicate 7 d.nought }
      else if k.is_velocity
      then record a { hw_commands_joint_velocity = replicate 7 d.nought }
      else a

  -- The `switch` of the stop loop, with the tests in front of it.
  abbrev pub sim_stop_as : CommandType → (mine : List Name) → Kinds → SimArm D → Option (SimArm D)
  sim_stop_as invalid mine k a = none
  sim_stop_as empty mine k a = some a
  sim_stop_as joint mine k a =
      if not (is_verified k)
      then none
      else if not (length mine == 7)
      then none
      else some (record (sim_reset k a) { control_mode = idle; switch_cm = true })
  sim_stop_as cartesian mine k a = none

  -- The body of the stop loop.
  unfoldable pub sim_stop_arm : List Name → Name → SimArm D → Option (SimArm D)
  sim_stop_arm stop_interfaces name a =
      let mine = sim_interfaces_of name stop_interfaces in
      sim_stop_as (check_command_mode_type mine) mine (kinds_of stop_interfaces) a

module _ {D : Type 0} where
  abbrev pub sim_turn_to : Bool → ControlMode → SimArm D → SimArm D
  sim_turn_to b m a = if b then record a { control_mode = m; switch_cm = true } else a

  -- The `switch` of the start loop, with the tests in front of it.
  abbrev pub sim_start_as : CommandType → (mine : List Name) → Kinds → SimArm D → Option (SimArm D)
  sim_start_as empty mine k a = some a
  sim_start_as invalid mine k a = none
  sim_start_as joint mine k a =
      if not (is_verified k)
      then none
      else if not (same_mode a.control_mode idle)
      then none
      else if not (length mine == 7)
      then none
      else some (
          sim_turn_to k.is_velocity joint_velocity
            (sim_turn_to k.is_position joint_position (sim_turn_to k.is_effort joint_torque a)))
  sim_start_as cartesian mine k a = none

  -- The body of the start loop.
  unfoldable pub sim_start_arm : List Name → Name → SimArm D → Option (SimArm D)
  sim_start_arm start_interfaces name a =
      let mine = sim_interfaces_of name start_interfaces in
      sim_start_as (check_command_mode_type mine) mine (kinds_of start_interfaces) a

module _ {D : Type 0} ⦃d : Double D⦄ where
  unfoldable pub sim_prepare_command_mode_switch :
      List Name → List Name → SimArms D → SimArms D × ReturnType
  sim_prepare_command_mode_switch start_interfaces stop_interfaces arms =
      let stopped = for_arms (sim_stop_arm stop_interfaces) arms in
      elim stopped.1 [ error ↦ stopped | ok ↦ for_arms (sim_start_arm start_interfaces) stopped.0 ]
