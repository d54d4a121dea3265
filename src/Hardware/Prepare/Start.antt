-- ===== src/Hardware/Prepare/Start.antt =====
-- What the start loop of `prepare_command_mode_switch` does to an arm.
use franka_gazebo.Prelude.{
  true, false, some, List, [], ◌≡◌, ◌≢◌, refl, arith, Name, ◌⊎◌, if◌then◌else◌,
}
use franka_gazebo.Common.ControlMode.{
  ControlMode, idle, joint_torque, joint_position, joint_velocity, cartesian_velocity,
  cartesian_pose, same_mode,
}
use franka_gazebo.Common.Names.{
  CommandType, empty, joint, cartesian, invalid, check_command_mode_type,
}
use franka_gazebo.Common.Names.Types.{check_command_mode_type-empty}
use franka_gazebo.Common.Kinds.{Kinds, kinds_of, is_verified}
use franka_gazebo.Hardware.{ArmContainer}
use franka_gazebo.Hardware.Prepare.{interfaces_of, start_as, start_arm}
use franka_gazebo.Hardware.Prepare.Stop.{Keeps}

-- The control mode that a request asks for.
abbrev pub requested : CommandType → Kinds → ControlMode
requested joint k =
    if k.is_effort then joint_torque else if k.is_position then joint_position else joint_velocity
requested cartesian k =
    if k.is_position then cartesian_pose else if k.is_velocity then cartesian_velocity else idle
requested _ k = idle

mode_idle : (m : ControlMode) → same_mode m idle ≡ true → m ≡ idle
mode_idle idle h = refl
mode_idle _ h = absurd (cc)

module _ {D : Type 0} where
  -- The outcome for an arm whose request to start is accepted.
  pub record IsStarted (ty : CommandType) (k : Kinds) (a b : ArmContainer D) : Type 0 where
    pub verified : is_verified k ≡ true
    pub was_idle : a.control_mode ≡ idle
    pub mode : b.control_mode ≡ requested ty k
    pub switches : (ty ≡ joint) ⊎ (k.is_effort ≡ false) → b.switch_cm ≡ true
    pub same_effort : b.hw_commands_joint_effort ≡ a.hw_commands_joint_effort
    pub same_velocity : b.hw_commands_joint_velocity ≡ a.hw_commands_joint_velocity
    pub same_twist : b.hw_commands_cartesian_velocity ≡ a.hw_commands_cartesian_velocity

  start_as-IsStarted :
      (ty : CommandType) (mine : List Name) (k : Kinds) (a b : ArmContainer D)
      → ty ≢ empty
      → start_as ty mine k a ≡ some b
      → IsStarted ty k a b
  start_as-IsStarted empty mine k a b h e = absurd (h refl)
  start_as-IsStarted invalid mine k a b h e = absurd (cc)
  start_as-IsStarted joint mine k a b h e = ground (arith, mode_idle a.control_mode)
  start_as-IsStarted cartesian mine k a b h e = ground (arith, mode_idle a.control_mode)

  start_as-Keeps :
      (ty : CommandType) (mine : List Name) (k : Kinds) (a b : ArmContainer D)
      → start_as ty mine k a ≡ some b
      → Keeps a b
  start_as-Keeps empty mine k a b e = ground arith
  start_as-Keeps _ mine k a b e = ground arith

  pub start_arm-Keeps :
      (start : List Name) (name : Name) (a b : ArmContainer D)
      → start_arm start name a ≡ some b
      → Keeps a b
  unfolding start_arm
  start_arm-Keeps start name a b e =
      start_as-Keeps (check_command_mode_type (interfaces_of name start)) (interfaces_of name start)
        (kinds_of start) a b e

  -- An arm none of whose interfaces is to be started stays as it is.
  pub start_arm-unconcerned :
      (start : List Name) (name : Name) (a : ArmContainer D)
      → interfaces_of name start ≡ []
      → start_arm start name a ≡ some a
  unfolding start_arm
  start_arm-unconcerned start name a h =
      rw ((check_command_mode_type-empty (interfaces_of name start)).1 h, start_as)

  pub start_arm-IsStarted :
      (start : List Name) (name : Name) (a b : ArmContainer D)
      → interfaces_of name start ≢ []
      → start_arm start name a ≡ some b
      → IsStarted (check_command_mode_type (interfaces_of name start)) (kinds_of start) a b
  unfolding start_arm
  start_arm-IsStarted start name a b h e =
      start_as-IsStarted (check_command_mode_type (interfaces_of name start))
        (interfaces_of name start) (kinds_of start) a b
        (λ t. h ((check_command_mode_type-empty (interfaces_of name start)).0 t)) e
