-- ===== src/Hardware/Prepare/Stop.antt =====
-- What the stop loop of `prepare_command_mode_switch` does to an arm.
use franka_gazebo.Prelude.{true, some, List, [], ◌≡◌, ◌≢◌, refl, arith, Name, replicate}
use franka_gazebo.Common.ControlMode.{idle}
use franka_gazebo.Common.Double.{Double}
use franka_gazebo.Common.Names.{
  CommandType, empty, joint, cartesian, invalid, check_command_mode_type,
}
use franka_gazebo.Common.Names.Types.{check_command_mode_type-empty}
use franka_gazebo.Common.Kinds.{Kinds, kinds_of, is_verified}
use franka_gazebo.Hardware.{ArmContainer}
use franka_gazebo.Hardware.Prepare.{interfaces_of, stop_as, stop_arm}

module _ {D : Type 0} where
  -- What no switch of command modes touches: the robot, its state, and the position commands.
  pub record Keeps (a b : ArmContainer D) : Type 0 where
    pub same_robot : b.robot ≡ a.robot
    pub same_name : b.robot_name ≡ a.robot_name
    pub same_state : b.hw_franka_robot_state ≡ a.hw_franka_robot_state
    pub same_position : b.hw_commands_joint_position ≡ a.hw_commands_joint_position
    pub same_pose : b.hw_commands_cartesian_position ≡ a.hw_commands_cartesian_position

  pub Keeps-refl : (a : ArmContainer D) → Keeps a a
  Keeps-refl a = ground arith

  pub Keeps-trans : {a b c : ArmContainer D} → Keeps a b → Keeps b c → Keeps a c
  Keeps-trans p q = ground arith

module _ {D : Type 0} ⦃d : Double D⦄ where
  -- The outcome for an arm whose request to stop is accepted.
  pub record IsStopped (ty : CommandType) (k : Kinds) (a b : ArmContainer D) : Type 0 where
    pub verified : is_verified k ≡ true
    pub idles : b.control_mode ≡ idle
    pub switches : b.switch_cm ≡ true
    pub effort_reset :
        ty ≡ joint → k.is_effort ≡ true → b.hw_commands_joint_effort ≡ replicate 7 d.nought
    pub velocity_reset :
        ty ≡ joint → k.is_velocity ≡ true → b.hw_commands_joint_velocity ≡ replicate 7 d.nought
    pub twist_reset :
        ty ≡ cartesian
        → k.is_velocity ≡ true
        → b.hw_commands_cartesian_velocity ≡ replicate 6 d.nought

  stop_as-IsStopped :
      (ty : CommandType) (mine all : List Name) (k : Kinds) (a b : ArmContainer D)
      → ty ≢ empty
      → stop_as ty mine all k a ≡ some b
      → IsStopped ty k a b
  stop_as-IsStopped empty mine all k a b h e = absurd (h refl)
  stop_as-IsStopped invalid mine all k a b h e = absurd (cc)
  stop_as-IsStopped joint mine all k a b h e = ground arith
  stop_as-IsStopped cartesian mine all k a b h e = ground arith

  stop_as-Keeps :
      (ty : CommandType) (mine all : List Name) (k : Kinds) (a b : ArmContainer D)
      → stop_as ty mine all k a ≡ some b
      → Keeps a b
  stop_as-Keeps empty mine all k a b e = ground arith
  stop_as-Keeps _ mine all k a b e = ground arith

  pub stop_arm-Keeps :
      (stop : List Name) (name : Name) (a b : ArmContainer D)
      → stop_arm stop name a ≡ some b
      → Keeps a b
  unfolding stop_arm
  stop_arm-Keeps stop name a b e =
      stop_as-Keeps (check_command_mode_type (interfaces_of name stop)) (interfaces_of name stop)
        stop (kinds_of stop) a b e

  -- An arm none of whose interfaces is to be stopped stays as it is.
  pub stop_arm-unconcerned :
      (stop : List Name) (name : Name) (a : ArmContainer D)
      → interfaces_of name stop ≡ []
      → stop_arm stop name a ≡ some a
  unfolding stop_arm
  stop_arm-unconcerned stop name a h =
      rw ((check_command_mode_type-empty (interfaces_of name stop)).1 h, stop_as)

  -- Any other arm whose request to stop is accepted becomes idle.
  pub stop_arm-IsStopped :
      (stop : List Name) (name : Name) (a b : ArmContainer D)
      → interfaces_of name stop ≢ []
      → stop_arm stop name a ≡ some b
      → IsStopped (check_command_mode_type (interfaces_of name stop)) (kinds_of stop) a b
  unfolding stop_arm
  stop_arm-IsStopped stop name a b h e =
      stop_as-IsStopped (check_command_mode_type (interfaces_of name stop))
        (interfaces_of name stop) stop (kinds_of stop) a b
        (λ t. h ((check_command_mode_type-empty (interfaces_of name stop)).0 t)) e
