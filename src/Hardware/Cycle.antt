-- ===== src/Hardware/Cycle.antt =====
-- `on_activate`, `on_deactivate`, `read` and `write` of franka_multi_hardware_interface.cpp.
pub mod Lifecycle
pub mod Write
use franka_gazebo.Prelude.{
  Bool, true, false, ◌||◌, not, Option, none, some, List, [], ◌∷◌, Name, Map, any, replicate,
}
use franka_gazebo.Common.ControlMode.{ControlMode, idle}
use franka_gazebo.Common.Double.{Double}
use franka_gazebo.Common.Kinds.{ReturnType, ok, error}
use franka_gazebo.Robot.{Robot, RobotState, stop_robot, initialize_continuous_reading}
use franka_gazebo.Robot
use franka_gazebo.Hardware.{ArmContainer, Arms}
use franka_gazebo.Hardware.Loop.{keep}
use franka_gazebo.Hardware.Perform.{each_arm}

module _ {D : Type 0} where
  abbrev take_over : ArmContainer D → Robot D → RobotState D → ArmContainer D
  take_over a r s = record a {
    robot = r;
    has_model = true;
    hw_franka_robot_state = s;
    hw_positions = s.q;
    hw_velocities = s.dq;
    hw_efforts = s.tau_j;
    hw_cartesian_positions = s.o_t_ee;
    hw_cartesian_velocities = s.o_t_ee_d;
  }

  -- `once` is what libfranka's `readOnce` does on this arm, if it is called.
  unfoldable pub read_arm : Option (RobotState D) → ArmContainer D → Option (ArmContainer D)
  unfolding Robot.read
  read_arm once a = elim (Robot.read once a.robot) [
    | none ↦ none
    | some (r, s) ↦ some (take_over a r s)
  ]

  unfoldable pub read : (Name → Option (RobotState D)) → Arms D → Option (Arms D)
  unfolding read_arm
  read once = each_arm λ k. read_arm (once k)

  -- The loop runs over copies of the containers: the idle mode is put into the copy and lost, and the
  -- robot, which the copies share, is stopped.
  unfoldable pub deactivate_arm : ArmContainer D → Option (ArmContainer D)
  unfolding stop_robot
  deactivate_arm a = elim (stop_robot a.robot) [
    | none ↦ none
    | some r ↦ some (record a { robot = r })
  ]

  unfoldable pub on_deactivate : Arms D → Option (Arms D)
  unfolding deactivate_arm
  on_deactivate = each_arm λ k. deactivate_arm

  unfoldable pub write_arm : ArmContainer D → ArmContainer D
  unfolding Robot.write
  write_arm a = record a {
    robot =
        Robot.write a.hw_commands_joint_effort a.hw_commands_joint_position
          a.hw_commands_joint_velocity a.hw_commands_cartesian_position
          a.hw_commands_cartesian_velocity a.robot;
  }

module _ {D : Type 0} ⦃d : Double D⦄ where
  unfoldable pub activate_arm : ArmContainer D → Option (ArmContainer D)
  unfolding initialize_continuous_reading
  activate_arm a = elim (initialize_continuous_reading a.robot) [
    | none ↦ none
    | some r ↦ some (record a {
      control_mode = idle;
      robot = r;
      hw_commands_joint_effort = replicate 7 d.nought;
    })
  ]

  unfoldable pub on_activate : (Name → Option (RobotState D)) → Arms D → Option (Arms D)
  unfolding activate_arm read
  on_activate once arms = elim (each_arm (λ k. activate_arm) arms) [
    | none ↦ none
    | some arms' ↦ read once arms'
  ]

  abbrev has_bad_number : List D → Bool
  has_bad_number = any λ c. not (d.is_finite c)

  unfoldable pub has_bad_command : ArmContainer D → Bool
  has_bad_command a =
      has_bad_number a.hw_commands_joint_effort
      || has_bad_number a.hw_commands_joint_position
      || has_bad_number a.hw_commands_joint_velocity
      || has_bad_number a.hw_commands_cartesian_position
      || has_bad_number a.hw_commands_cartesian_velocity

  -- An arm whose robot has an error ends the loop with OK.
  unfoldable pub write : Arms D → Arms D × ReturnType
  unfolding has_bad_command write_arm
  write [] = ([], ok)
  write ((k, a) ∷ arms) = elim (has_bad_command a) [
    | true ↦ ((k, a) ∷ arms, error)
    | false ↦ elim a.robot.has_error [
      | true ↦ ((k, a) ∷ arms, ok)
      | false ↦ keep k (write_arm a) (write arms)
    ]
  ]
