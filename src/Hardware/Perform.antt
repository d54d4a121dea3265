-- ===== src/Hardware/Perform.antt =====
-- `perform_command_mode_switch` of franka_multi_hardware_interface.cpp. `none` ends the process: an
-- `assert` or a `join` of `Robot` failed.
pub mod Loops
use franka_gazebo.Prelude.{Bool, true, false, Option, none, some, List, [], ◌∷◌, Name, Map}
use franka_gazebo.Common.ControlMode.{ControlMode}
use franka_gazebo.Robot.{Robot, stop_robot}
use franka_gazebo.Robot.Recovery.{initialize}
use franka_gazebo.Hardware.{ArmContainer, Arms}

-- A loop over `arms_` whose body may end the process.
unfoldable pub each_arm : {A B : Type 0} → (Name → A → Option B) → Map A → Option (Map B)
each_arm f [] = some []
each_arm f ((k, a) ∷ arms) = elim (f k a) [
  | none ↦ none
  | some b ↦ elim (each_arm f arms) [ none ↦ none | some rest ↦ some ((k, b) ∷ rest) ]
]

module _ {D : Type 0} where
  -- `stopRobot`, then the `initialize…` of the control mode.
  abbrev pub restart_loop : ControlMode → Robot D → Option (Robot D)
  restart_loop m r = elim (stop_robot r) [ none ↦ none | some r' ↦ initialize m r' ]

  unfoldable pub perform_arm : ArmContainer D → Option (ArmContainer D)
  perform_arm a = elim a.switch_cm [
    | false ↦ some a
    | true ↦ elim (restart_loop a.control_mode a.robot) [
      | none ↦ none
      | some r ↦ some (record a { robot = r; switch_cm = false })
    ]
  ]

  unfoldable pub perform_command_mode_switch : Arms D → Option (Arms D)
  unfolding perform_arm
  perform_command_mode_switch = each_arm λ k. perform_arm
