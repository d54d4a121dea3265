-- ===== src/Tests/Robots.antt =====
-- The theorems on robot.cpp and the recovery service at concrete robots.
use franka_gazebo.Prelude.{◌≡◌, refl, true, false}
use franka_gazebo.Common.ControlMode.{idle, joint_position}
use franka_gazebo.Common.Double.{Sample, sample_double}
use franka_gazebo.Robot.{
  Robot, running, returned, joined, torque_control, done, thrown, set_control_mode,
}
use franka_gazebo.Robot.Invariant.{IsSound, Returns}
use franka_gazebo.Robot.Recovery.{
  IsRecovered, trigger_automatic_recovery, trigger_automatic_recovery-IsRecovered,
}
use franka_gazebo.Robot.Steps.{IsLost, trigger_automatic_recovery-IsLost}
use franka_gazebo.Tests.{robot_with, idle_robot}

-- A robot whose torque loop has ended with an error.
abbrev failed : Robot Sample
failed = robot_with returned false true

failed-IsSound : IsSound failed
failed-IsSound = record { fits = tt; flagged = tt; unfinished = refl }

trigger_automatic_recovery-IsRecovered_example :
    Returns (trigger_automatic_recovery done done done failed) (IsRecovered idle)
trigger_automatic_recovery-IsRecovered_example =
    trigger_automatic_recovery-IsRecovered failed failed-IsSound refl

abbrev finishing : Robot Sample
finishing = record (robot_with (running torque_control) false false) { finish = true }

abbrev started : Robot Sample
started = robot_with (running torque_control) false false

-- The recovery from it, in which libfranka's `stop` throws.
abbrev stuck : Robot Sample
stuck = record (robot_with joined false false) { finish = true }

trigger_automatic_recovery-IsLost_example :
    Returns (trigger_automatic_recovery done thrown done failed) IsLost
trigger_automatic_recovery-IsLost_example =
    trigger_automatic_recovery-IsLost done failed failed-IsSound refl refl

changed_mode : (set_control_mode joint_position idle_robot).control_mode ≡ joint_position
unfolding set_control_mode
changed_mode = refl
