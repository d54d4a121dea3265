-- ===== src/Tests/Switching.antt =====
-- The theorems on switches of command modes and on `on_init` of franka_multi_hardware_interface.cpp, at
-- two arms.
use franka_gazebo.Prelude.{
  ◌≡◌, refl, true, false, some, List, [], ◌∷◌, Name, codes, All, Both, contains, length, ◌*◌,
  replicate,
}
use franka_gazebo.Common.ControlMode.{idle, joint_torque, joint_position}
use franka_gazebo.Common.Double.{Sample, sample_double}
use franka_gazebo.Common.Names.{check_command_mode_type, all_of_element_has_string}
use franka_gazebo.Common.Kinds.{ok, kinds_of}
use franka_gazebo.Robot.{running, torque_control, connected, construct, read}
use franka_gazebo.Robot.Invariant.{IsSound, Returns}
use franka_gazebo.Hardware.{ArmContainer, Arms}
use franka_gazebo.Hardware.Loop.{for_arms}
use franka_gazebo.Hardware.Prepare.{stop_arm, start_arm, prepare_command_mode_switch}
use franka_gazebo.Hardware.Prepare.Switch.{
  AtArm, IsSwitched, prepare_command_mode_switch-IsSwitched,
}
use franka_gazebo.Hardware.Perform.{perform_command_mode_switch}
use franka_gazebo.Hardware.Delivery.{Runs, prepare-perform-Runs}
use franka_gazebo.Hardware.Init.{
  JointInfo, HardwareInfo, Outside, to_string, init_arms, on_init, container,
}
use franka_gazebo.Hardware.Init.Fresh.{IsFresh, on_init-IsFresh}
use franka_gazebo.Tests.{nil, rest, robot_with, idle_robot, arm_with, seven}

-- The left arm runs its torque loop, the right one is idle.
abbrev torque_arm : ArmContainer Sample
torque_arm =
    arm_with (codes "left") (robot_with (running torque_control) false false) joint_torque false

abbrev idle_arm : ArmContainer Sample
idle_arm = arm_with (codes "right") idle_robot idle false

abbrev arms : Arms Sample
arms = (codes "left", torque_arm) ∷ (codes "right", idle_arm) ∷ []

arms-IsSound : All (λ p. IsSound p.1.robot) arms
arms-IsSound = (
  record { fits = tt; flagged = tt; unfinished = refl },
  (record { fits = tt; flagged = tt; unfinished = refl }, tt),
)

-- The left arm is to stop its torques, the right one to start positions.
abbrev start : List Name
start = seven (codes "right") (codes "position")

abbrev stop : List Name
stop = seven (codes "left") (codes "effort")

is_accepted : (prepare_command_mode_switch start stop arms).1 ≡ ok
unfolding prepare_command_mode_switch for_arms stop_arm start_arm check_command_mode_type
    all_of_element_has_string contains kinds_of
is_accepted = refl

prepare_command_mode_switch-IsSwitched_example :
    Both (AtArm (IsSwitched start stop)) arms (prepare_command_mode_switch start stop arms).0
prepare_command_mode_switch-IsSwitched_example =
    prepare_command_mode_switch-IsSwitched start stop arms is_accepted

prepare-perform-Runs_example :
    Returns
      (perform_command_mode_switch (prepare_command_mode_switch start stop arms).0)
      (Both (AtArm (Runs start)) arms)
prepare-perform-Runs_example = prepare-perform-Runs start stop arms arms-IsSound is_accepted

-- A request to start positions on the arm that sends torques.
abbrev too_early : List Name
too_early = seven (codes "left") (codes "position")

abbrev marked : Arms Sample
marked = (codes "right", arm_with (codes "right") idle_robot joint_position true) ∷ []

abbrev joint_info : JointInfo
joint_info = record {
  name = codes "left_joint1";
  command_interfaces = codes "effort" ∷ codes "position" ∷ codes "velocity" ∷ [];
  state_interfaces = codes "effort" ∷ codes "position" ∷ codes "velocity" ∷ [];
}

abbrev info : HardwareInfo
info = record {
  joints = replicate 7 joint_info;
  hardware_parameters = (codes "ns_1", codes "left") ∷ (codes "robot_ip_1", codes "10.0.0.1") ∷ [];
}

abbrev outside : Outside Sample
outside = record {
  connect = λ ip. connected;
  once = λ ip. some rest;
  open_state = rest;
  open_mode = idle;
  home = replicate 7 nil;
}

abbrev new_arms : Arms Sample
new_arms = (codes "left", container (codes "left") (codes "10.0.0.1") idle_robot rest) ∷ []

is_set_up : on_init outside 1 info ≡ some new_arms
unfolding on_init init_arms to_string construct read
is_set_up = refl

on_init-IsFresh_example :
    (length info.joints ≡ 7 * 1) × (length new_arms ≡ 1) × All (λ p. IsFresh p.1) new_arms
on_init-IsFresh_example = on_init-IsFresh outside 1 info new_arms is_set_up
