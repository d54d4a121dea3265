-- ===== src/Tests/Cycles.antt =====
-- The theorems on the life cycle, `read` and `write` of franka_multi_hardware_interface.cpp, at concrete
-- arms.
use franka_gazebo.Prelude.{
  ◌≡◌, refl, true, false, some, none, Option, [], ◌∷◌, ◌++◌, Name, codes, All, Both, map, replicate,
}
use franka_gazebo.Common.ControlMode.{idle, joint_torque}
use franka_gazebo.Common.Double.{Sample, sample_double}
use franka_gazebo.Common.Kinds.{ok}
use franka_gazebo.Robot.{RobotState, running, returned, torque_control}
use franka_gazebo.Robot.Invariant.{IsSound, Returns}
use franka_gazebo.Hardware.{ArmContainer, Arms}
use franka_gazebo.Hardware.Cycle.{on_deactivate, has_bad_command, write_arm, write}
use franka_gazebo.Hardware.Cycle.Lifecycle.{IsDeactivated, on_deactivate-IsDeactivated}
use franka_gazebo.Hardware.Cycle.Write.{SendsFinite, write-SendsFinite, IsClear, write_front}
use franka_gazebo.Tests.{nil, rest, robot_with, idle_robot, arm_with}

abbrev working : ArmContainer Sample
working =
    arm_with (codes "left") (robot_with (running torque_control) false false) joint_torque false

-- An arm whose loop has ended with an error.
abbrev broken : ArmContainer Sample
broken = arm_with (codes "middle") (robot_with returned false true) joint_torque false

abbrev waiting : ArmContainer Sample
waiting = arm_with (codes "right") idle_robot idle false

abbrev arms : Arms Sample
arms = (codes "left", working) ∷ (codes "middle", broken) ∷ (codes "right", waiting) ∷ []

arms-IsSound : All (λ p. IsSound p.1.robot) arms
arms-IsSound = (
  record { fits = tt; flagged = tt; unfinished = refl },
  (
    record { fits = tt; flagged = tt; unfinished = refl },
    (record { fits = tt; flagged = tt; unfinished = refl }, tt),
  ),
)

-- `readOnce` fails on every arm but one.
abbrev reads : Name → Option (RobotState Sample)
reads [] = some rest
reads (c ∷ s) = none

on_deactivate-IsDeactivated_example :
    Returns (on_deactivate arms) (Both (λ p q. (q.0 ≡ p.0) × IsDeactivated p.1 q.1) arms)
on_deactivate-IsDeactivated_example = on_deactivate-IsDeactivated arms arms-IsSound

robot_with-SendsFinite : SendsFinite idle_robot
robot_with-SendsFinite = record {
  efforts = (refl, (refl, (refl, (refl, (refl, (refl, (refl, tt)))))));
  positions = (refl, (refl, (refl, (refl, (refl, (refl, (refl, tt)))))));
  velocities = (refl, (refl, (refl, (refl, (refl, (refl, (refl, tt)))))));
  pose = (
    refl,
    (
      refl,
      (
        refl,
        (
          refl,
          (
            refl,
            (
              refl,
              (refl, (refl, (refl, (refl, (refl, (refl, (refl, (refl, (refl, (refl, tt)))))))))),
            ),
          ),
        ),
      ),
    ),
  );
  twist = (refl, (refl, (refl, (refl, (refl, (refl, tt))))));
}

-- The second arm has an effort that is not a number.
abbrev spoilt : Arms Sample
spoilt =
    (codes "left", waiting)
    ∷ (codes "right", record waiting { hw_commands_joint_effort = none ∷ replicate 6 nil })
    ∷ []

write-SendsFinite_example : All (λ p. SendsFinite p.1.robot) (write spoilt).0
write-SendsFinite_example =
    write-SendsFinite spoilt (robot_with-SendsFinite, (robot_with-SendsFinite, tt))

working-IsClear : IsClear working
unfolding has_bad_command
working-IsClear = (refl, refl)

broken-has_bad_command : has_bad_command broken ≡ false
unfolding has_bad_command
broken-has_bad_command = refl

abbrev front : Arms Sample
front = (codes "left", working) ∷ []

write_front_example : write (front ++ (codes "middle", broken) ∷ (codes "right", waiting) ∷ []) ≡ (
  map (λ p. (p.0, write_arm p.1)) front ++ (codes "middle", broken) ∷ (codes "right", waiting) ∷ [],
  ok,
)
write_front_example =
    write_front front (codes "middle") broken ((codes "right", waiting) ∷ []) (working-IsClear, tt)
      broken-has_bad_command refl
