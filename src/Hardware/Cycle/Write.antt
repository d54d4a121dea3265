-- ===== src/Hardware/Cycle/Write.antt =====
-- What `write` of franka_multi_hardware_interface.cpp lets through to the robots.
use franka_gazebo.Prelude.{
  true, false, List, [], ◌∷◌, ◌++◌, ◌≡◌, arith, Name, All, map, Bool-cases, inl, inr,
}
use franka_gazebo.Common.Double.{Double}
use franka_gazebo.Common.Kinds.{ok}
use franka_gazebo.Robot
use franka_gazebo.Robot.{Robot, RobotState, Connection, construct}
use franka_gazebo.Hardware.Loop.{keep}
use franka_gazebo.Hardware.{ArmContainer, Arms}
use franka_gazebo.Hardware.Cycle.{has_bad_number, has_bad_command, write_arm, write}

module _ {D : Type 0} ⦃d : Double D⦄ where
  abbrev AllFinite : List D → Type 0
  AllFinite = All λ c. d.is_finite c ≡ true

  -- Every command that the robot may send is a finite number.
  pub record SendsFinite (r : Robot D) : Type 0 where
    pub efforts : AllFinite r.tau_command
    pub positions : AllFinite r.joint_position_command
    pub velocities : AllFinite r.joint_velocity_command
    pub pose : AllFinite r.cartesian_position_command
    pub twist : AllFinite r.cartesian_velocity_command

  has_bad_number-AllFinite : (xs : List D) → has_bad_number xs ≡ false → AllFinite xs
  has_bad_number-AllFinite [] h = tt
  has_bad_number-AllFinite (x ∷ xs) h = ground (arith, has_bad_number-AllFinite xs)

  write_arm-SendsFinite :
      (a : ArmContainer D) → has_bad_command a ≡ false → SendsFinite (write_arm a).robot
  unfolding has_bad_command write_arm Robot.write
  write_arm-SendsFinite a h = record {
    efforts = has_bad_number-AllFinite a.hw_commands_joint_effort (ground arith);
    positions = has_bad_number-AllFinite a.hw_commands_joint_position (ground arith);
    velocities = has_bad_number-AllFinite a.hw_commands_joint_velocity (ground arith);
    pose = has_bad_number-AllFinite a.hw_commands_cartesian_position (ground arith);
    twist = has_bad_number-AllFinite a.hw_commands_cartesian_velocity (ground arith);
  }

  -- `write` lets no infinite number and no NaN through: if the robots' commands are finite, they are
  -- so after it, whatever the commands of the interface are and whether it returns OK or ERROR.
  pub write-SendsFinite :
      (arms : Arms D)
      → All (λ p. SendsFinite p.1.robot) arms
      → All (λ p. SendsFinite p.1.robot) (write arms).0
  unfolding write
  write-SendsFinite [] h = tt
  write-SendsFinite ((k, a) ∷ arms) h = elim (Bool-cases (has_bad_command a)) [
    | inl bad ↦ rw (bad, write) h
    | inr good ↦ elim (Bool-cases a.robot.has_error) [
      | inl e ↦ rw (good, write, e) h
      | inr e ↦ rw (good, write, e) (write_arm-SendsFinite a good, write-SendsFinite arms h.1)
    ]
  ]

  abbrev pub IsClear : ArmContainer D → Type 0
  IsClear a = (has_bad_command a ≡ false) × (a.robot.has_error ≡ false)

  write_clear :
      (k : Name) (a : ArmContainer D) (arms : Arms D)
      → IsClear a
      → write ((k, a) ∷ arms) ≡ keep k (write_arm a) (write arms)
  unfolding write
  write_clear k a arms h = ground arith

  write_blocked :
      (k : Name) (a : ArmContainer D) (arms : Arms D)
      → has_bad_command a ≡ false
      → a.robot.has_error ≡ true
      → write ((k, a) ∷ arms) ≡ ((k, a) ∷ arms, ok)
  unfolding write
  write_blocked k a arms good e = ground arith

  -- If an arm, with finite commands, has a robot in error, and all arms in front of it have finite
  -- commands and no error, `write` returns OK, but it hands over the commands of the arms in front of it
  -- only, whatever those behind it hold.
  pub write_front :
      (front : Arms D) (k : Name) (a : ArmContainer D) (back : Arms D)
      → All (λ p. IsClear p.1) front
      → has_bad_command a ≡ false
      → a.robot.has_error ≡ true
      → write (front ++ (k, a) ∷ back)
        ≡ (map (λ p. (p.0, write_arm p.1)) front ++ (k, a) ∷ back, ok)
  write_front [] k a back h good e = write_blocked k a back good e
  write_front ((j, b) ∷ front) k a back h good e =
      rw (write_clear j b (front ++ (k, a) ∷ back) h.0, write_front front k a back h.1 good e)
