-- ===== src/Hardware/Cycle/Lifecycle.antt =====
-- Activation and deactivation of the real hardware interface.
use franka_gazebo.Prelude.{
  true, false, Option, ◌≡◌, ◌∙◌, arith, Name, All, Both, replicate, Option-cases, inl, inr,
}
use franka_gazebo.Common.ControlMode.{idle}
use franka_gazebo.Common.Double.{Double}
use franka_gazebo.Robot.{RobotState, reading, stop_robot, initialize_continuous_reading}
use franka_gazebo.Robot.Invariant.{
  IsSound, Returns, Returns_map, stop_robot-IsSound, start_loop-IsSound, read_calm, IsCalm,
}
use franka_gazebo.Hardware.{ArmContainer, Arms}
use franka_gazebo.Hardware.Perform.{each_arm}
use franka_gazebo.Hardware.Perform.Loops.{each_arm-Returns, each_arm-All}
use franka_gazebo.Hardware.Cycle.{
  read_arm, read, deactivate_arm, on_deactivate, activate_arm, on_activate,
}

module _ {D : Type 0} where
  -- The arm's states are those of the robot state that was read.
  pub record IsRead (a b : ArmContainer D) : Type 0 where
    pub sound : IsSound b.robot
    pub state : b.hw_franka_robot_state ≡ b.robot.current_state
    pub positions : b.hw_positions ≡ b.robot.current_state.q
    pub velocities : b.hw_velocities ≡ b.robot.current_state.dq
    pub efforts : b.hw_efforts ≡ b.robot.current_state.tau_j
    pub model : b.has_model ≡ true
    pub mode : b.control_mode ≡ a.control_mode

  read_arm-IsRead :
      (once : Option (RobotState D)) (a : ArmContainer D)
      → IsSound a.robot × IsCalm a.robot
      → Returns (read_arm once a) (IsRead a)
  unfolding read_arm
  read_arm-IsRead once a v = ground (arith, read_calm once a.robot v.0 v.1)

  -- Where no loop runs beside an error, `read` comes back, whatever libfranka's `readOnce` does on each arm;
  -- every arm then shows the state that its robot keeps, and has its model.
  pub read-IsRead :
      (once : Name → Option (RobotState D)) (arms : Arms D)
      → All (λ p. IsSound p.1.robot × IsCalm p.1.robot) arms
      → Returns (read once arms) (Both (λ p q. (q.0 ≡ p.0) × IsRead p.1 q.1) arms)
  unfolding read
  read-IsRead once arms h =
      each_arm-Returns (λ k. read_arm (once k)) (λ a. IsSound a.robot × IsCalm a.robot) IsRead
        (λ k a v. read_arm-IsRead (once k) a v) arms h

  pub record IsDeactivated (a b : ArmContainer D) : Type 0 where
    pub sound : IsSound b.robot
    pub stopped : b.robot.stopped ≡ true
    pub same_mode : b.control_mode ≡ a.control_mode
    pub same_error : b.robot.has_error ≡ a.robot.has_error
    pub same_mark : b.switch_cm ≡ a.switch_cm

  deactivate_arm-IsDeactivated :
      (a : ArmContainer D) → IsSound a.robot → Returns (deactivate_arm a) (IsDeactivated a)
  unfolding deactivate_arm stop_robot
  deactivate_arm-IsDeactivated a v = ground (arith, stop_robot-IsSound a.robot v)

  -- Deactivation ends no process and stops every robot, but each container keeps the control mode that
  -- it had.
  pub on_deactivate-IsDeactivated :
      (arms : Arms D)
      → All (λ p. IsSound p.1.robot) arms
      → Returns (on_deactivate arms) (Both (λ p q. (q.0 ≡ p.0) × IsDeactivated p.1 q.1) arms)
  unfolding on_deactivate
  on_deactivate-IsDeactivated arms h =
      each_arm-Returns (λ k. deactivate_arm) (λ a. IsSound a.robot) IsDeactivated
        (λ k. deactivate_arm-IsDeactivated) arms h

module _ {D : Type 0} ⦃d : Double D⦄ where
  abbrev IsReady : ArmContainer D → Type 0
  IsReady a = IsSound a.robot × (a.robot.stopped ≡ true) × (a.robot.has_error ≡ false)

  pub record IsActivated (a : ArmContainer D) : Type 0 where
    pub sound : IsSound a.robot
    pub mode : a.control_mode ≡ idle
    pub cleared : a.robot.has_error ≡ false
    pub effort : a.hw_commands_joint_effort ≡ replicate 7 d.nought

  activate_arm-IsActivated : (a : ArmContainer D) → IsReady a → Returns (activate_arm a) IsActivated
  unfolding activate_arm initialize_continuous_reading
  activate_arm-IsActivated a v = ground (arith, v.2, start_loop-IsSound reading a.robot v.0 v.1)

  read_arm-IsActivated :
      (once : Option (RobotState D)) (a : ArmContainer D)
      → IsActivated a
      → Returns (read_arm once a) IsActivated
  unfolding read_arm
  read_arm-IsActivated once a v =
      ground (arith, v.cleared, read_calm once a.robot v.sound (λ l p. v.cleared))

  on_activate-IsActivated :
      (once : Name → Option (RobotState D)) (arms : Arms D)
      → All (λ p. IsReady p.1) arms
      → Returns (on_activate once arms) (All (λ p. IsActivated p.1))
  unfolding on_activate read
  on_activate-IsActivated once arms h =
      let started =
        each_arm-All (λ k. activate_arm) IsReady IsActivated (λ k. activate_arm-IsActivated) arms
          h in
      elim (Option-cases (each_arm (λ k. activate_arm) arms)) [
        | inl e ↦ absurd (rw e at started)
        | inr (arms', e) ↦
            rw (e, on_activate)
              (each_arm-All (λ k. read_arm (once k)) IsActivated IsActivated
                (λ k a v. read_arm-IsActivated (once k) a v) arms' (rw e at started))
      ]

  -- From any sound state without an error the interface can be deactivated and activated again: neither ends
  -- the process, and every arm is then idle with effort commands of 0.
  pub on_deactivate-on_activate :
      (once : Name → Option (RobotState D)) (arms : Arms D)
      → All (λ p. IsSound p.1.robot × (p.1.robot.has_error ≡ false)) arms
      → Returns
          (on_deactivate arms)
          (λ arms'. Returns (on_activate once arms') (All (λ p. IsActivated p.1)))
  unfolding on_deactivate
  on_deactivate-on_activate once arms h =
      Returns_map (on_activate-IsActivated once) (each_arm (λ k. deactivate_arm) arms) (
        each_arm-All (λ k. deactivate_arm) (λ a. IsSound a.robot × (a.robot.has_error ≡ false))
          IsReady
          (λ k a v.
            Returns_map (λ b w. (w.sound, w.stopped, w.same_error ∙ v.1)) (deactivate_arm a)
              (deactivate_arm-IsDeactivated a v.0))
          arms h)
