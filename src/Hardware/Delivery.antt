-- ===== src/Hardware/Delivery.antt =====
-- From a request to switch to the command that libfranka receives: `prepare_command_mode_switch`,
-- `perform_command_mode_switch` and `write` of franka_multi_hardware_interface.cpp together with the
-- control thread of robot.cpp.
use franka_gazebo.Prelude.{false, List, [], ◌∷◌, ◌≡◌, ◌≢◌, ◌⊎◌, Name, Map, All, Both, ◌∙◌, ap}
use franka_gazebo.Common.Double.{Double}
use franka_gazebo.Common.Names.{joint, check_command_mode_type}
use franka_gazebo.Common.Kinds.{ok, kinds_of}
use franka_gazebo.Robot.{RobotState, Loop, running}
use franka_gazebo.Robot.Invariant.{IsSound, Returns, Returns_map}
use franka_gazebo.Robot.Recovery.{loop_of}
use franka_gazebo.Robot.Loops.{control_callback, control_callback-write, Sends}
use franka_gazebo.Hardware.{ArmContainer, Arms}
use franka_gazebo.Hardware.Prepare.{interfaces_of, prepare_command_mode_switch}
use franka_gazebo.Hardware.Prepare.Stop.{Keeps}
use franka_gazebo.Hardware.Prepare.Start.{requested}
use franka_gazebo.Hardware.Prepare.Switch.{
  AtArm, Both-trans, IsSwitched, prepare_command_mode_switch-IsSwitched,
  prepare_command_mode_switch-Keeps,
}
use franka_gazebo.Hardware.Perform.{perform_command_mode_switch}
use franka_gazebo.Hardware.Perform.Loops.{IsPerformed, perform_command_mode_switch-IsPerformed}
use franka_gazebo.Hardware.Cycle.{write_arm}

All_along :
    {A : Type 0} (R : Name → A → A → Type 0) (P : A → Type 0)
    → ((k : Name) (a b : A) → R k a b → P a → P b)
    → (xs ys : Map A) → Both (AtArm R) xs ys
    → All (λ p. P p.1) xs
    → All (λ p. P p.1) ys
All_along R P f [] [] b h = tt
All_along R P f [] (y ∷ ys) b h = absurd b
All_along R P f (x ∷ xs) [] b h = absurd b
All_along R P f (x ∷ xs) (y ∷ ys) b h = (f x.0 x.1 y.1 b.0.1 h.0, All_along R P f xs ys b.1 h.1)

module _ {D : Type 0} where
  -- An arm with interfaces to start runs the loop of the mode that they ask for, unless the request is
  -- a Cartesian one for efforts.
  abbrev pub Runs : List Name → Name → ArmContainer D → ArmContainer D → Type 0
  Runs start name a b =
      interfaces_of name start ≢ []
      → (check_command_mode_type (interfaces_of name start) ≡ joint)
        ⊎ ((kinds_of start).is_effort ≡ false)
      → b.robot.control_thread
        ≡ running (
            loop_of
              (requested (check_command_mode_type (interfaces_of name start)) (kinds_of start)))

  -- After `write`, a loop sends the arm's commands of its kind, from any robot that is sound.
  pub control_callback-write_arm :
      (l : Loop) (s : RobotState D) (a : ArmContainer D)
      → IsSound a.robot
      → Sends l a.hw_commands_joint_effort a.hw_commands_joint_position a.hw_commands_joint_velocity
          a.hw_commands_cartesian_position a.hw_commands_cartesian_velocity
          (control_callback l s (write_arm a).robot).1
  unfolding write_arm
  control_callback-write_arm l s a v =
      control_callback-write l s a.robot a.hw_commands_joint_effort a.hw_commands_joint_position
        a.hw_commands_joint_velocity a.hw_commands_cartesian_position
        a.hw_commands_cartesian_velocity v.unfinished

module _ {D : Type 0} ⦃d : Double D⦄ where
  switched_and_performed :
      (start stop : List Name) (name : Name) (a b c : ArmContainer D)
      → IsSwitched start stop name a b
      → IsPerformed b c
      → Runs start name a c
  switched_and_performed start stop name a b c p q hs ht =
      q.loop (p.marked hs ht) ∙ ap (λ m. running (loop_of m)) (p.started hs).0

  -- A request to switch that is accepted is also carried out: from sound robots the two halves of the
  -- switch end no process, and every arm with interfaces to start then runs the loop of the requested
  -- mode (unless a Cartesian effort is requested, which no mode stands for).
  pub prepare-perform-Runs :
      (start stop : List Name) (arms : Arms D)
      → All (λ p. IsSound p.1.robot) arms
      → (prepare_command_mode_switch start stop arms).1 ≡ ok
      → Returns
          (perform_command_mode_switch (prepare_command_mode_switch start stop arms).0)
          (Both (AtArm (Runs start)) arms)
  prepare-perform-Runs start stop arms h e =
      let arms' = (prepare_command_mode_switch start stop arms).0 in
      let sound =
        All_along (λ k. Keeps) (λ a. IsSound a.robot) (λ k a b p v. rw p.same_robot v) arms arms'
          (prepare_command_mode_switch-Keeps start stop arms) h in
      Returns_map
        (λ arms'' q.
          Both-trans (IsSwitched start stop) (λ k. IsPerformed) (Runs start)
            (switched_and_performed start stop) arms arms' arms''
            (prepare_command_mode_switch-IsSwitched start stop arms e) q)
        (perform_command_mode_switch arms') (perform_command_mode_switch-IsPerformed arms' sound)
