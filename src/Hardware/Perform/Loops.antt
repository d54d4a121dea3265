-- ===== src/Hardware/Perform/Loops.antt =====
-- Which loop runs on an arm after `perform_command_mode_switch`.
use franka_gazebo.Prelude.{
  true, false, Option, [], ◌∷◌, ◌≡◌, refl, arith, Name, Map, All, Both, Option-cases, inl, inr,
}
use franka_gazebo.Common.ControlMode.{ControlMode}
use franka_gazebo.Robot.{Robot, running, stop_robot, start_loop}
use franka_gazebo.Robot.Invariant.{
  IsSound, Returns, stop_robot-IsSound, start_loop-IsSound, Returns_map,
}
use franka_gazebo.Robot.Recovery.{loop_of, initialize-eq-start_loop}
use franka_gazebo.Hardware.{ArmContainer, Arms}
use franka_gazebo.Hardware.Perform.{
  each_arm, perform_arm, perform_command_mode_switch, restart_loop,
}

-- Every body comes back with a related value, so the loop does.
pub each_arm-Returns :
    {A B : Type 0} (f : Name → A → Option B) (P : A → Type 0) (R : A → B → Type 0)
    → ((k : Name) (a : A) → P a → Returns (f k a) (R a))
    → (arms : Map A) → All (λ p. P p.1) arms
    → Returns (each_arm f arms) (Both (λ p q. (q.0 ≡ p.0) × R p.1 q.1) arms)
unfolding each_arm
each_arm-Returns f P R g [] h = tt
each_arm-Returns f P R g ((k, a) ∷ arms) h =
    let first = g k a h.0 in
    let rest = each_arm-Returns f P R g arms h.1 in
    elim (Option-cases (f k a)) [
      | inl e ↦ absurd (rw e at first)
      | inr (b, e) ↦ elim (Option-cases (each_arm f arms)) [
        | inl e' ↦ absurd (rw e' at rest)
        | inr (bs, e') ↦ rw (e, each_arm, e') ((refl, rw e at first), rw e' at rest)
      ]
    ]

pub each_arm-All :
    {A B : Type 0} (f : Name → A → Option B) (P : A → Type 0) (Q : B → Type 0)
    → ((k : Name) (a : A) → P a → Returns (f k a) Q)
    → (arms : Map A) → All (λ p. P p.1) arms
    → Returns (each_arm f arms) (All (λ p. Q p.1))
each_arm-All {A} {B} f P Q g arms h =
    Returns_map (Both-All arms) (each_arm f arms) (each_arm-Returns f P (λ a b. Q b) g arms h)
  where
    Both-All :
        (xs : Map A) (ys : Map B) → Both (λ p q. (q.0 ≡ p.0) × Q q.1) xs ys → All (λ p. Q p.1) ys
    Both-All [] [] b = tt
    Both-All [] (y ∷ ys) b = absurd b
    Both-All (x ∷ xs) [] b = absurd b
    Both-All (x ∷ xs) (y ∷ ys) b = (b.0.1, Both-All xs ys b.1)

module _ {D : Type 0} where
  -- An arm that is marked for the switch runs the loop of its mode and is no longer marked; another
  -- arm is as before.
  pub record IsPerformed (a b : ArmContainer D) : Type 0 where
    pub sound : IsSound b.robot
    pub unmarked : b.switch_cm ≡ false
    pub mode : b.control_mode ≡ a.control_mode
    pub loop : a.switch_cm ≡ true → b.robot.control_thread ≡ running (loop_of a.control_mode)
    pub untouched : a.switch_cm ≡ false → b ≡ a

  pub restart_loop-IsSound :
      (m : ControlMode) (r : Robot D)
      → IsSound r
      → Returns (restart_loop m r) (λ r'. IsSound r' × (r'.control_thread ≡ running (loop_of m)))
  restart_loop-IsSound m r v =
      let stops = stop_robot-IsSound r v in
      elim (Option-cases (stop_robot r)) [
        | inl e ↦ absurd (rw e at stops)
        | inr (s, e) ↦
            let (sound, stopped) = rw e at stops in
            rw (e, restart_loop, initialize-eq-start_loop m s)
              (Returns_map (λ r' w. (w.0, w.1)) (start_loop (loop_of m) s)
                (start_loop-IsSound (loop_of m) s sound stopped))
      ]

  perform_arm-IsPerformed :
      (a : ArmContainer D) → IsSound a.robot → Returns (perform_arm a) (IsPerformed a)
  unfolding perform_arm
  perform_arm-IsPerformed a v = ground (arith, restart_loop-IsSound a.control_mode a.robot v)

  -- The second half of a switch ends no process, whatever loops and errors the robots are in: each arm
  -- that the first half marked then runs the loop of its control mode, and the mark is gone.
  pub perform_command_mode_switch-IsPerformed :
      (arms : Arms D)
      → All (λ p. IsSound p.1.robot) arms
      → Returns
          (perform_command_mode_switch arms)
          (Both (λ p q. (q.0 ≡ p.0) × IsPerformed p.1 q.1) arms)
  unfolding perform_command_mode_switch
  perform_command_mode_switch-IsPerformed arms h =
      each_arm-Returns (λ k. perform_arm) (λ a. IsSound a.robot) IsPerformed
        (λ k. perform_arm-IsPerformed) arms h
