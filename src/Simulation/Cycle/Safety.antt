-- ===== src/Simulation/Cycle/Safety.antt =====
-- What `write` of franka_mj_hardware_system.cpp lets through to the engine.
use franka_gazebo.Prelude.{
  ℕ, ◌≡◌, refl, arith, true, false, List, [], ◌∷◌, All, Bool-cases, inl, inr,
}
use franka_gazebo.Common.Double.{Double}
use franka_gazebo.Simulation.{Actuators, SimArm, SimArms}
use franka_gazebo.Simulation.Engine.{Engine, store}
use franka_gazebo.Simulation.Cycle.{
  sim_on_deactivate, put_ctrl, put_commands, put_gripper, sim_has_bad_number, sim_has_bad_command,
  sim_write,
}

module _ {D : Type 0} ⦃d : Double D⦄ where
  -- Every control input of the engine is a finite number.
  abbrev pub IsFinite : Engine D → Type 0
  IsFinite e = (n : ℕ) → d.is_finite (e.ctrl n) ≡ true

  put_ctrl-IsFinite :
      (act : Actuators → ℕ) (js : List Actuators) (cs : List D) (e : Engine D)
      → sim_has_bad_number cs ≡ false
      → IsFinite e
      → IsFinite (put_ctrl act js cs e)
  put_ctrl-IsFinite act [] cs e b h = h
  put_ctrl-IsFinite act (j ∷ js) [] e b h = h
  put_ctrl-IsFinite act (j ∷ js) (c ∷ cs) e b h =
      put_ctrl-IsFinite act js cs (record e { ctrl = store (act j) c e.ctrl }) (ground arith)
        (λ n. ground (arith, h n))

  put_commands-IsFinite :
      (a : SimArm D) (e : Engine D)
      → sim_has_bad_command a ≡ false
      → IsFinite e
      → IsFinite (put_commands a e)
  unfolding put_commands sim_has_bad_command
  put_commands-IsFinite a e b h n = ground (
    arith,
    h n,
    put_ctrl-IsFinite (λ j. j.trq) a.joints a.hw_commands_joint_effort e (ground arith) h n,
    put_ctrl-IsFinite (λ j. j.pos) a.joints a.hw_commands_joint_position e (ground arith) h n,
    put_ctrl-IsFinite (λ j. j.vel) a.joints a.hw_commands_joint_velocity e (ground arith) h n,
  )

  put_gripper-IsFinite :
      (a : SimArm D) (e : Engine D)
      → d.is_finite a.gripper.cmd ≡ true
      → IsFinite e
      → IsFinite (put_gripper a e)
  unfolding put_gripper
  put_gripper-IsFinite a e c h n = ground (arith, h n)

  -- `write` lets no infinite number and no NaN of the interface's joint commands through: if the
  -- commands of the grippers and the engine's control inputs are finite, the inputs are so after it,
  -- whether it returns OK or ERROR.
  pub sim_write-IsFinite :
      (arms : SimArms D) (e : Engine D)
      → All (λ p. d.is_finite p.1.gripper.cmd ≡ true) arms
      → IsFinite e
      → IsFinite (sim_write arms e).0
  unfolding sim_write
  sim_write-IsFinite [] e c h = h
  sim_write-IsFinite ((k, a) ∷ arms) e c h = elim (Bool-cases (sim_has_bad_command a)) [
    | inl b ↦ rw (b, sim_write) h
    | inr b ↦
        rw (b, sim_write)
          (sim_write-IsFinite arms (put_gripper a (put_commands a e)) c.1
            (put_gripper-IsFinite a (put_commands a e) c.0 (put_commands-IsFinite a e b h)))
  ]

  -- After deactivation `write` leaves the engine as it is, if no arm has a gripper: the actuators keep
  -- the inputs and gains of the mode that ended.
  pub sim_write-sim_on_deactivate :
      (arms : SimArms D) (e : Engine D)
      → All (λ p. p.1.has_gripper ≡ false) arms
      → (sim_write (sim_on_deactivate arms) e).0 ≡ e
  unfolding sim_write sim_on_deactivate put_commands put_gripper
  sim_write-sim_on_deactivate [] e h = refl
  sim_write-sim_on_deactivate ((k, a) ∷ arms) e h =
      ground (arith, sim_write-sim_on_deactivate arms e h.1)
