-- ===== src/Simulation/Delivery.antt =====
-- From a request to switch to the actuators that act: `prepare_command_mode_switch` and
-- `perform_command_mode_switch` of franka_mj_hardware_system.cpp together.
use franka_gazebo.Prelude.{◌≡◌, ◌≢◌, refl, ◌∙◌, List, [], ◌∷◌, Name, Both}
use franka_gazebo.Common.Double.{Double}
use franka_gazebo.Common.Names.{joint}
use franka_gazebo.Common.Kinds.{ok, kinds_of}
use franka_gazebo.Hardware.Prepare.Start.{requested}
use franka_gazebo.Hardware.Prepare.Switch.{AtArm, Both-trans}
use franka_gazebo.Simulation.{SimArm, SimArms}
use franka_gazebo.Simulation.Engine.{Gains, Engine, perform_command_mode_switch}
use franka_gazebo.Simulation.Engine.Driven.{Distinct, all_numbers, IsDriven}
use franka_gazebo.Simulation.Engine.Switched.{IsServoed, perform_command_mode_switch-IsServoed}
use franka_gazebo.Simulation.Prepare.{sim_interfaces_of, sim_prepare_command_mode_switch}
use franka_gazebo.Simulation.Prepare.Switch.{
  IsSimSwitched, sim_prepare_command_mode_switch-IsSimSwitched,
}

module _ {D : Type 0} ⦃d : Double D⦄ ⦃g : Gains D⦄ where
  -- In an engine, the actuators of an arm with interfaces to start act as the requested mode wants.
  abbrev pub Acts : List Name → Engine D → Name → SimArm D → SimArm D → Type 0
  Acts start e name a b =
      sim_interfaces_of name start ≢ [] → IsDriven (requested joint (kinds_of start)) e a.joints

  switched_and_servoed :
      (start stop : List Name) (e f : Engine D) (name : Name) (a b c : SimArm D)
      → IsSimSwitched start stop name a b
      → IsServoed e f b c
      → Acts start f name a c
  switched_and_servoed start stop e f name a b c p q some_there =
      let (mid, stopped, started) = p in
      let (mode, marked) = started.mode some_there in
      let same : b.joints ≡ a.joints = started.keeps.same_joints ∙ stopped.keeps.same_joints in
      rw (← same, ← mode) (q.driven marked)

  all_numbers-IsSimSwitched :
      (start stop : List Name) (xs ys : SimArms D)
      → Both (AtArm (IsSimSwitched start stop)) xs ys
      → all_numbers ys ≡ all_numbers xs
  all_numbers-IsSimSwitched start stop [] [] b = refl
  all_numbers-IsSimSwitched start stop [] (y ∷ ys) b = absurd b
  all_numbers-IsSimSwitched start stop (x ∷ xs) [] b = absurd b
  all_numbers-IsSimSwitched start stop ((k, x) ∷ xs) ((l, y) ∷ ys) b =
      let (mid, stopped, started) = b.0.1 in
      let same : y.joints ≡ x.joints = started.keeps.same_joints ∙ stopped.keeps.same_joints in
      rw (same, all_numbers-IsSimSwitched start stop xs ys b.1) refl

  -- A request to switch that the simulation accepts is also carried out: if no actuator number occurs
  -- twice, then after both halves of the switch the actuators of every arm with interfaces to start act
  -- as the requested mode wants, with the gains of its kind on and those of the others 0.
  pub sim_prepare-perform-Acts :
      (start stop : List Name) (arms : SimArms D) (e : Engine D)
      → Distinct (all_numbers arms)
      → (sim_prepare_command_mode_switch start stop arms).1 ≡ ok
      → Both
          (AtArm (
            Acts start
              (perform_command_mode_switch
                (sim_prepare_command_mode_switch start stop arms).0
                e).1))
          arms
          (perform_command_mode_switch (sim_prepare_command_mode_switch start stop arms).0 e).0
  sim_prepare-perform-Acts start stop arms e h r =
      let arms' = (sim_prepare_command_mode_switch start stop arms).0 in
      let f = (perform_command_mode_switch arms' e).1 in
      let switched = sim_prepare_command_mode_switch-IsSimSwitched start stop arms r in
      let apart : Distinct (all_numbers arms') =
        rw (all_numbers-IsSimSwitched start stop arms arms' switched) h in
      Both-trans (IsSimSwitched start stop) (λ k. IsServoed e f) (Acts start f)
        (switched_and_servoed start stop e f) arms arms' (perform_command_mode_switch arms' e).0
        switched (perform_command_mode_switch-IsServoed arms' e apart)
