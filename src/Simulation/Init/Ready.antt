-- ===== src/Simulation/Init/Ready.antt =====
-- The arms that `initSim` of franka_mj_hardware_system.cpp sets up.
use mathlib.Core.Option.{some-injective}
use franka_gazebo.Prelude.{
  ℕ, zero, suc, ◌+◌, ◌*◌, Bool, false, none, some, [], ◌++◌, ◌≡◌, refl, arith, Name, codes, same,
  Map, find, assign, length, All, Option-cases, inl, inr, replicate,
}
use franka_gazebo.Common.ControlMode.{idle}
use franka_gazebo.Common.Double.{Double}
use franka_gazebo.Hardware.Init.{HardwareInfo, to_string}
use franka_gazebo.Hardware.Init.Fresh.{length-assign, assign-All}
use franka_gazebo.Simulation.{SimArm, SimArms}
use franka_gazebo.Simulation.Engine.{Gains, Engine}
use franka_gazebo.Simulation.Init.{
  SimOutside, Indices, sim_container, set_up_engine, init_sim_arms, init_sim,
}

module _ {D : Type 0} ⦃d : Double D⦄ ⦃g : Gains D⦄ where
  -- How an arm leaves `initSim`: its commands and mode are at rest, and its actuators and gripper are
  -- those that `populateIndices` found under its name.
  pub record IsReady (o : SimOutside D) (a : SimArm D) : Type 0 where
    pub mode : a.control_mode ≡ idle
    pub unmarked : a.switch_cm ≡ false
    pub efforts : a.hw_commands_joint_effort ≡ replicate 7 d.nought
    pub found :
        (ix : Indices) × (o.populate_indices a.robot_name a.has_gripper ≡ some ix)
        × (a.joints ≡ ix.joints)
        × (a.gripper_act_idx ≡ ix.gripper_act_idx)

  sim_container-IsReady :
      (o : SimOutside D) (name : Name) (has_gripper : Bool) (ix : Indices)
      → o.populate_indices name has_gripper ≡ some ix
      → IsReady o (sim_container o name has_gripper ix)
  sim_container-IsReady o name has_gripper ix e = record {
    mode = refl;
    unmarked = refl;
    efforts = refl;
    found = (ix, e, refl, refl);
  }

  -- What a round of the loop that succeeds has found.
  pub init_sim_arms_round :
      (o : SimOutside D) (params : Map Name) (n i : ℕ) (arms : SimArms D) (e : Engine D)
      (new : SimArms D × Engine D)
      → init_sim_arms o params (suc n) i arms e ≡ some new
      → (name : Name) × (has_gripper : Bool) × (ix : Indices) × (e' : Engine D) × (find name arms
          ≡ none)
        × (o.populate_indices name has_gripper ≡ some ix)
        × (init_sim_arms o params n
              (i + 1)
              (assign name (sim_container o name has_gripper ix) arms)
              e'
            ≡ some new)
  unfolding init_sim_arms
  init_sim_arms_round o params n i arms e new h =
      elim (Option-cases (find (codes "ns_" ++ to_string (i + 1)) params)) [
        | inl p ↦ absurd (ground (arith, p))
        | inr (name, p) ↦ elim (Option-cases (find name arms)) [
          | inr (other, q) ↦ absurd (ground (arith, p, q))
          | inl q ↦ elim (Option-cases (find (codes "hand_" ++ to_string (i + 1)) params)) [
            | inl r ↦ absurd (ground (arith, p, q, r))
            | inr (hand, r) ↦
                elim (Option-cases (o.populate_indices name (same hand (codes "True")))) [
                  | inl t ↦ absurd (ground (arith, p, q, r, t))
                  | inr (ix, t) ↦ elim (Option-cases (set_up_engine o i ix e)) [
                    | inl u ↦ absurd (ground (arith, p, q, r, t, u))
                    | inr (e', u) ↦ (
                      name,
                      same hand (codes "True"),
                      ix,
                      e',
                      q,
                      t,
                      ground (arith, p, q, r, t, u),
                    )
                  ]
                ]
          ]
        ]
      ]

  init_sim_arms-IsReady :
      (o : SimOutside D) (params : Map Name) (n i : ℕ) (arms : SimArms D) (e : Engine D)
      (new : SimArms D × Engine D)
      → init_sim_arms o params n i arms e ≡ some new
      → All (λ p. IsReady o p.1) arms
      → (length new.0 ≡ length arms + n) × All (λ p. IsReady o p.1) new.0
  unfolding init_sim_arms
  init_sim_arms-IsReady o params zero i arms e new h hs =
      let same = some-injective _ _ h in (rw (← same) (omega arith), rw (← same) hs)
  init_sim_arms-IsReady o params (suc n) i arms e new h hs =
      let (name, has_gripper, ix, e', free, made, rest) =
        init_sim_arms_round o params n i arms e new h in
      let a = sim_container o name has_gripper ix in
      let (size, ready) =
        init_sim_arms-IsReady o params n (i + 1) (assign name a arms) e' new rest (
          assign-All (IsReady o) name a arms (sim_container-IsReady o name has_gripper ix made)
            hs) in
      (omega (arith, size, length-assign {0} name a arms free), ready)

  -- If `initSim` succeeds, there are seven joints for each robot that was announced and as many arms as
  -- robots; every arm is idle, not marked for a switch, has effort commands of 0, and drives the actuators
  -- that the engine's model has for its name.
  pub init_sim-IsReady :
      (o : SimOutside D) (count : ℕ) (info : HardwareInfo) (e : Engine D)
      (new : SimArms D × Engine D)
      → init_sim o count info e ≡ some new
      → (length info.joints ≡ 7 * count) × (length new.0 ≡ count) × All (λ p. IsReady o p.1) new.0
  unfolding init_sim
  init_sim-IsReady o count info e new h =
      let made : init_sim_arms o info.hardware_parameters count 0 [] e ≡ some new = ground arith in
      let (size, ready) =
        init_sim_arms-IsReady o info.hardware_parameters count 0 [] e new made tt in
      (ground arith, omega (arith, size), ready)
