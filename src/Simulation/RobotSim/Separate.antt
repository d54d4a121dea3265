-- ===== src/Simulation/RobotSim/Separate.antt =====
-- The actuators of the arms that `initSim` sets up with `RobotSim`.
use mathlib.Core.Option.{some-injective}
use franka_gazebo.Prelude.{
  ℕ, zero, suc, ◌+◌, ◌≡◌, ◌≢◌, refl, sym, subst, arith, Bool, true, false, Option, some, List, [],
  ◌∷◌, ◌++◌, Name, codes, same, Map, assign, All, Both, Option-cases, inl, inr,
}
use franka_gazebo.Common.Double.{Double}
use franka_gazebo.Robot.{RobotState}
use franka_gazebo.Hardware.Init.{HardwareInfo, to_string}
use franka_gazebo.Simulation.{SimArm, SimArms}
use franka_gazebo.Simulation.Engine.{Gains, Engine}
use franka_gazebo.Simulation.Engine.Driven.{Fresh, Distinct, numbers}
use franka_gazebo.Common.Kinds.{ok}
use franka_gazebo.Simulation.Cycle.{sim_write}
use franka_gazebo.Simulation.Cycle.Obedience.{IsObeyed, sim_write-IsObeyed}
use franka_gazebo.Simulation.Cycle.Delivered.{inputs, all_inputs}
use franka_gazebo.Simulation.Init.{Indices, sim_container, init_sim_arms, init_sim}
use franka_gazebo.Simulation.Init.Ready.{init_sim_arms_round}
use franka_gazebo.Simulation.RobotSim.{
  MjModel, RobotSim, new_robot, populate_indices, indices_of, sim_outside,
}
use franka_gazebo.Simulation.RobotSim.Found.{range}
use franka_gazebo.Simulation.RobotSim.Names.{
  endings, apart, compatible, HasUniqueActuators, IsAt, numbers-IsAt, Distinct-apart, All-Fresh,
}
use franka_gazebo.Simulation.RobotSim.Parts.{IsPopulated}
use franka_gazebo.Simulation.RobotSim.Populated.{populate_indices-IsPopulated}
use franka_gazebo.Simulation.RobotSim.Keys.{KeysApart, assign-All_pairs, assign-KeysApart}

append-Fresh : (n : ℕ) (xs ys : List ℕ) → Fresh n xs → Fresh n ys → Fresh n (xs ++ ys)
append-Fresh n [] ys h k = k
append-Fresh n (x ∷ xs) ys h k = (h.0, append-Fresh n xs ys h.1 k)

append-Distinct :
    (xs ys : List ℕ) → Distinct xs → Distinct ys → All (λ x. Fresh x ys) xs → Distinct (xs ++ ys)
append-Distinct [] ys h k f = k
append-Distinct (x ∷ xs) ys h k f = (append-Fresh x xs ys h.0 f.0, append-Distinct xs ys h.1 k f.1)

append-All-Fresh :
    (ns xs ys : List ℕ)
    → All (λ n. Fresh n xs) ns
    → All (λ n. Fresh n ys) ns
    → All (λ n. Fresh n (xs ++ ys)) ns
append-All-Fresh [] xs ys h k = tt
append-All-Fresh (n ∷ ns) xs ys h k =
    (append-Fresh n xs ys h.0 k.0, append-All-Fresh ns xs ys h.1 k.1)

nothing_Fresh : (ns : List ℕ) → All (λ n. Fresh n []) ns
nothing_Fresh [] = tt
nothing_Fresh (n ∷ ns) = (tt, nothing_Fresh ns)

abbrev pub endings_of : Bool → List Name
endings_of true = endings (range 7 0) ++ codes "_act_gripper" ∷ []
endings_of false = endings (range 7 0)

endings_apart : (b : Bool) → apart (endings_of b) ≡ true
unfolding to_string
endings_apart true = refl
endings_apart false = refl

endings_compatible : (a b : Bool) → compatible (endings_of a) (endings_of b) ≡ true
unfolding to_string
endings_compatible true true = refl
endings_compatible true false = refl
endings_compatible false true = refl
endings_compatible false false = refl

Both-append :
    (R : Name → ℕ → Type 0) (xs : List Name) (ys : List ℕ) (xs' : List Name) (ys' : List ℕ)
    → Both R xs ys
    → Both R xs' ys'
    → Both R (xs ++ xs') (ys ++ ys')
Both-append R [] [] xs' ys' h k = k
Both-append R [] (y ∷ ys) xs' ys' h k = elim h [ ]
Both-append R (x ∷ xs) [] xs' ys' h k = elim h [ ]
Both-append R (x ∷ xs) (y ∷ ys) xs' ys' h k = (h.0, Both-append R xs ys xs' ys' h.1 k)

module _ {D : Type 0} where
  -- Both entries are of one arm, with its actuators and gripper.
  pub record HasSameDevices (p q : Name × SimArm D) : Type 0 where
    pub same_joints : q.1.joints ≡ p.1.joints
    pub same_gripper : q.1.has_gripper ≡ p.1.has_gripper
    pub same_act : q.1.gripper_act_idx ≡ p.1.gripper_act_idx

  all_inputs-same :
      (arms others : SimArms D)
      → Both HasSameDevices arms others
      → all_inputs others ≡ all_inputs arms
  all_inputs-same [] [] h = refl
  all_inputs-same [] (q ∷ others) h = elim h [ ]
  all_inputs-same (p ∷ arms) [] h = elim h [ ]
  all_inputs-same (p ∷ arms) (q ∷ others) h =
      let rest = all_inputs-same arms others h.1 in
      rw (h.0.same_joints, h.0.same_gripper, h.0.same_act, rest) refl

module _ {D : Type 0} (m : MjModel) where
  -- An arm writes to the actuators that have the names of its own.
  abbrev pub IsNamed : Name × SimArm D → Type 0
  IsNamed p = Both (IsAt m p.0) (endings_of p.1.has_gripper) (inputs p.1)

  -- The actuators of two arms are different if the arms' names are.
  inputs-All-Fresh :
      HasUniqueActuators m
      → (p : Name × SimArm D) (arms : SimArms D) → IsNamed p
      → All IsNamed arms
      → All (λ q. p.0 ≢ q.0) arms
      → All (λ n. Fresh n (all_inputs arms)) (inputs p.1)
  inputs-All-Fresh unique p [] h hs ne = nothing_Fresh (inputs p.1)
  inputs-All-Fresh unique p ((k, a) ∷ arms) h hs ne =
      append-All-Fresh (inputs p.1) (inputs a) (all_inputs arms)
        (All-Fresh m unique p.0 k (endings_of p.1.has_gripper) (endings_of a.has_gripper)
          (inputs p.1) (inputs a) ne.0 h hs.0 (endings_compatible p.1.has_gripper a.has_gripper))
        (inputs-All-Fresh unique p arms h hs.1 ne.1)

  all_inputs-Distinct :
      HasUniqueActuators m
      → (arms : SimArms D) → All IsNamed arms
      → KeysApart arms
      → Distinct (all_inputs arms)
  all_inputs-Distinct unique [] hs d = tt
  all_inputs-Distinct unique ((k, a) ∷ arms) hs d =
      append-Distinct (inputs a) (all_inputs arms)
        (Distinct-apart m unique k (endings_of a.has_gripper) (inputs a) hs.0
          (endings_apart a.has_gripper))
        (all_inputs-Distinct unique arms hs.1 d.1)
        (inputs-All-Fresh unique (k, a) arms hs.0 hs.1 d.0)

  module _ ⦃d : Double D⦄ ⦃g : Gains D⦄ (initial : ℕ → Option D) (s : RobotState D) where
    inputs-IsNamed :
        (name : Name) (has : Bool) (r : RobotSim)
        → IsPopulated m (new_robot name has) r
        → IsNamed (name, sim_container (sim_outside m initial s) name has (indices_of r))
    inputs-IsNamed name true r h =
        Both-append (IsAt m name) (endings (range 7 0)) (numbers r.actuators)
          (codes "_act_gripper" ∷ []) (r.act_idx ∷ [])
          (numbers-IsAt m name (range 7 0) r.actuators h.found_actuators) (h.found_act refl, tt)
    inputs-IsNamed name false r h = numbers-IsAt m name (range 7 0) r.actuators h.found_actuators

    sim_container-IsNamed :
        (name : Name) (has : Bool) (ix : Indices)
        → (sim_outside m initial s).populate_indices name has ≡ some ix
        → IsNamed (name, sim_container (sim_outside m initial s) name has ix)
    sim_container-IsNamed name has ix h =
        elim (Option-cases (populate_indices m (new_robot name has))) [
          | inl e ↦ absurd (ground (arith, e))
          | inr (r, e) ↦
              let same : indices_of r ≡ ix = some-injective _ _ (ground (arith, e)) in
              subst (λ k. IsNamed (name, sim_container (sim_outside m initial s) name has k)) same
                (inputs-IsNamed name has r
                  (populate_indices-IsPopulated m (new_robot name has) r e))
        ]

    init_sim_arms-IsNamed :
        (params : Map Name) (n i : ℕ) (arms : SimArms D) (e : Engine D) (new : SimArms D × Engine D)
        → init_sim_arms (sim_outside m initial s) params n i arms e ≡ some new
        → All IsNamed arms
        → KeysApart arms
        → All IsNamed new.0 × KeysApart new.0
    unfolding init_sim_arms
    init_sim_arms-IsNamed params zero i arms e new h hs d =
        let same = some-injective _ _ h in (rw (← same) hs, rw (← same) d)
    init_sim_arms-IsNamed params (suc n) i arms e new h hs d =
        let (name, has, ix, e', free, made, rest) =
          init_sim_arms_round (sim_outside m initial s) params n i arms e new h in
        let a = sim_container (sim_outside m initial s) name has ix in
        init_sim_arms-IsNamed params n (i + 1) (assign name a arms) e' new rest
          (assign-All_pairs IsNamed name a arms (sim_container-IsNamed name has ix made) hs)
          (assign-KeysApart name a arms free d)

    -- If the engine's model gives no two actuators one number, no two of the actuators that the arms which
    -- `initSim` has set up drive, those of the grippers included, have one number: no two joints or arms
    -- ever write to the same actuator.
    pub init_sim-Distinct :
        HasUniqueActuators m
        → (count : ℕ) (info : HardwareInfo) (e : Engine D) (new : SimArms D × Engine D)
        → init_sim (sim_outside m initial s) count info e ≡ some new
        → Distinct (all_inputs new.0)
    unfolding init_sim
    init_sim-Distinct unique count info e new h =
        let (named, keys) =
          init_sim_arms-IsNamed info.hardware_parameters count 0 [] e new (ground arith) tt tt in
        all_inputs-Distinct unique new.0 named keys

    -- However the modes, marks and commands of the arms that `initSim` has set up have changed since, a
    -- `write` that returns OK gives every joint of every arm its own command of the kind that the arm's
    -- mode asks for, and every gripper its own, if the engine's model gives no two actuators one number.
    pub init_sim-IsObeyed :
        HasUniqueActuators m
        → (count : ℕ) (info : HardwareInfo) (e : Engine D) (new : SimArms D × Engine D)
          (arms : SimArms D) (e' : Engine D)
        → init_sim (sim_outside m initial s) count info e ≡ some new
        → Both HasSameDevices new.0 arms
        → (sim_write arms e').1 ≡ ok
        → All (λ p. IsObeyed (sim_write arms e').0 p.1) arms
    init_sim-IsObeyed unique count info e new arms e' h same r =
        sim_write-IsObeyed arms e'
          (subst Distinct (sym (all_inputs-same new.0 arms same))
            (init_sim-Distinct unique count info e new h))
          r
