-- ===== src/Simulation/Cycle/Delivered.antt =====
-- Which control inputs the commands of one arm set in `write` of franka_mj_hardware_system.cpp.
use franka_gazebo.Prelude.{
  ℕ, ◌≡◌, ◌⊎◌, refl, ◌∙◌, arith, List, [], ◌∷◌, ◌++◌, if◌then◌else◌, All, inl, inr,
}
use franka_gazebo.Common.ControlMode.{ControlMode, joint_torque, joint_position, joint_velocity}
use franka_gazebo.Simulation.{Actuators, SimArm, SimArms}
use franka_gazebo.Simulation.Engine.{Engine, store}
use franka_gazebo.Simulation.Engine.Driven.{Fresh, Distinct, numbers}
use franka_gazebo.Simulation.Cycle.{put_ctrl, put_commands}

-- The inputs that `write` may set for an arm: those of its joints, and that of its gripper.
abbrev pub inputs : {D : Type 0} → SimArm D → List ℕ
inputs a = if a.has_gripper then numbers a.joints ++ a.gripper_act_idx ∷ [] else numbers a.joints

abbrev pub all_inputs : {D : Type 0} → SimArms D → List ℕ
all_inputs [] = []
all_inputs ((k, a) ∷ arms) = inputs a ++ all_inputs arms

-- One of the three actuators of a joint.
abbrev Picks : (Actuators → ℕ) → Type 0
Picks act = (j : Actuators) → (act j ≡ j.trq) ⊎ (act j ≡ j.pos) ⊎ (act j ≡ j.vel)

trq-Picks : Picks (λ j. j.trq)
trq-Picks j = inl refl

pos-Picks : Picks (λ j. j.pos)
pos-Picks j = inr (inl refl)

vel-Picks : Picks (λ j. j.vel)
vel-Picks j = inr (inr refl)

module _ {D : Type 0} where
  -- The commands stand at the actuators that `act` picks, one for each joint that has one.
  abbrev pub Placed : (Actuators → ℕ) → Engine D → List Actuators → List D → Type 0
  Placed act e [] cs = Unit
  Placed act e (j ∷ js) [] = Unit
  Placed act e (j ∷ js) (c ∷ cs) = (e.ctrl (act j) ≡ c) × Placed act e js cs

  -- The commands of an arm stand at the actuators of its control mode.
  abbrev pub Obeyed : Engine D → SimArm D → ControlMode → Type 0
  Obeyed e a joint_torque = Placed (λ j. j.trq) e a.joints a.hw_commands_joint_effort
  Obeyed e a joint_position = Placed (λ j. j.pos) e a.joints a.hw_commands_joint_position
  Obeyed e a joint_velocity = Placed (λ j. j.vel) e a.joints a.hw_commands_joint_velocity
  Obeyed e a _ = Unit

  put_ctrl_other :
      (act : Actuators → ℕ) (js : List Actuators) (cs : List D) (e : Engine D) (n : ℕ)
      → Picks act
      → Fresh n (numbers js)
      → (put_ctrl act js cs e).ctrl n ≡ e.ctrl n
  put_ctrl_other act [] cs e n p h = refl
  put_ctrl_other act (j ∷ js) [] e n p h = refl
  put_ctrl_other act (j ∷ js) (c ∷ cs) e n p h =
      put_ctrl_other act js cs (record e { ctrl = store (act j) c e.ctrl }) n p h.1.1.1
      ∙ ground (arith, p j)

  put_ctrl-Placed :
      (act : Actuators → ℕ) (js : List Actuators) (cs : List D) (e : Engine D)
      → Picks act
      → Distinct (numbers js)
      → Placed act (put_ctrl act js cs e) js cs
  put_ctrl-Placed act [] cs e p h = tt
  put_ctrl-Placed act (j ∷ js) [] e p h = tt
  put_ctrl-Placed act (j ∷ js) (c ∷ cs) e p h = (
    put_ctrl_other act js cs (record e { ctrl = store (act j) c e.ctrl }) (act j) p (later (p j))
        ∙ ground arith,
    put_ctrl-Placed act js cs (record e { ctrl = store (act j) c e.ctrl }) p h.1.1.1,
  )
    where
      later : (act j ≡ j.trq) ⊎ (act j ≡ j.pos) ⊎ (act j ≡ j.vel) → Fresh (act j) (numbers js)
      later (inl q) = rw q h.0.1.1
      later (inr (inl q)) = rw q h.1.0.1
      later (inr (inr q)) = rw q h.1.1.0

  -- The inputs with these numbers are the same.
  abbrev pub SameCtrl : List ℕ → Engine D → Engine D → Type 0
  SameCtrl ns e f = All (λ n. f.ctrl n ≡ e.ctrl n) ns

  Placed-SameCtrl :
      (act : Actuators → ℕ) (js : List Actuators) (cs : List D) (e f : Engine D)
      → Picks act
      → SameCtrl (numbers js) e f
      → Placed act e js cs
      → Placed act f js cs
  Placed-SameCtrl act [] cs e f p s h = tt
  Placed-SameCtrl act (j ∷ js) [] e f p s h = tt
  Placed-SameCtrl act (j ∷ js) (c ∷ cs) e f p s h =
      (same (p j) ∙ h.0, Placed-SameCtrl act js cs e f p s.1.1.1 h.1)
    where
      same : (act j ≡ j.trq) ⊎ (act j ≡ j.pos) ⊎ (act j ≡ j.vel) → f.ctrl (act j) ≡ e.ctrl (act j)
      same (inl q) = rw q s.0
      same (inr (inl q)) = rw q s.1.0
      same (inr (inr q)) = rw q s.1.1.0

  pub Obeyed-SameCtrl :
      (a : SimArm D) (m : ControlMode) (e f : Engine D)
      → SameCtrl (numbers a.joints) e f
      → Obeyed e a m
      → Obeyed f a m
  Obeyed-SameCtrl a joint_torque e f s h =
      Placed-SameCtrl (λ j. j.trq) a.joints a.hw_commands_joint_effort e f trq-Picks s h
  Obeyed-SameCtrl a joint_position e f s h =
      Placed-SameCtrl (λ j. j.pos) a.joints a.hw_commands_joint_position e f pos-Picks s h
  Obeyed-SameCtrl a joint_velocity e f s h =
      Placed-SameCtrl (λ j. j.vel) a.joints a.hw_commands_joint_velocity e f vel-Picks s h
  Obeyed-SameCtrl a _ e f s h = tt

  pub put_commands_other :
      (a : SimArm D) (m : ControlMode) (e : Engine D) (n : ℕ)
      → a.control_mode ≡ m
      → Fresh n (numbers a.joints)
      → (put_commands a e).ctrl n ≡ e.ctrl n
  unfolding put_commands
  put_commands_other a joint_torque e n q h =
      rw (q, put_commands)
        (put_ctrl_other (λ j. j.trq) a.joints a.hw_commands_joint_effort e n trq-Picks h)
  put_commands_other a joint_position e n q h =
      rw (q, put_commands)
        (put_ctrl_other (λ j. j.pos) a.joints a.hw_commands_joint_position e n pos-Picks h)
  put_commands_other a joint_velocity e n q h =
      rw (q, put_commands)
        (put_ctrl_other (λ j. j.vel) a.joints a.hw_commands_joint_velocity e n vel-Picks h)
  put_commands_other a _ e n q h = rw (q, put_commands) refl

  pub put_commands-Obeyed :
      (a : SimArm D) (m : ControlMode) (e : Engine D)
      → a.control_mode ≡ m
      → Distinct (numbers a.joints)
      → Obeyed (put_commands a e) a m
  unfolding put_commands
  put_commands-Obeyed a joint_torque e q h =
      rw (q, put_commands)
        (put_ctrl-Placed (λ j. j.trq) a.joints a.hw_commands_joint_effort e trq-Picks h)
  put_commands-Obeyed a joint_position e q h =
      rw (q, put_commands)
        (put_ctrl-Placed (λ j. j.pos) a.joints a.hw_commands_joint_position e pos-Picks h)
  put_commands-Obeyed a joint_velocity e q h =
      rw (q, put_commands)
        (put_ctrl-Placed (λ j. j.vel) a.joints a.hw_commands_joint_velocity e vel-Picks h)
  put_commands-Obeyed a _ e q h = tt
