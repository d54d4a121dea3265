-- ===== src/Simulation/Engine/Driven.antt =====
-- Which actuators act after `perform_command_mode_switch` of franka_mj_hardware_system.cpp.
use franka_gazebo.Prelude.{
  ℕ, ◌+◌, ◌*◌, ◌≡◌, ◌≢◌, refl, arith, Bool, true, false, List, [], ◌∷◌, ◌++◌, if◌then◌else◌, All,
  ◌∙◌,
}
use franka_gazebo.Common.ControlMode.{
  ControlMode, idle, joint_torque, joint_position, joint_velocity,
}
use franka_gazebo.Common.Double.{Double}
use franka_gazebo.Simulation.{Actuators, SimArm}
use franka_gazebo.Simulation.Engine.{
  Gains, Engine, set_torque_control, set_position_servo, set_velocity_servo, set_joint, set_joints,
  drive,
}

-- The number stands nowhere in the list.
abbrev pub Fresh : ℕ → List ℕ → Type 0
Fresh n = All λ m. m ≢ n

abbrev pub Distinct : List ℕ → Type 0
Distinct [] = Unit
Distinct (n ∷ ns) = Fresh n ns × Distinct ns

abbrev pub numbers : List Actuators → List ℕ
numbers [] = []
numbers (j ∷ js) = j.trq ∷ j.pos ∷ j.vel ∷ numbers js

abbrev pub all_numbers {ℓ} : {K : Type ℓ} {D : Type 0} → List (K × SimArm D) → List ℕ
all_numbers [] = []
all_numbers ((k, a) ∷ arms) = numbers a.joints ++ all_numbers arms

pub Fresh-append : (n : ℕ) (xs ys : List ℕ) → Fresh n (xs ++ ys) → Fresh n xs × Fresh n ys
Fresh-append n [] ys h = (tt, h)
Fresh-append n (x ∷ xs) ys h = let (p, q) = Fresh-append n xs ys h.1 in ((h.0, p), q)

pub Distinct-append :
    (xs ys : List ℕ) → Distinct (xs ++ ys) → Distinct xs × Distinct ys × All (λ x. Fresh x ys) xs
Distinct-append [] ys h = (tt, h, tt)
Distinct-append (x ∷ xs) ys h =
    let (p, q) = Fresh-append x xs ys h.0 in
    let (dx, dy, f) = Distinct-append xs ys h.1 in ((p, dx), dy, (q, f))

module _ {D : Type 0} ⦃d : Double D⦄ ⦃g : Gains D⦄ where
  -- The gains of an actuator, with the two entries of its bias that the servos write.
  abbrev pub gain : Engine D → ℕ → D
  gain e n = e.actuator_gainprm (10 * n + 0)

  pub record SameAt (n : ℕ) (e f : Engine D) : Type 0 where
    pub same_gain : gain f n ≡ gain e n
    pub same_stiffness : f.actuator_biasprm (10 * n + 1) ≡ e.actuator_biasprm (10 * n + 1)
    pub same_damping : f.actuator_biasprm (10 * n + 2) ≡ e.actuator_biasprm (10 * n + 2)

  -- The actuators of a joint have these gains, and the servos the opposite biases.
  pub record IsTuned (flag : Bool) (kp kv : D) (e : Engine D) (j : Actuators) : Type 0 where
    pub torque : gain e j.trq ≡ (if flag then g.one else d.nought)
    pub position : gain e j.pos ≡ kp
    pub velocity : gain e j.vel ≡ kv
    pub stiffness : e.actuator_biasprm (10 * j.pos + 1) ≡ g.negate kp
    pub damping : e.actuator_biasprm (10 * j.vel + 2) ≡ g.negate kv

  set_joint-SameAt :
      (flag : Bool) (kp kv : D) (j : Actuators) (e : Engine D) (n : ℕ)
      → j.trq ≢ n
      → j.pos ≢ n
      → j.vel ≢ n
      → SameAt n e (set_joint flag kp kv j e)
  unfolding set_joint set_torque_control set_position_servo set_velocity_servo
  set_joint-SameAt flag kp kv j e n t p v = ground arith

  set_joints-SameAt :
      (flag : Bool) (kp kv : D) (js : List Actuators) (e : Engine D) (n : ℕ)
      → Fresh n (numbers js)
      → SameAt n e (set_joints flag kp kv js e)
  unfolding set_joints
  set_joints-SameAt flag kp kv [] e n h = record {
    same_gain = refl;
    same_stiffness = refl;
    same_damping = refl;
  }
  set_joints-SameAt flag kp kv (j ∷ js) e n h =
      let here = set_joint-SameAt flag kp kv j e n h.0 h.1.0 h.1.1.0 in
      let later = set_joints-SameAt flag kp kv js (set_joint flag kp kv j e) n h.1.1.1 in
      record {
        same_gain = later.same_gain ∙ here.same_gain;
        same_stiffness = later.same_stiffness ∙ here.same_stiffness;
        same_damping = later.same_damping ∙ here.same_damping;
      }

  set_joint-IsTuned :
      (flag : Bool) (kp kv : D) (j : Actuators) (e : Engine D)
      → j.pos ≢ j.trq
      → j.vel ≢ j.trq
      → j.vel ≢ j.pos
      → IsTuned flag kp kv (set_joint flag kp kv j e) j
  unfolding set_joint set_torque_control set_position_servo set_velocity_servo
  set_joint-IsTuned flag kp kv j e p q r = ground arith

  pub IsTuned-SameAt :
      {flag : Bool} {kp kv : D} {e f : Engine D} {j : Actuators}
      → IsTuned flag kp kv e j
      → SameAt j.trq e f
      → SameAt j.pos e f
      → SameAt j.vel e f
      → IsTuned flag kp kv f j
  IsTuned-SameAt h t p v = record {
    torque = t.same_gain ∙ h.torque;
    position = p.same_gain ∙ h.position;
    velocity = v.same_gain ∙ h.velocity;
    stiffness = p.same_stiffness ∙ h.stiffness;
    damping = v.same_damping ∙ h.damping;
  }

  set_joints-IsTuned :
      (flag : Bool) (kp kv : D) (js : List Actuators) (e : Engine D)
      → Distinct (numbers js)
      → All (IsTuned flag kp kv (set_joints flag kp kv js e)) js
  unfolding set_joints
  set_joints-IsTuned flag kp kv [] e h = tt
  set_joints-IsTuned flag kp kv (j ∷ js) e h =
      let e' = set_joint flag kp kv j e in
      (
        IsTuned-SameAt (set_joint-IsTuned flag kp kv j e h.0.0 h.0.1.0 h.1.0.0)
            (set_joints-SameAt flag kp kv js e' j.trq h.0.1.1)
            (set_joints-SameAt flag kp kv js e' j.pos h.1.0.1)
            (set_joints-SameAt flag kp kv js e' j.vel h.1.1.0),
        set_joints-IsTuned flag kp kv js e' h.1.1.1,
      )

  -- The actuators of an arm act as its control mode wants; a Cartesian mode wants nothing.
  abbrev pub IsDriven : ControlMode → Engine D → List Actuators → Type 0
  IsDriven idle e js = All (IsTuned false d.nought d.nought e) js
  IsDriven joint_torque e js = All (IsTuned true d.nought d.nought e) js
  IsDriven joint_position e js = All (IsTuned false g.hundred d.nought e) js
  IsDriven joint_velocity e js = All (IsTuned false d.nought g.ten e) js
  IsDriven _ e js = Unit

  pub drive-IsDriven :
      (m : ControlMode) (js : List Actuators) (e : Engine D)
      → Distinct (numbers js)
      → IsDriven m (drive m js e) js
  unfolding drive
  drive-IsDriven idle js e h = set_joints-IsTuned false d.nought d.nought js e h
  drive-IsDriven joint_torque js e h = set_joints-IsTuned true d.nought d.nought js e h
  drive-IsDriven joint_position js e h = set_joints-IsTuned false g.hundred d.nought js e h
  drive-IsDriven joint_velocity js e h = set_joints-IsTuned false d.nought g.ten js e h
  drive-IsDriven _ js e h = tt

  pub SameAt-refl : (n : ℕ) (e : Engine D) → SameAt n e e
  SameAt-refl n e = record { same_gain = refl; same_stiffness = refl; same_damping = refl }

  pub SameAt-trans : {n : ℕ} {e f h : Engine D} → SameAt n e f → SameAt n f h → SameAt n e h
  SameAt-trans p q = record {
    same_gain = q.same_gain ∙ p.same_gain;
    same_stiffness = q.same_stiffness ∙ p.same_stiffness;
    same_damping = q.same_damping ∙ p.same_damping;
  }

  pub drive-SameAt :
      (m : ControlMode) (js : List Actuators) (e : Engine D) (n : ℕ)
      → Fresh n (numbers js)
      → SameAt n e (drive m js e)
  unfolding drive
  drive-SameAt idle js e n h = set_joints-SameAt false d.nought d.nought js e n h
  drive-SameAt joint_torque js e n h = set_joints-SameAt true d.nought d.nought js e n h
  drive-SameAt joint_position js e n h = set_joints-SameAt false g.hundred d.nought js e n h
  drive-SameAt joint_velocity js e n h = set_joints-SameAt false d.nought g.ten js e n h
  drive-SameAt _ js e n h = SameAt-refl n e
