-- ===== src/Simulation/Engine/Switched.antt =====
-- `perform_command_mode_switch` of franka_mj_hardware_system.cpp over all arms.
use franka_gazebo.Prelude.{
  ℕ, ◌≡◌, ◌≢◌, sym, All_zip, refl, Bool, true, false, List, [], ◌∷◌, ◌++◌, All, All_map, Bool-cases,
  inl, inr, Both,
}
use franka_gazebo.Common.ControlMode.{
  ControlMode, idle, joint_torque, joint_position, joint_velocity,
}
use franka_gazebo.Common.Double.{Double}
use franka_gazebo.Simulation.{Actuators, SimArm, SimArms}
use franka_gazebo.Simulation.Engine.{Gains, Engine, drive, perform_arm, perform_command_mode_switch}
use franka_gazebo.Simulation.Engine.Driven.{
  Fresh, Distinct, numbers, all_numbers, Fresh-append, Distinct-append, SameAt, SameAt-refl,
  SameAt-trans, IsTuned, IsTuned-SameAt, IsDriven, drive-IsDriven, drive-SameAt,
}

All-split {ℓ} :
    {A : Type ℓ} (P : A → Type 0) (xs ys : List A) → All P (xs ++ ys) → All P xs × All P ys
All-split P [] ys h = (tt, h)
All-split P (x ∷ xs) ys h = let (p, q) = All-split P xs ys h.1 in ((h.0, p), q)

Fresh-all : (ys : List ℕ) → All (λ y. Fresh y []) ys
Fresh-all [] = tt
Fresh-all (y ∷ ys) = (tt, Fresh-all ys)

Fresh-swap : (xs ys : List ℕ) → All (λ x. Fresh x ys) xs → All (λ y. Fresh y xs) ys
Fresh-swap [] ys h = Fresh-all ys
Fresh-swap (x ∷ xs) ys h =
    All_zip (λ y. x ≢ y) (λ y. Fresh y xs) ys (All_map (λ y ne e. ne (sym e)) ys h.0)
      (Fresh-swap xs ys h.1)

module _ {D : Type 0} ⦃d : Double D⦄ ⦃g : Gains D⦄ where
  -- The actuators with these numbers are the same in both engines.
  abbrev pub SameOn : List ℕ → Engine D → Engine D → Type 0
  SameOn ns e f = All (λ n. SameAt n e f) ns

  All-IsTuned-SameOn :
      (flag : Bool) (kp kv : D) (e f : Engine D) (js : List Actuators)
      → All (IsTuned flag kp kv e) js
      → SameOn (numbers js) e f
      → All (IsTuned flag kp kv f) js
  All-IsTuned-SameOn flag kp kv e f [] h s = tt
  All-IsTuned-SameOn flag kp kv e f (j ∷ js) h s =
      (IsTuned-SameAt h.0 s.0 s.1.0 s.1.1.0, All-IsTuned-SameOn flag kp kv e f js h.1 s.1.1.1)

  IsDriven-SameOn :
      (m : ControlMode) (e f : Engine D) (js : List Actuators)
      → IsDriven m e js
      → SameOn (numbers js) e f
      → IsDriven m f js
  IsDriven-SameOn idle e f js h s = All-IsTuned-SameOn _ _ _ e f js h s
  IsDriven-SameOn joint_torque e f js h s = All-IsTuned-SameOn _ _ _ e f js h s
  IsDriven-SameOn joint_position e f js h s = All-IsTuned-SameOn _ _ _ e f js h s
  IsDriven-SameOn joint_velocity e f js h s = All-IsTuned-SameOn _ _ _ e f js h s
  IsDriven-SameOn _ e f js h s = tt

  perform_arm-SameAt :
      (a : SimArm D) (e : Engine D) (n : ℕ)
      → Fresh n (numbers a.joints)
      → SameAt n e (perform_arm a e).1
  perform_arm-SameAt a e n h = elim (Bool-cases a.switch_cm) [
    | inl s ↦ rw (s, perform_arm) (drive-SameAt a.control_mode a.joints e n h)
    | inr s ↦ rw (s, perform_arm) (SameAt-refl n e)
  ]

  perform-SameAt :
      (arms : SimArms D) (e : Engine D) (n : ℕ)
      → Fresh n (all_numbers arms)
      → SameAt n e (perform_command_mode_switch arms e).1
  unfolding perform_command_mode_switch
  perform-SameAt [] e n h = SameAt-refl n e
  perform-SameAt ((k, a) ∷ arms) e n h =
      let (mine, others) = Fresh-append n (numbers a.joints) (all_numbers arms) h in
      SameAt-trans (perform_arm-SameAt a e n mine)
        (perform-SameAt arms (perform_arm a e).1 n others)

  -- What the switch makes of an arm, for the engines before and after it.
  pub record IsServoed (e f : Engine D) (a b : SimArm D) : Type 0 where
    pub unmarked : b.switch_cm ≡ false
    pub mode : b.control_mode ≡ a.control_mode
    pub driven : a.switch_cm ≡ true → IsDriven a.control_mode f a.joints
    pub untouched : a.switch_cm ≡ false → (b ≡ a) × SameOn (numbers a.joints) e f

  perform_arm-IsServoed :
      (a : SimArm D) (e f : Engine D)
      → Distinct (numbers a.joints)
      → SameOn (numbers a.joints) (perform_arm a e).1 f
      → IsServoed e f a (perform_arm a e).0
  perform_arm-IsServoed a e f h s = elim (Bool-cases a.switch_cm) [
    | inl m ↦
        let s' : SameOn (numbers a.joints) (drive a.control_mode a.joints e) f =
          rw (m, perform_arm) at s in
        rw (m, perform_arm)
          record {
            unmarked = refl;
            mode = refl;
            driven = λ t.
                IsDriven-SameOn a.control_mode (drive a.control_mode a.joints e) f a.joints
                  (drive-IsDriven a.control_mode a.joints e h) s';
            untouched = λ t. absurd (cc);
          }
    | inr m ↦
        let s' : SameOn (numbers a.joints) e f = rw (m, perform_arm) at s in
        rw (m, perform_arm)
          record {
            unmarked = refl;
            mode = refl;
            driven = λ t. absurd (cc);
            untouched = λ t. (refl, s');
          }
  ]

  SameOn-trans :
      (ns : List ℕ) (e f h : Engine D) → All (λ n. SameAt n e f) ns → SameOn ns f h → SameOn ns e h
  SameOn-trans [] e f h p q = tt
  SameOn-trans (n ∷ ns) e f h p q = (SameAt-trans p.0 q.0, SameOn-trans ns e f h p.1 q.1)

  IsServoed-from :
      (e0 e f : Engine D) (a b : SimArm D)
      → SameOn (numbers a.joints) e0 e
      → IsServoed e f a b
      → IsServoed e0 f a b
  IsServoed-from e0 e f a b s h = record {
    unmarked = h.unmarked;
    mode = h.mode;
    driven = h.driven;
    untouched = λ t.
        let (same, rest) = h.untouched t in (same, SameOn-trans (numbers a.joints) e0 e f s rest);
  }

  perform-IsServoed :
      (arms : SimArms D) (e0 e : Engine D)
      → Distinct (all_numbers arms)
      → SameOn (all_numbers arms) e0 e
      → Both
          (λ p q. (q.0 ≡ p.0) × IsServoed e0 (perform_command_mode_switch arms e).1 p.1 q.1)
          arms
          (perform_command_mode_switch arms e).0
  unfolding perform_command_mode_switch
  perform-IsServoed [] e0 e h s = tt
  perform-IsServoed ((k, a) ∷ arms) e0 e h s =
      let (mine, others, apart) = Distinct-append (numbers a.joints) (all_numbers arms) h in
      let (s_mine, s_others) =
        All-split (λ n. SameAt n e0 e) (numbers a.joints) (all_numbers arms) s in
      let e1 = (perform_arm a e).1 in
      let final = (perform_command_mode_switch arms e1).1 in
      (
        (
          refl,
          IsServoed-from e0 e final a (perform_arm a e).0 s_mine (
              perform_arm-IsServoed a e final mine
                (All_map (λ n fresh. perform-SameAt arms e1 n fresh) (numbers a.joints) apart)),
        ),
        perform-IsServoed arms e0 e1 others (
            SameOn-trans (all_numbers arms) e0 e e1 s_others (
              All_map (λ n fresh. perform_arm-SameAt a e n fresh) (all_numbers arms)
                (Fresh-swap (numbers a.joints) (all_numbers arms) apart))),
      )

  SameOn-refl : (ns : List ℕ) (e : Engine D) → SameOn ns e e
  SameOn-refl [] e = tt
  SameOn-refl (n ∷ ns) e = (SameAt-refl n e, SameOn-refl ns e)

  -- If no actuator number occurs twice, then after the switch the actuators of every arm that was marked
  -- have the gains of the arm's control mode, those of the other two kinds 0, with the biases of the
  -- servos to match; the actuators of an arm that was not marked are as before. No mark is left.
  pub perform_command_mode_switch-IsServoed :
      (arms : SimArms D) (e : Engine D)
      → Distinct (all_numbers arms)
      → Both
          (λ p q. (q.0 ≡ p.0) × IsServoed e (perform_command_mode_switch arms e).1 p.1 q.1)
          arms
          (perform_command_mode_switch arms e).0
  perform_command_mode_switch-IsServoed arms e h =
      perform-IsServoed arms e e h (SameOn-refl (all_numbers arms) e)
