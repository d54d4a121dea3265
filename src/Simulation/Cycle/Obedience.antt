-- ===== src/Simulation/Cycle/Obedience.antt =====
-- Which control inputs the engine has after `write` of franka_mj_hardware_system.cpp for all arms.
use franka_gazebo.Prelude.{
  ℕ, ◌≡◌, ◌≢◌, refl, ap, sym, ◌∙◌, arith, true, false, List, [], ◌∷◌, ◌++◌, Name, All, All_map,
  Bool-cases, inl, inr,
}
use franka_gazebo.Common.Double.{Double}
use franka_gazebo.Common.Kinds.{ok, error}
use franka_gazebo.Simulation.{SimArm, SimArms}
use franka_gazebo.Simulation.Engine.{Engine}
use franka_gazebo.Simulation.Engine.Driven.{Fresh, Distinct, numbers, Fresh-append, Distinct-append}
use franka_gazebo.Simulation.Cycle.{put_commands, put_gripper, sim_has_bad_command, sim_write}
use franka_gazebo.Simulation.Cycle.Delivered.{
  inputs, all_inputs, Obeyed, SameCtrl, Obeyed-SameCtrl, put_commands_other, put_commands-Obeyed,
}

All-front : (P : ℕ → Type 0) (xs ys : List ℕ) → All P (xs ++ ys) → All P xs
All-front P [] ys h = tt
All-front P (x ∷ xs) ys h = (h.0, All-front P xs ys h.1)

All-last : (P : ℕ → Type 0) (xs : List ℕ) (y : ℕ) → All P (xs ++ y ∷ []) → P y
All-last P [] y h = h.0
All-last P (x ∷ xs) y h = All-last P xs y h.1

module _ {D : Type 0} where
  -- What `write` does for one arm.
  abbrev send : SimArm D → Engine D → Engine D
  send a e = put_gripper a (put_commands a e)

  -- The engine's inputs are those that the arm's commands ask for.
  pub record IsObeyed (e : Engine D) (a : SimArm D) : Type 0 where
    pub joints : Obeyed e a a.control_mode
    pub gripper : a.has_gripper ≡ true → e.ctrl a.gripper_act_idx ≡ a.gripper.cmd

  put_gripper_other :
      (a : SimArm D) (e : Engine D) (n : ℕ)
      → a.gripper_act_idx ≢ n
      → (put_gripper a e).ctrl n ≡ e.ctrl n
  unfolding put_gripper
  put_gripper_other a e n h = ground arith

  put_gripper_without : (a : SimArm D) (e : Engine D) → a.has_gripper ≡ false → put_gripper a e ≡ e
  unfolding put_gripper
  put_gripper_without a e q = rw (q, put_gripper) refl

  send_other :
      (a : SimArm D) (e : Engine D) (n : ℕ) → Fresh n (inputs a) → (send a e).ctrl n ≡ e.ctrl n
  send_other a e n h = elim (Bool-cases a.has_gripper) [
    | inl q ↦
        let h' : Fresh n (numbers a.joints ++ a.gripper_act_idx ∷ []) = rw (q, inputs) at h in
        let (mine, last) = Fresh-append n (numbers a.joints) (a.gripper_act_idx ∷ []) h' in
        put_gripper_other a (put_commands a e) n last.0
        ∙ put_commands_other a a.control_mode e n refl mine
    | inr q ↦
        let h' : Fresh n (numbers a.joints) = rw (q, inputs) at h in
        ap (λ (f : Engine D). f.ctrl n) (put_gripper_without a (put_commands a e) q)
        ∙ put_commands_other a a.control_mode e n refl h'
  ]

  send-IsObeyed : (a : SimArm D) (e : Engine D) → Distinct (inputs a) → IsObeyed (send a e) a
  unfolding put_gripper
  send-IsObeyed a e h = elim (Bool-cases a.has_gripper) [
    | inl q ↦
        let h' : Distinct (numbers a.joints ++ a.gripper_act_idx ∷ []) = rw (q, inputs) at h in
        let (mine, last, apart) = Distinct-append (numbers a.joints) (a.gripper_act_idx ∷ []) h' in
        record {
          joints =
              Obeyed-SameCtrl a a.control_mode (put_commands a e) (send a e)
                (All_map (λ n f. put_gripper_other a (put_commands a e) n f.0) (numbers a.joints)
                  apart)
                (put_commands-Obeyed a a.control_mode e refl mine);
          gripper = λ t. ground (arith, q);
        }
    | inr q ↦
        let h' : Distinct (numbers a.joints) = rw (q, inputs) at h in
        record {
          joints =
              rw (put_gripper_without a (put_commands a e) q)
                (put_commands-Obeyed a a.control_mode e refl h');
          gripper = λ t. absurd (ground (arith, q));
        }
  ]

  inputs-numbers : (a : SimArm D) (P : ℕ → Type 0) → All P (inputs a) → All P (numbers a.joints)
  inputs-numbers a P h = elim (Bool-cases a.has_gripper) [
    | inl q ↦ All-front P (numbers a.joints) (a.gripper_act_idx ∷ []) (rw (q, inputs) at h)
    | inr q ↦ rw (q, inputs) at h
  ]

  inputs-gripper :
      (a : SimArm D) (P : ℕ → Type 0)
      → a.has_gripper ≡ true
      → All P (inputs a)
      → P a.gripper_act_idx
  inputs-gripper a P q h = All-last P (numbers a.joints) a.gripper_act_idx (rw (q, inputs) at h)

  IsObeyed-SameCtrl :
      (a : SimArm D) (e f : Engine D) → SameCtrl (inputs a) e f → IsObeyed e a → IsObeyed f a
  IsObeyed-SameCtrl a e f s h = record {
    joints =
        Obeyed-SameCtrl a a.control_mode e f (inputs-numbers a (λ n. f.ctrl n ≡ e.ctrl n) s)
          h.joints;
    gripper = λ q. inputs-gripper a (λ n. f.ctrl n ≡ e.ctrl n) q s ∙ h.gripper q;
  }

module _ {D : Type 0} ⦃d : Double D⦄ where
  sim_write_other :
      (arms : SimArms D) (e : Engine D) (n : ℕ)
      → Fresh n (all_inputs arms)
      → (sim_write arms e).0.ctrl n ≡ e.ctrl n
  unfolding sim_write
  sim_write_other [] e n h = refl
  sim_write_other ((k, a) ∷ arms) e n h = elim (Bool-cases (sim_has_bad_command a)) [
    | inl b ↦ rw (b, sim_write) refl
    | inr b ↦
        let (mine, others) = Fresh-append n (inputs a) (all_inputs arms) h in
        rw (b, sim_write) (sim_write_other arms (send a e) n others ∙ send_other a e n mine)
  ]

  sim_write_step :
      (k : Name) (a : SimArm D) (arms : SimArms D) (e : Engine D)
      → sim_has_bad_command a ≡ false
      → sim_write ((k, a) ∷ arms) e ≡ sim_write arms (send a e)
  unfolding sim_write
  sim_write_step k a arms e b = rw (b, sim_write) refl

  sim_write_refused :
      (k : Name) (a : SimArm D) (arms : SimArms D) (e : Engine D)
      → sim_has_bad_command a ≡ true
      → sim_write ((k, a) ∷ arms) e ≡ (e, error)
  unfolding sim_write
  sim_write_refused k a arms e b = rw (b, sim_write) refl

  arms-IsObeyed :
      (arms : SimArms D) (e f : Engine D)
      → Distinct (all_inputs arms)
      → sim_write arms e ≡ (f, ok)
      → All (λ p. IsObeyed f p.1) arms
  arms-IsObeyed [] e f h r = tt
  arms-IsObeyed ((k, a) ∷ arms) e f h r = elim (Bool-cases (sim_has_bad_command a)) [
    | inl b ↦ absurd (ground (arith, r, sim_write_refused k a arms e b))
    | inr b ↦
        let (mine, others, apart) = Distinct-append (inputs a) (all_inputs arms) h in
        let rest : sim_write arms (send a e) ≡ (f, ok) = sym (sim_write_step k a arms e b) ∙ r in
        let later : SameCtrl (inputs a) (send a e) (sim_write arms (send a e)).0 =
          All_map (λ n fresh. sim_write_other arms (send a e) n fresh) (inputs a) apart in
        (
          IsObeyed-SameCtrl a (send a e) f (rw rest at later) (send-IsObeyed a e mine),
          arms-IsObeyed arms (send a e) f others rest,
        )
  ]

  -- If no two of the actuators of the arms and grippers have one number, and `write` returns OK, each
  -- joint of each arm has as its control input the arm's command of the kind that the control mode asks
  -- for, and each gripper its own command.
  pub sim_write-IsObeyed :
      (arms : SimArms D) (e : Engine D)
      → Distinct (all_inputs arms)
      → (sim_write arms e).1 ≡ ok
      → All (λ p. IsObeyed (sim_write arms e).0 p.1) arms
  sim_write-IsObeyed arms e h r =
      arms-IsObeyed arms e (sim_write arms e).0 h (ap (λ o. ((sim_write arms e).0, o)) r)
