-- ===== src/Simulation/RobotSim/Parts.antt =====
-- What `populateIndices` of robot_sim.cpp needs and finds.
use franka_gazebo.Prelude.{
  ℕ, ◌≡◌, refl, arith, Bool, true, ◌&&◌, ◌||◌, not, Option, some, List, [], ◌∷◌, all, Name, ◌∙◌,
  Option-cases, Bool-cases, inl, inr,
}
use franka_gazebo.Simulation.{Actuators}
use franka_gazebo.Simulation.RobotSim.{
  MjModel, body, site, joint, actuator, JointIndices, RobotSim, link_name, site_name, joint_name,
  trq_name, vel_name, pos_name, finger_name, gripper_act_name, fill_array, find_joint,
  find_actuators, find_gripper, populate_indices,
}
use franka_gazebo.Simulation.RobotSim.Found.{is_some, range, fill_array-all, Filled}

module _ (m : MjModel) (r : RobotSim) where
  -- The rounds of the loops.
  abbrev pub link_at : ℕ → Option ℕ
  link_at n = m.name_to_id body (link_name r.robot_name n)

  abbrev pub site_at : ℕ → Option ℕ
  site_at n = m.name_to_id site (site_name r.robot_name n)

  abbrev pub joint_at : ℕ → Option JointIndices
  joint_at n = find_joint m (joint_name r.robot_name n)

  abbrev pub actuators_at : ℕ → Option Actuators
  actuators_at n = find_actuators m r.robot_name n

  abbrev pub finger_at : ℕ → Option JointIndices
  finger_at n = find_joint m (finger_name r.robot_name n)

  -- The model has the objects of an arm with this name, and of its gripper if it has one.
  abbrev pub is_complete : Bool
  is_complete =
      all (λ n. is_some (m.name_to_id body (link_name r.robot_name n))) (range 9 0)
      && all (λ n. is_some (m.name_to_id site (site_name r.robot_name n))) (range 9 0)
      && all (λ n. is_some (m.name_to_id joint (joint_name r.robot_name n))) (range 7 0)
      && all
          (λ n.
            is_some (m.name_to_id actuator (trq_name r.robot_name n))
            && is_some (m.name_to_id actuator (vel_name r.robot_name n))
            && is_some (m.name_to_id actuator (pos_name r.robot_name n)))
          (range 7 0)
      && (not r.has_gripper
          || (all (λ n. is_some (m.name_to_id joint (finger_name r.robot_name n))) (range 2 0)
              && is_some (m.name_to_id actuator (gripper_act_name r.robot_name))))

  -- The arrays hold what the rounds found.
  pub record IsPopulated (k : RobotSim) : Type 0 where
    pub name : k.robot_name ≡ r.robot_name
    pub gripper : k.has_gripper ≡ r.has_gripper
    pub found_links : Filled link_at 9 0 k.links
    pub found_sites : Filled site_at 9 0 k.joint_sites
    pub found_joints : Filled joint_at 7 0 k.arm_joints
    pub found_actuators : Filled actuators_at 7 0 k.actuators
    pub found_fingers : r.has_gripper ≡ true → Filled finger_at 2 0 k.gripper_joints
    pub found_act :
        r.has_gripper ≡ true
        → m.name_to_id actuator (gripper_act_name r.robot_name) ≡ some k.act_idx

module _ (m : MjModel) where
  find_joint-is_some : (s : Name) → is_some (find_joint m s) ≡ is_some (m.name_to_id joint s)
  unfolding find_joint
  find_joint-is_some s = elim (Option-cases (m.name_to_id joint s)) [
    | inl e ↦ ground (arith, e)
    | inr (a, e) ↦ ground (arith, e)
  ]

  find_actuators-is_some :
      (robot : Name) (n : ℕ)
      → is_some (find_actuators m robot n) ≡ (
          is_some (m.name_to_id actuator (trq_name robot n))
          && is_some (m.name_to_id actuator (vel_name robot n))
          && is_some (m.name_to_id actuator (pos_name robot n)))
  unfolding find_actuators
  find_actuators-is_some robot n = elim (Option-cases (m.name_to_id actuator (trq_name robot n))) [
    | inl e ↦ rw (e, find_actuators) refl
    | inr (t, e) ↦ elim (Option-cases (m.name_to_id actuator (vel_name robot n))) [
      | inl f ↦ rw (e, f, find_actuators) refl
      | inr (v, f) ↦ elim (Option-cases (m.name_to_id actuator (pos_name robot n))) [
        | inl g ↦ rw (e, f, g, find_actuators) refl
        | inr (p, g) ↦ rw (e, f, g, find_actuators) refl
      ]
    ]
  ]

all_equal :
    {a a' b b' c c' d d' e e' : Bool} (f g : Bool)
    → a ≡ a'
    → b ≡ b'
    → c ≡ c'
    → d ≡ d'
    → e ≡ e'
    → (a && b && c && d && (not f || (e && g))) ≡ (a' && b' && c' && d' && (not f || (e' && g)))
all_equal f g p q r s t = cc

all_same : (f g : ℕ → Bool) → ((n : ℕ) → f n ≡ g n) → (ns : List ℕ) → all f ns ≡ all g ns
all_same f g h [] = refl
all_same f g h (n ∷ ns) = ground (arith, h n, all_same f g h ns)

module _ (m : MjModel) where
  find_gripper-is_some :
      (r : RobotSim)
      → is_some (find_gripper m r) ≡ (
          not r.has_gripper
          || (is_some (fill_array (finger_at m r) 2 0)
              && is_some (m.name_to_id actuator (gripper_act_name r.robot_name))))
  unfolding find_gripper
  find_gripper-is_some r = elim (Bool-cases r.has_gripper) [
    | inl g ↦ elim (Option-cases (fill_array (finger_at m r) 2 0)) [
      | inl e ↦ rw (g, e, find_gripper) refl
      | inr (fs, e) ↦ elim (Option-cases (m.name_to_id actuator (gripper_act_name r.robot_name))) [
        | inl f ↦ rw (g, e, f, find_gripper) refl
        | inr (id, f) ↦ rw (g, e, f, find_gripper) refl
      ]
    ]
    | inr g ↦ rw (g, find_gripper) refl
  ]

  populate_indices-loops :
      (r : RobotSim)
      → is_some (populate_indices m r) ≡ (
          is_some (fill_array (link_at m r) 9 0)
          && is_some (fill_array (site_at m r) 9 0)
          && is_some (fill_array (joint_at m r) 7 0)
          && is_some (fill_array (actuators_at m r) 7 0)
          && (not r.has_gripper
              || (is_some (fill_array (finger_at m r) 2 0)
                  && is_some (m.name_to_id actuator (gripper_act_name r.robot_name)))))
  unfolding populate_indices
  populate_indices-loops r = elim (Option-cases (fill_array (link_at m r) 9 0)) [
    | inl e ↦ rw (e, populate_indices) refl
    | inr (ls, e) ↦ elim (Option-cases (fill_array (site_at m r) 9 0)) [
      | inl f ↦ rw (e, f, populate_indices) refl
      | inr (ss, f) ↦ elim (Option-cases (fill_array (joint_at m r) 7 0)) [
        | inl g ↦ rw (e, f, g, populate_indices) refl
        | inr (js, g) ↦ elim (Option-cases (fill_array (actuators_at m r) 7 0)) [
          | inl h ↦ rw (e, f, g, h, populate_indices) refl
          | inr (acts, h) ↦
              rw (e, f, g, h, populate_indices)
                (find_gripper-is_some
                  (record r { links = ls; joint_sites = ss; arm_joints = js; actuators = acts }))
        ]
      ]
    ]
  ]

  -- `populateIndices` returns true exactly if the model has a body for each of the arm's links, a site for
  -- each joint, the flange and the end effector, a joint and three actuators for each of the seven joints,
  -- and, for an arm with a gripper, the two joints of the fingers and the gripper's actuator.
  pub populate_indices-is_complete :
      (r : RobotSim) → is_some (populate_indices m r) ≡ is_complete m r
  populate_indices-is_complete r =
      let joints =
        all_same (λ n. is_some (joint_at m r n))
          (λ n. is_some (m.name_to_id joint (joint_name r.robot_name n)))
          (λ n. find_joint-is_some m (joint_name r.robot_name n)) (range 7 0) in
      let acts =
        all_same (λ n. is_some (actuators_at m r n))
          (λ n.
            is_some (m.name_to_id actuator (trq_name r.robot_name n))
            && is_some (m.name_to_id actuator (vel_name r.robot_name n))
            && is_some (m.name_to_id actuator (pos_name r.robot_name n)))
          (find_actuators-is_some m r.robot_name) (range 7 0) in
      let fingers =
        all_same (λ n. is_some (finger_at m r n))
          (λ n. is_some (m.name_to_id joint (finger_name r.robot_name n)))
          (λ n. find_joint-is_some m (finger_name r.robot_name n)) (range 2 0) in
      populate_indices-loops r
      ∙ all_equal r.has_gripper (is_some (m.name_to_id actuator (gripper_act_name r.robot_name)))
          (fill_array-all (link_at m r) 9 0) (fill_array-all (site_at m r) 9 0)
          (fill_array-all (joint_at m r) 7 0 ∙ joints)
          (fill_array-all (actuators_at m r) 7 0 ∙ acts)
          (fill_array-all (finger_at m r) 2 0 ∙ fingers)
