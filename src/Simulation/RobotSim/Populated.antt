-- ===== src/Simulation/RobotSim/Populated.antt =====
-- What `populateIndices` of robot_sim.cpp leaves in the arrays.
use mathlib.Core.Option.{some-injective}
use franka_gazebo.Prelude.{◌≡◌, refl, arith, some, subst, Option-cases, Bool-cases, inl, inr}
use franka_gazebo.Simulation.RobotSim.{
  MjModel, actuator, RobotSim, gripper_act_name, fill_array, find_gripper, populate_indices,
}
use franka_gazebo.Simulation.RobotSim.Found.{Filled, fill_array-Filled}
use franka_gazebo.Simulation.RobotSim.Parts.{
  IsPopulated, link_at, site_at, joint_at, actuators_at, finger_at,
}

module _ (m : MjModel) where
  find_gripper-IsPopulated :
      (r k : RobotSim)
      → find_gripper m r ≡ some k
      → Filled (link_at m r) 9 0 r.links
      → Filled (site_at m r) 9 0 r.joint_sites
      → Filled (joint_at m r) 7 0 r.arm_joints
      → Filled (actuators_at m r) 7 0 r.actuators
      → IsPopulated m r k
  unfolding find_gripper
  find_gripper-IsPopulated r k h ls ss js xs = elim (Bool-cases r.has_gripper) [
    | inl g ↦ elim (Option-cases (fill_array (finger_at m r) 2 0)) [
      | inl e ↦ absurd (ground (arith, g, e))
      | inr (fs, e) ↦ elim (Option-cases (m.name_to_id actuator (gripper_act_name r.robot_name))) [
        | inl f ↦ absurd (ground (arith, g, e, f))
        | inr (id, f) ↦
            let same : record r { gripper_joints = fs; act_idx = id } ≡ k =
              some-injective _ _ (ground (arith, g, e, f)) in
            subst (IsPopulated m r) same record {
              name = refl;
              gripper = refl;
              found_links = ls;
              found_sites = ss;
              found_joints = js;
              found_actuators = xs;
              found_fingers = λ t. fill_array-Filled (finger_at m r) 2 0 fs e;
              found_act = λ t. f;
            }
      ]
    ]
    | inr g ↦
        let same : r ≡ k = some-injective _ _ (ground (arith, g)) in
        subst (IsPopulated m r) same record {
          name = refl;
          gripper = refl;
          found_links = ls;
          found_sites = ss;
          found_joints = js;
          found_actuators = xs;
          found_fingers = λ t. absurd (cc);
          found_act = λ t. absurd (cc);
        }
  ]

  pub populate_indices-IsPopulated :
      (r k : RobotSim) → populate_indices m r ≡ some k → IsPopulated m r k
  unfolding populate_indices
  populate_indices-IsPopulated r k h = elim (Option-cases (fill_array (link_at m r) 9 0)) [
    | inl e ↦ absurd (ground (arith, e))
    | inr (ls, e) ↦ elim (Option-cases (fill_array (site_at m r) 9 0)) [
      | inl f ↦ absurd (ground (arith, e, f))
      | inr (ss, f) ↦ elim (Option-cases (fill_array (joint_at m r) 7 0)) [
        | inl g ↦ absurd (ground (arith, e, f, g))
        | inr (js, g) ↦ elim (Option-cases (fill_array (actuators_at m r) 7 0)) [
          | inl i ↦ absurd (ground (arith, e, f, g, i))
          | inr (xs, i) ↦
              let r' : RobotSim = record r {
                links = ls;
                joint_sites = ss;
                arm_joints = js;
                actuators = xs;
              } in
              let p =
                find_gripper-IsPopulated r' k (rw (e, f, g, i, populate_indices) at h)
                  (fill_array-Filled (link_at m r) 9 0 ls e)
                  (fill_array-Filled (site_at m r) 9 0 ss f)
                  (fill_array-Filled (joint_at m r) 7 0 js g)
                  (fill_array-Filled (actuators_at m r) 7 0 xs i) in
              record {
                name = p.name;
                gripper = p.gripper;
                found_links = p.found_links;
                found_sites = p.found_sites;
                found_joints = p.found_joints;
                found_actuators = p.found_actuators;
                found_fingers = p.found_fingers;
                found_act = p.found_act;
              }
        ]
      ]
    ]
  ]
