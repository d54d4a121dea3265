-- ===== src/Simulation/ModelSim/Joints.antt =====
-- What model_sim.hpp computes for an arm whose parts robot_sim.cpp has found.
use franka_gazebo.Prelude.{
  ℕ, zero, suc, ◌+◌, ◌*◌, ◌<◌, ◌≡◌, refl, sym, ap, subst, ◌∙◌, arith, Option, some, List, [], ◌∷◌,
  ◌++◌, Name, codes, map, get_elem?, get_or, Option-cases, inl, inr,
}
use franka_gazebo.Common.Double.{Double}
use franka_gazebo.Hardware.Init.{to_string}
use franka_gazebo.Simulation.Engine.{Gains}
use franka_gazebo.Simulation.RobotSim.{
  MjModel, site, joint, JointIndices, RobotSim, site_name, joint_name, find_joint, populate_indices,
}
use franka_gazebo.Simulation.RobotSim.Found.{Filled}
use franka_gazebo.Simulation.RobotSim.Parts.{site_at, joint_at}
use franka_gazebo.Simulation.RobotSim.Populated.{populate_indices-IsPopulated}
use franka_gazebo.Simulation.ModelSim.{
  Mujoco, ModelIndices, set_model_indices, Frame, joint1, joint2, joint3, joint4, joint5, joint6,
  joint7, flange, end_effector, frame_index, site_of, table, to_col_major, qvel_at, mass_impl,
  pose_impl, end_effector_pose,
}
use franka_gazebo.Simulation.ModelSim.Tables.{table-get, table-equal, table-get_or}

Filled-at :
    {A : Type 0} (step : ℕ → Option A) (count n : ℕ) (xs : List A) (i : ℕ) (d : A)
    → Filled step count n xs
    → i < count
    → step (n + i) ≡ some (get_or xs i d)
Filled-at step zero n xs i d h l = absurd (omega arith)
Filled-at step (suc count) n [] i d h l = absurd h
Filled-at step (suc count) n (x ∷ xs) zero d h l = subst (λ k. step k ≡ some x) (omega arith) h.0
Filled-at step (suc count) n (x ∷ xs) (suc i) d h l =
    subst (λ k. step k ≡ some (get_or xs i d)) (omega arith)
      (Filled-at step count (n + 1) xs i d h.1 (omega arith))

Filled-at_0 :
    {A : Type 0} (step : ℕ → Option A) (count : ℕ) (xs : List A) (i : ℕ) (d : A)
    → Filled step count 0 xs
    → i < count
    → step i ≡ some (get_or xs i d)
Filled-at_0 step count xs i d h l =
    subst (λ k. step k ≡ some (get_or xs i d)) (omega arith) (Filled-at step count 0 xs i d h l)

get_or-map :
    {A : Type 0} (f : A → ℕ) (xs : List A) (i : ℕ) (d : A)
    → f d ≡ 0
    → get_or (map f xs) i 0 ≡ f (get_or xs i d)
get_or-map f [] i d e = sym e
get_or-map f (x ∷ xs) zero d e = refl
get_or-map f (x ∷ xs) (suc i) d e = get_or-map f xs i d e

find_joint-qvel :
    (m : MjModel) (s : Name) (j : JointIndices)
    → find_joint m s ≡ some j
    → (a : ℕ) × (m.name_to_id joint s ≡ some a) × (j.qvel ≡ m.jnt_dofadr a)
unfolding find_joint
find_joint-qvel m s j h = elim (Option-cases (m.name_to_id joint s)) [
  | inl e ↦ absurd (ground (arith, e))
  | inr (a, e) ↦ (a, e, ground (arith, e))
]

-- The site that stands for a frame, by its name in the engine's model.
abbrev pub frame_name : Name → Frame → Name
frame_name robot flange = robot ++ codes "_flange_site"
frame_name robot end_effector = robot ++ codes "_ee_site"
frame_name robot Frame.other = robot ++ codes "_ee_site"
frame_name robot f = robot ++ codes "_joint" ++ to_string (frame_index f + 1) ++ codes "_site"

site_name-frame_index :
    (robot : Name) (f : Frame) → site_name robot (frame_index f) ≡ frame_name robot f
site_name-frame_index robot joint1 = refl
site_name-frame_index robot joint2 = refl
site_name-frame_index robot joint3 = refl
site_name-frame_index robot joint4 = refl
site_name-frame_index robot joint5 = refl
site_name-frame_index robot joint6 = refl
site_name-frame_index robot joint7 = refl
site_name-frame_index robot _ = refl

frame_index-bound : (f : Frame) → frame_index f < 9
frame_index-bound joint1 = omega arith
frame_index-bound joint2 = omega arith
frame_index-bound joint3 = omega arith
frame_index-bound joint4 = omega arith
frame_index-bound joint5 = omega arith
frame_index-bound joint6 = omega arith
frame_index-bound joint7 = omega arith
frame_index-bound flange = omega arith
frame_index-bound _ = omega arith

module _ (m : MjModel) (r k : RobotSim) (h : populate_indices m r ≡ some k) where
  -- The sites that the poses and Jacobians are computed for are those that the engine's model has under the
  -- names of the arm's joints, its flange and its end effector.
  pub site_of-populate_indices :
      (f : Frame)
      → m.name_to_id site (frame_name r.robot_name f) ≡ some (site_of (set_model_indices k) f)
  unfolding site_of set_model_indices
  site_of-populate_indices f =
      subst (λ s. m.name_to_id site s ≡ some (get_or k.joint_sites (frame_index f) 0))
        (site_name-frame_index r.robot_name f)
        (Filled-at_0 (site_at m r) 9 k.joint_sites (frame_index f) 0
          (populate_indices-IsPopulated m r k h).found_sites (frame_index-bound f))

  -- The velocity of joint `i` has the index that the model gives to the joint of this name.
  qvel_at-populate_indices :
      (i : ℕ)
      → i < 7
      → (a : ℕ) × (m.name_to_id joint (joint_name r.robot_name i) ≡ some a)
        × (qvel_at (set_model_indices k) i ≡ m.jnt_dofadr a)
  unfolding set_model_indices
  qvel_at-populate_indices i l =
      let zeros : JointIndices = record { index = 0; qvel = 0; qpos = 0 } in
      let (a, named, e) =
        find_joint-qvel m (joint_name r.robot_name i) (get_or k.arm_joints i zeros) (
          Filled-at_0 (joint_at m r) 7 k.arm_joints i zeros
            (populate_indices-IsPopulated m r k h).found_joints l) in
      (a, named, get_or-map (λ (j : JointIndices). j.qvel) k.arm_joints i zeros refl ∙ e)

  module _ {D : Type 0} (mj : Mujoco D) where
    -- The entry of the mass matrix for two of the arm's seven joints is the one that the engine's matrix has
    -- for the joints of these names.
    pub mass_impl-populate_indices :
        (i j : ℕ)
        → i < 7
        → j < 7
        → (a b : ℕ) × (m.name_to_id joint (joint_name r.robot_name i) ≡ some a)
          × (m.name_to_id joint (joint_name r.robot_name j) ≡ some b)
          × (get_elem? (mass_impl mj (set_model_indices k)) (i * 7 + j)
              ≡ some (mj.full_mass (m.jnt_dofadr a * mj.nv + m.jnt_dofadr b)))
    unfolding mass_impl
    mass_impl-populate_indices i j l n =
        let x = set_model_indices k in
        let (a, e, p) = qvel_at-populate_indices i l in
        let (b, f, q) = qvel_at-populate_indices j n in
        (
          a,
          b,
          e,
          f,
          table-get (λ i j. mj.full_mass (qvel_at x i * mj.nv + qvel_at x j)) 7 7 0 i j l n
              ∙ ap (λ c. some (mj.full_mass (qvel_at x c * mj.nv + qvel_at x j))) (omega arith)
              ∙ ap (λ c. some (mj.full_mass (c * mj.nv + qvel_at x j))) p
              ∙ ap (λ c. some (mj.full_mass (m.jnt_dofadr a * mj.nv + c))) q,
        )

    -- The engine's mass matrix is symmetric, and the degrees of freedom of joints are among its rows.
    pub record HasSymmetricMass : Type 0 where
      pub symmetric :
          (i j : ℕ)
          → i < mj.nv
          → j < mj.nv
          → mj.full_mass (i * mj.nv + j) ≡ mj.full_mass (j * mj.nv + i)
      pub bounded : (a : ℕ) → m.jnt_dofadr a < mj.nv

    -- The mass matrix is built in the order of its rows, but handed on as if in that of its columns; as the
    -- engine's matrix is symmetric, both are the same.
    pub mass_impl-to_col_major :
        HasSymmetricMass
        → (d : D)
        → to_col_major 7 7 (λ i. get_or (mass_impl mj (set_model_indices k)) i d)
          ≡ mass_impl mj (set_model_indices k)
    unfolding mass_impl to_col_major
    mass_impl-to_col_major v d =
        let x = set_model_indices k in
        let entry : ℕ → ℕ → D = λ i j. mj.full_mass (qvel_at x i * mj.nv + qvel_at x j) in
        table-equal (λ c r. get_or (table entry 7 7 0) (r * 7 + c) d) entry 7 7 0
          (λ c r l n.
            let (a, e, p) = qvel_at-populate_indices c (omega arith) in
            let (b, f, q) = qvel_at-populate_indices r n in
            table-get_or entry 7 7 r c d n (omega arith)
            ∙ v.symmetric (qvel_at x r) (qvel_at x c) (subst (λ z. z < mj.nv) (sym q) (v.bounded b))
                (subst (λ z. z < mj.nv) (sym p) (v.bounded a)))

-- The pose that `populateFrankaState` writes to `O_T_EE` is the one that `poseImpl` gives for the flange.
module _ {D : Type 0} ⦃d : Double D⦄ ⦃g : Gains D⦄ (mj : Mujoco D) where
  end_effector_pose-pose_impl : (x : ModelIndices) → end_effector_pose mj x ≡ pose_impl mj x flange
  unfolding end_effector_pose pose_impl site_of
  end_effector_pose-pose_impl x = refl
