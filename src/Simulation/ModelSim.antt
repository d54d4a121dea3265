-- ===== src/Simulation/ModelSim.antt =====
-- franka_hardware/include/franka_hardware/sim/model_sim.hpp: the class `ModelSim`, which computes poses,
-- Jacobians and dynamics of a simulated arm from MuJoCo's model and data. MuJoCo's functions and arrays are
-- an argument. An array that MuJoCo fills is a function of the index, one that the class fills a list.
pub mod Tables
pub mod Joints
use franka_gazebo.Prelude.{ℕ, zero, suc, ◌+◌, ◌*◌, List, [], ◌∷◌, ◌++◌, Name, map, get_or}
use franka_gazebo.Common.Double.{Double}
use franka_gazebo.Simulation.{Actuators}
use franka_gazebo.Simulation.Engine.{Gains}
use franka_gazebo.Simulation.RobotSim.{JointIndices, RobotSim}

pub record Pose (D : Type 0) : Type 0 where
  pub pos : ℕ → D
  pub quat : ℕ → D

-- The functions of MuJoCo with the model and data that they are called for; `mul_mat` also gets the
-- numbers of rows and columns.
pub record Mujoco (D : Type 0) : Type 0 where
  pub quat_to_mat : (ℕ → D) → ℕ → D
  pub mat_to_quat : (ℕ → D) → ℕ → D
  pub neg_pose : Pose D → Pose D
  pub mul_pose : Pose D → Pose D → Pose D
  pub mul_mat : (ℕ → D) → (ℕ → D) → (r1 c1 c2 : ℕ) → ℕ → D
  pub jac_site : ℕ → (ℕ → D) × (ℕ → D)
  pub full_mass : ℕ → D
  pub nv : ℕ
  pub xpos : ℕ → D
  pub xquat : ℕ → D
  pub site_xpos : ℕ → D
  pub site_xmat : ℕ → D
  pub bias_force : ℕ → D
  pub gravity_force : ℕ → D

pub record ModelIndices : Type 0 where
  pub link_indices : List ℕ
  pub joint_site_indices : List ℕ
  pub joint_indices : List ℕ
  pub joint_qpos_indices : List ℕ
  pub joint_qvel_indices : List ℕ
  pub act_trq_indices : List ℕ
  pub act_pos_indices : List ℕ
  pub act_vel_indices : List ℕ

-- `setIndices` with the arguments that `setModelIndices` gives it.
unfoldable pub set_model_indices : RobotSim → ModelIndices
set_model_indices r = record {
  link_indices = r.links;
  joint_site_indices = r.joint_sites;
  joint_indices = map (λ (j : JointIndices). j.index) r.arm_joints;
  joint_qpos_indices = map (λ (j : JointIndices). j.qpos) r.arm_joints;
  joint_qvel_indices = map (λ (j : JointIndices). j.qvel) r.arm_joints;
  act_trq_indices = map (λ (a : Actuators). a.trq) r.actuators;
  act_pos_indices = map (λ (a : Actuators). a.pos) r.actuators;
  act_vel_indices = map (λ (a : Actuators). a.vel) r.actuators;
}

-- `franka::Frame`; `other` stands for what falls to `default`.
pub data Frame : Type 0 where
  joint1 joint2 joint3 joint4 joint5 joint6 joint7 flange end_effector other : Frame

-- The `switch` of the three methods that get a frame, as an index into the sites.
abbrev pub frame_index : Frame → ℕ
frame_index joint1 = 0
frame_index joint2 = 1
frame_index joint3 = 2
frame_index joint4 = 3
frame_index joint5 = 4
frame_index joint6 = 5
frame_index joint7 = 6
frame_index flange = 7
frame_index end_effector = 8
frame_index other = 8

unfoldable pub site_of : ModelIndices → Frame → ℕ
site_of x f = get_or x.joint_site_indices (frame_index f) 0

-- `count` values of a function from `n` on, and the values for `rows` rows from `i` on: the nested loops.
abbrev pub values {ℓ} : {A : Type ℓ} → (ℕ → A) → (count n : ℕ) → List A
values f zero n = []
values f (suc count) n = f n ∷ values f count (n + 1)

abbrev pub table {ℓ} : {A : Type ℓ} → (ℕ → ℕ → A) → (rows cols i : ℕ) → List A
table f zero cols i = []
table f (suc rows) cols i = values (f i) cols 0 ++ table f rows cols (i + 1)

-- `convertToColMajor`, as a comment calls the loops.
unfoldable pub to_col_major {ℓ} : {A : Type ℓ} → (rows cols : ℕ) → (ℕ → A) → List A
to_col_major rows cols a = table (λ col row. a (row * cols + col)) cols rows 0

abbrev pub qvel_at : ModelIndices → ℕ → ℕ
qvel_at x j = get_or x.joint_qvel_indices j 0

module _ {D : Type 0} (mj : Mujoco D) where
  unfoldable pub get_x_pos_quat_by_link : ℕ → Pose D
  get_x_pos_quat_by_link l = record {
    pos = λ i. mj.xpos (3 * l + i);
    quat = λ i. mj.xquat (4 * l + i);
  }

  unfoldable pub get_x_pos_quat_by_site : ℕ → Pose D
  get_x_pos_quat_by_site s = record {
    pos = λ i. mj.site_xpos (3 * s + i);
    quat = mj.mat_to_quat (λ i. mj.site_xmat (9 * s + i));
  }

  unfoldable pub get_b_in_a_frame : (a b : ℕ) → Pose D
  unfolding get_x_pos_quat_by_link
  get_b_in_a_frame a b =
      mj.mul_pose (mj.neg_pose (get_x_pos_quat_by_link a)) (get_x_pos_quat_by_link b)

  unfoldable pub get_b_site_in_a_linkframe : (a b : ℕ) → Pose D
  unfolding get_x_pos_quat_by_link get_x_pos_quat_by_site
  get_b_site_in_a_linkframe a b =
      mj.mul_pose (mj.neg_pose (get_x_pos_quat_by_link a)) (get_x_pos_quat_by_site b)

  unfoldable pub get_6x7_jacobian : ModelIndices → ℕ → List D
  get_6x7_jacobian x l =
      let (jacp, jacr) = mj.jac_site l in
      table (λ i j. jacp (i * mj.nv + qvel_at x j)) 3 7 0
      ++ table (λ i j. jacr (i * mj.nv + qvel_at x j)) 3 7 0

  unfoldable pub mass_impl : ModelIndices → List D
  mass_impl x = table (λ i j. mj.full_mass (qvel_at x i * mj.nv + qvel_at x j)) 7 7 0

  unfoldable pub coriolis_impl : (minus : D → D → D) → ModelIndices → List D
  coriolis_impl minus x =
      values (λ i. minus (mj.bias_force (qvel_at x i)) (mj.gravity_force (qvel_at x i))) 7 0

  unfoldable pub gravity_impl : ModelIndices → List D
  gravity_impl x = values (λ i. mj.gravity_force (qvel_at x i)) 7 0

module _ {D : Type 0} ⦃d : Double D⦄ ⦃g : Gains D⦄ (mj : Mujoco D) where
  -- The entries of a list as an array.
  abbrev pub entries : List D → ℕ → D
  entries xs i = get_or xs i d.nought

  unfoldable pub compose_force_transform : Pose D → List D
  compose_force_transform p =
      let r = mj.quat_to_mat p.quat in
      let o = d.nought in
      let cross =
        o
        ∷ g.negate (p.pos 2)
        ∷ p.pos 1
        ∷ p.pos 2
        ∷ o
        ∷ g.negate (p.pos 0)
        ∷ g.negate (p.pos 1)
        ∷ p.pos 0
        ∷ o
        ∷ [] in
      let c = mj.mul_mat (entries cross) r 3 3 3 in
      r 0
      ∷ r 1
      ∷ r 2
      ∷ o
      ∷ o
      ∷ o
      ∷ r 3
      ∷ r 4
      ∷ r 5
      ∷ o
      ∷ o
      ∷ o
      ∷ r 6
      ∷ r 7
      ∷ r 8
      ∷ o
      ∷ o
      ∷ o
      ∷ c 0
      ∷ c 1
      ∷ c 2
      ∷ r 0
      ∷ r 1
      ∷ r 2
      ∷ c 3
      ∷ c 4
      ∷ c 5
      ∷ r 3
      ∷ r 4
      ∷ r 5
      ∷ c 6
      ∷ c 7
      ∷ c 8
      ∷ r 6
      ∷ r 7
      ∷ r 8
      ∷ []

  -- The matrix of a pose, in the order of its columns.
  abbrev pub matrix_of : Pose D → List D
  matrix_of p =
      let r = mj.quat_to_mat p.quat in
      let o = d.nought in
      to_col_major 4 4 (
        entries (
          r 0
          ∷ r 1
          ∷ r 2
          ∷ p.pos 0
          ∷ r 3
          ∷ r 4
          ∷ r 5
          ∷ p.pos 1
          ∷ r 6
          ∷ r 7
          ∷ r 8
          ∷ p.pos 2
          ∷ o
          ∷ o
          ∷ o
          ∷ g.one
          ∷ []))

  unfoldable pub pose_impl : ModelIndices → Frame → List D
  unfolding to_col_major get_b_site_in_a_linkframe site_of
  pose_impl x f = matrix_of (get_b_site_in_a_linkframe mj (get_or x.link_indices 0 0) (site_of x f))

  -- The Jacobian of site `l` in the frame of body `b`.
  abbrev pub jacobian_in : ModelIndices → (b l : ℕ) → List D
  jacobian_in x b l =
      let rotation = compose_force_transform (mj.neg_pose (get_x_pos_quat_by_link mj b)) in
      to_col_major 6 7 (mj.mul_mat (entries rotation) (entries (get_6x7_jacobian mj x l)) 6 6 7)

  -- The number of the site also stands for the body here.
  unfoldable pub body_jacobian_impl : ModelIndices → Frame → List D
  unfolding to_col_major compose_force_transform get_x_pos_quat_by_link get_6x7_jacobian site_of
  body_jacobian_impl x f = jacobian_in x (site_of x f) (site_of x f)

  unfoldable pub zero_jacobian_impl : ModelIndices → Frame → List D
  unfolding to_col_major compose_force_transform get_x_pos_quat_by_link get_6x7_jacobian site_of
  zero_jacobian_impl x f = jacobian_in x (get_or x.link_indices 0 0) (site_of x f)

  -- `O_T_EE` of `RobotSim::populateFrankaState`.
  unfoldable pub end_effector_pose : ModelIndices → List D
  unfolding to_col_major get_b_site_in_a_linkframe
  end_effector_pose x =
      matrix_of
        (get_b_site_in_a_linkframe mj (get_or x.link_indices 0 0) (get_or x.joint_site_indices 7 0))
