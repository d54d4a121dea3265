-- ===== src/Tests/Engines.antt =====
-- Two simulated arms whose parts are found in a model of MuJoCo.
use Prim.Native.Nat.{◌/◌, ◌%◌}
use mathlib.Core.Option.{some-injective}
use franka_gazebo.Prelude.{
  ℕ, suc, ◌+◌, ◌≡◌, refl, sym, ap, ◌∙◌, arith, true, false, Option, none, some, List, [], ◌∷◌, ◌++◌,
  Name, codes, same, same-eq, if◌then◌else◌, map, replicate, get_elem?, get_or, All, Both,
  Bool-cases, inl, inr,
}
use franka_gazebo.Common.ControlMode.{joint_torque}
use franka_gazebo.Common.Double.{Sample, sample_double}
use franka_gazebo.Common.Kinds.{ok}
use franka_gazebo.Hardware.Init.{HardwareInfo, to_string}
use franka_gazebo.Simulation.{SimArms}
use franka_gazebo.Simulation.Engine.{Engine, set_joints}
use franka_gazebo.Simulation.Cycle.{sim_write, sim_has_bad_command}
use franka_gazebo.Simulation.Cycle.Obedience.{IsObeyed}
use franka_gazebo.Simulation.Init.{
  SimOutside, sim_is_valid_joint, put_positions, set_up_engine, init_sim_arms, init_sim,
}
use franka_gazebo.Simulation.RobotSim.{
  ObjectKind, body, site, joint, actuator, MjModel, RobotSim, new_robot, link_name, site_name,
  joint_name, finger_name, find_joint, find_actuators, find_gripper, populate_indices, sim_outside,
}
use franka_gazebo.Simulation.RobotSim.Found.{is_some, range}
use franka_gazebo.Simulation.RobotSim.Names.{HasUniqueActuators}
use franka_gazebo.Simulation.RobotSim.Separate.{endings_of, HasSameDevices, init_sim-IsObeyed}
use franka_gazebo.Simulation.RobotSim.Parts.{is_complete, populate_indices-is_complete}
use franka_gazebo.Simulation.ModelSim.{Mujoco, set_model_indices, to_col_major, mass_impl}
use franka_gazebo.Simulation.ModelSim.Joints.{HasSymmetricMass, mass_impl-to_col_major}
use franka_gazebo.Tests.{nil, rest}
use franka_gazebo.Tests.Simulated.{sample_gains, engine, joint_info}

abbrev number_of : Name → List Name → ℕ → Option ℕ
number_of s [] n = none
number_of s (t ∷ ts) n = if same t s then some n else number_of s ts (n + 1)

number_of-get :
    (s : Name) (ts : List Name) (n i : ℕ)
    → number_of s ts n ≡ some i
    → (k : ℕ) × (i ≡ n + k) × (get_elem? ts k ≡ some s)
number_of-get s [] n i h = absurd (cc)
number_of-get s (t ∷ ts) n i h = elim (Bool-cases (same t s)) [
  | inl e ↦
      let first : n ≡ i = some-injective _ _ (ground (arith, e)) in
      (0, omega (arith, first), ap some (same-eq t s e))
  | inr e ↦
      let (k, p, q) = number_of-get s ts (n + 1) i (ground (arith, e)) in
      (suc k, omega (arith, p), q)
]

number_of_unique :
    (ts : List Name) (s t : Name) (n : ℕ)
    → number_of s ts 0 ≡ some n
    → number_of t ts 0 ≡ some n
    → s ≡ t
number_of_unique ts s t n h k =
    let (i, p, a) = number_of-get s ts 0 n h in
    let (j, q, b) = number_of-get t ts 0 n k in
    let same_place : i ≡ j = omega (arith, p, q) in
    some-injective _ _ (sym a ∙ ap (get_elem? ts) same_place ∙ b)

-- The names of the objects, the arm on the left with a gripper.
abbrev object_names : ObjectKind → List Name
object_names body =
    map (link_name (codes "left")) (range 9 0) ++ map (link_name (codes "right")) (range 9 0)
object_names site =
    map (site_name (codes "left")) (range 9 0) ++ map (site_name (codes "right")) (range 9 0)
object_names joint =
    map (joint_name (codes "left")) (range 7 0)
    ++ map (finger_name (codes "left")) (range 2 0)
    ++ map (joint_name (codes "right")) (range 7 0)
object_names actuator =
    map (λ s. codes "left" ++ s) (endings_of true)
    ++ map (λ s. codes "right" ++ s) (endings_of false)

abbrev two_arms : MjModel
two_arms = record {
  name_to_id = λ k s. number_of s (object_names k) 0;
  jnt_dofadr = λ j. j % 18;
  jnt_qposadr = λ j. j;
}

two_arms-HasUniqueActuators : HasUniqueActuators two_arms
two_arms-HasUniqueActuators = number_of_unique (object_names actuator)

abbrev outside : SimOutside Sample
outside = sim_outside two_arms (λ j. some (some 7)) rest

abbrev info : HardwareInfo
info = record {
  joints = replicate 14 joint_info;
  hardware_parameters =
      (codes "ns_1", codes "left")
      ∷ (codes "hand_1", codes "True")
      ∷ (codes "ns_2", codes "right")
      ∷ (codes "hand_2", codes "False")
      ∷ [];
}

-- The result, or a default.
abbrev result_of {ℓ} : {A : Type ℓ} → A → Option A → A
result_of a none = a
result_of a (some b) = b

result_of-some {ℓ} :
    {A : Type ℓ} (a : A) (o : Option A) → is_some o ≡ true → o ≡ some (result_of a o)
result_of-some a none h = absurd (cc)
result_of-some a (some b) h = refl

is_set_up : is_some (init_sim outside 2 info engine) ≡ true
unfolding init_sim init_sim_arms set_up_engine put_positions set_joints sim_is_valid_joint to_string
    populate_indices find_gripper find_joint find_actuators
is_set_up = refl

abbrev new : SimArms Sample × Engine Sample
new = result_of ([], engine) (init_sim outside 2 info engine)

-- All arms are in torque mode.
abbrev torque_mode : SimArms Sample → SimArms Sample
torque_mode = map λ p. (p.0, record p.1 { control_mode = joint_torque })

torque_mode-HasSameDevices : (arms : SimArms Sample) → Both HasSameDevices arms (torque_mode arms)
torque_mode-HasSameDevices [] = tt
torque_mode-HasSameDevices (p ∷ arms) = (
  record { same_joints = refl; same_gripper = refl; same_act = refl },
  torque_mode-HasSameDevices arms,
)

is_written : (sim_write (torque_mode new.0) engine).1 ≡ ok
unfolding sim_write sim_has_bad_command init_sim init_sim_arms set_up_engine put_positions
    set_joints sim_is_valid_joint to_string populate_indices find_gripper find_joint find_actuators
is_written = refl

init_sim-IsObeyed_example :
    All (λ p. IsObeyed (sim_write (torque_mode new.0) engine).0 p.1) (torque_mode new.0)
init_sim-IsObeyed_example =
    init_sim-IsObeyed two_arms (λ j. some (some 7)) rest two_arms-HasUniqueActuators 2 info engine
      new (torque_mode new.0) engine
      (result_of-some ([], engine) (init_sim outside 2 info engine) is_set_up)
      (torque_mode-HasSameDevices new.0) is_written

populate_indices-is_complete_example :
    is_some (populate_indices two_arms (new_robot (codes "left") true))
    ≡ is_complete two_arms (new_robot (codes "left") true)
populate_indices-is_complete_example =
    populate_indices-is_complete two_arms (new_robot (codes "left") true)

is_found : is_some (populate_indices two_arms (new_robot (codes "right") false)) ≡ true
unfolding populate_indices find_gripper find_joint find_actuators to_string
is_found = refl

abbrev right_robot : RobotSim
right_robot =
    result_of (new_robot [] false) (populate_indices two_arms (new_robot (codes "right") false))

right_robot-some : populate_indices two_arms (new_robot (codes "right") false) ≡ some right_robot
right_robot-some =
    result_of-some (new_robot [] false)
      (populate_indices two_arms (new_robot (codes "right") false)) is_found

-- An engine whose masses are the sums of the row and the column.
abbrev physics : Mujoco Sample
physics = record {
  quat_to_mat = λ q. q;
  mat_to_quat = λ r. r;
  neg_pose = λ p. p;
  mul_pose = λ p q. q;
  mul_mat = λ a b r1 c1 c2. b;
  jac_site = λ l. ((λ i. some i), (λ i. nil));
  full_mass = λ k. some (k / 18 + k % 18);
  nv = 18;
  xpos = λ i. some i;
  xquat = λ i. some i;
  site_xpos = λ i. some i;
  site_xmat = λ i. some i;
  bias_force = λ i. some i;
  gravity_force = λ i. nil;
}

physics-HasSymmetricMass :
    HasSymmetricMass two_arms (new_robot (codes "right") false) right_robot right_robot-some physics
physics-HasSymmetricMass = record {
  symmetric = λ i j l m. ap some (omega arith);
  bounded = λ a. omega arith;
}

mass_impl-to_col_major_example :
    to_col_major 7 7 (λ i. get_or (mass_impl physics (set_model_indices right_robot)) i nil)
    ≡ mass_impl physics (set_model_indices right_robot)
mass_impl-to_col_major_example =
    mass_impl-to_col_major two_arms (new_robot (codes "right") false) right_robot right_robot-some
      physics physics-HasSymmetricMass nil
