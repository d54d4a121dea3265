-- ===== src/RobotModel.antt =====
-- franka_semantic_components/src/franka_robot_model.cpp with its header, and
-- franka_hardware/include/franka_hardware/common/model_base.hpp: the component through which controllers ask
-- for a robot's dynamics, and the interface of the models. A method of the component whose pointers are not
-- set, or point to something else, is undefined, which `none` stands for.
pub mod Data
pub mod Fresh
use franka_gazebo.Prelude.{
  Bool, true, false, Option, none, some, List, [], ◌∷◌, ◌++◌, Name, codes, same, if◌then◌else◌,
}
use franka_gazebo.StateMessage.{FullState}
use franka_gazebo.Simulation.ModelSim.{Frame}

-- The virtual methods of `ModelBase`, and the vector of gravity that it has as a constant.
pub record ModelBase (D : Type 0) : Type 0 where
  pub pose_with : Frame → (q f_t_ee ee_t_k : List D) → List D
  pub body_jacobian_with : Frame → (q f_t_ee ee_t_k : List D) → List D
  pub zero_jacobian_with : Frame → (q f_t_ee ee_t_k : List D) → List D
  pub mass_with : (q i_total : List D) (m_total : D) (f_x_ctotal : List D) → List D
  pub coriolis_with : (q dq i_total : List D) (m_total : D) (f_x_ctotal : List D) → List D
  pub gravity_with : (q : List D) (m_total : D) (f_x_ctotal gravity_earth : List D) → List D
  pub standard_gravity : List D

module _ {D : Type 0} where
  -- The methods that get a state.
  unfoldable pub model_pose : ModelBase D → Frame → FullState D → List D
  model_pose m f s = m.pose_with f s.joints.q s.transforms.f_t_ee s.transforms.ee_t_k

  unfoldable pub model_body_jacobian : ModelBase D → Frame → FullState D → List D
  model_body_jacobian m f s =
      m.body_jacobian_with f s.joints.q s.transforms.f_t_ee s.transforms.ee_t_k

  unfoldable pub model_zero_jacobian : ModelBase D → Frame → FullState D → List D
  model_zero_jacobian m f s =
      m.zero_jacobian_with f s.joints.q s.transforms.f_t_ee s.transforms.ee_t_k

  unfoldable pub model_mass : ModelBase D → FullState D → List D
  model_mass m s = m.mass_with s.joints.q s.inertias.i_total s.masses.m_total s.centers.f_x_ctotal

  unfoldable pub model_coriolis : ModelBase D → FullState D → List D
  model_coriolis m s =
      m.coriolis_with s.joints.q s.joints.dq s.inertias.i_total s.masses.m_total
        s.centers.f_x_ctotal

  unfoldable pub model_gravity : ModelBase D → FullState D → List D
  model_gravity m s =
      m.gravity_with s.joints.q s.masses.m_total s.centers.f_x_ctotal m.standard_gravity

-- What the value of a loaned interface points to.
pub data Pointee (D : Type 0) : Type 0 where
  state_at : FullState D → Pointee D
  model_at : ModelBase D → Pointee D

pub record LoanedInterface (D : Type 0) : Type 0 where
  pub loaned_name : Name
  pub pointee : Pointee D

pub record FrankaRobotModel (D : Type 0) : Type 0 where
  pub arm_id : Name
  pub loaned_interfaces : List (LoanedInterface D)
  pub initialized : Bool
  pub robot_model : Option (ModelBase D)
  pub robot_state_ptr : Option (FullState D)

module _ {D : Type 0} where
  abbrev pub find_loaned : Name → List (LoanedInterface D) → Option (Pointee D)
  find_loaned n [] = none
  find_loaned n (i ∷ is) = if same i.loaned_name n then some i.pointee else find_loaned n is

  abbrev pub as_state : Pointee D → Option (FullState D)
  as_state (state_at s) = some s
  as_state (model_at m) = none

  abbrev pub as_model : Pointee D → Option (ModelBase D)
  as_model (state_at s) = none
  as_model (model_at m) = some m

  unfoldable pub update_state_and_model : FrankaRobotModel D → FrankaRobotModel D × Bool
  update_state_and_model r =
      elim (find_loaned (r.arm_id ++ codes "/" ++ codes "robot_state") r.loaned_interfaces) [
        | none ↦ (r, false)
        | some p ↦
            elim (find_loaned (r.arm_id ++ codes "/" ++ codes "robot_model") r.loaned_interfaces) [
              | none ↦ (r, false)
              | some q ↦ (record r { robot_model = as_model q; robot_state_ptr = as_state p }, true)
            ]
      ]

  unfoldable pub initialize_model : FrankaRobotModel D → FrankaRobotModel D
  unfolding update_state_and_model
  initialize_model r =
      let (r', found) = update_state_and_model r in
      if found then record r' { initialized = true } else r'

  -- The start of the methods that ask the model.
  abbrev pub initialized_one : FrankaRobotModel D → FrankaRobotModel D
  initialized_one r = if r.initialized then r else initialize_model r

  -- A method that asks the model for something about the state; the component may be initialized by it.
  unfoldable pub ask_model :
      {A : Type 0} (question : ModelBase D → FullState D → A)
      → FrankaRobotModel D
      → Option (A × FrankaRobotModel D)
  unfolding initialize_model
  ask_model question r =
      let r' = initialized_one r in
      elim r'.robot_model [
        | none ↦ none
        | some m ↦ elim r'.robot_state_ptr [ none ↦ none | some s ↦ some (question m s, r') ]
      ]

  unfoldable pub get_robot_state : FrankaRobotModel D → Option (FullState D × FrankaRobotModel D)
  unfolding initialize_model
  get_robot_state r =
      let r' = initialized_one r in elim r'.robot_state_ptr [ none ↦ none | some s ↦ some (s, r') ]
