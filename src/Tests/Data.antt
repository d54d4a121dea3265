-- ===== src/Tests/Data.antt =====
-- The data of a robot as its interfaces are loaned.
use franka_gazebo.Prelude.{ℕ, ◌≡◌, refl, true, false, none, some, List, [], ◌∷◌, codes}
use franka_gazebo.RobotModel.{ModelBase, state_at, model_at, LoanedInterface}
use franka_gazebo.RobotModel.Data.{RobotData, activate_model, update_robot_data}
use franka_gazebo.RobotModel.Fresh.{
  known_from, activate_model-update_robot_data, activate_model_without,
}
use franka_gazebo.Tests.States.{in_reflex}

abbrev model : ModelBase ℕ
model = record {
  pose_with = λ f q e k. q;
  body_jacobian_with = λ f q e k. e;
  zero_jacobian_with = λ f q e k. k;
  mass_with = λ q i m x. m ∷ q;
  coriolis_with = λ q dq i m x. dq;
  gravity_with = λ q m x g. g;
  standard_gravity = 0 ∷ 0 ∷ 9 ∷ [];
}

-- Nothing is known yet, and the pointers are not set.
abbrev unknown : RobotData ℕ
unknown = record {
  frm = record {
    arm_id = codes "panda";
    loaned_interfaces = [];
    initialized = false;
    robot_model = none;
    robot_state_ptr = none;
  };
  state = in_reflex;
  coriolis = [];
  ee_zero_jacobian = [];
  ee_body_jacobian = [];
  mass = [];
}

abbrev loaned : List (LoanedInterface ℕ)
loaned =
    record { loaned_name = codes "panda/robot_model"; pointee = model_at model }
    ∷ record { loaned_name = codes "panda/robot_state"; pointee = state_at in_reflex }
    ∷ []

activate_model-update_robot_data_example :
    update_robot_data (activate_model loaned unknown).0
    ≡ some (known_from model in_reflex (activate_model loaned unknown).0)
activate_model-update_robot_data_example =
    activate_model-update_robot_data model in_reflex loaned unknown refl refl

-- An activation without interfaces is reported as a success.
activated_without : (activate_model [] unknown).1 ≡ true
activated_without = (activate_model_without [] unknown refl).0
