-- ===== src/RobotModel/Fresh.antt =====
-- What robot_data.cpp knows of a robot after a cycle.
use franka_gazebo.Prelude.{
  ◌≡◌, refl, ap, true, false, none, some, List, ◌++◌, Name, codes, subst, sym,
}
use franka_gazebo.StateMessage.{FullState}
use franka_gazebo.Simulation.ModelSim.{end_effector}
use franka_gazebo.RobotModel.{
  ModelBase, state_at, model_at, LoanedInterface, FrankaRobotModel, find_loaned,
  model_body_jacobian, model_zero_jacobian, model_mass, model_coriolis, update_state_and_model,
  initialize_model, ask_model, get_robot_state,
}
use franka_gazebo.RobotModel.Data.{RobotData, activate_model, update_robot_data}

abbrev pub state_name : Name → Name
state_name arm = arm ++ codes "/" ++ codes "robot_state"

abbrev pub model_name : Name → Name
model_name arm = arm ++ codes "/" ++ codes "robot_model"

module _ {D : Type 0} where
  -- The component as an update that finds both interfaces leaves it.
  abbrev pub pointing : ModelBase D → FullState D → FrankaRobotModel D → FrankaRobotModel D
  pointing m s r = record r { robot_model = some m; robot_state_ptr = some s }

  -- All that is known of the robot comes from one state.
  abbrev pub known_from : ModelBase D → FullState D → RobotData D → RobotData D
  known_from m s d = record d {
    state = s;
    coriolis = model_coriolis m s;
    ee_zero_jacobian = model_zero_jacobian m end_effector s;
    ee_body_jacobian = model_body_jacobian m end_effector s;
    mass = model_mass m s;
  }

  update_pointing :
      (m : ModelBase D) (s : FullState D) (r : FrankaRobotModel D)
      → find_loaned (state_name r.arm_id) r.loaned_interfaces ≡ some (state_at s)
      → find_loaned (model_name r.arm_id) r.loaned_interfaces ≡ some (model_at m)
      → update_state_and_model r ≡ (pointing m s r, true)
  unfolding update_state_and_model
  update_pointing m s r h k = rw (h, k, update_state_and_model) refl

  activate_model-pointing :
      (m : ModelBase D) (s : FullState D) (loaned : List (LoanedInterface D)) (d : RobotData D)
      → find_loaned (state_name d.frm.arm_id) loaned ≡ some (state_at s)
      → find_loaned (model_name d.frm.arm_id) loaned ≡ some (model_at m)
      → activate_model loaned d ≡ (
        record d {
          frm = record (pointing m s d.frm) { loaned_interfaces = loaned; initialized = true };
        },
        true,
      )
  unfolding activate_model initialize_model
  activate_model-pointing m s loaned d h k =
      rw (update_pointing m s (record d.frm { loaned_interfaces = loaned }) h k, initialize_model)
        refl

  -- If the interfaces that are loaned at the activation have the robot's state and model among them, then
  -- whatever was known or pointed to before, the next cycle is defined and gives the controllers the state
  -- with the Coriolis forces, Jacobians and masses that the model computes for this very state.
  pub activate_model-update_robot_data :
      (m : ModelBase D) (s : FullState D) (loaned : List (LoanedInterface D)) (d : RobotData D)
      → find_loaned (state_name d.frm.arm_id) loaned ≡ some (state_at s)
      → find_loaned (model_name d.frm.arm_id) loaned ≡ some (model_at m)
      → update_robot_data (activate_model loaned d).0
        ≡ some (known_from m s (activate_model loaned d).0)
  unfolding update_robot_data ask_model get_robot_state
  activate_model-update_robot_data m s loaned d h k =
      let a = activate_model-pointing m s loaned d h k in
      let r : FrankaRobotModel D = record (pointing m s d.frm) {
        loaned_interfaces = loaned;
        initialized = true;
      } in
      subst (λ p. update_robot_data p.0 ≡ some (known_from m s p.0)) (sym a)
        (rw (update_pointing m s r h k, update_robot_data) refl)

  update_missing :
      (r : FrankaRobotModel D)
      → find_loaned (state_name r.arm_id) r.loaned_interfaces ≡ none
      → update_state_and_model r ≡ (r, false)
  unfolding update_state_and_model
  update_missing r h = rw (h, update_state_and_model) refl

  activate_model_missing :
      (loaned : List (LoanedInterface D)) (d : RobotData D)
      → find_loaned (state_name d.frm.arm_id) loaned ≡ none
      → activate_model loaned d
        ≡ (record d { frm = record d.frm { loaned_interfaces = loaned } }, true)
  unfolding activate_model initialize_model
  activate_model_missing loaned d h =
      rw (update_missing (record d.frm { loaned_interfaces = loaned }) h, initialize_model) refl

  -- Without the interface of the state, the activation reports success all the same, and the cycles leave
  -- what was known as it was.
  pub activate_model_without :
      (loaned : List (LoanedInterface D)) (d : RobotData D)
      → find_loaned (state_name d.frm.arm_id) loaned ≡ none
      → ((activate_model loaned d).1 ≡ true)
        × (update_robot_data (activate_model loaned d).0 ≡ some (activate_model loaned d).0)
  unfolding update_robot_data
  activate_model_without loaned d h =
      let a = activate_model_missing loaned d h in
      let r : FrankaRobotModel D = record d.frm { loaned_interfaces = loaned } in
      (
        ap (λ p. p.1) a,
        subst (λ p. update_robot_data p.0 ≡ some p.0) (sym a)
            (rw (update_missing r h, update_robot_data) refl),
      )
