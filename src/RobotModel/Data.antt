-- ===== src/RobotModel/Data.antt =====
-- franka_multi_mode_controller/multi_mode_controller/src/robot_data.cpp: what the controllers of a robot know
-- of it in a cycle.
use franka_gazebo.Prelude.{Bool, true, Option, none, some, List, [], if◌then◌else◌}
use franka_gazebo.StateMessage.{FullState}
use franka_gazebo.Simulation.ModelSim.{end_effector}
use franka_gazebo.RobotModel.{
  LoanedInterface, FrankaRobotModel, model_body_jacobian, model_zero_jacobian, model_mass,
  model_coriolis, update_state_and_model, initialize_model, ask_model, get_robot_state,
}

pub record RobotData (D : Type 0) : Type 0 where
  pub frm : FrankaRobotModel D
  pub state : FullState D
  pub coriolis : List D
  pub ee_zero_jacobian : List D
  pub ee_body_jacobian : List D
  pub mass : List D

module _ {D : Type 0} where
  unfoldable pub activate_model : List (LoanedInterface D) → RobotData D → RobotData D × Bool
  unfolding initialize_model
  activate_model loaned d =
      (record d { frm = initialize_model (record d.frm { loaned_interfaces = loaned }) }, true)

  unfoldable pub deactivate_model : RobotData D → RobotData D × Bool
  deactivate_model d = (record d { frm = record d.frm { loaned_interfaces = [] } }, true)

  -- One assignment of `update`: an answer of the component, put into the data.
  abbrev pub take_answer :
      {A : Type 0} (answer : FrankaRobotModel D → Option (A × FrankaRobotModel D))
      (put : A → RobotData D → RobotData D)
      → RobotData D
      → Option (RobotData D)
  take_answer answer put d = elim (answer d.frm) [
    | none ↦ none
    | some (a, frm') ↦ some (put a (record d { frm = frm' }))
  ]

  abbrev pub then_take :
      Option (RobotData D) → (RobotData D → Option (RobotData D)) → Option (RobotData D)
  then_take none f = none
  then_take (some d) f = f d

  abbrev pub take_values : RobotData D → Option (RobotData D)
  take_values d =
      then_take
        (then_take
          (then_take
            (then_take (take_answer get_robot_state (λ s k. record k { state = s }) d)
              (take_answer (ask_model model_coriolis) (λ c k. record k { coriolis = c })))
            (take_answer (ask_model (λ m. model_zero_jacobian m end_effector))
              (λ z k. record k { ee_zero_jacobian = z })))
          (take_answer (ask_model (λ m. model_body_jacobian m end_effector))
            (λ b k. record k { ee_body_jacobian = b })))
        (take_answer (ask_model model_mass) (λ w k. record k { mass = w }))

  unfoldable pub update_robot_data : RobotData D → Option (RobotData D)
  unfolding update_state_and_model ask_model get_robot_state
  update_robot_data d =
      let (frm', found) = update_state_and_model d.frm in
      if found then take_values (record d { frm = frm' }) else some (record d { frm = frm' })
