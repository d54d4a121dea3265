-- ===== src/Tests/Setups.antt =====
-- The configuration of multi_mode_controller.cpp for two arms and two controllers.
use franka_gazebo.Prelude.{
  All, ◌≡◌, ◌≢◌, refl, ℕ, zero, suc, true, Option, some, none, List, [], ◌∷◌, Name, codes, Map,
  find,
}
use franka_gazebo.MultiMode.Resources.{resource_to_vector, push_back_resources, split_first}
use franka_gazebo.MultiMode.ControlSet.{
  MultiModeController, get_control_set_from_info, controller_of,
}
use franka_gazebo.MultiMode.ControlSet.{
  Controller, ControllerMsg, stops, starts, set_controllers_callback, infos_of, setup_control_set,
  add_old, count_usages, count_usage, is_used_once,
}
use franka_gazebo.MultiMode.Torques.{update}
use franka_gazebo.MultiMode.Steps.{Reach, here, next, serves, updates, IsReady, on_activate-IsReady}
use franka_gazebo.MultiMode.Setup.{
  Setting, configure_arms, add_resources, add_controllers, start_infos, init_controllers,
  on_configure, on_activate,
}
use franka_gazebo.MultiMode.Setup.Pointers.{HasPointers}

abbrev parameters : Map (List Name)
parameters =
    (codes "controllers", codes "D" ∷ codes "J" ∷ [])
    ∷ (codes "resources.D", codes "L&R" ∷ [])
    ∷ (codes "resources.J", codes "L" ∷ codes "R" ∷ [])
    ∷ (codes "start_controllers.names", codes "D" ∷ [])
    ∷ (codes "start_controllers.resources.D", codes "L&R" ∷ [])
    ∷ []

abbrev value_of : Option (List Name) → List Name
value_of none = []
value_of (some ns) = ns

abbrev name_of : ℕ → Option Name
name_of zero = none
name_of (suc zero) = some (codes "L")
name_of (suc (suc n)) = some (codes "R")

abbrev setting : Setting
setting = record {
  arm_id = name_of;
  strings = λ n. value_of (find n parameters);
  robot_data_init = λ n. true;
  is_registered = λ n. true;
  engine_init = λ n. true;
  control_init = λ n r. true;
}

abbrev configured : MultiModeController ℕ
configured = record {
  robot_index = (codes "L", 0) ∷ (codes "R", 1) ∷ [];
  arms =
      record { arm_id = codes "L"; tau = 0 ∷ [] }
      ∷ record { arm_id = codes "R"; tau = 0 ∷ [] }
      ∷ [];
  control_map = (codes "D", codes "L&R" ∷ []) ∷ (codes "J", codes "L" ∷ codes "R" ∷ []) ∷ [];
  resources = (codes "L", 0 ∷ []) ∷ (codes "L&R", 0 ∷ 1 ∷ []) ∷ (codes "R", 1 ∷ []) ∷ [];
  active_control_set =
      record { info = record { name = codes "D"; resource = codes "L&R" }; tau = 0 ∷ 1 ∷ [] } ∷ [];
  events = [];
}

is_configured : on_configure setting (0 ∷ []) (suc 1) ≡ some (configured, true)
unfolding on_configure configure_arms init_controllers add_controllers add_resources start_infos
    get_control_set_from_info controller_of resource_to_vector push_back_resources split_first
is_configured = refl

-- One controller for each arm takes over, and a cycle writes their torques.
abbrev request : List ControllerMsg
request = record { name = codes "J"; resources = codes "L" ∷ codes "R" ∷ [] } ∷ []

abbrev one_each : List Controller
one_each =
    record { info = record { name = codes "J"; resource = codes "L" }; tau = 0 ∷ [] }
    ∷ record { info = record { name = codes "J"; resource = codes "R" }; tau = 1 ∷ [] }
    ∷ []

abbrev switched : MultiModeController ℕ
switched = record configured {
  active_control_set = one_each;
  events =
      starts (record { name = codes "D"; resource = codes "L&R" })
      ∷ stops (record { name = codes "D"; resource = codes "L&R" })
      ∷ starts (record { name = codes "J"; resource = codes "L" })
      ∷ starts (record { name = codes "J"; resource = codes "R" })
      ∷ [];
}

is_served : set_controllers_callback (on_activate configured) request ≡ some (switched, true)
unfolding on_activate set_controllers_callback infos_of setup_control_set get_control_set_from_info
    controller_of add_old count_usages count_usage is_used_once resource_to_vector
    push_back_resources split_first
is_served = refl

abbrev torque : Controller → ℕ → List ℕ
torque x n = 5 ∷ []

a_history : Reach (on_activate configured) (update torque switched).0
a_history = next (next here (serves request true is_served)) (updates torque refl)

on_activate-IsReady_example :
    IsReady (update torque switched).0
    × All
        (HasPointers (update torque switched).0.robot_index (update torque switched).0.arms)
        (update torque switched).0.active_control_set
    × ((req : List ControllerMsg) → set_controllers_callback (update torque switched).0 req ≢ none)
on_activate-IsReady_example =
    on_activate-IsReady setting (0 ∷ []) 1 configured (update torque switched).0 is_configured
      a_history
