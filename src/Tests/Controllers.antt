-- ===== src/Tests/Controllers.antt =====
-- The theorems on multi_mode_controller.cpp at two arms and three controllers.
use franka_gazebo.Prelude.{
  ◌≡◌, ◌⊎◌, ◌<◌, refl, inl, inr, arith, ℕ, zero, suc, true, false, some, List, [], ◌∷◌, Name, codes,
  find, same, Bool-cases, same-eq,
}
use franka_gazebo.MultiMode.Resources.{resource_to_vector, push_back_resources, split_first}
use franka_gazebo.MultiMode.ControlSet.{
  ControllerInfo, Controller, ControllerMsg, MultiModeController, value, index_of,
  get_control_set_from_info, setup_control_set, infos_of, set_controllers_callback,
  get_controllers_callback, controller_of, add_old, count_usages, count_usage, is_used_once, starts,
}
use franka_gazebo.MultiMode.ControlSet.Usage.{indices}
use franka_gazebo.MultiMode.ControlSet.Exclusive.{IsWired}
use franka_gazebo.MultiMode.ControlSet.Service.{
  InStep, IsStocked, IsServed, set_controllers_callback_lem,
}
use franka_gazebo.MultiMode.Torques.{update}
use franka_gazebo.MultiMode.Torques.Delivered.{tau_of, update_own}

abbrev joint_on_left : ControllerInfo
joint_on_left = record { name = codes "J"; resource = codes "L" }

abbrev joint_on_right : ControllerInfo
joint_on_right = record { name = codes "J"; resource = codes "R" }

abbrev dual : ControllerInfo
dual = record { name = codes "D"; resource = codes "L&R" }

-- The dual controller is active.
abbrev start : MultiModeController ℕ
start = record {
  robot_index = (codes "L", 0) ∷ (codes "R", 1) ∷ [];
  arms =
      record { arm_id = codes "L"; tau = 0 ∷ [] }
      ∷ record { arm_id = codes "R"; tau = 0 ∷ [] }
      ∷ [];
  control_map = (codes "D", codes "L&R" ∷ []) ∷ (codes "J", codes "L" ∷ codes "R" ∷ []) ∷ [];
  resources = (codes "L", 0 ∷ []) ∷ (codes "L&R", 0 ∷ 1 ∷ []) ∷ (codes "R", 1 ∷ []) ∷ [];
  active_control_set = record { info = dual; tau = 0 ∷ 1 ∷ [] } ∷ [];
  events = starts dual ∷ [];
}

start-in_range : (r : Name) → index_of start.robot_index r < 2
start-in_range r = ground arith

start-resources :
    (r : Name) (tau : List ℕ)
    → find r start.resources ≡ some tau
    → tau ≡ indices start.robot_index (resource_to_vector r)
unfolding resource_to_vector push_back_resources split_first
start-resources r tau e = elim (Bool-cases (same (codes "L") r)) [
  | inl p ↦ rw (← same-eq (codes "L") r p) (ground (arith, p))
  | inr p ↦ elim (Bool-cases (same (codes "L&R") r)) [
    | inl q ↦ rw (← same-eq (codes "L&R") r q) (ground (arith, p, q))
    | inr q ↦ elim (Bool-cases (same (codes "R") r)) [
      | inl t ↦ rw (← same-eq (codes "R") r t) (ground (arith, p, q, t))
      | inr t ↦ absurd (ground (arith, p, q, t))
    ]
  ]
]

start-IsWired : IsWired start
unfolding resource_to_vector push_back_resources split_first
start-IsWired = record {
  in_range = start-in_range;
  resources = start-resources;
  active = (refl, tt);
}

start-IsStocked : IsStocked start
start-IsStocked name r created e h = elim (Bool-cases (same (codes "D") name)) [
  | inl p ↦ ground (arith, p)
  | inr p ↦ ground (arith, p)
]

start-InStep : InStep start
start-InStep i = ground arith

abbrev request : List ControllerMsg
request = record { name = codes "J"; resources = codes "L" ∷ codes "R" ∷ [] } ∷ []

set_controllers_callback_lem_example :
    (set_controllers_callback start request ≡ some (start, false))
    ⊎ ((c' : MultiModeController ℕ) × (set_controllers_callback start request ≡ some (c', true))
        × IsServed start request c')
set_controllers_callback_lem_example =
    set_controllers_callback_lem start request start-IsWired start-IsStocked start-InStep

abbrev single : List Controller
single =
    record { info = joint_on_left; tau = 0 ∷ [] }
    ∷ record { info = joint_on_right; tau = 1 ∷ [] }
    ∷ []

is_set_up : setup_control_set start (joint_on_left ∷ joint_on_right ∷ []) ≡ value single
unfolding setup_control_set get_control_set_from_info controller_of add_old count_usages count_usage
    is_used_once resource_to_vector push_back_resources split_first
is_set_up = refl

-- The dual controller computes 5 for its first arm and 6 for the others.
abbrev torque : Controller → ℕ → List ℕ
torque x zero = 5 ∷ []
torque x (suc n) = 6 ∷ []

update_own_example : tau_of (update torque start).0.arms 1 ≡ some (6 ∷ [])
update_own_example =
    update_own torque start [] (record { info = dual; tau = 0 ∷ 1 ∷ [] }) [] 1 1 refl (ground arith)
      refl refl

-- `getControllersCallback` names the active controllers.
listed_controllers :
    get_controllers_callback start ≡ record { name = codes "D"; resources = codes "L&R" ∷ [] } ∷ []
unfolding get_controllers_callback
listed_controllers = refl

-- A request for one arm alone drops the dual controller, and leaves the other arm without one.
refused :
    set_controllers_callback start (record { name = codes "J"; resources = codes "L" ∷ [] } ∷ [])
    ≡ some (start, false)
unfolding set_controllers_callback infos_of setup_control_set get_control_set_from_info
    controller_of add_old count_usages count_usage is_used_once resource_to_vector
    push_back_resources split_first
refused = refl
