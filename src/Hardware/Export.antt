-- ===== src/Hardware/Export.antt =====
-- `export_state_interfaces` and `export_command_interfaces` of franka_multi_hardware_interface.cpp. Of
-- `arms_` they use the keys and the fields `robot_name_`, which is the map here. Both loops over `arms_`
-- run over copies of the containers, so there are addresses in the map and addresses in such a copy. The
-- result is `none` where `at` throws.
pub mod Addresses
use franka_gazebo.Prelude.{
  ℕ, ◌+◌, Option, none, some, List, [], ◌∷◌, ◌++◌, Name, codes, Map, find, assign, map,
}
use franka_gazebo.Common.Names.{get_ns, get_joint_no, at}
use franka_gazebo.Hardware.Init.{JointInfo}

-- A container that `arms_` holds, or the copy of it that a loop makes.
pub data Home : Type 0 where
  held copied : Name → Home

pub data Field : Type 0 where
  hw_commands_joint_effort hw_commands_joint_position hw_commands_joint_velocity : Field
  hw_commands_cartesian_position hw_commands_cartesian_velocity : Field
  hw_positions hw_velocities hw_efforts hw_cartesian_positions hw_cartesian_velocities : Field
  state_pointer model_pointer : Field

pub record Address : Type 0 where
  pub home : Home
  pub field : Field
  pub index : ℕ

-- `StateInterface` and `CommandInterface`.
pub record Exported : Type 0 where
  pub prefix : Name
  pub interface : Name
  pub address : Address

abbrev pub cartesian_matrix_names : List Name
cartesian_matrix_names =
    codes "00"
    ∷ codes "01"
    ∷ codes "02"
    ∷ codes "03"
    ∷ codes "04"
    ∷ codes "05"
    ∷ codes "06"
    ∷ codes "07"
    ∷ codes "08"
    ∷ codes "09"
    ∷ codes "10"
    ∷ codes "11"
    ∷ codes "12"
    ∷ codes "13"
    ∷ codes "14"
    ∷ codes "15"
    ∷ []

abbrev pub cartesian_velocity_command_names : List Name
cartesian_velocity_command_names =
    codes "tx" ∷ codes "ty" ∷ codes "tz" ∷ codes "omega_x" ∷ codes "omega_y" ∷ codes "omega_z" ∷ []

abbrev pub seven_entries : List ℕ
seven_entries = 0 ∷ 1 ∷ 2 ∷ 3 ∷ 4 ∷ 5 ∷ 6 ∷ []

-- `arms_[ns]`: a container that is missing is put in, with an empty name.
abbrev pub touch : Name → Map Name → Map Name
touch ns m = elim (find ns m) [ none ↦ assign ns [] m | some name ↦ m ]

-- The interfaces of one joint at entry `i` of the arrays.
abbrev pub at_joint : Name → ℕ → List (Name × Field) → List Exported
at_joint joint i kinds =
    map
      (λ k. record {
        prefix = joint;
        interface = k.0;
        address = record { home = held (get_ns joint); field = k.1; index = i };
      })
      kinds

-- The loop over the joints.
unfoldable pub export_joints :
    List (Name × Field) → List JointInfo → Map Name → Option (List Exported × Map Name)
export_joints kinds [] m = some ([], m)
export_joints kinds (j ∷ js) m = elim (get_joint_no j.name) [
  | none ↦ none
  | some n ↦ elim (at seven_entries n) [
    | none ↦ none
    | some i ↦ elim (export_joints kinds js (touch (get_ns j.name) m)) [
      | none ↦ none
      | some (rest, m') ↦ some (at_joint j.name i kinds ++ rest, m')
    ]
  ]
]

-- The interfaces of one Cartesian array, from entry `i` on.
abbrev pub at_copy : Name → Name → Field → List Name → ℕ → List Exported
at_copy arm prefix field [] i = []
at_copy arm prefix field (n ∷ ns) i =
    record {
      prefix = prefix;
      interface = n;
      address = record { home = copied arm; field = field; index = i };
    }
    ∷ at_copy arm prefix field ns (i + 1)

abbrev pub arm_commands : Name × Name → List Exported
arm_commands (arm, name) =
    at_copy arm (name ++ codes "_ee_cartesian_position") hw_commands_cartesian_position
      cartesian_matrix_names 0
    ++ at_copy arm (name ++ codes "_ee_cartesian_velocity") hw_commands_cartesian_velocity
        cartesian_velocity_command_names 0

-- The two interfaces of an entry of the matrices, from entry `i` on.
abbrev pub state_entries : Name → Name → List Name → ℕ → List Exported
state_entries arm name [] i = []
state_entries arm name (n ∷ ns) i =
    at_copy arm (name ++ codes "_ee_cartesian_position") hw_cartesian_positions (n ∷ []) i
    ++ at_copy arm (name ++ codes "_ee_cartesian_velocity") hw_cartesian_velocities (n ∷ []) i
    ++ state_entries arm name ns (i + 1)

-- The pointers to the state and to the model are in maps beside `arms_`.
abbrev pub arm_states : Name × Name → List Exported
arm_states (arm, name) =
    state_entries arm name cartesian_matrix_names 0
    ++ record {
      prefix = name;
      interface = codes "robot_state";
      address = record { home = held arm; field = state_pointer; index = 0 };
    }
      ∷ record {
        prefix = name;
        interface = codes "robot_model";
        address = record { home = held arm; field = model_pointer; index = 0 };
      }
      ∷ []

unfoldable pub each_name : (Name × Name → List Exported) → Map Name → List Exported
each_name f [] = []
each_name f (p ∷ m) = f p ++ each_name f m

abbrev pub command_kinds : List (Name × Field)
command_kinds =
    (codes "effort", hw_commands_joint_effort)
    ∷ (codes "position", hw_commands_joint_position)
    ∷ (codes "velocity", hw_commands_joint_velocity)
    ∷ []

abbrev pub state_kinds : List (Name × Field)
state_kinds =
    (codes "position", hw_positions)
    ∷ (codes "velocity", hw_velocities)
    ∷ (codes "effort", hw_efforts)
    ∷ []

unfoldable pub export_command_interfaces :
    List JointInfo → Map Name → Option (List Exported × Map Name)
unfolding export_joints each_name
export_command_interfaces joints m = elim (export_joints command_kinds joints m) [
  | none ↦ none
  | some (es, m') ↦ some (es ++ each_name arm_commands m', m')
]

unfoldable pub export_state_interfaces :
    List JointInfo → Map Name → Option (List Exported × Map Name)
unfolding export_joints each_name
export_state_interfaces joints m = elim (export_joints state_kinds joints m) [
  | none ↦ none
  | some (es, m') ↦ some (es ++ each_name arm_states m', m')
]
