-- ===== src/Tests/Exports.antt =====
-- The exports of franka_multi_hardware_interface.cpp for two joints of one arm.
use franka_gazebo.Prelude.{◌≡◌, refl, arith, ℕ, some, List, [], ◌∷◌, ◌++◌, Name, codes, Map, Both}
use franka_gazebo.Hardware.Init.{JointInfo}
use franka_gazebo.Hardware.Export.{
  each_name, arm_commands, arm_states, command_kinds, state_kinds, export_command_interfaces,
  export_state_interfaces,
}
use franka_gazebo.Simulation.Export.{
  arm_pointers, sim_export_state_interfaces, sim_export-own_joints,
}
use franka_gazebo.Hardware.Export.Addresses.{IsNamed, own_joints, export-own_joints}

abbrev names : Map Name
names = (codes "left", codes "left") ∷ []

abbrev joint_named : Name → JointInfo
joint_named n = record { name = n; command_interfaces = []; state_interfaces = [] }

abbrev joints : List JointInfo
joints = joint_named (codes "left_joint1") ∷ joint_named (codes "left_joint7") ∷ []

abbrev ids : List (Name × ℕ)
ids = (codes "left", 1) ∷ (codes "left", 7) ∷ []

joints-IsNamed : Both (IsNamed names) ids joints
joints-IsNamed =
    ((refl, omega arith, omega arith, λ e. cc), ((refl, omega arith, omega arith, λ e. cc), tt))

export-own_joints_example :
    (export_command_interfaces joints names
      ≡ some (own_joints command_kinds ids ++ each_name arm_commands names, names))
    × (export_state_interfaces joints names
        ≡ some (own_joints state_kinds ids ++ each_name arm_states names, names))
export-own_joints_example = export-own_joints names ids joints joints-IsNamed

-- The simulation hands out three states of each joint and two pointers.
sim_exported :
    sim_export_state_interfaces joints names
    ≡ some (own_joints state_kinds ids ++ each_name arm_pointers names, names)
sim_exported = (sim_export-own_joints names ids joints joints-IsNamed).1
