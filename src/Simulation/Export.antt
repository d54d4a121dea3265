-- ===== src/Simulation/Export.antt =====
-- `export_state_interfaces` and `export_command_interfaces` of franka_mj_hardware_system.cpp, in the terms of
-- Hardware/Export; the loops over the joints are the same.
use franka_gazebo.Prelude.{
  ℕ, ◌≡◌, refl, Option, none, some, List, [], ◌∷◌, ◌++◌, Name, codes, Map, All, All-append, Both,
  Option-cases, inl, inr, arith, subst,
}
use mathlib.Core.Option.{some-injective}
use franka_gazebo.Common.Names.{get_ns, get_joint_no, at}
use franka_gazebo.Hardware.Init.{JointInfo}
use franka_gazebo.Hardware.Export.{
  held, Field, state_pointer, model_pointer, Exported, seven_entries, touch, at_joint, each_name,
  export_joints, command_kinds, state_kinds,
}
use franka_gazebo.Hardware.Export.Addresses.{IsNamed, own_joints, export_joints-own_joints}

-- The pointers of an arm, in maps beside `arms_`.
abbrev pub arm_pointers : Name × Name → List Exported
arm_pointers (arm, name) =
    record {
      prefix = name;
      interface = codes "robot_state";
      address = record { home = held arm; field = state_pointer; index = 0 };
    }
    ∷ record {
      prefix = name;
      interface = codes "robot_model";
      address = record { home = held arm; field = model_pointer; index = 0 };
    }
    ∷ []

unfoldable pub sim_export_state_interfaces :
    List JointInfo → Map Name → Option (List Exported × Map Name)
unfolding export_joints each_name
sim_export_state_interfaces joints m = elim (export_joints state_kinds joints m) [
  | none ↦ none
  | some (es, m') ↦ some (es ++ each_name arm_pointers m', m')
]

unfoldable pub sim_export_command_interfaces :
    List JointInfo → Map Name → Option (List Exported × Map Name)
unfolding export_joints
sim_export_command_interfaces joints m = export_joints command_kinds joints m

-- The address is one in a container or map that the system holds.
abbrev pub IsHeld : Exported → Type 0
IsHeld x = (arm : Name) × (x.address.home ≡ held arm)

at_joint-IsHeld :
    (joint : Name) (i : ℕ) (kinds : List (Name × Field)) → All IsHeld (at_joint joint i kinds)
at_joint-IsHeld joint i [] = tt
at_joint-IsHeld joint i (k ∷ kinds) = ((get_ns joint, refl), at_joint-IsHeld joint i kinds)

each_name-IsHeld : (m : Map Name) → All IsHeld (each_name arm_pointers m)
unfolding each_name
each_name-IsHeld [] = tt
each_name-IsHeld ((arm, name) ∷ m) = ((arm, refl), ((arm, refl), each_name-IsHeld m))

export_joints-IsHeld :
    (kinds : List (Name × Field)) (js : List JointInfo) (m : Map Name) (es : List Exported)
    (m' : Map Name)
    → export_joints kinds js m ≡ some (es, m')
    → All IsHeld es
unfolding export_joints
export_joints-IsHeld kinds [] m es m' h =
    subst (λ (p : List Exported × Map Name). All IsHeld p.0) (some-injective _ _ h) tt
export_joints-IsHeld kinds (j ∷ js) m es m' h = elim (Option-cases (get_joint_no j.name)) [
  | inl e ↦ absurd (ground (arith, e))
  | inr (n, e) ↦ elim (Option-cases (at seven_entries n)) [
    | inl f ↦ absurd (ground (arith, e, f))
    | inr (i, f) ↦ elim (Option-cases (export_joints kinds js (touch (get_ns j.name) m))) [
      | inl g ↦ absurd (ground (arith, e, f, g))
      | inr ((rest, m1), g) ↦
          let same : some (at_joint j.name i kinds ++ rest, m1) ≡ some (es, m') =
            rw (e, f, g, export_joints) at h in
          subst (λ (p : List Exported × Map Name). All IsHeld p.0) (some-injective _ _ same)
            (All-append IsHeld (at_joint j.name i kinds) rest (at_joint-IsHeld j.name i kinds)
              (export_joints-IsHeld kinds js (touch (get_ns j.name) m) rest m1 g))
    ]
  ]
]

-- The addresses of all interfaces that an export hands out are held.
abbrev pub AreHeld : Option (List Exported × Map Name) → Type 0
AreHeld none = Unit
AreHeld (some (es, m)) = All IsHeld es

sim_command-AreHeld :
    (js : List JointInfo) (m : Map Name) → AreHeld (sim_export_command_interfaces js m)
unfolding sim_export_command_interfaces
sim_command-AreHeld js m = elim (Option-cases (export_joints command_kinds js m)) [
  | inl e ↦ rw e tt
  | inr ((es, m'), e) ↦ rw e (export_joints-IsHeld command_kinds js m es m' e)
]

sim_state-AreHeld :
    (js : List JointInfo) (m : Map Name) → AreHeld (sim_export_state_interfaces js m)
unfolding sim_export_state_interfaces
sim_state-AreHeld js m = elim (Option-cases (export_joints state_kinds js m)) [
  | inl e ↦ rw (e, sim_export_state_interfaces) tt
  | inr ((es, m'), e) ↦
      rw (e, sim_export_state_interfaces)
        (All-append IsHeld es (each_name arm_pointers m')
          (export_joints-IsHeld state_kinds js m es m' e) (each_name-IsHeld m'))
]

-- If every joint has the name of one of the seven joints of an arm in the map, both exports of the
-- simulation succeed and hand out for joint `k` of an arm the entry `k - 1` of that arm's own arrays, and
-- then the pointers to the state and model of each arm. No interface points into a copy of a container.
pub sim_export-own_joints :
    (m : Map Name) (ids : List (Name × ℕ)) (js : List JointInfo)
    → Both (IsNamed m) ids js
    → (sim_export_command_interfaces js m ≡ some (own_joints command_kinds ids, m))
      × (sim_export_state_interfaces js m
          ≡ some (own_joints state_kinds ids ++ each_name arm_pointers m, m))
      × AreHeld (sim_export_command_interfaces js m)
      × AreHeld (sim_export_state_interfaces js m)
unfolding sim_export_command_interfaces sim_export_state_interfaces
sim_export-own_joints m ids js h = (
  export_joints-own_joints command_kinds m ids js h,
  rw (sim_export_state_interfaces, export_joints-own_joints state_kinds m ids js h) refl,
  sim_command-AreHeld js m,
  sim_state-AreHeld js m,
)
